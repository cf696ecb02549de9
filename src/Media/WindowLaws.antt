-- ===== src/Media/WindowLaws.antt =====
-- The activity window counts what it holds.
use gopbx.Prelude.{ℕ, ◌+◌, ◌-◌, ◌≤◌, ◌<◌, ◌≡◌, Bool, List, [], ◌∷◌, ◌++◌, if◌then◌else◌, arith}
use gopbx.Media.Window.{
  ActivityEntry, ActivityWindow, IsWellFormed, evict, push, total_of, active_of,
}

total_of-append : (xs ys : List ActivityEntry) → total_of (xs ++ ys) ≡ total_of xs + total_of ys
total_of-append [] ys = omega arith
total_of-append (x ∷ xs) ys = omega (arith, total_of-append xs ys)

active_of-append : (xs ys : List ActivityEntry) → active_of (xs ++ ys) ≡ active_of xs + active_of ys
active_of-append [] ys = omega arith
active_of-append (x ∷ xs) ys = omega (arith, active_of-append xs ys)

active_of-le : (es : List ActivityEntry) → active_of es ≤ total_of es
active_of-le [] = omega arith
active_of-le (e ∷ es) = ground (arith, active_of-le es)

evict_lem :
    (limit : ℕ) (es : List ActivityEntry) (total active : ℕ)
    → total ≡ total_of es
    → active ≡ active_of es
    → IsWellFormed (evict limit es total active) × ((evict limit es total active).total_ms ≤ limit)
unfolding evict
evict_lem limit [] total active t a = (record { counted = t; active_counted = a }, omega arith)
evict_lem limit (e ∷ es) total active t a = ground (
  arith,
  evict_lem limit es (total - e.duration_ms) (if e.active then active - e.duration_ms else active),
)

-- The loop's result at the window with the new entry.
pushed :
    (w : ActivityWindow) (active : Bool) (d limit : ℕ)
    → IsWellFormed w
    → let es = w.entries ++ record { duration_ms = d; active = active } ∷ [] in
      let total = w.total_ms + d in
      let active_ms = if active then w.active_ms + d else w.active_ms in
      (total ≡ total_of es)
      × (active_ms ≡ active_of es)
      × IsWellFormed (evict limit es total active_ms)
      × ((evict limit es total active_ms).total_ms ≤ limit)
pushed w active d limit h = (total, active_lem, r.0, r.1)
  where
    entry : ActivityEntry
    entry = record { duration_ms = d; active = active }

    total : w.total_ms + d ≡ total_of (w.entries ++ entry ∷ [])
    total = omega (arith, total_of-append w.entries (entry ∷ []), h.counted)

    active_lem :
        (if active then w.active_ms + d else w.active_ms) ≡ active_of (w.entries ++ entry ∷ [])
    active_lem = ground (arith, active_of-append w.entries (entry ∷ []))

    r :
        IsWellFormed (
          evict limit
            (w.entries ++ entry ∷ [])
            (w.total_ms + d)
            (if active then w.active_ms + d else w.active_ms))
        × ((evict limit
              (w.entries ++ entry ∷ [])
              (w.total_ms + d)
              (if active then w.active_ms + d else w.active_ms)).total_ms
            ≤ limit)
    r = evict_lem limit _ _ _ total active_lem

pub push-IsWellFormed :
    (w : ActivityWindow) (active : Bool) (d limit : ℕ)
    → IsWellFormed w
    → IsWellFormed (push w active d limit)
unfolding push
push-IsWellFormed w active d limit h = ground (arith, pushed w active d limit h)

-- The share of active milliseconds is never more than all of them.
pub active_ms-le : (w : ActivityWindow) → IsWellFormed w → w.active_ms ≤ w.total_ms
active_ms-le w h = omega (arith, active_of-le w.entries, h.counted, h.active_counted)

pub push-total_le :
    (w : ActivityWindow) (active : Bool) (d limit : ℕ)
    → IsWellFormed w
    → 0 < limit
    → w.total_ms ≤ limit
    → (push w active d limit).total_ms ≤ limit
unfolding push
push-total_le w active d limit h l t = ground (arith, pushed w active d limit h)
