-- ===== src/Media/Window.antt =====
-- processor/vad.go: `activityWindow`, how much of the last milliseconds was active.
use gopbx.Prelude.{ℕ, ◌+◌, ◌-◌, ◌≡◌, pos, Bool, List, [], ◌∷◌, ◌++◌, ltb, ◌==◌, if◌then◌else◌}
use gopbx.Media.Floats.{Floats}

pub record ActivityEntry : Type 0 where
  pub duration_ms : ℕ
  pub active : Bool

pub record ActivityWindow : Type 0 where
  pub entries : List ActivityEntry
  pub total_ms : ℕ
  pub active_ms : ℕ

abbrev pub empty_window : ActivityWindow
empty_window = record { entries = []; total_ms = 0; active_ms = 0 }

-- The eviction loop of `Push`.
unfoldable pub evict : ℕ → List ActivityEntry → ℕ → ℕ → ActivityWindow
evict limit [] total active = record { entries = []; total_ms = total; active_ms = active }
evict limit (e ∷ es) total active =
    let rest =
      evict limit es (total - e.duration_ms)
        (if e.active then active - e.duration_ms else active) in
    if ltb limit total
    then rest
    else record { entries = e ∷ es; total_ms = total; active_ms = active }

-- `Push`. A limit of 0 stands for every limit that is not positive.
unfoldable pub push : ActivityWindow → Bool → ℕ → ℕ → ActivityWindow
push w active duration limit =
    let entries = w.entries ++ record { duration_ms = duration; active = active } ∷ [] in
    let total = w.total_ms + duration in
    let active_ms = if active then w.active_ms + duration else w.active_ms in
    if duration == 0
    then w
    else if limit == 0
    then record { entries = entries; total_ms = total; active_ms = active_ms }
    else evict limit entries total active_ms

-- `Ratio`
unfoldable pub ratio : (fl : Floats) → ActivityWindow → fl.Float64
ratio fl w =
    if w.total_ms == 0
    then fl.of_int (pos 0)
    else fl.quotient (fl.of_int (pos w.active_ms)) (fl.of_int (pos w.total_ms))

abbrev pub total_of : List ActivityEntry → ℕ
total_of [] = 0
total_of (e ∷ es) = e.duration_ms + total_of es

abbrev pub active_of : List ActivityEntry → ℕ
active_of [] = 0
active_of (e ∷ es) = (if e.active then e.duration_ms else 0) + active_of es

pub record IsWellFormed (w : ActivityWindow) : Type 0 where
  pub counted : w.total_ms ≡ total_of w.entries
  pub active_counted : w.active_ms ≡ active_of w.entries
