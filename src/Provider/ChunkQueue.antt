-- ===== src/Provider/ChunkQueue.antt =====
-- What the stream of a synthesis promises: a bounded queue of chunks that stays shut once it is shut.
use gopbx.Prelude.{
  ℕ, ◌<◌, ◌≤◌, ◌≡◌, sym, ap, ◌∙◌, Bool, true, List, [], ◌∷◌, ◌++◌, Option, Text, arith, length,
  append_assoc, append-nil, length-append,
}

-- The specification: a queue of chunks, and whether it was shut.
pub record ChunkQueue : Type 0 where
  pub items : List (List ℕ)
  pub shut : Bool

-- What can be seen of a step.
pub data Seen : Type 0 where
  accepted : List ℕ → Seen
  delivered : List ℕ → Seen
  finished : Option Text → Seen
  unseen : Seen

-- The queue takes a chunk at its end while it has room for one, gives its first away, and says that it is
-- finished only where it is empty and shut; it stays shut.
pub data Allowed : ChunkQueue → Seen → ChunkQueue → Type 0 where
  accept :
      (q : ChunkQueue) (pcm : List ℕ)
      → length q.items < 32
      → Allowed q (accepted pcm) (record q { items = q.items ++ pcm ∷ [] })
  deliver :
      (q : ChunkQueue) (pcm : List ℕ) (rest : List (List ℕ))
      → q.items ≡ pcm ∷ rest
      → Allowed q (delivered pcm) (record q { items = rest })
  finish :
      (q : ChunkQueue) (err : Option Text)
      → q.items ≡ []
      → q.shut ≡ true
      → Allowed q (finished err) q
  shuts : (q : ChunkQueue) → Allowed q unseen (record q { shut = true })
  rests : (q : ChunkQueue) → Allowed q unseen q

pub data Runs : ChunkQueue → List Seen → ChunkQueue → Type 0 where
  stops : (q : ChunkQueue) → Runs q [] q
  goes :
      {q r s : ChunkQueue} (seen : Seen) (sights : List Seen)
      → Allowed q seen r
      → Runs r sights s
      → Runs q (seen ∷ sights) s

-- The chunks that were taken, and those that were given.
abbrev pub taken : List Seen → List (List ℕ)
taken [] = []
taken (accepted pcm ∷ sights) = pcm ∷ taken sights
taken (_ ∷ sights) = taken sights

abbrev pub given : List Seen → List (List ℕ)
given [] = []
given (delivered pcm ∷ sights) = pcm ∷ given sights
given (_ ∷ sights) = given sights

pub Runs-fifo :
    {q r : ChunkQueue} {sights : List Seen}
    → Runs q sights r
    → q.items ++ taken sights ≡ given sights ++ r.items
Runs-fifo (stops q) = append-nil q.items
Runs-fifo (goes _ later (accept q pcm room) runs) =
    sym (append_assoc q.items (pcm ∷ []) (taken later)) ∙ Runs-fifo runs
Runs-fifo (goes _ later (deliver q pcm rest e) runs) =
    ap (λ xs. xs ++ taken later) e ∙ ap (λ xs. pcm ∷ xs) (Runs-fifo runs)
Runs-fifo (goes _ later (finish q err e h) runs) = Runs-fifo runs
Runs-fifo (goes _ later (shuts q) runs) = Runs-fifo runs
Runs-fifo (goes _ later (rests q) runs) = Runs-fifo runs

pub Runs-bounded :
    {q r : ChunkQueue} {sights : List Seen}
    → Runs q sights r
    → length q.items ≤ 32
    → length r.items ≤ 32
Runs-bounded (stops q) h = h
Runs-bounded (goes _ later (accept q pcm room) runs) h =
    Runs-bounded runs (omega (arith, length-append {0}))
Runs-bounded (goes _ later (deliver q pcm rest e) runs) h =
    Runs-bounded runs (omega (arith, sym (ap length e), h))
Runs-bounded (goes _ later (finish q err e f) runs) h = Runs-bounded runs h
Runs-bounded (goes _ later (shuts q) runs) h = Runs-bounded runs h
Runs-bounded (goes _ later (rests q) runs) h = Runs-bounded runs h
