-- ===== src/Prelude/Results.antt =====
-- Go's `(value, error)` as one value: an error is its text.
use mathlib.Core.Option.{Option, none, some}
use mathlib.Core.List.{List}
use Prim.Native.Nat.{ℕ}

pub data Fallible {ℓ} (A : Type ℓ) : Type ℓ where
  ok : A → Fallible A
  failure : List ℕ → Fallible A

infixl 5 ◌>>=◌ ◌>>◌
abbrev pub ◌>>=◌ {ℓ κ} : {A : Type ℓ} {B : Type κ} → Fallible A → (A → Fallible B) → Fallible B
ok a >>= f = f a
failure e >>= f = failure e

abbrev pub ◌>>◌ {ℓ} : {B : Type ℓ} → Fallible (Unit {0}) → Fallible B → Fallible B
m >> k = m >>= λ _. k

-- `if err != nil { return err }` after a call that returns an error only.
abbrev pub check : Option (List ℕ) → Fallible (Unit {0})
check none = ok tt
check (some e) = failure e
