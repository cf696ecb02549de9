-- ===== src/Prelude/Strings.antt =====
-- Go strings as what they are, sequences of bytes, with the library calls that the source makes on
-- them. `strings.TrimSpace` and `strings.ToLower` are written for ASCII texts.
use Prim.Native.Nat.{ℕ, ◌+◌, ◌-◌}
use Prim.Native.Char.{code}
use Prim.Native.String.{String}
use mathlib.Core.Path.{◌≡◌, refl}
use mathlib.Core.Logic.{◌↔◌}
use mathlib.Core.Bool.{Bool, true, false, ◌&&◌, ◌||◌}
use mathlib.Core.Option.{Option, none, some}
use mathlib.Core.List.{List, [], ◌∷◌, map, reverse}
use native.Mathlib.Omega.{arith}
use gopbx.Prelude.Tests.{if◌then◌else◌, leb, ◌==◌}

abbrev pub Text : Type 0
Text = List ℕ

-- The bytes of an ASCII literal.
abbrev pub codes : String → Text
codes String.[] = []
codes (String.◌∷◌ c s) = code c ∷ codes s

-- `a == b`
unfoldable pub text_eq : Text → Text → Bool
text_eq [] [] = true
text_eq [] (d ∷ t) = false
text_eq (c ∷ s) [] = false
text_eq (c ∷ s) (d ∷ t) = c == d && text_eq s t

pub text_eq_iff : (s t : Text) → (text_eq s t ≡ true) ↔ (s ≡ t)
unfolding text_eq
text_eq_iff [] [] = ((λ _. refl), (λ _. refl))
text_eq_iff [] (d ∷ t) = ((λ e. cc), (λ e. cc))
text_eq_iff (c ∷ s) [] = ((λ e. cc), (λ e. cc))
text_eq_iff (c ∷ s) (d ∷ t) =
    let ih = text_eq_iff s t in ((λ e. ground (arith, ih)), (λ e. ground (arith, ih)))

-- `v == ""`
abbrev pub is_empty {ℓ} : {A : Type ℓ} → List A → Bool
is_empty [] = true
is_empty (c ∷ s) = false

-- What stands after a prefix of a text, none without that prefix: `strings.HasPrefix` and
-- `strings.TrimPrefix` in one.
abbrev pub after_prefix : Text → Text → Option Text
after_prefix [] v = some v
after_prefix (p ∷ prefix) [] = none
after_prefix (p ∷ prefix) (c ∷ v) =
    let rest = after_prefix prefix v in if p == c then rest else none

-- The first of two texts that is not empty.
unfoldable pub or_else : Text → Text → Text
or_else a b = if is_empty a then b else a

is_space : ℕ → Bool
is_space c = c == 32 || leb 9 c && leb c 13

trim_left : Text → Text
trim_left [] = []
trim_left (c ∷ s) = let rest = trim_left s in if is_space c then rest else c ∷ s

-- `strings.TrimSpace`
unfoldable pub trim_space : Text → Text
unfolding is_space trim_left
trim_space s = reverse (trim_left (reverse (trim_left s)))

lower : ℕ → ℕ
lower c = if leb 65 c && leb c 90 then c + 32 else c

-- `strings.ToLower`
unfoldable pub to_lower : Text → Text
unfolding lower
to_lower = map lower

upper : ℕ → ℕ
upper c = if leb 97 c && leb c 122 then c - 32 else c

-- `strings.ToUpper`
unfoldable pub to_upper : Text → Text
unfolding upper
to_upper = map upper
