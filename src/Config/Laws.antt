-- ===== src/Config/Laws.antt =====
-- internal/config/validate.go: the check is done once and for all.
use gopbx.Prelude.{◌≡◌, refl, ap, ℤ, [], ◌∷◌, Option, Text, or_else}
use gopbx.Config.{Config, fill_in, timeout_error, validate}

or_else_twice : (a b : Text) → or_else (or_else a b) b ≡ or_else a b
unfolding or_else
or_else_twice [] [] = refl
or_else_twice [] (c ∷ b) = refl
or_else_twice (c ∷ a) b = refl

-- To check a configuration that was checked changes nothing and finds nothing else.
validate_twice :
    (parse_duration : Text → Option ℤ) (c : Config)
    → validate parse_duration (validate parse_duration c).0 ≡ validate parse_duration c
unfolding validate fill_in
validate_twice parse_duration c = ap (λ d. (d, timeout_error parse_duration d)) (simp or_else_twice)
