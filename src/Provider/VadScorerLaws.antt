-- ===== src/Provider/VadScorerLaws.antt =====
-- vad/scorer.go: the options that pass the checks have a scorer.
use gopbx.Prelude.{
  ◌≡◌, refl, sym, subst, All, ◌⊎◌, inl, inr, Bool, true, false, ◌||◌, List, [], ◌∷◌, Option, none,
  some, Text, codes, text_eq, text_eq_iff, is_empty, trim_space, to_lower, if_intro, Fallible, ok,
  failure, ◌>>=◌,
}
use gopbx.Media.Floats.{Floats}
use gopbx.Protocol.Command.{VadOption}
use gopbx.Provider.VadScorer.{
  Environment, Url, ScorerTarget, resolve_scorer_target, option_errors, endpoint_of, type_of,
  validate_option, new_scorer, scorer_of, parsed_target, url_target, target_error, first_of_errors,
  normalize_type, looks_like_file_path,
}

-- A result with a value.
abbrev pub Succeeds {ℓ} : {A : Type ℓ} → Fallible A → Type 0
Succeeds (ok v) = Unit
Succeeds (failure e) = ⊥

-- The targets that there are.
abbrev Known : ScorerTarget → Type 0
Known t = (t.scheme ≡ codes "native") ⊎ ((t.scheme ≡ codes "http") ⊎ (t.scheme ≡ codes "https"))

abbrev AllKnown : Fallible ScorerTarget → Type 0
AllKnown (ok t) = Known t
AllKnown (failure e) = Unit

or_true : (a b : Bool) → (a || b) ≡ true → (a ≡ true) ⊎ (b ≡ true)
or_true true b e = inl refl
or_true false b e = inr e

http_target-Known :
    (raw scheme : Text)
    → (text_eq scheme (codes "http") || text_eq scheme (codes "https")) ≡ true
    → Known (record { scheme = scheme; endpoint = raw; model_path = [] })
http_target-Known raw scheme e =
    elim (or_true (text_eq scheme (codes "http")) (text_eq scheme (codes "https")) e) [
      | inl h ↦ inr (inl ((text_eq_iff scheme (codes "http")).0 h))
      | inr h ↦ inr (inr ((text_eq_iff scheme (codes "https")).0 h))
    ]

module _ (env : Environment) where
  parsed_target-Known : (raw : Text) (u : Url) → AllKnown (parsed_target env raw u)
  parsed_target-Known raw u =
      let scheme = to_lower (trim_space u.scheme) in
      if_intro AllKnown (text_eq scheme (codes "http") || text_eq scheme (codes "https"))
        (λ e. http_target-Known raw scheme e)
        (λ e.
          if_intro AllKnown (text_eq scheme (codes "cgo") || text_eq scheme (codes "native"))
            (λ f. inl refl) (λ f. tt))

  url_target-Known : (raw : Text) (u : Fallible Url) → AllKnown (url_target env raw u)
  url_target-Known raw (failure e) = tt
  url_target-Known raw (ok u) = parsed_target-Known raw u

  resolve_scorer_target-Known : (endpoint : Text) → AllKnown (resolve_scorer_target env endpoint)
  unfolding resolve_scorer_target
  resolve_scorer_target-Known endpoint =
      let raw = trim_space endpoint in
      if_intro AllKnown (is_empty raw) (λ e. inl refl)
        (λ e.
          if_intro AllKnown (looks_like_file_path raw) (λ f. inl refl)
            (λ f. url_target-Known raw (env.parse_url raw)))

  module _ (fl : Floats) where
    scorer_of-Succeeds : (t : ScorerTarget) → Known t → Succeeds (scorer_of env fl t)
    unfolding text_eq
    scorer_of-Succeeds t (inl e) =
        subst (λ name. Succeeds (scorer_of env fl (record t { scheme = name }))) (sym e) tt
    scorer_of-Succeeds t (inr (inl e)) =
        subst (λ name. Succeeds (scorer_of env fl (record t { scheme = name }))) (sym e) tt
    scorer_of-Succeeds t (inr (inr e)) =
        subst (λ name. Succeeds (scorer_of env fl (record t { scheme = name }))) (sym e) tt

    target_scorer-Succeeds :
        (target : Fallible ScorerTarget)
        → AllKnown target
        → target_error env fl target ≡ none
        → Succeeds (target >>= scorer_of env fl)
    target_scorer-Succeeds (ok t) h e = scorer_of-Succeeds t h
    target_scorer-Succeeds (failure f) h e = cc

    first_of_errors-none :
        (errors : List (Option Text))
        → first_of_errors env fl errors ≡ none
        → All (λ e. e ≡ none) errors
    first_of_errors-none [] h = tt
    first_of_errors-none (none ∷ errors) h = (refl, first_of_errors-none errors h)
    first_of_errors-none (some e ∷ errors) h = cc

    -- Where the options of a call pass the check, the choice of their scorer does not fail, whatever the
    -- environment and the parser of addresses are.
    new_scorer-Succeeds :
        (option : Option (VadOption fl.Float32))
        → validate_option env fl option ≡ none
        → Succeeds (new_scorer env fl option)
    unfolding validate_option new_scorer option_errors trim_space to_lower text_eq normalize_type
    new_scorer-Succeeds none e = tt
    new_scorer-Succeeds (some v) e =
        let (_, (_, (_, (_, (last, _))))) = first_of_errors-none (option_errors env fl v) e in
        if_intro Succeeds (text_eq (normalize_type (type_of env fl (some v))) (codes "hybrid"))
          (λ h.
            target_scorer-Succeeds (resolve_scorer_target env (endpoint_of env fl (some v)))
              (resolve_scorer_target-Known (endpoint_of env fl (some v))) last)
          (λ h. tt)
