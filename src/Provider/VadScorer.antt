-- ===== src/Provider/VadScorer.antt =====
-- internal/adapter/outbound/vad/scorer.go: the checks of a voice detector's options, and the choice of its
-- scorer. `url.Parse`, `filepath.Join` and the environment are parameters.
use gopbx.Prelude.{
  ℕ, Bool, true, false, not, ◌&&◌, ◌||◌, List, [], ◌∷◌, ◌++◌, Option, none, some, Text, codes,
  text_eq, is_empty, after_prefix, trim_space, to_lower, if◌then◌else◌, ◌==◌, Fallible, ok, failure,
  ◌>>=◌,
}
use gopbx.Media.Floats.{Floats}
use gopbx.Protocol.Command.{VadOption}
use gopbx.Session.Track.{format_track_seq}

-- What `url.Parse` finds.
pub record Url : Type 0 where
  pub scheme : Text
  pub host : Text
  pub path : Text

pub record Environment : Type 0 where
  pub parse_url : Text → Fallible Url
  pub join : Text → Text → Text
  pub model_path : Text

-- `scorerTarget`; the model path is the one field of `nativeConfig`.
pub record ScorerTarget : Type 0 where
  pub scheme : Text
  pub endpoint : Text
  pub model_path : Text

-- What `NewScorer` builds: nothing, or a scorer on a model file or on an endpoint.
pub data Scorer : Type 0 where
  no_scorer : Scorer
  native_scorer http_scorer : Text → Scorer

abbrev has_prefix : Text → Text → Bool
has_prefix v prefix = elim (after_prefix prefix v) [ none ↦ false | some rest ↦ true ]

abbrev trim_prefix : Text → Text → Text
trim_prefix v prefix = elim (after_prefix prefix v) [ none ↦ v | some rest ↦ rest ]

abbrev has_suffix : Text → Text → Bool
has_suffix [] suffix = is_empty suffix
has_suffix (c ∷ v) suffix = text_eq (c ∷ v) suffix || has_suffix v suffix

abbrev has_byte : ℕ → Text → Bool
has_byte b [] = false
has_byte b (c ∷ v) = c == b || has_byte b v

unfoldable pub normalize_type : Text → Text
normalize_type name = to_lower (trim_space name)

-- `derefString`
abbrev pub deref {ℓ} : {A : Type ℓ} → Option A → (A → Option Text) → Text
deref none pick = []
deref (some v) pick = elim (pick v) [ none ↦ [] | some t ↦ t ]

unfoldable pub looks_like_file_path : Text → Bool
looks_like_file_path v =
    let trimmed = trim_space v in
    not (is_empty trimmed)
    && (has_prefix trimmed (codes "/")
        || has_prefix trimmed (codes "./")
        || has_prefix trimmed (codes "../")
        || has_byte 92 trimmed
        || has_suffix (to_lower trimmed) (codes ".onnx"))

module _ (env : Environment) where
  unfoldable pub decode_native_model_path : Url → Text
  decode_native_model_path u =
      let path =
        if is_empty u.host
        then u.path
        else if is_empty u.path || text_eq u.path (codes "/")
        then u.host
        else codes "/" ++ trim_prefix (env.join u.host u.path) (codes "/") in
      if text_eq path (codes "/") then [] else path

  abbrev pub native_target : Text → ScorerTarget
  native_target path = record { scheme = codes "native"; endpoint = []; model_path = path }

  -- The switch over the scheme of the parsed address.
  abbrev pub parsed_target : Text → Url → Fallible ScorerTarget
  parsed_target raw u =
      let scheme = to_lower (trim_space u.scheme) in
      let path = decode_native_model_path u in
      if text_eq scheme (codes "http") || text_eq scheme (codes "https")
      then ok (record { scheme = scheme; endpoint = raw; model_path = [] })
      else if text_eq scheme (codes "cgo") || text_eq scheme (codes "native")
      then ok (native_target (if is_empty path then trim_space env.model_path else path))
      else failure (codes "unsupported vad endpoint scheme: " ++ scheme)

  abbrev pub url_target : Text → Fallible Url → Fallible ScorerTarget
  url_target raw (failure e) = failure (codes "invalid vad endpoint: " ++ e)
  url_target raw (ok u) = parsed_target raw u

  unfoldable pub resolve_scorer_target : Text → Fallible ScorerTarget
  unfolding looks_like_file_path decode_native_model_path
  resolve_scorer_target endpoint =
      let raw = trim_space endpoint in
      if is_empty raw
      then ok (native_target (trim_space env.model_path))
      else if looks_like_file_path raw
      then ok (native_target raw)
      else url_target raw (env.parse_url raw)

  module _ (fl : Floats) where
    abbrev pub type_of : Option (VadOption fl.Float32) → Text
    type_of option = deref option (λ v. v.kind)

    abbrev pub endpoint_of : Option (VadOption fl.Float32) → Text
    endpoint_of option = deref option (λ v. v.endpoint)

    unfoldable pub is_segmented : Option (VadOption fl.Float32) → Bool
    unfolding normalize_type
    is_segmented option =
        let name = normalize_type (type_of option) in
        text_eq name (codes "energy") || text_eq name (codes "hybrid")

    abbrev knows_type : Text → Bool
    knows_type name =
        is_empty name
        || text_eq name (codes "passthrough")
        || text_eq name (codes "energy")
        || text_eq name (codes "hybrid")

    abbrev bad_samplerate : Option ℕ → Option Text
    bad_samplerate none = none
    bad_samplerate (some rate) =
        if rate == 8000 || rate == 16000
        then none
        else some (codes "unsupported vad samplerate: " ++ format_track_seq rate)

    abbrev bad_ratio : Option fl.Float32 → Option Text
    bad_ratio none = none
    bad_ratio (some ratio) =
        if fl.le32 ratio (fl.decimal32 0 0)
        then some (codes "vad ratio must be greater than 0")
        else none

    abbrev bad_threshold : Option fl.Float32 → Option Text
    bad_threshold none = none
    bad_threshold (some v) =
        if fl.lt32 v (fl.decimal32 0 0) || fl.lt32 (fl.decimal32 1 0) v
        then some (codes "vad voiceThreshold must be between 0 and 1")
        else none

    abbrev pub target_error : Fallible ScorerTarget → Option Text
    target_error (ok target) = none
    target_error (failure e) = some e

    abbrev pub first_of_errors : List (Option Text) → Option Text
    first_of_errors [] = none
    first_of_errors (none ∷ errors) = first_of_errors errors
    first_of_errors (some e ∷ errors) = some e

    -- The errors of the checks, in their order.
    unfoldable pub option_errors : VadOption fl.Float32 → List (Option Text)
    unfolding normalize_type resolve_scorer_target
    option_errors v =
        (if knows_type (normalize_type (type_of (some v)))
          then none
          else some (codes "unsupported vad type: " ++ type_of (some v)))
        ∷ bad_samplerate v.samplerate
        ∷ bad_ratio v.ratio
        ∷ bad_threshold v.voice_threshold
        ∷ target_error (resolve_scorer_target (endpoint_of (some v)))
        ∷ []

    -- `ValidateOption`: the error of the first check that fails.
    unfoldable pub validate_option : Option (VadOption fl.Float32) → Option Text
    unfolding option_errors
    validate_option none = none
    validate_option (some v) = first_of_errors (option_errors v)

    -- The scorer for a target.
    abbrev pub scorer_of : ScorerTarget → Fallible Scorer
    scorer_of target =
        if is_empty target.scheme
          || text_eq target.scheme (codes "cgo")
          || text_eq target.scheme (codes "native")
        then ok (if is_empty target.model_path then no_scorer else native_scorer target.model_path)
        else if text_eq target.scheme (codes "http") || text_eq target.scheme (codes "https")
        then ok (http_scorer target.endpoint)
        else failure (codes "unsupported vad endpoint scheme: " ++ target.scheme)

    -- `NewScorer`, up to what it builds.
    unfoldable pub new_scorer : Option (VadOption fl.Float32) → Fallible Scorer
    unfolding normalize_type resolve_scorer_target
    new_scorer option =
        let target = resolve_scorer_target (endpoint_of option) in
        if text_eq (normalize_type (type_of option)) (codes "hybrid")
        then target >>= scorer_of
        else ok no_scorer
