-- ===== src/Provider/AliyunConfig.antt =====
-- asr/aliyun.go and tts/aliyun.go: what an Aliyun client is set up with, and what its messages mean. The
-- defaults of the SDK and JSON decoding are parameters.
use gopbx.Prelude.{
  ℕ, zero, ℤ, pos, negsuc, Bool, false, not, ◌||◌, List, [], ◌∷◌, Option, none, some, Text, codes,
  text_eq, is_empty, trim_space, to_lower, or_else, if◌then◌else◌, ltb, ltb_ℤ, ◌==◌,
}
use gopbx.Protocol.Command.{AsrConfig, SynthesisOption}
use gopbx.Media.Asr.{Recognition}

abbrev pub Extra : Type 0
Extra = List (Text × Text)

-- `m[key]`, "" for a key that is not there, and `m[key] = value`.
unfoldable pub get : Extra → Text → Text
get [] key = []
get ((k, v) ∷ m) key = let rest = get m key in if text_eq k key then v else rest

unfoldable pub put : Extra → Text → Text → Extra
put [] key value = (key, value) ∷ []
put ((k, v) ∷ m) key value =
    let rest = put m key value in if text_eq k key then (k, value) ∷ m else (k, v) ∷ rest

-- Keep a text under a key where it is given and not empty.
unfoldable pub put_given : Extra → Text → Option Text → Extra
unfolding put
put_given m key none = m
put_given m key (some v) = if is_empty v then m else put m key v

-- `derefASRString` and `derefTTSString`
unfoldable pub deref_trimmed : Option Text → Text
deref_trimmed none = []
deref_trimmed (some v) = trim_space v

-- `resolveAliyunAppKey` of either file, from the map and the identifier of the application.
unfoldable pub resolve_app_key : Extra → Option Text → Text
unfolding get deref_trimmed
resolve_app_key extra app_id =
    or_else (trim_space (get extra (codes "appKey")))
      (or_else (trim_space (get extra (codes "app_key"))) (deref_trimmed app_id))

-- What the SDK connects with: an address, an application, and a token or a pair of keys.
pub data Credentials : Type 0 where
  with_token : Text → Text → Text → Credentials
  with_keys : Text → Text → Text → Text → Credentials

-- The end of `newAliyunRecognitionConfig` and of `newAliyunSynthesisConfig`, none for a nil config.
unfoldable pub choose_credentials : Text → Text → Text → Text → Text → Option Credentials
choose_credentials address app_key token id key =
    if is_empty app_key
    then none
    else if not (is_empty token)
    then some (with_token address app_key token)
    else if is_empty id || is_empty key
    then none
    else some (with_keys address app_key id key)

-- From the application's key, the map with the token, and the fields of the configuration.
unfoldable pub credentials :
    Text → Text → Extra → Option Text → Option Text → Option Text → Option Credentials
unfolding choose_credentials deref_trimmed get
credentials default_url app_key extra endpoint secret_id secret_key =
    choose_credentials (or_else (deref_trimmed endpoint) default_url) app_key
      (trim_space (get extra (codes "token"))) (deref_trimmed secret_id) (deref_trimmed secret_key)

-- The parameters of the SDK that the code sets.
pub record RecognitionParam : Type 0 where
  pub format : Text
  pub sample_rate : ℕ

pub record SynthesisParam : Type 0 where
  pub voice : Text
  pub format : Text
  pub sample_rate : ℤ
  pub volume : ℤ
  pub speech_rate : ℤ
  pub enable_subtitle : Bool

abbrev option_or {ℓ} : {A : Type ℓ} → Option A → A → A
option_or none default = default
option_or (some v) default = v

-- A rate that is given and positive.
abbrev positive_or : Option ℕ → ℕ → ℕ
positive_or none default = default
positive_or (some n) default = if ltb 0 n then n else default

abbrev positive_or_ℤ : Option ℤ → ℤ → ℤ
positive_or_ℤ none default = default
positive_or_ℤ (some n) default = if ltb_ℤ (pos 0) n then n else default

-- The map that goes to the SDK with a recognition.
unfoldable pub recognition_extra : AsrConfig → Extra
unfolding put_given
recognition_extra cfg =
    put_given
      (put_given (put_given cfg.extra (codes "language") cfg.language) (codes "model") cfg.model)
      (codes "model_type") cfg.model_type

-- `newAliyunRecognitionConfig`
unfoldable pub new_aliyun_recognition_config :
    Text → RecognitionParam → Option AsrConfig → Option Credentials × RecognitionParam × Extra
unfolding credentials recognition_extra get resolve_app_key
new_aliyun_recognition_config default_url defaults none =
    (none, record defaults { format = codes "pcm" }, [])
new_aliyun_recognition_config default_url defaults (some cfg) =
    let format = get cfg.extra (codes "format") in
    let param = record defaults {
      format = if is_empty (trim_space format) then codes "pcm" else format;
      sample_rate = positive_or cfg.samplerate defaults.sample_rate;
    } in
    (
      credentials default_url (resolve_app_key cfg.extra cfg.app_id) (recognition_extra cfg)
          cfg.endpoint cfg.secret_id cfg.secret_key,
      param,
      recognition_extra cfg,
    )

-- The format of a synthesis: PCM, unless the codec is WAV.
unfoldable pub synthesis_format : Option Text → Text
unfolding deref_trimmed
synthesis_format codec =
    let name = to_lower (deref_trimmed codec) in
    if text_eq name (codes "wav") then name else codes "pcm"

-- `newAliyunSynthesisConfig`
unfoldable pub new_aliyun_synthesis_config :
    Text → SynthesisParam → Option SynthesisOption → Option Credentials × SynthesisParam × Extra
unfolding credentials synthesis_format deref_trimmed resolve_app_key
new_aliyun_synthesis_config default_url defaults none = (none, defaults, [])
new_aliyun_synthesis_config default_url defaults (some cfg) =
    let param : SynthesisParam = record {
      voice = or_else (deref_trimmed cfg.speaker) defaults.voice;
      format = synthesis_format cfg.codec;
      sample_rate = positive_or_ℤ cfg.samplerate defaults.sample_rate;
      volume = option_or cfg.volume defaults.volume;
      speech_rate = option_or cfg.speed defaults.speech_rate;
      enable_subtitle = option_or cfg.subtitle defaults.enable_subtitle;
    } in
    (
      credentials default_url (resolve_app_key cfg.extra cfg.app_id) cfg.extra cfg.endpoint
          cfg.secret_id cfg.secret_key,
      param,
      cfg.extra,
    )

-- `aliyunRecognitionStash`, `aliyunRecognitionPayload` and `aliyunRecognitionResponse`, as far as they are
-- read.
pub record Stash : Type 0 where
  pub begin_time : ℤ
  pub message : Text

pub record Payload : Type 0 where
  pub time : ℤ
  pub result : Text
  pub begin_time : ℤ
  pub stash_result : Option Stash

pub record RecognitionResponse : Type 0 where
  pub name : Text
  pub status : ℤ
  pub payload : Option Payload

-- A time that is not 0, or another.
abbrev pub nonzero_or : ℤ → ℤ → ℤ
nonzero_or (pos zero) other = other
nonzero_or t other = t

abbrev pub stash_message : Option Stash → Text
stash_message none = []
stash_message (some s) = trim_space s.message

abbrev pub stash_time : Option Stash → ℤ
stash_time none = pos 0
stash_time (some s) = s.begin_time

abbrev pub is_ok : ℤ → Bool
is_ok (pos n) = n == 20000000
is_ok (negsuc n) = false

-- What is made of a payload.
unfoldable pub result_of : Text → Bool → Payload → Option Recognition
result_of name final p =
    let message = or_else (trim_space p.result) (stash_message p.stash_result) in
    let start = nonzero_or p.begin_time (stash_time p.stash_result) in
    if is_empty message
    then none
    else some (record {
      final = final || text_eq (to_lower name) (codes "sentenceend");
      message = message;
      start_time = start;
      end_time = nonzero_or p.time start;
    })

abbrev pub result_from : Bool → Option RecognitionResponse → Option Recognition
result_from final none = none
result_from final (some r) =
    if is_ok r.status
    then (elim r.payload [ none ↦ none | some p ↦ result_of r.name final p ])
    else none

-- `parseAliyunResult`
unfoldable pub parse_aliyun_result :
    (Text → Option RecognitionResponse) → Text → Bool → Option Recognition
unfolding result_of
parse_aliyun_result unmarshal raw final =
    let trimmed = trim_space raw in
    if is_empty trimmed then none else result_from final (unmarshal trimmed)
