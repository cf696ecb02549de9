-- ===== src/Protocol/Command.antt =====
-- pkg/wsproto/command.go, internal/compat/command_compat.go and the first-command check of
-- internal/adapter/inbound/ws/command_decoder.go.
use gopbx.Prelude.{ℕ, ℤ, Bool, true, false, List, Option, none, some, Text, if◌then◌else◌, codes}

-- `unknown` is a command text that no constant names.
pub data CommandName : Type 0 where
  invite accept reject candidate tts play interrupt pause resume hangup refer mute unmute :
      CommandName
  history : CommandName
  unknown : Text → CommandName

-- `speed` is the field `Speed` as the integer that it is converted to. A map is an association list.
pub record SynthesisOption : Type 0 where
  pub samplerate : Option ℤ
  pub provider : Option Text
  pub speed : Option ℤ
  pub app_id : Option Text
  pub secret_id : Option Text
  pub secret_key : Option Text
  pub volume : Option ℤ
  pub speaker : Option Text
  pub codec : Option Text
  pub subtitle : Option Bool
  pub endpoint : Option Text
  pub extra : List (Text × Text)

pub record AsrConfig : Type 0 where
  pub provider : Option Text
  pub model : Option Text
  pub language : Option Text
  pub app_id : Option Text
  pub secret_id : Option Text
  pub secret_key : Option Text
  pub model_type : Option Text
  pub samplerate : Option ℕ
  pub endpoint : Option Text
  pub extra : List (Text × Text)

-- The `float32` options are of the model's abstract type `F`.
pub record VadOption (F : Type 0) : Type 0 where
  pub kind : Option Text
  pub samplerate : Option ℕ
  pub speech_padding : Option ℕ
  pub silence_padding : Option ℕ
  pub ratio : Option F
  pub voice_threshold : Option F
  pub max_buffer_duration_secs : Option ℕ
  pub endpoint : Option Text

-- The fields of `CallOption` that the code reads outside media processing.
pub record CallOption : Type 0 where
  pub offer : Option Text
  pub callee : Option Text
  pub caller : Option Text
  pub asr : Option AsrConfig
  pub tts : Option SynthesisOption
  pub codec : Option Text

-- `option` is the raw JSON, decoded by the methods `CallOption` and `TTSOption`.
pub record CommandEnvelope : Type 0 where
  pub command : CommandName
  pub option : Text
  pub reason : Option Text
  pub candidates : List Text
  pub message : Text
  pub speaker : Option Text
  pub play_id : Option Text
  pub auto_hangup : Option Bool
  pub streaming : Option Bool
  pub end_of_stream : Option Bool
  pub url : Option Text
  pub initiator : Option Text

unfoldable pub is_first_command_allowed : CommandName → Bool
is_first_command_allowed invite = true
is_first_command_allowed accept = true
is_first_command_allowed _ = false

-- The error text of `ValidateFirstCommand`, or none.
unfoldable pub validate_first_command : CommandEnvelope → Option Text
unfolding is_first_command_allowed
validate_first_command cmd =
    if is_first_command_allowed cmd.command
    then none
    else some (codes "the first message must be an invite")

unfoldable pub deref_text : Option Text → Text
deref_text none = codes ""
deref_text (some v) = v

unfoldable pub deref_bool : Option Bool → Bool
deref_bool none = false
deref_bool (some v) = v
