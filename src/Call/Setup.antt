-- ===== src/Call/Setup.antt =====
-- call_handler.go: what `serveWS` makes of the query and of the first message, and the checks of a call's
-- options.
use gopbx.Prelude.{
  Bool, true, false, ◌||◌, Option, none, some, Text, codes, text_eq, is_empty, if◌then◌else◌,
  Fallible, ok, failure, ◌>>=◌, ◌>>◌, check,
}
use gopbx.Protocol.Command.{
  CommandEnvelope, CommandName, CallOption, VadOption, unknown, validate_first_command,
}
use gopbx.Provider.Tts.{validate_provider}
use gopbx.Provider.Asr
use gopbx.Provider.VadScorer.{Environment, validate_option}
use gopbx.Media.Floats.{Floats}
use gopbx.Session.Router.{Outside}

-- `strconv.ParseBool`, none for an error.
abbrev parse_bool : Text → Option Bool
parse_bool raw =
    if text_eq raw (codes "1")
      || text_eq raw (codes "t")
      || text_eq raw (codes "T")
      || text_eq raw (codes "true")
      || text_eq raw (codes "TRUE")
      || text_eq raw (codes "True")
    then some true
    else if text_eq raw (codes "0")
        || text_eq raw (codes "f")
        || text_eq raw (codes "F")
        || text_eq raw (codes "false")
        || text_eq raw (codes "FALSE")
        || text_eq raw (codes "False")
    then some false
    else none

unfoldable pub parse_dump_flag : Text → Bool
parse_dump_flag raw =
    if is_empty raw then true else elim (parse_bool raw) [ none ↦ true | some enabled ↦ enabled ]

-- A provider's name is checked where it is given.
abbrev check_name : (Text → Option Text) → Option Text → Option Text
check_name validate none = none
check_name validate (some name) = validate name

-- The code outside: JSON decoding of commands and of call options, of which the VAD option stands apart,
-- what its checks use, and what the router calls.
pub record World : Type 1 where
  pub unmarshal : Text → Fallible CommandEnvelope
  pub unmarshal_option : Text → Fallible CallOption
  pub floats : Floats
  pub vad_option : Text → Option (VadOption floats.Float32)
  pub environment : Environment
  pub router : Outside

-- What `ValidateOption` says of the VAD option in the raw options.
unfoldable pub vad_error : World → Text → Option Text
unfolding validate_option
vad_error w raw = validate_option w.environment w.floats (w.vad_option raw)

-- `validateCallOptions`, of options and what they were decoded from.
unfoldable pub validate_call_options : World → Option CallOption → Text → Fallible (Unit {0})
unfolding validate_provider Asr.validate_provider vad_error
validate_call_options w none raw = ok tt
validate_call_options w (some o) raw = do
  check (elim o.asr [ none ↦ none | some c ↦ check_name Asr.validate_provider c.provider ])
  check (elim o.tts [ none ↦ none | some c ↦ check_name validate_provider c.provider ])
  check (vad_error w raw)

abbrev is_nameless : CommandName → Bool
is_nameless (unknown name) = is_empty name
is_nameless _ = false

-- `DecodeCommand`, where `unmarshal` is the strict JSON decoding.
unfoldable pub decode_command : (Text → Fallible CommandEnvelope) → Text → Fallible CommandEnvelope
decode_command unmarshal raw = do
  cmd ← unmarshal raw
  if is_nameless cmd.command then failure (codes "missing command") else ok cmd

-- `CommandEnvelope.CallOption`
unfoldable pub call_option :
    (Text → Fallible CallOption) → CommandEnvelope → Fallible (Option CallOption)
call_option unmarshal cmd =
    if is_empty cmd.option then ok none else do o ← unmarshal cmd.option; ok (some o)

-- The checks of the first message, which is a text message or not, up to the call's options.
unfoldable pub check_first : World → Bool → Text → Fallible (Option CallOption)
unfolding decode_command validate_first_command call_option validate_call_options
check_first w is_text raw = do
  check (if is_text then none else some (codes "Invalid message type"))
  cmd ← decode_command w.unmarshal raw
  check (validate_first_command cmd)
  option ← call_option w.unmarshal_option cmd
  validate_call_options w option cmd.option
  ok option
