-- ===== src/Tests/Sdk.antt =====
-- The client and the gateway at concrete inputs.
use gopbx.Prelude.{
  ◌≡◌, refl, pos, true, List, [], ◌∷◌, ◌++◌, none, some, codes, ok, ◌>>◌, to_lower, trim_space,
  text_eq,
}
use gopbx.Protocol.Event.{EventEnvelope, envelope, speaking}
use gopbx.Protocol.Command.{CallOption, VadOption}
use gopbx.Tests.Media.{fixed}
use gopbx.Tests.Call.{outside}
use gopbx.Session.State.{new_session, websocket}
use gopbx.Session.Router.{route, hangup_event}
use gopbx.Provider.VadScorer.{Environment, new_scorer, http_scorer}
use gopbx.Call.Setup.{World, check_first, validate_call_options}
use gopbx.Sdk.Calls.{invite_command, hangup_command, Round, message}
use gopbx.Sdk.ClientLaws.{check_first-invite_command, asked, route-hangup_command}

abbrev bare : CallOption
bare = record {
  offer = none;
  callee = some (codes "bob");
  caller = none;
  asr = none;
  tts = none;
  codec = none;
}

abbrev hybrid : VadOption fixed.Float32
hybrid = record {
  kind = some (codes "Hybrid");
  samplerate = some 16000;
  speech_padding = none;
  silence_padding = none;
  ratio = none;
  voice_threshold = none;
  max_buffer_duration_secs = none;
  endpoint = some (codes "http://vad/score");
}

abbrev pub environment : Environment
environment = record {
  parse_url =
      λ raw. ok (record { scheme = codes "HTTP"; host = codes "vad"; path = codes "/score" });
  join = λ a b. a ++ b;
  model_path = [];
}

-- JSON is "{}" here, whatever it stands for.
abbrev pub world : World
world = record {
  unmarshal = λ raw. invite_command (λ o. ok (codes "{}")) (some bare);
  unmarshal_option = λ raw. ok bare;
  floats = fixed;
  vad_option = λ raw. some hybrid;
  environment = environment;
  router = outside;
}

check_first-invite_command_example :
    check_first world true (codes "wire")
    ≡ (validate_call_options world (some bare) (codes "{}") >> ok (some bare))
check_first-invite_command_example =
    check_first-invite_command world (λ o. ok (codes "{}")) bare (codes "{}") (codes "wire") refl
      refl refl refl

check_first-world : check_first world true (codes "wire") ≡ ok (some bare)
unfolding check_first invite_command to_lower trim_space text_eq
check_first-world = refl

new_scorer-hybrid :
    new_scorer environment fixed (some hybrid) ≡ ok (http_scorer (codes "http://vad/score"))
unfolding new_scorer to_lower trim_space text_eq
new_scorer-hybrid = refl

route-hangup_command_example :
    (route outside
      (new_session (codes "s1") websocket none 0)
      (hangup_command (codes "done") [])
      (pos 1)
      (pos 2)).1
    ≡ record {
      events = hangup_event (pos 1) (asked (codes "done") []) ∷ [];
      close = some (asked (codes "done") []);
    }
route-hangup_command_example =
    route-hangup_command outside (new_session (codes "s1") websocket none 0) (codes "done") []
      (pos 1) (pos 2)

abbrev rounds : List Round
rounds =
    record { context_error = none; read = message 1 (codes "speaking") }
    ∷ record { context_error = none; read = message 2 [] }
    ∷ []

abbrev events : List EventEnvelope
events = envelope speaking (pos 1) ∷ []
