-- ===== src/Tests/Call.antt =====
-- A call at a concrete input: a hangup after a message that nobody reads.
use gopbx.Prelude.{pos, false, List, [], ◌∷◌, none, some, codes, refl, ok, failure}
use gopbx.Protocol.Command.{CommandEnvelope, hangup}
use gopbx.Session.State.{websocket, disconnect, new_session}
use gopbx.Session.Router.{Outside}
use gopbx.Call.Handler.{Handling, Incoming, other_message, text_message, loop}
use gopbx.Call.HandlerLaws.{Agrees, loop-Agrees}

abbrev pub outside : Outside
outside = record {
  unmarshal = λ raw. none;
  start_aliyun = λ message option. failure (codes "offline");
  play_tts = λ track option stream. record { audio_bytes = 0; chunk_count = 0; err = none };
}

abbrev pub goodbye : CommandEnvelope
goodbye = record {
  command = hangup;
  option = [];
  reason = some (codes "done");
  candidates = [];
  message = [];
  speaker = none;
  play_id = none;
  auto_hangup = none;
  streaming = none;
  end_of_stream = none;
  url = none;
  initiator = none;
}

abbrev pub begun : Handling
begun = record {
  session = new_session (codes "s1") websocket none 0;
  close_info = record { cause = disconnect; reason = []; initiator = []; err = [] };
  written = [];
}

abbrev spoken : List Incoming
spoken = other_message ∷ text_message (codes "bye") none none (pos 1) (pos 2) ∷ []

loop-Agrees_example : Agrees begun.close_info (loop outside (λ raw. ok goodbye) false begun spoken)
unfolding new_session
loop-Agrees_example = loop-Agrees outside (λ raw. ok goodbye) false begun spoken refl
