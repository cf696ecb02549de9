-- ===== src/Tests/Router.antt =====
-- Commands and tracks at concrete inputs.
use gopbx.Prelude.{◌≡◌, refl, pos, true, [], ◌∷◌, none, some, codes, failure}
use gopbx.Protocol.Command.{CommandEnvelope, CommandName, tts, play}
use gopbx.Provider.Tts.{Stream}
use gopbx.Session.State.{websocket, Session, new_session}
use gopbx.Session.Track.{format_track_seq}
use gopbx.Session.Router.{Outside, route}
use gopbx.Session.RouterLaws.{Closes, route-Closes, walk_track, route_tracks}

abbrev caller : Session
caller = new_session (codes "s1") websocket none 0

abbrev quiet_outside : Outside
quiet_outside = record {
  unmarshal = λ raw. none;
  start_aliyun = λ message option. failure (codes "offline");
  play_tts = λ track option stream. record { audio_bytes = 0; chunk_count = 0; err = none };
}

abbrev command : CommandName → CommandEnvelope
command name = record {
  command = name;
  option = [];
  reason = none;
  candidates = [];
  message = codes "hello";
  speaker = none;
  play_id = none;
  auto_hangup = some true;
  streaming = none;
  end_of_stream = none;
  url = none;
  initiator = none;
}

route-Closes_example : Closes (pos 5) (route quiet_outside caller (command tts) (pos 5) (pos 6)).1
route-Closes_example = route-Closes quiet_outside (command tts) (pos 5) (pos 6) caller

route_tracks_example :
    walk_track none (route quiet_outside caller (command play) (pos 5) (pos 6)).1.events ≡ some none
route_tracks_example = route_tracks quiet_outside (command play) (pos 5) (pos 6) caller

abbrev two_chunks : Stream
two_chunks = record {
  chunks = (1 ∷ 2 ∷ []) ∷ [] ∷ (3 ∷ []) ∷ [];
  recv_error = none;
  close_error = some (codes "late");
}

-- The digits come in their order.
digits_in_order : format_track_seq 120 ≡ codes "120"
unfolding format_track_seq
digits_in_order = refl
