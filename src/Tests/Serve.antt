-- ===== src/Tests/Serve.antt =====
-- A whole call, and the WebRTC track, at concrete inputs.
use gopbx.Provider.MockAsr.{write_mock, new_mock_session, close_mock, numbered_result}
use gopbx.Call.SessionId.{new_session_id}
use gopbx.Prelude.{
  ◌≡◌, ◌≢◌, pos, true, false, List, [], ◌∷◌, none, some, codes, length, ok, refl, replicate,
}
use gopbx.Codec.Names.{pcmu}
use gopbx.Media.WebRtc.{WebRtcTrack, play_tts}
use gopbx.Media.PlaybackLaws.{sent_bytes, samples_of, play_tts-samples}
use gopbx.Provider.Tts.{Stream}
use gopbx.Session.State.{websocket}
use gopbx.Session.Manager.{new_manager}
use gopbx.Call.Handler.{other_message}
use gopbx.Call.Serve.{Connection, serve_ws}
use gopbx.Call.ServeLaws.{Outcome, serve_ws-Outcome}
use gopbx.Call.Archive.{Gateway, Visit, visits, Added, visits-Added}
use gopbx.Storage.Writers.{local}
use gopbx.Tests.Gateway.{outside}
use gopbx.Tests.Sdk.{world}

abbrev connection : Connection
connection = record {
  call_type = websocket;
  query_id = codes "s1";
  fresh_id = codes "s.1";
  dump = [];
  dump_path = [];
  first = some (true, codes "invite");
  negotiated = ok [];
  answer_fault = none;
  messages = other_message ∷ [];
}

serve_ws-Outcome_example :
    Outcome connection new_manager (serve_ws world new_manager connection 1 2 (pos 3))
serve_ws-Outcome_example = serve_ws-Outcome world new_manager connection 1 2 (pos 3)

abbrev ready : WebRtcTrack
ready = record {
  id = codes "t";
  offer = codes "v=0";
  codec = pcmu;
  peer = true;
  outbound = true;
  answer = codes "v=0";
  candidates = codes "a" ∷ [];
}

abbrev spoken : Stream
spoken = record { chunks = (1 ∷ 2 ∷ []) ∷ [] ∷ []; recv_error = none; close_error = none }

play_tts-samples_example :
    let q = play_tts ready none spoken none in
    (ready.outbound ≡ true
      → (q.samples ≡ samples_of pcmu none spoken.chunks)
        × (q.audio_bytes ≡ sent_bytes q.samples)
        × (q.chunk_count ≡ length q.samples)
        × (spoken.recv_error ≢ none → q.err ≡ spoken.recv_error)
        × (q.stream_closed ≡ true))
    × (ready.outbound ≡ false → (q.samples ≡ []) × (q.err ≢ none) × (q.stream_closed ≡ false))
play_tts-samples_example = play_tts-samples ready none spoken

uuid : new_session_id (some (replicate 16 255)) 0 ≡ codes "ffffffff-ffff-4fff-bfff-ffffffffffff"
unfolding new_session_id
uuid = refl

-- The first payload is answered with result 1; a closed session takes no more.
mock_twice :
    (elim (write_mock (new_mock_session (codes "mock")) (1 ∷ [])) [
      | none ↦ none
      | some s ↦ write_mock (close_mock s) (2 ∷ [])
    ])
    ≡ some (record (new_mock_session (codes "mock")) {
      index = 1;
      closed = true;
      results = record { is_open = false; items = numbered_result (codes "mock") 1 ∷ [] };
      errs = record { is_open = false; items = [] };
    })
unfolding write_mock close_mock new_mock_session
mock_twice = refl

-- A gateway that writes its records to files.
abbrev gateway : Gateway
gateway = record { manager = new_manager; records = []; errors = [] }

abbrev one_visit : List Visit
one_visit = record { connection = connection; now = 1; end = 2; clock = pos 3 } ∷ []

visits-Added_example :
    Added world outside
      (local (codes "records"))
      gateway
      (visits world outside (local (codes "records")) gateway one_visit)
      one_visit
visits-Added_example = visits-Added world outside (local (codes "records")) gateway one_visit
