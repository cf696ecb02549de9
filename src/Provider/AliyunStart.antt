-- ===== src/Provider/AliyunStart.antt =====
-- tts/aliyun.go and asr/aliyun.go: the starts of the Aliyun client. The client is outside this code: what its
-- calls answer are inputs.
use gopbx.Prelude.{
  ℕ, Bool, true, false, List, [], ◌∷◌, ◌++◌, Option, none, some, Text, codes, if◌then◌else◌, ◌||◌,
}
use gopbx.Protocol.Command.{SynthesisOption}
use gopbx.Provider.AliyunAsr
use gopbx.Provider.AliyunAsr.{
  AliyunSession, Writing, nothing, refused, sends, write_audio, mark_started,
}
use gopbx.Provider.AliyunConfig.{Credentials, SynthesisParam, new_aliyun_synthesis_config}
use gopbx.Provider.AliyunTts.{
  AliyunStream, new_aliyun_stream, TtsEvent, is_ready, begins_close, ends_close, wait_ready,
}
use gopbx.Provider.Tts.{Stream, mock_synthesis}

-- The errors of the calls of `StartSynthesis`: of the connection's configuration, of `NewSpeechSynthesis` and
-- of `Start`.
pub record StartAnswers : Type 0 where
  pub configure : Option Text
  pub create : Option Text
  pub start : Option Text

-- What it returns.
pub data Synthesis : Type 0 where
  failed : Text → Synthesis
  mocked : Stream → Synthesis
  streaming : AliyunStream → Synthesis

-- What is done to the client.
pub data ClientAct : Type 0 where
  creates_client starts_synthesis shuts_down : ClientAct

-- Its result, what is done to the client, and whether a goroutine waits for the completion of the stream.
pub record Starting : Type 0 where
  pub result : Synthesis
  pub acts : List ClientAct
  pub waiting : Bool

-- With a client: its `Start`, and its `Shutdown` where that fails.
abbrev pub client_started : Option Text → Starting
client_started (some e) = record {
  result = failed e;
  acts = creates_client ∷ starts_synthesis ∷ shuts_down ∷ [];
  waiting = false;
}
client_started none = record {
  result = streaming new_aliyun_stream;
  acts = creates_client ∷ starts_synthesis ∷ [];
  waiting = true;
}

abbrev pub without_client : Synthesis → Starting
without_client result = record { result = result; acts = []; waiting = false }

abbrev pub client_created : Option Text → Option Text → Starting
client_created (some e) start = without_client (failed e)
client_created none start = client_started start

abbrev pub configured : Text → StartAnswers → Option Credentials → Starting
configured text q none = without_client (mocked (mock_synthesis text))
configured text q (some c) = elim q.configure [
  | some e ↦ without_client (failed e)
  | none ↦ client_created q.create q.start
]

-- `StartSynthesis`
unfoldable pub start_synthesis :
    Text → SynthesisParam → StartAnswers → Text → Option SynthesisOption → Starting
unfolding new_aliyun_synthesis_config new_aliyun_stream mock_synthesis
start_synthesis default_url defaults q text option =
    configured text q (new_aliyun_synthesis_config default_url defaults option).0

-- `waitCompletion`, with what other goroutines do between its parts and after it.
abbrev pub wait_completion :
    Option Bool → List TtsEvent → List TtsEvent → List TtsEvent → List TtsEvent
wait_completion done first second after =
    let ending = second ++ ends_close ∷ after in
    let closing = first ++ begins_close ∷ ending in is_ready done ∷ closing

-- What the client of a recognition answers to `WriteAudio`: the error of `Start`, what comes on its `ready`,
-- and the error of `SendAudioData`.
pub record WriteAnswers : Type 0 where
  pub start : Option Text
  pub ready : Option Bool
  pub send : Option Text

pub data ClientCall : Type 0 where
  starts_client : ClientCall
  sends_audio : List ℕ → ClientCall

-- A call of `WriteAudio`: the session after it, the calls of the client, and its error.
pub record Written : Type 0 where
  pub session : AliyunSession
  pub calls : List ClientCall
  pub err : Option Text

-- What other goroutines do to the session meanwhile: while `Start` and the wait are on, before the second
-- locked section, and between that section and `SendAudioData`.
pub record Meanwhile : Type 0 where
  pub starting : List AliyunAsr.Event
  pub checking : List AliyunAsr.Event
  pub sending : List AliyunAsr.Event

-- The second locked section, and then `SendAudioData`, outside the lock.
abbrev pub sent_if_open :
    WriteAnswers → List ℕ → Meanwhile → List ClientCall → AliyunSession → Written
sent_if_open q payload during calls s =
    if s.closed || s.closing then record { session = s; calls = calls; err = none } else record {
      session = AliyunAsr.run s during.sending;
      calls = calls ++ sends_audio payload ∷ [];
      err = q.send;
    }

-- `ensureStarted` from its `Start` on, with the error of `Start` and that of the wait, and what follows.
abbrev pub started_with :
    WriteAnswers → List ℕ → Meanwhile → AliyunSession → Option Text → Option Text → Written
started_with q payload during s (some e) waited = record {
  session = AliyunAsr.run s during.starting;
  calls = starts_client ∷ [];
  err = some e;
}
started_with q payload during s none (some e) = record {
  session = AliyunAsr.run s during.starting;
  calls = starts_client ∷ [];
  err = some e;
}
started_with q payload during s none none =
    sent_if_open q payload during (starts_client ∷ [])
      (AliyunAsr.run (mark_started (AliyunAsr.run s during.starting)) during.checking)

abbrev pub written_by : WriteAnswers → List ℕ → Meanwhile → AliyunSession → Writing → Written
written_by q payload during s nothing = record { session = s; calls = []; err = none }
written_by q payload during s refused = record {
  session = s;
  calls = [];
  err = some (codes "aliyun asr session is closed");
}
written_by q payload during s (sends true) =
    started_with q payload during s q.start (wait_ready q.ready)
written_by q payload during s (sends false) =
    sent_if_open q payload during [] (AliyunAsr.run s during.checking)

-- `WriteAudio`
unfoldable pub write_payload : WriteAnswers → List ℕ → Meanwhile → AliyunSession → Written
unfolding write_audio mark_started AliyunAsr.run wait_ready
write_payload q payload during s = written_by q payload during s (write_audio s payload)
