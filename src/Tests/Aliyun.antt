-- ===== src/Tests/Aliyun.antt =====
-- The sessions of the Aliyun clients at concrete runs.
use gopbx.Prelude.{none, some, ◌+◌, ◌≡◌, ◌≤◌, refl, true, false, List, [], ◌∷◌, ◌++◌, codes, pos}
use gopbx.Media.Asr.{Recognition}
use gopbx.Provider.AliyunAsr
use gopbx.Provider.AliyunAsr.{
  Event, checks_result, sends_result, starts, new_aliyun_session, run, step, write_audio,
  mark_started,
}
use gopbx.Provider.AliyunAsrLaws.{
  between_calls, close_steps, run_stops_once, late_send_panics, reached,
}
use gopbx.Provider.AliyunTts.{
  TtsEvent, begins_push, ends_push, begins_close, ends_close, receives, new_aliyun_stream, tts_run,
  tts_step, recv, wait_ready,
}
use gopbx.Provider.AliyunTtsLaws.{view, sights, tts_run-Runs}
use gopbx.Provider.AliyunStart.{WriteAnswers, Meanwhile, write_payload, starts_client, sends_audio}
use gopbx.Provider.AliyunWriteLaws.{Proper, write_payload-Proper}
use gopbx.Provider.ChunkQueue.{Runs, given}

abbrev heard : Recognition
heard = record { final = true; message = codes "hello"; start_time = pos 1; end_time = pos 2 }

-- A result is sent in time, a second one is checked before and sent after the close.
abbrev late_run : List Event
late_run =
    starts ∷ checks_result heard ∷ sends_result 0 ∷ checks_result heard ∷ close_steps
    ++ sends_result 0 ∷ []

run_stops_once_example :
    let s = run new_aliyun_session late_run in
    (s.shutdowns ≤ 1) × (s.stops ≤ 1) × (s.stops ≤ s.shutdowns + between_calls s.phase)
run_stops_once_example = run_stops_once late_run

abbrev waiting : List Event
waiting = starts ∷ checks_result heard ∷ []

late_send_panics_example :
    (step (run (run new_aliyun_session waiting) close_steps) (sends_result 0)).panicked ≡ true
unfolding run new_aliyun_session
late_send_panics_example =
    late_send_panics (run new_aliyun_session waiting) heard 0 (reached waiting).0 refl refl refl

-- Two chunks, of which one is read, then the end while a third is on its way.
abbrev synthesis : List TtsEvent
synthesis =
    begins_push (1 ∷ 2 ∷ [])
    ∷ ends_push 0 false
    ∷ begins_push (3 ∷ [])
    ∷ ends_push 0 false
    ∷ receives
    ∷ begins_push (4 ∷ [])
    ∷ begins_close
    ∷ ends_close
    ∷ ends_push 0 true
    ∷ receives
    ∷ receives
    ∷ []

tts_run-Runs_example :
    Runs
      (view new_aliyun_stream)
      (sights new_aliyun_stream synthesis)
      (view (tts_run new_aliyun_stream synthesis))
tts_run-Runs_example = tts_run-Runs new_aliyun_stream synthesis

given-synthesis : given (sights new_aliyun_stream synthesis) ≡ (1 ∷ 2 ∷ []) ∷ (3 ∷ []) ∷ []
unfolding tts_run new_aliyun_stream recv tts_step
given-synthesis = refl

-- One chunk comes while the stream is waited for.
abbrev one_chunk : List TtsEvent
one_chunk = begins_push (5 ∷ []) ∷ ends_push 0 false ∷ []

-- The client starts and sends.
abbrev all_sent : WriteAnswers
all_sent = record { start = none; ready = some true; send = none }

-- `Close` begins after the check and before the payload is sent.
abbrev closed_meanwhile : Meanwhile
closed_meanwhile = record { starting = []; checking = []; sending = AliyunAsr.begins_close ∷ [] }

write_payload-Proper_example :
    Proper all_sent
      (1 ∷ [])
      closed_meanwhile
      new_aliyun_session
      (write_payload all_sent (1 ∷ []) closed_meanwhile new_aliyun_session)
write_payload-Proper_example =
    write_payload-Proper all_sent (1 ∷ []) closed_meanwhile new_aliyun_session

write_payload-sends :
    let w = write_payload all_sent (1 ∷ []) closed_meanwhile new_aliyun_session in
    (w.calls ≡ starts_client ∷ sends_audio (1 ∷ []) ∷ []) × (w.session.closing ≡ true)
unfolding write_payload new_aliyun_session write_audio mark_started run wait_ready AliyunAsr.step
    AliyunAsr.act AliyunAsr.begin_close
write_payload-sends = (refl, refl)
