-- ===== src/Provider/AliyunAsrLaws.antt =====
-- asr/aliyun.go: what holds of a session under any sequence of the goroutines' steps.
use gopbx.Prelude.{
  ℕ, ◌+◌, ◌≤◌, ◌≡◌, refl, ap, ◌∙◌, true, false, List, [], ◌∷◌, Option, none, some, Text,
  if◌then◌else◌, arith, get_elem?, leb, if_intro,
}
use gopbx.Media.Asr.{Recognition}
use gopbx.Provider.AliyunAsr.{
  try_send, Phase, idle, stopping, dropping, marking, clearing, shutting, finished, AliyunSession,
  new_aliyun_session, send_result, begin_close, advance_close, close_error, Event, checks_result,
  checks_error, sends_result, sends_error, begins_close, advances_close, starts, step, run, act,
  advance_from, sent_result,
}

-- How far `Close` is.
abbrev pub progress : Phase → ℕ
progress idle = 0
progress (stopping started) = 1
progress dropping = 2
progress marking = 3
progress clearing = 4
progress (shutting r e) = 5
progress finished = 6

abbrev Taken : Phase → Type 0
Taken (shutting r e) = (r ≡ true) × (e ≡ true)
Taken _ = Unit

-- The flags, the fields and the channels are as the phase says, and the client is stopped once at most.
pub record Inv (s : AliyunSession) : Type 0 where
  client : s.client ≡ true
  closing : s.closing ≡ (if leb 1 (progress s.phase) then leb (progress s.phase) 3 else false)
  closed : s.closed ≡ leb 4 (progress s.phase)
  fields : s.results_set ≡ leb (progress s.phase) 4
  errs : s.errs_set ≡ leb (progress s.phase) 4
  opened : s.results.is_open ≡ leb (progress s.phase) 5
  errs_open : s.errs.is_open ≡ leb (progress s.phase) 5
  shutdowns : s.shutdowns ≡ (if leb 3 (progress s.phase) then 1 else 0)
  stops : s.stops ≤ (if leb 2 (progress s.phase) then 1 else 0)
  taken : Taken s.phase

advance_from-Inv :
    (phase : Phase) (s : AliyunSession) → s.phase ≡ phase → Inv s → Inv (advance_from phase s)
advance_from-Inv idle s e h = h
advance_from-Inv (stopping started) s e h = ground arith
advance_from-Inv dropping s e h = ground arith
advance_from-Inv marking s e h = ground arith
advance_from-Inv clearing s e h = ground arith
advance_from-Inv (shutting r t) s e h = ground arith
advance_from-Inv finished s e h = h

sent_result-Inv :
    (s : AliyunSession) (r : Recognition) → Inv s → Inv (sent_result s (try_send 32 s.results r))
unfolding try_send
sent_result-Inv s r h = ground arith

begin_close-Inv :
    (phase : Phase) (s : AliyunSession) → s.phase ≡ phase → Inv s → Inv (begin_close s)
unfolding begin_close
begin_close-Inv idle s e h = ground arith
begin_close-Inv (stopping started) s e h = ground arith
begin_close-Inv dropping s e h = ground arith
begin_close-Inv marking s e h = ground arith
begin_close-Inv clearing s e h = ground arith
begin_close-Inv (shutting r t) s e h = ground arith
begin_close-Inv finished s e h = ground arith

act-Inv : (s : AliyunSession) (event : Event) → Inv s → Inv (act s event)
unfolding act try_send
act-Inv s (checks_result r) h = ground arith
act-Inv s (checks_error e) h = ground arith
act-Inv s (sends_result i) h = ground arith
act-Inv s (sends_error i) h = ground arith
act-Inv s begins_close h = begin_close-Inv s.phase s refl h
act-Inv s advances_close h = advance_from-Inv s.phase s refl h
act-Inv s starts h = ground arith

-- A panic came after the channels were closed.
abbrev pub Late : AliyunSession → Type 0
Late s = s.panicked ≡ true → progress s.phase ≡ 6

advance_from-Late :
    (phase : Phase) (s : AliyunSession)
    → s.phase ≡ phase
    → Inv s
    → s.panicked ≡ false
    → Late (advance_from phase s)
advance_from-Late (shutting r t) s e h n = ground arith
advance_from-Late _ s e h n = ground arith

act-Late : (s : AliyunSession) (event : Event) → Inv s → s.panicked ≡ false → Late (act s event)
unfolding act try_send
act-Late s (checks_result r) h n = ground arith
act-Late s (checks_error e) h n = ground arith
act-Late s (sends_result i) h n = ground arith
act-Late s (sends_error i) h n = ground arith
act-Late s begins_close h n = ground arith
act-Late s advances_close h n = advance_from-Late s.phase s refl h n
act-Late s starts h n = ground arith

step-Inv : (s : AliyunSession) (event : Event) → Inv s → Inv (step s event)
unfolding step
step-Inv s event h = if_intro Inv s.panicked (λ e. h) (λ e. act-Inv s event h)

step-Late : (s : AliyunSession) (event : Event) → Inv s → Late s → Late (step s event)
unfolding step
step-Late s event h l = if_intro Late s.panicked (λ e. l) (λ e. act-Late s event h e)

run-Inv :
    (s : AliyunSession) (events : List Event)
    → Inv s
    → Late s
    → Inv (run s events) × Late (run s events)
unfolding run
run-Inv s [] h l = (h, l)
run-Inv s (event ∷ events) h l =
    run-Inv (step s event) events (step-Inv s event h) (step-Late s event h l)

new-Inv : Inv new_aliyun_session
unfolding new_aliyun_session
new-Inv = ground arith

new-Late : Late new_aliyun_session
unfolding new_aliyun_session
new-Late e = ground arith

phase-finished : (phase : Phase) → progress phase ≡ 6 → phase ≡ finished
phase-finished idle e = ground arith
phase-finished (stopping started) e = ground arith
phase-finished dropping e = ground arith
phase-finished marking e = ground arith
phase-finished clearing e = ground arith
phase-finished (shutting r t) e = ground arith
phase-finished finished e = refl

pub reached :
    (events : List Event)
    → Inv (run new_aliyun_session events) × Late (run new_aliyun_session events)
unfolding new_aliyun_session
reached events = run-Inv new_aliyun_session events new-Inv new-Late

-- Between the call of `Stop` and that of `Shutdown`.
abbrev pub between_calls : Phase → ℕ
between_calls dropping = 1
between_calls _ = 0

stops-Inv :
    (phase : Phase) (s : AliyunSession)
    → s.phase ≡ phase
    → Inv s
    → (s.shutdowns ≤ 1) × (s.stops ≤ 1) × (s.stops ≤ s.shutdowns + between_calls phase)
stops-Inv dropping s e h = ground arith
stops-Inv _ s e h = ground arith

closed-finished : (s : AliyunSession) → Inv s → s.phase ≡ finished → s.results.is_open ≡ false
closed-finished s h e = ground arith

-- Whatever the goroutines do, in any order: `Shutdown` is called once at most, `Stop` is called once at most,
-- and `Stop` at most as often as `Shutdown`, or once more while `Close` is between the two calls.
pub run_stops_once :
    (events : List Event)
    → let s = run new_aliyun_session events in
      (s.shutdowns ≤ 1) × (s.stops ≤ 1) × (s.stops ≤ s.shutdowns + between_calls s.phase)
run_stops_once events =
    let s = run new_aliyun_session events in stops-Inv s.phase s refl ((reached events).0)

-- Whatever the goroutines do, in any order, a panic comes only after `Close` has closed the channels.
run_panics_late :
    (events : List Event)
    → (run new_aliyun_session events).panicked ≡ true
    → ((run new_aliyun_session events).phase ≡ finished)
      × ((run new_aliyun_session events).results.is_open ≡ false)
run_panics_late events p =
    let (h, late) = reached events in
    let f = phase-finished (run new_aliyun_session events).phase (late p) in
    (f, closed-finished (run new_aliyun_session events) h f)

send-closed :
    (s : AliyunSession) (r : Recognition) (i : ℕ)
    → s.results.is_open ≡ false
    → get_elem? s.passed i ≡ some r
    → s.panicked ≡ false
    → (step s (sends_result i)).panicked ≡ true
unfolding step act send_result try_send
send-closed s r i c e p = ground arith

abbrev pub close_steps : List Event
close_steps =
    begins_close ∷ advances_close ∷ advances_close ∷ advances_close ∷ advances_close
    ∷ advances_close ∷ []

-- What stays while the session is closed.
record Closed (s t : AliyunSession) : Type 0 where
  opened : t.results.is_open ≡ false
  passed : t.passed ≡ s.passed
  panicked : t.panicked ≡ false

close-Closed :
    (s : AliyunSession) → Inv s → s.phase ≡ idle → s.panicked ≡ false → Closed s (run s close_steps)
unfolding run step act begin_close advance_close
close-Closed s h p n = ground arith

-- A callback that passed the check of `appendResult` before `Close` was called, and sends after it is done,
-- panics.
pub late_send_panics :
    (s : AliyunSession) (r : Recognition) (i : ℕ)
    → Inv s
    → s.phase ≡ idle
    → s.panicked ≡ false
    → get_elem? s.passed i ≡ some r
    → (step (run s close_steps) (sends_result i)).panicked ≡ true
late_send_panics s r i h p n e =
    let c = close-Closed s h p n in
    send-closed (run s close_steps) r i c.opened (ap (λ ps. get_elem? ps i) c.passed ∙ e) c.panicked

close_error-of :
    (s : AliyunSession) (stop_error : Option Text)
    → s.errs_set ≡ false
    → close_error s stop_error ≡ stop_error
unfolding close_error
close_error-of s (some x) e = refl
close_error-of s none e = ground arith

errs-finished : (s : AliyunSession) → Inv s → s.phase ≡ finished → s.errs_set ≡ false
errs-finished s h e = ground arith

-- Once `Close` is through, it returns the error of `Stop` and no other: those that the callbacks reported and
-- that nobody has read are lost.
close_error-finished :
    (events : List Event) (stop_error : Option Text)
    → (run new_aliyun_session events).phase ≡ finished
    → close_error (run new_aliyun_session events) stop_error ≡ stop_error
close_error-finished events stop_error e =
    close_error-of (run new_aliyun_session events) stop_error
      (errs-finished (run new_aliyun_session events) ((reached events).0) e)
