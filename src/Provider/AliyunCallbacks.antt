-- ===== src/Provider/AliyunCallbacks.antt =====
-- asr/aliyun.go: the callbacks of a recognition, and what a consumer of its results can read.
use gopbx.Prelude.{
  subst, sym, get_elem?, ltb, length, ℕ, zero, suc, ◌≡◌, Bool, All, is_empty, if◌then◌else◌,
  if_intro, arith, true, false, ◌||◌, not, List, [], ◌∷◌, ◌++◌, Option, none, some, Text,
  trim_space,
}
use gopbx.Media.Asr.{Recognition}
use gopbx.Provider.AliyunAsr.{
  AliyunSession, Phase, shutting, act, advance_close, advance_from, mark_started, begin_close,
  send_error, send_result, send_picked, sent_result, try_send, new_aliyun_session, check_result,
  check_error, step, sends_result, sends_error, begins_close, advances_close, starts, remove_at,
}
use gopbx.Provider.AliyunConfigLaws.{HasText, parse_aliyun_result-HasText}
use gopbx.Provider.AliyunConfig.{RecognitionResponse, parse_aliyun_result}

-- The callbacks with a body; those of the start, of the begin of a sentence, of the end and of the close of
-- the connection do nothing.
pub data Callback : Type 0 where
  on_task_failed on_sentence_end on_result_changed : Text → Callback

-- `appendResult` up to its send, where there is a result.
abbrev pub append_parsed : AliyunSession → Option Recognition → AliyunSession
append_parsed s none = s
append_parsed s (some r) = check_result s r

-- A callback up to its send; `unmarshal` is JSON decoding.
unfoldable pub call_back :
    (Text → Option RecognitionResponse) → AliyunSession → Callback → AliyunSession
unfolding check_result check_error parse_aliyun_result
call_back unmarshal s (on_task_failed message) = check_error s (trim_space message)
call_back unmarshal s (on_sentence_end raw) =
    append_parsed s (parse_aliyun_result unmarshal raw true)
call_back unmarshal s (on_result_changed raw) =
    append_parsed s (parse_aliyun_result unmarshal raw false)

-- A step of a goroutine: a callback, up to its send or that send, or another step.
pub data Move : Type 0 where
  calls_back : Callback → Move
  sends fails : ℕ → Move
  begins_closing closes_on is_started : Move

unfoldable pub move : (Text → Option RecognitionResponse) → AliyunSession → Move → AliyunSession
unfolding call_back step
move unmarshal s (calls_back c) = if s.panicked then s else call_back unmarshal s c
move unmarshal s (sends i) = step s (sends_result i)
move unmarshal s (fails i) = step s (sends_error i)
move unmarshal s begins_closing = step s begins_close
move unmarshal s closes_on = step s advances_close
move unmarshal s is_started = step s starts

unfoldable pub moves :
    (Text → Option RecognitionResponse) → AliyunSession → List Move → AliyunSession
unfolding move
moves unmarshal s [] = s
moves unmarshal s (m ∷ ms) = moves unmarshal (move unmarshal s m) ms

-- The result has a text.
abbrev pub Spoken : Recognition → Type 0
Spoken r = is_empty r.message ≡ false

-- What waits to be sent and what was sent.
record AllSpoken (s : AliyunSession) : Type 0 where
  waiting : All Spoken s.passed
  sent : All Spoken s.results.items

All-snoc :
    (rs : List Recognition) (r : Recognition) → All Spoken rs → Spoken r → All Spoken (rs ++ r ∷ [])
All-snoc [] r h k = (k, tt)
All-snoc (x ∷ rs) r h k = (h.0, All-snoc rs r h.1 k)

All-remove_at : (i : ℕ) (rs : List Recognition) → All Spoken rs → All Spoken (remove_at i rs)
All-remove_at i [] h = tt
All-remove_at zero (r ∷ rs) h = h.1
All-remove_at (suc i) (r ∷ rs) h = (h.0, All-remove_at i rs h.1)

append_parsed-AllSpoken :
    (s : AliyunSession) (final : Bool) (o : Option Recognition)
    → HasText final o
    → AllSpoken s
    → AllSpoken (append_parsed s o)
unfolding check_result
append_parsed-AllSpoken s final none told h = h
append_parsed-AllSpoken s final (some r) told h =
    if_intro AllSpoken (s.closed || not s.results_set) (λ _. h)
      (λ _. record { waiting = All-snoc s.passed r h.waiting told.0; sent = h.sent })

call_back-AllSpoken :
    (unmarshal : Text → Option RecognitionResponse) (s : AliyunSession) (c : Callback)
    → AllSpoken s
    → AllSpoken (call_back unmarshal s c)
unfolding call_back check_error
call_back-AllSpoken unmarshal s (on_task_failed message) h =
    if_intro AllSpoken (s.closed || not s.errs_set) (λ _. h)
      (λ _. record { waiting = h.waiting; sent = h.sent })
call_back-AllSpoken unmarshal s (on_sentence_end raw) h =
    append_parsed-AllSpoken s true (parse_aliyun_result unmarshal raw true)
      (parse_aliyun_result-HasText unmarshal raw true) h
call_back-AllSpoken unmarshal s (on_result_changed raw) h =
    append_parsed-AllSpoken s false (parse_aliyun_result unmarshal raw false)
      (parse_aliyun_result-HasText unmarshal raw false) h

All-get :
    (P : Option Recognition → Type 0) (rs : List Recognition) (i : ℕ)
    → All Spoken rs
    → P none
    → ((r : Recognition) → Spoken r → P (some r))
    → P (get_elem? rs i)
All-get P [] i h n k = n
All-get P (r ∷ rs) zero h n k = k r h.0
All-get P (r ∷ rs) (suc i) h n k = All-get P rs i h.1 n k

send_result-AllSpoken : (s : AliyunSession) (i : ℕ) → AllSpoken s → AllSpoken (send_result s i)
unfolding send_result try_send
send_result-AllSpoken s i h =
    let rest = All-remove_at i s.passed h.waiting in
    All-get (λ o. AllSpoken (send_picked s i o)) s.passed i h.waiting h
      (λ r k.
        if_intro (λ o. AllSpoken (sent_result (record s { passed = remove_at i s.passed }) o))
          s.results.is_open
          (λ _.
            if_intro (λ c. AllSpoken (record s { passed = remove_at i s.passed; results = c }))
              (ltb (length s.results.items) 32)
              (λ _. record { waiting = rest; sent = All-snoc s.results.items r h.sent k })
              (λ _. record { waiting = rest; sent = h.sent }))
          (λ _. record { waiting = rest; sent = h.sent }))

-- Neither is touched.
record Kept (s t : AliyunSession) : Type 0 where
  waiting : t.passed ≡ s.passed
  sent : t.results.items ≡ s.results.items

Kept-AllSpoken : (s t : AliyunSession) → Kept s t → AllSpoken s → AllSpoken t
Kept-AllSpoken s t e h = record {
  waiting = subst (All Spoken) (sym e.waiting) h.waiting;
  sent = subst (All Spoken) (sym e.sent) h.sent;
}

send_error-Kept : (s : AliyunSession) (i : ℕ) → Kept s (send_error s i)
unfolding send_error try_send
send_error-Kept s i = ground arith

begin_close-Kept : (s : AliyunSession) → Kept s (begin_close s)
unfolding begin_close
begin_close-Kept s = ground arith

advance_from-Kept : (phase : Phase) (s : AliyunSession) → Kept s (advance_from phase s)
advance_from-Kept (shutting r e) s = ground arith
advance_from-Kept _ s = ground arith

move-AllSpoken :
    (unmarshal : Text → Option RecognitionResponse) (s : AliyunSession) (m : Move)
    → AllSpoken s
    → AllSpoken (move unmarshal s m)
unfolding move step act advance_close mark_started
move-AllSpoken unmarshal s (calls_back c) h =
    if_intro AllSpoken s.panicked (λ _. h) (λ _. call_back-AllSpoken unmarshal s c h)
move-AllSpoken unmarshal s (sends i) h =
    if_intro AllSpoken s.panicked (λ _. h) (λ _. send_result-AllSpoken s i h)
move-AllSpoken unmarshal s (fails i) h =
    if_intro AllSpoken s.panicked (λ _. h) (λ _. Kept-AllSpoken s _ (send_error-Kept s i) h)
move-AllSpoken unmarshal s begins_closing h =
    if_intro AllSpoken s.panicked (λ _. h) (λ _. Kept-AllSpoken s _ (begin_close-Kept s) h)
move-AllSpoken unmarshal s closes_on h =
    if_intro AllSpoken s.panicked (λ _. h) (λ _. Kept-AllSpoken s _ (advance_from-Kept s.phase s) h)
move-AllSpoken unmarshal s is_started h =
    if_intro AllSpoken s.panicked (λ _. h) (λ _. record { waiting = h.waiting; sent = h.sent })

moves-AllSpoken :
    (unmarshal : Text → Option RecognitionResponse) (s : AliyunSession) (ms : List Move)
    → AllSpoken s
    → AllSpoken (moves unmarshal s ms)
unfolding moves
moves-AllSpoken unmarshal s [] h = h
moves-AllSpoken unmarshal s (m ∷ ms) h =
    moves-AllSpoken unmarshal (move unmarshal s m) ms (move-AllSpoken unmarshal s m h)

-- Whatever the client calls back with, and however the goroutines take turns, every result that a new session
-- gives to its consumer has a text.
moves-Spoken :
    (unmarshal : Text → Option RecognitionResponse) (ms : List Move)
    → All Spoken (moves unmarshal new_aliyun_session ms).results.items
unfolding new_aliyun_session
moves-Spoken unmarshal ms =
    (moves-AllSpoken unmarshal new_aliyun_session ms (record { waiting = tt; sent = tt })).sent
