-- ===== src/Provider/AliyunWriteLaws.antt =====
-- asr/aliyun.go: what `WriteAudio` has the client do, while other goroutines work on the session.
use gopbx.Prelude.{
  ◌⊎◌, ℕ, ◌≡◌, refl, arith, true, false, List, [], ◌∷◌, Option, none, some, Text, if_intro, ◌||◌,
  inl, inr, not, is_empty,
}
use gopbx.Provider.AliyunAsr
use gopbx.Provider.AliyunAsr.{
  AliyunSession, Writing, nothing, refused, sends, write_audio, mark_started, try_send,
}
use gopbx.Provider.AliyunTts.{wait_ready}
use gopbx.Provider.AliyunStart.{
  WriteAnswers, Meanwhile, ClientCall, starts_client, sends_audio, Written, sent_if_open,
  started_with, written_by, write_payload,
}

-- Somebody has begun to close the session, or has closed it.
abbrev pub Ending : AliyunSession → Type 0
Ending s = (s.closed || s.closing) ≡ true

-- A payload that is not empty comes to a session that nobody has begun to close.
abbrev pub Wanted : List ℕ → AliyunSession → Type 0
Wanted payload s = (is_empty payload ≡ false) × (s.closed ≡ false) × (s.closing ≡ false)

-- Nobody has.
abbrev pub Steady : AliyunSession → Type 0
Steady s = (s.closed || s.closing) ≡ false

-- What the other goroutines have made of the session when it is looked at before the send, where it was
-- started before, and where this call started it.
abbrev pub seen_started : Meanwhile → AliyunSession → AliyunSession
seen_started during s = AliyunAsr.run s during.checking

abbrev pub seen_marked : Meanwhile → AliyunSession → AliyunSession
seen_marked during s =
    AliyunAsr.run (record (AliyunAsr.run s during.starting) { started = true }) during.checking

-- The calls of the client by one `WriteAudio` on `s`, after which the session is `t`. There is none where the
-- payload is empty or the session is ending. Otherwise `Start` comes first where the session was not started,
-- and then, once, the payload, unless the start failed, which is told, or the session is ending by then; it is
-- sent on a session that is started, and what the client says to it is told.
abbrev pub ProperCalls :
    WriteAnswers
    → List ℕ
    → Meanwhile
    → AliyunSession
    → AliyunSession
    → Option Text
    → List ClientCall
    → Type 0
ProperCalls q payload during s t err [] =
    (is_empty payload ≡ true) ⊎ (Ending s ⊎ Ending (seen_started during s))
ProperCalls q payload during s t err (starts_client ∷ []) =
    Wanted payload s
    × (s.started ≡ false)
    × (((e : Text) × (err ≡ some e) × ((q.start ≡ some e) ⊎ (wait_ready q.ready ≡ some e)))
        ⊎ Ending (seen_marked during s))
ProperCalls q payload during s t err (sends_audio p ∷ []) =
    Wanted payload s
    × (s.started ≡ true)
    × Steady (seen_started during s)
    × (p ≡ payload)
    × (t.started ≡ true)
    × (err ≡ q.send)
ProperCalls q payload during s t err (starts_client ∷ sends_audio p ∷ []) =
    Wanted payload s
    × (s.started ≡ false)
    × (q.start ≡ none)
    × (wait_ready q.ready ≡ none)
    × Steady (seen_marked during s)
    × (p ≡ payload)
    × (t.started ≡ true)
    × (err ≡ q.send)
ProperCalls q payload during s t err other = ⊥

abbrev pub Proper : WriteAnswers → List ℕ → Meanwhile → AliyunSession → Written → Type 0
Proper q payload during s w = ProperCalls q payload during s w.session w.err w.calls

act-started :
    (s : AliyunSession) (event : AliyunAsr.Event)
    → s.started ≡ true
    → (AliyunAsr.step s event).started ≡ true
unfolding AliyunAsr.step AliyunAsr.act try_send
act-started s (AliyunAsr.checks_result r) h = ground arith
act-started s (AliyunAsr.checks_error e) h = ground arith
act-started s (AliyunAsr.sends_result i) h = ground arith
act-started s (AliyunAsr.sends_error i) h = ground arith
act-started s AliyunAsr.begins_close h = ground arith
act-started s AliyunAsr.advances_close h = ground arith
act-started s AliyunAsr.starts h = ground arith

run-started :
    (s : AliyunSession) (events : List AliyunAsr.Event)
    → s.started ≡ true
    → (AliyunAsr.run s events).started ≡ true
unfolding AliyunAsr.run
run-started s [] h = h
run-started s (event ∷ events) h =
    run-started (AliyunAsr.step s event) events (act-started s event h)

-- With the session started before, and once the start went well.
kept-Proper :
    (q : WriteAnswers) (payload : List ℕ) (during : Meanwhile) (s : AliyunSession)
    → Wanted payload s
    → s.started ≡ true
    → Proper q payload during s (sent_if_open q payload during [] (seen_started during s))
kept-Proper q payload during s w h =
    let u = seen_started during s in
    if_intro (Proper q payload during s) (u.closed || u.closing) (λ e. inr (inr e))
      (λ e. (w, h, e, refl, run-started u during.sending (run-started s during.checking h), refl))

begun-Proper :
    (q : WriteAnswers) (payload : List ℕ) (during : Meanwhile) (s : AliyunSession)
    → Wanted payload s
    → s.started ≡ false
    → q.start ≡ none
    → wait_ready q.ready ≡ none
    → Proper q payload during s
        (sent_if_open q payload during (starts_client ∷ []) (seen_marked during s))
begun-Proper q payload during s w h start waited =
    let u = seen_marked during s in
    let started =
      run-started (record (AliyunAsr.run s during.starting) { started = true }) during.checking
        refl in
    if_intro (Proper q payload during s) (u.closed || u.closing) (λ e. (w, h, inr e))
      (λ e. (w, h, start, waited, e, refl, run-started u during.sending started, refl))

started_with-Proper :
    (q : WriteAnswers) (payload : List ℕ) (during : Meanwhile) (s : AliyunSession)
    (started waited : Option Text)
    → q.start ≡ started
    → wait_ready q.ready ≡ waited
    → Wanted payload s
    → s.started ≡ false
    → Proper q payload during s (started_with q payload during s started waited)
unfolding mark_started
started_with-Proper q payload during s (some e) waited a b w h = (w, h, inl (e, refl, inl a))
started_with-Proper q payload during s none (some e) a b w h = (w, h, inl (e, refl, inr b))
started_with-Proper q payload during s none none a b w h = begun-Proper q payload during s w h a b

-- What the first locked section tells of the session and the payload.
abbrev Chosen : List ℕ → AliyunSession → Writing → Type 0
Chosen payload s nothing = is_empty payload ≡ true
Chosen payload s refused = Ending s
Chosen payload s (sends first) = Wanted payload s × (not s.started ≡ first)

write_audio-Chosen :
    (s : AliyunSession) (payload : List ℕ) → Chosen payload s (write_audio s payload)
unfolding write_audio
write_audio-Chosen s payload = ground arith

written_by-Proper :
    (q : WriteAnswers) (payload : List ℕ) (during : Meanwhile) (s : AliyunSession) (w : Writing)
    → Chosen payload s w
    → Proper q payload during s (written_by q payload during s w)
written_by-Proper q payload during s nothing e = inl e
written_by-Proper q payload during s refused e = inr (inl e)
written_by-Proper q payload during s (sends true) e =
    started_with-Proper q payload during s q.start (wait_ready q.ready) refl refl e.0 (ground arith)
written_by-Proper q payload during s (sends false) e =
    kept-Proper q payload during s e.0 (ground arith)

-- Whatever the client answers, and whatever the other goroutines do while a `WriteAudio` is under way: it makes
-- no call of the client only where the payload is empty or the session is ending when it is looked at.
-- Otherwise the payload is not empty and came to a session that nobody had begun to close; `Start` is called
-- first, once, exactly where that session was not started; then `SendAudioData` once, with the payload, on a
-- session that is started and, when it was looked at just before, was not ending, and its error is returned.
-- Only where the start failed, and then its error is returned, or the session is ending by then, it does not
-- send.
pub write_payload-Proper :
    (q : WriteAnswers) (payload : List ℕ) (during : Meanwhile) (s : AliyunSession)
    → Proper q payload during s (write_payload q payload during s)
unfolding write_payload
write_payload-Proper q payload during s =
    written_by-Proper q payload during s (write_audio s payload) (write_audio-Chosen s payload)
