-- ===== src/Media/Asr.antt =====
-- processor/asr.go: speech recognition. A provider's sessions are numbered in the order in which they
-- are opened; what the processor does to them is its log of actions, and their errors are inputs.
use gopbx.Prelude.{
  ℕ, zero, ◌+◌, ◌%◌, ◌^◌, ℤ, pos, negsuc, Bool, true, false, not, ◌&&◌, ◌||◌, List, [], ◌∷◌, ◌++◌,
  Option, none, some, Text, codes, is_empty, if◌then◌else◌, leb, ltb_ℤ,
}
use gopbx.Codec.Pcm.{int16, le_uint16}
use gopbx.Protocol.Event.{
  EventEnvelope, text, envelope, new_error_event, metrics, asr_delta, asr_final,
}
use gopbx.Media.Packet.{Packet, PacketKind, segment_end, Result, empty_result, resolved_kind}

-- `session` is the number of the open session, and `opened` how many were opened so far.
pub record Asr : Type 0 where
  pub track_id : Text
  pub provider : Text
  pub segmented : Bool
  pub session : Option ℕ
  pub opened : ℕ
  pub failed : Bool
  pub index : ℕ
  pub ttfb_sent : Bool
  pub silence : ℕ
  pub close_done : Bool

unfoldable pub new_asr : Text → Text → Bool → Asr
new_asr track provider segmented = record {
  track_id = track;
  provider = provider;
  segmented = segmented;
  session = none;
  opened = 0;
  failed = false;
  index = 0;
  ttfb_sent = false;
  silence = 0;
  close_done = false;
}

pub data Action : Type 0 where
  opens : ℕ → Action
  writes : ℕ → List ℕ → Action
  closes : ℕ → Action

-- The errors that the provider answers with, should it be called.
pub record Answers : Type 0 where
  pub open_error : Option Text
  pub write_error : Option Text
  pub close_error : Option Text

abbrev pub loud : ℤ → Bool
loud sample = ltb_ℤ (pos 96) sample || ltb_ℤ sample (negsuc 95)

-- `isSilentPCM16`; the last byte of an odd payload is not looked at.
unfoldable pub is_silent_pcm16 : List ℕ → Bool
is_silent_pcm16 (lo ∷ hi ∷ payload) =
    let rest = is_silent_pcm16 payload in if loud (int16 (le_uint16 lo hi)) then false else rest
is_silent_pcm16 _ = true

-- `stopActiveSession`, with the error of the close.
unfoldable pub stop_active_session : Asr → Answers → Asr × Option Text × List Action
stop_active_session a answers =
    let stopped = record a { session = none; ttfb_sent = false } in
    elim a.session [
      | none ↦ (stopped, none, [])
      | some n ↦ (stopped, answers.close_error, closes n ∷ [])
    ]

-- `ensureSessionLocked`, with the open session if there is one and the error.
unfoldable pub ensure_session : Asr → Answers → Asr × Option ℕ × Option Text × List Action
ensure_session a answers = if a.failed then (a, none, none, []) else elim a.session [
  | some n ↦ (a, some n, none, [])
  | none ↦ elim answers.open_error [
    | some e ↦ (record a { failed = true }, none, some e, [])
    | none ↦ (
      record a { session = some a.opened; opened = a.opened + 1 },
      some a.opened,
      none,
      opens a.opened ∷ [],
    )
  ]
]

-- An error becomes an event.
abbrev pub report : Asr → Option Text → ℤ → Result
report a none now = empty_result
report a (some e) now = record empty_result {
  events = new_error_event a.track_id (codes "asr") e now ∷ [];
}

-- The case of a segment's end, and that of too much silence.
unfoldable pub stop : Asr → Answers → ℤ → Asr × Result × List Action
unfolding stop_active_session
stop a answers now =
    let (b, err, actions) = stop_active_session a answers in (b, report a err now, actions)

unfoldable pub process_silence : Asr → Answers → ℤ → Asr × Result × List Action
unfolding stop
process_silence a answers now =
    let b = record a { silence = a.silence + 1 } in
    elim a.session [
      | none ↦ (b, empty_result, [])
      | some n ↦ if leb 8 b.silence then stop b answers now else (b, empty_result, [])
    ]

unfoldable pub process_speech : Asr → List ℕ → Answers → ℤ → Asr × Result × List Action
unfolding ensure_session
process_speech a payload answers now =
    let (b, session, err, actions) = ensure_session (record a { silence = 0 }) answers in
    elim session [
      | none ↦ (b, report a err now, actions)
      | some n ↦ (b, report a answers.write_error now, actions ++ writes n payload ∷ [])
    ]

abbrev pub is_segment_end : PacketKind → Bool
is_segment_end segment_end = true
is_segment_end _ = false

-- `Process`
unfoldable pub asr_process : Asr → Packet → Answers → ℤ → Asr × Result × List Action
unfolding stop process_silence process_speech is_silent_pcm16 resolved_kind
asr_process a p answers now =
    if is_segment_end (resolved_kind p)
    then stop a answers now
    else if is_empty p.payload
    then (a, empty_result, [])
    else if not a.segmented && is_silent_pcm16 p.payload
    then process_silence a answers now
    else process_speech a p.payload answers now

-- `Close`, with the error of the close.
unfoldable pub asr_close : Asr → Answers → Asr × Option Text × List Action
asr_close a answers =
    if a.close_done
    then (a, none, [])
    else let b = record a { session = none; close_done = true } in
      elim a.session [ none ↦ (b, none, []) | some n ↦ (b, answers.close_error, closes n ∷ []) ]

-- A recognition result; the times are 0 where the provider gives none.
pub record Recognition : Type 0 where
  pub final : Bool
  pub message : Text
  pub start_time : ℤ
  pub end_time : ℤ

abbrev pub time_or : ℤ → ℤ → ℤ
time_or (pos zero) now = now
time_or t now = t

-- `emitResult`, with the events that it emits.
unfoldable pub emit_result : Asr → Recognition → ℤ → Asr × List EventEnvelope
emit_result a r now =
    let index = (a.index + 1) % 2 ^ 32 in
    let first = record (envelope metrics now) {
      key = codes "ttfb.asr." ++ a.provider;
      duration = some 0;
      details = (codes "trackId", text a.track_id) ∷ (codes "provider", text a.provider) ∷ [];
    } in
    let result = record (envelope (if r.final then asr_final else asr_delta) now) {
      track_id = a.track_id;
      index = some index;
      start_time = some (time_or r.start_time now);
      end_time = some (time_or r.end_time now);
      message = r.message;
    } in
    (
      record a { index = index; ttfb_sent = true },
      if a.ttfb_sent then result ∷ [] else first ∷ result ∷ [],
    )
