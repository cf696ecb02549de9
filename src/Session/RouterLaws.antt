-- ===== src/Session/RouterLaws.antt =====
-- command_router.go: what holds of the answers to a command.
use gopbx.Prelude.{
  ℕ, ◌+◌, ◌≡◌, refl, ℤ, Bool, true, false, List, [], ◌∷◌, ◌++◌, Option, none, some, Text, codes,
  text_eq, text_eq_iff, is_empty, if◌then◌else◌, length, All, arith, sym, append-nil,
}
use gopbx.Protocol.Event.{
  EventName, Datum, EventEnvelope, track_start, track_end, new_error_event, hangup,
}
use gopbx.Protocol.Command.{
  CommandEnvelope, CommandName, tts, play, history, interrupt, deref_text, deref_bool,
}
use gopbx.Provider.Tts.{Provider}
use gopbx.Session.State.{Session, CloseInfo, append_command}
use gopbx.Provider.Tts.{Stream}
use gopbx.Session.Router.{
  drain, ended, started, play_events, CommandResult, Synthesis, Outside, auto_hangup_close,
  hangup_event, route, respond, route_tts, route_play, route_history, route_interrupt, route_hangup,
  receive, tts_events, close_after, answer_tts,
}

abbrev pub is_hangup : EventEnvelope → Bool
is_hangup e = elim e.event [ hangup ↦ true | _ ↦ false ]

-- What a close request adds to the events.
abbrev pub farewell : ℤ → Option CloseInfo → List EventEnvelope
farewell now none = []
farewell now (some info) = hangup_event now info ∷ []

-- The events end with the hangup event of the close request, where there is one, and hold no other;
-- the request is one to hang up.
abbrev pub Closes : ℤ → CommandResult → Type 0
Closes now r =
    ((others : List EventEnvelope) × (r.events ≡ others ++ farewell now r.close)
      × All (λ e. is_hangup e ≡ false) others)
    × ((info : CloseInfo) → r.close ≡ some info → info.cause ≡ gopbx.Session.State.hangup)

close_after-Closes :
    (now : ℤ) (events : List EventEnvelope) (close : Option CloseInfo)
    → All (λ e. is_hangup e ≡ false) events
    → ((info : CloseInfo) → close ≡ some info → info.cause ≡ gopbx.Session.State.hangup)
    → Closes now (close_after now events close)
close_after-Closes now events none h c = ((events, sym (append-nil events), h), c)
close_after-Closes now events (some info) h c = ((events, refl, h), c)

auto_hangup_close-cause :
    (cmd : CommandEnvelope) (info : CloseInfo)
    → auto_hangup_close cmd ≡ some info
    → info.cause ≡ gopbx.Session.State.hangup
unfolding auto_hangup_close
auto_hangup_close-cause cmd info e = ground arith

answer_tts-Closes :
    (now later : ℤ) (cmd : CommandEnvelope) (provider : Provider) (track : Text)
    (details : List (Text × Datum)) (result : Synthesis) (err : Option Text)
    → Closes now (answer_tts now later cmd provider track details result err)
unfolding answer_tts tts_events new_error_event
answer_tts-Closes now later cmd provider track details result (some e) = (
  (
    started now track ∷ new_error_event track (codes "tts") e later ∷ ended now track ∷ [],
    refl,
    (refl, (refl, (refl, tt))),
  ),
  (λ info e. cc),
)
answer_tts-Closes now later cmd provider track details result none =
    let quiet : All (λ e. is_hangup e ≡ false) (tts_events now cmd provider track details result) =
      (refl, (refl, (refl, (refl, tt)))) in
    close_after-Closes now _ _ quiet (auto_hangup_close-cause cmd)

-- Which track is open after an event, none where the event is not in its turn.
abbrev pub after_event : EventName → Text → Option Text → Option (Option Text)
after_event track_start id none = some (some id)
after_event track_start id (some t) = none
after_event track_end id none = none
after_event track_end id (some t) = if text_eq t id then some none else none
after_event _ id t = some t

abbrev pub walk_track : Option Text → List EventEnvelope → Option (Option Text)
walk_track t [] = some t
walk_track t (e ∷ es) = elim (after_event e.event e.track_id t) [
  | none ↦ none
  | some u ↦ walk_track u es
]

record Tracked (r : CommandResult) : Type 0 where
  ends : walk_track none r.events ≡ some none

text_eq_self : (t : Text) → text_eq t t ≡ true
text_eq_self t = (text_eq_iff t t).1 refl

close_play-Closes :
    (now : ℤ) (track : Text) (details : List (Text × Datum)) (cmd : CommandEnvelope)
    → Closes now (close_after now (play_events now track details) (auto_hangup_close cmd))
unfolding play_events
close_play-Closes now track details cmd =
    close_after-Closes now _ _ (refl, (refl, (refl, tt))) (auto_hangup_close-cause cmd)

-- A close request after the end of a track leaves the tracks as they are.
tts_events-tracks :
    (now : ℤ) (cmd : CommandEnvelope) (provider : Provider) (track : Text)
    (details : List (Text × Datum)) (result : Synthesis) (close : Option CloseInfo)
    → walk_track none
        (close_after now (tts_events now cmd provider track details result) close).events
      ≡ some none
unfolding tts_events hangup_event text_eq
tts_events-tracks now cmd provider track details result none = rw (text_eq_self track)
tts_events-tracks now cmd provider track details result (some info) = rw (text_eq_self track)

play_events-tracks :
    (now : ℤ) (track : Text) (details : List (Text × Datum)) (close : Option CloseInfo)
    → walk_track none (close_after now (play_events now track details) close).events ≡ some none
unfolding play_events hangup_event text_eq
play_events-tracks now track details none = rw (text_eq_self track)
play_events-tracks now track details (some info) = rw (text_eq_self track)

close_play-Tracked :
    (now : ℤ) (track : Text) (details : List (Text × Datum)) (close : Option CloseInfo)
    → Tracked (close_after now (play_events now track details) close)
close_play-Tracked now track details close = record {
  ends = play_events-tracks now track details close;
}

answer_tts-Tracked :
    (now later : ℤ) (cmd : CommandEnvelope) (provider : Provider) (track : Text)
    (details : List (Text × Datum)) (result : Synthesis) (err : Option Text)
    → Tracked (answer_tts now later cmd provider track details result err)
unfolding answer_tts new_error_event text_eq
answer_tts-Tracked now later cmd provider track details result (some e) = record {
  ends = rw (text_eq_self track);
}
answer_tts-Tracked now later cmd provider track details result none = record {
  ends = tts_events-tracks now cmd provider track details result _;
}

module _ (out : Outside) (cmd : CommandEnvelope) (now later : ℤ) where
  respond-Closes :
      (name : CommandName) (s : Session) → Closes now (respond out name s cmd now later).1
  unfolding respond route_tts route_play route_history route_interrupt route_hangup hangup_event
  respond-Closes tts s = search answer_tts-Closes
  respond-Closes play s = search close_play-Closes
  respond-Closes history s = (((route_history s cmd now).events, refl, (refl, tt)), (λ info e. cc))
  respond-Closes interrupt s =
      (((route_interrupt s now).1.events, refl, (refl, tt)), (λ info e. cc))
  respond-Closes gopbx.Protocol.Command.hangup s = (([], refl, tt), (λ info e. grind arith))
  respond-Closes _ s = (([], refl, tt), (λ info e. cc))

  -- The answer to a command asks to close the session exactly where it ends with the hangup event, with
  -- the reason and the initiator of the request; it has no other hangup event, and the cause of the
  -- request is `hangup`.
  pub route-Closes : (s : Session) → Closes now (route out s cmd now later).1
  unfolding route
  route-Closes s = respond-Closes cmd.command (append_command s cmd.command)

  respond-Tracked :
      (name : CommandName) (s : Session) → Tracked (respond out name s cmd now later).1
  unfolding respond route_tts route_play route_history route_interrupt route_hangup
  respond-Tracked tts s = search answer_tts-Tracked
  respond-Tracked play s = search close_play-Tracked
  respond-Tracked history s = record { ends = refl }
  respond-Tracked interrupt s = record { ends = refl }
  respond-Tracked gopbx.Protocol.Command.hangup s = record { ends = refl }
  respond-Tracked _ s = record { ends = refl }

  -- The answer to a command starts and ends its track in turn: no track is open after it, and the one
  -- that ends is the one that started.
  pub route_tracks :
      (s : Session) → walk_track none (route out s cmd now later).1.events ≡ some none
  unfolding route
  route_tracks s = (respond-Tracked cmd.command (append_command s cmd.command)).ends

abbrev pub total_length : List (List ℕ) → ℕ
total_length [] = 0
total_length (chunk ∷ chunks) = length chunk + total_length chunks

abbrev pub count_filled : List (List ℕ) → ℕ
count_filled [] = 0
count_filled (chunk ∷ chunks) = (if is_empty chunk then 0 else 1) + count_filled chunks

-- The loop adds the length of all audio to the bytes, and the number of the chunks that are not empty
-- to the chunks.
receive-sums :
    (bytes count : ℕ) (audio : List (List ℕ))
    → ((receive bytes count audio).0 ≡ bytes + total_length audio)
      × ((receive bytes count audio).1 ≡ count + count_filled audio)
unfolding receive
receive-sums bytes count [] = (omega arith, omega arith)
receive-sums bytes count (chunk ∷ chunks) =
    let ih =
      receive-sums (bytes + length chunk) (if is_empty chunk then count else count + 1) chunks in
    (omega (arith, ih.0), ground (arith, ih.1))

-- A stream that is drained counts the bytes of all its chunks, and the chunks that are not empty; an
-- error that `Recv` ends with comes before one of `Close`.
drain_sums :
    (stream : Stream)
    → ((drain stream).audio_bytes ≡ total_length stream.chunks)
      × ((drain stream).chunk_count ≡ count_filled stream.chunks)
      × ((e : Text) → stream.recv_error ≡ some e → (drain stream).err ≡ some e)
      × (stream.recv_error ≡ none → (drain stream).err ≡ stream.close_error)
unfolding drain
drain_sums stream =
    let sums = receive-sums 0 0 stream.chunks in
    (omega (arith, sums.0), omega (arith, sums.1), (λ e h. ground arith), (λ h. ground arith))
