-- ===== src/Sdk/Calls.antt =====
-- sdk/go/client.go: a session of the client: dialing it, its commands, and the reading of its events. The
-- WebSocket and JSON are parameters.
use gopbx.Prelude.{
  ℕ, ◌+◌, Bool, true, List, [], ◌∷◌, ◌++◌, Option, none, some, Text, codes, is_empty, if◌then◌else◌,
  ltb, ◌==◌, Fallible, ok, failure, ◌>>=◌, ◌>>◌, check,
}
use gopbx.Protocol.Event.{EventEnvelope}
use gopbx.Protocol.Command.{
  CommandEnvelope, CommandName, CallOption, SynthesisOption, invite, accept, candidate, tts, play,
  interrupt, hangup, history,
}
use gopbx.Session.Track.{format_track_seq}
use gopbx.Sdk.Client.{ClientOptions, ws_url}

pub record DialOptions : Type 0 where
  pub session_id : Text
  pub dump : Option Bool

-- The values of the query that `dialWS` sets, over those of the parsed address.
abbrev pub set_id : Text → List (Text × Text) → List (Text × Text)
set_id id query = if is_empty id then query else query ++ (codes "id", id) ∷ []

abbrev pub set_dump : Option Bool → List (Text × Text) → List (Text × Text)
set_dump none query = query
set_dump (some dump) query =
    query ++ (codes "dump", if dump then codes "true" else codes "false") ∷ []

-- `dialWS`, where `parse` is `url.Parse` of an address without a query, and `dial` connects to an address
-- with a query.
unfoldable pub dial_ws {ℓ} :
    {A : Type ℓ}
    → (Text → Fallible Text)
    → (Text → List (Text × Text) → Fallible A)
    → ClientOptions
    → Text
    → DialOptions
    → Fallible A
unfolding ws_url
dial_ws parse dial o path opts = do
  address ← parse (ws_url o path)
  dial address (set_dump opts.dump (set_id opts.session_id []))

-- The command with a name, all else left out.
abbrev pub command_named : CommandName → CommandEnvelope
command_named name = record {
  command = name;
  option = [];
  reason = none;
  candidates = [];
  message = [];
  speaker = none;
  play_id = none;
  auto_hangup = none;
  streaming = none;
  end_of_stream = none;
  url = none;
  initiator = none;
}

-- The option of a command, encoded if it is given.
abbrev pub encoded {ℓ} : {A : Type ℓ} → (A → Fallible Text) → Option A → Fallible Text
encoded marshal none = ok []
encoded marshal (some option) = marshal option

-- The command that `sendCallSetup` sends.
unfoldable pub call_setup :
    (CallOption → Fallible Text) → CommandName → Option CallOption → Fallible CommandEnvelope
call_setup marshal name option = do
  raw ← encoded marshal option
  ok (record (command_named name) { option = raw })

-- The commands that `Invite`, `Accept`, `Candidate`, `TTS`, `Play`, `Interrupt`, `History` and `Hangup` send.
unfoldable pub invite_command :
    (CallOption → Fallible Text) → Option CallOption → Fallible CommandEnvelope
unfolding call_setup
invite_command marshal option = call_setup marshal invite option

unfoldable pub accept_command :
    (CallOption → Fallible Text) → Option CallOption → Fallible CommandEnvelope
unfolding call_setup
accept_command marshal option = call_setup marshal accept option

unfoldable pub candidate_command : List Text → CommandEnvelope
candidate_command candidates = record (command_named candidate) { candidates = candidates }

abbrev pub apply_extras :
    List (CommandEnvelope → CommandEnvelope) → CommandEnvelope → CommandEnvelope
apply_extras [] cmd = cmd
apply_extras (extra ∷ extras) cmd = apply_extras extras (extra cmd)

unfoldable pub tts_command :
    (SynthesisOption → Fallible Text)
    → Text
    → Option SynthesisOption
    → List (CommandEnvelope → CommandEnvelope)
    → Fallible CommandEnvelope
tts_command marshal message option extras = do
  raw ← encoded marshal option
  ok (apply_extras extras (record (command_named tts) { message = message; option = raw }))

-- A text that is left out where it is empty.
abbrev pub unless_empty : Text → Option Text
unless_empty v = if is_empty v then none else some v

unfoldable pub play_command : Text → Bool → Text → CommandEnvelope
play_command media_url auto_hangup play_id = record (command_named play) {
  url = some media_url;
  play_id = unless_empty play_id;
  auto_hangup = if auto_hangup then some true else none;
}

unfoldable pub interrupt_command : CommandEnvelope
interrupt_command = command_named interrupt

unfoldable pub history_command : Text → Text → CommandEnvelope
history_command speaker message = record (command_named history) {
  speaker = some speaker;
  message = message;
}

unfoldable pub hangup_command : Text → Text → CommandEnvelope
hangup_command reason initiator = record (command_named hangup) {
  reason = unless_empty reason;
  initiator = unless_empty initiator;
}

-- `deadlineFromContext`: a positive timeout counts before the deadline of the context.
unfoldable pub deadline_from_context : ℕ → Option ℕ → ℕ → Option ℕ
deadline_from_context now deadline timeout =
    if ltb 0 timeout then some (now + timeout) else deadline

-- What `ReadMessage` returns: an error, or a message of a type (1 is text, 2 binary).
pub data Message : Type 0 where
  broken : Text → Message
  message : ℕ → Text → Message

abbrev unexpected : ℕ → Text
unexpected kind = codes "unexpected websocket message type: " ++ format_track_seq kind

-- `ReadEvent` and `ReadBinary` after the deadline is set, where `unmarshal` decodes an event.
unfoldable pub read_event : (Text → Fallible EventEnvelope) → Message → Fallible EventEnvelope
unfolding format_track_seq
read_event unmarshal (broken err) = failure err
read_event unmarshal (message kind raw) =
    if kind == 1 then unmarshal raw else failure (unexpected kind)

unfoldable pub read_binary : Message → Fallible Text
unfolding format_track_seq
read_binary (broken err) = failure err
read_binary (message kind raw) = if kind == 2 then ok raw else failure (unexpected kind)

-- A round of `ReadLoop`: the error of the context if it is done, and the message that is read.
pub record Round : Type 0 where
  pub context_error : Option Text
  pub read : Message

-- What a round comes to: the event that goes to the handler, or the error that ends the loop.
abbrev pub round_event : (Text → Fallible EventEnvelope) → Round → Fallible EventEnvelope
round_event unmarshal round = do check round.context_error; read_event unmarshal round.read

-- `ReadLoop`: the events that the handler got, and the error that it returns, none while it goes on.
abbrev pub hand_over :
    EventEnvelope
    → Option Text
    → List EventEnvelope × Option Text
    → List EventEnvelope × Option Text
hand_over event (some err) later = (event ∷ [], some err)
hand_over event none (events, err) = (event ∷ events, err)

abbrev pub after_round :
    (EventEnvelope → Option Text)
    → Fallible EventEnvelope
    → List EventEnvelope × Option Text
    → List EventEnvelope × Option Text
after_round handler (failure err) later = ([], some err)
after_round handler (ok event) later = hand_over event (handler event) later

unfoldable pub read_loop :
    (Text → Fallible EventEnvelope)
    → (EventEnvelope → Option Text)
    → List Round
    → List EventEnvelope × Option Text
unfolding read_event
read_loop unmarshal handler [] = ([], none)
read_loop unmarshal handler (round ∷ rounds) =
    let later = read_loop unmarshal handler rounds in
    after_round handler (round_event unmarshal round) later
