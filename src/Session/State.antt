-- ===== src/Session/State.antt =====
-- session.go: the state of one session and its methods. Each method runs under the session's mutex,
-- so a method is one step. What it does outside is returned: whether it calls the bound close
-- function, and whether it closes the channel `done`.
use gopbx.Prelude.{
  ℕ, Bool, true, false, not, ◌&&◌, ◌||◌, List, [], ◌∷◌, ◌++◌, Option, none, some, if◌then◌else◌,
  Text, or_else,
}
use gopbx.Protocol.Command.{CommandName, CallOption}

-- `Type`
pub data CallType : Type 0 where
  websocket webrtc : CallType

pub data State : Type 0 where
  connected handshaking active closing closed failed : State

-- `unset` is the zero value "" of a cause.
pub data CloseCause : Type 0 where
  unset hangup kill disconnect error : CloseCause

pub record CloseInfo : Type 0 where
  pub cause : CloseCause
  pub reason : Text
  pub initiator : Text
  pub err : Text

abbrev pub no_close_info : CloseInfo
no_close_info = record { cause = unset; reason = []; initiator = []; err = [] }

-- `close_fn` is whether a close function is bound. `done` is whether the channel is still there and
-- open: `Finalize` takes it out before it closes it. Times are abstract, milliseconds say.
pub record Session : Type 0 where
  pub id : Text
  pub call_type : CallType
  pub created_at : ℕ
  pub option : Option CallOption
  pub commands : List CommandName
  pub state : State
  pub dump : Bool
  pub answer : Text
  pub closed_at : Option ℕ
  pub answered_at : Option ℕ
  pub close_requested : Bool
  pub close_info : CloseInfo
  pub close_fn : Bool
  pub close_fn_called : Bool
  pub done : Bool
  pub track_seq : ℕ
  pub current_track_id : Text
  pub tts_sink : Bool

-- `NewSession`, at the time `now`.
unfoldable pub new_session : Text → CallType → Option CallOption → ℕ → Session
new_session id typ option now = record {
  id = id;
  call_type = typ;
  created_at = now;
  option = option;
  commands = [];
  state = connected;
  dump = true;
  answer = [];
  closed_at = none;
  answered_at = none;
  close_requested = false;
  close_info = no_close_info;
  close_fn = false;
  close_fn_called = false;
  done = true;
  track_seq = 0;
  current_track_id = [];
  tts_sink = false;
}

abbrev pub is_terminal : State → Bool
is_terminal closing = true
is_terminal closed = true
is_terminal failed = true
is_terminal _ = false

abbrev pub is_closed : State → Bool
is_closed closed = true
is_closed _ = false

abbrev pub is_unset : CloseCause → Bool
is_unset unset = true
is_unset _ = false

abbrev pub is_error : CloseCause → Bool
is_error error = true
is_error _ = false

unfoldable pub append_command : Session → CommandName → Session
append_command s name = record s { commands = s.commands ++ name ∷ [] }

unfoldable pub set_dump_enabled : Session → Bool → Session
set_dump_enabled s enabled = record s { dump = enabled }

-- `s.Option = option` where the option is not nil.
unfoldable pub begin_handshake : Session → Option CallOption → Session
begin_handshake s option = if is_terminal s.state then s else record s {
  option = elim option [ none ↦ s.option | some o ↦ some o ];
  state = handshaking;
}

unfoldable pub mark_active : Session → Session
mark_active s = if is_terminal s.state then s else record s { state = active }

unfoldable pub record_answer : Session → Text → ℕ → Session
record_answer s answer now = record s { answer = answer; answered_at = some now }

unfoldable pub normalize_close_info : CloseInfo → CloseInfo
normalize_close_info info = if is_unset info.cause then record info { cause = disconnect } else info

-- The fields of `primary` that are not empty, and those of `fallback` for the others.
unfoldable pub merge_close_info : CloseInfo → CloseInfo → CloseInfo
unfolding or_else
merge_close_info primary fallback = record {
  cause = if is_unset primary.cause then fallback.cause else primary.cause;
  reason = or_else primary.reason fallback.reason;
  initiator = or_else primary.initiator fallback.initiator;
  err = or_else primary.err fallback.err;
}

-- `RequestClose`; the flag says whether the close function is called.
unfoldable pub request_close : Session → CloseInfo → Session × Bool
unfolding merge_close_info normalize_close_info
request_close s info =
    let recorded =
      if s.close_requested then merge_close_info s.close_info info else normalize_close_info info in
    let calls = s.close_fn && not s.close_fn_called in
    (
      record s {
        close_requested = true;
        close_info = recorded;
        state =
            if is_closed s.state
            then s.state
            else if is_error recorded.cause
            then failed
            else closing;
        close_fn_called = s.close_fn_called || calls;
      },
      calls,
    )

-- `Fail`
unfoldable pub fail : Session → Text → Session × Bool
unfolding request_close
fail s err = request_close s (record { cause = error; reason = []; initiator = []; err = err })

-- `BindCloseFunc`; `present` says whether the function is not nil. The flag as above.
unfoldable pub bind_close_func : Session → Bool → Session × Bool
bind_close_func s present =
    let calls = s.close_requested && present && not s.close_fn_called in
    (record s { close_fn = present; close_fn_called = s.close_fn_called || calls }, calls)

-- `Finalize`; the flag says whether the channel `done` is closed. It returns the close info too.
unfoldable pub finalize : Session → CloseInfo → ℕ → Session × CloseInfo × Bool
unfolding merge_close_info normalize_close_info
finalize s fallback now =
    let info =
      if s.close_requested
      then merge_close_info s.close_info (normalize_close_info fallback)
      else normalize_close_info fallback in
    (
      record s {
        close_requested = true;
        close_info = info;
        closed_at = if is_closed s.state then s.closed_at else some now;
        state = if is_closed s.state then s.state else closed;
        done = false;
      },
      info,
      s.done,
    )

abbrev pub is_visible : State → Bool
is_visible connected = true
is_visible handshaking = true
is_visible active = true
is_visible _ = false

-- `VisibleInList`
unfoldable pub visible_in_list : Session → Bool
visible_in_list s = is_visible s.state

unfoldable pub bind_tts_sink : Session → Bool → Session
bind_tts_sink s sink = record s { tts_sink = sink }
