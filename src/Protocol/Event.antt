-- ===== src/Protocol/Event.antt =====
-- pkg/wsproto/event.go, internal/compat/event_compat.go
use gopbx.Prelude.{ℕ, ℤ, Bool, List, [], Option, none, Text}

pub data EventName : Type 0 where
  incoming answer reject ringing hangup speaking silence eou dtmf track_start track_end : EventName
  interruption asr_final asr_delta metrics error add_history other binary : EventName

-- A value of the map in the field `Data`.
pub data Datum : Type 0 where
  text : Text → Datum
  number : ℕ → Datum
  flag : Bool → Datum

-- A field that Go leaves at its zero value is "", 0 or nil (`none`).
pub record EventEnvelope : Type 0 where
  pub event : EventName
  pub track_id : Text
  pub timestamp : ℤ
  pub sdp : Text
  pub reason : Text
  pub start_time : Option ℤ
  pub end_time : Option ℤ
  pub duration : Option ℕ
  pub position : Option ℕ
  pub message : Text
  pub index : Option ℕ
  pub key : Text
  pub details : List (Text × Datum)
  pub sender : Text
  pub err : Text
  pub speaker : Text
  pub initiator : Text

-- The envelope with a name and a time, all else left out.
abbrev pub envelope : EventName → ℤ → EventEnvelope
envelope name now = record {
  event = name;
  track_id = [];
  timestamp = now;
  sdp = [];
  reason = [];
  start_time = none;
  end_time = none;
  duration = none;
  position = none;
  message = [];
  index = none;
  key = [];
  details = [];
  sender = [];
  err = [];
  speaker = [];
  initiator = [];
}

-- `NewErrorEvent`, at the time `now`.
unfoldable pub new_error_event : Text → Text → Text → ℤ → EventEnvelope
new_error_event track sender message now = record (envelope error now) {
  track_id = track;
  sender = sender;
  err = message;
}
