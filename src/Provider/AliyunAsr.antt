-- ===== src/Provider/AliyunAsr.antt =====
-- internal/adapter/outbound/asr/aliyun.go: a recognition session on the Aliyun client, which is outside this
-- code. The SDK calls back from goroutines of its own, so a method is the list of its locked sections and
-- channel operations, and a run is any sequence of these from all goroutines.
use gopbx.Prelude.{
  ℕ, zero, suc, ◌+◌, Bool, true, false, not, ◌||◌, List, [], ◌∷◌, ◌++◌, Option, none, some, Text,
  is_empty, if◌then◌else◌, ltb, length, get_elem?,
}
use gopbx.Media.Asr.{Recognition}

-- A buffered channel, open or closed.
pub record Channel {ℓ} (A : Type ℓ) : Type ℓ where
  pub is_open : Bool
  pub items : List A

-- A `select` that sends or does nothing, none where Go panics: a send on a closed channel.
unfoldable pub try_send {ℓ} : {A : Type ℓ} → ℕ → Channel A → A → Option (Channel A)
try_send capacity c x =
    if c.is_open
    then some (if ltb (length c.items) capacity then record c { items = c.items ++ x ∷ [] } else c)
    else none

-- Where `Close` is: not called, before `Stop`, with whether the session was started when `Close` looked,
-- before `Shutdown`, before the session is marked closed, before the fields are set to nil, before the
-- channels it took are closed, or done.
pub data Phase : Type 0 where
  idle : Phase
  stopping : Bool → Phase
  dropping marking clearing : Phase
  shutting : Bool → Bool → Phase
  finished : Phase

-- `results_set` and `errs_set` are whether the fields still hold the channels. `passed` are the results of
-- the callbacks that have done the locked check of `appendResult` and have yet to send, and `failing` the
-- errors of those in `fail`. `stops` and `shutdowns` count calls of the client.
pub record AliyunSession : Type 0 where
  pub client : Bool
  pub started : Bool
  pub closing : Bool
  pub closed : Bool
  pub results : Channel Recognition
  pub errs : Channel Text
  pub results_set : Bool
  pub errs_set : Bool
  pub passed : List Recognition
  pub failing : List Text
  pub phase : Phase
  pub stops : ℕ
  pub shutdowns : ℕ
  pub panicked : Bool

-- What `NewSession` builds.
unfoldable pub new_aliyun_session : AliyunSession
new_aliyun_session = record {
  client = true;
  started = false;
  closing = false;
  closed = false;
  results = record { is_open = true; items = [] };
  errs = record { is_open = true; items = [] };
  results_set = true;
  errs_set = true;
  passed = [];
  failing = [];
  phase = idle;
  stops = 0;
  shutdowns = 0;
  panicked = false;
}

-- The locked section of `appendResult`, and of `fail`.
unfoldable pub check_result : AliyunSession → Recognition → AliyunSession
check_result s r =
    if s.closed || not s.results_set then s else record s { passed = s.passed ++ r ∷ [] }

unfoldable pub check_error : AliyunSession → Text → AliyunSession
check_error s e =
    if s.closed || not s.errs_set then s else record s { failing = s.failing ++ e ∷ [] }

-- What a send leaves, given its outcome.
abbrev pub sent_result : AliyunSession → Option (Channel Recognition) → AliyunSession
sent_result s none = record s { panicked = true }
sent_result s (some c) = record s { results = c }

abbrev pub sent_error : AliyunSession → Option (Channel Text) → AliyunSession
sent_error s none = record s { panicked = true }
sent_error s (some c) = record s { errs = c }

abbrev pub remove_at {ℓ} : {A : Type ℓ} → ℕ → List A → List A
remove_at i [] = []
remove_at zero (x ∷ xs) = xs
remove_at (suc i) (x ∷ xs) = x ∷ remove_at i xs

-- The send of `appendResult` by the `i`-th of the callbacks that passed, if there is one; `fail` likewise.
abbrev pub send_picked : AliyunSession → ℕ → Option Recognition → AliyunSession
send_picked s i none = s
send_picked s i (some r) =
    sent_result (record s { passed = remove_at i s.passed }) (try_send 32 s.results r)

abbrev pub fail_picked : AliyunSession → ℕ → Option Text → AliyunSession
fail_picked s i none = s
fail_picked s i (some e) =
    sent_error (record s { failing = remove_at i s.failing }) (try_send 8 s.errs e)

unfoldable pub send_result : AliyunSession → ℕ → AliyunSession
unfolding try_send
send_result s i = send_picked s i (get_elem? s.passed i)

unfoldable pub send_error : AliyunSession → ℕ → AliyunSession
unfolding try_send
send_error s i = fail_picked s i (get_elem? s.failing i)

-- The first locked section of `Close`.
unfoldable pub begin_close : AliyunSession → AliyunSession
begin_close s =
    if s.closed || s.closing
    then s
    else record s { closing = true; phase = if s.client then stopping s.started else s.phase }

-- `close` of a channel that was taken from its field, none where Go panics: it is closed already.
abbrev pub close_channel {ℓ} : {A : Type ℓ} → Bool → Channel A → Option (Channel A)
close_channel taken c =
    if taken then (if c.is_open then some (record c { is_open = false }) else none) else some c

abbrev pub closed_both :
    AliyunSession → Option (Channel Recognition) → Option (Channel Text) → AliyunSession
closed_both s (some r) (some e) = record s { results = r; errs = e; phase = finished }
closed_both s _ _ = record s { panicked = true }

-- The next part of `Close`, by its phase: `Stop` where the session was started, `Shutdown`, the second locked
-- section, the locked section of `closeChannels`, and the closing of the channels.
abbrev pub advance_from : Phase → AliyunSession → AliyunSession
advance_from (stopping started) s = record s {
  stops = if started then s.stops + 1 else s.stops;
  phase = dropping;
}
advance_from dropping s = record s { shutdowns = s.shutdowns + 1; phase = marking }
advance_from marking s = record s { closed = true; closing = false; phase = clearing }
advance_from clearing s = record s {
  phase = shutting s.results_set s.errs_set;
  results_set = false;
  errs_set = false;
}
advance_from (shutting r e) s = closed_both s (close_channel r s.results) (close_channel e s.errs)
advance_from other s = s

unfoldable pub advance_close : AliyunSession → AliyunSession
advance_close s = advance_from s.phase s

-- What `Close` returns at its end: the error of `Stop` and of the wait for it, or else a pending error of
-- the field `errs`; a receive from a nil channel is never ready.
unfoldable pub close_error : AliyunSession → Option Text → Option Text
close_error s stop_error = elim stop_error [
  | some e ↦ some e
  | none ↦ if s.errs_set then get_elem? s.errs.items 0 else none
]

-- The locked section of `WriteAudio` and `ensureStarted` for a payload: the error, or whether `Start` is
-- called first, or none where nothing is done.
pub data Writing : Type 0 where
  nothing refused : Writing
  sends : Bool → Writing

unfoldable pub write_audio : AliyunSession → List ℕ → Writing
write_audio s payload =
    if is_empty payload
    then nothing
    else if s.closed || s.closing
    then refused
    else sends (not s.started)

-- The last locked section of `ensureStarted`, after `Start` and the wait went well.
unfoldable pub mark_started : AliyunSession → AliyunSession
mark_started s = record s { started = true }

-- A step of one of the goroutines.
pub data Event : Type 0 where
  checks_result : Recognition → Event
  checks_error : Text → Event
  sends_result sends_error : ℕ → Event
  begins_close advances_close starts : Event

unfoldable pub act : AliyunSession → Event → AliyunSession
unfolding check_result check_error send_result send_error begin_close advance_close mark_started
act s (checks_result r) = check_result s r
act s (checks_error e) = check_error s e
act s (sends_result i) = send_result s i
act s (sends_error i) = send_error s i
act s begins_close = begin_close s
act s advances_close = advance_close s
act s starts = mark_started s

-- A panic ends the process.
unfoldable pub step : AliyunSession → Event → AliyunSession
unfolding act
step s event = if s.panicked then s else act s event

unfoldable pub run : AliyunSession → List Event → AliyunSession
unfolding step
run s [] = s
run s (event ∷ events) = run (step s event) events
