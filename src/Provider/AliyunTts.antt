-- ===== src/Provider/AliyunTts.antt =====
-- internal/adapter/outbound/tts/aliyun.go: the stream of a synthesis on the Aliyun client, which is outside
-- this code and calls back from goroutines of its own. A method is the list of its locked sections and
-- channel operations, and a run is any sequence of these from all goroutines.
use gopbx.Prelude.{
  ℕ, ◌+◌, Bool, true, false, not, ◌&&◌, ◌||◌, List, [], ◌∷◌, ◌++◌, Option, none, some, Text, codes,
  is_empty, trim_space, if◌then◌else◌, ltb, length, get_elem?,
}
use gopbx.Provider.AliyunAsr.{remove_at}

-- How far `closeOnce` is: not begun, between the locked section and the end, or done.
pub data Once : Type 0 where
  fresh shutting complete : Once

-- `pushing` are the chunks of the callbacks in `pushChunk` that found the stream not done. `shutdowns` and
-- `done_closed` count calls of the client and of `close` on the channel `done`.
pub record AliyunStream : Type 0 where
  pub chunks : List (List ℕ)
  pub done : Bool
  pub closed : Bool
  pub err : Option Text
  pub once : Once
  pub pushing : List (List ℕ)
  pub shutdowns : ℕ
  pub done_closed : ℕ

-- What `StartSynthesis` builds.
unfoldable pub new_aliyun_stream : AliyunStream
new_aliyun_stream = record {
  chunks = [];
  done = false;
  closed = false;
  err = none;
  once = fresh;
  pushing = [];
  shutdowns = 0;
  done_closed = 0;
}

-- The error that is kept: the first.
abbrev pub first_error : Option Text → Text → Text
first_error none e = e
first_error (some f) e = f

-- `setError`
unfoldable pub set_error : AliyunStream → Option Text → AliyunStream
set_error s none = s
set_error s (some e) = record s { err = some (first_error s.err e) }

-- `aliyunTTSTaskFailed`
unfoldable pub task_failed : AliyunStream → Text → AliyunStream
unfolding set_error
task_failed s text = set_error s (some (trim_space text))

-- What comes of waiting: the value on the channel `ready`, or the timeout (none).
unfoldable pub wait_ready : Option Bool → Option Text
wait_ready none = some (codes "wait timeout")
wait_ready (some false) = some (codes "wait failed")
wait_ready (some true) = none

-- `pushChunk` up to its second `select`.
unfoldable pub begin_push : AliyunStream → List ℕ → AliyunStream
begin_push s pcm =
    if is_empty pcm || s.done then s else record s { pushing = s.pushing ++ pcm ∷ [] }

-- The second `select` for the chunk of the `i`-th callback: where the channel has room and `done` is closed,
-- either may be taken; where neither is ready, the callback waits on.
abbrev pub push_picked : AliyunStream → ℕ → Bool → Option (List ℕ) → AliyunStream
push_picked s i takes_done none = s
push_picked s i takes_done (some pcm) =
    if s.done && (takes_done || not (ltb (length s.chunks) 32))
    then record s { pushing = remove_at i s.pushing }
    else if ltb (length s.chunks) 32
    then record s { pushing = remove_at i s.pushing; chunks = s.chunks ++ pcm ∷ [] }
    else s

unfoldable pub end_push : AliyunStream → ℕ → Bool → AliyunStream
end_push s i takes_done = push_picked s i takes_done (get_elem? s.pushing i)

-- `Close`: the locked section of the first caller, and then the rest, in which the client is shut down.
abbrev pub once_begun : Once → AliyunStream → AliyunStream
once_begun fresh s = record s { closed = true; once = shutting }
once_begun _ s = s

abbrev pub once_ended : Once → AliyunStream → AliyunStream
once_ended shutting s = record s {
  shutdowns = s.shutdowns + 1;
  done = true;
  done_closed = s.done_closed + 1;
  once = complete;
}
once_ended _ s = s

-- What `Recv` returns: a chunk, or the error that the stream ends with, none for `io.EOF`; or it waits.
pub data Received : Type 0 where
  chunk : List ℕ → Received
  ended : Option Text → Received
  waits : Received

-- `Recv`. Where a chunk is ready, it is taken whichever case the first `select` takes.
abbrev pub received_from : List (List ℕ) → AliyunStream → Received × AliyunStream
received_from (pcm ∷ rest) s = (chunk pcm, record s { chunks = rest })
received_from [] s = (if s.done then ended s.err else waits, s)

unfoldable pub recv : AliyunStream → Received × AliyunStream
recv s = received_from s.chunks s

-- A step of one of the goroutines: a callback with data, the rest of one, a failed task, the end of the wait
-- for completion, the two parts of `Close`, and a `Recv`.
pub data TtsEvent : Type 0 where
  begins_push : List ℕ → TtsEvent
  ends_push : ℕ → Bool → TtsEvent
  fails : Text → TtsEvent
  is_ready : Option Bool → TtsEvent
  begins_close ends_close receives : TtsEvent

unfoldable pub tts_step : AliyunStream → TtsEvent → AliyunStream
unfolding begin_push end_push task_failed set_error wait_ready recv
tts_step s (begins_push pcm) = begin_push s pcm
tts_step s (ends_push i takes_done) = end_push s i takes_done
tts_step s (fails text) = task_failed s text
tts_step s (is_ready done) = set_error s (wait_ready done)
tts_step s begins_close = once_begun s.once s
tts_step s ends_close = once_ended s.once s
tts_step s receives = (recv s).1

unfoldable pub tts_run : AliyunStream → List TtsEvent → AliyunStream
unfolding tts_step
tts_run s [] = s
tts_run s (event ∷ events) = tts_run (tts_step s event) events
