-- ===== src/Provider/AliyunTtsLaws.antt =====
-- tts/aliyun.go: a stream is a bounded queue of chunks that somebody closes.
use gopbx.Prelude.{
  ℕ, ◌<◌, ◌≤◌, ◌≡◌, refl, Bool, true, false, not, ◌&&◌, ◌||◌, List, [], ◌∷◌, ◌++◌, Option, none,
  some, Text, is_empty, arith, ltb, length, get_elem?, trim_space, if_intro, if◌then◌else◌,
}
use gopbx.Provider.AliyunAsr.{remove_at}
use gopbx.Provider.AliyunTts.{
  Once, fresh, shutting, complete, AliyunStream, new_aliyun_stream, set_error, task_failed,
  wait_ready, begin_push, push_picked, end_push, once_begun, once_ended, Received, chunk, ended,
  waits, received_from, recv, TtsEvent, begins_push, ends_push, fails, is_ready, begins_close,
  ends_close, receives, tts_step, tts_run,
}
use gopbx.Provider.ChunkQueue.{
  ChunkQueue, Seen, accepted, delivered, finished, unseen, Allowed, accept, deliver, finish, shuts,
  rests, Runs, stops, goes, taken, given, Runs-fifo, Runs-bounded,
}

-- The queue that a stream is.
abbrev pub view : AliyunStream → ChunkQueue
view s = record { items = s.chunks; shut = s.done }

-- What is seen of a step of the stream: the chunk that it takes, or what `Recv` returns.
abbrev seen_received : Received → Seen
seen_received (chunk pcm) = delivered pcm
seen_received (ended err) = finished err
seen_received waits = unseen

abbrev seen_push : AliyunStream → Bool → Option (List ℕ) → Seen
seen_push s takes_done none = unseen
seen_push s takes_done (some pcm) =
    if s.done && (takes_done || not (ltb (length s.chunks) 32))
    then unseen
    else if ltb (length s.chunks) 32
    then accepted pcm
    else unseen

abbrev pub see : AliyunStream → TtsEvent → Seen
see s (ends_push i takes_done) = seen_push s takes_done (get_elem? s.pushing i)
see s receives = seen_received (recv s).0
see s _ = unseen

abbrev pub sights : AliyunStream → List TtsEvent → List Seen
sights s [] = []
sights s (event ∷ events) = see s event ∷ sights (tts_step s event) events

set_error-Allowed :
    (s : AliyunStream) (e : Option Text) → Allowed (view s) unseen (view (set_error s e))
unfolding set_error
set_error-Allowed s none = rests (view s)
set_error-Allowed s (some e) = rests (view s)

push_case-Allowed :
    (full room : Bool) (s : AliyunStream) (left : List (List ℕ)) (pcm : List ℕ)
    → (room ≡ true → length s.chunks < 32)
    → Allowed (view s) (if full then unseen else if room then accepted pcm else unseen) (
        view (
          if full
          then record s { pushing = left }
          else if room
          then record s { pushing = left; chunks = s.chunks ++ pcm ∷ [] }
          else s))
push_case-Allowed true room s left pcm h = rests (view s)
push_case-Allowed false true s left pcm h = accept (view s) pcm (h refl)
push_case-Allowed false false s left pcm h = rests (view s)

end_push-Allowed :
    (s : AliyunStream) (i : ℕ) (takes_done : Bool) (picked : Option (List ℕ))
    → Allowed (view s) (seen_push s takes_done picked) (view (push_picked s i takes_done picked))
end_push-Allowed s i t none = rests (view s)
end_push-Allowed s i t (some pcm) =
    push_case-Allowed (s.done && (t || not (ltb (length s.chunks) 32))) (ltb (length s.chunks) 32) s
      (remove_at i s.pushing) pcm (λ e. ground arith)

waits-Allowed :
    (done : Bool) (s : AliyunStream)
    → s.chunks ≡ []
    → s.done ≡ done
    → Allowed (view s) (seen_received (if done then ended s.err else waits)) (view s)
waits-Allowed true s e d = finish (view s) s.err e d
waits-Allowed false s e d = rests (view s)

received_from-Allowed :
    (chunks : List (List ℕ)) (s : AliyunStream)
    → s.chunks ≡ chunks
    → Allowed (view s) (seen_received (received_from chunks s).0) (view (received_from chunks s).1)
received_from-Allowed (pcm ∷ rest) s e = deliver (view s) pcm rest e
received_from-Allowed [] s e = waits-Allowed s.done s e refl

once_begun-Allowed : (o : Once) (s : AliyunStream) → Allowed (view s) unseen (view (once_begun o s))
once_begun-Allowed fresh s = rests (view s)
once_begun-Allowed shutting s = rests (view s)
once_begun-Allowed complete s = rests (view s)

once_ended-Allowed : (o : Once) (s : AliyunStream) → Allowed (view s) unseen (view (once_ended o s))
once_ended-Allowed fresh s = rests (view s)
once_ended-Allowed shutting s = shuts (view s)
once_ended-Allowed complete s = rests (view s)

tts_step-Allowed :
    (s : AliyunStream) (event : TtsEvent) → Allowed (view s) (see s event) (view (tts_step s event))
unfolding tts_step begin_push end_push recv task_failed
tts_step-Allowed s (begins_push pcm) =
    if_intro (λ t. Allowed (view s) unseen (view t)) (is_empty pcm || s.done) (λ e. rests (view s))
      (λ e. rests (view s))
tts_step-Allowed s (ends_push i t) = end_push-Allowed s i t (get_elem? s.pushing i)
tts_step-Allowed s (fails text) = set_error-Allowed s (some (trim_space text))
tts_step-Allowed s (is_ready done) = set_error-Allowed s (wait_ready done)
tts_step-Allowed s begins_close = once_begun-Allowed s.once s
tts_step-Allowed s ends_close = once_ended-Allowed s.once s
tts_step-Allowed s receives = received_from-Allowed s.chunks s refl

-- Whatever the goroutines do with a stream, in any order, what is seen of it is what the queue allows, from
-- where it is as a queue to where it ends as one.
pub tts_run-Runs :
    (s : AliyunStream) (events : List TtsEvent)
    → Runs (view s) (sights s events) (view (tts_run s events))
unfolding tts_run
tts_run-Runs s [] = stops (view s)
tts_run-Runs s (event ∷ events) =
    goes (see s event) (sights (tts_step s event) events) (tts_step-Allowed s event)
      (tts_run-Runs (tts_step s event) events)

-- Whatever the goroutines do with a new stream, in any order, `Recv` gives the chunks that were taken in the
-- order in which they were taken, none of them twice; those not given yet are in the channel, which never
-- holds more than 32.
pub tts_run_in_order :
    (events : List TtsEvent)
    → (taken (sights new_aliyun_stream events)
        ≡ given (sights new_aliyun_stream events) ++ (tts_run new_aliyun_stream events).chunks)
      × (length (tts_run new_aliyun_stream events).chunks ≤ 32)
unfolding new_aliyun_stream
tts_run_in_order events =
    let runs = tts_run-Runs new_aliyun_stream events in
    (Runs-fifo runs, Runs-bounded runs (omega arith))

-- How often the rest of `Close` was run.
abbrev ends : Once → ℕ
ends complete = 1
ends _ = 0

abbrev OnceInv : AliyunStream → Type 0
OnceInv s = (s.shutdowns ≡ ends s.once) × (s.done_closed ≡ ends s.once)

once_begun-OnceInv :
    (o : Once) (s : AliyunStream) → s.once ≡ o → OnceInv s → OnceInv (once_begun o s)
once_begun-OnceInv fresh s e h = ground arith
once_begun-OnceInv shutting s e h = h
once_begun-OnceInv complete s e h = h

once_ended-OnceInv :
    (o : Once) (s : AliyunStream) → s.once ≡ o → OnceInv s → OnceInv (once_ended o s)
once_ended-OnceInv fresh s e h = h
once_ended-OnceInv shutting s e h = ground arith
once_ended-OnceInv complete s e h = h

tts_step-OnceInv : (s : AliyunStream) (event : TtsEvent) → OnceInv s → OnceInv (tts_step s event)
unfolding tts_step begin_push end_push task_failed set_error recv
tts_step-OnceInv s begins_close h = once_begun-OnceInv s.once s refl h
tts_step-OnceInv s ends_close h = once_ended-OnceInv s.once s refl h
tts_step-OnceInv s event h = ground arith

tts_run-OnceInv :
    (s : AliyunStream) (events : List TtsEvent) → OnceInv s → OnceInv (tts_run s events)
unfolding tts_run
tts_run-OnceInv s [] h = h
tts_run-OnceInv s (event ∷ events) h =
    tts_run-OnceInv (tts_step s event) events (tts_step-OnceInv s event h)
