-- ===== src/Media/Chain.antt =====
-- processor/chain.go, recorder.go, denoise.go and stream/stream.go: the processors that a packet goes
-- through. `S` is the state of all processors together; a processor is what it does to a packet and to
-- that state, and, where it is a `Closer`, what its `Close` does.
use gopbx.Prelude.{
  ℕ, ◌+◌, ◌%◌, ◌^◌, Bool, true, false, List, [], ◌∷◌, ◌++◌, Option, none, some, Text, if◌then◌else◌,
  length,
}
use gopbx.Protocol.Event.{EventEnvelope}
use gopbx.Media.Packet.{Packet, PacketKind, audio, Result, passthrough, resolved_kind}

-- `Processor`; `close` is none for a processor that is no `Closer`, and returns the error's text.
pub record Processor (S : Type 0) : Type 0 where
  pub name : Text
  pub process : Packet → S → S × Result
  pub close : Option (S → S × Option Text)

pub record Stream (S : Type 0) : Type 0 where
  pub id : Text
  pub chain : Option (List (Processor S))
  pub closed : Bool

module _ {S : Type 0} where
  -- The inner loop of `Process`: one processor on every packet, with the packets and events so far.
  unfoldable pub feed :
      Processor S
      → List Packet
      → List Packet
      → List EventEnvelope
      → S
      → S × List Packet × List EventEnvelope
  feed p [] next events s = (s, next, events)
  feed p (current ∷ packets) next events s =
      let (t, result) = p.process current s in
      feed p packets (next ++ result.packets) (events ++ result.events) t

  -- The outer loop, which stops where no packet is left.
  unfoldable pub flow :
      List (Processor S) → List Packet → List EventEnvelope → S → S × List EventEnvelope
  unfolding feed
  flow [] packets events s = (s, events)
  flow (p ∷ ps) [] events s = (s, events)
  flow (p ∷ ps) (current ∷ packets) events s =
      let (t, next, emitted) = feed p (current ∷ packets) [] events s in flow ps next emitted t

  -- `Chain.Process`
  unfoldable pub chain_process : List (Processor S) → Packet → S → S × List EventEnvelope
  unfolding flow
  chain_process ps packet s = flow ps (packet ∷ []) [] s

  -- The loop of `Chain.Close`: every closer runs, and the first error is kept.
  unfoldable pub close_from : List (Processor S) → Option Text → S → S × Option Text
  close_from [] first s = (s, first)
  close_from (p ∷ ps) first s = elim p.close [
    | none ↦ close_from ps first s
    | some close ↦
        let (t, err) = close s in close_from ps (elim first [ none ↦ err | some e ↦ some e ]) t
  ]

  -- `Chain.Close`
  unfoldable pub chain_close : List (Processor S) → S → S × Option Text
  unfolding close_from
  chain_close ps s = close_from ps none s

  -- `Stream.Push`
  unfoldable pub stream_push : Stream S → Text → List ℕ → S → S × List EventEnvelope
  unfolding chain_process
  stream_push stream track payload s = if stream.closed then (s, []) else elim stream.chain [
    | none ↦ (s, [])
    | some ps ↦ chain_process ps (record { track_id = track; payload = payload; kind = audio }) s
  ]

  -- `Stream.Close`; the chain's error is dropped.
  unfoldable pub stream_close : Stream S → S → Stream S × S
  unfolding chain_close
  stream_close stream s =
      let closed = record stream { closed = true } in
      elim stream.chain [ none ↦ (closed, s) | some ps ↦ (closed, (chain_close ps s).0) ]

abbrev is_audio : PacketKind → Bool
is_audio audio = true
is_audio _ = false

-- `Recorder.Process`, on the count of bytes, a `uint64`.
unfoldable pub recorder_process : Packet → ℕ → ℕ × Result
unfolding resolved_kind passthrough
recorder_process p bytes_sum = (
  if is_audio (resolved_kind p) then (bytes_sum + length p.payload) % 2 ^ 64 else bytes_sum,
  passthrough p,
)

-- `Denoise.Process`
unfoldable pub denoise_process : Packet → Result
unfolding passthrough
denoise_process p = passthrough p
