-- ===== src/Media/Vad/Events.antt =====
-- The protocol events of the voice detector: `speaking` opens a segment, `silence` and `eou` close it.
use gopbx.Prelude.{ℕ, ◌≡◌, refl, Bool, true, false, List, [], ◌∷◌, ◌++◌, Option, arith, ℤ, Text}
use gopbx.Protocol.Event.{EventName, EventEnvelope, speaking, silence, eou}
use gopbx.Media.Floats.{Floats}
use gopbx.Media.Packet.{Packet, Result, passthrough}
use gopbx.Media.Vad.State.{
  VadState, idle, candidate_start, talking, candidate_end, Vad, Outside, reset_to_idle,
  observe_unless, observe_noise, enter_hit, keep_hit,
}
use gopbx.Media.Vad.Segment.{
  maybe_force_segment_end, end_events, maybe_confirm_start, confirm_start, reject_start, resume,
}
use gopbx.Protocol.Command.{VadOption}
use gopbx.Media.Vad.New.{new_vad}
use gopbx.Media.Vad.Cases.{
  confirm_start_cases, idle_cases, speaking_cases, candidate_end_cases, confirm_end_cases,
  process_cases,
}
use gopbx.Media.Vad.Process.{process_candidate_start, dispatch, process, run, listen}

-- Between the event `speaking` and the event `silence`.
abbrev pub in_segment : VadState → Bool
in_segment talking = true
in_segment candidate_end = true
in_segment _ = false

abbrev pub names : List EventEnvelope → List EventName
names [] = []
names (e ∷ es) = e.event ∷ names es

names-append : (xs ys : List EventEnvelope) → names (xs ++ ys) ≡ names xs ++ names ys
names-append [] ys = refl
names-append (x ∷ xs) ys = rw (names-append xs ys)

-- The events that a change of state calls for.
abbrev pub boundary : Bool → Bool → List EventName
boundary false true = speaking ∷ []
boundary true false = silence ∷ eou ∷ []
boundary _ _ = []

-- The grammar of the events: `speaking`, then `silence` and `eou`, and so on; the flag says whether a
-- segment is open.
abbrev pub well_bracketed : Bool → List EventName → Bool
well_bracketed b [] = true
well_bracketed false (speaking ∷ rest) = well_bracketed true rest
well_bracketed true (silence ∷ eou ∷ rest) = well_bracketed false rest
well_bracketed _ _ = false

module _ (fl : Floats) where
  -- A result and the state after it show what the change from `before` calls for.
  abbrev Announces : Bool → Vad fl × Result → Type 0
  Announces before out = names out.1.events ≡ boundary before (in_segment out.0.state)

  force_lem :
      (v : Vad fl) (now : ℤ) (track : Text) (ps : List Packet)
      → in_segment v.state ≡ true
      → Announces true
          (maybe_force_segment_end fl v now track (record { packets = ps; events = [] }))
  unfolding maybe_force_segment_end end_events reset_to_idle
  force_lem v now track ps h = ground arith

  confirm_start_lem :
      (v : Vad fl) (o : Outside fl) (track : Text)
      → in_segment v.state ≡ false
      → Announces false (maybe_confirm_start fl v o track)
  unfolding confirm_start reject_start
  confirm_start_lem v o track h =
      confirm_start_cases fl (Announces false) v o track (rw h) refl (λ _. refl)

  noise_lem : (v : Vad fl) (rms : fl.Float64) → (observe_noise fl v rms).state ≡ v.state
  unfolding observe_noise
  noise_lem v rms = ground arith

  observed :
      (b : Bool) (v : Vad fl) (rms : fl.Float64) → (observe_unless fl b v rms).state ≡ v.state
  unfolding observe_unless
  observed true v rms = refl
  observed false v rms = noise_lem v rms

  listen_lem : (v : Vad fl) (d : ℕ) (rms : fl.Float64) → (listen fl v d rms).state ≡ v.state
  unfolding listen
  listen_lem v d rms = observed (keep_hit fl v rms) v rms

  dispatch_lem :
      (s : VadState) (v : Vad fl) (o : Outside fl) (p : Packet) (d : ℕ) (rms : fl.Float64)
      → v.state ≡ s
      → Announces (in_segment s) (dispatch fl s v o p d rms)
  unfolding dispatch process_candidate_start resume reset_to_idle passthrough end_events
  dispatch_lem idle v o p d rms h =
      idle_cases fl (Announces false) v o p d rms (confirm_start_lem _ o p.track_id refl)
        (rw (noise_lem v rms, h))
  dispatch_lem candidate_start v o p d rms h =
      confirm_start_lem _ o p.track_id (rw (observed (enter_hit fl v rms) v rms, h))
  dispatch_lem talking v o p d rms h =
      speaking_cases fl (Announces true) v o p d rms refl
        (force_lem _ o.now p.track_id (p ∷ []) (rw (listen_lem v d rms, h)))
  dispatch_lem candidate_end v o p d rms h =
      candidate_end_cases fl (Announces true) v o p d rms (force_lem _ o.now p.track_id _ refl)
        (rw (listen_lem v d rms, h))
        (confirm_end_cases fl (Announces true) _ o p.track_id refl refl)

  unchanged : (b : Bool) → [] ≡ boundary b b
  unchanged true = refl
  unchanged false = refl

  -- Whatever a packet does, the events are those that the change of state calls for: `speaking` when
  -- a segment opens, `silence` and `eou` when it closes, and none otherwise.
  process_announces :
      (v : Vad fl) (o : Outside fl) (p : Packet)
      → names (process fl v o p).1.events
        ≡ boundary (in_segment v.state) (in_segment (process fl v o p).0.state)
  unfolding passthrough
  process_announces v o p =
      process_cases fl (Announces (in_segment v.state)) v o p (λ _. unchanged _)
        (λ _ _. unchanged _) (λ _ _ _ _. dispatch_lem v.state v o _ _ _ refl)

  boundary_lem :
      (a b : Bool) (rest : List EventName)
      → well_bracketed b rest ≡ true
      → well_bracketed a (boundary a b ++ rest) ≡ true
  boundary_lem true true rest h = h
  boundary_lem true false rest h = h
  boundary_lem false true rest h = h
  boundary_lem false false rest h = h

  run_lem :
      (v : Vad fl) (ps : List (Outside fl × Packet))
      → well_bracketed (in_segment v.state) (names (run fl v ps).1.events) ≡ true
  unfolding run
  run_lem v [] = unfold_nil (in_segment v.state)
    where
      unfold_nil : (b : Bool) → well_bracketed b [] ≡ true
      unfold_nil true = refl
      unfold_nil false = refl
  run_lem v ((o, p) ∷ rest) =
      let (v', r) = process fl v o p in
      rw (names-append r.events (run fl v' rest).1.events, process_announces v o p)
        (boundary_lem (in_segment v.state) (in_segment v'.state) _ (run_lem v' rest))

  -- From a new detector on, the events of any packets alternate: a `speaking`, then a `silence` with
  -- its `eou`, and so on.
  pub run-well_bracketed :
      (cfg : Option (VadOption fl.Float32)) (scorer : Bool) (ps : List (Outside fl × Packet))
      → well_bracketed false (names (run fl (new_vad fl cfg scorer) ps).1.events) ≡ true
  unfolding new_vad
  run-well_bracketed cfg scorer ps = run_lem (new_vad fl cfg scorer) ps
