-- ===== src/Media/Vad/FrameSize.antt =====
-- Which frame durations the voice detector can hear at all: those that divide the start window.
use gopbx.Prelude.{
  ℕ, ◌*◌, ◌%◌, ◌≤◌, ◌<◌, ◌≡◌, ◌≢◌, refl, sym, ◌∙◌, subst, ap, Bool, true, false, List, [], ◌∷◌,
  ◌++◌, arith, Option, All, ltb, length, Text, Bool-cases, inl, inr,
}
use native.Mathlib.Nat.{mul-mod_left}
use gopbx.Protocol.Command.{VadOption}
use gopbx.Media.Buffer
use gopbx.Media.Buffer.{BufferedAudio, empty_buffer}
use gopbx.Media.BufferLaws.{push-IsWellFormed, push-total_le, push-All, sum_uniform}
use gopbx.Media.Floats.{Floats}
use gopbx.Media.Packet.{Packet, Result, resolved_kind, empty_result}
use gopbx.Media.Vad.State.{
  VadState, idle, candidate_start, talking, candidate_end, Vad, VadConfig, Outside, pcm_duration_ms,
  rms_pcm16le, enter_hit, observe_noise, observe_unless,
}
use gopbx.Media.Vad.Segment.{maybe_confirm_start, reject_start}
use gopbx.Media.Vad.Process.{dispatch, process, process_candidate_start, is_audio, run}
use gopbx.Media.Vad.New.{new_vad}
use gopbx.Media.Vad.Cases.{confirm_start_cases, idle_cases, process_cases}
use gopbx.Media.Vad.Events.{in_segment}
use gopbx.Media.Vad.Conservation.{nil_formed}
use gopbx.Media.Vad.Lossless.{Keeps, noise-Keeps, unless-Keeps}

-- A buffer of frames of one duration, within the limit.
record Uniform (d limit : ℕ) (b : BufferedAudio) : Type 0 where
  formed : Buffer.IsWellFormed b
  bounded : b.total_ms ≤ limit
  uniform : All (λ l. l ≡ d) b.lengths

nil-Uniform : (d limit : ℕ) → Uniform d limit empty_buffer
nil-Uniform d limit = record { formed = nil_formed; bounded = omega arith; uniform = tt }

push-Uniform :
    (d limit : ℕ) (b : BufferedAudio) (p : List ℕ)
    → 0 < limit
    → Uniform d limit b
    → Uniform d limit (Buffer.push b p d limit)
push-Uniform d limit b p h u = record {
  formed = push-IsWellFormed b p d limit u.formed;
  bounded = push-total_le b p d limit u.formed h u.bounded;
  uniform = push-All (λ l. l ≡ d) b p d limit u.uniform refl;
}

-- Such a buffer never fills a limit that the duration does not divide.
Uniform-below :
    (d limit : ℕ) (b : BufferedAudio)
    → 0 < d
    → limit % d ≢ 0
    → Uniform d limit b
    → b.total_ms < limit
Uniform-below d limit b h n u = elim (Bool-cases (ltb b.total_ms limit)) [
  | inl e ↦ ground arith
  | inr e ↦ absurd (n (ap (λ (k : ℕ). k % d) (full e) ∙ mul-mod_left (length b.lengths) d))
]
  where
    full : ltb b.total_ms limit ≡ false → limit ≡ length b.lengths * d
    full e = ground (arith, sum_uniform d b.lengths u.uniform)

both_empty :
    {x y : Result}
    → x ≡ empty_result
    → y ≡ empty_result
    → record { packets = x.packets ++ y.packets; events = x.events ++ y.events } ≡ empty_result
both_empty p q i = record {
  packets = (p i).packets ++ (q i).packets;
  events = (p i).events ++ (q i).events;
}

module _ (fl : Floats) where
  -- A detector outside a segment whose held-back start has frames of one duration.
  record IsDeaf (d : ℕ) (v : Vad fl) : Type 0 where
    closed : in_segment v.state ≡ false
    start : Uniform d v.start_window_ms v.start_buffer

  record StaysDeaf (d : ℕ) (v : Vad fl) (out : Vad fl × Result) : Type 0 where
    deaf : IsDeaf d out.0
    same : out.0.config ≡ v.config
    mute : out.1 ≡ empty_result

  confirm_start_lem :
      (d : ℕ) (v u : Vad fl) (o : Outside fl) (track : Text)
      → 0 < d
      → u.start_window_ms % d ≢ 0
      → u.config ≡ v.config
      → IsDeaf d u
      → StaysDeaf d v (maybe_confirm_start fl u o track)
  unfolding reject_start
  confirm_start_lem d v u o track h n c s =
      confirm_start_cases fl (StaysDeaf d v) u o track (record { deaf = s; same = c; mute = refl })
        (record {
          deaf = record { closed = refl; start = nil-Uniform d u.start_window_ms };
          same = c;
          mute = refl;
        })
        (λ full.
          absurd (ground (arith, Uniform-below d u.start_window_ms u.start_buffer h n s.start)))

  moved :
      (d : ℕ) (v u : Vad fl)
      → Keeps fl v u
      → Uniform d v.start_window_ms v.start_buffer
      → Uniform d u.start_window_ms u.start_buffer
  moved d v u k s =
      subst (λ (c : VadConfig fl). Uniform d c.start_window_ms u.start_buffer) (sym k.0)
        (subst (λ (b : BufferedAudio). Uniform d v.start_window_ms b) (sym k.3) s)

  dispatch_lem :
      (st : VadState) (v : Vad fl) (o : Outside fl) (p : Packet) (d : ℕ) (rms : fl.Float64)
      → 0 < d
      → 0 < v.start_window_ms
      → v.start_window_ms % d ≢ 0
      → v.state ≡ st
      → IsDeaf d v
      → StaysDeaf d v (dispatch fl st v o p d rms)
  unfolding dispatch process_candidate_start
  dispatch_lem talking v o p d rms h w n e s = absurd (cc (ap in_segment e, s.closed))
  dispatch_lem candidate_end v o p d rms h w n e s = absurd (cc (ap in_segment e, s.closed))
  dispatch_lem idle v o p d rms h w n e s =
      idle_cases fl (StaysDeaf d v) v o p d rms
        (confirm_start_lem d v _ o p.track_id h n refl (record {
          closed = refl;
          start =
              push-Uniform d v.start_window_ms empty_buffer p.payload w
                (nil-Uniform d v.start_window_ms);
        }))
        (record {
          deaf = record {
            closed = ap in_segment (noise-Keeps fl v rms).1 ∙ s.closed;
            start = moved d v (observe_noise fl v rms) (noise-Keeps fl v rms) s.start;
          };
          same = (noise-Keeps fl v rms).0;
          mute = refl;
        })
  dispatch_lem candidate_start v o p d rms h w n e s =
      confirm_start_lem d v _ o p.track_id h
        (subst (λ (c : VadConfig fl). c.start_window_ms % d ≢ 0) (sym k.0) n) k.0
        (record {
          closed = ap in_segment k.1 ∙ s.closed;
          start =
              push-Uniform d u.start_window_ms u.start_buffer p.payload
                (subst (λ (c : VadConfig fl). 0 < c.start_window_ms) (sym k.0) w)
                (moved d v u k s.start);
        })
    where
      u : Vad fl
      u = observe_unless fl (enter_hit fl v rms) v rms

      k : Keeps fl v u
      k = unless-Keeps fl (enter_hit fl v rms) v rms

  -- Packets of audio that all last `d` milliseconds.
  abbrev pub AllLast : ℕ → ℕ → List (Outside fl × Packet) → Type 0
  AllLast rate d [] = Unit
  AllLast rate d ((o, p) ∷ rest) =
      (is_audio (resolved_kind p) ≡ true)
      × (pcm_duration_ms p.payload rate ≡ d)
      × AllLast rate d rest

  process_deaf :
      (v : Vad fl) (o : Outside fl) (p : Packet) (d : ℕ)
      → 0 < v.start_window_ms
      → v.start_window_ms % d ≢ 0
      → v.bypass ≡ false
      → is_audio (resolved_kind p) ≡ true
      → pcm_duration_ms p.payload v.sample_rate ≡ d
      → IsDeaf d v
      → StaysDeaf d v (process fl v o p)
  process_deaf v o p d w n b a e s =
      process_cases fl (StaysDeaf d v) v o p (λ x. absurd (ground arith))
        (λ _ _. record { deaf = s; same = refl; mute = refl })
        (λ _ _ _ h.
          subst
            (λ (t : ℕ). StaysDeaf d v (
              dispatch fl v.state v o (record p { kind = resolved_kind p }) t
                (rms_pcm16le fl p.payload)))
            (sym e)
            (dispatch_lem v.state v o (record p { kind = resolved_kind p }) d
              (rms_pcm16le fl p.payload) (subst (λ (t : ℕ). 0 < t) e h) w n refl s))

  run_lem :
      (v : Vad fl) (ps : List (Outside fl × Packet)) (d : ℕ)
      → 0 < v.start_window_ms
      → v.start_window_ms % d ≢ 0
      → v.bypass ≡ false
      → AllLast v.sample_rate d ps
      → IsDeaf d v
      → (run fl v ps).1 ≡ empty_result
  unfolding run
  run_lem v [] d w n b a s = refl
  run_lem v ((o, p) ∷ rest) d w n b a s = both_empty r.mute (
      run_lem (process fl v o p).0 rest d (moved_to (λ c. 0 < c.start_window_ms) w)
        (moved_to (λ c. c.start_window_ms % d ≢ 0) n) (moved_to (λ c. c.bypass ≡ false) b)
        (moved_to (λ c. AllLast c.sample_rate d rest) a.2) r.deaf)
    where
      r : StaysDeaf d v (process fl v o p)
      r = process_deaf v o p d w n b a.0 a.1 s

      moved_to : (P : VadConfig fl → Type 0) → P v.config → P (process fl v o p).0.config
      moved_to P = subst P (sym r.same)

  -- A new detector that is not a mere passthrough passes nothing on and reports nothing, whatever it
  -- hears, if all packets are audio of one duration that does not divide the start window of 60 ms.
  pub run_deaf :
      (cfg : Option (VadOption fl.Float32)) (scorer : Bool) (ps : List (Outside fl × Packet))
      (d : ℕ)
      → (new_vad fl cfg scorer).bypass ≡ false
      → 60 % d ≢ 0
      → AllLast (new_vad fl cfg scorer).sample_rate d ps
      → (run fl (new_vad fl cfg scorer) ps).1 ≡ empty_result
  unfolding new_vad
  run_deaf cfg scorer ps d b n a =
      run_lem (new_vad fl cfg scorer) ps d (omega arith) n b a
        (record { closed = refl; start = nil-Uniform d 60 })
