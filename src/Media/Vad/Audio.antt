-- ===== src/Media/Vad/Audio.antt =====
-- What the voice detector passes on of the audio that it is given.
use mathlib.Core.List.{Sublist, sublist-append_left}
use mathlib.Core.List.Sublist
use gopbx.Prelude.{
  ℕ, ◌⊎◌, ◌≡◌, refl, sym, ◌∙◌, subst, ap, Bool, true, false, List, [], ◌∷◌, ◌++◌, append_assoc,
  arith, Option,
}
use gopbx.Protocol.Command.{VadOption}
use gopbx.Media.Floats.{Floats}
use gopbx.Media.Packet.{Packet, Result, resolved_kind}
use gopbx.Media.BufferLaws.{IsFrame}
use gopbx.Media.Vad.State.{
  VadConfig, VadState, idle, candidate_start, talking, candidate_end, Vad, Outside, pcm_duration_ms,
}
use gopbx.Media.Vad.Process.{dispatch, process, is_audio, run}
use gopbx.Media.Vad.New.{new_vad}
use gopbx.Media.Vad.Cases.{process_cases}
use gopbx.Media.Vad.Events.{in_segment}
use gopbx.Media.Vad.Conservation.{
  Frames, audio_of, audio_of-append, nil_formed, IsSound, pending, Conserves,
}
use gopbx.Media.Vad.Lossless.{
  Orders, idle_lem, candidate_start_lem, speaking_lem, candidate_end_lem, Held-at,
}

all_nil :
    {a b c : Frames} → a ≡ [] → b ≡ [] → c ≡ [] → (rest : Frames) → (a ++ (b ++ c)) ++ rest ≡ rest
all_nil p q r rest = rw (p, q, r)

first_nil :
    {a b : Frames} → a ≡ [] → b ≡ [] → (c rest : Frames) → (a ++ (b ++ c)) ++ rest ≡ c ++ rest
first_nil p q c rest = rw (p, q)

-- A subsequence of what stands before the rest, with the rest behind both.
regroup :
    (a b c d : Frames) (f : List ℕ)
    → Sublist (a ++ b) (d ++ f ∷ [])
    → Sublist (a ++ (b ++ c)) (d ++ f ∷ c)
regroup a b c d f h =
    subst (λ xs. Sublist xs (d ++ f ∷ c)) (append_assoc a b c)
      (subst (Sublist ((a ++ b) ++ c)) (append_assoc d (f ∷ []) c)
        (Sublist.append h (Sublist.refl c)))

module _ (fl : Floats) where
  segment_lem :
      (st : VadState) (v : Vad fl) (o : Outside fl) (p : Packet) (d : ℕ) (rms : fl.Float64)
      → IsSound fl v
      → is_audio p.kind ≡ true
      → IsFrame p.payload d
      → v.state ≡ st
      → in_segment st ≡ true
      → Conserves fl v (pending fl v ++ p.payload ∷ []) (dispatch fl st v o p d rms)
  segment_lem idle v o p d rms s a f h i = absurd (cc)
  segment_lem candidate_start v o p d rms s a f h i = absurd (cc)
  segment_lem talking v o p d rms s a f h i =
      let held = Held-at fl v talking h s in
      subst (λ (b : Frames). Conserves fl v b (dispatch fl talking v o p d rms))
        (sym (all_nil held.0 held.1 held.2 (p.payload ∷ []))) (speaking_lem fl v o p d rms s a f h)
  segment_lem candidate_end v o p d rms s a f h i =
      let held = Held-at fl v candidate_end h s in
      subst (λ (b : Frames). Conserves fl v b (dispatch fl candidate_end v o p d rms))
        (sym (first_nil held.0 held.1 v.tail_buffer.frames (p.payload ∷ [])))
        (candidate_end_lem fl v o p d rms s f h)

  dispatch_lem :
      (st : VadState) (v : Vad fl) (o : Outside fl) (p : Packet) (d : ℕ) (rms : fl.Float64)
      → IsSound fl v
      → is_audio p.kind ≡ true
      → IsFrame p.payload d
      → v.state ≡ st
      → Orders fl v p.payload (dispatch fl st v o p d rms)
  dispatch_lem idle v o p d rms s a f h = idle_lem fl v o p d rms s h
  dispatch_lem candidate_start v o p d rms s a f h = candidate_start_lem fl v o p d rms s h
  dispatch_lem talking v o p d rms s a f h =
      let r = segment_lem talking v o p d rms s a f h refl in
      record { sound = r.sound; same = r.same; ordered = r.ordered }
  dispatch_lem candidate_end v o p d rms s a f h =
      let r = segment_lem candidate_end v o p d rms s a f h refl in
      record { sound = r.sound; same = r.same; ordered = r.ordered }

  -- The order of audio is kept: what a packet makes the detector pass on, and then what it still holds
  -- back, are in order frames that it held before or the packet's own, each at most once. The detector
  -- stays sound, and its configuration is left alone.
  pub process_ordered :
      (v : Vad fl) (o : Outside fl) (p : Packet)
      → IsSound fl v
      → v.bypass ≡ false
      → is_audio (resolved_kind p) ≡ true
      → IsSound fl (process fl v o p).0
        × ((process fl v o p).0.config ≡ v.config)
        × Sublist
            (audio_of (process fl v o p).1.packets ++ pending fl (process fl v o p).0)
            (pending fl v ++ p.payload ∷ [])
  process_ordered v o p s b a = (r.sound, r.same, r.ordered)
    where
      kept : Orders fl v p.payload (v, record { packets = []; events = [] })
      kept = record { sound = s; same = refl; ordered = sublist-append_left _ _ }

      refuse : (is_audio (resolved_kind p) ≡ false) ⊎ (v.bypass ≡ true) → ⊥
      refuse w = ground arith

      r : Orders fl v p.payload (process fl v o p)
      r =
          process_cases fl (Orders fl v p.payload) v o p (λ w. absurd (refuse w)) (λ _ _. kept)
            (λ _ e _ d. dispatch_lem v.state v o _ _ _ s a (e, d) refl)

  -- Nothing is lost within a segment: if a sound detector that is no passthrough is in a segment before and
  -- after a packet of audio that is not empty and has a duration above 0, what it passes on, and then what it
  -- still holds back, are exactly the frames that it held before and then the packet's own.
  pub process_lossless :
      (v : Vad fl) (o : Outside fl) (p : Packet)
      → IsSound fl v
      → v.bypass ≡ false
      → is_audio (resolved_kind p) ≡ true
      → IsFrame p.payload (pcm_duration_ms p.payload v.sample_rate)
      → in_segment v.state ≡ true
      → in_segment (process fl v o p).0.state ≡ true
      → audio_of (process fl v o p).1.packets ++ pending fl (process fl v o p).0
        ≡ pending fl v ++ p.payload ∷ []
  process_lossless v o p s b a f i =
      process_cases fl Lossless v o p (λ w. absurd (ground arith)) (λ _ w. absurd (ground arith))
        (λ _ _ _ _. (segment_lem v.state v o _ _ _ s a f refl i).lossless)
    where
      Lossless : Vad fl × Result → Type 0
      Lossless out =
          in_segment out.0.state ≡ true
          → audio_of out.1.packets ++ pending fl out.0 ≡ pending fl v ++ p.payload ∷ []

  pub new-IsSound :
      (cfg : Option (VadOption fl.Float32)) (scorer : Bool) → IsSound fl (new_vad fl cfg scorer)
  unfolding new_vad
  new-IsSound cfg scorer = record {
    pre_formed = nil_formed;
    start_formed = nil_formed;
    tail_formed = nil_formed;
    held = (refl, refl);
  }

  abbrev pub payloads : List (Outside fl × Packet) → Frames
  payloads [] = []
  payloads ((o, p) ∷ rest) = p.payload ∷ payloads rest

  abbrev pub AllAudio : List (Outside fl × Packet) → Type 0
  AllAudio [] = Unit
  AllAudio ((o, p) ∷ rest) = (is_audio (resolved_kind p) ≡ true) × AllAudio rest

  run_lem :
      (v : Vad fl) (ps : List (Outside fl × Packet))
      → IsSound fl v
      → v.bypass ≡ false
      → AllAudio ps
      → Sublist (audio_of (run fl v ps).1.packets) (pending fl v ++ payloads ps)
  unfolding run
  run_lem v [] s b a = subst (Sublist []) refl (sublist-append_left [] _)
  run_lem v ((o, p) ∷ rest) s b a =
      let r = process_ordered v o p s b a.0 in
      let (v', out) = process fl v o p in
      let ih = run_lem v' rest r.0 (ap (λ (c : VadConfig fl). c.bypass) r.1 ∙ b) a.1 in
      let later = audio_of (run fl v' rest).1.packets in
      rw (audio_of-append out.packets _) (
        Sublist.trans (Sublist.append (Sublist.refl (audio_of out.packets)) ih) (
          regroup (audio_of out.packets) (pending fl v') (payloads rest) (pending fl v) p.payload
            r.2))

  -- Over any run of audio packets from a new detector that is not a mere passthrough, the audio that
  -- comes out is a subsequence of the audio that went in.
  pub run_ordered :
      (cfg : Option (VadOption fl.Float32)) (scorer : Bool) (ps : List (Outside fl × Packet))
      → (new_vad fl cfg scorer).bypass ≡ false
      → AllAudio ps
      → Sublist (audio_of (run fl (new_vad fl cfg scorer) ps).1.packets) (payloads ps)
  unfolding new_vad
  run_ordered cfg scorer ps b a = run_lem (new_vad fl cfg scorer) ps (new-IsSound cfg scorer) b a
