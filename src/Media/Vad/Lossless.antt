-- ===== src/Media/Vad/Lossless.antt =====
-- What a packet does to the audio that the voice detector holds back: none is made up, doubled or
-- reordered, and none is lost within a segment.
use mathlib.Core.List.{Sublist}
use mathlib.Core.List.Sublist
use gopbx.Prelude.{
  ℕ, ◌≡◌, refl, sym, ◌∙◌, subst, ap, Bool, true, false, List, [], ◌∷◌, ◌++◌, append-nil,
  append_assoc, arith,
}
use gopbx.Media.Buffer
use gopbx.Media.Buffer.{BufferedAudio, empty_buffer, audio_packet, prefix_from, prefix_packets}
use gopbx.Media.BufferLaws.{push-IsWellFormed, push_sublist, push_unlimited, IsFrame}
use gopbx.Media.Window
use gopbx.Media.Window.{empty_window}
use gopbx.Media.Floats.{Floats}
use gopbx.Media.Packet.{Packet, Result, passthrough}
use gopbx.Media.Vad.State.{
  VadState, idle, candidate_start, talking, candidate_end, Vad, Outside, observe_noise,
  observe_unless, enter_hit, keep_hit,
}
use gopbx.Media.Vad.Segment.{resume}
use gopbx.Media.Vad.Process.{dispatch, process_candidate_start, listen, is_audio}
use gopbx.Media.Vad.Cases.{idle_cases, speaking_cases, candidate_end_cases}
use gopbx.Media.Vad.Conservation.{
  Frames, audio_of, audio_of-packets, nil_formed, Held, IsSound, pending, Conserves, exactly,
  confirm_start_lem, force_lem, confirm_end_lem,
}

module _ (fl : Floats) where
  -- What `observeNoiseLocked` and the activity window leave alone.
  abbrev pub Keeps : Vad fl → Vad fl → Type 0
  Keeps v w =
      (w.config ≡ v.config)
      × (w.state ≡ v.state)
      × (w.pre_roll ≡ v.pre_roll)
      × (w.start_buffer ≡ v.start_buffer)
      × (w.tail_buffer ≡ v.tail_buffer)

  pub noise-Keeps : (v : Vad fl) (rms : fl.Float64) → Keeps v (observe_noise fl v rms)
  unfolding observe_noise
  noise-Keeps v rms = ground arith

  pub unless-Keeps :
      (b : Bool) (v : Vad fl) (rms : fl.Float64) → Keeps v (observe_unless fl b v rms)
  unfolding observe_unless
  unless-Keeps true v rms = (refl, refl, refl, refl, refl)
  unless-Keeps false v rms = noise-Keeps v rms

  listen-Keeps : (v : Vad fl) (d : ℕ) (rms : fl.Float64) → Keeps v (listen fl v d rms)
  unfolding listen
  listen-Keeps v d rms = unless-Keeps (keep_hit fl v rms) v rms

  pub Held-at :
      (v : Vad fl) (st : VadState)
      → v.state ≡ st
      → IsSound fl v
      → Held st v.pre_roll.frames v.start_buffer.frames v.tail_buffer.frames
  Held-at v st h s =
      subst (λ x. Held x v.pre_roll.frames v.start_buffer.frames v.tail_buffer.frames) h s.held

  to_held :
      (v : Vad fl) (st : VadState)
      → v.state ≡ st
      → Held st v.pre_roll.frames v.start_buffer.frames v.tail_buffer.frames
      → Held v.state v.pre_roll.frames v.start_buffer.frames v.tail_buffer.frames
  to_held v st h =
      subst (λ x. Held x v.pre_roll.frames v.start_buffer.frames v.tail_buffer.frames) (sym h)

  pending-Keeps : (v w : Vad fl) → Keeps v w → pending fl w ≡ pending fl v
  pending-Keeps v w k = rw (k.2, k.3, k.4)

  -- A handler within a segment: nothing is lost while the segment goes on.
  pub speaking_lem :
      (v : Vad fl) (o : Outside fl) (p : Packet) (d : ℕ) (rms : fl.Float64)
      → IsSound fl v
      → is_audio p.kind ≡ true
      → IsFrame p.payload d
      → v.state ≡ talking
      → Conserves fl v (p.payload ∷ []) (dispatch fl talking v o p d rms)
  unfolding dispatch passthrough
  speaking_lem v o p d rms s a f h =
      speaking_cases fl (Conserves fl v (p.payload ∷ [])) v o p d rms
        (exactly fl v _ _
          (record {
            pre_formed = subst Buffer.IsWellFormed (sym k.2) s.pre_formed;
            start_formed = subst Buffer.IsWellFormed (sym k.3) s.start_formed;
            tail_formed = push-IsWellFormed empty_buffer p.payload d 0 nil_formed;
            held = (pre, start);
          })
          k.0 (rw (pre, start) (push_unlimited empty_buffer p.payload d f)))
        (force_lem fl v _ o p.track_id (p ∷ []) _
          (record {
            pre_formed = subst Buffer.IsWellFormed (sym k.2) s.pre_formed;
            start_formed = subst Buffer.IsWellFormed (sym k.3) s.start_formed;
            tail_formed = subst Buffer.IsWellFormed (sym k.4) s.tail_formed;
            held = to_held w talking (k.1 ∙ h) (pre, start, tail);
          })
          k.0 (rw (a, pre, start, tail)))
    where
      w : Vad fl
      w = listen fl v d rms

      k : Keeps v w
      k = listen-Keeps v d rms

      held : Held talking v.pre_roll.frames v.start_buffer.frames v.tail_buffer.frames
      held = Held-at v talking h s

      pre : w.pre_roll.frames ≡ []
      pre = ap (λ (b : BufferedAudio). b.frames) k.2 ∙ held.0

      start : w.start_buffer.frames ≡ []
      start = ap (λ (b : BufferedAudio). b.frames) k.3 ∙ held.1

      tail : w.tail_buffer.frames ≡ []
      tail = ap (λ (b : BufferedAudio). b.frames) k.4 ∙ held.2

  pub candidate_end_lem :
      (v : Vad fl) (o : Outside fl) (p : Packet) (d : ℕ) (rms : fl.Float64)
      → IsSound fl v
      → IsFrame p.payload d
      → v.state ≡ candidate_end
      → Conserves fl v
          (v.tail_buffer.frames ++ p.payload ∷ [])
          (dispatch fl candidate_end v o p d rms)
  unfolding dispatch resume
  candidate_end_lem v o p d rms s f h =
      candidate_end_cases fl (Conserves fl v before) v o p d rms
        (force_lem fl v _ o p.track_id _ before
          (record {
            pre_formed = subst Buffer.IsWellFormed (sym k.2) s.pre_formed;
            start_formed = subst Buffer.IsWellFormed (sym k.3) s.start_formed;
            tail_formed = nil_formed;
            held = (pre, start, refl);
          })
          k.0 (rw (audio_of-packets, pre, start) (append-nil _ ∙ tail)))
        (exactly fl v before _ sound k.0 (rw (pre, start) tail))
        (confirm_end_lem fl v _ o p.track_id before sound k.0 (k.1 ∙ h) pre start tail)
    where
      before : Frames
      before = v.tail_buffer.frames ++ p.payload ∷ []

      l : Vad fl
      l = listen fl v d rms

      w : Vad fl
      w = record l { tail_buffer = Buffer.push l.tail_buffer p.payload d 0 }

      k : Keeps v l
      k = listen-Keeps v d rms

      held : Held candidate_end v.pre_roll.frames v.start_buffer.frames v.tail_buffer.frames
      held = Held-at v candidate_end h s

      pre : w.pre_roll.frames ≡ []
      pre = ap (λ (b : BufferedAudio). b.frames) k.2 ∙ held.0

      start : w.start_buffer.frames ≡ []
      start = ap (λ (b : BufferedAudio). b.frames) k.3 ∙ held.1

      tail : w.tail_buffer.frames ≡ before
      tail =
          push_unlimited l.tail_buffer p.payload d f
          ∙ ap (λ (b : BufferedAudio). b.frames ++ p.payload ∷ []) k.4

      sound : IsSound fl w
      sound = record {
        pre_formed = subst Buffer.IsWellFormed (sym k.2) s.pre_formed;
        start_formed = subst Buffer.IsWellFormed (sym k.3) s.start_formed;
        tail_formed =
            push-IsWellFormed l.tail_buffer p.payload d 0
              (subst Buffer.IsWellFormed (sym k.4) s.tail_formed);
        held = to_held w candidate_end (k.1 ∙ h) (pre, start);
      }

  -- `new` may take the place of the held-back start when the frame is added.
  place_ordered :
      (pre start new tail : Frames) (frame : List ℕ)
      → tail ≡ []
      → Sublist new (start ++ frame ∷ [])
      → Sublist (pre ++ (new ++ tail)) ((pre ++ (start ++ tail)) ++ frame ∷ [])
  place_ordered pre start new tail frame e h =
      rw (e, append-nil new, append-nil start, append_assoc) (Sublist.append (Sublist.refl pre) h)

  -- So too where the frame goes behind the pre-roll, and nothing else is held.
  empty_ordered :
      (new pre : Frames) {start' tail' start tail : Frames}
      → start' ≡ []
      → tail' ≡ []
      → start ≡ []
      → tail ≡ []
      → (frame : List ℕ) → Sublist new (pre ++ frame ∷ [])
      → Sublist (new ++ (start' ++ tail')) ((pre ++ (start ++ tail)) ++ frame ∷ [])
  empty_ordered new pre a b c d frame h = rw (a, b, c, d, append-nil new, append-nil pre) h

  -- A handler outside a segment keeps the order; it may drop the oldest frames.
  pub record Orders (v : Vad fl) (frame : List ℕ) (out : Vad fl × Result) : Type 0 where
    pub sound : IsSound fl out.0
    pub same : out.0.config ≡ v.config
    pub ordered : Sublist (audio_of out.1.packets ++ pending fl out.0) (pending fl v ++ frame ∷ [])

  after :
      (v u : Vad fl) (frame : List ℕ) (out : Vad fl × Result)
      → u.config ≡ v.config
      → Sublist (pending fl u) (pending fl v ++ frame ∷ [])
      → Conserves fl u (pending fl u) out
      → Orders v frame out
  after v u frame out c h r = record {
    sound = r.sound;
    same = r.same ∙ c;
    ordered = Sublist.trans r.ordered h;
  }

  pub idle_lem :
      (v : Vad fl) (o : Outside fl) (p : Packet) (d : ℕ) (rms : fl.Float64)
      → IsSound fl v
      → v.state ≡ idle
      → Orders v p.payload (dispatch fl idle v o p d rms)
  unfolding dispatch
  idle_lem v o p d rms s h =
      idle_cases fl (Orders v p.payload) v o p d rms
        (after v u p.payload _ refl
          (place_ordered v.pre_roll.frames v.start_buffer.frames _ v.tail_buffer.frames p.payload
            held.1
            (subst (λ (st : Frames). Sublist u.start_buffer.frames (st ++ p.payload ∷ []))
              (sym held.0) (push_sublist empty_buffer p.payload d v.start_window_ms nil_formed)))
          (confirm_start_lem fl u o p.track_id
            (record {
              pre_formed = s.pre_formed;
              start_formed =
                  push-IsWellFormed empty_buffer p.payload d v.start_window_ms nil_formed;
              tail_formed = s.tail_formed;
              held = (held.1, tt);
            })
            refl held.1))
        (record {
          sound = record {
            pre_formed = push-IsWellFormed w.pre_roll p.payload d w.pre_roll_ms pre_formed;
            start_formed = subst Buffer.IsWellFormed (sym k.3) s.start_formed;
            tail_formed = subst Buffer.IsWellFormed (sym k.4) s.tail_formed;
            held =
                subst (λ x. Held x pushed.frames w.start_buffer.frames w.tail_buffer.frames)
                  (sym (k.1 ∙ h)) (start, tail);
          };
          same = k.0;
          ordered =
              empty_ordered pushed.frames v.pre_roll.frames start tail held.0 held.1 p.payload (
                subst (λ (b : BufferedAudio). Sublist pushed.frames (b.frames ++ p.payload ∷ []))
                  k.2 (push_sublist w.pre_roll p.payload d w.pre_roll_ms pre_formed));
        })
    where
      held : Held idle v.pre_roll.frames v.start_buffer.frames v.tail_buffer.frames
      held = Held-at v idle h s

      u : Vad fl
      u = record v {
        state = candidate_start;
        start_buffer = Buffer.push empty_buffer p.payload d v.start_window_ms;
        start_activity = Window.push empty_window true d v.start_window_ms;
      }

      w : Vad fl
      w = observe_noise fl v rms

      k : Keeps v w
      k = noise-Keeps v rms

      pushed : BufferedAudio
      pushed = Buffer.push w.pre_roll p.payload d w.pre_roll_ms

      pre_formed : Buffer.IsWellFormed w.pre_roll
      pre_formed = subst Buffer.IsWellFormed (sym k.2) s.pre_formed

      start : w.start_buffer.frames ≡ []
      start = ap (λ (b : BufferedAudio). b.frames) k.3 ∙ held.0

      tail : w.tail_buffer.frames ≡ []
      tail = ap (λ (b : BufferedAudio). b.frames) k.4 ∙ held.1

  pub candidate_start_lem :
      (v : Vad fl) (o : Outside fl) (p : Packet) (d : ℕ) (rms : fl.Float64)
      → IsSound fl v
      → v.state ≡ candidate_start
      → Orders v p.payload (dispatch fl candidate_start v o p d rms)
  unfolding dispatch process_candidate_start
  candidate_start_lem v o p d rms s h =
      after v u p.payload _ k.0
        (subst (λ (xs : Frames). Sublist (pending fl u) (xs ++ p.payload ∷ []))
          (pending-Keeps v w k)
          (place_ordered w.pre_roll.frames w.start_buffer.frames _ w.tail_buffer.frames p.payload
            tail (push_sublist w.start_buffer p.payload d w.start_window_ms start_formed)))
        (confirm_start_lem fl u o p.track_id
          (record {
            pre_formed = subst Buffer.IsWellFormed (sym k.2) s.pre_formed;
            start_formed =
                push-IsWellFormed w.start_buffer p.payload d w.start_window_ms start_formed;
            tail_formed = subst Buffer.IsWellFormed (sym k.4) s.tail_formed;
            held = to_held u candidate_start (k.1 ∙ h) (tail, tt);
          })
          (k.1 ∙ h) tail)
    where
      w : Vad fl
      w = observe_unless fl (enter_hit fl v rms) v rms

      k : Keeps v w
      k = unless-Keeps (enter_hit fl v rms) v rms

      u : Vad fl
      u = record w {
        start_buffer = Buffer.push w.start_buffer p.payload d w.start_window_ms;
        start_activity = Window.push w.start_activity (enter_hit fl v rms) d w.start_window_ms;
      }

      start_formed : Buffer.IsWellFormed w.start_buffer
      start_formed = subst Buffer.IsWellFormed (sym k.3) s.start_formed

      tail : w.tail_buffer.frames ≡ []
      tail = ap (λ (b : BufferedAudio). b.frames) k.4 ∙ (Held-at v candidate_start h s).0
