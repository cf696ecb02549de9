-- ===== src/Media/Vad/Conservation.antt =====
-- No audio is made up, doubled or reordered, and none is lost within a segment.
use mathlib.Core.List.{Sublist, sublist-append_left}
use mathlib.Core.List.Sublist
use gopbx.Prelude.{
  ℕ, ◌+◌, ◌≡◌, refl, sym, ◌∙◌, subst, ap, true, List, [], ◌∷◌, ◌++◌, map, append-nil, append_assoc,
  arith, Text, if_intro, if◌then◌else◌, leb, ◌==◌,
}
use gopbx.Media.Buffer
use gopbx.Media.Buffer.{BufferedAudio, empty_buffer, audio_packet, prefix_from, prefix_packets}
use gopbx.Media.BufferLaws.{append_lem}
use gopbx.Media.Floats.{Floats}
use gopbx.Media.Packet.{Packet, Result}
use gopbx.Media.Vad.State.{
  VadState, idle, candidate_start, talking, candidate_end, Vad, Outside, reset_to_idle,
}
use gopbx.Media.Vad.Segment.{
  maybe_force_segment_end, maybe_confirm_start, confirm_start, reject_start, resume, confirm_end,
  segment_end_packet,
}
use gopbx.Media.Vad.Process.{is_audio}
use gopbx.Media.Vad.Cases.{confirm_start_cases, force_cases, confirm_end_cases}
use gopbx.Media.Vad.Events.{in_segment}

abbrev pub Frames : Type 0
Frames = List (List ℕ)

-- The audio that packets carry, in order.
abbrev pub audio_of : List Packet → Frames
audio_of [] = []
audio_of (p ∷ ps) = if is_audio p.kind then p.payload ∷ audio_of ps else audio_of ps

pub audio_of-append : (xs ys : List Packet) → audio_of (xs ++ ys) ≡ audio_of xs ++ audio_of ys
audio_of-append [] ys = refl
audio_of-append (x ∷ xs) ys = ground (arith, audio_of-append xs ys)

audio_of-map : (track : Text) (fs : Frames) → audio_of (map (audio_packet track) fs) ≡ fs
audio_of-map track [] = refl
audio_of-map track (f ∷ fs) = ap (◌∷◌ f) (audio_of-map track fs)

pub audio_of-packets :
    (b : BufferedAudio) (track : Text) → audio_of (Buffer.packets b track) ≡ b.frames
unfolding Buffer.packets
audio_of-packets b track = audio_of-map track b.frames

nil-sublist : (xs : Frames) → Sublist [] xs
nil-sublist xs = sublist-append_left [] xs

prefix_from_sublist :
    (m u : ℕ) (track : Text) (fs : Frames) (ls : List ℕ)
    → Sublist (audio_of (prefix_from m u track fs ls)) fs
unfolding prefix_from
prefix_from_sublist m u track [] ls = Sublist.refl []
prefix_from_sublist m u track (f ∷ fs) [] = Sublist.cons-cons f (nil-sublist fs)
prefix_from_sublist m u track (f ∷ fs) (l ∷ ls) = Sublist.cons-cons f (
    if_intro (λ ps. Sublist (audio_of ps) fs) (leb m (u + l)) (λ _. nil-sublist fs)
      (λ _. prefix_from_sublist m (u + l) track fs ls))

prefix_packets_sublist :
    (b : BufferedAudio) (track : Text) (m : ℕ)
    → Sublist (audio_of (prefix_packets b track m)) b.frames
unfolding prefix_packets
prefix_packets_sublist b track m =
    if_intro (λ ps. Sublist (audio_of ps) b.frames) (m == 0) (λ _. nil-sublist b.frames)
      (λ _. prefix_from_sublist m 0 track b.frames b.lengths)

audio_of-cut :
    (ps : List Packet) (track : Text)
    → audio_of (ps ++ segment_end_packet track ∷ []) ++ [] ≡ audio_of ps
audio_of-cut ps track = append-nil _ ∙ audio_of-append ps _ ∙ append-nil _

-- What packets carry stays a part of `before` when the rest is thrown away.
cut_ordered :
    (ps : List Packet) (track : Text) (before rest : Frames)
    → audio_of ps ++ rest ≡ before
    → Sublist (audio_of (ps ++ segment_end_packet track ∷ []) ++ []) before
cut_ordered ps track before rest e =
    subst (λ xs. Sublist xs before) (sym (audio_of-cut ps track))
      (subst (Sublist (audio_of ps)) e (sublist-append_left (audio_of ps) rest))

pub nil_formed : Buffer.IsWellFormed empty_buffer
nil_formed = record { paired = refl; counted = refl }

-- Which buffers hold frames in which state.
abbrev pub Held : VadState → Frames → Frames → Frames → Type 0
Held idle pre start tail = (start ≡ []) × (tail ≡ [])
Held candidate_start pre start tail = (tail ≡ []) × Unit {0}
Held talking pre start tail = (pre ≡ []) × (start ≡ []) × (tail ≡ [])
Held candidate_end pre start tail = (pre ≡ []) × (start ≡ [])

module _ (fl : Floats) where
  pub record IsSound (v : Vad fl) : Type 0 where
    pub pre_formed : Buffer.IsWellFormed v.pre_roll
    pub start_formed : Buffer.IsWellFormed v.start_buffer
    pub tail_formed : Buffer.IsWellFormed v.tail_buffer
    pub held : Held v.state v.pre_roll.frames v.start_buffer.frames v.tail_buffer.frames

  -- The audio that the detector holds back, oldest first.
  abbrev pub pending : Vad fl → Frames
  pending v = v.pre_roll.frames ++ (v.start_buffer.frames ++ v.tail_buffer.frames)

  pub record Conserves (v : Vad fl) (before : Frames) (out : Vad fl × Result) : Type 0 where
    pub sound : IsSound out.0
    pub same : out.0.config ≡ v.config
    pub ordered : Sublist (audio_of out.1.packets ++ pending out.0) before
    pub lossless : in_segment out.0.state ≡ true → audio_of out.1.packets ++ pending out.0 ≡ before

  nil-IsSound : (v : Vad fl) → IsSound (reset_to_idle fl v)
  unfolding reset_to_idle
  nil-IsSound v = record {
    pre_formed = nil_formed;
    start_formed = nil_formed;
    tail_formed = nil_formed;
    held = (refl, refl);
  }

  pub exactly :
      (v : Vad fl) (before : Frames) (out : Vad fl × Result)
      → IsSound out.0
      → out.0.config ≡ v.config
      → audio_of out.1.packets ++ pending out.0 ≡ before
      → Conserves v before out
  exactly v before out s c e = record {
    sound = s;
    same = c;
    ordered = subst (Sublist (audio_of out.1.packets ++ pending out.0)) e (Sublist.refl _);
    lossless = λ _. e;
  }

  pub confirm_start_lem :
      (v : Vad fl) (o : Outside fl) (track : Text)
      → IsSound v
      → v.state ≡ candidate_start
      → v.tail_buffer.frames ≡ []
      → Conserves v (pending v) (maybe_confirm_start fl v o track)
  unfolding confirm_start reject_start
  confirm_start_lem v o track s h t =
      confirm_start_cases fl (Conserves v (pending v)) v o track
        (exactly v (pending v) _ s refl refl)
        (record {
          sound = record {
            pre_formed = moved.0;
            start_formed = nil_formed;
            tail_formed = s.tail_formed;
            held = (refl, t);
          };
          same = refl;
          ordered =
              subst (Sublist _)
                (append_assoc v.pre_roll.frames v.start_buffer.frames v.tail_buffer.frames)
                (Sublist.append moved.1 (Sublist.refl v.tail_buffer.frames));
          lossless = λ e. cc;
        })
        (λ _.
          exactly v (pending v) _
            (record {
              pre_formed = nil_formed;
              start_formed = nil_formed;
              tail_formed = s.tail_formed;
              held = (refl, refl, t);
            })
            refl
            (rw (audio_of-append, audio_of-packets v.pre_roll, audio_of-packets v.start_buffer)
              (append_assoc v.pre_roll.frames _ _)))
    where
      moved :
          Buffer.IsWellFormed (Buffer.append v.pre_roll v.start_buffer v.pre_roll_ms)
          × Sublist
              (Buffer.append v.pre_roll v.start_buffer v.pre_roll_ms).frames
              (v.pre_roll.frames ++ v.start_buffer.frames)
      moved = append_lem v.pre_roll v.start_buffer v.pre_roll_ms s.pre_formed

  pub force_lem :
      (v u : Vad fl) (o : Outside fl) (track : Text) (ps : List Packet) (before : Frames)
      → IsSound u
      → u.config ≡ v.config
      → audio_of ps ++ pending u ≡ before
      → Conserves v before
          (maybe_force_segment_end fl u o.now track (record { packets = ps; events = [] }))
  unfolding reset_to_idle
  force_lem v u o track ps before s c e =
      force_cases fl (Conserves v before) u o track _ (exactly v before _ s c e) (record {
        sound = nil-IsSound u;
        same = c;
        ordered = cut_ordered ps track before (pending u) e;
        lossless = λ e. cc;
      })

  pub confirm_end_lem :
      (v u : Vad fl) (o : Outside fl) (track : Text) (before : Frames)
      → IsSound u
      → u.config ≡ v.config
      → u.state ≡ candidate_end
      → u.pre_roll.frames ≡ []
      → u.start_buffer.frames ≡ []
      → u.tail_buffer.frames ≡ before
      → Conserves v before (confirm_end fl u o track)
  unfolding reset_to_idle resume
  confirm_end_lem v u o track before s c h p q e =
      confirm_end_cases fl (Conserves v before) u o track
        (record {
          sound = nil-IsSound u;
          same = c;
          ordered =
              subst (λ xs. Sublist xs before)
                (sym (audio_of-cut (prefix_packets u.tail_buffer track u.tail_padding_ms) track))
                (subst (Sublist _) e
                  (prefix_packets_sublist u.tail_buffer track u.tail_padding_ms));
          lossless = λ e. cc;
        })
        (exactly v before _
          (record {
            pre_formed = s.pre_formed;
            start_formed = s.start_formed;
            tail_formed = nil_formed;
            held = (p, q, refl);
          })
          c (rw (audio_of-packets, p, q) (append-nil _ ∙ e)))
