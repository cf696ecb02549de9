-- ===== src/Media/Vad/Definite.antt =====
-- processor/vad.go: every packet that the detector passes on has a definite kind.
use gopbx.Prelude.{ℕ, ◌≡◌, refl, List, [], ◌∷◌, ◌++◌, map, Text, if_intro, All, ◌==◌, ◌+◌, leb}
use gopbx.Media.Floats.{Floats}
use gopbx.Media.Packet.{
  Packet, PacketKind, audio, segment_end, unset, Result, resolved_kind, normalize_packet_kind,
  passthrough,
}
use gopbx.Media.Buffer
use gopbx.Media.Buffer.{BufferedAudio, prefix_packets, prefix_from, audio_packet}
use gopbx.Media.Vad.State.{Vad, Outside, VadState, idle, candidate_start, talking, candidate_end}
use gopbx.Media.Vad.Segment.{
  maybe_force_segment_end, maybe_confirm_start, confirm_start, confirm_end, segment_end_packet,
}
use gopbx.Media.Vad.Process.{process, dispatch, process_candidate_start}
use gopbx.Media.Vad.Cases.{
  process_cases, confirm_start_cases, force_cases, idle_cases, speaking_cases, candidate_end_cases,
  confirm_end_cases,
}
use gopbx.Media.Vad.Conservation.{Frames}

-- The kind of a packet is definite.
abbrev pub Definite : List Packet → Type 0
Definite ps = All (λ p. resolved_kind p ≡ p.kind) ps

pub Definite-append : (ps qs : List Packet) → Definite ps → Definite qs → Definite (ps ++ qs)
Definite-append [] qs h k = k
Definite-append (p ∷ ps) qs (e, h) k = (e, Definite-append ps qs h k)

map-Definite : (track : Text) (fs : Frames) → Definite (map (audio_packet track) fs)
unfolding resolved_kind
map-Definite track [] = tt
map-Definite track (f ∷ fs) = (refl, map-Definite track fs)

packets-Definite : (b : BufferedAudio) (track : Text) → Definite (Buffer.packets b track)
unfolding Buffer.packets
packets-Definite b track = map-Definite track b.frames

prefix_from-Definite :
    (m u : ℕ) (track : Text) (fs : Frames) (ls : List ℕ) → Definite (prefix_from m u track fs ls)
unfolding prefix_from resolved_kind
prefix_from-Definite m u track [] ls = tt
prefix_from-Definite m u track (f ∷ fs) [] = (refl, tt)
prefix_from-Definite m u track (f ∷ fs) (l ∷ ls) = (
  refl,
  if_intro Definite (leb m (u + l)) (λ _. tt) (λ _. prefix_from-Definite m (u + l) track fs ls),
)

prefix_packets-Definite :
    (b : BufferedAudio) (track : Text) (m : ℕ) → Definite (prefix_packets b track m)
unfolding prefix_packets
prefix_packets-Definite b track m =
    if_intro Definite (m == 0) (λ _. tt) (λ _. prefix_from-Definite m 0 track b.frames b.lengths)

end-Definite : (track : Text) → Definite (segment_end_packet track ∷ [])
unfolding resolved_kind
end-Definite track = (refl, tt)

twice : (k : PacketKind) → normalize_packet_kind (normalize_packet_kind k) ≡ normalize_packet_kind k
unfolding normalize_packet_kind
twice unset = refl
twice audio = refl
twice segment_end = refl

module _ (fl : Floats) where
  abbrev DefiniteResult : Vad fl × Result → Type 0
  DefiniteResult r = Definite r.1.packets

  forced-Definite :
      (v : Vad fl) (o : Outside fl) (track : Text) (r : Result)
      → Definite r.packets
      → DefiniteResult (maybe_force_segment_end fl v o.now track r)
  forced-Definite v o track r h =
      force_cases fl DefiniteResult v o track r h
        (Definite-append r.packets (segment_end_packet track ∷ []) h (end-Definite track))

  confirm-Definite :
      (v : Vad fl) (o : Outside fl) (track : Text)
      → DefiniteResult (maybe_confirm_start fl v o track)
  unfolding confirm_start
  confirm-Definite v o track = confirm_start_cases fl DefiniteResult v o track tt tt (λ _.
      Definite-append (Buffer.packets v.pre_roll track) (Buffer.packets v.start_buffer track)
        (packets-Definite v.pre_roll track) (packets-Definite v.start_buffer track))

  ended-Definite :
      (v : Vad fl) (o : Outside fl) (track : Text) → DefiniteResult (confirm_end fl v o track)
  ended-Definite v o track =
      confirm_end_cases fl DefiniteResult v o track
        (Definite-append (prefix_packets v.tail_buffer track v.tail_padding_ms)
          (segment_end_packet track ∷ [])
          (prefix_packets-Definite v.tail_buffer track v.tail_padding_ms) (end-Definite track))
        (packets-Definite v.tail_buffer track)

  dispatch-Definite :
      (st : VadState) (v : Vad fl) (o : Outside fl) (p : Packet) (d : ℕ) (rms : fl.Float64)
      → resolved_kind p ≡ p.kind
      → DefiniteResult (dispatch fl st v o p d rms)
  unfolding dispatch process_candidate_start passthrough
  dispatch-Definite idle v o p d rms e =
      idle_cases fl DefiniteResult v o p d rms (confirm-Definite _ o p.track_id) tt
  dispatch-Definite candidate_start v o p d rms e = confirm-Definite _ o p.track_id
  dispatch-Definite talking v o p d rms e =
      speaking_cases fl DefiniteResult v o p d rms tt
        (forced-Definite _ o p.track_id (passthrough p) (e, tt))
  dispatch-Definite candidate_end v o p d rms e =
      candidate_end_cases fl DefiniteResult v o p d rms
        (forced-Definite _ o p.track_id _ (packets-Definite _ p.track_id)) tt
        (ended-Definite _ o p.track_id)

  pub process-Definite :
      (v : Vad fl) (o : Outside fl) (p : Packet) → DefiniteResult (process fl v o p)
  unfolding resolved_kind passthrough
  process-Definite v o p =
      let e : resolved_kind (record p { kind = resolved_kind p }) ≡ resolved_kind p =
        twice p.kind in
      process_cases fl DefiniteResult v o p (λ _. (e, tt)) (λ _ _. tt)
        (λ _ _ _ _. dispatch-Definite v.state v o _ _ _ e)
