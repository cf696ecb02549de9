-- ===== src/Media/AsrSends.antt =====
-- processor/asr.go: what a recognizer writes to its provider.
use mathlib.Core.List.{Sublist, sublist-append_left}
use mathlib.Core.List.Sublist
use gopbx.Prelude.{
  ℕ, ℤ, ◌≡◌, refl, sym, ap, ◌∙◌, ◌⊎◌, inl, inr, false, not, ◌&&◌, List, [], ◌∷◌, ◌++◌, is_empty,
  if◌then◌else◌, if_intro, arith,
}
use gopbx.Media.Packet.{
  Packet, PacketKind, audio, segment_end, unset, Result, resolved_kind, normalize_packet_kind,
}
use gopbx.Media.Vad.Process.{is_audio}
use gopbx.Media.Vad.Conservation.{Frames, audio_of}
use gopbx.Media.Asr.{
  Asr, Answers, Action, opens, writes, closes, asr_process, process_speech, process_silence, stop,
  stop_active_session, ensure_session, is_silent_pcm16, is_segment_end,
}

-- The audio that is written to the provider.
abbrev pub sends : List Action → Frames
sends [] = []
sends (writes n payload ∷ actions) = payload ∷ sends actions
sends (_ ∷ actions) = sends actions

pub sends-append : (xs ys : List Action) → sends (xs ++ ys) ≡ sends xs ++ sends ys
sends-append [] ys = refl
sends-append (writes n payload ∷ xs) ys = ap (λ fs. payload ∷ fs) (sends-append xs ys)
sends-append (opens n ∷ xs) ys = sends-append xs ys
sends-append (closes n ∷ xs) ys = sends-append xs ys

nothing : (xs : Frames) → Sublist [] xs
nothing xs = sublist-append_left [] xs

stop-sends : (a : Asr) (answers : Answers) (now : ℤ) → sends (stop a answers now).2 ≡ []
unfolding stop stop_active_session
stop-sends a answers now = ground arith

process_silence-sends :
    (a : Asr) (answers : Answers) (now : ℤ) → sends (process_silence a answers now).2 ≡ []
unfolding process_silence stop stop_active_session
process_silence-sends a answers now = ground arith

process_speech-sends :
    (a : Asr) (payload : List ℕ) (answers : Answers) (now : ℤ)
    → (sends (process_speech a payload answers now).2 ≡ [])
      ⊎ (sends (process_speech a payload answers now).2 ≡ payload ∷ [])
unfolding process_speech ensure_session
process_speech-sends a payload answers now = ground arith

either-Sublist :
    (payload : List ℕ) (sent : Frames) (k : PacketKind)
    → is_segment_end k ≡ false
    → normalize_packet_kind k ≡ k
    → (sent ≡ []) ⊎ (sent ≡ payload ∷ [])
    → Sublist sent (if is_audio k then payload ∷ [] else [])
unfolding normalize_packet_kind
either-Sublist payload sent k s e (inl h) = rw h (nothing _)
either-Sublist payload sent audio s e (inr h) = rw h (Sublist.refl (payload ∷ []))
either-Sublist payload sent unset s e (inr h) = cc
either-Sublist payload sent segment_end s e (inr h) = cc

abbrev pub Within : Packet → Asr × Result × List Action → Type 0
Within p r = Sublist (sends r.2) (audio_of (p ∷ []))

pub asr_process-sends :
    (a : Asr) (p : Packet) (answers : Answers) (now : ℤ)
    → resolved_kind p ≡ p.kind
    → Within p (asr_process a p answers now)
unfolding asr_process resolved_kind
asr_process-sends a p answers now e =
    if_intro (Within p) (is_segment_end (resolved_kind p))
      (λ _. rw (stop-sends a answers now) (nothing (audio_of (p ∷ []))))
      (λ s.
        if_intro (Within p) (is_empty p.payload) (λ _. nothing (audio_of (p ∷ [])))
          (λ _.
            if_intro (Within p) (not a.segmented && is_silent_pcm16 p.payload)
              (λ _. rw (process_silence-sends a answers now) (nothing (audio_of (p ∷ []))))
              (λ _.
                either-Sublist p.payload (sends (process_speech a p.payload answers now).2) p.kind
                  (ap is_segment_end (sym e) ∙ s) e
                  (process_speech-sends a p.payload answers now))))
