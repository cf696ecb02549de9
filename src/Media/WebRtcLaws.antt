-- ===== src/Media/WebRtcLaws.antt =====
-- track/webrtc_track.go: what holds of candidates and of incoming audio.
use gopbx.Prelude.{
  ◌≢◌, ℕ, suc, ◌*◌, ◌/◌, ◌≡◌, refl, sym, ap, ◌∙◌, true, false, List, [], ◌∷◌, ◌++◌, Option, none,
  some, Text, is_empty, length, arith, append-nil, append_assoc, ◌<◌, ℤ, if_intro, map, ok,
}
use gopbx.Codec.Names.{CodecType, pcmu, pcma, decode, from_webrtc_mime}
use gopbx.Codec.Resample.{resample_pcm16le, resample_samples, resample_len}
use gopbx.Codec.ResampleLaws.{length-fill}
use gopbx.Codec.Pcm.{pcm_bytes_to_samples}
use gopbx.Codec.PcmLaws.{length-pcm_samples_to_bytes, length-pcm_bytes_to_samples}
use gopbx.Codec.MuLaw.{mu_decode, mu_law_to_linear}
use gopbx.Codec.ALaw.{a_decode, a_law_to_linear}
use gopbx.Media.WebRtc.{normalize_inbound, WebRtcTrack, add_from, add_candidates, to_16k}

-- The candidates before the first one that fails, and its error.
abbrev pub accepted : (Text → Option Text) → List Text → List Text
accepted add [] = []
accepted add (raw ∷ raws) = elim (add raw) [ none ↦ raw ∷ accepted add raws | some e ↦ [] ]

abbrev pub first_error : (Text → Option Text) → List Text → Option Text
first_error add [] = none
first_error add (raw ∷ raws) = elim (add raw) [ none ↦ first_error add raws | some e ↦ some e ]

add_from-accepted :
    (add : Text → Option Text) (known raws : List Text)
    → ((add_from add known raws).0 ≡ known ++ accepted add raws)
      × ((add_from add known raws).1 ≡ first_error add raws)
unfolding add_from
add_from-accepted add known [] = (sym (append-nil known), refl)
add_from-accepted add known (raw ∷ raws) = ground (
  arith,
  add_from-accepted add (known ++ raw ∷ []) raws,
  append_assoc known (raw ∷ []) (accepted add raws),
  append-nil known,
)

-- With a peer connection, the candidates that are kept are the known ones and the new ones before the first
-- that fails, whose error is returned; without one, nothing changes and there is an error.
add_candidates-accepted :
    (add : Text → Option Text) (t : WebRtcTrack) (raws : List Text)
    → (t.peer ≡ true
        → ((add_candidates add t raws).0.candidates ≡ t.candidates ++ accepted add raws)
          × ((add_candidates add t raws).1 ≡ first_error add raws))
      × (t.peer ≡ false
          → ((add_candidates add t raws).0 ≡ t) × ((add_candidates add t raws).1 ≢ none))
unfolding add_candidates
add_candidates-accepted add t raws =
    let kept = add_from-accepted add t.candidates raws in
    ((λ p. rw p kept), (λ p. rw p (refl, (λ e. cc))))

pub length-map : (f : ℤ → ℕ) (xs : List ℤ) → length (map f xs) ≡ length xs
length-map f [] = refl
length-map f (x ∷ xs) = ap suc (length-map f xs)

pub length-is_empty :
    (l : List ℕ) → (is_empty l ≡ true → length l ≡ 0) × (is_empty l ≡ false → 0 < length l)
length-is_empty [] = ((λ e. refl), (λ e. cc))
length-is_empty (x ∷ l) = ((λ e. cc), (λ e. omega arith))

length-map_samples : (f : ℕ → ℤ) (xs : List ℕ) → length (map f xs) ≡ length xs
length-map_samples f [] = refl
length-map_samples f (x ∷ xs) = ap suc (length-map_samples f xs)

length-decode :
    (kind : CodecType) (payload : List ℕ) → length (decode kind payload) ≡ 2 * length payload
unfolding decode mu_decode a_decode
length-decode pcmu payload =
    length-pcm_samples_to_bytes _ ∙ ap (λ n. 2 * n) (length-map_samples mu_law_to_linear payload)
length-decode pcma payload =
    length-pcm_samples_to_bytes _ ∙ ap (λ n. 2 * n) (length-map_samples a_law_to_linear payload)

doubled :
    (input : List ℤ)
    → 0 < length input
    → length (resample_samples input 8000 16000) ≡ 2 * length input
unfolding resample_samples resample_len
doubled input h = length-fill input 8000 16000 0 _ ∙ ground arith

upsampled :
    (pcm : List ℕ)
    → 1 < length pcm
    → length (resample_pcm16le pcm 8000 16000) ≡ 4 * (length pcm / 2)
unfolding resample_pcm16le
upsampled pcm h =
    let n = length-pcm_bytes_to_samples pcm in
    let d = doubled (pcm_bytes_to_samples pcm) (omega (arith, n)) in
    let out =
      length-pcm_samples_to_bytes (resample_samples (pcm_bytes_to_samples pcm) 8000 16000) in
    ground (arith, n, d, out)

length-to_16k :
    (kind : CodecType) (payload : List ℕ) → length (to_16k kind 8000 payload) ≡ 4 * length payload
unfolding to_16k
length-to_16k kind payload =
    let twice = length-decode kind payload in
    let sized = length-is_empty (decode kind payload) in
    if_intro (λ (l : List ℕ). length l ≡ 4 * length payload) (is_empty (decode kind payload))
      (λ e. omega (arith, twice, sized.0 e))
      (λ e. omega (
        arith,
        twice,
        sized.1 e,
        upsampled (decode kind payload) (omega (arith, twice, sized.1 e)),
      ))

-- A frame of `n` bytes of G.711 at 8 kHz becomes `4 * n` bytes of PCM at 16 kHz: as long a time.
normalize_inbound-length :
    (mime : Text) (kind : CodecType) (payload : List ℕ)
    → from_webrtc_mime mime ≡ some kind
    → (pcm : List ℕ) × (normalize_inbound mime 8000 payload ≡ ok pcm)
      × (length pcm ≡ 4 * length payload)
unfolding normalize_inbound
normalize_inbound-length mime kind payload e =
    (to_16k kind 8000 payload, rw (e, normalize_inbound), length-to_16k kind payload)
