-- ===== src/Media/PlaybackLaws.antt =====
-- track/webrtc_track.go, `PlayTTS`: what a playback sends.
use gopbx.Prelude.{
  ◌≢◌, ℕ, ◌+◌, ◌*◌, ◌/◌, ◌≡◌, refl, sym, ap, ap₂, ◌∙◌, ltb, ◌==◌, pos, negsuc, inl, inr, true,
  false, List, [], ◌∷◌, ◌++◌, Option, none, some, Text, is_empty, if◌then◌else◌, length, ◌||◌,
  arith, append-nil, append_assoc, map, Bool-cases,
}
use gopbx.Protocol.Command.{SynthesisOption}
use gopbx.Provider.Tts.{Stream}
use gopbx.Codec.Names.{CodecType, pcmu, pcma, encode, sample_rate}
use gopbx.Codec.Pcm.{pcm_bytes_to_samples}
use gopbx.Codec.PcmLaws.{length-pcm_bytes_to_samples}
use gopbx.Codec.MuLaw.{mu_encode, linear_to_mu_law}
use gopbx.Codec.ALaw.{a_encode, linear_to_a_law}
use gopbx.Media.WebRtc.{WebRtcTrack, Playback, play_from, play_tts, sample_duration, sample_rate_of}
use gopbx.Media.WebRtcLaws.{length-map, length-is_empty}

-- What a playback has sent.
abbrev pub sent_bytes : List (List ℕ × ℕ) → ℕ
sent_bytes [] = 0
sent_bytes ((sample, duration) ∷ rest) = length sample + sent_bytes rest

-- The bytes of the samples of a chunk.
abbrev pub encoded_samples : CodecType → List ℕ → List ℕ
encoded_samples pcmu chunk = map linear_to_mu_law (pcm_bytes_to_samples chunk)
encoded_samples pcma chunk = map linear_to_a_law (pcm_bytes_to_samples chunk)

-- The sample rate that the option asks for, or else 8000.
abbrev pub rate_for : Option SynthesisOption → ℕ
rate_for none = 8000
rate_for (some o) = elim o.samplerate [
  | none ↦ 8000
  | some rate ↦ elim rate [ pos n ↦ if n == 0 then 8000 else n | negsuc n ↦ 8000 ]
]

-- What is to be sent of the chunks: of each that has a whole sample, its samples, one byte for each, with the
-- nanoseconds that they take.
abbrev pub samples_of : CodecType → Option SynthesisOption → List (List ℕ) → List (List ℕ × ℕ)
samples_of kind option [] = []
samples_of kind option (chunk ∷ chunks) =
    let rest = samples_of kind option chunks in
    if ltb (length chunk) 2
    then rest
    else (encoded_samples kind chunk, 1000000000 * (length chunk / 2) / rate_for option) ∷ rest

encode-samples :
    (kind : CodecType) (chunk : List ℕ) → encode kind chunk ≡ encoded_samples kind chunk
unfolding encode mu_encode a_encode
encode-samples pcmu chunk = refl
encode-samples pcma chunk = refl

length-encode : (kind : CodecType) (chunk : List ℕ) → length (encode kind chunk) ≡ length chunk / 2
unfolding encode mu_encode a_encode
length-encode pcmu chunk = length-map linear_to_mu_law _ ∙ length-pcm_bytes_to_samples chunk
length-encode pcma chunk = length-map linear_to_a_law _ ∙ length-pcm_bytes_to_samples chunk

rate_for-sample_rate :
    (kind : CodecType) (option : Option SynthesisOption)
    → sample_rate_of kind option ≡ rate_for option
unfolding sample_rate
rate_for-sample_rate pcmu none = refl
rate_for-sample_rate pcma none = refl
rate_for-sample_rate pcmu (some o) = ground arith
rate_for-sample_rate pcma (some o) = ground arith

-- A chunk is skipped exactly where it has no whole sample.
skips :
    (kind : CodecType) (chunk : List ℕ)
    → (is_empty chunk || is_empty (encode kind chunk)) ≡ ltb (length chunk) 2
skips kind chunk =
    let l = length-is_empty (encode kind chunk) in
    let c = length-is_empty chunk in ground (arith, length-encode kind chunk, l, c)

sent_as :
    (kind : CodecType) (option : Option SynthesisOption) (size : ℕ)
    → (size == 0) ≡ false
    → sample_duration kind size option ≡ 1000000000 * size / rate_for option
unfolding sample_duration
sent_as kind option size h =
    rw h (ap (λ r. 1000000000 * size / r) (rate_for-sample_rate kind option))

-- The same by the conditions of the loop.
abbrev sent_of : CodecType → Option SynthesisOption → List (List ℕ) → List (List ℕ × ℕ)
sent_of kind option [] = []
sent_of kind option (chunk ∷ chunks) =
    let encoded = encode kind chunk in
    let rest = sent_of kind option chunks in
    if is_empty chunk || is_empty encoded
    then rest
    else (encoded, sample_duration kind (length encoded) option) ∷ rest

not_zero : (n : ℕ) → ltb n 2 ≡ false → (n / 2 == 0) ≡ false
not_zero n h = ground arith

sent_of-samples :
    (kind : CodecType) (option : Option SynthesisOption) (chunks : List (List ℕ))
    → sent_of kind option chunks ≡ samples_of kind option chunks
sent_of-samples kind option [] = refl
sent_of-samples kind option (chunk ∷ chunks) =
    let ih = sent_of-samples kind option chunks in
    elim (Bool-cases (ltb (length chunk) 2)) [
      | inl short ↦ rw (skips kind chunk ∙ short, short) ih
      | inr long ↦
          let size = length-encode kind chunk in
          let time =
            ap (λ n. sample_duration kind n option) size
            ∙ sent_as kind option (length chunk / 2) (not_zero (length chunk) long) in
          rw (skips kind chunk ∙ long, long)
            (ap₂ (λ x xs. x ∷ xs) (ap₂ (λ x d. (x, d)) (encode-samples kind chunk) time) ih)
    ]

play_from-samples :
    (kind : CodecType) (option : Option SynthesisOption) (recv_error : Option Text)
    (chunks : List (List ℕ)) (p : Playback)
    → let q = play_from kind option recv_error chunks none p in
      (q.samples ≡ p.samples ++ sent_of kind option chunks)
      × (q.err ≡ recv_error)
      × (q.audio_bytes ≡ p.audio_bytes + sent_bytes (sent_of kind option chunks))
      × (q.chunk_count ≡ p.chunk_count + length (sent_of kind option chunks))
unfolding play_from
play_from-samples kind option recv_error [] p =
    (sym (append-nil p.samples), refl, omega arith, omega arith)
play_from-samples kind option recv_error (chunk ∷ chunks) p =
    elim (Bool-cases (is_empty chunk || is_empty (encode kind chunk))) [
      | inl skip ↦ rw skip (play_from-samples kind option recv_error chunks p)
      | inr sent ↦
          let encoded = encode kind chunk in
          let sample : List ℕ × ℕ = (encoded, sample_duration kind (length encoded) option) in
          let next : Playback = record p {
            audio_bytes = p.audio_bytes + length encoded;
            chunk_count = p.chunk_count + 1;
            samples = p.samples ++ sample ∷ [];
          } in
          let later = play_from-samples kind option recv_error chunks next in
          rw sent (
            later.0 ∙ append_assoc p.samples (sample ∷ []) (sent_of kind option chunks),
            later.1,
            omega (arith, later.2),
            omega (arith, later.3),
          )
    ]

error_first :
    (err close_error recv_error : Option Text)
    → err ≡ recv_error
    → recv_error ≢ none
    → (elim err [ none ↦ close_error | some e ↦ some e ]) ≡ recv_error
error_first none close_error recv_error e n = absurd (n (sym e))
error_first (some x) close_error recv_error e n = e

abbrev silence : Playback
silence = record {
  audio_bytes = 0;
  chunk_count = 0;
  err = none;
  samples = [];
  stream_closed = false;
}

-- With an outbound track and no write that fails, what is sent is, of each chunk that has a whole sample, its
-- samples in the codec of the track, with the time that they take at the rate that is asked for, or else at 8000
-- a second, in order; the counts are those of the bytes and the samples sent, an error of the stream is
-- returned, and the stream is closed. Without an outbound track nothing is sent, there is an error, and the
-- stream is left open.
pub play_tts-samples :
    (t : WebRtcTrack) (option : Option SynthesisOption) (stream : Stream)
    → let q = play_tts t option stream none in
      (t.outbound ≡ true
        → (q.samples ≡ samples_of t.codec option stream.chunks)
          × (q.audio_bytes ≡ sent_bytes q.samples)
          × (q.chunk_count ≡ length q.samples)
          × (stream.recv_error ≢ none → q.err ≡ stream.recv_error)
          × (q.stream_closed ≡ true))
      × (t.outbound ≡ false → (q.samples ≡ []) × (q.err ≢ none) × (q.stream_closed ≡ false))
unfolding play_tts
play_tts-samples t option stream =
    let played = play_from-samples t.codec option stream.recv_error stream.chunks silence in
    let same = sent_of-samples t.codec option stream.chunks in
    (
      (λ o. rw o (
        played.0 ∙ same,
        omega (arith, played.2, ap sent_bytes played.0),
        omega (arith, played.3, ap (length {0}) played.0),
        error_first _ _ _ played.1,
        refl,
      )),
      (λ o. rw o (refl, (λ e. cc), refl)),
    )
