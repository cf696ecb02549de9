-- ===== src/Media/WebRtc.antt =====
-- track/webrtc_track.go: what the WebRTC track does around its peer connection. The connection itself
-- (pion/webrtc) is a parameter: whether it accepts a candidate, and what its reads and writes return.
use gopbx.Protocol.Event.{EventEnvelope}
use gopbx.Protocol.Writer.{WriteFault, write_events}
use gopbx.Media.Chain.{Stream, stream_push}
use gopbx.Prelude.{
  ℕ, zero, suc, ◌+◌, ◌*◌, ◌/◌, pos, Bool, true, false, List, [], ◌∷◌, ◌++◌, Option, none, some,
  Text, codes, is_empty, trim_space, if◌then◌else◌, length, ◌==◌, ◌||◌, Fallible, ok, failure,
}
use gopbx.Protocol.Command.{SynthesisOption}
use gopbx.Provider.Tts
use gopbx.Codec.Names.{CodecType, parse, from_webrtc_mime, sample_rate, encode, decode}
use gopbx.Codec.Resample.{resample_pcm16le}

-- `peer` and `outbound` are whether these are set.
pub record WebRtcTrack : Type 0 where
  pub id : Text
  pub offer : Text
  pub codec : CodecType
  pub peer : Bool
  pub outbound : Bool
  pub answer : Text
  pub candidates : List Text

unfoldable pub new_webrtc_track : Text → Text → Text → WebRtcTrack
unfolding parse
new_webrtc_track id offer codec_name = record {
  id = id;
  offer = offer;
  codec = parse codec_name;
  peer = false;
  outbound = false;
  answer = [];
  candidates = [];
}

-- `BuildAnswer`; `negotiate` is what the peer connection makes of the offer, from its creation to the
-- local description.
unfoldable pub build_answer : (Text → Fallible Text) → WebRtcTrack → WebRtcTrack × Fallible Text
build_answer negotiate t =
    if is_empty (trim_space t.offer)
    then (t, failure (codes "webrtc offer is empty"))
    else if is_empty t.answer
    then elim (negotiate t.offer) [
      | failure e ↦ (t, failure e)
      | ok sdp ↦ (record t { peer = true; outbound = true; answer = sdp }, ok sdp)
    ]
    else (t, ok t.answer)

-- `webrtc.ICECandidateInit` as far as it is set: the candidate, and a media line.
pub record CandidateInit : Type 0 where
  pub candidate : Text
  pub mid : Option Text
  pub line : Option ℕ

-- Whether the text starts with `{`.
abbrev is_json : Text → Bool
is_json [] = false
is_json (c ∷ s) = c == 123

-- `parseCandidate`; `unmarshal` is JSON decoding.
unfoldable pub parse_candidate : (Text → Fallible CandidateInit) → Text → Fallible CandidateInit
parse_candidate unmarshal raw =
    let trimmed = trim_space raw in
    if is_empty trimmed
    then failure (codes "candidate is empty")
    else if is_json trimmed
    then unmarshal trimmed
    else ok (record { candidate = trimmed; mid = some (codes "0"); line = some 0 })

-- One candidate: `parseCandidate` and `AddICECandidate`, with the error.
unfoldable pub add_one :
    (Text → Fallible CandidateInit) → (CandidateInit → Option Text) → Text → Option Text
unfolding parse_candidate
add_one unmarshal accept raw = elim (parse_candidate unmarshal raw) [
  | failure e ↦ some e
  | ok c ↦ accept c
]

-- The loop of `AddCandidates` from the candidates so far, where `add` is what one candidate comes to.
unfoldable pub add_from : (Text → Option Text) → List Text → List Text → List Text × Option Text
add_from add known [] = (known, none)
add_from add known (raw ∷ rest) = elim (add raw) [
  | some e ↦ (known, some e)
  | none ↦ add_from add (known ++ raw ∷ []) rest
]

unfoldable pub add_candidates :
    (Text → Option Text) → WebRtcTrack → List Text → WebRtcTrack × Option Text
unfolding add_from
add_candidates add t raws =
    let (known, err) = add_from add t.candidates raws in
    if t.peer
    then (record t { candidates = known }, err)
    else (t, some (codes "webrtc peer connection is not ready"))

-- `Close`, with whether the peer connection is closed.
unfoldable pub close_track : WebRtcTrack → WebRtcTrack × Bool
close_track t = (record t { peer = false; outbound = false }, t.peer)

abbrev pub sample_rate_of : CodecType → Option SynthesisOption → ℕ
sample_rate_of kind none = sample_rate kind
sample_rate_of kind (some o) = elim o.samplerate [
  | none ↦ sample_rate kind
  | some (pos (suc n)) ↦ suc n
  | some other ↦ sample_rate kind
]

-- `sampleDuration`, in nanoseconds: one byte is one sample of both codecs.
unfoldable pub sample_duration : CodecType → ℕ → Option SynthesisOption → ℕ
unfolding sample_rate
sample_duration kind size option =
    if size == 0 then 20000000 else 1000000000 * size / sample_rate_of kind option

-- What `PlayTTS` came to: its results, the samples written with their durations, and whether it closed
-- the stream.
pub record Playback : Type 0 where
  pub audio_bytes : ℕ
  pub chunk_count : ℕ
  pub err : Option Text
  pub samples : List (List ℕ × ℕ)
  pub stream_closed : Bool

-- The loop of `PlayTTS` over what the stream gives, with the counts and the samples so far. `fault` is
-- the write that fails, if one does, with its error.
unfoldable pub play_from :
    CodecType
    → Option SynthesisOption
    → Option Text
    → List (List ℕ)
    → Option (ℕ × Text)
    → Playback
    → Playback
unfolding sample_duration encode
play_from kind option recv_error [] fault p = record p { err = recv_error }
play_from kind option recv_error (chunk ∷ chunks) fault p =
    let encoded = encode kind chunk in
    let counted = record p {
      audio_bytes = p.audio_bytes + length encoded;
      chunk_count = p.chunk_count + 1;
    } in
    let sent = record counted {
      samples = p.samples ++ (encoded, sample_duration kind (length encoded) option) ∷ [];
    } in
    let skip = play_from kind option recv_error chunks fault p in
    let write : Playback = elim fault [
      | none ↦ play_from kind option recv_error chunks none sent
      | some (zero, e) ↦ record counted { err = some e }
      | some (suc n, e) ↦ play_from kind option recv_error chunks (some (n, e)) sent
    ] in
    if is_empty chunk || is_empty encoded then skip else write

-- `PlayTTS`
unfoldable pub play_tts :
    WebRtcTrack → Option SynthesisOption → Tts.Stream → Option (ℕ × Text) → Playback
unfolding play_from
play_tts t option stream fault =
    let start : Playback = record {
      audio_bytes = 0;
      chunk_count = 0;
      err = none;
      samples = [];
      stream_closed = false;
    } in
    let played = play_from t.codec option stream.recv_error stream.chunks fault start in
    if t.outbound
    then record played {
      err = elim played.err [ none ↦ stream.close_error | some e ↦ some e ];
      stream_closed = true;
    }
    else record start { err = some (codes "webrtc outbound track is not ready") }

-- The part of `normalizeInboundPayload` after the codec is known.
unfoldable pub to_16k : CodecType → ℕ → List ℕ → List ℕ
unfolding decode sample_rate resample_pcm16le
to_16k kind clock_rate payload =
    let decoded = decode kind payload in
    let rate = if clock_rate == 0 then sample_rate kind else clock_rate in
    if is_empty decoded then [] else resample_pcm16le decoded rate 16000

-- `normalizeInboundPayload`, for a remote codec with a MIME type and a clock rate.
unfoldable pub normalize_inbound : Text → ℕ → List ℕ → Fallible (List ℕ)
unfolding from_webrtc_mime to_16k
normalize_inbound mime clock_rate payload = elim (from_webrtc_mime mime) [
  | none ↦ failure (codes "unsupported inbound webrtc codec: " ++ mime)
  | some kind ↦ ok (to_16k kind clock_rate payload)
]

-- What `ReadRTP` returns: a payload, with the write that fails among its events, if one does; or the end.
pub data Rtp : Type 0 where
  eof : Rtp
  rtp_error : Text → Rtp
  rtp : List ℕ → WriteFault → Rtp

-- The remote track ends, or goes on; an error is reported to `onError`.
pub data Consumed : Type 0 where
  reading ended : Consumed
  reported : Text → Consumed

module _ {S : Type 0} (stream : Stream S) (id mime : Text) (clock_rate : ℕ) where
  -- What is done with a payload that is not empty.
  unfoldable pub consume_payload :
      Fallible (List ℕ) → WriteFault → S → S × List EventEnvelope × Consumed
  unfolding stream_push write_events
  consume_payload (failure e) fault s = (s, [], reported e)
  consume_payload (ok []) fault s = (s, [], reading)
  consume_payload (ok (b ∷ pcm)) fault s =
      let (t, events) = stream_push stream id (b ∷ pcm) s in
      let (sent, err) = write_events events fault in
      (t, sent, elim err [ none ↦ reading | some e ↦ reported e ])

  -- One round of the loop of `consumeRemoteTrack`, with the events sent and whether it goes on.
  unfoldable pub consume_one : Rtp → S → S × List EventEnvelope × Consumed
  unfolding consume_payload normalize_inbound
  consume_one eof s = (s, [], ended)
  consume_one (rtp_error e) s = (s, [], reported e)
  consume_one (rtp [] fault) s = (s, [], reading)
  consume_one (rtp (b ∷ payload) fault) s =
      consume_payload (normalize_inbound mime clock_rate (b ∷ payload)) fault s

  -- `consumeRemoteTrack`
  unfoldable pub consume : List Rtp → S → S × List EventEnvelope × Consumed
  unfolding consume_one
  consume [] s = (s, [], reading)
  consume (r ∷ rs) s =
      let (t, sent, state) = consume_one r s in
      let (u, later, final) = consume rs t in
      elim state [ reading ↦ (u, sent ++ later, final) | other ↦ (t, sent, other) ]
