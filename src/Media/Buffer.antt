-- ===== src/Media/Buffer.antt =====
-- processor/vad.go: `bufferedAudio`, the frames that the detector holds back.
-- Durations are `int` milliseconds. They are never negative here, and `IsWellFormed` shows that no
-- subtraction is cut at 0.
use gopbx.Prelude.{
  ℕ, ◌+◌, ◌-◌, ◌≡◌, List, [], ◌∷◌, ◌++◌, map, ltb, leb, ◌==◌, ◌||◌, if◌then◌else◌, is_empty, Text,
  length,
}
use gopbx.Media.Packet.{Packet, audio}

pub record BufferedAudio : Type 0 where
  pub frames : List (List ℕ)
  pub lengths : List ℕ
  pub total_ms : ℕ

abbrev pub empty_buffer : BufferedAudio
empty_buffer = record { frames = []; lengths = []; total_ms = 0 }

-- The eviction loop of `Push`. Go would panic at a frame without a length: the lists are always of
-- one length (`IsWellFormed`).
unfoldable pub evict : ℕ → List (List ℕ) → List ℕ → ℕ → BufferedAudio
evict limit [] ls total = record { frames = []; lengths = ls; total_ms = total }
evict limit (f ∷ fs) [] total = record { frames = f ∷ fs; lengths = []; total_ms = total }
evict limit (f ∷ fs) (l ∷ ls) total =
    let rest = evict limit fs ls (total - l) in
    if ltb limit total then rest else record { frames = f ∷ fs; lengths = l ∷ ls; total_ms = total }

-- `Push`. A limit of 0 stands for every limit that is not positive.
unfoldable pub push : BufferedAudio → List ℕ → ℕ → ℕ → BufferedAudio
push b payload duration limit =
    let frames = b.frames ++ payload ∷ [] in
    let lengths = b.lengths ++ duration ∷ [] in
    let total = b.total_ms + duration in
    if is_empty payload || duration == 0
    then b
    else if limit == 0
    then record { frames = frames; lengths = lengths; total_ms = total }
    else evict limit frames lengths total

-- The loop of `Append`; a frame without a length does not occur.
unfoldable pub push_all : BufferedAudio → List (List ℕ) → List ℕ → ℕ → BufferedAudio
push_all b [] ls limit = b
push_all b (f ∷ fs) [] limit = b
push_all b (f ∷ fs) (l ∷ ls) limit = push_all (push b f l limit) fs ls limit

-- `Append`
unfoldable pub append : BufferedAudio → BufferedAudio → ℕ → BufferedAudio
append b other limit = push_all b other.frames other.lengths limit

abbrev pub audio_packet : Text → List ℕ → Packet
audio_packet track frame = record { track_id = track; payload = frame; kind = audio }

-- `Packets`
unfoldable pub packets : BufferedAudio → Text → List Packet
packets b track = map (audio_packet track) b.frames

-- The loop of `PrefixPackets`.
unfoldable pub prefix_from : ℕ → ℕ → Text → List (List ℕ) → List ℕ → List Packet
prefix_from max_ms used track [] ls = []
prefix_from max_ms used track (f ∷ fs) [] = audio_packet track f ∷ []
prefix_from max_ms used track (f ∷ fs) (l ∷ ls) =
    let rest = prefix_from max_ms (used + l) track fs ls in
    audio_packet track f ∷ (if leb max_ms (used + l) then [] else rest)

-- `PrefixPackets`
unfoldable pub prefix_packets : BufferedAudio → Text → ℕ → List Packet
prefix_packets b track max_ms =
    if max_ms == 0 then [] else prefix_from max_ms 0 track b.frames b.lengths

-- The loop of `Bytes`.
unfoldable pub join : List (List ℕ) → List ℕ
join [] = []
join (f ∷ fs) = f ++ join fs

-- `Bytes`
unfoldable pub bytes : BufferedAudio → List ℕ
bytes b = join b.frames

abbrev pub sum : List ℕ → ℕ
sum [] = 0
sum (n ∷ ns) = n + sum ns

pub record IsWellFormed (b : BufferedAudio) : Type 0 where
  pub paired : length b.frames ≡ length b.lengths
  pub counted : b.total_ms ≡ sum b.lengths
