-- ===== src/Call/SessionId.antt =====
-- call_handler.go: `newSessionID`. The random bytes are an input, none where they cannot be read.
use gopbx.Prelude.{
  ℕ, ◌+◌, ◌/◌, ◌%◌, List, [], ◌∷◌, ◌++◌, Option, none, some, Text, codes, get_or, set, take, drop,
  bit_and, bit_or, if◌then◌else◌, ltb,
}
use gopbx.Session.Track.{format_track_seq}

-- A hexadecimal digit, and `%x` of bytes.
abbrev hex_digit : ℕ → ℕ
hex_digit n = if ltb n 10 then 48 + n else 87 + n

unfoldable pub hex : List ℕ → Text
hex [] = []
hex (b ∷ bytes) = hex_digit (b / 16) ∷ hex_digit (b % 16) ∷ hex bytes

-- The version and the variant of a random UUID are put in.
unfoldable pub mark_version : List ℕ → List ℕ
mark_version b =
    let c = set b 6 (bit_or (bit_and (get_or b 6 0) 0x0f) 0x40) in
    set c 8 (bit_or (bit_and (get_or c 8 0) 0x3f) 0x80)

unfoldable pub new_session_id : Option (List ℕ) → ℕ → Text
unfolding hex mark_version format_track_seq
new_session_id none now = codes "sess-" ++ format_track_seq now
new_session_id (some bytes) now =
    let b = mark_version bytes in
    hex (take 4 b)
    ++ codes "-"
    ++ hex (take 2 (drop 4 b))
    ++ codes "-"
    ++ hex (take 2 (drop 6 b))
    ++ codes "-"
    ++ hex (take 2 (drop 8 b))
    ++ codes "-"
    ++ hex (drop 10 b)
