-- ===== src/Session/Track.antt =====
-- session.go: the track that a session plays. A fresh track gets an identifier with a decimal counter.
use gopbx.Prelude.{
  ℕ, zero, suc, ◌+◌, ◌/◌, ◌%◌, ◌^◌, [], ◌∷◌, ◌++◌, Option, none, some, Text, codes, is_empty,
  if◌then◌else◌, ◌==◌,
}
use gopbx.Session.State.{Session}

-- The loop of `formatTrackSeq` over `buf` and its reversal in one, on fuel: every round divides the
-- number by ten.
unfoldable pub digits_from : ℕ → ℕ → Text → Text
digits_from zero v buf = buf
digits_from (suc fuel) v buf =
    let rest = digits_from fuel (v / 10) ((48 + v % 10) ∷ buf) in if v == 0 then buf else rest

-- `formatTrackSeq`; a number has at most as many digits as its value, so the fuel is enough.
unfoldable pub format_track_seq : ℕ → Text
unfolding digits_from
format_track_seq v = if v == 0 then codes "0" else digits_from v v []

abbrev pub fresh_track : Text → Session → ℕ → Text
fresh_track prefix s seq = prefix ++ (codes "-" ++ (s.id ++ (codes "-" ++ format_track_seq seq)))

-- `StartTrack`, with the new track's identifier. The counter is a `uint64`.
unfoldable pub start_track : Session → Text → Option Text → Session × Text
start_track s prefix play_id =
    let seq = (s.track_seq + 1) % 2 ^ 64 in
    let fresh = fresh_track prefix s seq in
    let numbered : Session × Text =
      (record s { track_seq = seq; current_track_id = fresh }, fresh) in
    elim play_id [
      | none ↦ numbered
      | some own ↦ if is_empty own then numbered else (record s { current_track_id = own }, own)
    ]

-- `ClearTrack`, with the identifier that was cleared.
unfoldable pub clear_track : Session → Session × Text
clear_track s = (record s { current_track_id = [] }, s.current_track_id)
