-- ===== src/Media/Packet.antt =====
-- internal/domain/media/entity.go and internal/app/media/processor/result.go.
use gopbx.Prelude.{ℕ, List, [], ◌∷◌, Text}
use gopbx.Protocol.Event.{EventEnvelope}

-- `unset` is the empty kind of a packet built without one.
pub data PacketKind : Type 0 where
  unset audio segment_end : PacketKind

pub record Packet : Type 0 where
  pub track_id : Text
  pub payload : List ℕ
  pub kind : PacketKind

-- `NormalizePacketKind`
unfoldable pub normalize_packet_kind : PacketKind → PacketKind
normalize_packet_kind segment_end = segment_end
normalize_packet_kind _ = audio

unfoldable pub resolved_kind : Packet → PacketKind
unfolding normalize_packet_kind
resolved_kind p = normalize_packet_kind p.kind

pub record Result : Type 0 where
  pub packets : List Packet
  pub events : List EventEnvelope

abbrev pub empty_result : Result
empty_result = record { packets = []; events = [] }

unfoldable pub passthrough : Packet → Result
passthrough p = record { packets = p ∷ []; events = [] }
