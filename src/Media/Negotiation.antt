-- ===== src/Media/Negotiation.antt =====
-- track/webrtc_track.go: the negotiation in `BuildAnswer` from the creation of the peer connection on. The
-- connection (pion/webrtc) is outside this code: what its calls answer are inputs.
use gopbx.Prelude.{
  ℕ, Bool, true, false, List, [], ◌∷◌, Option, none, some, Text, codes, Fallible, ok, failure,
}
use gopbx.Codec.Names.{CodecType, pcma}
use gopbx.Gateway.Ice.{IceServer, PeerServer, convert_ice_servers}

-- `webrtc.RTPCodecCapability`
pub record Capability : Type 0 where
  pub mime_type : Text
  pub clock_rate : ℕ
  pub channels : ℕ

unfoldable pub outbound_codec_capability : CodecType → Capability
outbound_codec_capability pcma = record {
  mime_type = codes "audio/PCMA";
  clock_rate = 8000;
  channels = 1;
}
outbound_codec_capability other = record {
  mime_type = codes "audio/PCMU";
  clock_rate = 8000;
  channels = 1;
}

-- The codecs of `registerSupportedAudioCodecs`, each with its payload type.
abbrev pub supported_codecs : List (Capability × ℕ)
supported_codecs =
    (record { mime_type = codes "audio/PCMU"; clock_rate = 8000; channels = 1 }, 0)
    ∷ (record { mime_type = codes "audio/PCMA"; clock_rate = 8000; channels = 1 }, 8)
    ∷ []

-- The codecs that are registered, and the error of the first that is not.
unfoldable pub register_codecs :
    (Capability × ℕ → Option Text) → List (Capability × ℕ) → List (Capability × ℕ) × Option Text
register_codecs refusal [] = ([], none)
register_codecs refusal (item ∷ rest) =
    let (registered, err) = register_codecs refusal rest in
    elim (refusal item) [ some e ↦ ([], some e) | none ↦ (item ∷ registered, err) ]

-- What the calls of a negotiation answer: the error of each, if there is one.
pub record PeerAnswers : Type 0 where
  pub register : Capability × ℕ → Option Text
  pub create_peer : Option Text
  pub create_track : Option Text
  pub add_transceiver : Option Text
  pub replace_track : Option Text
  pub set_remote : Option Text
  pub create_answer : Option Text
  pub set_local : Option Text
  -- The local description once candidates were gathered, or after three seconds.
  pub local : Option Text

-- The peer connection of a negotiation: what it was created with, its sender, and whether it is open.
pub record Peer : Type 0 where
  pub servers : List PeerServer
  pub codecs : List (Capability × ℕ)
  pub sends : Option Capability
  pub remote : Option Text
  pub is_open : Bool

-- What a negotiation leaves: its peer, if one was created, and the answer or an error.
pub record Negotiated : Type 0 where
  pub peer : Option Peer
  pub result : Fallible Text

-- `_ = peer.Close()` and the return of an error, or what follows where there is none.
abbrev pub or_close : Peer → Option Text → Negotiated → Negotiated
or_close peer none next = next
or_close peer (some e) next = record {
  peer = some (record peer { is_open = false });
  result = failure e;
}

abbrev pub described : Peer → Option Text → Negotiated
described peer (some sdp) = record { peer = some peer; result = ok sdp }
described peer none = record {
  peer = some (record peer { is_open = false });
  result = failure (codes "webrtc local description is empty");
}

module _ (q : PeerAnswers) (kind : CodecType) (ice_servers : List IceServer) (offer : Text) where
  -- The calls on a peer that was created.
  abbrev pub with_peer : Peer → Negotiated
  with_peer peer =
      let capability = outbound_codec_capability kind in
      let sending = record peer { sends = some capability } in
      let remote = record sending { remote = some offer } in
      or_close peer q.create_track (
        or_close peer q.add_transceiver (
          or_close peer q.replace_track (
            or_close sending q.set_remote (
              or_close remote q.create_answer
                (or_close remote q.set_local (described remote q.local))))))

  abbrev pub peered : List (Capability × ℕ) → Option Text → Option Text → Negotiated
  peered codecs (some e) created = record { peer = none; result = failure e }
  peered codecs none (some e) = record { peer = none; result = failure e }
  peered codecs none none = with_peer (record {
    servers = convert_ice_servers ice_servers;
    codecs = codecs;
    sends = none;
    remote = none;
    is_open = true;
  })

  unfoldable pub negotiate : Negotiated
  unfolding outbound_codec_capability register_codecs convert_ice_servers
  negotiate =
      let (codecs, err) = register_codecs q.register supported_codecs in
      peered codecs err q.create_peer
