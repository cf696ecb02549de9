-- ===== src/Media/NegotiationLaws.antt =====
-- track/webrtc_track.go: what a negotiation leaves open.
use gopbx.Prelude.{
  codes, arith, ℕ, ◌≡◌, refl, ap, true, false, List, [], ◌∷◌, Option, none, some, Text, ok, failure,
}
use gopbx.Codec.Names.{CodecType, pcmu, pcma}
use gopbx.Gateway.Ice.{IceServer, PeerServer, text_of, credential_of, convert_ice_servers}
use gopbx.Media.Negotiation.{
  Capability, PeerAnswers, Peer, Negotiated, outbound_codec_capability, register_codecs,
  supported_codecs, with_peer, peered, negotiate, described, or_close,
}

-- G.711 at 8000 samples a second.
abbrev pub of_mime : Text → Capability
of_mime mime = record { mime_type = mime; clock_rate = 8000; channels = 1 }

abbrev pub codec_of : CodecType → Capability
codec_of pcmu = of_mime (codes "audio/PCMU")
codec_of pcma = of_mime (codes "audio/PCMA")

-- Both, under their payload types.
abbrev pub both_codecs : List (Capability × ℕ)
both_codecs = (codec_of pcmu, 0) ∷ (codec_of pcma, 8) ∷ []

abbrev pub given : Option Text → Text
given none = []
given (some t) = t

-- The credential of a server, or else its password.
abbrev pub secret_of : Option Text → Option Text → Text
secret_of (some credential) password = credential
secret_of none password = given password

-- Each server of the one list stands in the other, in the same place.
abbrev pub AsGiven : List IceServer → List PeerServer → Type 0
AsGiven [] [] = Unit
AsGiven [] (p ∷ ps) = ⊥
AsGiven (s ∷ ss) [] = ⊥
AsGiven (s ∷ ss) (p ∷ ps) =
    (p.urls ≡ s.urls)
    × (p.username ≡ given s.username)
    × (p.credential ≡ secret_of s.credential s.password)
    × AsGiven ss ps

-- A peer that is open knows the two codecs, the servers, and the offer, and sends the codec of the track.
pub record Ready (kind : CodecType) (ice_servers : List IceServer) (offer : Text) (peer : Peer)
    : Type 0 where
  pub is_open : peer.is_open ≡ true
  pub codecs : peer.codecs ≡ both_codecs
  pub servers : AsGiven ice_servers peer.servers
  pub sends : peer.sends ≡ some (codec_of kind)
  pub remote : peer.remote ≡ some offer

abbrev Closed : Option Peer → Type 0
Closed none = Unit
Closed (some peer) = peer.is_open ≡ false

abbrev Open : CodecType → List IceServer → Text → Option Peer → Type 0
Open kind ice_servers offer none = ⊥
Open kind ice_servers offer (some peer) = Ready kind ice_servers offer peer

-- An answer comes with an open peer; with an error no peer is open.
abbrev pub Settled : CodecType → List IceServer → Text → Negotiated → Type 0
Settled kind ice_servers offer n = elim n.result [
  | ok sdp ↦ Open kind ice_servers offer n.peer
  | failure e ↦ Closed n.peer
]

sends_codec : (kind : CodecType) → outbound_codec_capability kind ≡ codec_of kind
unfolding outbound_codec_capability
sends_codec pcmu = refl
sends_codec pcma = refl

given-text_of : (t : Option Text) → text_of t ≡ given t
given-text_of none = refl
given-text_of (some t) = refl

secret-credential_of : (s : IceServer) → credential_of s ≡ secret_of s.credential s.password
secret-credential_of s = ground (arith, given-text_of s.password)

converted : (servers : List IceServer) → AsGiven servers (convert_ice_servers servers)
unfolding convert_ice_servers
converted [] = tt
converted (s ∷ servers) =
    (refl, given-text_of s.username, secret-credential_of s, converted servers)

module _ (kind : CodecType) (ice_servers : List IceServer) (offer : Text) where
  described-Settled :
      (peer : Peer) (local : Option Text)
      → Ready kind ice_servers offer peer
      → Settled kind ice_servers offer (described peer local)
  described-Settled peer (some sdp) h = h
  described-Settled peer none h = refl

  or_close-Settled :
      (peer : Peer) (err : Option Text) (next : Negotiated)
      → Settled kind ice_servers offer next
      → Settled kind ice_servers offer (or_close peer err next)
  or_close-Settled peer none next h = h
  or_close-Settled peer (some e) next h = refl

  abbrev added :
      Option Text
      → Capability × ℕ
      → List (Capability × ℕ) × Option Text
      → List (Capability × ℕ) × Option Text
  added err item (registered, later) = elim err [
    | some e ↦ ([], some e)
    | none ↦ (item ∷ registered, later)
  ]

  added-all :
      (err : Option Text) (item : Capability × ℕ) (r : List (Capability × ℕ) × Option Text)
      (items : List (Capability × ℕ))
      → (r.1 ≡ none → r.0 ≡ items)
      → (added err item r).1 ≡ none
      → (added err item r).0 ≡ item ∷ items
  added-all (some e) item r items ih h = cc
  added-all none item r items ih h = ap (λ xs. item ∷ xs) (ih h)

  register_codecs-all :
      (refusal : Capability × ℕ → Option Text) (items : List (Capability × ℕ))
      → (register_codecs refusal items).1 ≡ none
      → (register_codecs refusal items).0 ≡ items
  unfolding register_codecs
  register_codecs-all refusal [] h = refl
  register_codecs-all refusal (item ∷ items) h =
      added-all (refusal item) item (register_codecs refusal items) items
        (register_codecs-all refusal items) h

  with_peer-Settled :
      (q : PeerAnswers) (peer : Peer)
      → peer.is_open ≡ true
      → peer.codecs ≡ supported_codecs
      → AsGiven ice_servers peer.servers
      → Settled kind ice_servers offer (with_peer q kind ice_servers offer peer)
  with_peer-Settled q peer o c s =
      let sending = record peer { sends = some (outbound_codec_capability kind) } in
      let remote = record sending { remote = some offer } in
      let h : Ready kind ice_servers offer remote = record {
        is_open = o;
        codecs = c;
        servers = s;
        sends = ap some (sends_codec kind);
        remote = refl;
      } in
      or_close-Settled peer q.create_track _ (
        or_close-Settled peer q.add_transceiver _ (
          or_close-Settled peer q.replace_track _ (
            or_close-Settled sending q.set_remote _ (
              or_close-Settled remote q.create_answer _
                (or_close-Settled remote q.set_local _ (described-Settled remote q.local h))))))

  peered-Settled :
      (q : PeerAnswers) (codecs : List (Capability × ℕ)) (err created : Option Text)
      → (err ≡ none → codecs ≡ supported_codecs)
      → Settled kind ice_servers offer (peered q kind ice_servers offer codecs err created)
  peered-Settled q codecs (some e) created h = tt
  peered-Settled q codecs none (some e) h = tt
  peered-Settled q codecs none none h = with_peer-Settled q _ refl (h refl) (converted ice_servers)

  -- Whatever the peer connection answers to its calls: where the negotiation gives an answer, its peer is
  -- open, knows both codecs of G.711 under their payload types, the servers of the track and the offer, and
  -- sends the codec of the track; where it fails, the peer that was created, if one was, is closed.
  pub negotiate-Settled :
      (q : PeerAnswers) → Settled kind ice_servers offer (negotiate q kind ice_servers offer)
  unfolding negotiate
  negotiate-Settled q =
      let (codecs, err) = register_codecs q.register supported_codecs in
      peered-Settled q codecs err q.create_peer (register_codecs-all q.register supported_codecs)
