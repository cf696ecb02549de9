-- ===== src/Codec/Names.antt =====
-- codec.go: the codec names and the codec that a name stands for.
use gopbx.Prelude.{
  ℕ, ◌≡◌, refl, List, Option, none, some, Text, codes, text_eq, trim_space, to_lower, to_upper,
  if◌then◌else◌,
}
use gopbx.Codec.MuLaw.{mu_encode, mu_decode}
use gopbx.Codec.ALaw.{a_encode, a_decode}

-- `Type`
pub data CodecType : Type 0 where
  pcmu pcma : CodecType

-- `Parse`
unfoldable pub parse : Text → CodecType
parse name = if text_eq (to_upper (trim_space name)) (codes "PCMA") then pcma else pcmu

-- The text of a `Type`.
abbrev pub type_name : CodecType → Text
type_name pcmu = codes "PCMU"
type_name pcma = codes "PCMA"

-- `FromWebRTCMime`
unfoldable pub from_webrtc_mime : Text → Option CodecType
from_webrtc_mime mime =
    let name = to_lower (trim_space mime) in
    if text_eq name (codes "audio/pcmu")
    then some pcmu
    else if text_eq name (codes "audio/pcma")
    then some pcma
    else none

-- `SampleRate` of both codecs.
unfoldable pub sample_rate : CodecType → ℕ
sample_rate pcmu = 8000
sample_rate pcma = 8000

-- `New(name).Encode`
unfoldable pub encode : CodecType → List ℕ → List ℕ
encode pcmu payload = mu_encode payload
encode pcma payload = a_encode payload

-- `New(name).Decode`
unfoldable pub decode : CodecType → List ℕ → List ℕ
decode pcmu payload = mu_decode payload
decode pcma payload = a_decode payload

-- `New` of a type's own text is its codec, so a type may stand for the call.
parse-type_name : (kind : CodecType) → parse (type_name kind) ≡ kind
unfolding parse text_eq trim_space to_upper
parse-type_name pcmu = refl
parse-type_name pcma = refl
