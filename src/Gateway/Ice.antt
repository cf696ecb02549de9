-- ===== src/Gateway/Ice.antt =====
-- outbound/ice/restsend.go, inbound/http/ice_handler.go, resolveWebRTCIceServers of call_handler.go and
-- convertICEServers of webrtc_track.go: the servers for the negotiation of a WebRTC call.
use gopbx.Prelude.{
  ℤ, pos, List, [], ◌∷◌, ◌++◌, Option, none, some, Text, codes, is_empty, if◌then◌else◌, ◌==◌,
  Fallible, ok, failure, ◌>>=◌, map,
}
use gopbx.Config.{Config}
use gopbx.Sdk.Client.{trim_slashes}
use gopbx.Session.Track.{format_track_seq}
use gopbx.Gateway.Http.{Http, Reply, authorize, new_request, timeout_or}

-- `wsproto.ICEServer`
pub record IceServer : Type 0 where
  pub urls : List Text
  pub username : Option Text
  pub credential : Option Text
  pub password : Option Text

pub record RemoteProvider : Type 0 where
  pub endpoint : Text
  pub api_key : Text
  pub timeout : ℤ

-- `NewRemoteProvider`; a null pointer is none. The timeout is in nanoseconds.
unfoldable pub new_remote_provider : (Text → Option ℤ) → Config → Option RemoteProvider
unfolding timeout_or
new_remote_provider parse_duration c =
    if is_empty c.ice_endpoint
    then none
    else some (record {
      endpoint = trim_slashes c.ice_endpoint;
      api_key = c.ice_api_key;
      timeout = timeout_or (parse_duration c.ice_timeout) (pos 3000000000);
    })

-- A slice of servers that may be nil, none for nil.
abbrev pub Servers : Type 0
Servers = Option (List IceServer)

-- The field `iceProvider`, of an interface type: nil, the static provider, or a pointer to a remote one,
-- which may be null.
pub data Provider : Type 0 where
  nil_provider : Provider
  static_provider : Servers → Provider
  remote_provider : Option RemoteProvider → Provider

-- The field as `NewHandlers` sets it.
unfoldable pub handlers_provider : (Text → Option ℤ) → Config → Provider
unfolding new_remote_provider
handlers_provider parse_duration c = remote_provider (new_remote_provider parse_duration c)

-- The answer of a handler: servers, or JSON's null.
pub data Answer : Type 0 where
  null : Answer
  servers : List IceServer → Answer

abbrev pub stun_server : IceServer
stun_server = record {
  urls = codes "stun:restsend.com:3478" ∷ [];
  username = none;
  credential = none;
  password = none;
}

-- With the decoder of the body.
module _ (http : Http) (decode : Text → Fallible Servers) where
  abbrev decoded : Reply → Fallible Servers
  decoded reply =
      if reply.status == 200
      then decode reply.body
      else failure (codes "ice provider status: " ++ format_track_seq reply.status)

  abbrev fetch : RemoteProvider → Fallible Servers
  fetch p = do
    request ← new_request http (codes "GET") p.endpoint []
    reply ←
        http.send (some p.timeout)
          (record request { headers = authorize p.api_key request.headers })
    decoded reply

  -- `RemoteProvider.Get`
  unfoldable pub get_remote : Option RemoteProvider → Fallible Servers
  unfolding authorize
  get_remote none = ok none
  get_remote (some p) = if is_empty p.endpoint then ok none else fetch p

  -- `Get` of a provider that is not nil; none where it is.
  abbrev pub get_provider : Provider → Option (Fallible Servers)
  get_provider nil_provider = none
  get_provider (static_provider given) = some (ok given)
  get_provider (remote_provider p) = some (get_remote p)

  abbrev pub answer_of : Option (Fallible Servers) → Answer
  answer_of none = servers (stun_server ∷ [])
  answer_of (some (failure e)) = null
  answer_of (some (ok none)) = null
  answer_of (some (ok (some given))) = servers given

  -- `HandleICEServers`, with the servers of the configuration.
  unfoldable pub handle_ice_servers : List IceServer → Provider → Answer
  unfolding get_remote
  handle_ice_servers configured p =
      if is_empty configured then answer_of (get_provider p) else servers configured

  abbrev pub servers_or_nil : Option (Fallible Servers) → Servers
  servers_or_nil none = none
  servers_or_nil (some (failure e)) = none
  servers_or_nil (some (ok given)) = given

  -- `resolveWebRTCIceServers`
  unfoldable pub resolve_webrtc_ice_servers : List IceServer → Provider → Servers
  unfolding get_remote
  resolve_webrtc_ice_servers configured p =
      if is_empty configured then servers_or_nil (get_provider p) else some configured

-- `webrtc.ICEServer`, up to the fields that are set.
pub record PeerServer : Type 0 where
  pub urls : List Text
  pub username : Text
  pub credential : Text

abbrev pub text_of : Option Text → Text
text_of none = []
text_of (some t) = t

abbrev pub credential_of : IceServer → Text
credential_of s = elim s.credential [ none ↦ text_of s.password | some c ↦ c ]

-- `convertICEServers`
unfoldable pub convert_ice_servers : List IceServer → List PeerServer
convert_ice_servers =
    map (λ s. record { urls = s.urls; username = text_of s.username; credential = credential_of s })
