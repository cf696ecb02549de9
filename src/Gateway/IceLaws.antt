-- ===== src/Gateway/IceLaws.antt =====
-- inbound/http/ice_handler.go and outbound/ice/restsend.go: what the clients and the calls are told.
use gopbx.Prelude.{
  ℤ, ◌≡◌, refl, true, List, [], ◌∷◌, Option, none, some, Text, is_empty, Fallible, ok, failure,
}
use gopbx.Config.{Config}
use gopbx.Gateway.Http.{Http}
use gopbx.Gateway.Ice.{
  IceServer, Servers, Answer, null, servers, new_remote_provider, handlers_provider, get_remote,
  handle_ice_servers, resolve_webrtc_ice_servers, answer_of, servers_or_nil,
}

-- A slice as JSON.
abbrev pub answer_from : Servers → Answer
answer_from none = null
answer_from (some given) = servers given

module _ (http : Http) (decode : Text → Fallible Servers) where
  answered-resolved :
      (f : Fallible Servers)
      → answer_of http decode (some f) ≡ answer_from (servers_or_nil http decode (some f))
  answered-resolved (failure e) = refl
  answered-resolved (ok none) = refl
  answered-resolved (ok (some given)) = refl

  -- The endpoint tells a client the servers that the gateway uses itself in the negotiation of a call,
  -- whatever the configuration is and the remote service answers: the server that the handler has as its
  -- default is not among these answers unless it is configured or served.
  pub handle-resolve :
      (parse_duration : Text → Option ℤ) (c : Config) (configured : List IceServer)
      → handle_ice_servers http decode configured (handlers_provider parse_duration c)
        ≡ answer_from
            (resolve_webrtc_ice_servers http decode configured (handlers_provider parse_duration c))
  unfolding handle_ice_servers resolve_webrtc_ice_servers handlers_provider
  handle-resolve parse_duration c (s ∷ configured) = refl
  handle-resolve parse_duration c [] =
      answered-resolved (get_remote http decode (new_remote_provider parse_duration c))

  -- Where neither servers nor an endpoint are configured, the endpoint answers null, and not the default
  -- server.
  pub unset-null :
      (parse_duration : Text → Option ℤ) (c : Config)
      → is_empty c.ice_endpoint ≡ true
      → handle_ice_servers http decode [] (handlers_provider parse_duration c) ≡ null
  unfolding handle_ice_servers handlers_provider new_remote_provider get_remote
  unset-null parse_duration c e = rw e refl
