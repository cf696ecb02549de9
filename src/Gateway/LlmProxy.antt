-- ===== src/Gateway/LlmProxy.antt =====
-- outbound/llm/openai_proxy.go: the proxy of requests to a language model.
use gopbx.Prelude.{
  ℕ, ◌++◌, none, some, Text, codes, is_empty, not, ◌&&◌, after_prefix, if◌then◌else◌, Fallible, ok,
  failure,
}
use gopbx.Config.{Config}
use gopbx.Sdk.Client.{trim_slashes}
use gopbx.Gateway.Http.{Http, Headers, Request, Reply, get_header, set_header, new_request}

pub record Proxy : Type 0 where
  pub endpoint : Text
  pub api_key : Text

-- `NewProxy`
unfoldable pub new_proxy : Config → Proxy
new_proxy c = record { endpoint = trim_slashes c.llm_endpoint; api_key = c.llm_api_key }

-- The request of a client, with what `c.Param("*")` gives and its query.
pub record Incoming : Type 0 where
  pub path : Text
  pub query : Text
  pub headers : Headers
  pub body : Text

-- `echo.NewHTTPError`, or the reply that is written.
pub data ProxyAnswer : Type 0 where
  http_error : ℕ → Text → ProxyAnswer
  relayed : Reply → ProxyAnswer

abbrev authorization : Text
authorization = codes "Authorization"

-- The headers that are sent on.
abbrev pub forwarded_headers : Proxy → Headers → Headers
forwarded_headers p headers =
    if is_empty (get_header authorization headers) && not (is_empty p.api_key)
    then set_header authorization (codes "Bearer " ++ p.api_key) headers
    else headers

abbrev pub without_slash : Text → Text
without_slash path = elim (after_prefix (codes "/") path) [ none ↦ path | some rest ↦ rest ]

-- `forward_url address query` is the address, parsed by `url.Parse`, with the query put in; `present` are the
-- headers that the response has already.
module _ (http : Http) (forward_url : Text → Text → Fallible Text) (present : Headers) where
  abbrev pub relay : Fallible Reply → ProxyAnswer
  relay (failure e) = http_error 502 (codes "proxy upstream: " ++ e)
  relay (ok reply) = relayed (record {
    status = reply.status;
    headers = set_header (codes "X-Accel-Buffering") (codes "no") (present ++ reply.headers);
    body = reply.body;
  })

  abbrev pub forwarded : Proxy → Incoming → Request → Request
  forwarded p c request = record request {
    headers = forwarded_headers p (request.headers ++ c.headers);
  }

  abbrev pub sent : Proxy → Incoming → Fallible Request → ProxyAnswer
  sent p c (failure e) = http_error 500 (codes "build request: " ++ e)
  sent p c (ok request) = relay (http.send none (forwarded p c request))

  abbrev pub forward : Proxy → Incoming → Fallible Text → ProxyAnswer
  forward p c (failure e) = http_error 500 (codes "parse endpoint: " ++ e)
  forward p c (ok url) = sent p c (new_request http (codes "POST") url c.body)

  -- `Proxy`
  unfoldable pub proxy : Proxy → Incoming → ProxyAnswer
  unfolding set_header get_header
  proxy p c =
      if is_empty p.endpoint
      then http_error 501 (codes "llm proxy endpoint is not configured")
      else forward p c (forward_url (p.endpoint ++ codes "/" ++ without_slash c.path) c.query)
