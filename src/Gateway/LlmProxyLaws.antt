-- ===== src/Gateway/LlmProxyLaws.antt =====
-- outbound/llm/openai_proxy.go: what the proxy sends on and gives back.
use gopbx.Prelude.{
  List, ◌∷◌, arith, ◌≡◌, ◌≢◌, ◌⊎◌, refl, ◌∙◌, false, not, ◌&&◌, [], ◌++◌, Option, none, some, Text,
  codes, is_empty, if_intro, if◌then◌else◌, Fallible, ok, failure, Bool-cases, inl, inr,
}
use gopbx.Gateway.Http.{built, Http, Headers, Request, Reply, get_header}
use gopbx.Gateway.HttpLaws.{values, values-append, values-set, values-set_ne}
use gopbx.Gateway.LlmProxy.{
  Proxy, Incoming, ProxyAnswer, http_error, relayed, forwarded_headers, relay, forwarded, sent,
  forward, proxy, without_slash,
}

abbrev auth : Text
auth = codes "Authorization"

abbrev accel : Text
accel = codes "X-Accel-Buffering"

-- The authorization that the upstream sees: the client's own, or else the key of the configuration.
abbrev pub authorization_for : Proxy → Headers → List Text
authorization_for p headers =
    if is_empty (get_header auth headers) && not (is_empty p.api_key)
    then (codes "Bearer " ++ p.api_key) ∷ []
    else values auth headers

forwarded-auth :
    (p : Proxy) (headers : Headers)
    → values auth (forwarded_headers p headers) ≡ authorization_for p headers
forwarded-auth p headers =
    elim (Bool-cases (is_empty (get_header auth headers) && not (is_empty p.api_key))) [
      | inl e ↦ rw e (values-set auth (codes "Bearer " ++ p.api_key) headers)
      | inr e ↦ rw e refl
    ]

forwarded-other :
    (p : Proxy) (headers : Headers) (key : Text)
    → auth ≢ key
    → values key (forwarded_headers p headers) ≡ values key headers
forwarded-other p headers key n =
    if_intro (λ hs. values key hs ≡ values key headers)
      (is_empty (get_header auth headers) && not (is_empty p.api_key))
      (λ e. values-set_ne auth key (codes "Bearer " ++ p.api_key) headers n) (λ e. refl)

-- The second text is the first without a slash in front.
abbrev pub Unslashed : Text → Text → Type 0
Unslashed [] rest = rest ≡ []
Unslashed (c ∷ path) rest = ((c ≡ 0x2f) × (rest ≡ path)) ⊎ ((c ≢ 0x2f) × (rest ≡ c ∷ path))

without_slash-Unslashed : (path : Text) → Unslashed path (without_slash path)
without_slash-Unslashed [] = refl
without_slash-Unslashed (c ∷ path) = ground arith

module _ (http : Http) (forward_url : Text → Text → Fallible Text) (present : Headers) where
  -- A reply `r` to the client is that of the upstream, to a request to the address below the endpoint that the
  -- client names, with its query; the request is the client's but for the authorization. Of each header all
  -- values count.
  pub record Relays (p : Proxy) (c : Incoming) (r : Reply) : Type 0 where
    pub path : Text
    pub unslashed : Unslashed c.path path
    pub request : Request
    pub address : forward_url (p.endpoint ++ codes "/" ++ path) c.query ≡ ok request.url
    pub upstream : Reply
    pub answered : http.send none request ≡ ok upstream
    pub method : request.method ≡ codes "POST"
    pub same_body : request.body ≡ c.body
    pub authorized : values auth request.headers ≡ authorization_for p c.headers
    pub others : (key : Text) → auth ≢ key → values key request.headers ≡ values key c.headers
    pub status : r.status ≡ upstream.status
    pub body : r.body ≡ upstream.body
    pub unbuffered : values accel r.headers ≡ codes "no" ∷ []
    pub headers :
        (key : Text)
        → accel ≢ key
        → values key r.headers ≡ values key present ++ values key upstream.headers

  abbrev pub Outcome : Proxy → Incoming → ProxyAnswer → Type 0
  Outcome p c (http_error status message) =
      if is_empty p.endpoint then status ≡ 501 else (status ≡ 500) ⊎ (status ≡ 502)
  Outcome p c (relayed r) = Relays p c r

  relay-Outcome :
      (p : Proxy) (c : Incoming) (url : Text) (reply : Fallible Reply)
      → is_empty p.endpoint ≡ false
      → forward_url (p.endpoint ++ codes "/" ++ without_slash c.path) c.query ≡ ok url
      → let request : Request = record {
        method = codes "POST";
        url = url;
        headers = [];
        body = c.body;
      } in
        http.send none (forwarded http forward_url present p c request) ≡ reply
        → Outcome p c (relay http forward_url present reply)
  relay-Outcome p c url (failure m) e f s = rw e (inr refl)
  relay-Outcome p c url (ok u) e f s = record {
    path = without_slash c.path;
    unslashed = without_slash-Unslashed c.path;
    request =
        forwarded http forward_url present p c
          (record { method = codes "POST"; url = url; headers = []; body = c.body });
    address = f;
    upstream = u;
    answered = s;
    method = refl;
    same_body = refl;
    authorized = forwarded-auth p c.headers;
    others = λ key d. forwarded-other p c.headers key d;
    status = refl;
    body = refl;
    unbuffered = values-set accel (codes "no") (present ++ u.headers);
    headers = λ key d.
        values-set_ne accel key (codes "no") (present ++ u.headers) d
        ∙ values-append key present u.headers;
  }

  sent-Outcome :
      (p : Proxy) (c : Incoming) (url : Text) (bad : Option Text)
      → is_empty p.endpoint ≡ false
      → forward_url (p.endpoint ++ codes "/" ++ without_slash c.path) c.query ≡ ok url
      → Outcome p c (
          sent http forward_url present p c
            (built bad (record { method = codes "POST"; url = url; headers = []; body = c.body })))
  sent-Outcome p c url (some m) e f = rw e (inl refl)
  sent-Outcome p c url none e f = relay-Outcome p c url _ e f refl

  forward-Outcome :
      (p : Proxy) (c : Incoming) (url : Fallible Text)
      → is_empty p.endpoint ≡ false
      → forward_url (p.endpoint ++ codes "/" ++ without_slash c.path) c.query ≡ url
      → Outcome p c (forward http forward_url present p c url)
  forward-Outcome p c (failure m) e f = rw e (inl refl)
  forward-Outcome p c (ok url) e f = sent-Outcome p c url (http.url_error url) e f

  -- Whatever the upstream and the parser of addresses do: an answer of the proxy is an error, 501 where no
  -- endpoint is configured, else 500 or 502; or it is the upstream's reply to a POST of the client's body to
  -- the address that the endpoint and the client's path and query make, with all values of the client's
  -- headers but the authorization, which is the configured key where the client gives none. The status and
  -- the body are relayed as they are, and so are the headers, after those that the response has already, but
  -- for the one that turns off buffering.
  pub proxy-Outcome : (p : Proxy) (c : Incoming) → Outcome p c (proxy http forward_url present p c)
  unfolding proxy
  proxy-Outcome p c =
      if_intro (Outcome p c) (is_empty p.endpoint) (λ e. rw e refl)
        (λ e. forward-Outcome p c _ e refl)
