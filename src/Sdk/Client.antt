-- ===== src/Sdk/Client.antt =====
-- sdk/go/client.go: the addresses and the HTTP calls of the client. The requests and the JSON decoding are
-- parameters.
use gopbx.Prelude.{
  ℕ, Bool, ◌&&◌, not, [], ◌∷◌, ◌++◌, Option, none, some, Text, codes, is_empty, after_prefix,
  trim_space, if◌then◌else◌, ◌==◌, Fallible, failure, ◌>>=◌, List, ok,
}
use gopbx.Session.Track.{format_track_seq}

pub record ClientOptions : Type 0 where
  pub http_base_url : Text
  pub ws_base_url : Text

-- `strings.TrimRight(v, "/")`
abbrev pub trim_slashes : Text → Text
trim_slashes [] = []
trim_slashes (c ∷ v) =
    let rest = trim_slashes v in if is_empty rest && c == 47 then [] else c ∷ rest

-- Put a text in place of a prefix, or else go on as told.
abbrev pub replaced : Text → Option Text → Text → Text
replaced by (some rest) otherwise = by ++ rest
replaced by none otherwise = otherwise

unfoldable pub http_to_ws : Text → Text
http_to_ws raw =
    replaced (codes "wss://") (after_prefix (codes "https://") raw)
      (replaced (codes "ws://") (after_prefix (codes "http://") raw) raw)

unfoldable pub ws_to_http : Text → Text
ws_to_http raw =
    replaced (codes "https://") (after_prefix (codes "wss://") raw)
      (replaced (codes "http://") (after_prefix (codes "ws://") raw) raw)

unfoldable pub normalize_client_options : ClientOptions → ClientOptions
unfolding http_to_ws ws_to_http
normalize_client_options o =
    let http = trim_slashes o.http_base_url in
    let ws1 = trim_slashes o.ws_base_url in
    let ws = if is_empty ws1 && not (is_empty http) then http_to_ws http else ws1 in
    record {
      http_base_url = if is_empty http && not (is_empty ws) then ws_to_http ws else http;
      ws_base_url = ws;
    }

unfoldable pub http_url : ClientOptions → Text → Text
http_url o path = o.http_base_url ++ path

unfoldable pub ws_url : ClientOptions → Text → Text
ws_url o path = o.ws_base_url ++ path

-- A response: its status and its body.
pub record Response : Type 0 where
  pub status : ℕ
  pub body : Text

-- `readHTTPError`
unfoldable pub read_http_error : Response → Text
read_http_error r =
    if is_empty r.body
    then codes "unexpected status: " ++ format_track_seq r.status
    else codes "unexpected status " ++ format_track_seq r.status ++ codes ": " ++ trim_space r.body

-- A call: its request, the check of the status, the decoding of the body.
unfoldable pub call_http {ℓ} :
    {A : Type ℓ} → (Text → Fallible Response) → (Text → Fallible A) → Text → Fallible A
unfolding read_http_error
call_http send decode url = do
  r ← send url
  if r.status == 200 then decode r.body else failure (read_http_error r)

unfoldable pub list_calls {ℓ} :
    {A : Type ℓ} → (Text → Fallible Response) → (Text → Fallible A) → ClientOptions → Fallible A
unfolding call_http http_url
list_calls send decode o = call_http send decode (http_url o (codes "/call/lists"))

-- `KillCall`, with `escape` for `url.PathEscape`.
unfoldable pub kill_call :
    (Text → Fallible Response)
    → (Text → Fallible Bool)
    → (Text → Text)
    → ClientOptions
    → Text
    → Fallible Bool
unfolding call_http http_url
kill_call send decode escape o id =
    call_http send decode (http_url o (codes "/call/kill/" ++ escape id))

-- `GetICEServers`: an empty body (none) stands for no servers.
abbrev pub servers_of {ℓ} : {A : Type ℓ} → Option (Fallible (List A)) → Fallible (List A)
servers_of none = ok []
servers_of (some decoded) = decoded

unfoldable pub get_ice_servers {ℓ} :
    {A : Type ℓ}
    → (Text → Fallible Response)
    → (Text → Option (Fallible (List A)))
    → ClientOptions
    → Fallible (List A)
unfolding call_http http_url
get_ice_servers send decode o =
    call_http send (λ body. servers_of (decode body)) (http_url o (codes "/iceservers"))
