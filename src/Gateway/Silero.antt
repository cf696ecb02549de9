-- ===== src/Gateway/Silero.antt =====
-- outbound/vad/silero_http.go: the scorer behind an HTTP service.
use gopbx.Prelude.{
  ℕ, ℤ, pos, ◌++◌, Option, none, some, Text, codes, is_empty, trim_space, take, if◌then◌else◌, ◌==◌,
  Fallible, ok, failure, ◌>>=◌,
}
use gopbx.Sdk.Client.{trim_slashes}
use gopbx.Session.Track.{format_track_seq}
use gopbx.Gateway.Http.{Http, Reply, set_header, new_request}

pub record HttpScorer : Type 0 where
  pub base_url : Text
  pub timeout : ℤ

-- `NewHTTPScorer`, with the timeout in nanoseconds.
unfoldable pub new_http_scorer : Text → Fallible HttpScorer
new_http_scorer endpoint =
    let base_url = trim_slashes (trim_space endpoint) in
    if is_empty base_url
    then failure (codes "vad endpoint is empty")
    else ok (record { base_url = base_url; timeout = pos 500000000 })

-- The decoder of the body gives the field `speechProb`.
module _ {ℓ} {F : Type ℓ} (http : Http) (decode : Text → Fallible F) where
  abbrev scored : Reply → Fallible F
  scored reply =
      if reply.status == 200
      then decode reply.body
      else failure (
          codes "vad scorer status="
          ++ format_track_seq reply.status
          ++ codes " body="
          ++ trim_space (take 1024 reply.body))

  -- `Score` of a scorer, or of a null pointer.
  unfoldable pub http_score : Option HttpScorer → Text → ℕ → Fallible F
  unfolding set_header
  http_score none payload sample_rate = failure (codes "vad scorer is nil")
  http_score (some s) payload sample_rate = do
    request ←
        new_request http (codes "POST")
          (s.base_url ++ codes "/v1/score?sampleRate=" ++ format_track_seq sample_rate) payload
    reply ← http.send (some s.timeout) (record request {
      headers =
          set_header (codes "Content-Type") (codes "application/octet-stream") request.headers;
    })
    scored reply
