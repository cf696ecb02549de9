-- ===== src/Storage/Writers.antt =====
-- outbound/storage: the choice of a writer of call records, and the writers. Files, paths, addresses and JSON
-- are parameters.
use gopbx.Prelude.{
  ℤ, pos, ◌||◌, [], ◌∷◌, ◌++◌, Option, none, some, Text, codes, is_empty, text_eq, if◌then◌else◌,
  ◌==◌, Fallible, ok, failure, ◌>>=◌, ◌>>◌, check,
}
use gopbx.Call.Serve.{Record}
use gopbx.Config.{Config}
use gopbx.Sdk.Client.{trim_slashes}
use gopbx.Session.Track.{format_track_seq}
use gopbx.Gateway.Http.{
  Http, Request, Reply, set_header, authorize, new_request, timeout_or, is_success,
}

pub record HttpWriter : Type 0 where
  pub endpoint : Text
  pub api_key : Text
  pub timeout : Option ℤ

pub record S3Writer : Type 0 where
  pub endpoint : Text
  pub bucket : Text
  pub prefix : Text
  pub api_key : Text
  pub timeout : Option ℤ

-- `callrecord.Writer`: a local one has its root.
pub data Writer : Type 0 where
  local : Text → Writer
  http : HttpWriter → Writer
  s3 : S3Writer → Writer

-- `NewCallRecordWriter`, with the timeout of the client in nanoseconds.
unfoldable pub new_call_record_writer : (Text → Option ℤ) → Option Config → Writer
unfolding timeout_or
new_call_record_writer parse_duration none = local []
new_call_record_writer parse_duration (some c) =
    let timeout = some (timeout_or (parse_duration c.callrecord_timeout) (pos 5000000000)) in
    if text_eq c.callrecord_type (codes "http")
    then http (record {
      endpoint = c.callrecord_endpoint;
      api_key = c.callrecord_api_key;
      timeout = timeout;
    })
    else if text_eq c.callrecord_type (codes "s3")
    then s3 (record {
      endpoint = c.callrecord_endpoint;
      bucket = c.callrecord_bucket;
      prefix = c.callrecord_prefix;
      api_key = c.callrecord_api_key;
      timeout = timeout;
    })
    else local c.recorder_path

-- What the writers use: the two forms of a record in JSON, `filepath.Join` and `path.Join`, the address of an
-- object at an endpoint, which parses the endpoint and joins its path with a bucket and a key, the files, and
-- HTTP.
pub record Outside : Type 0 where
  pub marshal : Record → Fallible Text
  pub marshal_indent : Record → Fallible Text
  pub join : Text → Text → Text
  pub object_url : Text → Text → Text → Fallible Text
  pub make_dir : Text → Option Text
  pub write_file : Text → Text → Option Text
  pub net : Http

-- `strings.Trim(v, "/")`
abbrev leading_trimmed : Text → Text
leading_trimmed [] = []
leading_trimmed (c ∷ v) = let rest = leading_trimmed v in if c == 47 then rest else c ∷ v

abbrev pub trim_both : Text → Text
trim_both v = trim_slashes (leading_trimmed v)

abbrev pub file_name : Record → Text
file_name r = r.call_id ++ codes ".call.json"

-- The headers of an upload.
abbrev pub upload : Text → Request → Request
upload key request = record request {
  headers =
      authorize key (set_header (codes "Content-Type") (codes "application/json") request.headers);
}

module _ (o : Outside) where
  -- `LocalWriter.Write`
  unfoldable pub write_local : Text → Record → Fallible (Unit {0})
  write_local root r = do
    check (o.make_dir root)
    data_text ← o.marshal_indent r
    check (o.write_file (o.join root (file_name r)) (data_text ++ 10 ∷ []))

  abbrev pub accepted : Text → Reply → Fallible (Unit {0})
  accepted what reply =
      if is_success reply.status
      then ok tt
      else failure (what ++ codes " callrecord writer status: " ++ format_track_seq reply.status)

  -- The request of `HTTPWriter.Write`.
  unfoldable pub http_request : HttpWriter → Record → Fallible Request
  unfolding set_header authorize
  http_request w r =
      if is_empty w.endpoint
      then failure (codes "http callrecord endpoint is not configured")
      else do
        body ← o.marshal r
        request ← new_request o.net (codes "POST") (trim_slashes w.endpoint) body
        ok (upload w.api_key request)

  -- The request of `S3Writer.Write`.
  unfoldable pub s3_request : S3Writer → Record → Fallible Request
  unfolding set_header authorize
  s3_request w r =
      if is_empty w.endpoint || is_empty w.bucket
      then failure (codes "s3 callrecord writer endpoint or bucket is not configured")
      else do
        body ← o.marshal r
        url ←
            o.object_url (trim_slashes w.endpoint ++ codes "/") w.bucket
              (o.join (trim_both w.prefix) (file_name r))
        request ← new_request o.net (codes "PUT") url body
        ok (upload w.api_key request)

  -- The rest of a `Write` with its request.
  abbrev pub delivered : Text → Option ℤ → Fallible Request → Fallible (Unit {0})
  delivered what timeout built = do
    request ← built
    reply ← o.net.send timeout request
    accepted what reply

  -- `Write` of a writer.
  unfoldable pub write : Writer → Record → Fallible (Unit {0})
  unfolding write_local http_request s3_request
  write (local root) r = write_local root r
  write (http w) r = delivered (codes "http") w.timeout (http_request w r)
  write (s3 w) r = delivered (codes "s3") w.timeout (s3_request w r)
