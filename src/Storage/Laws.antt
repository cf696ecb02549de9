-- ===== src/Storage/Laws.antt =====
-- outbound/storage: what has happened where a writer reports no error.
use gopbx.Prelude.{
  ◌≡◌, refl, ℤ, Bool, true, false, ◌||◌, [], ◌∷◌, ◌++◌, Option, none, some, Text, codes, is_empty,
  text_eq, if◌then◌else◌, Fallible, ok, failure, ◌>>=◌, ◌>>◌, check,
}
use gopbx.Call.Serve.{Record}
use gopbx.Gateway.Http.{
  Request, Reply, get_header, set_header, del_header, authorize, built, is_success,
}
use gopbx.Sdk.Client.{trim_slashes}
use gopbx.Storage.Writers.{
  Writer, local, http, s3, HttpWriter, S3Writer, Outside, file_name, trim_both, upload, accepted,
  http_request, s3_request, delivered, write, write_local,
}

abbrev auth : Text
auth = codes "Authorization"

abbrev content_type : Text
content_type = codes "Content-Type"

-- An upload of a record: its method, its body, and its headers.
pub record Uploads (o : Outside) (method : Text) (key : Text) (r : Record) (q : Request)
    : Type 0 where
  pub by_method : q.method ≡ method
  pub body : o.marshal r ≡ ok q.body
  pub kind : get_header content_type q.headers ≡ codes "application/json"
  pub authorized : get_header auth q.headers ≡ (if is_empty key then [] else codes "Bearer " ++ key)

-- A request that was answered with a status from 200 to 299.
pub record Accepted (o : Outside) (timeout : Option ℤ) (q : Request) : Type 0 where
  pub reply : Reply
  pub answered : o.net.send timeout q ≡ ok reply
  pub success : is_success reply.status ≡ true

module _ (o : Outside) where
  abbrev pub Delivers : Writer → Record → Type 0
  Delivers (local root) r =
      (o.make_dir root ≡ none)
      × (t : Text) × (o.marshal_indent r ≡ ok t)
      × (o.write_file (o.join root (file_name r)) (t ++ 10 ∷ []) ≡ none)
  Delivers (http w) r =
      (q : Request) × Uploads o (codes "POST") w.api_key r q
      × (q.url ≡ trim_slashes w.endpoint)
      × Accepted o w.timeout q
  Delivers (s3 w) r =
      (q : Request) × Uploads o (codes "PUT") w.api_key r q
      × (o.object_url (trim_slashes w.endpoint ++ codes "/") w.bucket
            (o.join (trim_both w.prefix) (file_name r))
          ≡ ok q.url)
      × Accepted o w.timeout q

  check-none : (e : Option Text) → check e ≡ ok tt → e ≡ none
  check-none none h = refl
  check-none (some m) h = cc

  write_local-Delivers :
      (root : Text) (r : Record) (made : Option Text) (marshalled : Fallible Text)
      → o.make_dir root ≡ made
      → o.marshal_indent r ≡ marshalled
      → (check made
          >> (marshalled >>= λ t. check (o.write_file (o.join root (file_name r)) (t ++ 10 ∷ []))))
        ≡ ok tt
      → Delivers (local root) r
  write_local-Delivers root r (some m) marshalled e f h = cc
  write_local-Delivers root r none (failure m) e f h = cc
  write_local-Delivers root r none (ok t) e f h = (e, t, f, check-none _ h)

  if_ok : (b : Bool) (m : Text) → (if b then ok (tt {0}) else failure m) ≡ ok tt → b ≡ true
  if_ok true m h = refl
  if_ok false m h = cc

  replied-Accepted :
      (what : Text) (timeout : Option ℤ) (q : Request) (reply : Fallible Reply)
      → o.net.send timeout q ≡ reply
      → (reply >>= accepted o what) ≡ ok tt
      → Accepted o timeout q
  replied-Accepted what timeout q (failure m) e h = cc
  replied-Accepted what timeout q (ok u) e h = record {
    reply = u;
    answered = e;
    success = if_ok (is_success u.status) _ h;
  }

  upload-Uploads :
      (method url key body : Text) (r : Record)
      → o.marshal r ≡ ok body
      → Uploads o method key r
          (upload key (record { method = method; url = url; headers = []; body = body }))
  unfolding authorize get_header set_header del_header text_eq
  upload-Uploads method url [] body r e = record {
    by_method = refl;
    body = e;
    kind = refl;
    authorized = refl;
  }
  upload-Uploads method url (c ∷ key) body r e = record {
    by_method = refl;
    body = e;
    kind = refl;
    authorized = refl;
  }

  http-Delivers :
      (w : HttpWriter) (r : Record) (empty : Bool) (marshalled : Fallible Text) (bad : Option Text)
      → o.marshal r ≡ marshalled
      → delivered o (codes "http") w.timeout (
          if empty
          then failure (codes "http callrecord endpoint is not configured")
          else (marshalled >>= λ body.
              built bad (record {
                method = codes "POST";
                url = trim_slashes w.endpoint;
                headers = [];
                body = body;
              })
              >>= λ q. ok (upload w.api_key q)))
        ≡ ok tt
      → Delivers (http w) r
  http-Delivers w r true marshalled bad e h = cc
  http-Delivers w r false (failure m) bad e h = cc
  http-Delivers w r false (ok body) (some m) e h = cc
  http-Delivers w r false (ok body) none e h = (
    _,
    upload-Uploads (codes "POST") (trim_slashes w.endpoint) w.api_key body r e,
    refl,
    replied-Accepted (codes "http") w.timeout _ _ refl h,
  )

  s3-Delivers :
      (w : S3Writer) (r : Record) (empty : Bool) (marshalled url : Fallible Text)
      (bad : Text → Option Text)
      → o.marshal r ≡ marshalled
      → o.object_url
          (trim_slashes w.endpoint ++ codes "/")
          w.bucket
          (o.join (trim_both w.prefix) (file_name r))
        ≡ url
      → delivered o (codes "s3") w.timeout (
          if empty
          then failure (codes "s3 callrecord writer endpoint or bucket is not configured")
          else (marshalled >>= λ body. url >>= λ u.
              built (bad u) (record { method = codes "PUT"; url = u; headers = []; body = body })
              >>= λ q. ok (upload w.api_key q)))
        ≡ ok tt
      → Delivers (s3 w) r
  s3-Delivers w r true marshalled url bad e f h = cc
  s3-Delivers w r false (failure m) url bad e f h = cc
  s3-Delivers w r false (ok body) (failure m) bad e f h = cc
  s3-Delivers w r false (ok body) (ok u) bad e f h = s3-built (bad u) h
    where
      s3-built :
          (none_or : Option Text)
          → delivered o (codes "s3") w.timeout (
              built none_or (record { method = codes "PUT"; url = u; headers = []; body = body })
              >>= λ q. ok (upload w.api_key q))
            ≡ ok tt
          → Delivers (s3 w) r
      s3-built (some m) g = cc
      s3-built none g = (
        _,
        upload-Uploads (codes "PUT") u w.api_key body r e,
        f,
        replied-Accepted (codes "s3") w.timeout _ _ refl g,
      )

  pub write-Delivers : (w : Writer) (r : Record) → write o w r ≡ ok tt → Delivers w r
  unfolding write http_request s3_request write_local
  write-Delivers (local root) r h =
      write_local-Delivers root r (o.make_dir root) (o.marshal_indent r) refl refl h
  write-Delivers (http w) r h =
      http-Delivers w r (is_empty w.endpoint) (o.marshal r)
        (o.net.url_error (trim_slashes w.endpoint)) refl h
  write-Delivers (s3 w) r h =
      s3-Delivers w r (is_empty w.endpoint || is_empty w.bucket) (o.marshal r) _ o.net.url_error
        refl refl h
