-- ===== src/Cache/Worker.antt =====
-- The handlers of tools/remote-cache/src/index.ts, statement by statement. The bucket, the URL
-- parser and the secret are parameters; the bucket's state is passed along explicitly.
pub mod Answers
pub mod Entries
pub mod Isolation
pub mod Metadata
pub mod Routes
mod Tests
use nearby_payments_api.Base.{
  ℕ, Bool, true, false, not, ◌&&◌, ◌||◌, Option, none, some, List, [], ◌∷◌, ◌++◌, Text, codes,
  text_eq, ◌==◌, get_or, if◌then◌else◌,
}
use nearby_payments_api.Cache.Regex.{match}
use nearby_payments_api.Cache.Paths.{cache_path, maven_path}
use nearby_payments_api.Cache.Http.{
  Headers, get_header, set_header, Request, Response, BodyInit, null, string, stream, new_response,
  Promise, resolved, Async, pure, ◌>>=◌, reading,
}
use nearby_payments_api.Cache.Http.Decimal.{to_decimal}
use nearby_payments_api.Cache.Bucket.{R2Bucket, R2Object, R2HttpMetadata, R2ObjectBody}

-- `s.includes(t)`
begins : Text → Text → Bool
begins s [] = true
begins [] (b ∷ t) = false
begins (a ∷ s) (b ∷ t) = a == b && begins s t

unfoldable pub includes : Text → Text → Bool
unfolding begins
includes [] t = begins [] t
includes (a ∷ s) t = begins (a ∷ s) t || includes s t

-- `${match[i]}`: a missing capture reads "undefined".
abbrev pub group_text : List Text → ℕ → Text
group_text groups i = get_or groups i (codes "undefined")

-- The second member of `Env`; the first is the bucket.
pub record Env : Type 0 where
  pub bazel_cache_token : Text

module _ {Body : Type 0} where
  unfoldable pub text : ℕ → Text → Response Body
  text status body = new_response (string body) status []

unfoldable pub cache_object_headers : R2Object → Headers
cache_object_headers object =
    (codes "content-type", codes "application/octet-stream")
    ∷ (codes "content-length", to_decimal object.size)
    ∷ (codes "etag", object.http_etag)
    ∷ (codes "cache-control", codes "private, max-age=31536000, immutable")
    ∷ []

-- `!value` on the result of `headers.get`
abbrev pub falsy : Option Text → Bool
falsy none = true
falsy (some []) = true
falsy (some (_ ∷ _)) = false

unfoldable pub authorized : {Body : Type 0} → Request Body → Env → Bool
authorized request env = elim (get_header (codes "authorization") request.headers) [
  | none ↦ false
  | some auth ↦ text_eq auth (codes "Bearer " ++ env.bazel_cache_token)
]

-- `{ contentType: "application/octet-stream" }`
abbrev pub octet_stream : R2HttpMetadata
octet_stream = record {
  content_type = some (codes "application/octet-stream");
  content_language = none;
  content_disposition = none;
  content_encoding = none;
  cache_control = none;
  cache_expiry = none;
}

module _ (r2 : R2Bucket) where
  open r2 use {Store, Body, put, get, head, write_http_metadata}

  unfoldable pub maven_object_headers : R2Object → Headers
  maven_object_headers object =
      let written = write_http_metadata object [] in
      let sized = set_header (codes "content-length") (to_decimal object.size) written in
      let tagged = set_header (codes "etag") object.http_etag sized in
      let cached = set_header (codes "cache-control") (codes "public, max-age=300") tagged in
      if falsy (get_header (codes "content-type") cached)
      then set_header (codes "content-type") (codes "text/plain") cached
      else cached

  -- `new Response(object.body, { status: 200, headers })`
  abbrev send : (R2Object → Headers) → Option (R2ObjectBody Body) → Response Body
  send headers none = text 404 (codes "Not Found")
  send headers (some o) = new_response (stream o.body) 200 (headers o.object)

  -- `new Response(null, { status: 200, headers })`
  abbrev send_head : (R2Object → Headers) → Option R2Object → Response Body
  send_head headers none = text 404 (codes "Not Found")
  send_head headers (some o) = new_response null 200 (headers o)

  put_body : Text → Option Body → Async Store (Response Body)
  put_body key none = pure (text 400 (codes "Missing request body"))
  put_body key (some body) = do _ ← put key body octet_stream; pure (new_response null 200 [])

  unfoldable pub handle_bazel_cache : Request Body → Env → List Text → Async Store (Response Body)
  unfolding put_body
  handle_bazel_cache request env groups =
      let key = group_text groups 1 ++ (codes "/" ++ group_text groups 2) in
      if text_eq request.method (codes "PUT")
      then put_body key request.body
      else if text_eq request.method (codes "GET")
      then (do object ← reading (get key); pure (send cache_object_headers object))
      else if text_eq request.method (codes "HEAD")
      then (do object ← reading (head key); pure (send_head cache_object_headers object))
      else pure (text 405 (codes "Method Not Allowed"))

  unfoldable pub handle_maven_repository : Request Body → Env → Text → Async Store (Response Body)
  handle_maven_repository request env relative_path =
      if not (text_eq request.method (codes "GET")) && not (text_eq request.method (codes "HEAD"))
      then pure (text 405 (codes "Method Not Allowed"))
      else if includes relative_path (codes "..")
      then pure (text 400 (codes "Invalid Maven path"))
      else let key = codes "maven/" ++ relative_path in
        if text_eq request.method (codes "HEAD")
        then (do object ← reading (head key); pure (send_head maven_object_headers object))
        else (do object ← reading (get key); pure (send maven_object_headers object))

  -- `pathname` is the URL parser: `new URL(url).pathname`.
  module _ (pathname : Text → Text) where
    unfoldable pub fetch : Request Body → Env → Async Store (Response Body)
    fetch request env =
        let path = pathname request.url in
        elim (match maven_path path) [
          | some groups ↦ handle_maven_repository request env (group_text groups 1)
          | none ↦
              if not (authorized request env)
              then pure (text 401 (codes "Unauthorized"))
              else elim (match cache_path path) [
                | some groups ↦ handle_bazel_cache request env groups
                | none ↦ pure (text 404 (codes "Not Found"))
              ]
        ]
