-- ===== src/Cache/Worker/Tests.antt =====
-- The worker over a bucket in memory: runs on concrete requests, and an instance of each theorem.
use nearby_payments_api.Base.{
  ℕ, ◌≡◌, refl, sym, ap, get_or, ◌≢◌, ◌⊎◌, inl, ◌↔◌, true, Option, none, some, [], ◌∷◌, Text, codes,
  arith, text_eq, text_eq_refl, text_eq-false, if◌then◌else◌, length,
}
use nearby_payments_api.Cache.Regex.{literal, ways, find_captures, match}
use nearby_payments_api.Cache.Paths.{is_lower_hex, is_dot, cache_path, maven_path}
use nearby_payments_api.Cache.Paths.Meaning.{
  IsKind, IsDigest, IsRelative, cache_url, maven_url, match-paths_iff,
}
use nearby_payments_api.Cache.Http.{
  Headers, get_header, set_header, get_header-set_header, Request, Response, null, stream,
  new_response, Promise, resolved, rejected,
}
use nearby_payments_api.Cache.Http.Decimal.{to_decimal}
use nearby_payments_api.Cache.Bucket.{
  R2HttpMetadata, R2Object, R2ObjectBody, R2Bucket, IsConsistent, map_found,
}
use nearby_payments_api.Cache.Worker.{
  Env, text, includes, cache_object_headers, authorized, octet_stream, maven_object_headers, falsy,
  handle_bazel_cache, handle_maven_repository, fetch,
}
use nearby_payments_api.Cache.Worker.Routes.{entry_key}
use nearby_payments_api.Cache.Worker.Isolation.{fetch-writes, fetch-public, SameMaven, WroteEntry}
use nearby_payments_api.Cache.Worker.Entries.{fetch-put_get, fetch-frame}
use nearby_payments_api.Cache.Worker.Metadata.{Describes, object_headers_lem}
use nearby_payments_api.Cache.Worker.Answers.{
  IsUnauthorized, IsNotAllowed, IsBadRequest, fetch-answers, IsUp, IsStatus,
}

-- A bucket in memory. A body is the text itself, and the tag is the empty text.
abbrev Files : Type 0
Files = Text → Option (R2ObjectBody Text)

abbrev object_of : Text → Text → R2HttpMetadata → R2Object
object_of k v m = record { key = k; size = length v; http_etag = []; http_metadata = m }

abbrev stored_at : Text → R2ObjectBody Text → Files → Files
stored_at k o files j = if text_eq k j then some o else files j

abbrev memory : R2Bucket
memory = record {
  Store = Files;
  Body = Text;
  put = λ k v m files. (
    resolved (object_of k v m),
    stored_at k (record { object = object_of k v m; body = v }) files,
  );
  get = λ k files. resolved (files k);
  head = λ k files. map_found (resolved (files k));
  write_http_metadata = λ o h. elim o.http_metadata.content_type [
    | none ↦ h
    | some t ↦ set_header (codes "content-type") t h
  ];
}

memory-IsConsistent : IsConsistent memory
memory-IsConsistent = record {
  get-put_self = λ k v m s stored got.
      (record { object = object_of k v m; body = v }, ground (arith, text_eq_refl k), refl, refl);
  get-put_ne = λ j k v m s apart. rw (text_eq-false k j (λ e. apart (sym e)));
  head-get = λ k s. refl;
  write-content_type =
      λ o h t e. rw (e, get_header-set_header, text_eq_refl (codes "content-type"));
}

worker : Unit {0}
unfolding fetch handle_bazel_cache handle_maven_repository cache_object_headers maven_object_headers
    authorized text includes match find_captures ways literal cache_path maven_path is_lower_hex
    is_dot get_header set_header new_response to_decimal text_eq
worker = tt

-- The URL parser, where the URL is a path alone.
abbrev path_of : Text → Text
path_of url = url

abbrev env : Env
env = record { bazel_cache_token = codes "s3cret" }

abbrev with_token : Headers
with_token = (codes "authorization", codes "Bearer s3cret") ∷ []

abbrev digest : Text
digest = codes "0123456789abcdef0123456789abcdef0123456789abcdef0123456789abcdef"

abbrev ac_url : Text
ac_url = codes "/cache/ac/0123456789abcdef0123456789abcdef0123456789abcdef0123456789abcdef"

abbrev ask : Text → Text → Headers → Option Text → Request Text
ask method url headers body = record { method = method; url = url; headers = headers; body = body }

abbrev upload : Request Text
upload = ask (codes "PUT") ac_url with_token (some (codes "result"))

abbrev download : Request Text
download = ask (codes "GET") ac_url with_token none

abbrev empty : Files
empty k = none

abbrev jar : Request Text
jar = ask (codes "GET") (codes "/maven/org/a.jar") [] none

abbrev jar_key : Text
jar_key = codes "maven/org/a.jar"

abbrev jar_object : R2ObjectBody Text
jar_object = record {
  object = object_of jar_key (codes "bytes") octet_stream;
  body = codes "bytes";
}

abbrev published : Files
published = stored_at jar_key jar_object empty

run : Request Text → Files → Promise (Response Text)
run request files = (fetch memory path_of request env files).0

abbrev status_of : Promise (Response Text) → ℕ
status_of rejected = 0
status_of (resolved r) = r.status

statuses :
    (status_of (run upload empty) ≡ 200)
    × (status_of (run download empty) ≡ 404)
    × (status_of (run jar published) ≡ 200)
    × (status_of (run (ask (codes "POST") (codes "/maven/org/a.jar") [] none) published) ≡ 405)
    × (status_of (run (ask (codes "GET") (codes "/maven/../a.jar") [] none) published) ≡ 400)
    × (status_of (run (ask (codes "GET") ac_url [] none) published) ≡ 401)
    × (status_of (run (ask (codes "PUT") ac_url with_token none) published) ≡ 400)
    × (status_of (run (ask (codes "GET") (codes "/cache/ac/12") with_token none) published) ≡ 404)
unfolding worker run
statuses = (refl, refl, refl, refl, refl, refl, refl, refl)

hex_digits : IsDigest digest
hex_digits = (refl, ground arith)

ac_IsKind : IsKind (codes "ac")
ac_IsKind = inl refl

fetch-writes_example :
    let s' = (fetch memory path_of upload env empty).1 in
    (s' ≡ empty)
    ⊎ ((kind : Text) × (d : Text) × IsKind kind
        × IsDigest d
        × (ac_url ≡ cache_url kind d)
        × (authorized upload env ≡ true)
        × WroteEntry memory upload empty (entry_key kind d) s')
fetch-writes_example = fetch-writes memory path_of upload env empty

-- An entry has been stored besides the Maven file.
abbrev with_entry : Files
with_entry =
    stored_at (codes "ac/1")
      (record { object = object_of (codes "ac/1") [] octet_stream; body = [] }) published

with_entry-SameMaven : SameMaven memory with_entry published
unfolding text_eq
with_entry-SameMaven p plain = refl

fetch-public_example : run jar with_entry ≡ run jar published
unfolding worker run
fetch-public_example =
    fetch-public memory path_of memory-IsConsistent jar env with_entry published refl
      with_entry-SameMaven

fetch-put_get_example :
    (◌≡◌ {A = ℕ} 200 200)
    × (◌≡◌ {A = ℕ} 200 200)
    × (stream (codes "result") ≡ stream (codes "result"))
unfolding worker
fetch-put_get_example =
    fetch-put_get memory memory-IsConsistent path_of env upload download (codes "ac") digest
      (codes "result") empty (new_response null 200 [])
      (new_response (stream (codes "result")) 200 (
        cache_object_headers
          (object_of (entry_key (codes "ac") digest) (codes "result") octet_stream)))
      ac_IsKind hex_digits refl refl refl refl refl refl refl refl refl

fetch-frame_example : run jar (fetch memory path_of upload env published).1 ≡ run jar published
unfolding worker run
fetch-frame_example =
    fetch-frame memory memory-IsConsistent path_of env upload jar published
      (λ e. absurd (omega (arith, ap (λ t. get_or t 0 0) e)))
      (λ e. absurd (omega (arith, ap (λ t. get_or t 1 0) e)))

abbrev stranger : Request Text
stranger = ask (codes "GET") ac_url [] none

found-ne-rejected : (o : Option (R2ObjectBody Text)) → map_found (resolved o) ≢ rejected
found-ne-rejected none e = cc
found-ne-rejected (some o) e = cc

memory-IsUp : IsUp memory published
memory-IsUp = record {
  gets = λ k e. ground arith;
  heads = λ k e. found-ne-rejected (published k) e;
  puts = λ k b e. ground arith;
}

fetch-answers_example :
    (r : Response Text) × ((fetch memory path_of jar env published).0 ≡ resolved r)
    × IsStatus memory r.status
    × ((r.status ≡ 401) ↔ IsUnauthorized memory path_of jar env)
    × ((r.status ≡ 405) ↔ IsNotAllowed memory path_of jar env)
    × ((r.status ≡ 400) ↔ IsBadRequest memory path_of jar env)
fetch-answers_example = fetch-answers memory path_of jar env published memory-IsUp

match-paths_iff_example :
    ((match cache_path ac_url ≡ some (ac_url ∷ codes "ac" ∷ digest ∷ [])) ↔ (
      (kind : Text) × (d : Text) × IsKind kind
      × IsDigest d
      × (ac_url ≡ cache_url kind d)
      × (ac_url ∷ codes "ac" ∷ digest ∷ [] ≡ ac_url ∷ kind ∷ d ∷ [])))
    × ((match maven_path ac_url ≡ some (ac_url ∷ codes "ac" ∷ digest ∷ [])) ↔ (
        (p : Text) × IsRelative p
        × (ac_url ≡ maven_url p)
        × (ac_url ∷ codes "ac" ∷ digest ∷ [] ≡ ac_url ∷ p ∷ [])))
match-paths_iff_example = match-paths_iff ac_url (ac_url ∷ codes "ac" ∷ digest ∷ [])

object_headers_lem_example :
    Describes jar_object.object (cache_object_headers jar_object.object)
    × Describes jar_object.object (maven_object_headers memory jar_object.object)
    × (get_header (codes "cache-control") (cache_object_headers jar_object.object)
        ≡ some (codes "private, max-age=31536000, immutable"))
    × (get_header (codes "cache-control") (maven_object_headers memory jar_object.object)
        ≡ some (codes "public, max-age=300"))
    × (get_header (codes "content-type") (maven_object_headers memory jar_object.object) ≡ (
        if falsy
          (get_header (codes "content-type") (memory.write_http_metadata jar_object.object []))
        then some (codes "text/plain")
        else get_header (codes "content-type") (memory.write_http_metadata jar_object.object [])))
object_headers_lem_example = object_headers_lem memory jar_object.object
