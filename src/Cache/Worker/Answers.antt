-- ===== src/Cache/Worker/Answers.antt =====
-- The answers of the worker: HEAD against GET, the status codes, and that there is an answer.
use nearby_payments_api.Base.{
  ℕ, ◌≡◌, refl, ◌≢◌, ◌⊎◌, inl, inr, ◌↔◌, true, false, none, some, List, ◌++◌, Text, codes, arith,
  text_eq, Option-cases, Bool-cases, text_eq_iff,
}
use nearby_payments_api.Cache.Regex.{match}
use nearby_payments_api.Cache.Paths.{cache_path, maven_path}
use nearby_payments_api.Cache.Http.{
  Request, Response, null, string, stream, new_response, Promise, resolved, rejected,
}
use nearby_payments_api.Cache.Bucket.{R2Bucket, IsConsistent}
use nearby_payments_api.Cache.Worker.{
  Env, text, includes, group_text, authorized, octet_stream, handle_bazel_cache,
  handle_maven_repository, fetch,
}
use nearby_payments_api.Cache.Worker.Routes.{
  maven_key, maven, entry, other, route, fetch-maven, fetch-unauthorized, fetch-other, fetch-entry,
}

-- A response without the object that it streams.
abbrev pub drop_stream : {Body : Type 0} → Response Body → Response Body
drop_stream r = record r {
  body = elim r.body [ null ↦ null | string t ↦ string t | stream _ ↦ null ];
}

abbrev pub map_promise : {A B : Type 0} → (A → B) → Promise A → Promise B
map_promise f (resolved a) = resolved (f a)
map_promise f rejected = rejected

abbrev pub with_method : {Body : Type 0} → Request Body → Text → Request Body
with_method request m = record request { method = m }

module _ (r2 : R2Bucket) (laws : IsConsistent r2) where
  open r2 use {Store, Body, put, get, head}

  handle_bazel-head :
      (request : Request Body) (env : Env) (gs : List Text) (s : Store)
      → (handle_bazel_cache r2 (with_method request (codes "HEAD")) env gs s).0
        ≡ map_promise drop_stream
            (handle_bazel_cache r2 (with_method request (codes "GET")) env gs s).0
  unfolding handle_bazel_cache text_eq new_response text
  handle_bazel-head request env gs s =
      ground (arith, laws.head-get (group_text gs 1 ++ (codes "/" ++ group_text gs 2)) s)

  handle_maven-head :
      (request : Request Body) (env : Env) (p : Text) (s : Store)
      → (handle_maven_repository r2 (with_method request (codes "HEAD")) env p s).0
        ≡ map_promise drop_stream
            (handle_maven_repository r2 (with_method request (codes "GET")) env p s).0
  unfolding handle_maven_repository text_eq new_response text
  handle_maven-head request env p s = ground (arith, laws.head-get (maven_key p) s)

  module _ (pathname : Text → Text) where
    -- HEAD answers as GET does at the same moment, with the same status and headers, and without
    -- the object; on a failure of the bucket both fail.
    pub fetch-head :
        (request : Request Body) (env : Env) (s : Store)
        → (fetch r2 pathname (with_method request (codes "HEAD")) env s).0
          ≡ map_promise drop_stream (fetch r2 pathname (with_method request (codes "GET")) env s).0
    unfolding fetch text new_response authorized
    fetch-head request env s = elim (Option-cases (match maven_path (pathname request.url))) [
      | inr (gs, e) ↦ ground (arith, handle_maven-head request env (group_text gs 1) s)
      | inl e ↦ elim (Option-cases (match cache_path (pathname request.url))) [
        | inr (gs, e') ↦ ground (arith, handle_bazel-head request env gs s)
        | inl e' ↦ ground arith
      ]
    ]

module _ (r2 : R2Bucket) where
  open r2 use {Store, Body, put, get, head}

  handle_maven-status :
      (request : Request Body) (env : Env) (p : Text) (s : Store) (r : Response Body)
      → (handle_maven_repository r2 request env p s).0 ≡ resolved r
      → (r.status ≢ 401)
        × ((r.status ≡ 405) ↔ ((request.method ≢ codes "GET") × (request.method ≢ codes "HEAD")))
        × ((r.status ≡ 400) ↔ (
            ((request.method ≡ codes "GET") ⊎ (request.method ≡ codes "HEAD"))
            × (includes p (codes "..") ≡ true)))
  unfolding handle_maven_repository new_response text
  handle_maven-status request env p s r ok =
      ground
        (arith, text_eq_iff request.method (codes "GET"), text_eq_iff request.method (codes "HEAD"))

  handle_bazel-status :
      (request : Request Body) (env : Env) (gs : List Text) (s : Store) (r : Response Body)
      → (handle_bazel_cache r2 request env gs s).0 ≡ resolved r
      → (r.status ≢ 401)
        × ((r.status ≡ 405) ↔ (
            (request.method ≢ codes "PUT")
            × (request.method ≢ codes "GET")
            × (request.method ≢ codes "HEAD")))
        × ((r.status ≡ 400) ↔ ((request.method ≡ codes "PUT") × (request.body ≡ none)))
  unfolding handle_bazel_cache new_response text
  handle_bazel-status request env gs s r ok = ground (
    arith,
    text_eq_iff request.method (codes "PUT"),
    text_eq_iff request.method (codes "GET"),
    text_eq_iff request.method (codes "HEAD"),
  )

  module _ (pathname : Text → Text) (request : Request Body) (env : Env) where
    -- The path is no Maven path, and the token is not given.
    abbrev pub IsUnauthorized : Type 0
    IsUnauthorized =
        (match maven_path (pathname request.url) ≡ none) × (authorized request env ≡ false)

    -- A method other than GET and HEAD on a Maven path, or another than PUT, GET and HEAD on the path
    -- of a cache entry, with the token.
    abbrev pub IsNotAllowed : Type 0
    IsNotAllowed =
        ((match maven_path (pathname request.url) ≢ none)
          × (request.method ≢ codes "GET")
          × (request.method ≢ codes "HEAD"))
        ⊎ ((match maven_path (pathname request.url) ≡ none)
            × (match cache_path (pathname request.url) ≢ none)
            × (authorized request env ≡ true)
            × (request.method ≢ codes "PUT")
            × (request.method ≢ codes "GET")
            × (request.method ≢ codes "HEAD"))

    -- A GET or HEAD of a Maven path that holds "..", or an authorised PUT of a cache entry without a
    -- body.
    abbrev pub IsBadRequest : Type 0
    IsBadRequest =
        ((gs : List Text) × (match maven_path (pathname request.url) ≡ some gs)
          × ((request.method ≡ codes "GET") ⊎ (request.method ≡ codes "HEAD"))
          × (includes (group_text gs 1) (codes "..") ≡ true))
        ⊎ ((match maven_path (pathname request.url) ≡ none)
            × (match cache_path (pathname request.url) ≢ none)
            × (authorized request env ≡ true)
            × (request.method ≡ codes "PUT")
            × (request.body ≡ none))

  module _ (pathname : Text → Text) (request : Request Body) (env : Env) (s : Store)
      (r : Response Body) (ok : (fetch r2 pathname request env s).0 ≡ resolved r) where
    fetch-unauthorized_iff : (r.status ≡ 401) ↔ IsUnauthorized pathname request env
    unfolding fetch text new_response
    fetch-unauthorized_iff = elim (Option-cases (match maven_path (pathname request.url))) [
      | inr (gs, e) ↦ ground (arith, handle_maven-status request env (group_text gs 1) s r)
      | inl e ↦ elim (Option-cases (match cache_path (pathname request.url))) [
        | inr (gs, e') ↦ ground (arith, handle_bazel-status request env gs s r)
        | inl e' ↦ ground arith
      ]
    ]

    fetch-not_allowed_iff : (r.status ≡ 405) ↔ IsNotAllowed pathname request env
    unfolding fetch text new_response
    fetch-not_allowed_iff = elim (Option-cases (match maven_path (pathname request.url))) [
      | inr (gs, e) ↦ ground (arith, handle_maven-status request env (group_text gs 1) s r)
      | inl e ↦ elim (Option-cases (match cache_path (pathname request.url))) [
        | inr (gs, e') ↦ ground (arith, handle_bazel-status request env gs s r)
        | inl e' ↦ ground arith
      ]
    ]

    fetch-bad_request_iff : (r.status ≡ 400) ↔ IsBadRequest pathname request env
    unfolding fetch text new_response
    fetch-bad_request_iff = elim (Option-cases (match maven_path (pathname request.url))) [
      | inr (gs, e) ↦ ground (arith, handle_maven-status request env (group_text gs 1) s r)
      | inl e ↦ elim (Option-cases (match cache_path (pathname request.url))) [
        | inr (gs, e') ↦ ground (arith, handle_bazel-status request env gs s r)
        | inl e' ↦ ground arith
      ]
    ]

  -- The bucket answers every call.
  pub record IsUp (s : Store) : Type 0 where
    pub gets : (k : Text) → get k s ≢ rejected
    pub heads : (k : Text) → head k s ≢ rejected
    pub puts : (k : Text) (b : Body) → (put k b octet_stream s).0 ≢ rejected

  -- A status that the worker uses.
  abbrev pub IsStatus : ℕ → Type 0
  IsStatus n = (n ≡ 200) ⊎ ((n ≡ 400) ⊎ ((n ≡ 401) ⊎ ((n ≡ 404) ⊎ (n ≡ 405))))

  abbrev Answered : Promise (Response Body) → Type 0
  Answered p = (r : Response Body) × (p ≡ resolved r) × IsStatus r.status

  answered :
      (p : Promise (Response Body))
      → p ≢ rejected
      → ((r : Response Body) → p ≡ resolved r → IsStatus r.status)
      → Answered p
  answered (resolved r) up h = (r, refl, h r refl)
  answered rejected up h = absurd (up refl)

  refused : (n : ℕ) (t : Text) → IsStatus n → Answered (resolved (text n t))
  unfolding text new_response
  refused n t h = (_, refl, h)

  handle_maven-answers :
      (request : Request Body) (env : Env) (p : Text) (s : Store)
      → IsUp s
      → Answered (handle_maven_repository r2 request env p s).0
  unfolding handle_maven_repository new_response text
  handle_maven-answers request env p s up =
      answered _ (ground (arith, up.gets (maven_key p), up.heads (maven_key p)))
        (λ r ok. ground arith)

  handle_bazel-answers :
      (request : Request Body) (env : Env) (gs : List Text) (s : Store)
      → IsUp s
      → Answered (handle_bazel_cache r2 request env gs s).0
  unfolding handle_bazel_cache new_response text
  handle_bazel-answers request env gs s up =
      let key = group_text gs 1 ++ (codes "/" ++ group_text gs 2) in
      elim (Option-cases request.body) [
        | inl e ↦ answered _ (ground (arith, up.gets key, up.heads key)) (λ r ok. ground arith)
        | inr (b, e) ↦
            answered _ (ground (arith, up.gets key, up.heads key, up.puts key b))
              (λ r ok. ground arith)
      ]

  fetch-resolved :
      (pathname : Text → Text) (request : Request Body) (env : Env) (s : Store)
      → IsUp s
      → (r : Response Body) × ((fetch r2 pathname request env s).0 ≡ resolved r) × IsStatus r.status
  fetch-resolved pathname request env s up = elim (route (pathname request.url)) [
    | maven p rel u ↦
        rw (fetch-maven r2 pathname request env s p rel u) (handle_maven-answers request env p s up)
    | entry kind digest k d u e ↦ elim (Bool-cases (authorized request env)) [
      | inr no_auth ↦
          rw (fetch-unauthorized r2 pathname request env s e no_auth) (refused 401 _ (ground arith))
      | inl auth ↦
          rw (fetch-entry r2 pathname request env s kind digest k d u e auth)
            (handle_bazel-answers request env _ s up)
    ]
    | other e e' ↦ elim (Bool-cases (authorized request env)) [
      | inr no_auth ↦
          rw (fetch-unauthorized r2 pathname request env s e no_auth) (refused 401 _ (ground arith))
      | inl auth ↦
          rw (fetch-other r2 pathname request env s e e' auth) (refused 404 _ (ground arith))
    ]
  ]

  -- Where the bucket answers, every request is answered, with status 200, 400, 401, 404 or 405: 401
  -- exactly where the path is no Maven path and the token is not given; 405 exactly for a method other
  -- than GET and HEAD on a Maven path, and for one other than PUT, GET and HEAD on the path of a cache
  -- entry, with the token; 400 exactly for a GET or HEAD of a Maven path that holds "..", and for an
  -- authorised PUT of a cache entry without a body.
  pub fetch-answers :
      (pathname : Text → Text) (request : Request Body) (env : Env) (s : Store)
      → IsUp s
      → (r : Response Body) × ((fetch r2 pathname request env s).0 ≡ resolved r)
        × IsStatus r.status
        × ((r.status ≡ 401) ↔ IsUnauthorized pathname request env)
        × ((r.status ≡ 405) ↔ IsNotAllowed pathname request env)
        × ((r.status ≡ 400) ↔ IsBadRequest pathname request env)
  fetch-answers pathname request env s up =
      let (r, ok, known) = fetch-resolved pathname request env s up in
      (
        r,
        ok,
        known,
        fetch-unauthorized_iff pathname request env s r ok,
        fetch-not_allowed_iff pathname request env s r ok,
        fetch-bad_request_iff pathname request env s r ok,
      )
