-- ===== src/Cache/Worker/Isolation.antt =====
-- What a request can write, and what the answer to it can depend on.
use nearby_payments_api.Base.{
  ◌≡◌, sym, ap, ◌∙◌, ◌⊎◌, inl, inr, true, false, some, [], ◌∷◌, Text, codes, arith, text_eq,
  Option-cases, Bool-cases, eq_of_text_eq,
}
use nearby_payments_api.Cache.Paths.Meaning.{IsKind, IsDigest, cache_url}
use nearby_payments_api.Cache.Http.{Request}
use nearby_payments_api.Cache.Bucket.{R2Bucket, IsConsistent}
use nearby_payments_api.Cache.Worker.{
  Env, includes, authorized, octet_stream, handle_bazel_cache, handle_maven_repository, fetch,
}
use nearby_payments_api.Cache.Worker.Routes.{
  entry_key, maven_key, maven, entry, other, route, fetch-maven, fetch-unauthorized, fetch-other,
  fetch-entry,
}

module _ (r2 : R2Bucket) where
  open r2 use {Store, Body, put, get, head}

  handle_maven-store :
      (request : Request Body) (env : Env) (p : Text) (s : Store)
      → (handle_maven_repository r2 request env p s).1 ≡ s
  unfolding handle_maven_repository
  handle_maven-store request env p s = ground arith

  -- What an authorised PUT of an entry leaves in the bucket.
  abbrev pub WroteEntry : Request Body → Store → Text → Store → Type 0
  WroteEntry request s key s' =
      (b : Body) × (request.method ≡ codes "PUT")
      × (request.body ≡ some b)
      × (s' ≡ (put key b octet_stream s).1)

  handle_bazel-store :
      (request : Request Body) (env : Env) (path kind digest : Text) (s : Store)
      → let s' = (handle_bazel_cache r2 request env (path ∷ kind ∷ digest ∷ []) s).1 in
        (s' ≡ s) ⊎ WroteEntry request s (entry_key kind digest) s'
  unfolding handle_bazel_cache
  handle_bazel-store request env path kind digest s =
      elim (Bool-cases (text_eq request.method (codes "PUT"))) [
        | inl is_put ↦ elim (Option-cases request.body) [
          | inl missing ↦ inl (ground arith)
          | inr (b, e) ↦ inr (b, eq_of_text_eq _ _ is_put, e, ground arith)
        ]
        | inr no_put ↦ inl (ground arith)
      ]

  -- Two states of the bucket hold the same Maven files, under the keys without "..".
  abbrev pub SameMaven : Store → Store → Type 0
  SameMaven s t =
      (p : Text) → includes p (codes "..") ≡ false → get (maven_key p) s ≡ get (maven_key p) t

  module _ (laws : IsConsistent r2) where
    pub handle_maven-same :
        (request : Request Body) (env : Env) (p : Text) (s t : Store)
        → SameMaven s t
        → (handle_maven_repository r2 request env p s).0
          ≡ (handle_maven_repository r2 request env p t).0
    unfolding handle_maven_repository
    handle_maven-same request env p s t same = elim (Bool-cases (includes p (codes ".."))) [
      | inl dots ↦ ground arith
      | inr plain ↦
          ground (arith, same p plain, laws.head-get (maven_key p) s, laws.head-get (maven_key p) t)
    ]

  module _ (pathname : Text → Text) where
    -- A request either leaves the bucket as it is, or it is an authorised PUT with a body on the
    -- path of a cache entry, and the bucket is that after one put of the body under the entry's
    -- key.
    pub fetch-writes :
        (request : Request Body) (env : Env) (s : Store)
        → let s' = (fetch r2 pathname request env s).1 in
          (s' ≡ s)
          ⊎ ((kind : Text) × (digest : Text) × IsKind kind
              × IsDigest digest
              × (pathname request.url ≡ cache_url kind digest)
              × (authorized request env ≡ true)
              × WroteEntry request s (entry_key kind digest) s')
    fetch-writes request env s = elim (route (pathname request.url)) [
      | maven p rel u ↦ inl (
          ap (λ r. r.1) (fetch-maven r2 pathname request env s p rel u)
          ∙ handle_maven-store request env p s)
      | entry kind digest k d u e ↦ elim (Bool-cases (authorized request env)) [
        | inr no_auth ↦ inl (ap (λ r. r.1) (fetch-unauthorized r2 pathname request env s e no_auth))
        | inl auth ↦
            let run = fetch-entry r2 pathname request env s kind digest k d u e auth in
            rw run (elim (handle_bazel-store request env (pathname request.url) kind digest s) [
              | inl same ↦ inl same
              | inr wrote ↦ inr (kind, digest, k, d, u, auth, wrote)
            ])
      ]
      | other e e' ↦ elim (Bool-cases (authorized request env)) [
        | inr no_auth ↦ inl (ap (λ r. r.1) (fetch-unauthorized r2 pathname request env s e no_auth))
        | inl auth ↦ inl (ap (λ r. r.1) (fetch-other r2 pathname request env s e e' auth))
      ]
    ]

    -- The answer to a request without the token depends on nothing but the Maven files whose path
    -- holds no "..": it is the same in any two states of the bucket that agree on those.
    pub fetch-public :
        (laws : IsConsistent r2) (request : Request Body) (env : Env) (s t : Store)
        → authorized request env ≡ false
        → SameMaven s t
        → (fetch r2 pathname request env s).0 ≡ (fetch r2 pathname request env t).0
    fetch-public laws request env s t no_auth same = elim (route (pathname request.url)) [
      | maven p rel u ↦
          ap (λ r. r.0) (fetch-maven r2 pathname request env s p rel u)
          ∙ (handle_maven-same laws request env p s t same
              ∙ ap (λ r. r.0) (sym (fetch-maven r2 pathname request env t p rel u)))
      | entry kind digest k d u e ↦
          ap (λ r. r.0) (fetch-unauthorized r2 pathname request env s e no_auth)
          ∙ ap (λ r. r.0) (sym (fetch-unauthorized r2 pathname request env t e no_auth))
      | other e e' ↦
          ap (λ r. r.0) (fetch-unauthorized r2 pathname request env s e no_auth)
          ∙ ap (λ r. r.0) (sym (fetch-unauthorized r2 pathname request env t e no_auth))
    ]
