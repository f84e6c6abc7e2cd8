-- ===== src/Cache/Worker/Entries.antt =====
-- Reading back what was written, and what a write leaves alone.
use nearby_payments_api.Base.{
  ◌≡◌, refl, sym, ap, ◌∙◌, ◌≢◌, inl, inr, true, false, Option, some, [], ◌∷◌, ◌++◌, Text, codes,
  arith, text_eq, Bool-cases, text_eq-false, get_or,
}
use nearby_payments_api.Cache.Paths.Meaning.{IsKind, IsDigest, cache_url}
use nearby_payments_api.Cache.Http.{
  Request, Response, stream, new_response, resolved, Promise-cases,
}
use nearby_payments_api.Cache.Bucket.{R2Bucket, IsConsistent, R2ObjectBody}
use nearby_payments_api.Cache.Worker.{Env, authorized, octet_stream, handle_bazel_cache, fetch}
use nearby_payments_api.Cache.Worker.Routes.{
  entry_key, maven_key, maven, entry, other, route, fetch-maven, fetch-unauthorized, fetch-other,
  fetch-entry, entry-not_maven,
}
use nearby_payments_api.Cache.Worker.Isolation.{fetch-writes, handle_maven-same}

put_tests : (m : Text) → m ≡ codes "PUT" → text_eq m (codes "PUT") ≡ true
unfolding text_eq
put_tests m e = rw e refl

pub get_tests :
    (m : Text)
    → m ≡ codes "GET"
    → (text_eq m (codes "PUT") ≡ false)
      × (text_eq m (codes "GET") ≡ true)
      × (text_eq m (codes "HEAD") ≡ false)
unfolding text_eq
get_tests m e = rw e (refl, refl, refl)

pub head_tests :
    (m : Text)
    → m ≡ codes "HEAD"
    → (text_eq m (codes "PUT") ≡ false)
      × (text_eq m (codes "GET") ≡ false)
      × (text_eq m (codes "HEAD") ≡ true)
unfolding text_eq
head_tests m e = rw e (refl, refl, refl)

maven_key-ne-entry_key : (p kind digest : Text) → IsKind kind → maven_key p ≢ entry_key kind digest
maven_key-ne-entry_key p kind digest (inl k) e =
    absurd (omega (arith, ap (λ t. get_or t 0 0) (e ∙ ap (λ t. entry_key t digest) k)))
maven_key-ne-entry_key p kind digest (inr k) e =
    absurd (omega (arith, ap (λ t. get_or t 0 0) (e ∙ ap (λ t. entry_key t digest) k)))

module _ (r2 : R2Bucket) (laws : IsConsistent r2) where
  open r2 use {Store, Body, put, get, head}

  -- A PUT with a body runs one `put`, and answers 200 if that is resolved.
  handle_put :
      (request : Request Body) (env : Env) (path kind digest : Text) (s : Store) (b : Body)
      (r : Response Body)
      → request.method ≡ codes "PUT"
      → request.body ≡ some b
      → let run = handle_bazel_cache r2 request env (path ∷ kind ∷ digest ∷ []) s in
        run.0 ≡ resolved r
        → (o : _) × ((put (entry_key kind digest) b octet_stream s).0 ≡ resolved o)
          × (run.1 ≡ (put (entry_key kind digest) b octet_stream s).1)
          × (r.status ≡ 200)
  unfolding handle_bazel_cache new_response
  handle_put request env path kind digest s b r is_put has_body ok =
      let tested = put_tests request.method is_put in
      elim (Promise-cases (put (entry_key kind digest) b octet_stream s).0) [
        | inl (o, e) ↦ (o, e, ground (arith, tested), ground (arith, tested))
        | inr e ↦ let no : ⊥ = ground (arith, tested) in absurd no
      ]

  -- A GET that is answered comes from a `get` that is resolved.
  handle_get :
      (request : Request Body) (env : Env) (path kind digest : Text) (s : Store) (r : Response Body)
      → request.method ≡ codes "GET"
      → (handle_bazel_cache r2 request env (path ∷ kind ∷ digest ∷ []) s).0 ≡ resolved r
      → (found : Option (R2ObjectBody Body)) × (get (entry_key kind digest) s ≡ resolved found)
        × ((ob : R2ObjectBody Body)
            → found ≡ some ob
            → (r.status ≡ 200) × (r.body ≡ stream ob.body))
  unfolding handle_bazel_cache new_response
  handle_get request env path kind digest s r is_get ok =
      let tested = get_tests request.method is_get in
      elim (Promise-cases (get (entry_key kind digest) s)) [
        | inl (found, e) ↦ (found, e, λ ob p. ground (arith, tested))
        | inr e ↦ let no : ⊥ = ground (arith, tested) in absurd no
      ]

  handle_bazel-same :
      (request : Request Body) (env : Env) (path kind digest : Text) (s t : Store)
      → request.method ≢ codes "PUT"
      → get (entry_key kind digest) s ≡ get (entry_key kind digest) t
      → (handle_bazel_cache r2 request env (path ∷ kind ∷ digest ∷ []) s).0
        ≡ (handle_bazel_cache r2 request env (path ∷ kind ∷ digest ∷ []) t).0
  unfolding handle_bazel_cache
  handle_bazel-same request env path kind digest s t no_put same =
      let tested = text_eq-false request.method (codes "PUT") no_put in
      ground (
        arith,
        tested,
        laws.head-get (entry_key kind digest) s,
        laws.head-get (entry_key kind digest) t,
      )

  module _ (pathname : Text → Text) (env : Env) where
    after_put :
        (later : Request Body) (s : Store) (kind digest : Text) (b : Body)
        → IsKind kind
        → later.method ≢ codes "PUT"
        → pathname later.url ≢ cache_url kind digest
        → (fetch r2 pathname later env (put (entry_key kind digest) b octet_stream s).1).0
          ≡ (fetch r2 pathname later env s).0
    after_put later s kind digest b k no_put apart =
        let s' = (put (entry_key kind digest) b octet_stream s).1 in
        elim (route (pathname later.url)) [
          | maven p rel u ↦
              ap (λ r. r.0) (fetch-maven r2 pathname later env s' p rel u)
              ∙ (handle_maven-same r2 laws later env p s' s (λ q _.
                    laws.get-put_ne (maven_key q) (entry_key kind digest) b octet_stream s
                      (maven_key-ne-entry_key q kind digest k))
                  ∙ ap (λ r. r.0) (sym (fetch-maven r2 pathname later env s p rel u)))
          | entry kind' digest' k' d' u e ↦ elim (Bool-cases (authorized later env)) [
            | inr no_auth ↦
                ap (λ r. r.0) (fetch-unauthorized r2 pathname later env s' e no_auth)
                ∙ ap (λ r. r.0) (sym (fetch-unauthorized r2 pathname later env s e no_auth))
            | inl auth ↦
                ap (λ r. r.0) (fetch-entry r2 pathname later env s' kind' digest' k' d' u e auth)
                ∙ (handle_bazel-same later env (pathname later.url) kind' digest' s' s no_put (
                      laws.get-put_ne (entry_key kind' digest') (entry_key kind digest) b
                        octet_stream s (λ q. apart (u ∙ ap (λ t. codes "/cache/" ++ t) q)))
                    ∙ ap (λ r. r.0)
                        (sym (fetch-entry r2 pathname later env s kind' digest' k' d' u e auth)))
          ]
          | other e e' ↦ elim (Bool-cases (authorized later env)) [
            | inr no_auth ↦
                ap (λ r. r.0) (fetch-unauthorized r2 pathname later env s' e no_auth)
                ∙ ap (λ r. r.0) (sym (fetch-unauthorized r2 pathname later env s e no_auth))
            | inl auth ↦
                ap (λ r. r.0) (fetch-other r2 pathname later env s' e e' auth)
                ∙ ap (λ r. r.0) (sym (fetch-other r2 pathname later env s e e' auth))
          ]
        ]

    -- What an authorised PUT has stored is what an authorised GET on its path then sends, with
    -- status 200, if the bucket answers both calls.
    pub fetch-put_get :
        (write read : Request Body) (kind digest : Text) (b : Body) (s : Store)
        (answer answer' : Response Body)
        → IsKind kind
        → IsDigest digest
        → pathname write.url ≡ cache_url kind digest
        → pathname read.url ≡ cache_url kind digest
        → authorized write env ≡ true
        → authorized read env ≡ true
        → write.method ≡ codes "PUT"
        → write.body ≡ some b
        → read.method ≡ codes "GET"
        → (fetch r2 pathname write env s).0 ≡ resolved answer
        → (fetch r2 pathname read env (fetch r2 pathname write env s).1).0 ≡ resolved answer'
        → (answer.status ≡ 200) × (answer'.status ≡ 200) × (answer'.body ≡ stream b)
    fetch-put_get write read kind digest b s answer answer' k d u v auth auth' is_put has is_get ok
          ok' =
        let run =
          fetch-entry r2 pathname write env s kind digest k d u (entry-not_maven kind digest _ u)
            auth in
        let (o, stored, after, status) =
          handle_put write env (pathname write.url) kind digest s b answer is_put has
            (ap (λ r. r.0) (sym run) ∙ ok) in
        let s' = (fetch r2 pathname write env s).1 in
        let run' =
          fetch-entry r2 pathname read env s' kind digest k d v (entry-not_maven kind digest _ v)
            auth' in
        let (found, got, sent) =
          handle_get read env (pathname read.url) kind digest s' answer' is_get
            (ap (λ r. r.0) (sym run') ∙ ok') in
        let moved = ap (λ t. get (entry_key kind digest) t) (ap (λ r. r.1) run ∙ after) in
        let (ob, is_ob, same, _) =
          laws.get-put_self (entry_key kind digest) b octet_stream s stored (sym moved ∙ got) in
        let (status', body) = sent ob is_ob in (status, status', body ∙ ap stream same)

    -- A request changes the answer to a later one that is no PUT only if the two have one path.
    pub fetch-frame :
        (first later : Request Body) (s : Store)
        → later.method ≢ codes "PUT"
        → pathname later.url ≢ pathname first.url
        → (fetch r2 pathname later env (fetch r2 pathname first env s).1).0
          ≡ (fetch r2 pathname later env s).0
    fetch-frame first later s no_put apart = elim (fetch-writes r2 pathname first env s) [
      | inl same ↦ ap (λ t. (fetch r2 pathname later env t).0) same
      | inr (kind, digest, k, d, u, auth, (b, is_put, has, wrote)) ↦
          ap (λ t. (fetch r2 pathname later env t).0) wrote
          ∙ after_put later s kind digest b k no_put (λ e. apart (e ∙ sym u))
    ]
