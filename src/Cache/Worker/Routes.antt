-- ===== src/Cache/Worker/Routes.antt =====
-- Which handler a request reaches, and what the handlers come to.
use nearby_payments_api.Base.{
  ◌≡◌, refl, sym, ap, ◌∙◌, inl, inr, true, false, none, [], ◌∷◌, ◌++◌, Text, codes, arith, get_or,
  Option-cases,
}
use nearby_payments_api.Cache.Regex.{match}
use nearby_payments_api.Cache.Paths.{cache_path, maven_path}
use nearby_payments_api.Cache.Paths.Meaning.{
  IsKind, IsDigest, IsRelative, cache_url, maven_url, match-cache_path_iff, match-maven_path_iff,
}
use nearby_payments_api.Cache.Http.{Request, resolved}
use nearby_payments_api.Cache.Bucket.{R2Bucket}
use nearby_payments_api.Cache.Worker.{
  Env, text, authorized, handle_bazel_cache, handle_maven_repository, fetch,
}

-- The key of a cache entry in the bucket, and that of a Maven file.
abbrev pub entry_key : Text → Text → Text
entry_key kind digest = kind ++ (codes "/" ++ digest)

abbrev pub maven_key : Text → Text
maven_key p = codes "maven/" ++ p

-- The three kinds of path.
pub data Route (path : Text) : Type 0 where
  maven : (p : Text) → IsRelative p → path ≡ maven_url p → Route path
  entry :
      (kind digest : Text)
      → IsKind kind
      → IsDigest digest
      → path ≡ cache_url kind digest
      → match maven_path path ≡ none
      → Route path
  other : match maven_path path ≡ none → match cache_path path ≡ none → Route path

pub route : (path : Text) → Route path
route path = elim (Option-cases (match maven_path path)) [
  | inr (gs, e) ↦ let (p, rel, u, _) = (match-maven_path_iff path gs).0 e in maven p rel u
  | inl no_maven ↦ elim (Option-cases (match cache_path path)) [
    | inr (gs, e) ↦
        let (kind, digest, k, d, u, _) = (match-cache_path_iff path gs).0 e in
        entry kind digest k d u no_maven
    | inl no_entry ↦ other no_maven no_entry
  ]
]

module _ (r2 : R2Bucket) (pathname : Text → Text) (request : Request r2.Body) (env : Env)
    (s : r2.Store) where
  pub fetch-maven :
      (p : Text)
      → IsRelative p
      → pathname request.url ≡ maven_url p
      → fetch r2 pathname request env s ≡ handle_maven_repository r2 request env p s
  unfolding fetch
  fetch-maven p rel u =
      let found = (match-maven_path_iff (pathname request.url) _).1 (p, rel, u, refl) in
      rw (found, fetch) refl

  pub fetch-unauthorized :
      match maven_path (pathname request.url) ≡ none
      → authorized request env ≡ false
      → fetch r2 pathname request env s ≡ (resolved (text 401 (codes "Unauthorized")), s)
  unfolding fetch
  fetch-unauthorized e a = rw (e, fetch, a) refl

  pub fetch-other :
      match maven_path (pathname request.url) ≡ none
      → match cache_path (pathname request.url) ≡ none
      → authorized request env ≡ true
      → fetch r2 pathname request env s ≡ (resolved (text 404 (codes "Not Found")), s)
  unfolding fetch
  fetch-other e e' a = rw (e, fetch, a, e') refl

  pub fetch-entry :
      (kind digest : Text)
      → IsKind kind
      → IsDigest digest
      → pathname request.url ≡ cache_url kind digest
      → match maven_path (pathname request.url) ≡ none
      → authorized request env ≡ true
      → fetch r2 pathname request env s
        ≡ handle_bazel_cache r2 request env (pathname request.url ∷ kind ∷ digest ∷ []) s
  unfolding fetch
  fetch-entry kind digest k d u e a =
      let found = (match-cache_path_iff (pathname request.url) _).1 (kind, digest, k, d, u, refl) in
      rw (e, fetch, a, found) refl

-- The path of an entry is no Maven path.
pub entry-not_maven :
    (kind digest path : Text) → path ≡ cache_url kind digest → match maven_path path ≡ none
entry-not_maven kind digest path u = elim (Option-cases (match maven_path path)) [
  | inl e ↦ e
  | inr (gs, e) ↦
      let (p, _, v, _) = (match-maven_path_iff path gs).0 e in
      absurd (omega (arith, ap (λ t. get_or t 1 0) (sym u ∙ v)))
]
