-- ===== src/Cache/Paths/Meaning.antt =====
-- The paths that the two patterns accept, spelt out.
use nearby_payments_api.Base.{
  ℕ, ◌≤◌, ◌≡◌, refl, sym, ap, ap₂, ◌∙◌, ◌≢◌, ◌↔◌, ◌⊎◌, inl, inr, true, some, List, [], ◌∷◌, ◌++◌,
  Text, codes, arith, All, length, get_or, ==_iff, Option-cases,
}
use nearby_payments_api.Cache.Regex.{Regex, literal, alt, find_captures, match}
use nearby_payments_api.Cache.Regex.Meaning.{Matches}
use nearby_payments_api.Cache.Regex.Complete.{find_captures_sound, find_captures_complete}
use nearby_payments_api.Cache.Paths.{is_lower_hex, is_dot, cache_path, maven_path}

-- The two kinds of entry: action results and content.
abbrev pub IsKind : Text → Type 0
IsKind kind = (kind ≡ codes "ac") ⊎ (kind ≡ codes "cas")

abbrev pub IsLowerHex : ℕ → Type 0
IsLowerHex a = ((48 ≤ a) × (a ≤ 57)) ⊎ ((97 ≤ a) × (a ≤ 102))

-- 256 bits in hexadecimal.
abbrev pub IsDigest : Text → Type 0
IsDigest d = (length d ≡ 64) × All IsLowerHex d

abbrev pub IsNoTerminator : ℕ → Type 0
IsNoTerminator a = (a ≢ 10) × (a ≢ 13) × (a ≢ 8232) × (a ≢ 8233)

abbrev pub IsRelative : Text → Type 0
IsRelative p = (p ≢ []) × All IsNoTerminator p

abbrev pub cache_url : Text → Text → Text
cache_url kind digest = codes "/cache/" ++ (kind ++ (codes "/" ++ digest))

abbrev pub maven_url : Text → Text
maven_url p = codes "/maven/" ++ p

literal-Matches : (t s : Text) (cs : List Text) → Matches (literal t) s cs → (s ≡ t) × (cs ≡ [])
unfolding literal
literal-Matches [] s cs m = m
literal-Matches (b ∷ t) s cs (s₁, cs₁, s₂, cs₂, p, q, (a, e, eq, n), m) =
    let (same, none_left) = literal-Matches t s₂ cs₂ m in
    let code_eq : b ≡ a = (==_iff b a).0 eq in
    (rw (p, e, same, code_eq) refl, rw (q, n, none_left) refl)

literal_refl : (t : Text) → Matches (literal t) t []
unfolding literal
literal_refl [] = (refl, refl)
literal_refl (b ∷ t) =
    (b ∷ [], [], t, [], refl, refl, (b, refl, (==_iff b b).1 refl, refl), literal_refl t)

All-iff {ℓ κ} :
    {P : ℕ → Type ℓ} {Q : ℕ → Type κ} (s : Text) → ((a : ℕ) → P a → Q a) → All P s → All Q s
All-iff [] k h = tt
All-iff (a ∷ s) k (p, h) = (k a p, All-iff s k h)

is_lower_hex_iff : (a : ℕ) → (is_lower_hex a ≡ true) ↔ IsLowerHex a
unfolding is_lower_hex
is_lower_hex_iff a = ground arith

is_dot_iff : (a : ℕ) → (is_dot a ≡ true) ↔ IsNoTerminator a
unfolding is_dot
is_dot_iff a = ground arith

-- What the two captures of the cache pattern are.
abbrev pub IsEntry : Text → List Text → Type 0
IsEntry s cs =
    (kind : Text) × (digest : Text) × IsKind kind
    × IsDigest digest
    × (s ≡ cache_url kind digest)
    × (cs ≡ kind ∷ digest ∷ [])

moved :
    (k k' d d' : Text) {a b : Text}
    → k ≡ a
    → k' ≡ b
    → cache_url k d ≡ cache_url k' d'
    → cache_url a d ≡ cache_url b d'
moved k k' d d' p p' e = ap (λ t. cache_url t d) (sym p) ∙ (e ∙ ap (λ t. cache_url t d') p')

-- A path under `/cache` is of one kind and names one digest.
pub cache_url_inj :
    (k k' d d' : Text)
    → IsKind k
    → IsKind k'
    → cache_url k d ≡ cache_url k' d'
    → (k ≡ k') × (d ≡ d')
cache_url_inj k k' d d' (inl p) (inl p') e =
    let e' : cache_url (codes "ac") d ≡ cache_url (codes "ac") d' = moved k k' d d' p p' e in
    (p ∙ sym p', cc)
cache_url_inj k k' d d' (inl p) (inr p') e =
    let e' : cache_url (codes "ac") d ≡ cache_url (codes "cas") d' = moved k k' d d' p p' e in
    absurd (omega (arith, ap (λ t. get_or t 7 0) e'))
cache_url_inj k k' d d' (inr p) (inl p') e =
    let e' : cache_url (codes "cas") d ≡ cache_url (codes "ac") d' = moved k k' d d' p p' e in
    absurd (omega (arith, ap (λ t. get_or t 7 0) e'))
cache_url_inj k k' d d' (inr p) (inr p') e =
    let e' : cache_url (codes "cas") d ≡ cache_url (codes "cas") d' = moved k k' d d' p p' e in
    (p ∙ sym p', cc)

IsKind-Matches :
    (s : Text) (cs : List Text)
    → Matches (alt (literal (codes "ac")) (literal (codes "cas"))) s cs
    → IsKind s × (cs ≡ [])
IsKind-Matches s cs (inl m) = let (p, q) = literal-Matches (codes "ac") s cs m in (inl p, q)
IsKind-Matches s cs (inr m) = let (p, q) = literal-Matches (codes "cas") s cs m in (inr p, q)

IsKind-matched :
    (s : Text) → IsKind s → Matches (alt (literal (codes "ac")) (literal (codes "cas"))) s []
IsKind-matched s (inl p) = inl (rw p (literal_refl (codes "ac")))
IsKind-matched s (inr p) = inr (rw p (literal_refl (codes "cas")))

cache_path-Matches : (s : Text) (cs : List Text) → Matches cache_path s cs → IsEntry s cs
unfolding cache_path
cache_path-Matches s cs
      (s₁, cs₁, s₂, cs₂, p, q, m₁, (k, ks, s₃, cs₃, p', q', (ds, kq, km), later)) =
    let (s₄, cs₄, d, es, p'', q'', m₄, (fs, dq, (n, hex, none_left))) = later in
    let (a₁, b₁) = literal-Matches (codes "/cache/") s₁ cs₁ m₁ in
    let (kind, b₂) = IsKind-Matches k ds km in
    let (a₄, b₄) = literal-Matches (codes "/") s₄ cs₄ m₄ in
    (
      k,
      d,
      kind,
      (n, All-iff d (λ a. (is_lower_hex_iff a).0) hex),
      p ∙ (ap₂ ◌++◌ a₁ (p' ∙ ap (λ t. k ++ t) (p'' ∙ ap (λ t. t ++ d) a₄))),
      rw (q, b₁, q', kq, b₂, q'', b₄, dq, none_left) refl,
    )

cache_path-of_IsEntry : (s : Text) (cs : List Text) → IsEntry s cs → Matches cache_path s cs
unfolding cache_path
cache_path-of_IsEntry s cs (kind, digest, k, (n, hex), p, q) = (
  codes "/cache/",
  [],
  kind ++ (codes "/" ++ digest),
  kind ∷ digest ∷ [],
  p,
  q,
  literal_refl (codes "/cache/"),
  (
    kind,
    kind ∷ [],
    codes "/" ++ digest,
    digest ∷ [],
    refl,
    refl,
    ([], refl, IsKind-matched kind k),
    (
      codes "/",
      [],
      digest,
      digest ∷ [],
      refl,
      refl,
      literal_refl (codes "/"),
      ([], refl, (n, All-iff digest (λ a. (is_lower_hex_iff a).1) hex, refl)),
    ),
  ),
)

maven_path-Matches :
    (s : Text) (cs : List Text)
    → Matches maven_path s cs
    → (p : Text) × IsRelative p × (s ≡ maven_url p) × (cs ≡ p ∷ [])
unfolding maven_path
maven_path-Matches s cs (s₁, cs₁, t, cs₂, p, q, m₁, (ds, kq, (n, dots, none_left))) =
    let (a₁, b₁) = literal-Matches (codes "/maven/") s₁ cs₁ m₁ in
    (
      t,
      (n, All-iff t (λ a. (is_dot_iff a).0) dots),
      p ∙ ap (λ u. u ++ t) a₁,
      rw (q, b₁, kq, none_left) refl,
    )

maven_path-of_IsRelative : (p : Text) → IsRelative p → Matches maven_path (maven_url p) (p ∷ [])
unfolding maven_path
maven_path-of_IsRelative p (n, dots) = (
  codes "/maven/",
  [],
  p,
  p ∷ [],
  refl,
  refl,
  literal_refl (codes "/maven/"),
  ([], refl, (n, All-iff p (λ a. (is_dot_iff a).1) dots, refl)),
)

IsEntry-unique : (s : Text) (cs ds : List Text) → IsEntry s cs → IsEntry s ds → cs ≡ ds
IsEntry-unique s cs ds (k, d, kind, _, p, q) (k', d', kind', _, p', q') =
    let (same_k, same_d) = cache_url_inj k k' d d' kind kind' (sym p ∙ p') in
    rw (q, q', same_k, same_d) refl

captures-cache_path_iff :
    (s : Text) (cs : List Text) → (find_captures cache_path s ≡ some cs) ↔ IsEntry s cs
captures-cache_path_iff s cs = (
  λ e. cache_path-Matches s cs (find_captures_sound cache_path s cs e),
  λ m.
      let (ds, e) = find_captures_complete cache_path s cs (cache_path-of_IsEntry s cs m) in
      let found = cache_path-Matches s ds (find_captures_sound cache_path s ds e) in
      e ∙ ap some (IsEntry-unique s ds cs found m),
)

captures-maven_path_iff :
    (s : Text) (cs : List Text)
    → (find_captures maven_path s ≡ some cs)
      ↔ ((p : Text) × IsRelative p × (s ≡ maven_url p) × (cs ≡ p ∷ []))
captures-maven_path_iff s cs = (
  λ e. maven_path-Matches s cs (find_captures_sound maven_path s cs e),
  λ m.
      let (p, rel, e, q) = m in
      let (ds, found) =
        find_captures_complete maven_path (maven_url p) (p ∷ []) (maven_path-of_IsRelative p rel) in
      let (p', _, e', q') =
        maven_path-Matches (maven_url p) ds
          (find_captures_sound maven_path (maven_url p) ds found) in
      let same : p ≡ p' = cc in rw (e, q) (found ∙ ap some (q' ∙ ap (λ t. t ∷ []) (sym same))),
)

match_iff :
    (r : Regex) (s : Text) (gs : List Text)
    → (match r s ≡ some gs) ↔ ((cs : List Text) × (find_captures r s ≡ some cs) × (gs ≡ s ∷ cs))
unfolding match
match_iff r s gs = (
  λ e. elim (Option-cases (find_captures r s)) [
    | inl missing ↦ ground arith
    | inr (cs, found) ↦ (cs, found, ground arith)
  ],
  λ m. let (cs, found, same) = m in rw (found, match, same) refl,
)

-- Of CACHE_PATH: a path matches it exactly if it is "/cache/", a kind "ac" or "cas", "/" and a
-- digest of 64 lower-case hexadecimal digits; the groups are then the path, the kind and the digest.
pub match-cache_path_iff :
    (s : Text) (gs : List Text)
    → (match cache_path s ≡ some gs) ↔ (
        (kind : Text) × (digest : Text) × IsKind kind
        × IsDigest digest
        × (s ≡ cache_url kind digest)
        × (gs ≡ s ∷ kind ∷ digest ∷ []))
match-cache_path_iff s gs = (
  λ e.
      let (cs, found, same) = (match_iff cache_path s gs).0 e in
      let (kind, digest, k, d, p, q) = (captures-cache_path_iff s cs).0 found in
      (kind, digest, k, d, p, same ∙ ap (λ t. s ∷ t) q),
  λ m.
      let (kind, digest, k, d, p, q) = m in
      (match_iff cache_path s gs).1 (
        kind ∷ digest ∷ [],
        (captures-cache_path_iff s (kind ∷ digest ∷ [])).1 (kind, digest, k, d, p, refl),
        q,
      ),
)

-- A path matches the Maven pattern exactly if it is "/maven/" and one or more code units none of
-- which ends a line; the groups are then the path and those code units.
pub match-maven_path_iff :
    (s : Text) (gs : List Text)
    → (match maven_path s ≡ some gs)
      ↔ ((p : Text) × IsRelative p × (s ≡ maven_url p) × (gs ≡ s ∷ p ∷ []))
match-maven_path_iff s gs = (
  λ e.
      let (cs, found, same) = (match_iff maven_path s gs).0 e in
      let (p, rel, u, q) = (captures-maven_path_iff s cs).0 found in
      (p, rel, u, same ∙ ap (λ t. s ∷ t) q),
  λ m.
      let (p, rel, u, q) = m in
      (match_iff maven_path s gs).1
        (p ∷ [], (captures-maven_path_iff s (p ∷ [])).1 (p, rel, u, refl), q),
)

-- A path matches the cache pattern exactly if it is "/cache/", a kind "ac" or "cas", "/" and a digest of
-- 64 lower-case hexadecimal digits, and the groups are then the path, the kind and the digest; it matches
-- the Maven pattern exactly if it is "/maven/" and one or more code units none of which ends a line, and
-- the groups are then the path and those code units.
pub match-paths_iff :
    (s : Text) (gs : List Text)
    → ((match cache_path s ≡ some gs) ↔ (
        (kind : Text) × (digest : Text) × IsKind kind
        × IsDigest digest
        × (s ≡ cache_url kind digest)
        × (gs ≡ s ∷ kind ∷ digest ∷ [])))
      × ((match maven_path s ≡ some gs)
          ↔ ((p : Text) × IsRelative p × (s ≡ maven_url p) × (gs ≡ s ∷ p ∷ [])))
match-paths_iff s gs = (match-cache_path_iff s gs, match-maven_path_iff s gs)
