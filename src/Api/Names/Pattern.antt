-- ===== src/Api/Names/Pattern.antt =====
-- leafNameRe of apps/api/internal/domain/names/service.go, over the matcher of Cache.Regex: whether
-- there is a match does not depend on the order of the search.
use nearby_payments_api.Base.{
  ℕ, zero, suc, ◌≤◌, ◌≡◌, refl, ap, ◌∙◌, ◌↔◌, ◌⊎◌, inl, inr, Bool, true, false, ◌&&◌, ◌||◌, none,
  some, List, [], ◌∷◌, ◌++◌, Text, arith, length, leb, ◌==◌, All, Option-cases,
}
use nearby_payments_api.Cache.Regex.{Regex, nothing, one_of, seq, alt, find_captures}
use nearby_payments_api.Cache.Regex.Meaning.{Matches}
use nearby_payments_api.Cache.Regex.Complete.{find_captures_sound, find_captures_complete}

-- [a-z0-9]
unfoldable pub is_alphanumeric : ℕ → Bool
is_alphanumeric c = (leb b'a' c && leb c b'z') || (leb b'0' c && leb c b'9')

-- [a-z0-9\-]
unfoldable pub is_label : ℕ → Bool
is_label c = is_alphanumeric c || c == b'-'

-- `c{0,n}`
unfoldable pub up_to : ℕ → (ℕ → Bool) → Regex
up_to zero c = nothing
up_to (suc n) c = alt (seq (one_of c) (up_to n c)) nothing

-- ^[a-z0-9][a-z0-9\-]{0,61}[a-z0-9]$|^[a-z0-9]$
unfoldable pub leaf_name_re : Regex
leaf_name_re =
    alt (seq (one_of is_alphanumeric) (seq (up_to 61 is_label) (one_of is_alphanumeric)))
      (one_of is_alphanumeric)

-- `leafNameRe.MatchString`
unfoldable pub is_leaf_name : Text → Bool
is_leaf_name s = elim (find_captures leaf_name_re s) [ none ↦ false | some _ ↦ true ]

abbrev pub IsAlphanumeric : ℕ → Type 0
IsAlphanumeric a = ((48 ≤ a) × (a ≤ 57)) ⊎ ((97 ≤ a) × (a ≤ 122))

abbrev pub IsLabelUnit : ℕ → Type 0
IsLabelUnit a = IsAlphanumeric a ⊎ (a ≡ 45)

-- One letter or digit, or two of them around at most 61 letters, digits and hyphens.
abbrev pub IsLeafName : Text → Type 0
IsLeafName s =
    ((a : ℕ) × (s ≡ a ∷ []) × IsAlphanumeric a)
    ⊎ ((a : ℕ) × (m : Text) × (z : ℕ) × (s ≡ a ∷ (m ++ (z ∷ [])))
        × IsAlphanumeric a
        × All IsLabelUnit m
        × (length m ≤ 61)
        × IsAlphanumeric z)

is_alphanumeric_iff : (a : ℕ) → (is_alphanumeric a ≡ true) ↔ IsAlphanumeric a
unfolding is_alphanumeric
is_alphanumeric_iff a = ground arith

is_label_iff : (a : ℕ) → (is_label a ≡ true) ↔ IsLabelUnit a
unfolding is_label is_alphanumeric
is_label_iff a = ground arith

up_to-Matches :
    (n : ℕ) (s : Text) (cs : List Text)
    → Matches (up_to n is_label) s cs
    → All IsLabelUnit s × (length s ≤ n)
unfolding up_to
up_to-Matches zero s cs (e, _) = rw e (tt, omega arith)
up_to-Matches (suc n) s cs (inr (e, _)) = rw e (tt, omega arith)
up_to-Matches (suc n) s cs (inl (s₁, _, s₂, cs₂, e, _, (a, e₁, p, _), m)) =
    let (labels, few) = up_to-Matches n s₂ cs₂ m in
    let whole : s ≡ a ∷ s₂ = e ∙ ap (λ t. t ++ s₂) e₁ in
    rw whole (((is_label_iff a).0 p, labels), omega (arith, few))

up_to_complete :
    (n : ℕ) (s : Text) → All IsLabelUnit s → length s ≤ n → Matches (up_to n is_label) s []
unfolding up_to
up_to_complete zero [] h few = (refl, refl)
up_to_complete zero (a ∷ s) h few = let never : ⊥ = omega (arith, few) in absurd never
up_to_complete (suc n) [] h few = inr (refl, refl)
up_to_complete (suc n) (a ∷ s) (p, h) few = inl (
  a ∷ [],
  [],
  s,
  [],
  refl,
  refl,
  (a, refl, (is_label_iff a).1 p, refl),
  up_to_complete n s h (omega (arith, few)),
)

IsLeafName-sound : (s : Text) (cs : List Text) → Matches leaf_name_re s cs → IsLeafName s
unfolding leaf_name_re
IsLeafName-sound s cs (inr (a, e, p, _)) = inl (a, e, (is_alphanumeric_iff a).0 p)
IsLeafName-sound s cs
      (inl (s₁, _, s₂, _, e, _, (a, e₁, p, _), (m, csₘ, s₃, _, e₂, _, inner, (z, e₃, q, _)))) =
    let (labels, few) = up_to-Matches 61 m csₘ inner in
    let whole : s ≡ a ∷ (m ++ (z ∷ [])) =
      e ∙ (ap (λ t. t ++ s₂) e₁ ∙ (ap (λ t. a ∷ t) e₂ ∙ ap (λ t. a ∷ (m ++ t)) e₃)) in
    inr (a, m, z, whole, (is_alphanumeric_iff a).0 p, labels, few, (is_alphanumeric_iff z).0 q)

leaf_name_complete : (s : Text) → IsLeafName s → Matches leaf_name_re s []
unfolding leaf_name_re
leaf_name_complete s (inl (a, e, p)) = inr (a, e, (is_alphanumeric_iff a).1 p, refl)
leaf_name_complete s (inr (a, m, z, e, p, labels, few, q)) = inl (
  a ∷ [],
  [],
  m ++ (z ∷ []),
  [],
  e,
  refl,
  (a, refl, (is_alphanumeric_iff a).1 p, refl),
  (
    m,
    [],
    z ∷ [],
    [],
    refl,
    refl,
    up_to_complete 61 m labels few,
    (z, refl, (is_alphanumeric_iff z).1 q, refl),
  ),
)

-- The pattern accepts exactly the texts of 1 to 63 lower-case letters, digits and hyphens that neither
-- begin nor end with a hyphen.
pub is_leaf_name_iff : (s : Text) → (is_leaf_name s ≡ true) ↔ IsLeafName s
unfolding is_leaf_name
is_leaf_name_iff s = elim (Option-cases (find_captures leaf_name_re s)) [
  | inr (cs, found) ↦ (
    (λ _. IsLeafName-sound s cs (find_captures_sound leaf_name_re s cs found)),
    (λ _. rw (found, is_leaf_name) refl),
  )
  | inl missing ↦ (
    (λ e. let never : ⊥ = ground (arith, e, missing) in absurd never),
    (λ leaf.
        let (ds, found) = find_captures_complete leaf_name_re s [] (leaf_name_complete s leaf) in
        let never : ⊥ = ground (arith, found, missing) in absurd never),
  )
]
