-- ===== src/Api/Rows.antt =====
-- A table as the list of its rows: SELECT and UPDATE by a key.
pub mod Unique
use nearby_payments_api.Base.{
  ◌≡◌, refl, ◌≢◌, inl, inr, Bool, Option, none, some, List, [], ◌∷◌, Text, arith, text_eq,
  text_eq_iff, if◌then◌else◌, Bool-cases,
}

abbrev pub find {ℓ} : {A : Type ℓ} → (A → Bool) → List A → Option A
find p [] = none
find p (a ∷ l) = if p a then some a else find p l

abbrev pub map_some {ℓ κ} : {A : Type ℓ} {B : Type κ} → (A → B) → Option A → Option B
map_some f none = none
map_some f (some a) = some (f a)

module _ {ℓ} {A : Type ℓ} (key : A → Text) where
  abbrev pub keyed : Text → A → Bool
  keyed k a = text_eq (key a) k

  -- UPDATE … WHERE key
  unfoldable pub update : Text → (A → A) → List A → List A
  update k f [] = []
  update k f (a ∷ l) = (if text_eq (key a) k then f a else a) ∷ update k f l

  pub find_sound : (k : Text) (l : List A) (a : A) → find (keyed k) l ≡ some a → key a ≡ k
  find_sound k [] a e = cc
  find_sound k (b ∷ l) a e = ground (arith, text_eq_iff (key b) k, find_sound k l a)

  module _ (f : A → A) (keeps : (a : A) → key (f a) ≡ key a) where
    pub find-update_self :
        (k : Text) (l : List A) → find (keyed k) (update k f l) ≡ map_some f (find (keyed k) l)
    unfolding update
    find-update_self k [] = refl
    find-update_self k (a ∷ l) = elim (Bool-cases (text_eq (key a) k)) [
      | inl e ↦ rw (e, keeps a, e) refl
      | inr e ↦ rw (e, e) (find-update_self k l)
    ]

    pub find-update-ne :
        (k j : Text) (l : List A) → j ≢ k → find (keyed j) (update k f l) ≡ find (keyed j) l
    unfolding update
    find-update-ne k j [] h = refl
    find-update-ne k j (a ∷ l) h =
        ground
          (arith, text_eq_iff (key a) k, text_eq_iff (key a) j, keeps a, find-update-ne k j l h)

    pub find-update-none :
        (k j : Text) (l : List A) → find (keyed j) l ≡ none → find (keyed j) (update k f l) ≡ none
    unfolding update
    find-update-none k j [] h = refl
    find-update-none k j (a ∷ l) h = ground (arith, keeps a, find-update-none k j l)

-- UPDATE … WHERE, by any condition.
unfoldable pub update_where : {A : Type 0} → (A → Bool) → (A → A) → List A → List A
update_where p f [] = []
update_where p f (a ∷ l) = (if p a then f a else a) ∷ update_where p f l

-- A condition that the update keeps finds the row that it found before, as the update leaves it.
pub find-update_where :
    {A : Type 0} (p : A → Bool) (f : A → A) (q : A → Bool)
    → ((a : A) → q (f a) ≡ q a)
    → (l : List A) → find q (update_where p f l) ≡ map_some (λ a. if p a then f a else a) (find q l)
unfolding update_where
find-update_where p f q keeps [] = refl
find-update_where p f q keeps (a ∷ l) = elim (Bool-cases (p a)) [
  | inl e ↦ elim (Bool-cases (q a)) [
    | inl e' ↦ rw (e, keeps a, e', e) refl
    | inr e' ↦ rw (e, keeps a, e') (find-update_where p f q keeps l)
  ]
  | inr e ↦ elim (Bool-cases (q a)) [
    | inl e' ↦ rw (e, e', e) refl
    | inr e' ↦ rw (e, e') (find-update_where p f q keeps l)
  ]
]
