-- ===== src/Api/Rows/Unique.antt =====
-- Columns without duplicates, under updates of the row with a given id.
use nearby_payments_api.Base.{
  ◌≡◌, refl, sym, ap, ◌∙◌, ◌≢◌, inl, inr, Bool, true, false, not, ◌&&◌, Option, none, some, List,
  [], ◌∷◌, Text, arith, text_eq, text_eq_iff, text_eq_refl, text_eq-false, if◌then◌else◌,
  Bool-cases,
}
use nearby_payments_api.Api.Rows.{find, map_some, keyed, update, update_where, find-update_where}

-- No two rows have one value in the column.
abbrev pub Unique {ℓ} : {A : Type ℓ} → (A → Text) → List A → Type ℓ
Unique key [] = Unit
Unique key (a ∷ l) = (find (keyed key (key a)) l ≡ none) × Unique key l

none-some {ℓ} : {A : Type ℓ} {a : A} → Path (Option A) none (some a) → ⊥
none-some e = cc

some-inj {ℓ} : {A : Type ℓ} {a b : A} → some a ≡ some b → a ≡ b
some-inj e = cc

-- A row that one condition finds is found by its own value in the column.
pub find-keyed :
    {A : Type 0} (key : A → Text) (p : A → Bool) (l : List A) (a : A)
    → Unique key l
    → find p l ≡ some a
    → find (keyed key (key a)) l ≡ some a
find-keyed key p [] a h e = absurd (none-some e)
find-keyed key p (b ∷ l) a (fresh, h) e = elim (Bool-cases (p b)) [
  | inl here ↦
      let same : b ≡ a = ground (arith) in
      ap (λ x. find (keyed key (key x)) (b ∷ l)) (sym same)
      ∙ (rw (text_eq_refl (key b)) (ap some same))
  | inr later ↦
      let found : find p l ≡ some a = ground arith in
      let ih = find-keyed key p l a h found in
      elim (Bool-cases (text_eq (key b) (key a))) [
        | inr apart ↦ rw apart ih
        | inl same ↦
            let same' = (text_eq_iff (key b) (key a)).0 same in
            absurd (none-some (sym (ap (λ t. find (keyed key t) l) (sym same') ∙ fresh) ∙ ih))
      ]
]

module _ {A : Type 0} (id : A → Text) (k : Text) (f : A → A) where
  update-where : (l : List A) → update id k f l ≡ update_where (keyed id k) f l
  unfolding update update_where
  update-where [] = refl
  update-where (a ∷ l) = ap (λ t. (if keyed id k a then f a else a) ∷ t) (update-where l)

  -- A condition that the update keeps finds the row that it found before.
  pub find-update_by :
      (q : A → Bool)
      → ((a : A) → q (f a) ≡ q a)
      → (l : List A)
      → find q (update id k f l) ≡ map_some (λ a. if keyed id k a then f a else a) (find q l)
  find-update_by q keeps l =
      ap (find q) (update-where l) ∙ find-update_where (keyed id k) f q keeps l

  -- A column that the update does not touch stays without duplicates.
  pub update-Unique :
      (key : A → Text)
      → ((a : A) → key (f a) ≡ key a)
      → (l : List A) → Unique key l
      → Unique key (update id k f l)
  unfolding update
  update-Unique key keeps [] h = tt
  update-Unique key keeps (a ∷ l) (fresh, h) =
      let gone : (t : Text) → t ≡ key a → find (keyed key t) (update id k f l) ≡ none = λ t e.
        find-update_by (keyed key t) (λ b. ap (λ s. text_eq s t) (keeps b)) l
        ∙ ap (map_some (λ b. if keyed id k b then f b else b))
            (ap (λ s. find (keyed key s) l) e ∙ fresh) in
      let rest = update-Unique key keeps l h in
      elim (Bool-cases (text_eq (id a) k)) [
        | inl e ↦ rw e (gone (key (f a)) (keeps a), rest)
        | inr e ↦ rw e (gone (key a) refl, rest)
      ]

  module _ (key : A → Text) (value : Text) (sets : (a : A) → key (f a) ≡ value) where
    -- Another row than that with the id has the value.
    abbrev other_with : A → Bool
    other_with b = text_eq (key b) value && not (text_eq (id b) k)

    -- After the update the row is found by its new value.
    pub find-update_new :
        (l : List A) (a : A)
        → find (keyed id k) l ≡ some a
        → find other_with l ≡ none
        → find (keyed key value) (update id k f l) ≡ some (f a)
    unfolding update
    find-update_new [] a e h = absurd (none-some e)
    find-update_new (b ∷ l) a e h = elim (Bool-cases (text_eq (id b) k)) [
      | inl here ↦
          let same : b ≡ a = ground arith in
          rw (here, sets b, text_eq_refl value) (ap (λ x. some (f x)) same)
      | inr later ↦
          let apart : text_eq (key b) value ≡ false = ground arith in
          rw (later, apart) (find-update_new l a (ground arith) (ground arith))
    ]

    -- A value that no row has, and that is not the new one, no row has afterwards.
    pub find-update_absent :
        (l : List A) (old : Text)
        → value ≢ old
        → find (keyed key old) l ≡ none
        → find (keyed key old) (update id k f l) ≡ none
    unfolding update
    find-update_absent [] old n h = refl
    find-update_absent (b ∷ l) old n h =
        let no = text_eq-false value old n in
        elim (Bool-cases (text_eq (id b) k)) [
          | inl e ↦ rw (e, sets b, no) (find-update_absent l old n (ground arith))
          | inr e ↦
              let apart : text_eq (key b) old ≡ false = ground arith in
              rw (e, apart) (find-update_absent l old n (ground arith))
        ]

    -- The value that the row had no row has afterwards.
    pub find-update_old :
        (l : List A) (a : A) (old : Text)
        → value ≢ old
        → Unique key l
        → find (keyed key old) l ≡ some a
        → id a ≡ k
        → find (keyed key old) (update id k f l) ≡ none
    unfolding update
    find-update_old [] a old n h e i = absurd (none-some e)
    find-update_old (b ∷ l) a old n (fresh, h) e i =
        let no = text_eq-false value old n in
        elim (Bool-cases (text_eq (key b) old)) [
          | inl here ↦
              let same : b ≡ a = ground arith in
              let mine : text_eq (id b) k ≡ true =
                ap (λ x. text_eq (id x) k) same ∙ (text_eq_iff (id a) k).1 i in
              let had : find (keyed key old) l ≡ none =
                ap (λ t. find (keyed key t) l) (sym ((text_eq_iff (key b) old).0 here)) ∙ fresh in
              rw (mine, sets b, no) (find-update_absent l old n had)
          | inr later ↦
              let rest = find-update_old l a old n h (ground arith) i in
              elim (Bool-cases (text_eq (id b) k)) [
                | inl e' ↦ rw (e', sets b, no) rest
                | inr e' ↦ rw (e', later) rest
              ]
        ]

    absent-update : (l : List A) → find (keyed id k) l ≡ none → update id k f l ≡ l
    unfolding update
    absent-update [] h = refl
    absent-update (b ∷ l) h =
        let no : text_eq (id b) k ≡ false = ground arith in
        rw no (ap (λ t. b ∷ t) (absent-update l (ground arith)))

    no_value :
        (l : List A)
        → find (keyed id k) l ≡ none
        → find other_with l ≡ none
        → find (keyed key value) l ≡ none
    no_value [] h h' = refl
    no_value (b ∷ l) h h' =
        let no : text_eq (id b) k ≡ false = ground arith in
        let apart : text_eq (key b) value ≡ false = ground arith in
        rw apart (no_value l (ground arith) (ground arith))

    -- Where no other row has the new value, the column stays without duplicates.
    pub update-Unique_new :
        (l : List A)
        → Unique id l
        → Unique key l
        → find other_with l ≡ none
        → Unique key (update id k f l)
    unfolding update
    update-Unique_new [] hi hk h = tt
    update-Unique_new (b ∷ l) (fi, hi) (fk, hk) h = elim (Bool-cases (text_eq (id b) k)) [
      | inl e ↦
          let gone : find (keyed id k) l ≡ none =
            ap (λ t. find (keyed id t) l) (sym ((text_eq_iff (id b) k).0 e)) ∙ fi in
          let fresh : find (keyed key value) l ≡ none = no_value l gone (ground arith) in
          rw (e, absent-update l gone, sets b) (fresh, hk)
      | inr e ↦
          let other : find other_with l ≡ none = ground arith in
          let apart : value ≢ key b = λ q. value_here b l e h q in
          rw e (find-update_absent l (key b) apart fk, update-Unique_new l hi hk other)
    ]
      where
        value_here :
            (b : A) (l : List A)
            → text_eq (id b) k ≡ false
            → find other_with (b ∷ l) ≡ none
            → value ≢ key b
        value_here b l e h q =
            let hit : text_eq (key b) value ≡ true = (text_eq_iff (key b) value).1 (sym q) in
            ground arith
