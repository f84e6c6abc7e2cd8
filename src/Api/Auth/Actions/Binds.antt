-- ===== src/Api/Auth/Actions/Binds.antt =====
-- How a chain of calls ends, and what it leaves unchanged.
use nearby_payments_api.Base.{
  ◌≡◌, refl, sym, subst, Option-cases, ◌⊎◌, inl, inr, Bool, true, false, Option, none, some, arith,
}
use nearby_payments_api.Api.Errors.{Error, Result, ok, err, Action, pure, query, exec}
use nearby_payments_api.Api.Auth.Actions.{◌>>=◌, or_else, or_raise, ensure}

pub Outcome-cases :
    {S A : Type 0} (o : Result A × S)
    → ((a : A) × ((s : S) × (o ≡ (ok a, s)))) ⊎ ((e : Error) × ((s : S) × (o ≡ (err e, s))))
Outcome-cases (ok a, s) = inl (a, (s, refl))
Outcome-cases (err e, s) = inr (e, (s, refl))

module _ {S A B : Type 0} (m : Action S A) (f : A → Action S B) (s : S) where
  -- A chain that succeeds: its first call has, and the rest goes on from there.
  pub bind-ok :
      (s' : S) (b : B)
      → (m >>= f) s ≡ (ok b, s')
      → (a : A) × ((s1 : S) × ((m s ≡ (ok a, s1)) × (f a s1 ≡ (ok b, s'))))
  unfolding ◌>>=◌
  bind-ok s' b e = elim (Outcome-cases (m s)) [
    | inl (a, (s1, q)) ↦ (a, (s1, (q, ground arith)))
    | inr (x, (s1, q)) ↦ let no : ⊥ = ground arith in absurd no
  ]

  -- A chain whose first call succeeds goes on.
  pub bind-at : (a : A) (s' : S) → m s ≡ (ok a, s') → (m >>= f) s ≡ f a s'
  unfolding ◌>>=◌
  bind-at a s' q = ground arith

  -- A chain whose first call fails.
  pub bind-err : (e : Error) (s' : S) → m s ≡ (err e, s') → (m >>= f) s ≡ (err e, s')
  unfolding ◌>>=◌
  bind-err e s' q = ground arith

module _ {S A : Type 0} (e : Error) (m : Action S A) (s : S) where
  pub or_else-err : (x : Error) (s' : S) → m s ≡ (err x, s') → or_else e m s ≡ (err e, s')
  unfolding or_else
  or_else-err x s' q = ground arith

  pub or_else-state : (m s).1 ≡ (or_else e m s).1
  unfolding or_else
  or_else-state = elim (Outcome-cases (m s)) [
    | inl (a, (s1, q)) ↦ ground arith
    | inr (x, (s1, q)) ↦ ground arith
  ]

-- A property of the state that a call keeps, however it ends.
pub record Keeps {ℓ} {S A : Type 0} (P : S → Type ℓ) (m : Action S A) : Type ℓ where
  pub keeps : (s : S) → P s → P (m s).1

module _ {ℓ} {S : Type 0} (P : S → Type ℓ) where
  -- Where the call is known to end in a state.
  at_end :
      {A B : Type 0} (m : Action S A) (n : Action S B) (s s1 : S) (r : Result A)
      → m s ≡ (r, s1)
      → (n s).1 ≡ s1
      → P (m s).1
      → P (n s).1
  at_end m n s s1 r q same h = subst P (sym same) (subst (λ o. P o.1) q h)

  pub pure-Keeps : {A : Type 0} (a : A) → Keeps P (pure a)
  pure-Keeps a = record { keeps = λ s h. h }

  pub query-Keeps : {A : Type 0} (up : Bool) (f : S → A) → Keeps P (query up f)
  query-Keeps up f = record { keeps = λ s h. h }

  exec_keeps :
      (up : Bool) (f : S → Option S)
      → ((s s' : S) → P s → f s ≡ some s' → P s')
      → (s : S) → P s
      → P (exec up f s).1
  exec_keeps false f keeps s h = h
  exec_keeps true f keeps s h = elim (Option-cases (f s)) [
    | inl q ↦ let same : (exec true f s).1 ≡ s = ground arith in subst P (sym same) h
    | inr (s1, q) ↦
        let same : (exec true f s).1 ≡ s1 = ground arith in subst P (sym same) (keeps s s1 h q)
  ]

  pub exec-Keeps :
      (up : Bool) (f : S → Option S)
      → ((s s' : S) → P s → f s ≡ some s' → P s')
      → Keeps P (exec up f)
  exec-Keeps up f keeps = record { keeps = exec_keeps up f keeps }

  -- Where the second call may rely on what the first one returned.
  pub bind_keeps :
      {A B : Type 0} (m : Action S A) (f : A → Action S B) (s : S)
      → P (m s).1
      → ((a : A) (s1 : S) → m s ≡ (ok a, s1) → P (f a s1).1)
      → P ((m >>= f) s).1
  unfolding ◌>>=◌
  bind_keeps m f s h k = elim (Outcome-cases (m s)) [
    | inl (a, (s1, q)) ↦
        let same : ((m >>= f) s).1 ≡ (f a s1).1 = ground arith in subst P (sym same) (k a s1 q)
    | inr (x, (s1, q)) ↦ at_end m (m >>= f) s s1 (err x) q (ground arith) h
  ]

  -- A chain keeps what its calls keep.
  pub bind-Keeps :
      {A B : Type 0} {m : Action S A} {f : A → Action S B}
      → Keeps P m
      → ((a : A) → Keeps P (f a))
      → Keeps P (m >>= f)
  bind-Keeps {m = m} {f = f} hm hf = record {
    keeps = λ s h.
        bind_keeps m f s (hm.keeps s h)
          (λ a s1 q. (hf a).keeps s1 (subst (λ o. P o.1) q (hm.keeps s h)));
  }

  pub option-Keeps :
      {A B : Type 0} (o : Option A) (m : Action S B) (f : A → Action S B)
      → Keeps P m
      → ((a : A) → Keeps P (f a))
      → Keeps P (elim o as (λ x. Action S B) [ none ↦ m | some a ↦ f a ])
  option-Keeps none m f hm hf = hm
  option-Keeps (some a) m f hm hf = hf a

  pub or_else-Keeps : {A : Type 0} (e : Error) (m : Action S A) → Keeps P m → Keeps P (or_else e m)
  unfolding or_else
  or_else-Keeps e m h = record {
    keeps = λ s p. elim (Outcome-cases (m s)) [
      | inl (a, (s1, q)) ↦ at_end m (or_else e m) s s1 (ok a) q (ground arith) (h.keeps s p)
      | inr (x, (s1, q)) ↦ at_end m (or_else e m) s s1 (err x) q (ground arith) (h.keeps s p)
    ];
  }

  or_raise_keeps : {A : Type 0} (e : Error) (o : Option A) (s : S) → P s → P (or_raise e o s).1
  unfolding or_raise
  or_raise_keeps e none s p = p
  or_raise_keeps e (some a) s p = p

  pub or_raise-Keeps : {A : Type 0} (e : Error) (o : Option A) → Keeps P (or_raise e o)
  or_raise-Keeps e o = record { keeps = or_raise_keeps e o }

  -- What follows may rely on the value that was there.
  pub or_raise_bind-Keeps :
      {A B : Type 0} (e : Error) (o : Option A) (f : A → Action S B)
      → ((a : A) → o ≡ some a → Keeps P (f a))
      → Keeps P (or_raise e o >>= f)
  unfolding ◌>>=◌ or_raise
  or_raise_bind-Keeps e none f hf = record { keeps = λ s h. h }
  or_raise_bind-Keeps e (some a) f hf = record { keeps = λ s h. (hf a refl).keeps s h }

  ensure_keeps : (b : Bool) (e : Error) (s : S) → P s → P (ensure b e s).1
  unfolding ensure
  ensure_keeps true e s p = p
  ensure_keeps false e s p = p

  pub ensure-Keeps : (b : Bool) (e : Error) → Keeps P (ensure b e)
  ensure-Keeps b e = record { keeps = ensure_keeps b e }
