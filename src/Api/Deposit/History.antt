-- ===== src/Api/Deposit/History.antt =====
-- What becomes of one deposit while events are received and processed.
use nearby_payments_api.Base.{
  ℕ, ◌≡◌, refl, sym, ap, ◌∙◌, ◌≢◌, inl, inr, Bool, true, false, Option, none, some, List, [], ◌∷◌,
  Text, codes, arith, text_eq_iff, if◌then◌else◌, Option-cases, Bool-cases,
}
use nearby_payments_api.Api.Rows.{find, update_where, map_some, find-update_where}
use nearby_payments_api.Api.Deposit.Store.{
  Deposit, Tables, is_deposit, coalesce, refreshed, put_deposit,
}

-- What stays of a deposit: all but its status, its time of update and its hash, which is never lost.
pub record Continues (d d' : Deposit) : Type 0 where
  pub id : d'.id ≡ d.id
  pub user_id : d'.user_id ≡ d.user_id
  pub route_id : d'.route_id ≡ d.route_id
  pub provider : d'.provider ≡ d.provider
  pub provider_deposit_id : d'.provider_deposit_id ≡ d.provider_deposit_id
  pub kind : d'.kind ≡ d.kind
  pub amount : d'.amount ≡ d.amount
  pub currency : d'.currency ≡ d.currency
  pub created_at : d'.created_at ≡ d.created_at
  pub tx_hash : d.tx_hash ≢ [] → d'.tx_hash ≢ []

Continues-refl : (d : Deposit) → Continues d d
Continues-refl d = record {
  id = refl;
  user_id = refl;
  route_id = refl;
  provider = refl;
  provider_deposit_id = refl;
  kind = refl;
  amount = refl;
  currency = refl;
  created_at = refl;
  tx_hash = λ h. h;
}

Continues-trans : {a b c : Deposit} → Continues a b → Continues b c → Continues a c
Continues-trans f g = record {
  id = g.id ∙ f.id;
  user_id = g.user_id ∙ f.user_id;
  route_id = g.route_id ∙ f.route_id;
  provider = g.provider ∙ f.provider;
  provider_deposit_id = g.provider_deposit_id ∙ f.provider_deposit_id;
  kind = g.kind ∙ f.kind;
  amount = g.amount ∙ f.amount;
  currency = g.currency ∙ f.currency;
  created_at = g.created_at ∙ f.created_at;
  tx_hash = λ h. g.tx_hash (f.tx_hash h);
}

coalesce-some : (t old : Text) → old ≢ [] → coalesce t old ≢ []
coalesce-some [] old h = h
coalesce-some (c ∷ t) old h = λ e. absurd (cons-nil e)
  where
    cons-nil : {b : ℕ} {s : Text} → Path Text (b ∷ s) [] → ⊥
    cons-nil e = cc

refreshed-Continues : (d old : Deposit) → Continues old (refreshed d old)
refreshed-Continues d old = record {
  id = refl;
  user_id = refl;
  route_id = refl;
  provider = refl;
  provider_deposit_id = refl;
  kind = refl;
  amount = refl;
  currency = refl;
  created_at = refl;
  tx_hash = coalesce-some d.tx_hash old.tx_hash;
}

-- The deposit of the provider "bridge" with an id.
abbrev pub deposit_at : Text → List Deposit → Option Deposit
deposit_at id l = find (is_deposit (codes "bridge") id) l

-- A deposit that is in the table is in the later one, and continues.
abbrev pub Keeps : Tables → Tables → Type 0
Keeps db db' =
    (id : Text) (d : Deposit)
    → deposit_at id db.deposits ≡ some d
    → (d' : Deposit) × (deposit_at id db'.deposits ≡ some d') × Continues d d'

pub Keeps-refl : (db db' : Tables) → db'.deposits ≡ db.deposits → Keeps db db'
Keeps-refl db db' e id d found = (d, ap (deposit_at id) e ∙ found, Continues-refl d)

pub Keeps-trans : (a b c : Tables) → Keeps a b → Keeps b c → Keeps a c
Keeps-trans a b c f g id d found =
    let (d', found', step) = f id d found in
    let (d'', found'', rest) = g id d' found' in (d'', found'', Continues-trans step rest)

if-Continues : (b : Bool) (d old : Deposit) → Continues old (if b then refreshed d old else old)
if-Continues true d old = refreshed-Continues d old
if-Continues false d old = Continues-refl old

-- Another deposit than the one that was looked for in vain.
other-deposit :
    (d : Deposit) (id : Text) (l : List Deposit) (old : Deposit)
    → find (is_deposit d.provider d.provider_deposit_id) l ≡ none
    → deposit_at id l ≡ some old
    → is_deposit (codes "bridge") id d ≡ false
other-deposit d id l old missing found = elim (Bool-cases (is_deposit (codes "bridge") id d)) [
  | inr e ↦ e
  | inl e ↦
      let provider : d.provider ≡ codes "bridge" =
        ground (arith, text_eq_iff d.provider (codes "bridge")) in
      let same_id : d.provider_deposit_id ≡ id =
        ground (arith, text_eq_iff d.provider_deposit_id id) in
      let gone : deposit_at id l ≡ none =
        ap (λ t. find (is_deposit t id) l) (sym provider)
        ∙ (ap (λ t. find (is_deposit d.provider t) l) (sym same_id) ∙ missing) in
      absurd (none-some (sym gone ∙ found))
]
  where
    none-some : {q : Deposit} → Path (Option Deposit) none (some q) → ⊥
    none-some e = cc

pub put_deposit-Keeps : (d : Deposit) (db db' : Tables) → put_deposit d db ≡ some db' → Keeps db db'
unfolding put_deposit
put_deposit-Keeps d db db' e id old found =
    elim (Option-cases (find (is_deposit d.provider d.provider_deposit_id) db.deposits)) [
      | inr (x, there) ↦
          let p = is_deposit d.provider d.provider_deposit_id in
          let refreshed_all : db'.deposits ≡ update_where p (refreshed d) db.deposits =
            ground arith in
          (
            if p old then refreshed d old else old,
            ap (deposit_at id) refreshed_all
                ∙ (find-update_where p (refreshed d) (is_deposit (codes "bridge") id) (λ a. refl)
                      db.deposits
                    ∙ ap (map_some (λ a. if p a then refreshed d a else a)) found),
            if-Continues (p old) d old,
          )
      | inl missing ↦
          let grown : db'.deposits ≡ d ∷ db.deposits = ground arith in
          (
            old,
            ap (deposit_at id) grown ∙ rw (other-deposit d id db.deposits old missing found) found,
            Continues-refl old,
          )
    ]
