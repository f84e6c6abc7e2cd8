-- ===== src/Api/Payment/Table.antt =====
-- The table of payment intents: which rows an insertion and an update leave, and its invariant.
use nearby_payments_api.Base.{
  ℕ, ◌+◌, ◌≡◌, refl, ◌≢◌, ◌⊎◌, inl, inr, true, none, some, List, [], ◌∷◌, Text, codes, arith,
  text_eq, text_eq_iff, length, Bool-cases,
}
pub use nearby_payments_api.Api.Rows.{map_some}
use nearby_payments_api.Api.Payment.Types.{PaymentIntent}
use nearby_payments_api.Api.Payment.Store.{
  Db, find, has_id, has_key, is_funding_mode, add_intent, set_status,
}
use nearby_payments_api.Api.Payment.Service.{has_prefix, intent_ttl}

-- The row that an update leaves of a row.
abbrev pub with_status : Text → Text → ℕ → PaymentIntent → PaymentIntent
with_status status digest at pi = record pi { status = status; tx_digest = digest; updated_at = at }

module _ (id status digest : Text) (at : ℕ) where
  pub find-set_status_self :
      (l : List PaymentIntent)
      → find (has_id id) (set_status id status digest at l)
        ≡ map_some (with_status status digest at) (find (has_id id) l)
  unfolding set_status
  find-set_status_self [] = refl
  find-set_status_self (pi ∷ l) = elim (Bool-cases (text_eq pi.id id)) [
    | inl e ↦ rw (e, e)
    | inr e ↦ rw (e, e) (find-set_status_self l)
  ]

  pub find-set_status_ne :
      (j : Text) (l : List PaymentIntent)
      → j ≢ id
      → find (has_id j) (set_status id status digest at l) ≡ find (has_id j) l
  unfolding set_status
  find-set_status_ne j [] h = refl
  find-set_status_ne j (pi ∷ l) h =
      ground (arith, text_eq_iff pi.id id, text_eq_iff pi.id j, find-set_status_ne j l h)

  find_key-set_status :
      (k : Text) (l : List PaymentIntent)
      → find (has_key k) l ≡ none
      → find (has_key k) (set_status id status digest at l) ≡ none
  unfolding set_status
  find_key-set_status k [] h = refl
  find_key-set_status k (pi ∷ l) h = ground (arith, find_key-set_status k l)

  find_id-set_status :
      (j : Text) (l : List PaymentIntent)
      → find (has_id j) l ≡ none
      → find (has_id j) (set_status id status digest at l) ≡ none
  unfolding set_status
  find_id-set_status j [] h = refl
  find_id-set_status j (pi ∷ l) h = ground (arith, find_id-set_status j l)

pub find_id_sound :
    (id : Text) (l : List PaymentIntent) (pi : PaymentIntent)
    → find (has_id id) l ≡ some pi
    → pi.id ≡ id
find_id_sound id [] pi e = cc
find_id_sound id (p ∷ l) pi e = ground (arith, text_eq_iff p.id id, find_id_sound id l pi)

-- A status that the CHECK of the table admits.
abbrev pub IsStatus : Text → Type 0
IsStatus s =
    (s ≡ codes "pending")
    ⊎ ((s ≡ codes "submitted")
        ⊎ ((s ≡ codes "confirmed") ⊎ ((s ≡ codes "failed") ⊎ (s ≡ codes "cancelled"))))

-- What holds of each intent: the checks of the request and of the table, and the time to live.
pub record IsSound (pi : PaymentIntent) : Type 0 where
  pub asset : pi.asset ≡ codes "USDsui"
  pub amount : (pi.amount_atomic ≢ []) × (pi.amount_atomic ≢ codes "0")
  pub prefix : has_prefix pi.recipient_address (codes "0x") ≡ true
  pub width : length pi.recipient_address ≡ 66
  pub key : pi.idempotency_key ≢ []
  pub mode : is_funding_mode pi.funding_mode ≡ true
  pub status : IsStatus pi.status
  pub expiry : pi.expires_at ≡ pi.created_at + intent_ttl

-- Each intent is sound, and no id and no idempotency key stands twice.
abbrev pub AreValid : List PaymentIntent → Type 0
AreValid [] = Unit
AreValid (pi ∷ l) =
    IsSound pi
    × (find (has_id pi.id) l ≡ none)
    × (find (has_key pi.idempotency_key) l ≡ none)
    × AreValid l

IsSound-with_status :
    (pi : PaymentIntent) (status digest : Text) (at : ℕ)
    → IsStatus status
    → IsSound pi
    → IsSound (with_status status digest at pi)
IsSound-with_status pi status digest at s h = record {
  asset = h.asset;
  amount = h.amount;
  prefix = h.prefix;
  width = h.width;
  key = h.key;
  mode = h.mode;
  status = s;
  expiry = h.expiry;
}

pub set_status-AreValid :
    (id status digest : Text) (at : ℕ) (l : List PaymentIntent)
    → IsStatus status
    → AreValid l
    → AreValid (set_status id status digest at l)
unfolding set_status
set_status-AreValid id status digest at [] s h = tt
set_status-AreValid id status digest at (pi ∷ l) s (sound, ids, keys, h) =
    let later = set_status-AreValid id status digest at l s h in
    let ids' = find_id-set_status id status digest at pi.id l ids in
    let keys' = find_key-set_status id status digest at pi.idempotency_key l keys in
    elim (Bool-cases (text_eq pi.id id)) [
      | inl e ↦ rw e (IsSound-with_status pi status digest at s sound, ids', keys', later)
      | inr e ↦ rw e (sound, ids', keys', later)
    ]

-- An insertion that is accepted.
pub add_intent-eq-some :
    (pi : PaymentIntent) (db db' : Db)
    → add_intent pi db ≡ some db'
    → (find (has_id pi.id) db.intents ≡ none)
      × (find (has_key pi.idempotency_key) db.intents ≡ none)
      × (is_funding_mode pi.funding_mode ≡ true)
      × (db' ≡ record db { intents = pi ∷ db.intents })
unfolding add_intent
add_intent-eq-some pi db db' e = ground arith
