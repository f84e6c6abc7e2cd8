-- ===== src/Api/Payment/Store.antt =====
-- apps/api/internal/domain/payment/store.go over the two tables of
-- apps/api/internal/db/migrations/003_payment.sql, with their UNIQUE and CHECK constraints. A NULL
-- text is the empty text, as the store reads it. That the user exists is left out.
use nearby_payments_api.Base.{
  ℕ, Bool, ◌||◌, Option, none, some, List, [], ◌∷◌, Text, codes, text_eq, if◌then◌else◌,
}
use nearby_payments_api.Api.Errors.{Action, query, exec}
pub use nearby_payments_api.Api.Rows.{find}
use nearby_payments_api.Api.Payment.Types.{PaymentIntent, Payment}

-- The two tables.
pub record Db : Type 0 where
  pub intents : List PaymentIntent
  pub payments : List Payment

-- The statements of the store, by which their failures are told apart.
pub data Statement : Type 0 where
  insert_intent select_intent select_intent_by_key update_intent insert_payment select_payment :
      Statement

abbrev pub has_id : Text → PaymentIntent → Bool
has_id id pi = text_eq pi.id id

abbrev pub has_key : Text → PaymentIntent → Bool
has_key key pi = text_eq pi.idempotency_key key

-- The CHECK on `funding_mode`.
unfoldable pub is_funding_mode : Text → Bool
is_funding_mode m =
    text_eq m (codes "gasless_stablecoin")
    || text_eq m (codes "sponsored")
    || text_eq m (codes "user_paid")

-- INSERT INTO payment_intents
unfoldable pub add_intent : PaymentIntent → Db → Option Db
add_intent pi db = elim (find (has_id pi.id) db.intents) [
  | some _ ↦ none
  | none ↦ elim (find (has_key pi.idempotency_key) db.intents) [
    | some _ ↦ none
    | none ↦
        if is_funding_mode pi.funding_mode
        then some (record db { intents = pi ∷ db.intents })
        else none
  ]
]

-- UPDATE payment_intents SET status, tx_digest, updated_at WHERE id
unfoldable pub set_status : Text → Text → Text → ℕ → List PaymentIntent → List PaymentIntent
set_status id status digest at [] = []
set_status id status digest at (pi ∷ l) =
    let pi' =
      if text_eq pi.id id
      then record pi { status = status; tx_digest = digest; updated_at = at }
      else pi in
    pi' ∷ set_status id status digest at l

-- INSERT INTO payments: the id and the intent's id are unique.
unfoldable pub add_payment : Payment → Db → Option Db
add_payment p db =
    elim (find (λ (q : Payment). text_eq q.id p.id || text_eq q.intent_id p.intent_id)
      db.payments) [ some _ ↦ none | none ↦ some (record db { payments = p ∷ db.payments }) ]

module _ (up : Statement → Bool) where
  unfoldable pub get_intent_by_id : Text → Action Db (Option PaymentIntent)
  get_intent_by_id id = query (up select_intent) (λ db. find (has_id id) db.intents)

  unfoldable pub get_intent_by_idempotency_key : Text → Action Db (Option PaymentIntent)
  get_intent_by_idempotency_key key =
      query (up select_intent_by_key) (λ db. find (has_key key) db.intents)

  unfoldable pub insert : PaymentIntent → Action Db (Unit {0})
  unfolding add_intent
  insert pi = exec (up insert_intent) (add_intent pi)

  unfoldable pub update_intent_status : Text → Text → Text → ℕ → Action Db (Unit {0})
  update_intent_status id status digest at =
      exec (up update_intent)
        (λ db. some (record db { intents = set_status id status digest at db.intents }))

  unfoldable pub create_payment : Payment → Action Db (Unit {0})
  unfolding add_payment
  create_payment p = exec (up insert_payment) (add_payment p)

  unfoldable pub get_payment_by_id : Text → Action Db (Option Payment)
  get_payment_by_id id =
      query (up select_payment) (λ db. find (λ (p : Payment). text_eq p.id id) db.payments)
