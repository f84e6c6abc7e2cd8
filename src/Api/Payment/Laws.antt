-- ===== src/Api/Payment/Laws.antt =====
-- What the payment service guarantees.
use nearby_payments_api.Base.{
  suc, ◌<◌, ◌≡◌, refl, ap, ◌∙◌, ◌⊎◌, inl, inr, true, none, some, Text, codes, arith, text_eq_iff,
  text_eq_refl, if◌then◌else◌, Option-cases,
}
use nearby_payments_api.Api.Errors.{ok}
use nearby_payments_api.Api.Payment.Types.{
  PaymentIntent, CreateIntentRequest, CreateIntentResponse, SubmitIntentRequest,
  SubmitIntentResponse,
}
use nearby_payments_api.Api.Payment.Store.{
  Db, select_intent_by_key, update_intent, find, has_id, has_key, add_intent, set_status,
  get_intent_by_id, get_intent_by_idempotency_key, insert, update_intent_status, create_payment,
}
use nearby_payments_api.Api.Payment.Service.{
  World, refused_request, new_intent, to_create_intent_response, create_intent, submit_intent,
}
use nearby_payments_api.Api.Payment.Table.{add_intent-eq-some}

-- How a call of `create_intent` that succeeds has ended.
pub create-ended :
    (w : World) (user : Text) (req : CreateIntentRequest) (db : Db) (resp : CreateIntentResponse)
    → (create_intent w user req db).0 ≡ ok resp
    → (refused_request req ≡ none)
      × (((pi : PaymentIntent) × (find (has_key req.idempotency_key) db.intents ≡ some pi)
            × (resp ≡ to_create_intent_response pi pi.sponsor_address)
            × ((create_intent w user req db).1 ≡ db))
          ⊎ ((find (has_key req.idempotency_key) db.intents ≡ none)
              × (resp
                  ≡ to_create_intent_response
                      (new_intent w user req)
                      (new_intent w user req).sponsor_address)
              × (add_intent (new_intent w user req) db ≡ some (create_intent w user req db).1)))
unfolding create_intent get_intent_by_idempotency_key insert
create-ended w user req db resp e = elim (Option-cases (refused_request req)) [
  | inr (x, refused) ↦ let no : ⊥ = ground arith in absurd no
  | inl passed ↦ (
    passed,
    elim (Option-cases (find (has_key req.idempotency_key) db.intents)) [
      | inr (pi, found) ↦ inl (pi, found, ground arith, ground arith)
      | inl missing ↦ elim (Option-cases (add_intent (new_intent w user req) db)) [
        | inl clash ↦ let no : ⊥ = ground arith in absurd no
        | inr (db', added) ↦ inr (missing, ground arith, ground arith)
      ]
    ],
  )
]

pub create_hit :
    (w : World) (user : Text) (req : CreateIntentRequest) (db : Db) (pi : PaymentIntent)
    → w.up select_intent_by_key ≡ true
    → refused_request req ≡ none
    → find (has_key req.idempotency_key) db.intents ≡ some pi
    → create_intent w user req db ≡ (ok (to_create_intent_response pi pi.sponsor_address), db)
unfolding create_intent get_intent_by_idempotency_key
create_hit w user req db pi up passed found = ground arith

-- After a creation that succeeds, its key leads to the intent of the response.
pub create-found :
    (w : World) (user : Text) (req : CreateIntentRequest) (db : Db) (resp : CreateIntentResponse)
    → (create_intent w user req db).0 ≡ ok resp
    → (pi : PaymentIntent) × (find
          (has_key req.idempotency_key)
          (create_intent w user req db).1.intents
        ≡ some pi)
      × (resp ≡ to_create_intent_response pi pi.sponsor_address)
create-found w user req db resp e = elim (create-ended w user req db resp e).1 [
  | inl (pi, found, same, kept) ↦ (pi, rw kept found, same)
  | inr (missing, same, added) ↦
      let pi = new_intent w user req in
      let grown = (add_intent-eq-some pi db _ added).3 in
      (
        pi,
        ap (λ (d : Db). find (has_key req.idempotency_key) d.intents) grown
            ∙ rw (text_eq_refl req.idempotency_key) refl,
        same,
      )
]

-- How a submission that succeeds has ended.
pub submit-ended :
    (w : World) (id user : Text) (req : SubmitIntentRequest) (db : Db) (resp : SubmitIntentResponse)
    → (submit_intent w id user req db).0 ≡ ok resp
    → (pi : PaymentIntent) × (find (has_id id) db.intents ≡ some pi)
      × (pi.user_id ≡ user)
      × (pi.status ≡ codes "pending")
      × (w.now < suc pi.expires_at)
      × ((submit_intent w id user req db).1.intents ≡ (
          if w.up update_intent
          then set_status pi.id (codes "submitted") resp.tx_digest w.later db.intents
          else db.intents))
unfolding submit_intent get_intent_by_id update_intent_status create_payment
submit-ended w id user req db resp e = elim (Option-cases (find (has_id id) db.intents)) [
  | inl missing ↦ let no : ⊥ = ground arith in absurd no
  | inr (pi, found) ↦ (
    pi,
    found,
    ground (arith, text_eq_iff pi.user_id user),
    ground (arith, text_eq_iff pi.status (codes "pending")),
    ground arith,
    ground arith,
  )
]
