-- ===== src/Api/Payment/Tests.antt =====
-- Runs of the payment service on concrete tables, and an instance of each theorem.
use nearby_payments_api.Base.{
  ℕ, ◌+◌, ◌≡◌, refl, ap, ◌≢◌, ◌⊎◌, Bool, true, false, some, List, [], ◌∷◌, Text, codes, text_eq,
}
use nearby_payments_api.Api.Errors.{Result, ok, err, panic, panicked}
use nearby_payments_api.Api.Payment.Types.{
  PaymentIntent, CreateIntentRequest, CreateIntentResponse, SubmitIntentRequest,
  SubmitIntentResponse, err_intent_expired, err_invalid_amount,
}
use nearby_payments_api.Api.Payment.Store.{
  Db, Statement, update_intent, find, has_id, is_funding_mode, set_status, get_intent_by_id,
  get_intent_by_idempotency_key, insert, update_intent_status, create_payment,
}
use nearby_payments_api.Api.Payment.Service.{
  World, refused_request, new_intent, to_create_intent_response, create_intent, submit_intent,
  cancel_intent,
}
use nearby_payments_api.Api.Payment.Table.{AreValid}
use nearby_payments_api.Api.Payment.Repeats.{IsSettled, create_intent-repeat}
use nearby_payments_api.Api.Payment.Submit.{submit_intent-once, submit_intent-repeats}
use nearby_payments_api.Api.Payment.Runs.{
  Call, create, submit, cancel, perform, perform_all, perform_all-AreValid,
}
use nearby_payments_api.Api.Payment.History.{History, perform_all-History}

abbrev lost_update : Statement → Bool
lost_update update_intent = false
lost_update _ = true

abbrev world : (Statement → Bool) → ℕ → Text → World
world up now id = record {
  up = up;
  now = now;
  later = now + 1;
  new_id = id;
  sponsor_address = codes "0xsponsor";
  decode = λ t. some t;
  submit_sponsored = λ tx signature. panicked;
  relay = λ tx signature. ok (codes "digest");
}

abbrev all_up : World
all_up = world (λ s. true) 1000 (codes "i1")

abbrev request : CreateIntentRequest
request = record {
  recipient_address = codes "0x0123456789012345678901234567890123456789012345678901234567890123";
  recipient_name = codes "bob";
  asset = codes "USDsui";
  amount_atomic = codes "250";
  funding_mode = [];
  idempotency_key = codes "k1";
}

abbrev empty : Db
empty = record { intents = []; payments = [] }

abbrev signed : SubmitIntentRequest
signed = record { tx_bytes = codes "tx"; user_signature = codes "sig" }

abbrev intent : PaymentIntent
intent = new_intent all_up (codes "ann") request

abbrev one_intent : Db
one_intent = record { intents = intent ∷ []; payments = [] }

create-run :
    create_intent all_up (codes "ann") request empty
    ≡ (ok (to_create_intent_response intent []), one_intent)
unfolding create_intent get_intent_by_idempotency_key insert refused_request is_funding_mode text_eq
create-run = refl

zero_amount-run :
    create_intent all_up (codes "ann") (record request { amount_atomic = codes "0" }) empty
    ≡ (err err_invalid_amount, empty)
unfolding create_intent refused_request text_eq
zero_amount-run = refl

expired-run :
    submit_intent (world (λ s. true) 1121 (codes "p1")) (codes "i1") (codes "ann") signed one_intent
    ≡ (err err_intent_expired, one_intent)
unfolding submit_intent get_intent_by_id text_eq
expired-run = refl

submitted-run :
    (submit_intent
      (world (λ s. true) 1120 (codes "p1"))
      (codes "i1")
      (codes "ann")
      signed
      one_intent).0
    ≡ ok
        (record { payment_id = codes "p1"; tx_digest = codes "digest"; status = codes "confirmed" })
unfolding submit_intent get_intent_by_id update_intent_status create_payment text_eq
submitted-run = refl

cancelled-run :
    (perform_all
      (create all_up (codes "ann") request ∷ cancel all_up (codes "i1") (codes "ann") ∷ [])
      empty).intents
    ≡ record intent { status = codes "cancelled" } ∷ []
unfolding perform_all perform create_intent get_intent_by_idempotency_key insert refused_request
    is_funding_mode cancel_intent get_intent_by_id update_intent_status text_eq set_status
cancelled-run = refl

abbrev created : CreateIntentResponse
created = to_create_intent_response intent []

create-ok : (create_intent all_up (codes "ann") request empty).0 ≡ ok created
create-ok = ap (λ (x : Result CreateIntentResponse × Db). x.0) create-run

abbrev submitted : SubmitIntentResponse
submitted = record {
  payment_id = codes "i1";
  tx_digest = codes "digest";
  status = codes "confirmed";
}

submit-ok : (submit_intent all_up (codes "i1") (codes "ann") signed one_intent).0 ≡ ok submitted
unfolding submit_intent get_intent_by_id update_intent_status create_payment text_eq
submit-ok = refl

abbrev half_down : World
half_down = world lost_update 1000 (codes "i1")

submit_lost-ok :
    (submit_intent half_down (codes "i1") (codes "ann") signed one_intent).0 ≡ ok submitted
unfolding submit_intent get_intent_by_id update_intent_status create_payment text_eq
submit_lost-ok = refl

submit_intent-once_example :
    let db' =
      perform_all
        (cancel all_up (codes "i1") (codes "ann") ∷ [])
        (submit_intent all_up (codes "i1") (codes "ann") signed one_intent).1 in
    ((resp' : SubmitIntentResponse)
      → (submit_intent all_up (codes "i1") (codes "ann") signed db').0 ≢ ok resp')
    × ((submit_intent all_up (codes "i1") (codes "ann") signed db').1 ≡ db')
    × ((cancel_intent all_up (codes "i1") (codes "ann") db').0 ≢ ok tt)
    × ((cancel_intent all_up (codes "i1") (codes "ann") db').1 ≡ db')
submit_intent-once_example =
    submit_intent-once all_up all_up (codes "i1") (codes "ann") (codes "ann") signed signed
      one_intent submitted (cancel all_up (codes "i1") (codes "ann") ∷ []) submit-ok refl

-- A submission whose update was lost, made again.
submit_twice-run :
    (submit_intent half_down
      (codes "i1")
      (codes "ann")
      signed
      (submit_intent half_down (codes "i1") (codes "ann") signed one_intent).1).0
    ≡ ok submitted
submit_twice-run =
    submit_intent-repeats half_down (codes "i1") (codes "ann") signed one_intent submitted
      submit_lost-ok refl

abbrev history : List Call
history =
    create all_up (codes "ann") request
    ∷ submit all_up (codes "i1") (codes "ann") signed
    ∷ cancel all_up (codes "i1") (codes "ann")
    ∷ []

perform_all-AreValid_example : AreValid (perform_all history empty).intents
perform_all-AreValid_example = perform_all-AreValid history empty tt

perform_all-History_example :
    (pi' : PaymentIntent) × (find (has_id (codes "i1")) (perform_all history one_intent).intents
      ≡ some pi')
    × History intent pi'
unfolding text_eq
perform_all-History_example = perform_all-History history one_intent (codes "i1") intent refl

-- The intent is cancelled, and then asked for again by its key.
create_intent-repeat_example :
    let db' =
      perform_all
        (cancel all_up (codes "i1") (codes "ann") ∷ [])
        (create_intent all_up (codes "ann") request empty).1 in
    (status : Text) × (create_intent (world lost_update 5000 (codes "i2")) (codes "bob") request db'
      ≡ (ok (record created { status = status }), db'))
    × ((status ≡ codes "pending") ⊎ IsSettled status)
create_intent-repeat_example =
    create_intent-repeat all_up (world lost_update 5000 (codes "i2")) (codes "ann") (codes "bob")
      request (cancel all_up (codes "i1") (codes "ann") ∷ []) empty created create-ok refl

-- A submission that panics is answered as an internal error, and leaves the intent pending.
panicked-run :
    submit_intent all_up
      (codes "i1")
      (codes "ann")
      signed
      (record { intents = record intent { funding_mode = codes "sponsored" } ∷ []; payments = [] })
    ≡ (
      err panic,
      record { intents = record intent { funding_mode = codes "sponsored" } ∷ []; payments = [] },
    )
unfolding submit_intent get_intent_by_id text_eq
panicked-run = refl

abbrev intrusion : List Call
intrusion =
    submit all_up (codes "i1") (codes "bob") signed ∷ cancel all_up (codes "i1") (codes "bob") ∷ []
