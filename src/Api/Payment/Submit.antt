-- ===== src/Api/Payment/Submit.antt =====
-- A payment intent that is submitted again.
use nearby_payments_api.Base.{
  ◌≡◌, refl, ap, ◌∙◌, ◌≢◌, true, false, some, List, Text, codes, get_or, arith, text_eq-false,
  if◌then◌else◌,
}
use nearby_payments_api.Api.Errors.{ok}
use nearby_payments_api.Api.Payment.Types.{PaymentIntent, SubmitIntentRequest, SubmitIntentResponse}
use nearby_payments_api.Api.Payment.Store.{
  Db, update_intent, find, has_id, set_status, get_intent_by_id, update_intent_status,
  create_payment,
}
use nearby_payments_api.Api.Payment.Service.{World, submit_intent, cancel_intent}
use nearby_payments_api.Api.Payment.Table.{
  map_some, with_status, find-set_status_self, find_id_sound,
}
use nearby_payments_api.Api.Payment.Laws.{submit-ended}
use nearby_payments_api.Api.Payment.Runs.{Call, perform_all}
use nearby_payments_api.Api.Payment.History.{History, kept, ended, perform_all-History}

-- An intent that is not pending is neither submitted nor cancelled, whoever asks.
pub settled-refused :
    (w : World) (id user : Text) (req : SubmitIntentRequest) (db : Db) (pi : PaymentIntent)
    → find (has_id id) db.intents ≡ some pi
    → pi.status ≢ codes "pending"
    → ((resp : SubmitIntentResponse) → (submit_intent w id user req db).0 ≢ ok resp)
      × ((submit_intent w id user req db).1 ≡ db)
      × ((cancel_intent w id user db).0 ≢ ok tt)
      × ((cancel_intent w id user db).1 ≡ db)
unfolding submit_intent cancel_intent get_intent_by_id
settled-refused w id user req db pi found settled =
    let no = text_eq-false pi.status (codes "pending") settled in
    (λ resp e. ground arith, ground arith, λ e. ground arith, ground arith)

-- What is not pending stays as it is.
settled-kept : (pi pi' : PaymentIntent) → pi.status ≢ codes "pending" → History pi pi' → pi' ≡ pi
settled-kept pi pi' settled (kept e) = e
settled-kept pi pi' settled (ended status digest at was kind e) = absurd (settled was)

-- After a submission that succeeded and whose update was stored, and any calls with any failures, no
-- submission and no cancellation of the intent by anybody succeeds or changes the tables.
pub submit_intent-once :
    (w w' : World) (id user user' : Text) (req req' : SubmitIntentRequest) (db : Db)
    (resp : SubmitIntentResponse) (cs : List Call)
    → (submit_intent w id user req db).0 ≡ ok resp
    → w.up update_intent ≡ true
    → let db' = perform_all cs (submit_intent w id user req db).1 in
      ((resp' : SubmitIntentResponse) → (submit_intent w' id user' req' db').0 ≢ ok resp')
      × ((submit_intent w' id user' req' db').1 ≡ db')
      × ((cancel_intent w' id user' db').0 ≢ ok tt)
      × ((cancel_intent w' id user' db').1 ≡ db')
submit_intent-once w w' id user user' req req' db resp cs e up =
    let (pi, found, mine, pending, fresh, intents) = submit-ended w id user req db resp e in
    let settled = with_status (codes "submitted") resp.tx_digest w.later pi in
    let same_id : pi.id ≡ id = find_id_sound id db.intents pi found in
    let now_settled : find (has_id id) (submit_intent w id user req db).1.intents ≡ some settled =
      ap (find (has_id id)) intents
      ∙ (ap
            (λ b. find (has_id id) (
              if b
              then set_status pi.id (codes "submitted") resp.tx_digest w.later db.intents
              else db.intents))
            up
          ∙ (ap
                (λ t.
                  find (has_id id)
                    (set_status t (codes "submitted") resp.tx_digest w.later db.intents))
                same_id
              ∙ (find-set_status_self id (codes "submitted") resp.tx_digest w.later db.intents
                  ∙ ap (map_some (with_status (codes "submitted") resp.tx_digest w.later))
                      found))) in
    let not_pending : settled.status ≢ codes "pending" =
      λ q. absurd (omega (arith, ap (λ t. get_or t 0 0) q)) in
    let (last, found', history) =
      perform_all-History cs (submit_intent w id user req db).1 id settled now_settled in
    settled-refused w' id user' req' (perform_all cs (submit_intent w id user req db).1) settled
      (found' ∙ ap some (settled-kept settled last not_pending history)) not_pending

-- The outcome of a submission depends on the intent alone.
submit-same :
    (w : World) (id user : Text) (req : SubmitIntentRequest) (db db' : Db)
    → find (has_id id) db.intents ≡ find (has_id id) db'.intents
    → (submit_intent w id user req db).0 ≡ (submit_intent w id user req db').0
unfolding submit_intent get_intent_by_id update_intent_status create_payment
submit-same w id user req db db' same = ground arith

-- The error of that update is dropped: where it is lost, the same call made again executes the
-- transaction again and succeeds again.
pub submit_intent-repeats :
    (w : World) (id user : Text) (req : SubmitIntentRequest) (db : Db) (resp : SubmitIntentResponse)
    → (submit_intent w id user req db).0 ≡ ok resp
    → w.up update_intent ≡ false
    → (submit_intent w id user req (submit_intent w id user req db).1).0 ≡ ok resp
submit_intent-repeats w id user req db resp e lost =
    let (pi, found, mine, pending, fresh, intents) = submit-ended w id user req db resp e in
    submit-same w id user req (submit_intent w id user req db).1 db
      (ap (find (has_id id)) intents ∙ rw lost refl)
    ∙ e
