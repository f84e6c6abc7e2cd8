-- ===== src/Api/Payment/Service.antt =====
-- apps/api/internal/domain/payment/service.go, method by method.
use nearby_payments_api.Base.{
  ℕ, ◌+◌, ◌*◌, Bool, true, false, not, ◌&&◌, ◌||◌, Option, none, some, [], ◌∷◌, Text, codes,
  text_eq, length, ltb, ◌==◌, if◌then◌else◌,
}
use nearby_payments_api.Api.Errors.{
  Error, wrapped, panic, Result, ok, err, Outcome, panicked, returned, Action, pure, raise, ◌>>=◌,
  ◌>>◌, ignore,
}
use nearby_payments_api.Api.Payment.Types.{
  PaymentIntent, Payment, CreateIntentRequest, CreateIntentResponse, SubmitIntentRequest,
  SubmitIntentResponse, GetIntentResponse, GetPaymentResponse, err_intent_not_found,
  err_intent_expired, err_intent_not_pending, err_payment_not_found, err_asset_unsupported,
  err_submit_failed, err_invalid_amount, err_invalid_address,
}
use nearby_payments_api.Api.Payment.Store.{
  Db, Statement, get_intent_by_id, get_intent_by_idempotency_key, insert, update_intent_status,
  create_payment, get_payment_by_id,
}

-- What the rest of the world answers during one call of the service.
pub record World : Type 0 where
  -- whether the database answers
  pub up : Statement → Bool
  -- `utils.NowUnix` at its first and its second call
  pub now : ℕ
  pub later : ℕ
  -- `utils.NewID`
  pub new_id : Text
  -- `sponsor.Address`
  pub sponsor_address : Text
  -- `base64.StdEncoding.DecodeString`
  pub decode : Text → Option Text
  -- `sponsor.SubmitSponsoredTransaction` and `RelayUserTransaction`: the digest, an error, or, of the
  -- first, a panic
  pub submit_sponsored : Text → Text → Outcome Text
  pub relay : Text → Text → Result Text

abbrev pub intent_ttl : ℕ
intent_ttl = 2 * 60

-- `strings.HasPrefix`
unfoldable pub has_prefix : Text → Text → Bool
has_prefix s [] = true
has_prefix [] (b ∷ t) = false
has_prefix (a ∷ s) (b ∷ t) = a == b && has_prefix s t

abbrev pub to_create_intent_response : PaymentIntent → Text → CreateIntentResponse
to_create_intent_response pi sponsor = record {
  intent_id = pi.id;
  recipient_address = pi.recipient_address;
  asset = pi.asset;
  amount_atomic = pi.amount_atomic;
  funding_mode = pi.funding_mode;
  sponsor_address = sponsor;
  status = pi.status;
  expires_at = pi.expires_at;
}

-- The checks of the request, in their order; `none` lets it pass.
unfoldable pub refused_request : CreateIntentRequest → Option Error
unfolding has_prefix
refused_request req =
    if not (text_eq req.asset (codes "USDsui"))
    then some err_asset_unsupported
    else if text_eq req.amount_atomic [] || text_eq req.amount_atomic (codes "0")
    then some err_invalid_amount
    else if not (has_prefix req.recipient_address (codes "0x"))
        || not (length req.recipient_address == 66)
    then some err_invalid_address
    else if text_eq req.idempotency_key []
    then some err_invalid_amount
    else none

-- `pi == nil || pi.UserID != userID`, for the intent and its owner.
abbrev pub owned : Option PaymentIntent → Text → Option PaymentIntent
owned none user = none
owned (some pi) user = if text_eq pi.user_id user then some pi else none

module _ (w : World) where
  open w use {up, now, later, new_id, sponsor_address, decode, submit_sponsored, relay}

  abbrev pub new_intent : Text → CreateIntentRequest → PaymentIntent
  new_intent user req =
      let mode = if text_eq req.funding_mode [] then codes "user_paid" else req.funding_mode in
      record {
        id = new_id;
        user_id = user;
        idempotency_key = req.idempotency_key;
        recipient_address = req.recipient_address;
        recipient_name = req.recipient_name;
        asset = req.asset;
        amount_atomic = req.amount_atomic;
        status = codes "pending";
        tx_digest = [];
        sponsor_address = if text_eq mode (codes "sponsored") then sponsor_address else [];
        funding_mode = mode;
        created_at = now;
        updated_at = now;
        expires_at = now + intent_ttl;
      }

  store_intent : PaymentIntent → Action Db CreateIntentResponse
  store_intent pi = do insert up pi; pure (to_create_intent_response pi pi.sponsor_address)

  unfoldable pub create_intent : Text → CreateIntentRequest → Action Db CreateIntentResponse
  unfolding store_intent
  create_intent user req = elim (refused_request req) [
    | some e ↦ raise e
    | none ↦ (do
      existing ← get_intent_by_idempotency_key up req.idempotency_key
      elim existing [
        | some pi ↦ pure (to_create_intent_response pi pi.sponsor_address)
        | none ↦ store_intent (new_intent user req)
      ])
  ]

  unfoldable pub get_intent : Text → Text → Action Db GetIntentResponse
  get_intent id user = do
    found ← get_intent_by_id up id
    elim (owned found user) [
      | none ↦ raise err_intent_not_found
      | some pi ↦ pure (record {
        intent_id = pi.id;
        status = pi.status;
        recipient_address = pi.recipient_address;
        asset = pi.asset;
        amount_atomic = pi.amount_atomic;
        tx_digest = pi.tx_digest;
        created_at = pi.created_at;
        expires_at = pi.expires_at;
      })
    ]

  -- The switch on `pi.FundingMode`.
  abbrev pub execute : PaymentIntent → Text → Text → Outcome Text
  execute pi tx signature =
      if text_eq pi.funding_mode (codes "sponsored")
      then submit_sponsored tx signature
      else returned (relay tx signature)

  abbrev pub new_payment : PaymentIntent → Text → Text → Payment
  new_payment pi user digest = record {
    id = new_id;
    intent_id = pi.id;
    user_id = user;
    recipient_address = pi.recipient_address;
    asset = pi.asset;
    amount_atomic = pi.amount_atomic;
    tx_digest = digest;
    status = codes "confirmed";
    confirmed_at = later;
    created_at = later;
  }

  -- What follows the attempt to execute: the errors of the statements are dropped.
  record_outcome : PaymentIntent → Text → Outcome Text → Action Db SubmitIntentResponse
  record_outcome pi user panicked = raise panic
  record_outcome pi user (returned (err e)) = do
    ignore (update_intent_status up pi.id (codes "failed") [] later)
    raise err_submit_failed
  record_outcome pi user (returned (ok digest)) = do
    ignore (update_intent_status up pi.id (codes "submitted") digest later)
    ignore (create_payment up (new_payment pi user digest))
    pure (record { payment_id = new_id; tx_digest = digest; status = codes "confirmed" })

  submit_owned : PaymentIntent → Text → SubmitIntentRequest → Action Db SubmitIntentResponse
  unfolding record_outcome
  submit_owned pi user req =
      if not (text_eq pi.status (codes "pending"))
      then raise err_intent_not_pending
      else if ltb pi.expires_at now
      then raise err_intent_expired
      else elim (decode req.tx_bytes) [
        | none ↦ raise wrapped
        | some tx ↦ record_outcome pi user (execute pi tx req.user_signature)
      ]

  unfoldable pub submit_intent : Text → Text → SubmitIntentRequest → Action Db SubmitIntentResponse
  unfolding submit_owned
  submit_intent id user req = do
    found ← get_intent_by_id up id
    elim (owned found user) [
      | none ↦ raise err_intent_not_found
      | some pi ↦ submit_owned pi user req
    ]

  unfoldable pub cancel_intent : Text → Text → Action Db (Unit {0})
  cancel_intent id user = do
    found ← get_intent_by_id up id
    elim (owned found user) [
      | none ↦ raise err_intent_not_found
      | some pi ↦
          if not (text_eq pi.status (codes "pending"))
          then raise err_intent_not_pending
          else update_intent_status up pi.id (codes "cancelled") [] now
    ]

  unfoldable pub get_payment : Text → Text → Action Db GetPaymentResponse
  get_payment id user = do
    found ← get_payment_by_id up id
    elim found [
      | none ↦ raise err_payment_not_found
      | some p ↦
          if not (text_eq p.user_id user)
          then raise err_payment_not_found
          else pure (record {
            payment_id = p.id;
            intent_id = p.intent_id;
            recipient_address = p.recipient_address;
            asset = p.asset;
            amount_atomic = p.amount_atomic;
            tx_digest = p.tx_digest;
            status = p.status;
            confirmed_at = p.confirmed_at;
            created_at = p.created_at;
          })
    ]
