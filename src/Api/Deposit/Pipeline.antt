-- ===== src/Api/Deposit/Pipeline.antt =====
-- apps/api/internal/domain/deposit/webhook.go and processor.go: an event is received and stored, and
-- later processed to a deposit.
use nearby_payments_api.Base.{
  ℕ, Bool, false, not, ◌||◌, Option, none, some, List, [], ◌∷◌, Text, codes, text_eq, if◌then◌else◌,
}
use nearby_payments_api.Api.Errors.{
  wrapped, err_internal, err_bad_request, ok, err, Action, pure, raise, ◌>>=◌,
}
use nearby_payments_api.Api.Replies.{answered, refused, Handler, refuse}
use nearby_payments_api.Api.Payment.Service.{has_prefix}
use nearby_payments_api.Api.Deposit.Store.{
  DepositRoute, BridgeWebhookEvent, Deposit, err_webhook_signature_invalid, Tables, Step,
  get_unprocessed_webhook_events, insert_webhook_event, webhook_event_exists,
  mark_webhook_event_processed, get_deposit_route_by_provider_route_id, upsert_deposit,
}

-- The fields of an event's envelope.
pub record Envelope : Type 0 where
  pub id : Text
  pub event_type : Text

-- The data of "virtual_account.activity".
pub record Activity : Type 0 where
  pub id : Text
  pub virtual_account_id : Text
  pub status : Text
  pub initial_amount : Text
  pub currency : Text
  pub tx_hash : Text

-- The data of "liquidation_address.drain".
pub record Drain : Type 0 where
  pub id : Text
  pub liquidation_address_id : Text
  pub amount : Text
  pub currency : Text
  pub status : Text
  pub tx_hash : Text

-- The libraries that the two files call.
pub record Libraries : Type 0 where
  -- `json.Unmarshal` into each of the three structs
  pub unmarshal_envelope : Text → Option Envelope
  pub unmarshal_activity : Text → Option Activity
  pub unmarshal_drain : Text → Option Drain
  -- `base64.StdEncoding.DecodeString`
  pub decode : Text → Option Text
  -- `rsa.VerifyPKCS1v15` of the SHA-256 digest of a body, under the key of the configuration
  pub verify : (body signature : Text) → Bool
  -- what a JSONB column keeps of a text
  pub jsonb : Text → Option Text

-- What the rest of the world answers while one event is received or processed.
pub record Moment : Type 0 where
  pub up : Step → Bool
  pub now : ℕ
  pub new_id : Text

module _ (lib : Libraries) where
  open lib use {unmarshal_envelope, unmarshal_activity, unmarshal_drain, decode, verify, jsonb}

  -- The header is the empty text where it is missing.
  unfoldable pub verify_signature : Text → Text → Bool
  verify_signature header body =
      if text_eq header []
      then false
      else elim (decode header) [ none ↦ false | some signature ↦ verify body signature ]

  module _ (m : Moment) where
    open m use {up, now, new_id}

    abbrev pub new_event : Envelope → Text → BridgeWebhookEvent
    new_event envelope body = record {
      id = new_id;
      provider_event_id = envelope.id;
      event_type = envelope.event_type;
      raw_payload = body;
      processed = false;
      created_at = now;
    }

    -- The end of the handler: the event is stored unless it has been.
    receive : Envelope → Text → Action Tables (Unit {0})
    receive envelope body = do
      stored ← webhook_event_exists up envelope.id
      if stored then pure tt else insert_webhook_event up jsonb (new_event envelope body)

    -- `w.WriteHeader(http.StatusOK)`, or ErrInternal for whatever error.
    abbrev pub acknowledge : Action Tables (Unit {0}) → Handler Tables (Unit {0})
    acknowledge call db =
        let (r, db') = call db in
        elim r [ ok a ↦ (answered 200 tt, db') | err e ↦ (refused err_internal, db') ]

    unfoldable pub handle_bridge_webhook : Option Text → Text → Handler Tables (Unit {0})
    unfolding receive verify_signature
    handle_bridge_webhook none header = refuse err_bad_request
    handle_bridge_webhook (some body) header =
        if not (verify_signature header body)
        then refuse err_webhook_signature_invalid
        else elim (unmarshal_envelope body) [
          | none ↦ refuse err_bad_request
          | some envelope ↦
              if text_eq envelope.id [] || text_eq envelope.event_type []
              then refuse err_bad_request
              else acknowledge (receive envelope body)
        ]

    abbrev pub activity_deposit : DepositRoute → Activity → Deposit
    activity_deposit route d = record {
      id = new_id;
      user_id = route.user_id;
      route_id = route.id;
      provider = codes "bridge";
      provider_deposit_id = d.id;
      kind = codes "virtual_account";
      status = d.status;
      amount = d.initial_amount;
      currency = d.currency;
      tx_hash = d.tx_hash;
      created_at = now;
      updated_at = now;
    }

    abbrev pub drain_deposit : DepositRoute → Drain → Deposit
    drain_deposit route d = record {
      id = new_id;
      user_id = route.user_id;
      route_id = route.id;
      provider = codes "bridge";
      provider_deposit_id = d.id;
      kind = codes "liquidation_address";
      status = d.status;
      amount = d.amount;
      currency = d.currency;
      tx_hash = d.tx_hash;
      created_at = now;
      updated_at = now;
    }

    -- The deposit is stored for the route, if there is one.
    unfoldable pub store_deposit : Text → (DepositRoute → Deposit) → Action Tables (Unit {0})
    store_deposit provider_route_id deposit = do
      route ← get_deposit_route_by_provider_route_id up provider_route_id
      elim route [ none ↦ pure tt | some r ↦ upsert_deposit up (deposit r) ]

    unfoldable pub process_virtual_account_activity : BridgeWebhookEvent → Action Tables (Unit {0})
    process_virtual_account_activity ev = elim (unmarshal_activity ev.raw_payload) [
      | none ↦ raise wrapped
      | some d ↦
          if text_eq d.virtual_account_id [] || text_eq d.status []
          then pure tt
          else store_deposit d.virtual_account_id (λ r. activity_deposit r d)
    ]

    unfoldable pub process_liquidation_drain : BridgeWebhookEvent → Action Tables (Unit {0})
    process_liquidation_drain ev = elim (unmarshal_drain ev.raw_payload) [
      | none ↦ raise wrapped
      | some d ↦
          if text_eq d.liquidation_address_id [] || text_eq d.status []
          then pure tt
          else store_deposit d.liquidation_address_id (λ r. drain_deposit r d)
    ]

    unfoldable pub process : BridgeWebhookEvent → Action Tables (Unit {0})
    process ev =
        if text_eq ev.event_type (codes "virtual_account.activity")
        then process_virtual_account_activity ev
        else if text_eq ev.event_type (codes "liquidation_address.drain")
        then process_liquidation_drain ev
        else if has_prefix ev.event_type (codes "kyc_link.")
        then pure tt
        else pure tt

    -- The body of the loop: an event is marked if it was processed, and errors are only logged.
    unfoldable pub process_one : BridgeWebhookEvent → Tables → Tables
    process_one ev db =
        let (r, db') = process ev db in
        elim r [ err e ↦ db' | ok a ↦ (mark_webhook_event_processed up ev.id db').1 ]

  module _ (moment : BridgeWebhookEvent → Moment) where
    unfoldable pub process_each : List BridgeWebhookEvent → Tables → Tables
    process_each [] db = db
    process_each (ev ∷ evs) db = process_each evs (process_one (moment ev) ev db)

    -- `up` says whether the query answers, and `order` is the order that ORDER BY created_at gives.
    unfoldable pub process_all :
        Bool → (List BridgeWebhookEvent → List BridgeWebhookEvent) → Tables → Tables
    process_all up order db = elim (get_unprocessed_webhook_events up order 50 db).0 [
      | err e ↦ db
      | ok events ↦ process_each events db
    ]
