-- ===== src/Api/Deposit/Store.antt =====
-- apps/api/internal/domain/deposit: the rows of types.go and the statements of store.go that the
-- webhook and the processor run, over the tables of apps/api/internal/db/migrations/002_deposit.sql
-- and 009_deposits.sql. Times are seconds since 1970; a NULL text is the empty text.
use nearby_payments_api.Base.{
  ℕ, Bool, true, false, ◌&&◌, Option, none, some, List, [], ◌∷◌, Text, codes, text_eq,
  if◌then◌else◌, take,
}
use nearby_payments_api.Api.Errors.{Error, new_error, Action, query, exec}
use nearby_payments_api.Api.Rows.{find, update_where}
use nearby_payments_api.Api.Wallets.{WalletBinding}

pub record DepositRoute : Type 0 where
  pub id : Text
  pub user_id : Text
  pub provider : Text
  pub provider_route_id : Text
  pub kind : Text
  pub source_rail : Text
  pub source_currency : Text
  pub source_address : Text
  pub destination_rail : Text
  pub destination_currency : Text
  pub destination_addr_hash : Text
  pub state : Text
  pub created_at : ℕ
  pub updated_at : ℕ

pub record BridgeWebhookEvent : Type 0 where
  pub id : Text
  pub provider_event_id : Text
  pub event_type : Text
  pub raw_payload : Text
  pub processed : Bool
  pub created_at : ℕ

pub record Deposit : Type 0 where
  pub id : Text
  pub user_id : Text
  pub route_id : Text
  pub provider : Text
  pub provider_deposit_id : Text
  pub kind : Text
  pub status : Text
  pub amount : Text
  pub currency : Text
  pub tx_hash : Text
  pub created_at : ℕ
  pub updated_at : ℕ

abbrev pub err_webhook_signature_invalid : Error
err_webhook_signature_invalid =
    new_error (codes "webhook_signature_invalid") (codes "Webhook signature is invalid") 401

pub record BridgeLink : Type 0 where
  pub user_id : Text
  pub bridge_customer_id : Text
  pub bridge_kyc_link_id : Text
  pub created_at : ℕ
  pub updated_at : ℕ

pub record Tables : Type 0 where
  pub routes : List DepositRoute
  pub events : List BridgeWebhookEvent
  pub deposits : List Deposit
  pub links : List BridgeLink
  pub wallets : List WalletBinding

-- The statements, each of which may fail by itself.
pub data Step : Type 0 where
  event_exists insert_event mark_event route_by_provider upsert : Step
  select_wallet select_link select_link_again upsert_link select_deposits select_deposit : Step
  -- by the source of the route
  select_route insert_route : (source_rail source_currency : Text) → Step

abbrev pub is_event : Text → BridgeWebhookEvent → Bool
is_event provider_event_id ev = text_eq ev.provider_event_id provider_event_id

-- The UNIQUE constraint on (provider, provider_deposit_id).
abbrev pub is_deposit : Text → Text → Deposit → Bool
is_deposit provider provider_deposit_id d =
    text_eq d.provider provider && text_eq d.provider_deposit_id provider_deposit_id

-- INSERT INTO bridge_webhook_events: both ids are unique.
unfoldable pub add_event : BridgeWebhookEvent → Tables → Option Tables
add_event ev db = elim (find (λ (e : BridgeWebhookEvent). text_eq e.id ev.id) db.events) [
  | some _ ↦ none
  | none ↦ elim (find (is_event ev.provider_event_id) db.events) [
    | some _ ↦ none
    | none ↦ some (record db { events = ev ∷ db.events })
  ]
]

-- `COALESCE(EXCLUDED.tx_hash, deposits.tx_hash)`, where an empty hash is stored as NULL.
abbrev pub coalesce : Text → Text → Text
coalesce [] old = old
coalesce (c ∷ t) old = c ∷ t

-- ON CONFLICT … DO UPDATE SET
abbrev pub refreshed : Deposit → Deposit → Deposit
refreshed d old = record old {
  status = d.status;
  tx_hash = coalesce d.tx_hash old.tx_hash;
  updated_at = d.updated_at;
}

-- INSERT INTO deposits … ON CONFLICT (provider, provider_deposit_id)
unfoldable pub put_deposit : Deposit → Tables → Option Tables
put_deposit d db = elim (find (is_deposit d.provider d.provider_deposit_id) db.deposits) [
  | some _ ↦ some (record db {
    deposits = update_where (is_deposit d.provider d.provider_deposit_id) (refreshed d) db.deposits;
  })
  | none ↦ elim (find (λ (e : Deposit). text_eq e.id d.id) db.deposits) [
    | some _ ↦ none
    | none ↦ some (record db { deposits = d ∷ db.deposits })
  ]
]

-- `SELECT EXISTS`
abbrev pub exists : {A : Type 0} → Option A → Bool
exists none = false
exists (some _) = true

abbrev pub unprocessed : List BridgeWebhookEvent → List BridgeWebhookEvent
unprocessed [] = []
unprocessed (ev ∷ l) = let rest = unprocessed l in if ev.processed then rest else ev ∷ rest

unfoldable pub get_unprocessed_webhook_events :
    Bool
    → (List BridgeWebhookEvent → List BridgeWebhookEvent)
    → ℕ
    → Action Tables (List BridgeWebhookEvent)
get_unprocessed_webhook_events up order limit =
    query up (λ db. take limit (order (unprocessed db.events)))

module _ (up : Step → Bool) where
  -- The column raw_payload is JSONB: what it keeps of the text, or a refusal, is the database's.
  unfoldable pub insert_webhook_event :
      (Text → Option Text) → BridgeWebhookEvent → Action Tables (Unit {0})
  unfolding add_event
  insert_webhook_event jsonb ev = exec (up insert_event) (λ db. elim (jsonb ev.raw_payload) [
    | none ↦ none
    | some payload ↦ add_event (record ev { raw_payload = payload }) db
  ])

  unfoldable pub webhook_event_exists : Text → Action Tables Bool
  webhook_event_exists provider_event_id =
      query (up event_exists) (λ db. exists (find (is_event provider_event_id) db.events))

  unfoldable pub mark_webhook_event_processed : Text → Action Tables (Unit {0})
  mark_webhook_event_processed id = exec (up mark_event) (λ db. some (record db {
    events =
        update_where (λ (e : BridgeWebhookEvent). text_eq e.id id)
          (λ e. record e { processed = true }) db.events;
  }))

  unfoldable pub get_deposit_route_by_provider_route_id : Text → Action Tables (Option DepositRoute)
  get_deposit_route_by_provider_route_id provider_route_id =
      query (up route_by_provider)
        (λ db. find (λ (r : DepositRoute). text_eq r.provider_route_id provider_route_id) db.routes)

  unfoldable pub upsert_deposit : Deposit → Action Tables (Unit {0})
  unfolding put_deposit
  upsert_deposit d = exec (up upsert) (put_deposit d)
