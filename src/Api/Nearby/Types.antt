-- ===== src/Api/Nearby/Types.antt =====
-- apps/api/internal/domain/nearby/types.go, errors.go and store.go, over the table of
-- apps/api/internal/db/migrations/011_nearby_sessions_v2.sql. Times are seconds since 1970. That the
-- users of a session exist is left out.
use nearby_payments_api.Base.{ℕ, Bool, Option, none, some, List, ◌∷◌, Text, codes}
use nearby_payments_api.Api.Errors.{Error, new_error, Action, query, exec}
use nearby_payments_api.Api.Rows.{find, keyed, update}
use nearby_payments_api.Api.Wallets.{WalletBinding, wallet_of_user, wallet_of_address}

pub record NearbySession : Type 0 where
  pub id : Text
  pub initiator_user_id : Text
  pub recipient_user_id : Text
  pub status : Text
  pub payload_type : Text
  pub payload_data : Text
  pub created_at : ℕ
  pub updated_at : ℕ
  pub expires_at : ℕ

pub record InitiateSessionRequest : Type 0 where
  pub recipient_sui_address : Text
  pub payload_type : Text
  pub payload_data : Text

pub record InitiateSessionResponse : Type 0 where
  pub session_id : Text
  pub recipient_sui_address : Text
  pub payload_type : Text
  pub status : Text
  pub expires_at : ℕ

pub record GetSessionResponse : Type 0 where
  pub session_id : Text
  pub initiator_sui_address : Text
  pub recipient_sui_address : Text
  pub payload_type : Text
  pub payload_data : Text
  pub status : Text
  pub created_at : ℕ
  pub expires_at : ℕ

pub record AcknowledgeSessionRequest : Type 0 where
  pub accept : Bool

pub record AcknowledgeSessionResponse : Type 0 where
  pub session_id : Text
  pub status : Text

abbrev pub err_session_not_found : Error
err_session_not_found = new_error (codes "session_not_found") (codes "Nearby session not found") 404

abbrev pub err_session_expired : Error
err_session_expired = new_error (codes "session_expired") (codes "Nearby session has expired") 410

abbrev pub err_session_not_pending : Error
err_session_not_pending =
    new_error (codes "session_not_pending") (codes "Nearby session is not in a pending state") 409

abbrev pub err_no_wallet_bound : Error
err_no_wallet_bound =
    new_error (codes "no_wallet_bound") (codes "No Sui wallet bound to this account") 400

abbrev pub err_invalid_payload : Error
err_invalid_payload =
    new_error (codes "invalid_payload") (codes "Payload type or data is invalid") 400

-- The two tables that the service reads.
pub record Tables : Type 0 where
  pub sessions : List NearbySession
  pub wallets : List WalletBinding

-- The statements that the service runs, each of which may fail by itself.
pub data Step : Type 0 where
  insert_session select_session update_session wallet_by_address initiator_wallet recipient_wallet :
      Step

abbrev pub session_id : NearbySession → Text
session_id ns = ns.id

abbrev pub session_at : Text → List NearbySession → Option NearbySession
session_at id sessions = find (keyed session_id id) sessions

-- INSERT INTO nearby_sessions, whose id is the primary key.
unfoldable pub add_session : NearbySession → Tables → Option Tables
add_session ns db = elim (session_at ns.id db.sessions) [
  | some _ ↦ none
  | none ↦ some (record db { sessions = ns ∷ db.sessions })
]

-- What UPDATE sets in a row.
abbrev pub with_status : Text → ℕ → NearbySession → NearbySession
with_status status at ns = record ns { status = status; updated_at = at }

module _ (up : Step → Bool) where
  unfoldable pub create_session : NearbySession → Action Tables (Unit {0})
  unfolding add_session
  create_session ns = exec (up insert_session) (add_session ns)

  unfoldable pub get_session_by_id : Text → Action Tables (Option NearbySession)
  get_session_by_id id = query (up select_session) (λ db. session_at id db.sessions)

  unfoldable pub update_session_status : Text → Text → ℕ → Action Tables (Unit {0})
  update_session_status id status at = exec (up update_session) (λ db.
      some (record db { sessions = update session_id id (with_status status at) db.sessions }))

  -- The queries of auth's store.
  unfoldable pub get_wallet_binding : Step → Text → Action Tables (Option WalletBinding)
  get_wallet_binding step user = query (up step) (λ db. wallet_of_user user db.wallets)

  unfoldable pub get_wallet_binding_by_sui_address : Text → Action Tables (Option WalletBinding)
  get_wallet_binding_by_sui_address address =
      query (up wallet_by_address) (λ db. wallet_of_address address db.wallets)
