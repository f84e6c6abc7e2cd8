-- ===== src/Api/Nearby/Service.antt =====
-- apps/api/internal/domain/nearby/service.go and handler.go, method by method.
use nearby_payments_api.Base.{
  ℕ, ◌+◌, ◌*◌, Bool, not, ◌&&◌, ◌||◌, Option, none, some, [], Text, codes, text_eq, ltb,
  if◌then◌else◌,
}
use nearby_payments_api.Api.Errors.{Error, Result, ok, err, Action, pure, raise, ◌>>=◌, ◌>>◌}
use nearby_payments_api.Api.Replies.{
  Handler, refuse, with_session, with_body, respond, validation_error,
}
use nearby_payments_api.Api.Wallets.{WalletBinding}
use nearby_payments_api.Api.Nearby.Types.{
  NearbySession, InitiateSessionRequest, InitiateSessionResponse, GetSessionResponse,
  AcknowledgeSessionRequest, AcknowledgeSessionResponse, err_session_not_found, err_session_expired,
  err_session_not_pending, err_no_wallet_bound, err_invalid_payload, Tables, Step, initiator_wallet,
  recipient_wallet, create_session, get_session_by_id, update_session_status, get_wallet_binding,
  get_wallet_binding_by_sui_address,
}

abbrev pub session_ttl : ℕ
session_ttl = 5 * 60

-- `allowedPayloadTypes`
unfoldable pub is_allowed_payload_type : Text → Bool
is_allowed_payload_type t = text_eq t (codes "payment_request") || text_eq t (codes "contact_share")

-- What the rest of the world answers during one call of the service.
pub record World : Type 0 where
  -- whether the database answers
  pub up : Step → Bool
  -- `utils.NowUnix` at its first and its second call
  pub now : ℕ
  pub later : ℕ
  -- `utils.NewID`
  pub new_id : Text

-- The checks of the request, in their order; `none` lets it pass.
unfoldable pub refused_session : InitiateSessionRequest → Option Error
refused_session req =
    if not (is_allowed_payload_type req.payload_type)
    then some err_invalid_payload
    else if text_eq req.payload_data []
    then some err_invalid_payload
    else if text_eq req.recipient_sui_address []
    then some err_no_wallet_bound
    else none

-- The address of a wallet that was found, or the empty text: an error is passed over.
abbrev pub address_of : Result (Option WalletBinding) → Text
address_of (err e) = []
address_of (ok none) = []
address_of (ok (some wb)) = wb.sui_address

-- `ns != nil`, and the user is one of the two of the session.
abbrev pub taking_part : Option NearbySession → Text → Option NearbySession
taking_part none user = none
taking_part (some ns) user =
    if not (text_eq ns.initiator_user_id user) && not (text_eq ns.recipient_user_id user)
    then none
    else some ns

-- `ns != nil`, and the user is the recipient.
abbrev pub received : Option NearbySession → Text → Option NearbySession
received none user = none
received (some ns) user = if text_eq ns.recipient_user_id user then some ns else none

module _ (w : World) where
  open w use {up, now, later, new_id}

  abbrev pub new_session : Text → Text → InitiateSessionRequest → NearbySession
  new_session initiator recipient req = record {
    id = new_id;
    initiator_user_id = initiator;
    recipient_user_id = recipient;
    status = codes "pending";
    payload_type = req.payload_type;
    payload_data = req.payload_data;
    created_at = now;
    updated_at = now;
    expires_at = now + session_ttl;
  }

  store_session : NearbySession → Text → Action Tables InitiateSessionResponse
  store_session ns address = do
    create_session up ns
    pure (record {
      session_id = ns.id;
      recipient_sui_address = address;
      payload_type = ns.payload_type;
      status = ns.status;
      expires_at = ns.expires_at;
    })

  unfoldable pub initiate_session :
      Text → InitiateSessionRequest → Action Tables InitiateSessionResponse
  unfolding store_session
  initiate_session user req = elim (refused_session req) [
    | some e ↦ raise e
    | none ↦ (do
      recipient ← get_wallet_binding_by_sui_address up req.recipient_sui_address
      elim recipient [
        | none ↦ raise err_session_not_found
        | some wb ↦ store_session (new_session user wb.user_id req) req.recipient_sui_address
      ])
  ]

  -- A wallet that is missing, or whose query fails, is left out of the answer.
  abbrev pub session_response : NearbySession → Tables → GetSessionResponse
  session_response ns db = record {
    session_id = ns.id;
    initiator_sui_address =
        address_of (get_wallet_binding up initiator_wallet ns.initiator_user_id db).0;
    recipient_sui_address =
        address_of (get_wallet_binding up recipient_wallet ns.recipient_user_id db).0;
    payload_type = ns.payload_type;
    payload_data = ns.payload_data;
    status = ns.status;
    created_at = ns.created_at;
    expires_at = ns.expires_at;
  }

  unfoldable pub get_session : Text → Text → Action Tables GetSessionResponse
  get_session id user = do
    found ← get_session_by_id up id
    elim (taking_part found user) [
      | none ↦ raise err_session_not_found
      | some ns ↦
          if ltb ns.expires_at now
          then raise err_session_expired
          else (λ db. pure (session_response ns db) db)
    ]

  answered_session : NearbySession → Bool → Action Tables AcknowledgeSessionResponse
  answered_session ns accept =
      let status = if accept then codes "accepted" else codes "declined" in
      do
        update_session_status up ns.id status later
        pure (record { session_id = ns.id; status = status })

  unfoldable pub acknowledge_session :
      Text → Text → AcknowledgeSessionRequest → Action Tables AcknowledgeSessionResponse
  unfolding answered_session
  acknowledge_session id user req = do
    found ← get_session_by_id up id
    elim (received found user) [
      | none ↦ raise err_session_not_found
      | some ns ↦
          if not (text_eq ns.status (codes "pending"))
          then raise err_session_not_pending
          else if ltb ns.expires_at now
          then raise err_session_expired
          else answered_session ns req.accept
    ]

  unfoldable pub handle_initiate :
      Option Text → Option InitiateSessionRequest → Handler Tables InitiateSessionResponse
  unfolding initiate_session
  handle_initiate session body = with_session session (λ user. with_body body (λ req.
      if text_eq req.recipient_sui_address []
        || text_eq req.payload_type []
        || text_eq req.payload_data []
      then refuse (
          validation_error (codes "recipientSuiAddress, payloadType, and payloadData are required"))
      else respond 201 (initiate_session user req)))

  unfoldable pub handle_get : Option Text → Text → Handler Tables GetSessionResponse
  unfolding get_session
  handle_get session id = with_session session (λ user. respond 200 (get_session id user))

  unfoldable pub handle_acknowledge :
      Option Text
      → Text
      → Option AcknowledgeSessionRequest
      → Handler Tables AcknowledgeSessionResponse
  unfolding acknowledge_session
  handle_acknowledge session id body =
      with_session session
        (λ user. with_body body (λ req. respond 200 (acknowledge_session id user req)))
