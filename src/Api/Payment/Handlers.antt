-- ===== src/Api/Payment/Handlers.antt =====
-- apps/api/internal/domain/payment/handler.go, handler by handler.
use nearby_payments_api.Base.{◌||◌, Option, [], Text, codes, text_eq, if◌then◌else◌}
use nearby_payments_api.Api.Replies.{
  Handler, refuse, with_session, with_body, respond, validation_error,
}
use nearby_payments_api.Api.Payment.Types.{
  CreateIntentRequest, CreateIntentResponse, SubmitIntentRequest, SubmitIntentResponse,
  GetIntentResponse, GetPaymentResponse,
}
use nearby_payments_api.Api.Payment.Store.{Db}
use nearby_payments_api.Api.Payment.Service.{
  World, create_intent, get_intent, submit_intent, cancel_intent, get_payment,
}

module _ (w : World) where
  unfoldable pub handle_create :
      Option Text → Option CreateIntentRequest → Handler Db CreateIntentResponse
  handle_create session body = with_session session (λ user. with_body body (λ req.
      if text_eq req.recipient_address []
        || text_eq req.asset []
        || text_eq req.amount_atomic []
        || text_eq req.idempotency_key []
      then refuse (
          validation_error
            (codes "recipientAddress, asset, amountAtomic, and idempotencyKey are required"))
      else respond 201 (create_intent w user req)))

  unfoldable pub handle_get_intent : Option Text → Text → Handler Db GetIntentResponse
  handle_get_intent session id = with_session session (λ user. respond 200 (get_intent w id user))

  unfoldable pub handle_submit :
      Option Text → Text → Option SubmitIntentRequest → Handler Db SubmitIntentResponse
  handle_submit session id body = with_session session (λ user. with_body body (λ req.
      if text_eq req.tx_bytes [] || text_eq req.user_signature []
      then refuse (validation_error (codes "txBytes and userSignature are required"))
      else respond 200 (submit_intent w id user req)))

  -- 204 and no body
  unfoldable pub handle_cancel : Option Text → Text → Handler Db (Unit {0})
  handle_cancel session id = with_session session (λ user. respond 204 (cancel_intent w id user))

  unfoldable pub handle_get_payment : Option Text → Text → Handler Db GetPaymentResponse
  handle_get_payment session id = with_session session (λ user. respond 200 (get_payment w id user))
