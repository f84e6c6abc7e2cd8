-- ===== src/Api/Payment/Types.antt =====
-- apps/api/internal/domain/payment/types.go and errors.go. Times are seconds since 1970.
use nearby_payments_api.Base.{ℕ, Text, codes}
use nearby_payments_api.Api.Errors.{Error, new_error}

pub record PaymentIntent : Type 0 where
  pub id : Text
  pub user_id : Text
  pub idempotency_key : Text
  pub recipient_address : Text
  pub recipient_name : Text
  pub asset : Text
  pub amount_atomic : Text
  pub status : Text
  pub tx_digest : Text
  pub sponsor_address : Text
  pub funding_mode : Text
  pub created_at : ℕ
  pub updated_at : ℕ
  pub expires_at : ℕ

pub record Payment : Type 0 where
  pub id : Text
  pub intent_id : Text
  pub user_id : Text
  pub recipient_address : Text
  pub asset : Text
  pub amount_atomic : Text
  pub tx_digest : Text
  pub status : Text
  pub confirmed_at : ℕ
  pub created_at : ℕ

pub record CreateIntentRequest : Type 0 where
  pub recipient_address : Text
  pub recipient_name : Text
  pub asset : Text
  pub amount_atomic : Text
  pub funding_mode : Text
  pub idempotency_key : Text

pub record CreateIntentResponse : Type 0 where
  pub intent_id : Text
  pub recipient_address : Text
  pub asset : Text
  pub amount_atomic : Text
  pub funding_mode : Text
  pub sponsor_address : Text
  pub status : Text
  pub expires_at : ℕ

pub record SubmitIntentRequest : Type 0 where
  pub tx_bytes : Text
  pub user_signature : Text

pub record SubmitIntentResponse : Type 0 where
  pub payment_id : Text
  pub tx_digest : Text
  pub status : Text

pub record GetIntentResponse : Type 0 where
  pub intent_id : Text
  pub status : Text
  pub recipient_address : Text
  pub asset : Text
  pub amount_atomic : Text
  pub tx_digest : Text
  pub created_at : ℕ
  pub expires_at : ℕ

pub record GetPaymentResponse : Type 0 where
  pub payment_id : Text
  pub intent_id : Text
  pub recipient_address : Text
  pub asset : Text
  pub amount_atomic : Text
  pub tx_digest : Text
  pub status : Text
  pub confirmed_at : ℕ
  pub created_at : ℕ

abbrev pub err_intent_not_found : Error
err_intent_not_found = new_error (codes "intent_not_found") (codes "Payment intent not found") 404

abbrev pub err_intent_expired : Error
err_intent_expired = new_error (codes "intent_expired") (codes "Payment intent has expired") 410

abbrev pub err_intent_not_pending : Error
err_intent_not_pending =
    new_error (codes "intent_not_pending") (codes "Payment intent is not in a submittable state")
      409

abbrev pub err_payment_not_found : Error
err_payment_not_found = new_error (codes "payment_not_found") (codes "Payment not found") 404

abbrev pub err_asset_unsupported : Error
err_asset_unsupported = new_error (codes "asset_unsupported") (codes "Asset is not supported") 400

abbrev pub err_submit_failed : Error
err_submit_failed = new_error (codes "submit_failed") (codes "Transaction submission failed") 502

abbrev pub err_invalid_amount : Error
err_invalid_amount = new_error (codes "invalid_amount") (codes "Amount is invalid") 400

abbrev pub err_invalid_address : Error
err_invalid_address = new_error (codes "invalid_address") (codes "Recipient address is invalid") 400
