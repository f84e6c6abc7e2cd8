-- ===== src/Api/Deposit/Shown.antt =====
-- What GetOptions of apps/api/internal/domain/deposit/service.go shows: the states of types.go.
use nearby_payments_api.Base.{Bool, List, Text}

pub record UsdAccount : Type 0 where
  pub id : Text
  pub currency : Text
  pub rails : List Text
  pub bank_name : Text
  pub account_number_last4 : Text
  pub routing_number : Text
  pub account_holder_name : Text

-- KycRequiredState, KycPendingState and AccountDetailsState, each without its `kind`.
pub data FiatUsdState : Type 0 where
  kyc_required : (bridge_kyc_link_id kyc_url tos_url status : Text) → FiatUsdState
  kyc_pending : (bridge_kyc_link_id status : Text) → FiatUsdState
  account_details : UsdAccount → FiatUsdState

pub record CryptoDepositRoute : Type 0 where
  pub rail : Text
  pub currency : Text
  pub address : Text
  pub supported_chains : List Text
  pub memo_required : Bool

pub record DepositOptionsResponse : Type 0 where
  pub fiat_usd : FiatUsdState
  -- `Crypto.Routes`
  pub crypto : List CryptoDepositRoute
