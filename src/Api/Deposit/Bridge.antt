-- ===== src/Api/Deposit/Bridge.antt =====
-- apps/api/internal/domain/deposit/bridge_client.go: what the client makes of Bridge's answers. The
-- answer of each HTTP call, decoded, is a parameter; `none` is any error.
use nearby_payments_api.Base.{
  Bool, true, false, ◌&&◌, Option, none, some, List, [], ◌∷◌, ◌++◌, Text, codes, text_eq,
  if◌then◌else◌,
}
use nearby_payments_api.Api.Rows.{find, map_some}

pub record BridgeHostedKycLink : Type 0 where
  pub id : Text
  pub customer_id : Text
  pub kyc_url : Text
  pub tos_url : Text
  pub status : Text

pub record BridgeCustomerEligibility : Type 0 where
  pub kyc_status : Text
  pub endorsed : Bool
  pub endorsement : Text

pub record BridgeVirtualAccount : Type 0 where
  pub id : Text
  pub currency : Text
  pub rails : List Text
  pub bank_name : Text
  pub account_number_last4 : Text
  pub routing_number : Text
  pub account_holder_name : Text

pub record BridgeLiquidationAddress : Type 0 where
  pub id : Text
  pub address : Text
  pub chain : Text
  pub currency : Text

pub record Endorsement : Type 0 where
  pub name : Text
  pub status : Text

pub record Customer : Type 0 where
  pub kyc_status : Text
  pub endorsements : List Endorsement

-- Bridge, as it answers during one call of the service.
pub record Bridge : Type 0 where
  -- POST /v0/kyc_links, by the address of mail, the type and the endorsement
  pub post_kyc_link : (email customer_type endorsement : Text) → Option BridgeHostedKycLink
  -- GET /v0/kyc_links/
  pub read_kyc_link : Text → Option BridgeHostedKycLink
  -- GET /v0/customers/
  pub read_customer : Text → Option Customer
  -- GET and POST of virtual_accounts; the currency and the rails of a new one are not read
  pub list_virtual_accounts : Text → Option (List BridgeVirtualAccount)
  pub post_virtual_account : (customer destination : Text) → Option BridgeVirtualAccount
  -- GET and POST of liquidation_addresses
  pub list_liquidation_addresses : Text → Option (List BridgeLiquidationAddress)
  pub post_liquidation_address :
      (customer chain currency destination : Text) → Option BridgeLiquidationAddress

-- The rows of an answer, none where the call failed.
abbrev pub listed : {A : Type 0} → Option (List A) → List A
listed none = []
listed (some l) = l

-- The loop over the endorsements.
abbrev pub is_endorsed : List Endorsement → Bool
is_endorsed [] = false
is_endorsed (e ∷ l) =
    let rest = is_endorsed l in
    if text_eq e.name (codes "base") && text_eq e.status (codes "approved") then true else rest

abbrev pub usd_account : BridgeVirtualAccount → BridgeVirtualAccount
usd_account va = record va { currency = codes "usd" }

abbrev pub new_account : BridgeVirtualAccount → BridgeVirtualAccount
new_account va = record va { currency = codes "usd"; rails = codes "ach_push" ∷ codes "wire" ∷ [] }

abbrev pub eligibility_of : Customer → BridgeCustomerEligibility
eligibility_of c = record {
  kyc_status = c.kyc_status;
  endorsed = is_endorsed c.endorsements;
  endorsement = codes "base";
}

module _ (b : Bridge) where
  open b use {
    post_kyc_link, read_kyc_link, read_customer, list_virtual_accounts, post_virtual_account,
    list_liquidation_addresses, post_liquidation_address,
  }

  abbrev pub create_hosted_kyc_link :
      (user customer_type endorsement : Text) → Option BridgeHostedKycLink
  create_hosted_kyc_link user customer_type endorsement =
      post_kyc_link (user ++ codes "@nearby.app") customer_type endorsement

  abbrev pub get_kyc_link : Text → Option BridgeHostedKycLink
  get_kyc_link id = read_kyc_link id

  abbrev pub get_customer_eligibility : Text → Option BridgeCustomerEligibility
  get_customer_eligibility customer = map_some eligibility_of (read_customer customer)

  -- The first account in dollars that there is, or a new one.
  unfoldable pub ensure_virtual_account :
      (customer destination : Text) → Option BridgeVirtualAccount
  ensure_virtual_account customer destination =
      elim (find (λ (va : BridgeVirtualAccount). text_eq va.currency (codes "usd"))
        (listed (list_virtual_accounts customer))) [
          | some va ↦ some (usd_account va)
          | none ↦ map_some new_account (post_virtual_account customer destination)
        ]

  -- The first address for the chain and the currency that there is, or a new one.
  unfoldable pub ensure_liquidation_address :
      (customer chain currency destination : Text) → Option BridgeLiquidationAddress
  ensure_liquidation_address customer chain currency destination =
      elim (find
        (λ (la : BridgeLiquidationAddress). text_eq la.chain chain && text_eq la.currency currency)
        (listed (list_liquidation_addresses customer))) [
          | some la ↦ some la
          | none ↦ post_liquidation_address customer chain currency destination
        ]
