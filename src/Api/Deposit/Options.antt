-- ===== src/Api/Deposit/Options.antt =====
-- GetOptions of apps/api/internal/domain/deposit/service.go: the state of a user's account in dollars
-- and of the addresses for crypto, over what Bridge answers.
use nearby_payments_api.Base.{
  ℕ, Bool, false, ◌&&◌, ◌||◌, Option, none, some, List, [], ◌∷◌, Text, codes, text_eq,
  if◌then◌else◌,
}
use nearby_payments_api.Api.Errors.{
  err_unprocessable, Result, ok, err, Action, pure, raise, ◌>>=◌, ◌>>◌,
}
use nearby_payments_api.Api.Replies.{Handler, with_session, respond}
use nearby_payments_api.Api.Deposit.Store.{
  DepositRoute, BridgeLink, Tables, Step, select_link, select_link_again,
}
use nearby_payments_api.Api.Deposit.Bridge.{
  BridgeHostedKycLink, BridgeCustomerEligibility, BridgeVirtualAccount, Bridge,
  create_hosted_kyc_link, get_kyc_link, get_customer_eligibility, ensure_virtual_account,
  ensure_liquidation_address,
}
use nearby_payments_api.Api.Deposit.Statements.{
  err_bridge_unavailable, get_wallet_binding, get_bridge_link_by_user_id, upsert_bridge_link,
  existing_route, create_deposit_route,
}
use nearby_payments_api.Api.Deposit.Shown.{
  UsdAccount, FiatUsdState, CryptoDepositRoute, DepositOptionsResponse, kyc_required, kyc_pending,
  account_details,
}

-- What the rest of the world answers during one call of the service.
pub record World : Type 0 where
  pub up : Step → Bool
  -- `ORDER BY created_at DESC`
  pub order : List DepositRoute → List DepositRoute
  pub bridge : Bridge
  -- `utils.NowUnix` at its first and its second call
  pub now : ℕ
  pub later : ℕ
  -- `utils.NewID`, for the route from a rail and a currency
  pub new_id : (source_rail source_currency : Text) → Text
  -- `utils.SHA256HexString`
  pub sha256_hex : Text → Text

-- `{chain, currency}`; the rail is the chain.
pub record RouteConfig : Type 0 where
  pub chain : Text
  pub currency : Text
  pub rail : Text

abbrev pub configs : List RouteConfig
configs =
    record { chain = codes "evm"; currency = codes "usdc"; rail = codes "evm" }
    ∷ record { chain = codes "solana"; currency = codes "usdc"; rail = codes "solana" }
    ∷ record { chain = codes "solana"; currency = codes "usdt"; rail = codes "solana" }
    ∷ []

abbrev pub build_crypto_route : DepositRoute → CryptoDepositRoute
build_crypto_route dr = record {
  rail = dr.source_rail;
  currency = dr.source_currency;
  address = dr.source_address;
  supported_chains =
      if text_eq dr.source_rail (codes "evm")
      then codes "ethereum"
        ∷ codes "base"
        ∷ codes "polygon"
        ∷ codes "arbitrum"
        ∷ codes "optimism"
        ∷ codes "avalanche_c_chain"
        ∷ []
      else [];
  memo_required = false;
}

abbrev pub usd_details : BridgeVirtualAccount → UsdAccount
usd_details va = record {
  id = va.id;
  currency = codes "usd";
  rails = va.rails;
  bank_name = va.bank_name;
  account_number_last4 = va.account_number_last4;
  routing_number = va.routing_number;
  account_holder_name = va.account_holder_name;
}

abbrev pub required_by : BridgeHostedKycLink → (status : Text) → FiatUsdState
required_by l status = kyc_required l.id l.kyc_url l.tos_url status

-- The statuses of the switch.
unfoldable pub is_pending_status : Text → Bool
is_pending_status s =
    text_eq s (codes "under_review")
    || (text_eq s (codes "awaiting_questionnaire") || text_eq s (codes "awaiting_ubo"))

-- `link != nil`, with both of its ids.
abbrev pub complete_link : Option BridgeLink → Option BridgeLink
complete_link none = none
complete_link (some l) =
    if text_eq l.bridge_customer_id [] || text_eq l.bridge_kyc_link_id [] then none else some l

-- `link != nil`, with the customer's id.
abbrev pub customer_link : Option BridgeLink → Option BridgeLink
customer_link none = none
customer_link (some l) = if text_eq l.bridge_customer_id [] then none else some l

-- A value or nothing, of a query whose error is dropped; the row that comes with an error has no
-- customer's id, so that nothing stands for it.
abbrev pub found_or_none : Result (Option BridgeLink) → Option BridgeLink
found_or_none (err e) = none
found_or_none (ok o) = o

-- A route that may be missing, before those of the later rounds.
abbrev pub and_routes :
    Option CryptoDepositRoute → List CryptoDepositRoute → List CryptoDepositRoute
and_routes none l = l
and_routes (some r) l = r ∷ l

module _ (w : World) (user sui_address : Text) where
  open w use {up, order, bridge, now, later, new_id, sha256_hex}

  -- A row that the service inserts.
  abbrev pub new_route :
      (at : ℕ) (provider_route_id kind source_rail source_currency source_address : Text)
      → DepositRoute
  new_route at provider_route_id kind source_rail source_currency source_address = record {
    id = new_id source_rail source_currency;
    user_id = user;
    provider = codes "bridge";
    provider_route_id = provider_route_id;
    kind = kind;
    source_rail = source_rail;
    source_currency = source_currency;
    source_address = source_address;
    destination_rail = codes "sui";
    destination_currency = codes "usdc";
    destination_addr_hash = sha256_hex sui_address;
    state = codes "active";
    created_at = at;
    updated_at = at;
  }

  abbrev pub new_link : BridgeHostedKycLink → BridgeLink
  new_link k = record {
    user_id = user;
    bridge_customer_id = k.customer_id;
    bridge_kyc_link_id = k.id;
    created_at = now;
    updated_at = now;
  }

  -- The customer is not known yet.
  unfoldable pub start_kyc : Action Tables FiatUsdState
  start_kyc = elim (create_hosted_kyc_link bridge user (codes "individual") (codes "base")) [
    | none ↦ raise err_bridge_unavailable
    | some k ↦ (do upsert_bridge_link up (new_link k); pure (required_by k k.status))
  ]

  -- The row of a virtual account, which is inserted unless there is one.
  abbrev pub keep_account_route : BridgeVirtualAccount → Tables → Tables
  keep_account_route va db =
      elim (existing_route up order user (codes "virtual_account") (codes "fiat") (codes "usd")
        db) [
          | some _ ↦ db
          | none ↦
              (create_deposit_route up
                (new_route now va.id (codes "virtual_account") (codes "fiat") (codes "usd") [])
                db).1
        ]

  -- The customer is approved and endorsed.
  unfoldable pub show_account : BridgeLink → Action Tables FiatUsdState
  show_account link db = elim (ensure_virtual_account bridge link.bridge_customer_id sui_address) [
    | none ↦ (err err_bridge_unavailable, db)
    | some va ↦ (ok (account_details (usd_details va)), keep_account_route va db)
  ]

  -- The customer is known, and Bridge says how far the check is.
  abbrev pub unapproved_state :
      BridgeLink → BridgeCustomerEligibility → BridgeHostedKycLink → FiatUsdState
  unapproved_state link e k =
      if is_pending_status e.kyc_status
      then kyc_pending link.bridge_kyc_link_id e.kyc_status
      else required_by k e.kyc_status

  -- What is answered with the link of the check, which Bridge is asked for.
  abbrev pub with_kyc_link :
      BridgeLink → (BridgeHostedKycLink → FiatUsdState) → Action Tables FiatUsdState
  with_kyc_link link f = elim (get_kyc_link bridge link.bridge_kyc_link_id) [
    | none ↦ raise err_bridge_unavailable
    | some k ↦ pure (f k)
  ]

  unfoldable pub known_state : BridgeLink → Action Tables FiatUsdState
  known_state link = elim (get_customer_eligibility bridge link.bridge_customer_id) [
    | none ↦ with_kyc_link link (λ k. required_by k k.status)
    | some e ↦
        if text_eq e.kyc_status (codes "approved") && e.endorsed
        then show_account link
        else with_kyc_link link (λ k. unapproved_state link e k)
  ]

  unfoldable pub get_fiat_usd_state : Action Tables FiatUsdState
  get_fiat_usd_state = do
    found ← get_bridge_link_by_user_id up select_link user
    elim (complete_link found) [ none ↦ start_kyc | some link ↦ known_state link ]

  -- The body of the loop over the configurations: the route that is shown, and the tables.
  unfoldable pub crypto_route :
      BridgeLink → RouteConfig → Tables → Option CryptoDepositRoute × Tables
  crypto_route link cfg db =
      elim (existing_route up order user (codes "liquidation_address") cfg.chain cfg.currency db) [
        | some dr ↦ (some (build_crypto_route dr), db)
        | none ↦
            elim (ensure_liquidation_address bridge link.bridge_customer_id cfg.chain cfg.currency
              sui_address) [
                | none ↦ (none, db)
                | some la ↦ (
                  some (record {
                    rail = cfg.rail;
                    currency = cfg.currency;
                    address = la.address;
                    supported_chains = [];
                    memo_required = false;
                  }),
                  (create_deposit_route up
                      (new_route later la.id (codes "liquidation_address") cfg.chain cfg.currency
                        la.address)
                      db).1,
                )
              ]
      ]

  unfoldable pub crypto_routes :
      BridgeLink → List RouteConfig → Tables → List CryptoDepositRoute × Tables
  crypto_routes link [] db = ([], db)
  crypto_routes link (cfg ∷ cfgs) db =
      let (shown, db') = crypto_route link cfg db in
      let (rest, db'') = crypto_routes link cfgs db' in (and_routes shown rest, db'')

  unfoldable pub get_crypto_state : Tables → List CryptoDepositRoute × Tables
  get_crypto_state db =
      elim (customer_link
        (found_or_none (get_bridge_link_by_user_id up select_link_again user db).0)) [
          | none ↦ ([], db)
          | some link ↦ crypto_routes link configs db
        ]

  -- What follows the wallet.
  unfoldable pub options_of : Action Tables DepositOptionsResponse
  options_of = do
    fiat_usd ← get_fiat_usd_state
    (λ db.
        let (crypto, db') = get_crypto_state db in
        (ok (record { fiat_usd = fiat_usd; crypto = crypto }), db'))

module _ (w : World) where
  unfoldable pub get_options : Text → Action Tables DepositOptionsResponse
  get_options user = do
    wallet ← get_wallet_binding w.up user
    elim wallet [ none ↦ raise err_unprocessable | some wb ↦ options_of w user wb.sui_address ]

  unfoldable pub handle_get_options : Option Text → Handler Tables DepositOptionsResponse
  handle_get_options session = with_session session (λ user. respond 200 (get_options user))
