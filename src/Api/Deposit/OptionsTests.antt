-- ===== src/Api/Deposit/OptionsTests.antt =====
-- A user whom Bridge has approved, and an instance of each theorem on the options and the listing.
use nearby_payments_api.Base.{
  ℕ, ◌≤◌, ◌≡◌, refl, Bool, false, true, none, some, [], ◌∷◌, Text, codes, text_eq, length, All, pos,
}
use nearby_payments_api.Api.Rows.{find}
use nearby_payments_api.Api.Wallets.{WalletBinding, wallet_of_user}
use nearby_payments_api.Api.Deposit.Store.{Deposit, BridgeLink, Tables, Step}
use nearby_payments_api.Api.Deposit.Bridge.{
  BridgeVirtualAccount, Customer, Bridge, new_account, ensure_virtual_account,
  ensure_liquidation_address,
}
use nearby_payments_api.Api.Deposit.Statements.{
  is_link_of, is_accepted_route, add_route, existing_route, create_deposit_route, empty_route,
  get_wallet_binding, get_bridge_link_by_user_id, get_deposits_by_user_id,
}
use nearby_payments_api.Api.Deposit.Options.{
  World, RouteConfig, usd_details, build_crypto_route, show_account, known_state,
  get_fiat_usd_state, crypto_route, crypto_routes, get_crypto_state, options_of, get_options,
}
use nearby_payments_api.Api.Deposit.Shown.{
  CryptoDepositRoute, DepositOptionsResponse, account_details,
}
use nearby_payments_api.Api.Deposit.Gate.{IsCleared, get_options-IsCleared}
use nearby_payments_api.Api.Deposit.Growth.{get_options-Grows}
use nearby_payments_api.Api.Deposit.Added.{Grows}
use nearby_payments_api.Api.Deposit.Listing.{
  page_limit, IsLimit, summary_of, get_deposits, IsShown, get_deposits-page,
}

abbrev account : BridgeVirtualAccount
account = record {
  id = codes "va";
  currency = codes "usd";
  rails = codes "wire" ∷ [];
  bank_name = codes "bank";
  account_number_last4 = codes "1234";
  routing_number = codes "9";
  account_holder_name = codes "Ann";
}

abbrev bridge : Bridge
bridge = record {
  post_kyc_link = λ email type endorsement. none;
  read_kyc_link = λ id. none;
  read_customer = λ id. some (record {
    kyc_status = codes "approved";
    endorsements = record { name = codes "base"; status = codes "approved" } ∷ [];
  });
  list_virtual_accounts = λ id. none;
  post_virtual_account = λ id destination. some account;
  list_liquidation_addresses = λ id. none;
  post_liquidation_address = λ id chain currency destination.
      some (record { id = chain; address = codes "0xd"; chain = chain; currency = currency });
}

abbrev world : (Step → Bool) → World
world up = record {
  up = up;
  order = λ l. l;
  bridge = bridge;
  now = 1;
  later = 2;
  new_id = λ rail currency. rail;
  sha256_hex = λ t. t;
}

abbrev wallet : WalletBinding
wallet = record {
  user_id = codes "ann";
  sui_address = codes "0x1";
  auth_scheme = codes "zk";
  issuer = [];
  audience = [];
  created_at = 0;
  updated_at = 0;
}

abbrev link : BridgeLink
link = record {
  user_id = codes "ann";
  bridge_customer_id = codes "c";
  bridge_kyc_link_id = codes "k";
  created_at = 0;
  updated_at = 0;
}

abbrev deposit : Deposit
deposit = record {
  id = codes "d";
  user_id = codes "ann";
  route_id = codes "r";
  provider = codes "bridge";
  provider_deposit_id = codes "p";
  kind = codes "virtual_account";
  status = codes "done";
  amount = codes "1";
  currency = codes "usd";
  tx_hash = [];
  created_at = 0;
  updated_at = 0;
}

abbrev tables : Tables
tables = record {
  routes = [];
  events = [];
  deposits = deposit ∷ [];
  links = link ∷ [];
  wallets = wallet ∷ [];
}

abbrev evm : RouteConfig
evm = record { chain = codes "evm"; currency = codes "usdc"; rail = codes "evm" }

abbrev shown_route : Text → Text → CryptoDepositRoute
shown_route rail currency = record {
  rail = rail;
  currency = currency;
  address = codes "0xd";
  supported_chains = [];
  memo_required = false;
}

-- The chains of a new route are left out of the first answer.
first_answer-run :
    (crypto_route (world (λ s. true)) (codes "ann") (codes "0x1") link evm tables).0
    ≡ some (shown_route (codes "evm") (codes "usdc"))
unfolding crypto_route existing_route ensure_liquidation_address
first_answer-run = refl

-- Where the database fails, a route without an address is shown.
empty_route-run :
    (crypto_route (world (λ s. false)) (codes "ann") (codes "0x1") link evm tables).0
    ≡ some (build_crypto_route empty_route)
unfolding crypto_route existing_route
empty_route-run = refl

abbrev answer : DepositOptionsResponse
answer = record {
  fiat_usd = account_details (usd_details (new_account account));
  crypto =
      shown_route (codes "evm") (codes "usdc")
      ∷ shown_route (codes "solana") (codes "usdc")
      ∷ shown_route (codes "solana") (codes "usdt")
      ∷ [];
}

get_options-IsCleared_example :
    (wb : WalletBinding) × (l : BridgeLink) × (c : Customer) × (va : BridgeVirtualAccount)
    × (wallet_of_user (codes "ann") tables.wallets ≡ some wb)
    × (find (is_link_of (codes "ann")) tables.links ≡ some l)
    × (bridge.read_customer l.bridge_customer_id ≡ some c)
    × IsCleared c
    × (ensure_virtual_account bridge l.bridge_customer_id wb.sui_address ≡ some va)
    × (usd_details (new_account account) ≡ usd_details va)
unfolding get_options options_of get_wallet_binding get_fiat_usd_state get_bridge_link_by_user_id
    known_state show_account ensure_virtual_account get_crypto_state crypto_routes crypto_route
    existing_route ensure_liquidation_address create_deposit_route add_route is_accepted_route
    text_eq
get_options-IsCleared_example =
    get_options-IsCleared (world (λ s. true)) (codes "ann") tables answer
      (usd_details (new_account account)) refl refl

get_options-Grows_example :
    Grows
      (codes "ann")
      (codes "0x1")
      4
      tables
      (get_options (world (λ s. true)) (codes "ann") tables).1
unfolding text_eq
get_options-Grows_example = get_options-Grows (world (λ s. true)) (codes "ann") tables wallet refl

get_deposits-page_example :
    ((n : ℕ) × IsLimit (pos 101) n × (length (summary_of deposit ∷ []) ≤ n))
    × All (IsShown (codes "ann") tables) (summary_of deposit ∷ [])
    × ((get_deposits (λ s. true) (λ l. l) (codes "ann") (pos 101) (pos 0) tables).1 ≡ tables)
unfolding get_deposits get_deposits_by_user_id page_limit text_eq
get_deposits-page_example =
    get_deposits-page (λ s. true) (λ l. l) (codes "ann") (pos 101) (pos 0) tables
      (summary_of deposit ∷ []) (λ P l h. h) refl
