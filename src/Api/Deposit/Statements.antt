-- ===== src/Api/Deposit/Statements.antt =====
-- The statements of apps/api/internal/domain/deposit/store.go that the service runs. The orders of
-- the rows, by created_at, are parameters, since rows of one second may stand in any order.
use nearby_payments_api.Base.{
  ℕ, zero, suc, Bool, true, false, ◌&&◌, ◌||◌, Option, none, some, List, [], ◌∷◌, Text, codes,
  text_eq, if◌then◌else◌, take, ℤ, pos, negsuc,
}
use nearby_payments_api.Api.Errors.{Error, new_error, wrapped, err, Action, query, exec}
use nearby_payments_api.Api.Rows.{find, update_where}
use nearby_payments_api.Api.Wallets.{WalletBinding, wallet_of_user}
use nearby_payments_api.Api.Deposit.Store.{
  DepositRoute, Deposit, BridgeLink, Tables, Step, select_wallet, upsert_link, select_deposits,
  select_deposit, select_route, insert_route,
}

abbrev pub err_bridge_unavailable : Error
err_bridge_unavailable =
    new_error (codes "bridge_unavailable") (codes "Bridge service is currently unavailable") 503

abbrev pub err_route_not_found : Error
err_route_not_found = new_error (codes "route_not_found") (codes "Deposit route not found") 404

-- `drop n l`: what OFFSET skips is left out.
abbrev pub drop : {A : Type 0} → ℕ → List A → List A
drop zero l = l
drop (suc n) [] = []
drop (suc n) (a ∷ l) = drop n l

-- The first row of a list.
abbrev pub first : {A : Type 0} → List A → Option A
first [] = none
first (a ∷ l) = some a

-- WHERE
abbrev pub filter : {A : Type 0} → (A → Bool) → List A → List A
filter p [] = []
filter p (a ∷ l) = let rest = filter p l in if p a then a ∷ rest else rest

abbrev pub is_link_of : Text → BridgeLink → Bool
is_link_of user l = text_eq l.user_id user

abbrev pub is_route_of : (user kind source_rail source_currency : Text) → DepositRoute → Bool
is_route_of user kind source_rail source_currency r =
    text_eq r.user_id user
    && text_eq r.kind kind
    && text_eq r.source_rail source_rail
    && text_eq r.source_currency source_currency

-- ON CONFLICT (user_id) DO UPDATE SET
abbrev pub relinked : BridgeLink → BridgeLink → BridgeLink
relinked l old = record old {
  bridge_customer_id = l.bridge_customer_id;
  bridge_kyc_link_id = l.bridge_kyc_link_id;
  updated_at = l.updated_at;
}

-- INSERT INTO bridge_links
unfoldable pub put_link : BridgeLink → Tables → Tables
put_link l db = elim (find (is_link_of l.user_id) db.links) [
  | some _ ↦ record db { links = update_where (is_link_of l.user_id) (relinked l) db.links }
  | none ↦ record db { links = l ∷ db.links }
]

-- The UNIQUE constraint on (provider, provider_route_id).
abbrev pub is_same_route : DepositRoute → DepositRoute → Bool
is_same_route r q = text_eq q.provider r.provider && text_eq q.provider_route_id r.provider_route_id

-- The CHECK constraints on `provider` and on `kind`.
unfoldable pub is_accepted_route : DepositRoute → Bool
is_accepted_route r =
    text_eq r.provider (codes "bridge")
    && (text_eq r.kind (codes "virtual_account") || text_eq r.kind (codes "liquidation_address"))

-- INSERT INTO deposit_routes … ON CONFLICT (provider, provider_route_id) DO NOTHING
unfoldable pub add_route : DepositRoute → Tables → Option Tables
add_route r db = elim (is_accepted_route r) [
  | false ↦ none
  | true ↦ elim (find (is_same_route r) db.routes) [
    | some _ ↦ some db
    | none ↦ elim (find (λ (q : DepositRoute). text_eq q.id r.id) db.routes) [
      | some _ ↦ none
      | none ↦ some (record db { routes = r ∷ db.routes })
    ]
  ]
]

-- `&DepositRoute{}`, which the store returns together with an error.
abbrev pub empty_route : DepositRoute
empty_route = record {
  id = [];
  user_id = [];
  provider = [];
  provider_route_id = [];
  kind = [];
  source_rail = [];
  source_currency = [];
  source_address = [];
  destination_rail = [];
  destination_currency = [];
  destination_addr_hash = [];
  state = [];
  created_at = 0;
  updated_at = 0;
}

module _ (up : Step → Bool) where
  -- `GetWalletBinding` of auth's store
  unfoldable pub get_wallet_binding : Text → Action Tables (Option WalletBinding)
  get_wallet_binding user = query (up select_wallet) (λ db. wallet_of_user user db.wallets)

  unfoldable pub get_bridge_link_by_user_id : Step → Text → Action Tables (Option BridgeLink)
  get_bridge_link_by_user_id step user = query (up step) (λ db. find (is_link_of user) db.links)

  unfoldable pub upsert_bridge_link : BridgeLink → Action Tables (Unit {0})
  unfolding put_link
  upsert_bridge_link l = exec (up upsert_link) (λ db. some (put_link l db))

  -- The route that `existing, _ := GetDepositRoute` leaves: an error is dropped, and the value that
  -- comes with it is not nil.
  unfoldable pub existing_route :
      (List DepositRoute → List DepositRoute)
      → (user kind source_rail source_currency : Text) → Tables
      → Option DepositRoute
  existing_route order user kind source_rail source_currency db =
      if up (select_route source_rail source_currency)
      then first (order (filter (is_route_of user kind source_rail source_currency) db.routes))
      else some empty_route

  unfoldable pub create_deposit_route : DepositRoute → Action Tables (Unit {0})
  unfolding add_route
  create_deposit_route r = exec (up (insert_route r.source_rail r.source_currency)) (add_route r)

  -- A negative OFFSET is refused.
  unfoldable pub get_deposits_by_user_id :
      (List Deposit → List Deposit) → Text → ℕ → ℤ → Action Tables (List Deposit)
  get_deposits_by_user_id order user limit (negsuc n) = λ db. (err wrapped, db)
  get_deposits_by_user_id order user limit (pos offset) = query (up select_deposits) (λ db.
      take limit
        (drop offset (order (filter (λ (d : Deposit). text_eq d.user_id user) db.deposits))))

  unfoldable pub get_deposit_by_id : Text → Text → Action Tables (Option Deposit)
  get_deposit_by_id id user =
      query (up select_deposit)
        (λ db. find (λ (d : Deposit). text_eq d.id id && text_eq d.user_id user) db.deposits)
