-- ===== src/Api/Deposit/Growth.antt =====
-- What a request for the options leaves in the tables: at most four new routes, all to the user's own
-- wallet.
use nearby_payments_api.Base.{
  ℕ, suc, ◌≡◌, refl, subst, inl, inr, ◌&&◌, some, List, [], ◌∷◌, Text, codes, text_eq, arith,
  length, Bool-cases, Option-cases,
}
use nearby_payments_api.Api.Errors.{Result-cases}
use nearby_payments_api.Api.Rows.{find}
use nearby_payments_api.Api.Wallets.{WalletBinding, wallet_of_user}
use nearby_payments_api.Api.Deposit.Store.{
  BridgeLink, Tables, insert_route, select_link, select_link_again, upsert_link, select_wallet,
}
use nearby_payments_api.Api.Deposit.Bridge.{
  BridgeVirtualAccount, BridgeHostedKycLink, create_hosted_kyc_link, get_kyc_link,
  get_customer_eligibility, ensure_virtual_account, ensure_liquidation_address,
}
use nearby_payments_api.Api.Deposit.Statements.{
  is_link_of, add_route, put_link, existing_route, create_deposit_route, get_wallet_binding,
  get_bridge_link_by_user_id, upsert_bridge_link,
}
use nearby_payments_api.Api.Deposit.Options.{
  World, RouteConfig, configs, new_route, new_link, complete_link, customer_link, found_or_none,
  start_kyc, keep_account_route, show_account, with_kyc_link, unapproved_state, required_by,
  known_state, get_fiat_usd_state, crypto_route, crypto_routes, get_crypto_state, options_of,
  get_options,
}
use nearby_payments_api.Api.Deposit.Shown.{FiatUsdState}
use nearby_payments_api.Api.Deposit.Added.{Grows, Grows-refl, Grows-trans, add_route-Grows}

module _ (w : World) (user sui_address : Text) where
  abbrev Growing : ℕ → Tables → Tables → Type 0
  Growing = Grows user (w.sha256_hex sui_address)

  create-Grows :
      (at : ℕ) (id kind rail currency address : Text) (db : Tables)
      → Growing 1 db
          (create_deposit_route w.up
            (new_route w user sui_address at id kind rail currency address)
            db).1
  unfolding create_deposit_route
  create-Grows at id kind rail currency address db =
      let r = new_route w user sui_address at id kind rail currency address in
      elim (Bool-cases (w.up (insert_route rail currency))) [
        | inr down ↦ rw (down) (Grows-refl user (w.sha256_hex sui_address) 1 db)
        | inl answers ↦ elim (Option-cases (add_route r db)) [
          | inl refused ↦ rw (answers, refused) (Grows-refl user (w.sha256_hex sui_address) 1 db)
          | inr (db', added) ↦
              rw (answers, added)
                (add_route-Grows user (w.sha256_hex sui_address) r db db'
                  (refl, refl, refl, refl, refl, refl) added)
        ]
      ]

  crypto_route-Grows :
      (link : BridgeLink) (cfg : RouteConfig) (db : Tables)
      → Growing 1 db (crypto_route w user sui_address link cfg db).1
  unfolding crypto_route
  crypto_route-Grows link cfg db =
      elim (Option-cases (
        existing_route w.up w.order user (codes "liquidation_address") cfg.chain cfg.currency db)) [
          | inr (dr, known) ↦
              rw (known, crypto_route) (Grows-refl user (w.sha256_hex sui_address) 1 db)
          | inl new ↦
              elim (Option-cases (
                ensure_liquidation_address w.bridge link.bridge_customer_id cfg.chain cfg.currency
                  sui_address)) [
                    | inl missing ↦
                        rw (new, missing, crypto_route)
                          (Grows-refl user (w.sha256_hex sui_address) 1 db)
                    | inr (la, ensured) ↦
                        rw (new, ensured, crypto_route)
                          (create-Grows w.later la.id (codes "liquidation_address") cfg.chain
                            cfg.currency la.address db)
                  ]
        ]

  crypto_routes-Grows :
      (link : BridgeLink) (cfgs : List RouteConfig) (db : Tables)
      → Growing (length cfgs) db (crypto_routes w user sui_address link cfgs db).1
  unfolding crypto_routes
  crypto_routes-Grows link [] db = Grows-refl user (w.sha256_hex sui_address) 0 db
  crypto_routes-Grows link (cfg ∷ cfgs) db =
      let mid = (crypto_route w user sui_address link cfg db).1 in
      Grows-trans user (w.sha256_hex sui_address) 1 (length cfgs) (suc (length cfgs)) db mid
        (crypto_routes w user sui_address link cfgs mid).1 (omega arith)
        (crypto_route-Grows link cfg db) (crypto_routes-Grows link cfgs mid)

  crypto_state-Grows : (db : Tables) → Growing 3 db (get_crypto_state w user sui_address db).1
  unfolding get_crypto_state
  crypto_state-Grows db =
      elim (Option-cases (
        customer_link
          (found_or_none (get_bridge_link_by_user_id w.up select_link_again user db).0))) [
            | inl missing ↦
                rw (missing, get_crypto_state) (Grows-refl user (w.sha256_hex sui_address) 3 db)
            | inr (link, found) ↦ rw (found, get_crypto_state) (crypto_routes-Grows link configs db)
          ]

  put_link-Grows : (l : BridgeLink) (db : Tables) → Growing 1 db (put_link l db)
  unfolding put_link
  put_link-Grows l db = elim (Option-cases (find (is_link_of l.user_id) db.links)) [
    | inl new ↦ rw (new, put_link) ([], refl, omega arith, tt, refl, refl, refl)
    | inr (old, known) ↦ rw (known, put_link) ([], refl, omega arith, tt, refl, refl, refl)
  ]

  start-Grows : (db : Tables) → Growing 1 db (start_kyc w user sui_address db).1
  unfolding start_kyc upsert_bridge_link
  start-Grows db =
      elim (Option-cases
        (create_hosted_kyc_link w.bridge user (codes "individual") (codes "base"))) [
          | inl missing ↦ rw (missing, start_kyc) (Grows-refl user (w.sha256_hex sui_address) 1 db)
          | inr (k, made) ↦ elim (Bool-cases (w.up upsert_link)) [
            | inr down ↦
                rw (made, start_kyc, down) (Grows-refl user (w.sha256_hex sui_address) 1 db)
            | inl answers ↦
                rw (made, start_kyc, answers) (put_link-Grows (new_link w user sui_address k) db)
          ]
        ]

  kyc_link-Grows :
      (link : BridgeLink) (f : BridgeHostedKycLink → FiatUsdState) (db : Tables)
      → Growing 1 db (with_kyc_link w user sui_address link f db).1
  kyc_link-Grows link f db = elim (Option-cases (get_kyc_link w.bridge link.bridge_kyc_link_id)) [
    | inl missing ↦ rw (missing, with_kyc_link) (Grows-refl user (w.sha256_hex sui_address) 1 db)
    | inr (k, found) ↦ rw (found, with_kyc_link) (Grows-refl user (w.sha256_hex sui_address) 1 db)
  ]

  keep-Grows :
      (va : BridgeVirtualAccount) (db : Tables)
      → Growing 1 db (keep_account_route w user sui_address va db)
  keep-Grows va db =
      elim (Option-cases (
        existing_route w.up w.order user (codes "virtual_account") (codes "fiat") (codes "usd")
          db)) [
            | inr (dr, known) ↦
                rw (known, keep_account_route) (Grows-refl user (w.sha256_hex sui_address) 1 db)
            | inl new ↦
                rw (new, keep_account_route)
                  (create-Grows w.now va.id (codes "virtual_account") (codes "fiat") (codes "usd")
                    [] db)
          ]

  show_account-Grows :
      (link : BridgeLink) (db : Tables) → Growing 1 db (show_account w user sui_address link db).1
  unfolding show_account
  show_account-Grows link db =
      elim (Option-cases (ensure_virtual_account w.bridge link.bridge_customer_id sui_address)) [
        | inl missing ↦ rw (missing, show_account) (Grows-refl user (w.sha256_hex sui_address) 1 db)
        | inr (va, ensured) ↦ rw (ensured, show_account) (keep-Grows va db)
      ]

  known_state-Grows :
      (link : BridgeLink) (db : Tables) → Growing 1 db (known_state w user sui_address link db).1
  unfolding known_state
  known_state-Grows link db =
      elim (Option-cases (get_customer_eligibility w.bridge link.bridge_customer_id)) [
        | inl missing ↦
            rw (missing, known_state) (kyc_link-Grows link (λ k. required_by k k.status) db)
        | inr (e, read) ↦
            elim (Bool-cases (text_eq e.kyc_status (codes "approved") && e.endorsed)) [
              | inl cleared ↦ rw (read, known_state, cleared) (show_account-Grows link db)
              | inr open_yet ↦
                  rw (read, known_state, open_yet)
                    (kyc_link-Grows link (λ k. unapproved_state w user sui_address link e k) db)
            ]
      ]

  fiat_state-Grows : (db : Tables) → Growing 1 db (get_fiat_usd_state w user sui_address db).1
  unfolding get_fiat_usd_state get_bridge_link_by_user_id
  fiat_state-Grows db = elim (Bool-cases (w.up select_link)) [
    | inr down ↦ rw (down, get_fiat_usd_state) (Grows-refl user (w.sha256_hex sui_address) 1 db)
    | inl answers ↦ elim (Option-cases (complete_link (find (is_link_of user) db.links))) [
      | inl missing ↦
          let ended : (start_kyc w user sui_address db).1
              ≡ (get_fiat_usd_state w user sui_address db).1 =
            ground (arith, answers, missing) in
          subst (Growing 1 db) ended (start-Grows db)
      | inr (link, complete) ↦
          let ended : (known_state w user sui_address link db).1
              ≡ (get_fiat_usd_state w user sui_address db).1 =
            ground (arith, answers, complete) in
          subst (Growing 1 db) ended (known_state-Grows link db)
    ]
  ]

  options-Grows : (db : Tables) → Growing 4 db (options_of w user sui_address db).1
  unfolding options_of
  options-Grows db =
      let mid = (get_fiat_usd_state w user sui_address db).1 in
      elim (Result-cases (get_fiat_usd_state w user sui_address db).0) [
        | inl (e, failed) ↦
            let ended : mid ≡ (options_of w user sui_address db).1 = ground (arith, failed) in
            subst (Growing 4 db) ended (
              Grows-trans user (w.sha256_hex sui_address) 1 0 4 db mid mid (omega arith)
                (fiat_state-Grows db) (Grows-refl user (w.sha256_hex sui_address) 0 mid))
        | inr (state, got) ↦
            let ended : (get_crypto_state w user sui_address mid).1
                ≡ (options_of w user sui_address db).1 =
              ground (arith, got) in
            subst (Growing 4 db) ended (
              Grows-trans user (w.sha256_hex sui_address) 1 3 4 db mid
                (get_crypto_state w user sui_address mid).1 (omega arith) (fiat_state-Grows db)
                (crypto_state-Grows mid))
      ]

-- Whatever Bridge and the database answer, a request for the options by a user with a wallet changes no
-- route, event, deposit or wallet that there is, and adds at most four routes: active routes of this
-- user, through Bridge, into USDC on Sui, with the hash of the address of the user's wallet as their
-- destination.
pub get_options-Grows :
    (w : World) (user : Text) (db : Tables) (wb : WalletBinding)
    → wallet_of_user user db.wallets ≡ some wb
    → Grows user (w.sha256_hex wb.sui_address) 4 db (get_options w user db).1
unfolding get_options get_wallet_binding
get_options-Grows w user db wb found = elim (Bool-cases (w.up select_wallet)) [
  | inr down ↦ rw (down, get_options) (Grows-refl user (w.sha256_hex wb.sui_address) 4 db)
  | inl answers ↦
      let ended : (options_of w user wb.sui_address db).1 ≡ (get_options w user db).1 =
        ground (arith, answers, found) in
      subst (Grows user (w.sha256_hex wb.sui_address) 4 db) ended
        (options-Grows w user wb.sui_address db)
]
