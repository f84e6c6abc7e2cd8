-- ===== src/Api/Deposit/Gate.antt =====
-- An account in dollars is shown to nobody but the customer whom Bridge has approved and endorsed.
use nearby_payments_api.Base.{
  ◌≡◌, ap, ◌∙◌, ◌≢◌, inl, inr, true, ◌&&◌, Option, none, some, List, [], ◌∷◌, Text, codes, text_eq,
  text_eq_iff, arith, In, here, there, Bool-cases, Option-cases,
}
use nearby_payments_api.Api.Errors.{ok, Result-cases}
use nearby_payments_api.Api.Rows.{find}
use nearby_payments_api.Api.Wallets.{WalletBinding, wallet_of_user}
use nearby_payments_api.Api.Deposit.Store.{
  BridgeLink, Tables, select_link, upsert_link, select_wallet,
}
use nearby_payments_api.Api.Deposit.Bridge.{
  BridgeVirtualAccount, BridgeHostedKycLink, Customer, Endorsement, is_endorsed, eligibility_of,
  ensure_virtual_account, get_kyc_link, create_hosted_kyc_link,
}
use nearby_payments_api.Api.Deposit.Statements.{
  is_link_of, get_wallet_binding, get_bridge_link_by_user_id, upsert_bridge_link,
}
use nearby_payments_api.Api.Deposit.Options.{
  is_pending_status, World, usd_details, complete_link, start_kyc, show_account, required_by,
  with_kyc_link, unapproved_state, known_state, get_fiat_usd_state, options_of, get_options,
}
use nearby_payments_api.Api.Deposit.Shown.{
  UsdAccount, FiatUsdState, account_details, DepositOptionsResponse,
}

endorsed-In :
    (l : List Endorsement)
    → is_endorsed l ≡ true
    → (e : Endorsement) × In e l × (e.name ≡ codes "base") × (e.status ≡ codes "approved")
endorsed-In [] h = let never : ⊥ = ground (arith, h) in absurd never
endorsed-In (e ∷ l) h = elim (Bool-cases (text_eq e.name (codes "base"))) [
  | inr other ↦
      let later : is_endorsed l ≡ true = ground (arith, h, other) in
      let (x, stands, named, passed) = endorsed-In l later in (x, there stands, named, passed)
  | inl named ↦ elim (Bool-cases (text_eq e.status (codes "approved"))) [
    | inr other ↦
        let later : is_endorsed l ≡ true = ground (arith, h, other) in
        let (x, stands, n, passed) = endorsed-In l later in (x, there stands, n, passed)
    | inl passed ↦ (
      e,
      here,
      (text_eq_iff e.name (codes "base")).0 named,
      (text_eq_iff e.status (codes "approved")).0 passed,
    )
  ]
]

-- Bridge says of a customer that the check is passed, with the endorsement "base".
abbrev pub IsCleared : Customer → Type 0
IsCleared c =
    (c.kyc_status ≡ codes "approved")
    × ((e : Endorsement) × In e c.endorsements
        × (e.name ≡ codes "base")
        × (e.status ≡ codes "approved"))

module _ (w : World) (user sui_address : Text) where
  -- Nothing but a link of the check can come of asking for it.
  kyc_link-no_account :
      (link : BridgeLink) (f : BridgeHostedKycLink → FiatUsdState) (a : UsdAccount) (db : Tables)
      → ((k : BridgeHostedKycLink) → f k ≢ account_details a)
      → (with_kyc_link w user sui_address link f db).0 ≢ ok (account_details a)
  kyc_link-no_account link f a db differs e =
      elim (Option-cases (get_kyc_link w.bridge link.bridge_kyc_link_id)) [
        | inl missing ↦ ground (arith, e, missing)
        | inr (k, found) ↦
            let same : f k ≡ account_details a = ground (arith, e, found) in differs k same
      ]

  unapproved-no_account :
      (link : BridgeLink) (c : Customer) (k : BridgeHostedKycLink) (a : UsdAccount)
      → unapproved_state w user sui_address link (eligibility_of c) k ≢ account_details a
  unapproved-no_account link c k a e = elim (Bool-cases (is_pending_status c.kyc_status)) [
    | inl pending ↦ ground (arith, e, pending)
    | inr open_yet ↦ ground (arith, e, open_yet)
  ]

  -- What an account that is shown rests on.
  abbrev IsAccountOf : BridgeLink → UsdAccount → Type 0
  IsAccountOf link a =
      (c : Customer) × (va : BridgeVirtualAccount) × (w.bridge.read_customer link.bridge_customer_id
        ≡ some c)
      × IsCleared c
      × (ensure_virtual_account w.bridge link.bridge_customer_id sui_address ≡ some va)
      × (a ≡ usd_details va)

  cleared-account :
      (link : BridgeLink) (c : Customer) (a : UsdAccount) (db : Tables)
      → w.bridge.read_customer link.bridge_customer_id ≡ some c
      → c.kyc_status ≡ codes "approved"
      → is_endorsed c.endorsements ≡ true
      → (show_account w user sui_address link db).0 ≡ ok (account_details a)
      → IsAccountOf link a
  unfolding show_account
  cleared-account link c a db read approved endorsed e =
      elim (Option-cases (ensure_virtual_account w.bridge link.bridge_customer_id sui_address)) [
        | inl missing ↦ let never : ⊥ = ground (arith, e, missing) in absurd never
        | inr (va, ensured) ↦ (
          c,
          va,
          read,
          (approved, endorsed-In c.endorsements endorsed),
          ensured,
          ground (arith, e, ensured),
        )
      ]

  known-account :
      (link : BridgeLink) (a : UsdAccount) (db : Tables)
      → (known_state w user sui_address link db).0 ≡ ok (account_details a)
      → IsAccountOf link a
  unfolding known_state
  known-account link a db e = elim (Option-cases (w.bridge.read_customer link.bridge_customer_id)) [
    | inl missing ↦
        let asked : (with_kyc_link w user sui_address link (λ k. required_by k k.status) db).0
            ≡ ok (account_details a) =
          ground (arith, e, missing) in
        absurd (
          kyc_link-no_account link (λ k. required_by k k.status) a db
            (λ k same. ground (arith, same)) asked)
    | inr (c, read) ↦
        elim (Bool-cases (text_eq c.kyc_status (codes "approved") && is_endorsed c.endorsements)) [
          | inl cleared ↦
              let shown : (show_account w user sui_address link db).0 ≡ ok (account_details a) =
                ground (arith, e, read, cleared) in
              cleared-account link c a db read
                ((text_eq_iff c.kyc_status (codes "approved")).0 (ground (arith, cleared)))
                (ground (arith, cleared)) shown
          | inr open_yet ↦
              let asked : (with_kyc_link w user sui_address link
                    (λ k. unapproved_state w user sui_address link (eligibility_of c) k) db).0
                  ≡ ok (account_details a) =
                ground (arith, e, read, open_yet) in
              absurd (
                kyc_link-no_account link
                  (λ k. unapproved_state w user sui_address link (eligibility_of c) k) a db
                  (λ k. unapproved-no_account link c k a) asked)
        ]
  ]

  start-no_account :
      (a : UsdAccount) (db : Tables) → (start_kyc w user sui_address db).0 ≢ ok (account_details a)
  unfolding start_kyc upsert_bridge_link
  start-no_account a db e =
      elim (Option-cases
        (create_hosted_kyc_link w.bridge user (codes "individual") (codes "base"))) [
          | inl missing ↦ ground (arith, e, missing)
          | inr (k, made) ↦ elim (Bool-cases (w.up upsert_link)) [
            | inl answers ↦ ground (arith, e, made, answers)
            | inr down ↦ ground (arith, e, made, down)
          ]
        ]

  complete_link-eq-some :
      (o : Option BridgeLink) (link : BridgeLink) → complete_link o ≡ some link → o ≡ some link
  complete_link-eq-some none link e = ground (arith, e)
  complete_link-eq-some (some l) link e = ground (arith, e)

  fiat-account :
      (a : UsdAccount) (db : Tables)
      → (get_fiat_usd_state w user sui_address db).0 ≡ ok (account_details a)
      → (link : BridgeLink) × (find (is_link_of user) db.links ≡ some link) × IsAccountOf link a
  unfolding get_fiat_usd_state get_bridge_link_by_user_id
  fiat-account a db e = elim (Bool-cases (w.up select_link)) [
    | inr down ↦ let never : ⊥ = ground (arith, e, down) in absurd never
    | inl answers ↦ elim (Option-cases (complete_link (find (is_link_of user) db.links))) [
      | inl missing ↦
          let started : (start_kyc w user sui_address db).0 ≡ ok (account_details a) =
            ground (arith, e, answers, missing) in
          absurd (start-no_account a db started)
      | inr (link, complete) ↦
          let known : (known_state w user sui_address link db).0 ≡ ok (account_details a) =
            ground (arith, e, answers, complete) in
          (
            link,
            complete_link-eq-some (find (is_link_of user) db.links) link complete,
            known-account link a db known,
          )
    ]
  ]

-- Details of an account are shown to a user only as the account in dollars that Bridge has, or makes,
-- for the customer of the user's link and the address of the user's wallet, and only if Bridge says in
-- the same call that this customer is approved and has the endorsement "base", approved.
pub get_options-IsCleared :
    (w : World) (user : Text) (db : Tables) (resp : DepositOptionsResponse) (a : UsdAccount)
    → (get_options w user db).0 ≡ ok resp
    → resp.fiat_usd ≡ account_details a
    → (wb : WalletBinding) × (link : BridgeLink) × (c : Customer) × (va : BridgeVirtualAccount)
      × (wallet_of_user user db.wallets ≡ some wb)
      × (find (is_link_of user) db.links ≡ some link)
      × (w.bridge.read_customer link.bridge_customer_id ≡ some c)
      × IsCleared c
      × (ensure_virtual_account w.bridge link.bridge_customer_id wb.sui_address ≡ some va)
      × (a ≡ usd_details va)
unfolding get_options options_of get_wallet_binding
get_options-IsCleared w user db resp a e shown = elim (Bool-cases (w.up select_wallet)) [
  | inr down ↦ let never : ⊥ = ground (arith, e, down) in absurd never
  | inl answers ↦ elim (Option-cases (wallet_of_user user db.wallets)) [
    | inl missing ↦ let never : ⊥ = ground (arith, e, answers, missing) in absurd never
    | inr (wb, found) ↦ elim (Result-cases (get_fiat_usd_state w user wb.sui_address db).0) [
      | inl (x, failed) ↦ let never : ⊥ = ground (arith, e, answers, found, failed) in absurd never
      | inr (state, got) ↦
          let same : state ≡ resp.fiat_usd = ground (arith, e, answers, found, got) in
          let account : (get_fiat_usd_state w user wb.sui_address db).0 ≡ ok (account_details a) =
            got ∙ ap (λ (s : FiatUsdState). ok s) (same ∙ shown) in
          let (link, linked, (c, va, read, cleared, ensured, details)) =
            fiat-account w user wb.sui_address a db account in
          (wb, link, c, va, found, linked, read, cleared, ensured, details)
    ]
  ]
]
