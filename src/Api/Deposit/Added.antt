-- ===== src/Api/Deposit/Added.antt =====
-- The tables with some routes more: what a request for the options may have made of them.
use nearby_payments_api.Base.{
  ℕ, ◌+◌, ◌≤◌, ◌≡◌, refl, sym, ap, ◌∙◌, subst, inl, inr, some, List, [], ◌∷◌, ◌++◌, append_assoc,
  Text, codes, text_eq, arith, length, length-append, All, All-append, Bool-cases, Option-cases,
}
use nearby_payments_api.Api.Rows.{find}
use nearby_payments_api.Api.Deposit.Store.{DepositRoute, Tables}
use nearby_payments_api.Api.Deposit.Statements.{is_same_route, is_accepted_route, add_route}

-- A route of the user, whose deposits go to the wallet with the hash.
abbrev pub IsOwnRoute : (user hash : Text) → DepositRoute → Type 0
IsOwnRoute user hash r =
    (r.user_id ≡ user)
    × (r.provider ≡ codes "bridge")
    × (r.destination_addr_hash ≡ hash)
    × (r.destination_rail ≡ codes "sui")
    × (r.destination_currency ≡ codes "usdc")
    × (r.state ≡ codes "active")

-- The second tables have at most so many routes more, all of the user, and the rows of the deposits,
-- the events and the wallets that the first ones have.
abbrev pub Grows : (user hash : Text) → ℕ → Tables → Tables → Type 0
Grows user hash n db db' =
    (added : List DepositRoute) × (db'.routes ≡ added ++ db.routes)
    × (length added ≤ n)
    × All (IsOwnRoute user hash) added
    × (db'.events ≡ db.events)
    × (db'.deposits ≡ db.deposits)
    × (db'.wallets ≡ db.wallets)

module _ (user hash : Text) where
  pub Grows-refl : (n : ℕ) (db : Tables) → Grows user hash n db db
  Grows-refl n db = ([], refl, omega arith, tt, refl, refl, refl)

  pub Grows-trans :
      (n m k : ℕ) (a b c : Tables)
      → m + n ≤ k
      → Grows user hash n a b
      → Grows user hash m b c
      → Grows user hash k a c
  Grows-trans n m k a b c room (xs, e, few, own, ev, de, wa) (ys, e', few', own', ev', de', wa') = (
    ys ++ xs,
    e' ∙ (ap (λ t. ys ++ t) e ∙ sym (append_assoc ys xs a.routes)),
    omega (arith, room, few, few', length-append ys xs),
    All-append (IsOwnRoute user hash) ys xs own' own,
    ev' ∙ ev,
    de' ∙ de,
    wa' ∙ wa,
  )

  pub add_route-Grows :
      (r : DepositRoute) (db db' : Tables)
      → IsOwnRoute user hash r
      → add_route r db ≡ some db'
      → Grows user hash 1 db db'
  unfolding add_route
  add_route-Grows r db db' own e = elim (Bool-cases (is_accepted_route r)) [
    | inr bad ↦ let never : ⊥ = ground (arith, e, bad) in absurd never
    | inl good ↦ elim (Option-cases (find (is_same_route r) db.routes)) [
      | inr (q, known) ↦
          let same : db ≡ db' = ground (arith, e, good, known) in
          subst (Grows user hash 1 db) same (Grows-refl 1 db)
      | inl new ↦ elim (Option-cases (find (λ (q : DepositRoute). text_eq q.id r.id) db.routes)) [
        | inr (q, clash) ↦ let never : ⊥ = ground (arith, e, good, new, clash) in absurd never
        | inl fresh ↦
            let grown : record db { routes = r ∷ db.routes } ≡ db' =
              ground (arith, e, good, new, fresh) in
            subst (Grows user hash 1 db) grown
              (r ∷ [], refl, omega arith, (own, tt), refl, refl, refl)
      ]
    ]
  ]
