-- ===== src/Api/Deposit/Listing.antt =====
-- GetDeposits and GetDeposit of apps/api/internal/domain/deposit/service.go and handler.go, and that
-- a user sees no more than a page of his own deposits.
use nearby_payments_api.Base.{
  ℕ, zero, suc, ◌≤◌, ◌<◌, ◌≡◌, refl, sym, ap, subst, inl, inr, Bool, true, ◌||◌, Option, none, some,
  List, [], ◌∷◌, Text, text_eq, text_eq_iff, arith, length, ltb, ◌==◌, take, if◌then◌else◌, In,
  here, there, All, ℤ, pos, negsuc, Bool-cases,
}
use nearby_payments_api.Api.Errors.{ok, Action, pure, raise, ◌>>=◌}
use nearby_payments_api.Api.Replies.{Handler, with_session, respond}
use nearby_payments_api.Api.Deposit.Store.{Deposit, Tables, Step, select_deposits}
use nearby_payments_api.Api.Deposit.Statements.{
  err_route_not_found, drop, filter, get_deposits_by_user_id, get_deposit_by_id,
}

pub record DepositSummary : Type 0 where
  pub id : Text
  pub kind : Text
  pub status : Text
  pub amount : Text
  pub currency : Text
  pub tx_hash : Text
  pub created_at : ℕ
  pub updated_at : ℕ

abbrev pub summary_of : Deposit → DepositSummary
summary_of d = record {
  id = d.id;
  kind = d.kind;
  status = d.status;
  amount = d.amount;
  currency = d.currency;
  tx_hash = d.tx_hash;
  created_at = d.created_at;
  updated_at = d.updated_at;
}

-- The loop over the rows.
abbrev pub summaries : List Deposit → List DepositSummary
summaries [] = []
summaries (d ∷ l) = summary_of d ∷ summaries l

-- `limit <= 0 || limit > 100`
unfoldable pub page_limit : ℤ → ℕ
page_limit (negsuc n) = 20
page_limit (pos n) = if n == 0 || ltb 100 n then 20 else n

-- A query's parameter, with its default; `strconv.Atoi` is given.
abbrev pub query_number : (Text → Option ℤ) → Text → ℤ → ℤ
query_number atoi text default =
    if text_eq text [] then default else elim (atoi text) [ none ↦ default | some v ↦ v ]

module _ (up : Step → Bool) (order : List Deposit → List Deposit) where
  unfoldable pub get_deposits : Text → (limit offset : ℤ) → Action Tables (List DepositSummary)
  get_deposits user limit offset = do
    deposits ← get_deposits_by_user_id up order user (page_limit limit) offset
    pure (summaries deposits)

  unfoldable pub get_deposit : (id user : Text) → Action Tables DepositSummary
  get_deposit id user = do
    found ← get_deposit_by_id up id user
    elim found [ none ↦ raise err_route_not_found | some d ↦ pure (summary_of d) ]

  unfoldable pub handle_get_deposits :
      (atoi : Text → Option ℤ) (limit offset : Text)
      → Option Text
      → Handler Tables (List DepositSummary)
  handle_get_deposits atoi limit offset session = with_session session (λ user.
      respond 200
        (get_deposits user (query_number atoi limit (pos 20)) (query_number atoi offset (pos 0))))

  unfoldable pub handle_get_deposit : (id : Text) → Option Text → Handler Tables DepositSummary
  handle_get_deposit id session = with_session session (λ user. respond 200 (get_deposit id user))

-- The number of rows that a limit asks for: itself from 1 to 100, and otherwise 20.
pub data IsLimit : ℤ → ℕ → Type 0 where
  asked : (n : ℕ) → 1 ≤ n → n ≤ 100 → IsLimit (pos n) n
  negative : (n : ℕ) → IsLimit (negsuc n) 20
  nothing : IsLimit (pos 0) 20
  too_many : (n : ℕ) → 100 < n → IsLimit (pos n) 20

page_limit-IsLimit : (limit : ℤ) → IsLimit limit (page_limit limit)
unfolding page_limit
page_limit-IsLimit (negsuc n) = negative n
page_limit-IsLimit (pos zero) = nothing
page_limit-IsLimit (pos (suc n)) = elim (Bool-cases (ltb 100 (suc n))) [
  | inl many ↦
      let same : page_limit (pos (suc n)) ≡ 20 = ground arith in
      subst (IsLimit (pos (suc n))) (sym same) (too_many (suc n) (ground arith))
  | inr few ↦
      let same : page_limit (pos (suc n)) ≡ suc n = ground arith in
      subst (IsLimit (pos (suc n))) (sym same) (asked (suc n) (omega arith) (ground arith))
]

length-take_le : {A : Type 0} (n : ℕ) (l : List A) → length (take n l) ≤ n
length-take_le zero l = omega arith
length-take_le (suc n) [] = omega arith
length-take_le (suc n) (a ∷ l) = omega (arith, length-take_le n l)

length-summaries : (l : List Deposit) → length (summaries l) ≡ length l
length-summaries [] = refl
length-summaries (d ∷ l) = ap suc (length-summaries l)

All-take : {A : Type 0} (P : A → Type 0) (n : ℕ) (l : List A) → All P l → All P (take n l)
All-take P zero l h = tt
All-take P (suc n) [] h = tt
All-take P (suc n) (a ∷ l) (p, h) = (p, All-take P n l h)

All-drop : {A : Type 0} (P : A → Type 0) (n : ℕ) (l : List A) → All P l → All P (drop n l)
All-drop P zero l h = h
All-drop P (suc n) [] h = tt
All-drop P (suc n) (a ∷ l) (p, h) = All-drop P n l h

-- Each row of a list that passes, and stands in a list of which this is a part.
All-filter :
    {A : Type 0} (p : A → Bool) (l m : List A)
    → ((a : A) → In a l → In a m)
    → All (λ a. (p a ≡ true) × In a m) (filter p l)
All-filter p [] m h = tt
All-filter p (a ∷ l) m h = elim (Bool-cases (p a)) [
  | inl passes ↦ rw passes ((passes, h a here), All-filter p l m (λ b k. h b (there k)))
  | inr fails ↦ rw fails (All-filter p l m (λ b k. h b (there k)))
]

-- What is shown of a deposit of the user in the table.
abbrev pub IsShown : Text → Tables → DepositSummary → Type 0
IsShown user db s = (d : Deposit) × In d db.deposits × (d.user_id ≡ user) × (s ≡ summary_of d)

All-IsShown :
    (user : Text) (db : Tables) (l : List Deposit)
    → All (λ (d : Deposit). (text_eq d.user_id user ≡ true) × In d db.deposits) l
    → All (IsShown user db) (summaries l)
All-IsShown user db [] h = tt
All-IsShown user db (d ∷ l) ((own, stands), h) =
    ((d, stands, (text_eq_iff d.user_id user).0 own, refl), All-IsShown user db l h)

-- A listing that succeeds has at most as many deposits as were asked for, from 1 to 100, and at most
-- 20 where any other number was asked for. Each is a summary of a deposit of the user that stands in the
-- table, which stays as it is. The order of the rows only reorders them.
pub get_deposits-page :
    (up : Step → Bool) (order : List Deposit → List Deposit) (user : Text) (limit offset : ℤ)
    (db : Tables) (page : List DepositSummary)
    → ((P : Deposit → Type 0) (l : List Deposit) → All P l → All P (order l))
    → (get_deposits up order user limit offset db).0 ≡ ok page
    → ((n : ℕ) × IsLimit limit n × (length page ≤ n))
      × All (IsShown user db) page
      × ((get_deposits up order user limit offset db).1 ≡ db)
unfolding get_deposits get_deposits_by_user_id
get_deposits-page up order user limit (negsuc n) db page reorders e =
    let never : ⊥ = ground (arith, e) in absurd never
get_deposits-page up order user limit (pos offset) db page reorders e =
    elim (Bool-cases (up select_deposits)) [
      | inr down ↦ let never : ⊥ = ground (arith, e, down) in absurd never
      | inl answers ↦
          let own = filter (λ (d : Deposit). text_eq d.user_id user) db.deposits in
          let rows = take (page_limit limit) (drop offset (order own)) in
          let Owned = λ (d : Deposit). (text_eq d.user_id user ≡ true) × In d db.deposits in
          let owned : All Owned rows = All-take Owned (page_limit limit) (drop offset (order own)) (
            All-drop Owned offset (order own) (
              reorders Owned own (
                All-filter (λ (d : Deposit). text_eq d.user_id user) db.deposits db.deposits
                  (λ a h. h)))) in
          let shown : summaries rows ≡ page = ground (arith, e, answers) in
          let few : length (summaries rows) ≤ page_limit limit = omega (
            arith,
            length-summaries rows,
            length-take_le (page_limit limit) (drop offset (order own)),
          ) in
          (
            (
              page_limit limit,
              page_limit-IsLimit limit,
              subst (λ t. length t ≤ page_limit limit) shown few,
            ),
            subst (All (IsShown user db)) shown (All-IsShown user db rows owned),
            ground (arith, answers),
          )
    ]
