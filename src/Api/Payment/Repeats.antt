-- ===== src/Api/Payment/Repeats.antt =====
-- The idempotency key of apps/api/internal/domain/payment over sequences of calls.
use nearby_payments_api.Base.{
  ℕ, ◌≡◌, refl, sym, ap, subst, ◌∙◌, ◌⊎◌, inl, inr, true, Option, none, some, List, [], ◌∷◌, Text,
  codes, text_eq, text_eq_iff, if◌then◌else◌, Bool-cases,
}
use nearby_payments_api.Api.Errors.{ok}
use nearby_payments_api.Api.Payment.Types.{PaymentIntent, CreateIntentRequest, CreateIntentResponse}
use nearby_payments_api.Api.Payment.Store.{Db, select_intent_by_key, find, has_key, set_status}
use nearby_payments_api.Api.Payment.Service.{World, create_intent}
use nearby_payments_api.Api.Payment.Table.{map_some, with_status}
use nearby_payments_api.Api.Payment.Laws.{create-ended, create_hit, create-found}
use nearby_payments_api.Api.Payment.Runs.{
  Call, perform, perform_all, Change, same, added, settled, perform-Change,
}

abbrev pub IsSettled : Text → Type 0
IsSettled s = (s ≡ codes "submitted") ⊎ ((s ≡ codes "failed") ⊎ (s ≡ codes "cancelled"))

-- A row later: all but its status, its digest and its time of update is as it was, and its status is
-- as it was or a settled one.
abbrev Later : PaymentIntent → PaymentIntent → Type 0
Later pi pi' =
    (status : Text) × (digest : Text) × (at : ℕ) × (pi' ≡ with_status status digest at pi)
    × ((status ≡ pi.status) ⊎ IsSettled status)

Later-refl : (pi : PaymentIntent) → Later pi pi
Later-refl pi = (pi.status, pi.tx_digest, pi.updated_at, refl, inl refl)

Later-trans : (p q r : PaymentIntent) → Later p q → Later q r → Later p r
Later-trans p q r (s, d, at, e, kind) (s', d', at', e', inr kind') =
    (s', d', at', e' ∙ ap (with_status s' d' at') e, inr kind')
Later-trans p q r (s, d, at, e, inl kind) (s', d', at', e', inl kind') = (
  s',
  d',
  at',
  e' ∙ ap (with_status s' d' at') e,
  inl (kind' ∙ (ap (λ (x : PaymentIntent). x.status) e ∙ kind)),
)
Later-trans p q r (s, d, at, e, inr kind) (s', d', at', e', inl kind') =
    let was : s ≡ s' = sym (kind' ∙ ap (λ (x : PaymentIntent). x.status) e) in
    (s', d', at', e' ∙ ap (with_status s' d' at') e, inr (subst IsSettled was kind))

find_key-set_status :
    (id status digest : Text) (at : ℕ) (k : Text) (l : List PaymentIntent)
    → find (has_key k) (set_status id status digest at l)
      ≡ map_some
          (λ (r : PaymentIntent). if text_eq r.id id then with_status status digest at r else r)
          (find (has_key k) l)
unfolding set_status
find_key-set_status id status digest at k [] = refl
find_key-set_status id status digest at k (pi ∷ l) = elim (Bool-cases (text_eq pi.id id)) [
  | inl e ↦ elim (Bool-cases (text_eq pi.idempotency_key k)) [
    | inl e' ↦ rw (e, e', e) refl
    | inr e' ↦ rw (e, e') (find_key-set_status id status digest at k l)
  ]
  | inr e ↦ elim (Bool-cases (text_eq pi.idempotency_key k)) [
    | inl e' ↦ rw (e, e', e) refl
    | inr e' ↦ rw (e, e') (find_key-set_status id status digest at k l)
  ]
]

none-some : {q : PaymentIntent} → Path (Option PaymentIntent) none (some q) → ⊥
none-some e = cc

-- One change of the table, seen from the row with a key.
Change-Later :
    {user : Text} {l l' : List PaymentIntent} (k : Text) (pi : PaymentIntent)
    → Change user l l'
    → find (has_key k) l ≡ some pi
    → (pi' : PaymentIntent) × (find (has_key k) l' ≡ some pi') × Later pi pi'
Change-Later k pi (same e) found = (pi, ap (find (has_key k)) e ∙ found, Later-refl pi)
Change-Later {user} {l} k pi (added p sound ids keys e) found =
    elim (Bool-cases (text_eq p.idempotency_key k)) [
      | inl eq ↦
          let here : find (has_key k) l ≡ none =
            ap (λ t. find (has_key t) l) (sym ((text_eq_iff p.idempotency_key k).0 eq)) ∙ keys in
          absurd (none-some (sym here ∙ found))
      | inr ne ↦ (pi, ap (find (has_key k)) e ∙ rw ne found, Later-refl pi)
    ]
Change-Later {user} {l} k pi (settled p status digest at own pending mine kind e) found =
    let there =
      ap (find (has_key k)) e
      ∙ (find_key-set_status p.id status digest at k l
          ∙ ap
              (map_some (λ (r : PaymentIntent).
                if text_eq r.id p.id then with_status status digest at r else r))
              found) in
    elim (Bool-cases (text_eq pi.id p.id)) [
      | inl eq ↦ (
        with_status status digest at pi,
        there ∙ rw eq refl,
        (status, digest, at, refl, inr kind),
      )
      | inr ne ↦ (pi, there ∙ rw ne refl, Later-refl pi)
    ]

perform_all-Later :
    (cs : List Call) (db : Db) (k : Text) (pi : PaymentIntent)
    → find (has_key k) db.intents ≡ some pi
    → (pi' : PaymentIntent) × (find (has_key k) (perform_all cs db).intents ≡ some pi')
      × Later pi pi'
unfolding perform_all
perform_all-Later [] db k pi found = (pi, found, Later-refl pi)
perform_all-Later (c ∷ cs) db k pi found =
    let (pi', found', step) = Change-Later k pi (perform-Change c db) found in
    let (pi'', found'', rest) = perform_all-Later cs (perform c db) k pi' found' in
    (pi'', found'', Later-trans pi pi' pi'' step rest)

-- A creation that succeeded is idempotent: after any calls with any failures, the same request by any
-- user changes nothing and is answered by the same response but for the status, which is the same
-- or a settled one, if the database answers.
pub create_intent-repeat :
    (w w' : World) (user user' : Text) (req : CreateIntentRequest) (cs : List Call) (db : Db)
    (resp : CreateIntentResponse)
    → (create_intent w user req db).0 ≡ ok resp
    → w'.up select_intent_by_key ≡ true
    → let db' = perform_all cs (create_intent w user req db).1 in
      (status : Text) × (create_intent w' user' req db'
        ≡ (ok (record resp { status = status }), db'))
      × ((status ≡ resp.status) ⊎ IsSettled status)
create_intent-repeat w w' user user' req cs db resp e up =
    let db' = perform_all cs (create_intent w user req db).1 in
    let (pi, found, answer) = create-found w user req db resp e in
    let (pi', found', (status, digest, at, same_row, kind)) =
      perform_all-Later cs (create_intent w user req db).1 req.idempotency_key pi found in
    (
      status,
      create_hit w' user' req db' pi' up (create-ended w user req db resp e).0 found'
          ∙ rw (same_row, answer) refl,
      rw answer kind,
    )
