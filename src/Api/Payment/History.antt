-- ===== src/Api/Payment/History.antt =====
-- What becomes of one payment intent over any sequence of calls.
use nearby_payments_api.Base.{
  ℕ, ◌≡◌, refl, sym, ap, ◌∙◌, ◌≢◌, ◌⊎◌, inl, inr, Option, none, some, List, [], ◌∷◌, Text, codes,
  get_or, arith, text_eq, text_eq_iff, Bool-cases,
}
use nearby_payments_api.Api.Payment.Types.{PaymentIntent}
use nearby_payments_api.Api.Payment.Store.{Db, find, has_id, set_status}
use nearby_payments_api.Api.Payment.Table.{
  map_some, with_status, find-set_status_self, find-set_status_ne,
}
use nearby_payments_api.Api.Payment.Runs.{
  Call, perform, perform_all, Change, same, added, settled, perform-Change,
}

-- A row and the same row later: it is as it was, or it was pending and has been settled once.
pub data History (pi pi' : PaymentIntent) : Type 0 where
  kept : pi' ≡ pi → History pi pi'
  ended :
      (status digest : Text) (at : ℕ)
      → pi.status ≡ codes "pending"
      → (status ≡ codes "submitted") ⊎ ((status ≡ codes "failed") ⊎ (status ≡ codes "cancelled"))
      → pi' ≡ with_status status digest at pi
      → History pi pi'

-- No settled status is that of a pending intent.
ended-not-pending :
    (status : Text)
    → (status ≡ codes "submitted") ⊎ ((status ≡ codes "failed") ⊎ (status ≡ codes "cancelled"))
    → status ≢ codes "pending"
ended-not-pending status (inl e) q = absurd (omega (arith, ap (λ t. get_or t 0 0) (sym e ∙ q)))
ended-not-pending status (inr (inl e)) q =
    absurd (omega (arith, ap (λ t. get_or t 0 0) (sym e ∙ q)))
ended-not-pending status (inr (inr e)) q =
    absurd (omega (arith, ap (λ t. get_or t 0 0) (sym e ∙ q)))

some-inj : {p q : PaymentIntent} → some p ≡ some q → p ≡ q
some-inj e = cc

none-some : {q : PaymentIntent} → Path (Option PaymentIntent) none (some q) → ⊥
none-some e = cc

-- One change of the table, seen from the row with an id.
Change-History :
    {user : Text} {l l' : List PaymentIntent} (id : Text) (pi : PaymentIntent)
    → Change user l l'
    → find (has_id id) l ≡ some pi
    → (pi' : PaymentIntent) × (find (has_id id) l' ≡ some pi') × History pi pi'
Change-History id pi (same e) found = (pi, ap (find (has_id id)) e ∙ found, kept refl)
Change-History {user} {l} id pi (added p sound ids keys e) found =
    elim (Bool-cases (text_eq p.id id)) [
      | inl eq ↦
          let here : find (has_id id) l ≡ none =
            ap (λ t. find (has_id t) l) (sym ((text_eq_iff p.id id).0 eq)) ∙ ids in
          absurd (none-some (sym here ∙ found))
      | inr ne ↦ (pi, ap (find (has_id id)) e ∙ rw ne found, kept refl)
    ]
Change-History {user} {l} id pi (settled p status digest at own pending mine kind e) found =
    elim (Bool-cases (text_eq p.id id)) [
      | inl eq ↦
          let eq' = (text_eq_iff p.id id).0 eq in
          let row : p ≡ pi = some-inj (sym own ∙ (ap (λ t. find (has_id t) l) eq' ∙ found)) in
          (
            with_status status digest at pi,
            ap (find (has_id id)) e
                ∙ (ap (λ t. find (has_id id) (set_status t status digest at l)) eq'
                    ∙ (find-set_status_self id status digest at l
                        ∙ ap (map_some (with_status status digest at)) found)),
            ended status digest at (ap (λ (q : PaymentIntent). q.status) (sym row) ∙ pending) kind
                refl,
          )
      | inr ne ↦ (
        pi,
        ap (find (has_id id)) e
            ∙ (find-set_status_ne p.id status digest at id l
                  (λ q. ground (arith, text_eq_iff p.id id))
                ∙ found),
        kept refl,
      )
    ]

-- Two stretches of a row's history make one: what is settled stays as it is.
History-trans : {p q r : PaymentIntent} → History p q → History q r → History p r
History-trans (kept e) (kept e') = kept (e' ∙ e)
History-trans (kept e) (ended s d at was kind e') =
    ended s d at (ap (λ (x : PaymentIntent). x.status) (sym e) ∙ was) kind
      (e' ∙ ap (with_status s d at) e)
History-trans (ended s d at was kind e) (kept e') = ended s d at was kind (e' ∙ e)
History-trans (ended s d at was kind e) (ended s' d' at' was' kind' e') =
    absurd (ended-not-pending s kind (ap (λ (x : PaymentIntent). x.status) (sym e) ∙ was'))

-- Whatever calls are made, with whatever failures, an intent that is in the table stays there, and
-- either its row is unchanged, or it was pending and has been settled exactly once: its status,
-- digest and time of update are new, its status is submitted, failed or cancelled, and its owner,
-- recipient, amount and every other field are what they were.
pub perform_all-History :
    (cs : List Call) (db : Db) (id : Text) (pi : PaymentIntent)
    → find (has_id id) db.intents ≡ some pi
    → (pi' : PaymentIntent) × (find (has_id id) (perform_all cs db).intents ≡ some pi')
      × History pi pi'
unfolding perform_all
perform_all-History [] db id pi found = (pi, found, kept refl)
perform_all-History (c ∷ cs) db id pi found =
    let (pi', found', step) = Change-History id pi (perform-Change c db) found in
    let (pi'', found'', rest) = perform_all-History cs (perform c db) id pi' found' in
    (pi'', found'', History-trans step rest)
