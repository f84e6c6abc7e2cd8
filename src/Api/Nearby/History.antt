-- ===== src/Api/Nearby/History.antt =====
-- What becomes of one nearby session, and of the whole table, over any sequence of calls.
use nearby_payments_api.Base.{
  ℕ, ◌≡◌, refl, sym, ap, ◌∙◌, ◌≢◌, inl, inr, Option, none, some, List, [], ◌∷◌, Text, codes, get_or,
  arith, text_eq, text_eq_iff, Bool-cases,
}
use nearby_payments_api.Api.Rows.{
  map_some, update, find-update_self, find-update-ne, find-update-none,
}
use nearby_payments_api.Api.Nearby.Types.{
  NearbySession, Tables, session_at, session_id, with_status,
}
use nearby_payments_api.Api.Nearby.Runs.{
  Call, perform, perform_all, IsAnswer, IsSound, AreValid, Change, same, added, answered,
  perform-session_Change,
}

-- A row and the same row later: it is as it was, or it was pending and has been answered once.
pub data History (ns ns' : NearbySession) : Type 0 where
  kept : ns' ≡ ns → History ns ns'
  ended :
      (status : Text) (at : ℕ)
      → ns.status ≡ codes "pending"
      → IsAnswer status
      → ns' ≡ with_status status at ns
      → History ns ns'

answer-not-pending : (s : Text) → IsAnswer s → s ≢ codes "pending"
answer-not-pending s (inl e) q = absurd (omega (arith, ap (λ t. get_or t 0 0) (sym e ∙ q)))
answer-not-pending s (inr e) q = absurd (omega (arith, ap (λ t. get_or t 0 0) (sym e ∙ q)))

some-inj : {p q : NearbySession} → some p ≡ some q → p ≡ q
some-inj e = cc

none-some : {q : NearbySession} → Path (Option NearbySession) none (some q) → ⊥
none-some e = cc

-- One change of the table, seen from the row with an id.
Change-History :
    {user : Text} {l l' : List NearbySession} (id : Text) (ns : NearbySession)
    → Change user l l'
    → session_at id l ≡ some ns
    → (ns' : NearbySession) × (session_at id l' ≡ some ns') × History ns ns'
Change-History id ns (same e) found = (ns, ap (session_at id) e ∙ found, kept refl)
Change-History {user} {l} id ns (added n sound ids e) found = elim (Bool-cases (text_eq n.id id)) [
  | inl eq ↦
      let here : session_at id l ≡ none =
        ap (λ t. session_at t l) (sym ((text_eq_iff n.id id).0 eq)) ∙ ids in
      absurd (none-some (sym here ∙ found))
  | inr ne ↦ (ns, ap (session_at id) e ∙ rw ne found, kept refl)
]
Change-History {user} {l} id ns (answered n status at own pending mine kind e) found =
    elim (Bool-cases (text_eq n.id id)) [
      | inl eq ↦
          let eq' = (text_eq_iff n.id id).0 eq in
          let row : n ≡ ns = some-inj (sym own ∙ (ap (λ t. session_at t l) eq' ∙ found)) in
          (
            with_status status at ns,
            ap (session_at id) e
                ∙ (ap (λ t. session_at id (update session_id t (with_status status at) l)) eq'
                    ∙ (find-update_self session_id (with_status status at) (λ a. refl) id l
                        ∙ ap (map_some (with_status status at)) found)),
            ended status at (ap (λ (q : NearbySession). q.status) (sym row) ∙ pending) kind refl,
          )
      | inr ne ↦ (
        ns,
        ap (session_at id) e
            ∙ (find-update-ne session_id (with_status status at) (λ a. refl) n.id id l
                  (λ q. ground (arith, text_eq_iff n.id id))
                ∙ found),
        kept refl,
      )
    ]

-- Two stretches of a row's history make one: what is answered stays as it is.
History-trans : {p q r : NearbySession} → History p q → History q r → History p r
History-trans (kept e) (kept e') = kept (e' ∙ e)
History-trans (kept e) (ended s at was kind e') =
    ended s at (ap (λ (x : NearbySession). x.status) (sym e) ∙ was) kind
      (e' ∙ ap (with_status s at) e)
History-trans (ended s at was kind e) (kept e') = ended s at was kind (e' ∙ e)
History-trans (ended s at was kind e) (ended s' at' was' kind' e') =
    absurd (answer-not-pending s kind (ap (λ (x : NearbySession). x.status) (sym e) ∙ was'))

-- Whatever calls are made, with whatever failures, a session that is in the table stays there, and
-- either its row is unchanged, or it was pending and has been answered exactly once, by "accepted"
-- or "declined", with its users, its payload, its expiry and every other field but the time of
-- update as they were.
pub perform_all-session_History :
    (cs : List Call) (db : Tables) (id : Text) (ns : NearbySession)
    → session_at id db.sessions ≡ some ns
    → (ns' : NearbySession) × (session_at id (perform_all cs db).sessions ≡ some ns')
      × History ns ns'
unfolding perform_all
perform_all-session_History [] db id ns found = (ns, found, kept refl)
perform_all-session_History (c ∷ cs) db id ns found =
    let (ns', found', step) = Change-History id ns (perform-session_Change c db) found in
    let (ns'', found'', rest) = perform_all-session_History cs (perform c db) id ns' found' in
    (ns'', found'', History-trans step rest)

IsSound-with_status :
    (ns : NearbySession) (status : Text) (at : ℕ)
    → IsAnswer status
    → IsSound ns
    → IsSound (with_status status at ns)
IsSound-with_status ns status at kind h = record {
  payload = h.payload;
  data_given = h.data_given;
  status = inr kind;
  expiry = h.expiry;
}

update-AreValid :
    (id status : Text) (at : ℕ) (l : List NearbySession)
    → IsAnswer status
    → AreValid l
    → AreValid (update session_id id (with_status status at) l)
unfolding update
update-AreValid id status at [] kind h = tt
update-AreValid id status at (ns ∷ l) kind (sound, ids, h) =
    let later = update-AreValid id status at l kind h in
    let ids' = find-update-none session_id (with_status status at) (λ a. refl) id ns.id l ids in
    elim (Bool-cases (text_eq ns.id id)) [
      | inl e ↦ rw e (IsSound-with_status ns status at kind sound, ids', later)
      | inr e ↦ rw e (sound, ids', later)
    ]

Change-AreValid :
    {user : Text} {l l' : List NearbySession} → Change user l l' → AreValid l → AreValid l'
Change-AreValid (same e) h = rw e h
Change-AreValid (added ns sound ids e) h = rw e (sound, ids, h)
Change-AreValid {user} {l} (answered ns status at found pending mine kind e) h =
    rw e (update-AreValid ns.id status at l kind h)

-- Whatever calls are made, with whatever failures, the table of sessions stays valid: an allowed
-- payload type, a payload that is not empty, one of the three statuses, 300 seconds to live, and no
-- id twice.
pub perform_all-sessions_AreValid :
    (cs : List Call) (db : Tables) → AreValid db.sessions → AreValid (perform_all cs db).sessions
unfolding perform_all
perform_all-sessions_AreValid [] db h = h
perform_all-sessions_AreValid (c ∷ cs) db h =
    perform_all-sessions_AreValid cs (perform c db)
      (Change-AreValid (perform-session_Change c db) h)
