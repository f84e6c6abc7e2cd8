-- ===== src/Api/Nearby/Parties.antt =====
-- The calls of apps/api/internal/domain/nearby by others than the recipient of a session.
use nearby_payments_api.Base.{
  ◌≡◌, refl, sym, ap, ◌∙◌, ◌≢◌, ◌⊎◌, inl, inr, false, Option, none, some, List, [], ◌∷◌, Text,
  arith, text_eq, text_eq_iff, text_eq-false, All, Bool-cases,
}
use nearby_payments_api.Api.Errors.{ok}
use nearby_payments_api.Api.Rows.{find-update-ne}
use nearby_payments_api.Api.Nearby.Types.{
  NearbySession, GetSessionResponse, AcknowledgeSessionRequest, AcknowledgeSessionResponse, Tables,
  session_at, session_id, with_status, get_session_by_id,
}
use nearby_payments_api.Api.Nearby.Service.{World, get_session, acknowledge_session}
use nearby_payments_api.Api.Nearby.Runs.{
  Call, caller, perform, perform_all, Change, same, added, answered, perform-session_Change,
}

some-inj : {p q : NearbySession} → some p ≡ some q → p ≡ q
some-inj e = cc

none-some : {q : NearbySession} → Path (Option NearbySession) none (some q) → ⊥
none-some e = cc

-- A change by anybody but the recipient leaves the row with an id as it is.
Change-kept :
    {user : Text} {l l' : List NearbySession} (id : Text) (ns : NearbySession)
    → Change user l l'
    → session_at id l ≡ some ns
    → user ≢ ns.recipient_user_id
    → session_at id l' ≡ some ns
Change-kept id ns (same e) found other = ap (session_at id) e ∙ found
Change-kept {user} {l} id ns (added n sound ids e) found other =
    elim (Bool-cases (text_eq n.id id)) [
      | inl eq ↦
          let here : session_at id l ≡ none =
            ap (λ t. session_at t l) (sym ((text_eq_iff n.id id).0 eq)) ∙ ids in
          absurd (none-some (sym here ∙ found))
      | inr ne ↦ ap (session_at id) e ∙ rw ne found
    ]
Change-kept {user} {l} id ns (answered n status at own pending mine kind e) found other =
    elim (Bool-cases (text_eq n.id id)) [
      | inl eq ↦
          let row : n ≡ ns =
            some-inj (sym own ∙ (ap (λ t. session_at t l) ((text_eq_iff n.id id).0 eq) ∙ found)) in
          absurd (other (sym mine ∙ ap (λ (q : NearbySession). q.recipient_user_id) row))
      | inr ne ↦
          ap (session_at id) e
          ∙ (find-update-ne session_id (with_status status at) (λ a. refl) n.id id l
                (λ q. ground (arith, text_eq_iff n.id id))
              ∙ found)
    ]

perform_all-kept :
    (cs : List Call) (db : Tables) (id : Text) (ns : NearbySession)
    → session_at id db.sessions ≡ some ns
    → All (λ c. caller c ≢ ns.recipient_user_id) cs
    → session_at id (perform_all cs db).sessions ≡ some ns
unfolding perform_all
perform_all-kept [] db id ns found others = found
perform_all-kept (c ∷ cs) db id ns found (other, others) =
    perform_all-kept cs (perform c db) id ns
      (Change-kept id ns (perform-session_Change c db) found other) others

reader-refused :
    (w : World) (id user : Text) (db : Tables) (ns : NearbySession) (resp : GetSessionResponse)
    → session_at id db.sessions ≡ some ns
    → user ≢ ns.recipient_user_id
    → user ≢ ns.initiator_user_id
    → (get_session w id user db).0 ≢ ok resp
unfolding get_session get_session_by_id
reader-refused w id user db ns resp found third other e =
    let no = text_eq-false ns.recipient_user_id user (λ q. third (sym q)) in
    let no' = text_eq-false ns.initiator_user_id user (λ q. other (sym q)) in ground arith

acknowledger-refused :
    (w : World) (id user : Text) (req : AcknowledgeSessionRequest) (db : Tables)
    (ns : NearbySession) (resp : AcknowledgeSessionResponse)
    → session_at id db.sessions ≡ some ns
    → user ≢ ns.recipient_user_id
    → (acknowledge_session w id user req db).0 ≢ ok resp
unfolding acknowledge_session get_session_by_id
acknowledger-refused w id user req db ns resp found other e =
    let no = text_eq-false ns.recipient_user_id user (λ q. other (sym q)) in ground arith

-- Whatever others than its recipient call, the initiator included, with whatever failures, a session
-- stays exactly as it is; it is then acknowledged with success by none of them, and shown to none of
-- them but the initiator.
pub perform_all-recipient :
    (cs : List Call) (db : Tables) (id : Text) (ns : NearbySession) (w : World) (user : Text)
    (req : AcknowledgeSessionRequest)
    → session_at id db.sessions ≡ some ns
    → All (λ c. caller c ≢ ns.recipient_user_id) cs
    → user ≢ ns.recipient_user_id
    → let db' = perform_all cs db in
      (session_at id db'.sessions ≡ some ns)
      × ((resp : AcknowledgeSessionResponse) → (acknowledge_session w id user req db').0 ≢ ok resp)
      × ((user ≡ ns.initiator_user_id)
          ⊎ ((resp : GetSessionResponse) → (get_session w id user db').0 ≢ ok resp))
perform_all-recipient cs db id ns w user req found others third =
    let db' = perform_all cs db in
    let kept = perform_all-kept cs db id ns found others in
    (
      kept,
      λ resp. acknowledger-refused w id user req db' ns resp kept third,
      elim (Bool-cases (text_eq user ns.initiator_user_id)) [
        | inl mine ↦ inl ((text_eq_iff user ns.initiator_user_id).0 mine)
        | inr apart ↦ inr (λ resp.
            reader-refused w id user db' ns resp kept third (λ e. absurd (text_ne apart e)))
      ],
    )
  where
    text_ne : {s t : Text} → text_eq s t ≡ false → s ≡ t → ⊥
    text_ne {s} {t} differ e = ground (arith, text_eq_iff s t)
