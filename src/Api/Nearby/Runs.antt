-- ===== src/Api/Nearby/Runs.antt =====
-- Any sequence of calls of the nearby service: the invariant of the table and a session's history.
use nearby_payments_api.Base.{
  ℕ, ◌+◌, ◌≡◌, refl, ap, ◌∙◌, ◌≢◌, ◌⊎◌, inl, inr, true, none, some, List, [], ◌∷◌, Text, codes,
  arith, text_eq, text_eq_iff, ltb, Option-cases, Bool-cases,
}
use nearby_payments_api.Api.Rows.{update, find_sound}
use nearby_payments_api.Api.Wallets.{wallet_of_address}
use nearby_payments_api.Api.Nearby.Types.{
  NearbySession, InitiateSessionRequest, AcknowledgeSessionRequest, Tables, insert_session,
  select_session, update_session, wallet_by_address, session_at, session_id, with_status,
  add_session, create_session, get_session_by_id, update_session_status,
  get_wallet_binding_by_sui_address,
}
use nearby_payments_api.Api.Nearby.Service.{
  World, refused_session, is_allowed_payload_type, new_session, initiate_session,
  acknowledge_session,
}
use nearby_payments_api.Api.Nearby.Laws.{add_session-eq-some, answer_of}

-- The calls of the service that write.
pub data Call : Type 0 where
  initiate : World → (user : Text) → InitiateSessionRequest → Call
  acknowledge : World → (id user : Text) → AcknowledgeSessionRequest → Call

unfoldable pub perform : Call → Tables → Tables
unfolding initiate_session acknowledge_session
perform (initiate w user req) db = (initiate_session w user req db).1
perform (acknowledge w id user req) db = (acknowledge_session w id user req db).1

unfoldable pub perform_all : List Call → Tables → Tables
perform_all [] db = db
perform_all (c ∷ cs) db = perform_all cs (perform c db)

abbrev pub IsAnswer : Text → Type 0
IsAnswer s = (s ≡ codes "accepted") ⊎ (s ≡ codes "declined")

-- What holds of each session: the checks of the request and of the table, and the time to live.
pub record IsSound (ns : NearbySession) : Type 0 where
  pub payload : is_allowed_payload_type ns.payload_type ≡ true
  pub data_given : ns.payload_data ≢ []
  pub status : (ns.status ≡ codes "pending") ⊎ IsAnswer ns.status
  pub expiry : ns.expires_at ≡ ns.created_at + 300

-- Each session is sound and no id stands twice.
abbrev pub AreValid : List NearbySession → Type 0
AreValid [] = Unit
AreValid (ns ∷ l) = IsSound ns × (session_at ns.id l ≡ none) × AreValid l

-- What a single call can do to the table: nothing, add a sound pending session with a fresh id, or
-- answer a pending one that the caller received.
pub data Change (user : Text) (l l' : List NearbySession) : Type 0 where
  same : l' ≡ l → Change user l l'
  added :
      (ns : NearbySession) → IsSound ns → session_at ns.id l ≡ none → l' ≡ ns ∷ l → Change user l l'
  answered :
      (ns : NearbySession) (status : Text) (at : ℕ)
      → session_at ns.id l ≡ some ns
      → ns.status ≡ codes "pending"
      → ns.recipient_user_id ≡ user
      → IsAnswer status
      → l' ≡ update session_id ns.id (with_status status at) l
      → Change user l l'

passed-IsSound :
    (w : World) (user recipient : Text) (req : InitiateSessionRequest)
    → refused_session req ≡ none
    → IsSound (new_session w user recipient req)
unfolding refused_session
passed-IsSound w user recipient req passed = record {
  payload = ground arith;
  data_given = ground (arith, text_eq_iff req.payload_data []);
  status = inl refl;
  expiry = refl;
}

initiate-Change :
    (w : World) (user : Text) (req : InitiateSessionRequest) (db : Tables)
    → Change user db.sessions (initiate_session w user req db).1.sessions
unfolding initiate_session get_wallet_binding_by_sui_address create_session
initiate-Change w user req db = elim (Option-cases (refused_session req)) [
  | inr (x, refused) ↦ same (ground arith)
  | inl passed ↦ elim (Bool-cases (w.up wallet_by_address)) [
    | inr down ↦ same (ground arith)
    | inl up ↦ elim (Option-cases (wallet_of_address req.recipient_sui_address db.wallets)) [
      | inl missing ↦ same (ground arith)
      | inr (wb, found) ↦ elim (Bool-cases (w.up insert_session)) [
        | inr down' ↦ same (ground arith)
        | inl up' ↦ elim (Option-cases (add_session (new_session w user wb.user_id req) db)) [
          | inl clash ↦ same (ground arith)
          | inr (db', done) ↦
              let (fresh, grown) =
                add_session-eq-some (new_session w user wb.user_id req) db db' done in
              added (new_session w user wb.user_id req)
                (passed-IsSound w user wb.user_id req passed) fresh (ground arith)
        ]
      ]
    ]
  ]
]

answer_of-IsAnswer : (req : AcknowledgeSessionRequest) → IsAnswer (answer_of req)
answer_of-IsAnswer req = elim (Bool-cases req.accept) [
  | inl said ↦ inl (rw said refl)
  | inr unsaid ↦ inr (rw unsaid refl)
]

acknowledge-Change :
    (w : World) (id user : Text) (req : AcknowledgeSessionRequest) (db : Tables)
    → Change user db.sessions (acknowledge_session w id user req db).1.sessions
unfolding acknowledge_session get_session_by_id update_session_status
acknowledge-Change w id user req db = elim (Bool-cases (w.up select_session)) [
  | inr down ↦ same (ground arith)
  | inl up ↦ elim (Option-cases (session_at id db.sessions)) [
    | inl missing ↦ same (ground arith)
    | inr (ns, found) ↦ elim (Bool-cases (text_eq ns.recipient_user_id user)) [
      | inr other ↦ same (ground arith)
      | inl mine ↦ elim (Bool-cases (text_eq ns.status (codes "pending"))) [
        | inr answered_before ↦ same (ground arith)
        | inl pending ↦ elim (Bool-cases (ltb ns.expires_at w.now)) [
          | inl expired ↦ same (ground arith)
          | inr fresh ↦ elim (Bool-cases (w.up update_session)) [
            | inr lost ↦ same (ground arith)
            | inl kept ↦
                answered ns (answer_of req) w.later
                  (ap (λ t. session_at t db.sessions)
                      (find_sound session_id id db.sessions ns found)
                    ∙ found)
                  ((text_eq_iff ns.status (codes "pending")).0 pending)
                  ((text_eq_iff ns.recipient_user_id user).0 mine) (answer_of-IsAnswer req)
                  (ground arith)
          ]
        ]
      ]
    ]
  ]
]

-- Who makes a call.
abbrev pub caller : Call → Text
caller (initiate w user req) = user
caller (acknowledge w id user req) = user

pub perform-session_Change :
    (c : Call) (db : Tables) → Change (caller c) db.sessions (perform c db).sessions
unfolding perform
perform-session_Change (initiate w user req) db = initiate-Change w user req db
perform-session_Change (acknowledge w id user req) db = acknowledge-Change w id user req db
