-- ===== src/Api/Nearby/Laws.antt =====
-- What the nearby service guarantees to the two users of a session, and to everybody else.
use nearby_payments_api.Base.{
  suc, ◌<◌, ◌+◌, ◌≡◌, refl, sym, ap, ◌∙◌, ◌⊎◌, inl, inr, ◌↔◌, true, none, some, ◌∷◌, Text, codes,
  arith, text_eq_iff, text_eq_refl, if◌then◌else◌, Option-cases,
}
use nearby_payments_api.Api.Errors.{ok}
use nearby_payments_api.Api.Rows.{update, find_sound}
use nearby_payments_api.Api.Wallets.{WalletBinding, wallet_of_address}
use nearby_payments_api.Api.Nearby.Types.{
  NearbySession, InitiateSessionRequest, InitiateSessionResponse, GetSessionResponse,
  AcknowledgeSessionRequest, Tables, select_session, update_session, session_at, session_id,
  with_status, add_session, create_session, get_session_by_id, update_session_status,
  get_wallet_binding_by_sui_address,
}
use nearby_payments_api.Api.Nearby.Service.{
  World, refused_session, new_session, initiate_session, get_session, acknowledge_session,
  session_response,
}

-- An insertion that is accepted.
pub add_session-eq-some :
    (ns : NearbySession) (db db' : Tables)
    → add_session ns db ≡ some db'
    → (session_at ns.id db.sessions ≡ none) × (db' ≡ record db { sessions = ns ∷ db.sessions })
unfolding add_session
add_session-eq-some ns db db' e = ground arith

-- How an initiation that succeeds has ended.
pub initiate-ended :
    (w : World) (user : Text) (req : InitiateSessionRequest) (db : Tables)
    (resp : InitiateSessionResponse)
    → (initiate_session w user req db).0 ≡ ok resp
    → (wb : WalletBinding) × (refused_session req ≡ none)
      × (wallet_of_address req.recipient_sui_address db.wallets ≡ some wb)
      × (resp.session_id ≡ w.new_id)
      × (add_session (new_session w user wb.user_id req) db
          ≡ some (initiate_session w user req db).1)
unfolding initiate_session get_wallet_binding_by_sui_address create_session
initiate-ended w user req db resp e = elim (Option-cases (refused_session req)) [
  | inr (x, refused) ↦ let no : ⊥ = ground arith in absurd no
  | inl passed ↦ elim (Option-cases (wallet_of_address req.recipient_sui_address db.wallets)) [
    | inl missing ↦ let no : ⊥ = ground arith in absurd no
    | inr (wb, found) ↦ elim (Option-cases (add_session (new_session w user wb.user_id req) db)) [
      | inl clash ↦ let no : ⊥ = ground arith in absurd no
      | inr (db', added) ↦ (wb, passed, found, ground arith, ground arith)
    ]
  ]
]

-- A reading of a session by one of its two users, in time.
get_session-shown :
    (w : World) (user : Text) (db : Tables) (ns : NearbySession)
    → w.up select_session ≡ true
    → session_at ns.id db.sessions ≡ some ns
    → (ns.initiator_user_id ≡ user) ⊎ (ns.recipient_user_id ≡ user)
    → w.now < suc ns.expires_at
    → get_session w ns.id user db ≡ (ok (session_response w ns db), db)
unfolding get_session get_session_by_id
get_session-shown w user db ns up found (inl mine) fresh =
    ground (arith, text_eq_iff ns.initiator_user_id user)
get_session-shown w user db ns up found (inr mine) fresh =
    ground (arith, text_eq_iff ns.recipient_user_id user)

-- On the tables that an initiation leaves which succeeded, the initiator and the user whose wallet was
-- addressed read the payload that was sent, pending, for 300 seconds, if the database answers.
pub initiate_session-get :
    (w w' : World) (user reader : Text) (req : InitiateSessionRequest) (db : Tables)
    (resp : InitiateSessionResponse) (wb : WalletBinding)
    → (initiate_session w user req db).0 ≡ ok resp
    → wallet_of_address req.recipient_sui_address db.wallets ≡ some wb
    → (user ≡ reader) ⊎ (wb.user_id ≡ reader)
    → w'.up select_session ≡ true
    → w'.now < suc (w.now + 300)
    → let db' = (initiate_session w user req db).1 in
      (shown : GetSessionResponse) × (get_session w' resp.session_id reader db' ≡ (ok shown, db'))
      × (shown.payload_type ≡ req.payload_type)
      × (shown.payload_data ≡ req.payload_data)
      × (shown.status ≡ codes "pending")
      × (shown.expires_at ≡ w.now + 300)
initiate_session-get w w' user reader req db resp wb e wallet reads up fresh =
    let (wb', passed, found, id, added) = initiate-ended w user req db resp e in
    let same : wb' ≡ wb = some-inj (sym found ∙ wallet) in
    let ns = new_session w user wb.user_id req in
    let db' = (initiate_session w user req db).1 in
    let added' : add_session ns db ≡ some db' =
      ap (λ (x : WalletBinding). add_session (new_session w user x.user_id req) db) (sym same)
      ∙ added in
    let grown = (add_session-eq-some ns db db' added').1 in
    let there : session_at ns.id db'.sessions ≡ some ns =
      ap (λ (d : Tables). session_at ns.id d.sessions) grown ∙ rw (text_eq_refl w.new_id) refl in
    (
      session_response w' ns db',
      rw id (get_session-shown w' reader db' ns up there reads fresh),
      refl,
      refl,
      refl,
      refl,
    )
  where
    some-inj : {p q : WalletBinding} → some p ≡ some q → p ≡ q
    some-inj p = cc

-- The status that an acknowledgement sets.
abbrev pub answer_of : AcknowledgeSessionRequest → Text
answer_of req = if req.accept then codes "accepted" else codes "declined"

-- Where the database answers, an acknowledgement is accepted exactly if the session exists, the caller
-- is its recipient, it is pending and it has not expired; accepted means that it answers, and leaves
-- in the table, that the session is "accepted" or "declined", as the caller said.
pub acknowledge_session_iff :
    (w : World) (id user : Text) (req : AcknowledgeSessionRequest) (db : Tables)
    → w.up select_session ≡ true
    → w.up update_session ≡ true
    → (acknowledge_session w id user req db ≡ (
      ok (record { session_id = id; status = answer_of req }),
      record db {
        sessions = update session_id id (with_status (answer_of req) w.later) db.sessions;
      },
    ))
      ↔ ((ns : NearbySession) × (session_at id db.sessions ≡ some ns)
          × (ns.recipient_user_id ≡ user)
          × (ns.status ≡ codes "pending")
          × (w.now < suc ns.expires_at))
unfolding acknowledge_session get_session_by_id update_session_status
acknowledge_session_iff w id user req db up up' = elim (Option-cases (session_at id db.sessions)) [
  | inl missing ↦
      (λ e. let no : ⊥ = ground arith in absurd no, λ h. let no : ⊥ = ground arith in absurd no)
  | inr (ns, found) ↦ (
    λ e. (
      ns,
      found,
      ground (arith, text_eq_iff ns.recipient_user_id user),
      ground (arith, text_eq_iff ns.status (codes "pending")),
      ground arith,
    ),
    λ h.
        let (ns', found', mine, pending, fresh) = h in
        let same : ns.id ≡ id = find_sound session_id id db.sessions ns found in
        ground
          (arith, text_eq_iff ns.recipient_user_id user, text_eq_iff ns.status (codes "pending")),
  )
]
