-- ===== src/Api/Nearby/Tests.antt =====
-- Runs of the nearby service on concrete tables, and an instance of each theorem.
use nearby_payments_api.Base.{
  ℕ, suc, ◌<◌, ◌≡◌, refl, ap, ◌≢◌, ◌⊎◌, inr, ◌↔◌, true, false, some, List, [], ◌∷◌, Text, codes,
  text_eq, get_or, arith,
}
use nearby_payments_api.Api.Errors.{ok}
use nearby_payments_api.Api.Replies.{answered, refused}
use nearby_payments_api.Api.Rows.{update}
use nearby_payments_api.Api.Wallets.{WalletBinding}
use nearby_payments_api.Api.Nearby.Types.{
  NearbySession, InitiateSessionRequest, InitiateSessionResponse, GetSessionResponse,
  AcknowledgeSessionResponse, Tables, session_at, session_id, with_status, create_session,
  get_session_by_id, update_session_status, get_wallet_binding_by_sui_address,
}
use nearby_payments_api.Api.Nearby.Service.{
  World, refused_session, is_allowed_payload_type, new_session, initiate_session, get_session,
  acknowledge_session, handle_initiate, handle_get, handle_acknowledge,
}
use nearby_payments_api.Api.Nearby.Laws.{initiate_session-get, acknowledge_session_iff}
use nearby_payments_api.Api.Nearby.Runs.{Call, initiate, acknowledge, perform_all}
use nearby_payments_api.Api.Nearby.Parties.{perform_all-recipient}
use nearby_payments_api.Api.Nearby.History.{History, perform_all-session_History}

abbrev world : ℕ → World
world now = record { up = λ s. true; now = now; later = now; new_id = codes "s1" }

abbrev bob_wallet : WalletBinding
bob_wallet = record {
  user_id = codes "bob";
  sui_address = codes "0xb";
  auth_scheme = codes "zklogin";
  issuer = codes "iss";
  audience = codes "aud";
  created_at = 1;
  updated_at = 1;
}

abbrev empty : Tables
empty = record { sessions = []; wallets = bob_wallet ∷ [] }

abbrev request : InitiateSessionRequest
request = record {
  recipient_sui_address = codes "0xb";
  payload_type = codes "payment_request";
  payload_data = codes "{}";
}

abbrev session : NearbySession
session = new_session (world 1000) (codes "ann") (codes "bob") request

abbrev one_session : Tables
one_session = record { sessions = session ∷ []; wallets = bob_wallet ∷ [] }

abbrev response : InitiateSessionResponse
response = record {
  session_id = codes "s1";
  recipient_sui_address = codes "0xb";
  payload_type = codes "payment_request";
  status = codes "pending";
  expires_at = 1300;
}

initiate-run :
    handle_initiate (world 1000) (some (codes "ann")) (some request) empty
    ≡ (answered 201 response, one_session)
unfolding handle_initiate get_wallet_binding_by_sui_address create_session refused_session
    is_allowed_payload_type text_eq
initiate-run = refl

stranger-run :
    (handle_get (world 1000) (some (codes "eve")) (codes "s1") one_session).0
    ≡ refused (record {
      code = codes "session_not_found";
      message = codes "Nearby session not found";
      status = 404;
    })
unfolding handle_get get_session_by_id text_eq
stranger-run = refl

acknowledge-run :
    (handle_acknowledge
      (world 1300)
      (some (codes "bob"))
      (codes "s1")
      (some (record { accept = true }))
      one_session).1.sessions
    ≡ with_status (codes "accepted") 1300 session ∷ []
unfolding handle_acknowledge get_session_by_id update_session_status update text_eq
acknowledge-run = refl

expired-run :
    (handle_acknowledge
      (world 1301)
      (some (codes "bob"))
      (codes "s1")
      (some (record { accept = true }))
      one_session).1
    ≡ one_session
unfolding handle_acknowledge get_session_by_id update_session_status text_eq
expired-run = refl

text-ne : {s t : Text} → get_or s 0 0 ≢ get_or t 0 0 → s ≢ t
text-ne h e = h (ap (λ t. get_or t 0 0) e)

initiate_session-get_example :
    let db' = (initiate_session (world 1000) (codes "ann") request empty).1 in
    (shown : GetSessionResponse) × (get_session (world 1300) (codes "s1") (codes "bob") db'
      ≡ (ok shown, db'))
    × (shown.payload_type ≡ codes "payment_request")
    × (shown.payload_data ≡ codes "{}")
    × (shown.status ≡ codes "pending")
    × (shown.expires_at ≡ 1300)
unfolding initiate_session get_wallet_binding_by_sui_address create_session refused_session
    is_allowed_payload_type text_eq
initiate_session-get_example =
    initiate_session-get (world 1000) (world 1300) (codes "ann") (codes "bob") request empty
      response bob_wallet refl refl (inr refl) refl (omega arith)

acknowledge_session_iff_example :
    (acknowledge_session
        (world 1000)
        (codes "s1")
        (codes "bob")
        (record { accept = true })
        one_session
      ≡ (
        ok (record { session_id = codes "s1"; status = codes "accepted" }),
        record one_session {
          sessions =
              update session_id (codes "s1") (with_status (codes "accepted") 1000) (session ∷ []);
        },
      ))
    ↔ ((ns : NearbySession) × (session_at (codes "s1") (session ∷ []) ≡ some ns)
        × (ns.recipient_user_id ≡ codes "bob")
        × (ns.status ≡ codes "pending")
        × (1000 < suc ns.expires_at))
acknowledge_session_iff_example =
    acknowledge_session_iff (world 1000) (codes "s1") (codes "bob") (record { accept = true })
      one_session refl refl

abbrev history : List Call
history =
    initiate (world 1000) (codes "ann") request
    ∷ acknowledge (world 1100) (codes "s1") (codes "bob") (record { accept = false })
    ∷ acknowledge (world 1200) (codes "s1") (codes "bob") (record { accept = true })
    ∷ []

perform_all-session_History_example :
    (ns' : NearbySession) × (session_at (codes "s1") (perform_all history one_session).sessions
      ≡ some ns')
    × History session ns'
unfolding text_eq
perform_all-session_History_example =
    perform_all-session_History history one_session (codes "s1") session refl

abbrev intrusion : List Call
intrusion =
    acknowledge (world 1100) (codes "s1") (codes "ann") (record { accept = true })
    ∷ acknowledge (world 1100) (codes "s1") (codes "eve") (record { accept = true })
    ∷ []

perform_all-recipient_example :
    let db' = perform_all intrusion one_session in
    (session_at (codes "s1") db'.sessions ≡ some session)
    × ((resp : AcknowledgeSessionResponse)
        → (acknowledge_session
            (world 1000)
            (codes "s1")
            (codes "eve")
            (record { accept = true })
            db').0
          ≢ ok resp)
    × ((codes "eve" ≡ codes "ann")
        ⊎ ((resp : GetSessionResponse)
            → (get_session (world 1000) (codes "s1") (codes "eve") db').0 ≢ ok resp))
unfolding text_eq
perform_all-recipient_example =
    perform_all-recipient intrusion one_session (codes "s1") session (world 1000) (codes "eve")
      (record { accept = true }) refl
      (text-ne (λ e. omega (arith, e)), (text-ne (λ e. omega (arith, e)), tt))
      (text-ne (λ e. omega (arith, e)))
