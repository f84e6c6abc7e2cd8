-- ===== src/Api/Payment/Runs.antt =====
-- Any sequence of calls keeps the table of intents valid and its rows true to their history.
use nearby_payments_api.Base.{
  ℕ, ◌≡◌, refl, ap, ◌∙◌, ◌⊎◌, inl, inr, true, none, some, List, [], ◌∷◌, Text, codes, arith,
  text_eq, text_eq_iff, ltb, Option-cases, Bool-cases,
}
use nearby_payments_api.Api.Errors.{Outcome-cases}
use nearby_payments_api.Api.Payment.Types.{PaymentIntent, CreateIntentRequest, SubmitIntentRequest}
use nearby_payments_api.Api.Payment.Store.{
  Db, select_intent, select_intent_by_key, insert_intent, update_intent, find, has_id, has_key,
  is_funding_mode, add_intent, set_status, get_intent_by_id, get_intent_by_idempotency_key, insert,
  update_intent_status, create_payment,
}
use nearby_payments_api.Api.Payment.Service.{
  World, refused_request, new_intent, create_intent, submit_intent, cancel_intent, execute,
}
use nearby_payments_api.Api.Payment.Table.{
  find_id_sound, IsStatus, IsSound, AreValid, set_status-AreValid, add_intent-eq-some,
}

-- The calls of the service that write.
pub data Call : Type 0 where
  create : World → (user : Text) → CreateIntentRequest → Call
  submit : World → (id user : Text) → SubmitIntentRequest → Call
  cancel : World → (id user : Text) → Call

unfoldable pub perform : Call → Db → Db
unfolding create_intent submit_intent cancel_intent
perform (create w user req) db = (create_intent w user req db).1
perform (submit w id user req) db = (submit_intent w id user req db).1
perform (cancel w id user) db = (cancel_intent w id user db).1

unfoldable pub perform_all : List Call → Db → Db
perform_all [] db = db
perform_all (c ∷ cs) db = perform_all cs (perform c db)

-- What a single call can do to the table of intents: nothing, add a sound pending intent with a
-- fresh id and a fresh key, or settle a pending one of the caller.
pub data Change (user : Text) (l l' : List PaymentIntent) : Type 0 where
  same : l' ≡ l → Change user l l'
  added :
      (pi : PaymentIntent)
      → IsSound pi
      → find (has_id pi.id) l ≡ none
      → find (has_key pi.idempotency_key) l ≡ none
      → l' ≡ pi ∷ l
      → Change user l l'
  settled :
      (pi : PaymentIntent) (status digest : Text) (at : ℕ)
      → find (has_id pi.id) l ≡ some pi
      → pi.status ≡ codes "pending"
      → pi.user_id ≡ user
      → (status ≡ codes "submitted") ⊎ ((status ≡ codes "failed") ⊎ (status ≡ codes "cancelled"))
      → l' ≡ set_status pi.id status digest at l
      → Change user l l'

passed-IsSound :
    (w : World) (user : Text) (req : CreateIntentRequest)
    → refused_request req ≡ none
    → is_funding_mode (new_intent w user req).funding_mode ≡ true
    → IsSound (new_intent w user req)
unfolding refused_request
passed-IsSound w user req passed mode = record {
  asset = ground (arith, text_eq_iff req.asset (codes "USDsui"));
  amount = (
    ground (arith, text_eq_iff req.amount_atomic []),
    ground (arith, text_eq_iff req.amount_atomic (codes "0")),
  );
  prefix = ground arith;
  width = ground arith;
  key = ground (arith, text_eq_iff req.idempotency_key []);
  mode = mode;
  status = inl refl;
  expiry = refl;
}

create-Change :
    (w : World) (user : Text) (req : CreateIntentRequest) (db : Db)
    → Change user db.intents (create_intent w user req db).1.intents
unfolding create_intent get_intent_by_idempotency_key insert
create-Change w user req db = elim (Option-cases (refused_request req)) [
  | inr (x, refused) ↦ same (ground arith)
  | inl passed ↦ elim (Bool-cases (w.up select_intent_by_key)) [
    | inr down ↦ same (ground arith)
    | inl up ↦ elim (Option-cases (find (has_key req.idempotency_key) db.intents)) [
      | inr (pi, found) ↦ same (ground arith)
      | inl missing ↦ elim (Bool-cases (w.up insert_intent)) [
        | inr down' ↦ same (ground arith)
        | inl up' ↦ elim (Option-cases (add_intent (new_intent w user req) db)) [
          | inl clash ↦ same (ground arith)
          | inr (db', done) ↦
              let (ids, keys, mode, grown) =
                add_intent-eq-some (new_intent w user req) db db' done in
              added (new_intent w user req) (passed-IsSound w user req passed mode) ids keys
                (ground arith)
        ]
      ]
    ]
  ]
]

-- A call on an intent that is not the caller's, or is not pending, or that the database or the
-- clock refuses, does nothing.
submit-Change :
    (w : World) (id user : Text) (req : SubmitIntentRequest) (db : Db)
    → Change user db.intents (submit_intent w id user req db).1.intents
unfolding submit_intent get_intent_by_id update_intent_status create_payment
submit-Change w id user req db = elim (Bool-cases (w.up select_intent)) [
  | inr down ↦ same (ground arith)
  | inl up ↦ elim (Option-cases (find (has_id id) db.intents)) [
    | inl missing ↦ same (ground arith)
    | inr (pi, found) ↦ elim (Bool-cases (text_eq pi.user_id user)) [
      | inr other ↦ same (ground arith)
      | inl mine ↦ elim (Bool-cases (text_eq pi.status (codes "pending"))) [
        | inr settled_before ↦ same (ground arith)
        | inl pending ↦ elim (Bool-cases (ltb pi.expires_at w.now)) [
          | inl expired ↦ same (ground arith)
          | inr fresh ↦ elim (Option-cases (w.decode req.tx_bytes)) [
            | inl garbled ↦ same (ground arith)
            | inr (tx, decoded) ↦ elim (Bool-cases (w.up update_intent)) [
              | inr lost ↦ same (ground arith)
              | inl kept ↦ elim (Outcome-cases (execute w pi tx req.user_signature)) [
                | inl broken ↦ same (ground arith)
                | inr (inl (e, failed)) ↦
                    settled pi (codes "failed") [] w.later (own found) (is_pending pending)
                      ((text_eq_iff pi.user_id user).0 mine) (inr (inl refl)) (ground arith)
                | inr (inr (digest, executed)) ↦
                    settled pi (codes "submitted") digest w.later (own found) (is_pending pending)
                      ((text_eq_iff pi.user_id user).0 mine) (inl refl) (ground arith)
              ]
            ]
          ]
        ]
      ]
    ]
  ]
]
  where
    own :
        {pi : PaymentIntent}
        → find (has_id id) db.intents ≡ some pi
        → find (has_id pi.id) db.intents ≡ some pi
    own {pi} found =
        ap (λ t. find (has_id t) db.intents) (find_id_sound id db.intents pi found) ∙ found

    is_pending : {t : Text} → text_eq t (codes "pending") ≡ true → t ≡ codes "pending"
    is_pending {t} h = (text_eq_iff t (codes "pending")).0 h

cancel-Change :
    (w : World) (id user : Text) (db : Db)
    → Change user db.intents (cancel_intent w id user db).1.intents
unfolding cancel_intent get_intent_by_id update_intent_status
cancel-Change w id user db = elim (Bool-cases (w.up select_intent)) [
  | inr down ↦ same (ground arith)
  | inl up ↦ elim (Option-cases (find (has_id id) db.intents)) [
    | inl missing ↦ same (ground arith)
    | inr (pi, found) ↦ elim (Bool-cases (text_eq pi.user_id user)) [
      | inr other ↦ same (ground arith)
      | inl mine ↦ elim (Bool-cases (text_eq pi.status (codes "pending"))) [
        | inr settled_before ↦ same (ground arith)
        | inl pending ↦ elim (Bool-cases (w.up update_intent)) [
          | inr lost ↦ same (ground arith)
          | inl kept ↦
              settled pi (codes "cancelled") [] w.now
                (ap (λ t. find (has_id t) db.intents) (find_id_sound id db.intents pi found)
                  ∙ found)
                ((text_eq_iff pi.status (codes "pending")).0 pending)
                ((text_eq_iff pi.user_id user).0 mine) (inr (inr refl)) (ground arith)
        ]
      ]
    ]
  ]
]

-- Who makes a call.
abbrev pub caller : Call → Text
caller (create w user req) = user
caller (submit w id user req) = user
caller (cancel w id user) = user

pub perform-Change : (c : Call) (db : Db) → Change (caller c) db.intents (perform c db).intents
unfolding perform
perform-Change (create w user req) db = create-Change w user req db
perform-Change (submit w id user req) db = submit-Change w id user req db
perform-Change (cancel w id user) db = cancel-Change w id user db

Change-AreValid :
    {user : Text} {l l' : List PaymentIntent} → Change user l l' → AreValid l → AreValid l'
Change-AreValid (same e) h = rw e h
Change-AreValid (added pi sound ids keys e) h = rw e (sound, ids, keys, h)
Change-AreValid {user} {l} (settled pi status digest at found pending mine kind e) h =
    rw e (set_status-AreValid pi.id status digest at l (settled-IsStatus status kind) h)
  where
    settled-IsStatus :
        (s : Text)
        → (s ≡ codes "submitted") ⊎ ((s ≡ codes "failed") ⊎ (s ≡ codes "cancelled"))
        → IsStatus s
    settled-IsStatus s (inl a) = inr (inl a)
    settled-IsStatus s (inr (inl b)) = inr (inr (inr (inl b)))
    settled-IsStatus s (inr (inr c)) = inr (inr (inr (inr c)))

-- Whatever calls are made, with whatever failures, the table stays valid: every intent is in
-- USDsui, with an amount, a recipient of 66 characters from "0x" on, a status and a funding mode
-- that the table admits and 120 seconds to live, and no id and no idempotency key stands twice.
pub perform_all-AreValid :
    (cs : List Call) (db : Db) → AreValid db.intents → AreValid (perform_all cs db).intents
unfolding perform_all
perform_all-AreValid [] db h = h
perform_all-AreValid (c ∷ cs) db h =
    perform_all-AreValid cs (perform c db) (Change-AreValid (perform-Change c db) h)
