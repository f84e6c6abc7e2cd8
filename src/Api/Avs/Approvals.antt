-- ===== src/Api/Avs/Approvals.antt =====
-- What an approval of the client holds: enough signatures that verify, over its own fields.
use nearby_payments_api.Base.{
  ℕ, zero, suc, ◌+◌, ◌*◌, ◌≡◌, refl, sym, ap, ◌∙◌, subst, inl, inr, false, some, List, [], ◌∷◌,
  ◌++◌, ◌||◌, Text, text_eq, codes, arith, length, ltb, if◌then◌else◌, take, Bool-cases, All,
  Option-cases,
}
use nearby_payments_api.Api.Errors.{ok, err, Result-cases}
use nearby_payments_api.Api.Avs.Aggregator.{
  Operator, OperatorSignature, Libraries, err_quorum_not_met, is_allowed_action, new_payload,
  authorize,
}
use nearby_payments_api.Api.Avs.Client.{
  LeafRegistrationInput, AuthorizeResult, Client, Moment, Encoders, or_nil, new_result, approve,
  leaf_payload, authorize_leaf_registration, authorize_parent_renewal, approve_sponsor_tx,
}
use nearby_payments_api.Api.Avs.Quorum.{verified, is_verified, authorize_lem}
use nearby_payments_api.Api.Avs.Requests.{
  Request, call, action_of, fields_of, ttl_of, Covers, IsApproval, leaf_registration,
  parent_renewal, sponsor_tx,
}

verified-Covers :
    (lib : Libraries) (message : Text) (n : ℕ) (ops : List Operator)
    → All (Covers lib message) (take n (verified lib message ops))
verified-Covers lib message zero ops = tt
verified-Covers lib message (suc n) [] = tt
verified-Covers lib message (suc n) (op ∷ ops) = elim (Bool-cases (is_verified lib message op)) [
  | inl good ↦ rw (good) (good, verified-Covers lib message n ops)
  | inr bad ↦ rw (bad) (verified-Covers lib message (suc n) ops)
]

length-take_full :
    {A : Type 0} (n : ℕ) (l : List A) → ltb (length l) n ≡ false → length (take n l) ≡ n
length-take_full zero l e = refl
length-take_full (suc n) [] e = ground (arith, e)
length-take_full (suc n) (a ∷ l) e = ground (arith, e, length-take_full n l)

IsQuorum :
    Libraries → List Operator → (threshold : ℕ) → (bytes : Text) → List OperatorSignature → Type 0
IsQuorum lib ops threshold bytes sigs =
    let good = verified lib (codes "nearby-payments.avs.authorization" ++ bytes) ops in
    (ltb (length good) threshold ≡ false) × (sigs ≡ take threshold good)

IsQuorum-ok :
    (lib : Libraries) (ops : List Operator) (threshold : ℕ) (bytes : Text)
    (sigs : List OperatorSignature)
    → (let good = verified lib (codes "nearby-payments.avs.authorization" ++ bytes) ops in
        if ltb (length good) threshold then err err_quorum_not_met else ok (take threshold good))
      ≡ ok sigs
    → IsQuorum lib ops threshold bytes sigs
unfolding IsQuorum
IsQuorum-ok lib ops threshold bytes sigs e =
    let good = verified lib (codes "nearby-payments.avs.authorization" ++ bytes) ops in
    elim (Bool-cases (ltb (length good) threshold)) [
      | inl few ↦ let never : ⊥ = ground (arith, e, few) in absurd never
      | inr met ↦ (met, ground (arith, e, met))
    ]

authorize-ok :
    (lib : Libraries) (ops : List Operator) (threshold : ℕ) (action payload_hash nonce : Text)
    (now expires : ℕ) (sigs : List OperatorSignature)
    → authorize lib ops threshold action payload_hash nonce now expires ≡ ok sigs
    → (bytes : Text) × (lib.marshal (new_payload lib action payload_hash nonce now expires)
        ≡ some bytes)
      × IsQuorum lib ops threshold bytes sigs
unfolding authorize IsQuorum
authorize-ok lib ops threshold action payload_hash nonce now expires sigs e =
    elim (Bool-cases (is_allowed_action action)) [
      | inr bad ↦ let never : ⊥ = ground (arith, e, bad) in absurd never
      | inl allowed ↦
          elim (Option-cases
            (lib.marshal (new_payload lib action payload_hash nonce now expires))) [
              | inl bad ↦ let never : ⊥ = ground (arith, e, bad, allowed) in absurd never
              | inr (bytes, encoded) ↦
                  let good =
                    verified lib (codes "nearby-payments.avs.authorization" ++ bytes) ops in
                  let whole : (if ltb (length good) threshold
                        then err err_quorum_not_met
                        else ok (take threshold good))
                      ≡ ok sigs =
                    sym (
                      authorize_lem lib ops threshold action payload_hash nonce now expires bytes
                        allowed encoded)
                    ∙ e in
                  (bytes, encoded, IsQuorum-ok lib ops threshold bytes sigs whole)
            ]
    ]

ok-injective : {A : Type 0} {a b : A} → ok a ≡ ok b → a ≡ b
ok-injective e = ground (arith, e)

new_result-IsApproval :
    (lib : Libraries) (enc : Encoders) (c : Client) (at : Moment) (action json nonce : Text)
    (ttl_ms : ℕ) (sigs : List OperatorSignature)
    → at.random_hex ≡ some nonce
    → authorize lib c.operators 3 action
        (codes "0x" ++ enc.sha256_hex json)
        nonce
        at.issued_ms
        (at.now_ms + ttl_ms)
      ≡ ok sigs
    → IsApproval lib enc at action json ttl_ms c
        (new_result lib enc c at action
          (codes "0x" ++ enc.sha256_hex json)
          nonce
          (at.now_ms + ttl_ms)
          sigs).authorization
unfolding IsQuorum
new_result-IsApproval lib enc c at action json nonce ttl_ms sigs drawn e =
    let (bytes, encoded, (met, taken)) =
      authorize-ok lib c.operators 3 action (codes "0x" ++ enc.sha256_hex json) nonce at.issued_ms
        (at.now_ms + ttl_ms) sigs e in
    let message = codes "nearby-payments.avs.authorization" ++ bytes in
    (
      message,
      (bytes, encoded, refl),
      refl,
      refl,
      drawn,
      refl,
      taken,
      ap length taken ∙ length-take_full 3 (verified lib message c.operators) met,
      subst (All (Covers lib message)) (sym taken) (verified-Covers lib message 3 c.operators),
      refl,
    )

approve-ok :
    (lib : Libraries) (enc : Encoders) (c : Client) (at : Moment) (action json : Text) (ttl_ms : ℕ)
    (r : AuthorizeResult)
    → approve lib enc c at action json ttl_ms ≡ ok r
    → IsApproval lib enc at action json ttl_ms c r.authorization
unfolding approve
approve-ok lib enc c at action json ttl_ms r e = elim (Option-cases at.random_hex) [
  | inl bad ↦ let never : ⊥ = ground (arith, e, bad) in absurd never
  | inr (nonce, drawn) ↦
      elim (Result-cases (
        authorize lib c.operators 3 action (codes "0x" ++ enc.sha256_hex json) nonce at.issued_ms
          (at.now_ms + ttl_ms))) [
            | inl (x, bad) ↦ let never : ⊥ = ground (arith, e, drawn, bad) in absurd never
            | inr (sigs, good) ↦
                let made : new_result lib enc c at action (codes "0x" ++ enc.sha256_hex json) nonce
                      (at.now_ms + ttl_ms) sigs
                    ≡ r =
                  ground (arith, e, drawn, good) in
                subst (λ t. IsApproval lib enc at action json ttl_ms c t.authorization) made
                  (new_result-IsApproval lib enc c at action json nonce ttl_ms sigs drawn good)
          ]
]

leaf-approved :
    (lib : Libraries) (enc : Encoders) (c : Client) (at : Moment) (input : LeafRegistrationInput)
    (r : AuthorizeResult)
    → authorize_leaf_registration lib enc c at input ≡ ok r
    → approve lib enc c at
        (codes "leaf_name.register_initial")
        (or_nil (enc.marshal_map (leaf_payload lib enc c at input)))
        (5 * 60 * 1000)
      ≡ ok r
unfolding authorize_leaf_registration
leaf-approved lib enc c at input r e =
    let empty =
      text_eq input.label [] || (text_eq input.user_address [] || text_eq input.parent_name []) in
    elim (Bool-cases empty) [
      | inl bad ↦ let never : ⊥ = ground (arith, e, bad) in absurd never
      | inr full ↦ elim (Option-cases (enc.marshal_map (leaf_payload lib enc c at input))) [
        | inl bad ↦ let never : ⊥ = ground (arith, e, full, bad) in absurd never
        | inr (json, encoded) ↦ rw (encoded) (ground (arith, e, full, encoded))
      ]
    ]

-- Whenever the client approves a registration, a renewal or a transaction, the approval is for the
-- action of the call and the hash of its fields, has the nonce that was drawn and the call's lifetime,
-- and holds exactly three signatures: those of the first operators that verify, each of which verifies,
-- under the key that stands by it, over the payload made of the approval's own fields and the time of
-- issue; its signers are the operators of these signatures.
pub call-IsApproval :
    (lib : Libraries) (enc : Encoders) (c : Client) (at : Moment) (q : Request)
    (r : AuthorizeResult)
    → call lib enc c at q ≡ ok r
    → IsApproval lib enc at
        (action_of q)
        (or_nil (enc.marshal_map (fields_of q)))
        (ttl_of q)
        c
        r.authorization
unfolding authorize_parent_renewal approve_sponsor_tx
call-IsApproval lib enc c at (leaf_registration i) r e =
    approve-ok lib enc c at (codes "leaf_name.register_initial")
      (or_nil (enc.marshal_map (leaf_payload lib enc c at i))) (5 * 60 * 1000) r
      (leaf-approved lib enc c at i r e)
call-IsApproval lib enc c at (parent_renewal p o) r e =
    approve-ok lib enc c at (codes "parent_name.renew")
      (or_nil (enc.marshal_map (fields_of (parent_renewal p o)))) (5 * 60 * 1000) r e
call-IsApproval lib enc c at (sponsor_tx h) r e =
    approve-ok lib enc c at (codes "sponsor_tx.approve")
      (or_nil (enc.marshal_map (fields_of (sponsor_tx h)))) (2 * 60 * 1000) r e
