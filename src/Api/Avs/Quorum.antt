-- ===== src/Api/Avs/Quorum.antt =====
-- An authorisation is the signatures of the first operators whose signatures verify, as many as the
-- threshold says, and there is one exactly if there are so many.
use nearby_payments_api.Base.{
  ℕ, zero, suc, ◌+◌, ◌≡◌, refl, sym, ap, ◌∙◌, inl, inr, Bool, true, false, some, List, [], ◌∷◌,
  ◌++◌, append_assoc, append-nil, Text, codes, arith, length, length-append, ltb, if◌then◌else◌,
  take, Bool-cases,
}
use nearby_payments_api.Api.Errors.{ok, err}
use nearby_payments_api.Api.Avs.Aggregator.{
  Operator, OperatorSignature, Libraries, err_quorum_not_met, is_allowed_action, collect,
  new_payload, quorum_of, authorize,
}

module _ (lib : Libraries) (message : Text) where
  open lib use {sign, verify}

  abbrev pub signature_of : Operator → OperatorSignature
  signature_of op = record {
    operator_id = op.id;
    public_key = op.public_key;
    signature = sign op.private_key message;
  }

  abbrev pub is_verified : Operator → Bool
  is_verified op = verify op.public_key message (sign op.private_key message)

  -- The signatures, over the message, that verify, in the order of the operators.
  abbrev pub verified : List Operator → List OperatorSignature
  verified [] = []
  verified (op ∷ ops) =
      let rest = verified ops in if is_verified op then signature_of op ∷ rest else rest

  -- With room for so many more, the loop adds the next signatures that verify.
  collect_lem :
      (room threshold : ℕ) (ops : List Operator) (collected : List OperatorSignature)
      → length collected + room ≡ threshold
      → collect lib threshold message ops collected ≡ collected ++ take room (verified ops)
  unfolding collect
  collect_lem zero threshold [] collected e = sym (append-nil collected)
  collect_lem (suc room) threshold [] collected e = sym (append-nil collected)
  collect_lem zero threshold (op ∷ ops) collected e =
      let full : ltb (length collected) threshold ≡ false = ground (arith, e) in
      rw (full, collect) (sym (append-nil collected))
  collect_lem (suc room) threshold (op ∷ ops) collected e =
      let open_yet : ltb (length collected) threshold ≡ true = ground (arith, e) in
      elim (Bool-cases (is_verified op)) [
        | inr bad ↦ rw (open_yet, bad, collect) (collect_lem (suc room) threshold ops collected e)
        | inl good ↦
            let grown : length (collected ++ (signature_of op ∷ [])) + room ≡ threshold =
              omega (arith, e, length-append collected (signature_of op ∷ [])) in
            rw (open_yet, good, collect)
              (collect_lem room threshold ops (collected ++ (signature_of op ∷ [])) grown
                ∙ append_assoc collected (signature_of op ∷ []) (take room (verified ops)))
      ]

pub length-take : {A : Type 0} (n : ℕ) (l : List A) → ltb (length (take n l)) n ≡ ltb (length l) n
length-take zero l = ground arith
length-take (suc n) [] = refl
length-take (suc n) (a ∷ l) = ground (arith, length-take n l)

take-take : {A : Type 0} (n : ℕ) (l : List A) → take n (take n l) ≡ take n l
take-take zero l = refl
take-take (suc n) [] = refl
take-take (suc n) (a ∷ l) = ap (λ t. a ∷ t) (take-take n l)

-- For an allowed action whose payload can be encoded, the signatures of the authorisation are those
-- of the first operators, in their order, whose signatures verify, exactly as many as the threshold
-- says; and the quorum is not met exactly if fewer verify.
pub authorize_lem :
    (lib : Libraries) (operators : List Operator) (threshold : ℕ) (action payload_hash nonce : Text)
    (now expires : ℕ) (bytes : Text)
    → is_allowed_action action ≡ true
    → lib.marshal (new_payload lib action payload_hash nonce now expires) ≡ some bytes
    → let good = verified lib (codes "nearby-payments.avs.authorization" ++ bytes) operators in
      authorize lib operators threshold action payload_hash nonce now expires
      ≡ (if ltb (length good) threshold then err err_quorum_not_met else ok (take threshold good))
unfolding authorize
authorize_lem lib operators threshold action payload_hash nonce now expires bytes allowed encoded =
    let message = codes "nearby-payments.avs.authorization" ++ bytes in
    let good = verified lib message operators in
    let all_collected = collect_lem lib message threshold threshold operators [] (omega arith) in
    rw (allowed, encoded, authorize)
      (ap (quorum_of lib threshold) all_collected
        ∙ rw (length-take threshold good, take-take threshold good) refl)
