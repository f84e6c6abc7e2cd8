-- ===== src/Api/Avs/Aggregator.antt =====
-- apps/api/internal/avs/aggregator.go, with what it uses of types.go, errors.go and operator.go.
-- Times are milliseconds since 1970; Ed25519 and JSON are parameters.
use nearby_payments_api.Base.{
  ℕ, Bool, true, false, not, ◌||◌, Option, none, some, List, [], ◌∷◌, ◌++◌, Text, codes, text_eq,
  length, ltb, if◌then◌else◌, take,
}
use nearby_payments_api.Api.Errors.{Error, new_error, wrapped, Result, ok, err}

abbrev pub err_action_forbidden : Error
err_action_forbidden =
    new_error (codes "avs_action_forbidden") (codes "AVS action is not allowed") 403

abbrev pub err_quorum_not_met : Error
err_quorum_not_met =
    new_error (codes "avs_quorum_not_met") (codes "AVS signature quorum could not be reached") 503

-- `AllowedActions[action]`
unfoldable pub is_allowed_action : Text → Bool
is_allowed_action action =
    text_eq action (codes "leaf_name.register_initial")
    || (text_eq action (codes "parent_name.renew")
        || (text_eq action (codes "parent_name.admin_recover")
            || text_eq action (codes "sponsor_tx.approve")))

pub record AuthorizationPayload : Type 0 where
  pub version : ℕ
  pub domain : Text
  pub chain : Text
  pub action : Text
  pub target_package : Text
  pub target_object : Text
  pub payload_hash : Text
  pub nonce : Text
  pub issued_at_ms : ℕ
  pub expires_at_ms : ℕ

pub record Operator : Type 0 where
  pub id : Text
  pub private_key : Text
  pub public_key : Text

pub record OperatorSignature : Type 0 where
  pub operator_id : Text
  pub public_key : Text
  pub signature : Text

-- `ed25519.Sign`, `ed25519.Verify` and `json.Marshal`.
pub record Libraries : Type 0 where
  pub sign : (private_key message : Text) → Text
  pub verify : (public_key message signature : Text) → Bool
  pub marshal : AuthorizationPayload → Option Text

module _ (lib : Libraries) where
  open lib use {sign, verify, marshal}

  -- `Operator.Sign`
  abbrev pub sign_payload : Operator → Text → Result OperatorSignature
  sign_payload o payload = ok (record {
    operator_id = o.id;
    public_key = o.public_key;
    signature = sign o.private_key payload;
  })

  -- The loop over the operators, which stops where enough signatures are collected.
  unfoldable pub collect :
      (threshold : ℕ) (message : Text)
      → List Operator
      → List OperatorSignature
      → List OperatorSignature
  collect threshold message [] collected = collected
  collect threshold message (op ∷ ops) collected = elim (ltb (length collected) threshold) [
    | false ↦ collected
    | true ↦ elim (sign_payload op message) [
      | err e ↦ collect threshold message ops collected
      | ok sig ↦ elim (verify op.public_key message sig.signature) [
        | false ↦ collect threshold message ops collected
        | true ↦ collect threshold message ops (collected ++ (sig ∷ []))
      ]
    ]
  ]

  abbrev pub new_payload :
      (action payload_hash nonce : Text) → (now expires : ℕ) → AuthorizationPayload
  new_payload action payload_hash nonce now expires = record {
    version = 1;
    domain = codes "nearby-payments.avs.authorization";
    chain = codes "sui:testnet";
    action = action;
    target_package = [];
    target_object = [];
    payload_hash = payload_hash;
    nonce = nonce;
    issued_at_ms = now;
    expires_at_ms = expires;
  }

  -- The end of the method.
  abbrev pub quorum_of : ℕ → List OperatorSignature → Result (List OperatorSignature)
  quorum_of threshold collected =
      if ltb (length collected) threshold
      then err err_quorum_not_met
      else ok (take threshold collected)

  unfoldable pub authorize :
      List Operator
      → (threshold : ℕ) → (action payload_hash nonce : Text) → (now expires : ℕ)
      → Result (List OperatorSignature)
  authorize operators threshold action payload_hash nonce now expires =
      if not (is_allowed_action action)
      then err err_action_forbidden
      else elim (marshal (new_payload action payload_hash nonce now expires)) [
        | none ↦ err wrapped
        | some bytes ↦
            quorum_of threshold
              (collect threshold (codes "nearby-payments.avs.authorization" ++ bytes) operators [])
      ]
