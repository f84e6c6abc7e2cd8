-- ===== src/Api/Avs/Client.antt =====
-- apps/api/internal/avs/client.go, with what it uses of types.go: the three actions that are
-- authorised. Ed25519, JSON and SHA-256 are parameters; times are milliseconds since 1970.
use nearby_payments_api.Base.{
  ℕ, ◌+◌, ◌*◌, ◌||◌, Option, none, some, List, [], ◌∷◌, ◌++◌, Text, codes, text_eq, if◌then◌else◌,
}
use nearby_payments_api.Api.Errors.{Error, new_error, wrapped, Result, ok, err}
use nearby_payments_api.Api.Avs.Aggregator.{Operator, OperatorSignature, Libraries, authorize}

abbrev pub err_invalid_payload : Error
err_invalid_payload = new_error (codes "avs_invalid_payload") (codes "AVS payload is invalid") 400

pub record LeafRegistrationInput : Type 0 where
  pub label : Text
  pub parent_name : Text
  pub leaf_name : Text
  pub user_address : Text
  pub wallet_binding_hash : Text
  pub target_package : Text
  pub target_object : Text

pub record Authorization : Type 0 where
  pub version : ℕ
  pub action : Text
  pub payload_hash : Text
  pub nonce : Text
  pub expires_at_ms : ℕ
  pub signer_set_id : Text
  pub signers : List Text
  pub signatures : List OperatorSignature
  pub multisig_address : Text

pub record AuthorizeResult : Type 0 where
  pub status : Text
  pub authorization : Authorization
  pub task_id : Text
  pub retry_after_ms : ℕ
  pub reason : Text

-- `Client` with its aggregator.
pub record Client : Type 0 where
  pub operators : List Operator
  pub signer_set_id : Text

-- What the rest of the world answers during one call.
pub record Moment : Type 0 where
  -- `utils.RandomHex`, which may fail
  pub random_hex : Option Text
  -- `utils.NowUnixMs` in the client, and then in the aggregator
  pub now_ms : ℕ
  pub issued_ms : ℕ

-- `json.Marshal` of a map of texts, which may fail, and `utils.SHA256Hex`.
pub record Encoders : Type 0 where
  pub marshal_map : List (Text × Text) → Option Text
  pub sha256_hex : Text → Text

abbrev pub signer_threshold : ℕ
signer_threshold = 3

-- The loop over the signatures.
abbrev pub signer_ids : List OperatorSignature → List Text
signer_ids [] = []
signer_ids (s ∷ l) = s.operator_id ∷ signer_ids l

-- The bytes of an encoding whose error is dropped.
abbrev pub or_nil : Option Text → Text
or_nil none = []
or_nil (some t) = t

module _ (lib : Libraries) (enc : Encoders) (c : Client) (at : Moment) where
  open enc use {marshal_map, sha256_hex}
  open at use {random_hex, now_ms, issued_ms}

  abbrev pub new_result :
      (action payload_hash nonce : Text) → ℕ → List OperatorSignature → AuthorizeResult
  new_result action payload_hash nonce expires sigs = record {
    status = codes "authorized";
    authorization = record {
      version = 1;
      action = action;
      payload_hash = payload_hash;
      nonce = nonce;
      expires_at_ms = expires;
      signer_set_id = c.signer_set_id;
      signers = signer_ids sigs;
      signatures = sigs;
      multisig_address = [];
    };
    task_id = [];
    retry_after_ms = 0;
    reason = [];
  }

  -- What the three methods do with the bytes of their payload.
  unfoldable pub approve : (action payload_json : Text) → (ttl_ms : ℕ) → Result AuthorizeResult
  approve action payload_json ttl_ms =
      let payload_hash = codes "0x" ++ sha256_hex payload_json in
      let expires = now_ms + ttl_ms in
      elim random_hex [
        | none ↦ err wrapped
        | some nonce ↦
            elim (authorize lib c.operators signer_threshold action payload_hash nonce issued_ms
              expires) [
                | err e ↦ err e
                | ok sigs ↦ ok (new_result action payload_hash nonce expires sigs)
              ]
      ]

  abbrev pub leaf_payload : LeafRegistrationInput → List (Text × Text)
  leaf_payload input =
      (codes "label", input.label)
      ∷ (codes "parentName", input.parent_name)
      ∷ (codes "leafName", input.leaf_name)
      ∷ (codes "userAddress", input.user_address)
      ∷ (codes "walletBindingHash", input.wallet_binding_hash)
      ∷ []

  unfoldable pub authorize_leaf_registration : LeafRegistrationInput → Result AuthorizeResult
  authorize_leaf_registration input =
      if text_eq input.label [] || (text_eq input.user_address [] || text_eq input.parent_name [])
      then err err_invalid_payload
      else elim (marshal_map (leaf_payload input)) [
        | none ↦ err wrapped
        | some json ↦ approve (codes "leaf_name.register_initial") json (5 * 60 * 1000)
      ]

  unfoldable pub authorize_parent_renewal :
      (target_package target_object : Text) → Result AuthorizeResult
  authorize_parent_renewal target_package target_object =
      approve (codes "parent_name.renew")
        (or_nil (
          marshal_map
            ((codes "targetPackage", target_package) ∷ (codes "targetObject", target_object) ∷ [])))
        (5 * 60 * 1000)

  unfoldable pub approve_sponsor_tx : Text → Result AuthorizeResult
  approve_sponsor_tx tx_bytes_hash =
      approve (codes "sponsor_tx.approve")
        (or_nil (marshal_map ((codes "transactionBytesHash", tx_bytes_hash) ∷ []))) (2 * 60 * 1000)

-- The keys of the operators, as SignerSetInfo has them.
abbrev pub public_keys : List Operator → List Text
public_keys [] = []
public_keys (op ∷ ops) = op.public_key ∷ public_keys ops
