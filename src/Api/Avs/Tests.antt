-- ===== src/Api/Avs/Tests.antt =====
-- A committee of three, one of whom signs badly, and an instance of the theorem.
use nearby_payments_api.Base.{
  ◌≡◌, refl, not, some, List, [], ◌∷◌, ◌++◌, Text, codes, text_eq, length, ltb, take, if◌then◌else◌,
}
use nearby_payments_api.Api.Errors.{ok, err}
use nearby_payments_api.Api.Avs.Aggregator.{
  Operator, OperatorSignature, Libraries, err_quorum_not_met, is_allowed_action, collect, authorize,
}
use nearby_payments_api.Api.Avs.Client.{
  AuthorizeResult, Client, Moment, Encoders, or_nil, new_result, approve,
  authorize_leaf_registration,
}
use nearby_payments_api.Api.Avs.Approvals.{call-IsApproval}
use nearby_payments_api.Api.Avs.Requests.{
  Request, leaf_registration, action_of, fields_of, ttl_of, IsApproval,
}
use nearby_payments_api.Api.Avs.Quorum.{verified, authorize_lem}

-- A signature is the key itself, and verifies unless the key is "bad".
abbrev libraries : Libraries
libraries = record {
  sign = λ key message. key;
  verify = λ key message signature. not (text_eq key (codes "bad"));
  marshal = λ p. some p.nonce;
}

abbrev operator : Text → Operator
operator key = record { id = key; private_key = key; public_key = key }

abbrev committee : List Operator
committee = operator (codes "a") ∷ operator (codes "bad") ∷ operator (codes "c") ∷ []

abbrev signed : Text → OperatorSignature
signed key = record { operator_id = key; public_key = key; signature = key }

quorum-run :
    authorize libraries committee 2 (codes "sponsor_tx.approve") (codes "h") (codes "n") 1 2
    ≡ ok (signed (codes "a") ∷ signed (codes "c") ∷ [])
unfolding authorize collect is_allowed_action text_eq
quorum-run = refl

no_quorum-run :
    authorize libraries committee 3 (codes "sponsor_tx.approve") (codes "h") (codes "n") 1 2
    ≡ err err_quorum_not_met
unfolding authorize collect is_allowed_action text_eq
no_quorum-run = refl

authorize_lem_example :
    let good =
      verified libraries (codes "nearby-payments.avs.authorization" ++ codes "n") committee in
    authorize libraries committee 2 (codes "sponsor_tx.approve") (codes "h") (codes "n") 1 2
    ≡ (if ltb (length good) 2 then err err_quorum_not_met else ok (take 2 good))
unfolding is_allowed_action text_eq
authorize_lem_example =
    authorize_lem libraries committee 2 (codes "sponsor_tx.approve") (codes "h") (codes "n") 1 2
      (codes "n") refl refl

-- A client of a committee of four, one of whom signs badly.
abbrev client : Client
client = record {
  operators =
      operator (codes "a")
      ∷ operator (codes "bad")
      ∷ operator (codes "c")
      ∷ operator (codes "d")
      ∷ [];
  signer_set_id = codes "set";
}

abbrev encoders : Encoders
encoders = record { marshal_map = λ m. some (codes "{}"); sha256_hex = λ t. t }

abbrev moment : Moment
moment = record { random_hex = some (codes "n"); now_ms = 10; issued_ms = 10 }

abbrev registration : Request
registration = leaf_registration (record {
  label = codes "ann";
  parent_name = codes "nearby.sui";
  leaf_name = codes "ann.nearby.sui";
  user_address = codes "0x1";
  wallet_binding_hash = codes "0x1";
  target_package = [];
  target_object = [];
})

abbrev approval : AuthorizeResult
approval =
    new_result libraries encoders client moment (codes "leaf_name.register_initial") (codes "0x{}")
      (codes "n") 300010 (signed (codes "a") ∷ signed (codes "c") ∷ signed (codes "d") ∷ [])

call-IsApproval_example :
    IsApproval libraries encoders moment
      (action_of registration)
      (or_nil (encoders.marshal_map (fields_of registration)))
      (ttl_of registration)
      client
      approval.authorization
unfolding authorize_leaf_registration approve authorize collect is_allowed_action text_eq
call-IsApproval_example =
    call-IsApproval libraries encoders client moment registration approval refl
