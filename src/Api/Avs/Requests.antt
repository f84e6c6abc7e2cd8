-- ===== src/Api/Avs/Requests.antt =====
-- The calls of the AVS client of apps/api/internal/avs/client.go, and what an approval holds.
use nearby_payments_api.Base.{
  ℕ, ◌+◌, ◌*◌, ◌≡◌, true, some, List, [], ◌∷◌, ◌++◌, Text, codes, length, take, All,
}
use nearby_payments_api.Api.Errors.{Result}
use nearby_payments_api.Api.Avs.Aggregator.{OperatorSignature, Libraries, new_payload}
use nearby_payments_api.Api.Avs.Client.{
  LeafRegistrationInput, Authorization, AuthorizeResult, Client, Moment, Encoders, signer_ids,
  authorize_leaf_registration, authorize_parent_renewal, approve_sponsor_tx,
}
use nearby_payments_api.Api.Avs.Quorum.{verified}

-- The calls of the client.
pub data Request : Type 0 where
  leaf_registration : LeafRegistrationInput → Request
  parent_renewal : (target_package target_object : Text) → Request
  sponsor_tx : (tx_bytes_hash : Text) → Request

abbrev pub call : Libraries → Encoders → Client → Moment → Request → Result AuthorizeResult
call lib enc c at (leaf_registration input) = authorize_leaf_registration lib enc c at input
call lib enc c at (parent_renewal p o) = authorize_parent_renewal lib enc c at p o
call lib enc c at (sponsor_tx h) = approve_sponsor_tx lib enc c at h

-- What is asked for: the action and the fields that are hashed.
abbrev pub action_of : Request → Text
action_of (leaf_registration input) = codes "leaf_name.register_initial"
action_of (parent_renewal p o) = codes "parent_name.renew"
action_of (sponsor_tx h) = codes "sponsor_tx.approve"

abbrev pub fields_of : Request → List (Text × Text)
fields_of (leaf_registration i) =
    (codes "label", i.label)
    ∷ (codes "parentName", i.parent_name)
    ∷ (codes "leafName", i.leaf_name)
    ∷ (codes "userAddress", i.user_address)
    ∷ (codes "walletBindingHash", i.wallet_binding_hash)
    ∷ []
fields_of (parent_renewal p o) = (codes "targetPackage", p) ∷ (codes "targetObject", o) ∷ []
fields_of (sponsor_tx h) = (codes "transactionBytesHash", h) ∷ []

abbrev pub ttl_of : Request → ℕ
ttl_of (leaf_registration i) = 5 * 60 * 1000
ttl_of (parent_renewal p o) = 5 * 60 * 1000
ttl_of (sponsor_tx h) = 2 * 60 * 1000

-- What a signature covers, and who made it.
abbrev pub Covers : Libraries → Text → OperatorSignature → Type 0
Covers lib message s = lib.verify s.public_key message s.signature ≡ true

-- The message of an authorisation that was issued at a time.
abbrev pub IsMessage : Libraries → ℕ → Authorization → Text → Type 0
IsMessage lib issued a message =
    (bytes : Text) × (lib.marshal
        (new_payload lib a.action a.payload_hash a.nonce issued a.expires_at_ms)
      ≡ some bytes)
    × (message ≡ codes "nearby-payments.avs.authorization" ++ bytes)

abbrev pub IsApproval :
    Libraries
    → Encoders
    → Moment
    → (action json : Text) → (ttl_ms : ℕ) → Client
    → Authorization
    → Type 0
IsApproval lib enc at action json ttl_ms c a =
    (message : Text) × IsMessage lib at.issued_ms a message
    × (a.action ≡ action)
    × (a.payload_hash ≡ codes "0x" ++ enc.sha256_hex json)
    × (at.random_hex ≡ some a.nonce)
    × (a.expires_at_ms ≡ at.now_ms + ttl_ms)
    × (a.signatures ≡ take 3 (verified lib message c.operators))
    × (length a.signatures ≡ 3)
    × All (Covers lib message) a.signatures
    × (a.signers ≡ signer_ids a.signatures)
