-- ===== src/Api/Sui/Sponsor.antt =====
-- apps/api/internal/sui/sponsor.go: the operators' multisig pays for a user's transaction. The digest
-- of its address, base64 and the call of the node are parameters.
use nearby_payments_api.Base.{
  ℕ, suc, ◌+◌, ◌/◌, ◌%◌, ◌^◌, not, List, [], ◌∷◌, ◌++◌, Text, codes, text_eq, length, ltb, ◌==◌,
  if◌then◌else◌, take,
}
use nearby_payments_api.Api.Errors.{Outcome, panicked, returned, wrapped, Result, ok, err}
use nearby_payments_api.Api.Avs.Aggregator.{OperatorSignature, Libraries}
use nearby_payments_api.Api.Avs.Client.{
  AuthorizeResult, Client, Moment, Encoders, public_keys, signer_threshold, approve_sponsor_tx,
}
use nearby_payments_api.Api.Sui.Multisig.{
  hex_encode, build_multisig_address, combine_multisig_signature,
}

pub record Sponsor : Type 0 where
  pub avs_client : Client
  pub sponsor_address : Text
  pub operator_pub_keys : List (List ℕ)
  pub threshold : ℕ

-- `bitmap |= 1 << i` of a uint16
abbrev pub with_bit : (bitmap i : ℕ) → ℕ
with_bit bitmap i = if bitmap / 2 ^ i % 2 == 1 then bitmap else bitmap + 2 ^ i % 2 ^ 16

-- The bits of the loop over the signatures, from an index and a bitmap.
abbrev pub set_bits : (i bitmap : ℕ) → List OperatorSignature → ℕ
set_bits i bitmap [] = bitmap
set_bits i bitmap (s ∷ sigs) = set_bits (suc i) (with_bit bitmap i) sigs

-- The signatures that the loop collects.
abbrev pub collected_signatures : List OperatorSignature → List Text
collected_signatures [] = []
collected_signatures (s ∷ sigs) = s.signature ∷ collected_signatures sigs

-- What the sponsor uses of packages: a digest, base64, and `ExecuteTransactionBlock`.
pub record Node (Response : Type 0) : Type 0 where
  pub digest : List ℕ → List ℕ
  pub encode_base64 : List ℕ → Text
  pub execute : Text → List Text → Result Response

module _ {Response : Type 0} (node : Node Response) where
  open node use {digest, encode_base64, execute}

  unfoldable pub new_sponsor : Client → Sponsor
  new_sponsor c = record {
    avs_client = c;
    sponsor_address =
        build_multisig_address digest encode_base64 (public_keys c.operators) signer_threshold;
    operator_pub_keys = public_keys c.operators;
    threshold = signer_threshold;
  }

  -- `fmt.Errorf` wraps the error of the call.
  abbrev pub wrapping : Result Response → Result Response
  wrapping (ok r) = ok r
  wrapping (err e) = err wrapped

  -- What the node is asked to run, from the approval on.
  abbrev pub execute_sponsored : Sponsor → List ℕ → Text → AuthorizeResult → Result Response
  execute_sponsored s tx_bytes user_signature r =
      let sigs = r.authorization.signatures in
      let sponsor_multisig =
        combine_multisig_signature digest encode_base64 s.operator_pub_keys
          (collected_signatures sigs) s.threshold (set_bits 0 0 sigs) in
      wrapping (execute (encode_base64 tx_bytes) (user_signature ∷ sponsor_multisig ∷ []))

  -- `txBytes[:32]` reads into the capacity of the slice, here the bytes behind it, and panics beyond.
  unfoldable pub submit_sponsored_transaction :
      Libraries
      → Encoders
      → Moment
      → Sponsor
      → (tx_bytes capacity : List ℕ) (user_signature : Text) → Outcome Response
  submit_sponsored_transaction lib enc at s tx_bytes capacity user_signature =
      if ltb (length (tx_bytes ++ capacity)) 32
      then panicked
      else elim (approve_sponsor_tx lib enc s.avs_client at
          (codes "0x" ++ hex_encode (take 32 (tx_bytes ++ capacity)))) [
            | err e ↦ returned (err wrapped)
            | ok r ↦
                if not (text_eq r.status (codes "authorized"))
                then returned (err wrapped)
                else returned (execute_sponsored s tx_bytes user_signature r)
          ]

  unfoldable pub relay_user_transaction :
      (tx_bytes : List ℕ) (user_signature : Text) → Result Response
  relay_user_transaction tx_bytes user_signature =
      wrapping (execute (encode_base64 tx_bytes) (user_signature ∷ []))
