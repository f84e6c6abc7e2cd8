-- ===== src/Api/Sui/Tests.antt =====
-- Encodings of small numbers and committees, and an instance of each theorem.
use nearby_payments_api.Base.{
  ℕ, ◌*◌, ◌≡◌, refl, ◌↔◌, not, some, List, [], ◌∷◌, ◌++◌, Text, codes, text_eq, arith, length, take,
  All, ◌==◌, if◌then◌else◌,
}
use nearby_payments_api.Api.Errors.{panicked, wrapped, ok, err}
use nearby_payments_api.Api.Avs.Aggregator.{
  Operator, OperatorSignature, Libraries, is_allowed_action, collect, authorize,
}
use nearby_payments_api.Api.Avs.Client.{
  AuthorizeResult, Client, Moment, Encoders, or_nil, new_result, approve, approve_sponsor_tx,
  public_keys,
}
use nearby_payments_api.Api.Avs.Requests.{fields_of, sponsor_tx, IsApproval}
use nearby_payments_api.Api.Sui.Sponsor.{
  Node, new_sponsor, set_bits, collected_signatures, submit_sponsored_transaction,
}
use nearby_payments_api.Api.Sui.Signers.{
  named, signers_keys, Signs, approved_hash, bitmap-names_signers_iff, submit_sponsored-approved,
}
use nearby_payments_api.Api.Sui.Multisig.{
  uleb128, append_uleb128, address_payload, signature_envelope, hex_encode,
  combine_multisig_signature,
}
use nearby_payments_api.Api.Sui.Decoding.{read_uleb128, append_uleb128_ends}
use nearby_payments_api.Api.Sui.Reading.{
  read_address_payload, read_signature_envelope, multisig-read,
}

uleb128-run : append_uleb128 (9 ∷ []) 300 ≡ 9 ∷ 172 ∷ 2 ∷ []
unfolding append_uleb128
uleb128-run = refl

zero-run : append_uleb128 [] 0 ≡ 0 ∷ []
unfolding append_uleb128
zero-run = refl

hex-run : hex_encode (255 ∷ 10 ∷ []) ≡ codes "ff0a"
hex-run = refl

abbrev key : List ℕ
key =
    1 ∷ 2 ∷ 3 ∷ 4 ∷ 5 ∷ 6 ∷ 7 ∷ 8 ∷ 1 ∷ 2 ∷ 3 ∷ 4 ∷ 5 ∷ 6 ∷ 7 ∷ 8 ∷ 1 ∷ 2 ∷ 3 ∷ 4 ∷ 5 ∷ 6 ∷ 7 ∷ 8
    ∷ 1 ∷ 2 ∷ 3 ∷ 4 ∷ 5 ∷ 6 ∷ 7 ∷ 8 ∷ []

abbrev other_key : List ℕ
other_key =
    9 ∷ 2 ∷ 3 ∷ 4 ∷ 5 ∷ 6 ∷ 7 ∷ 8 ∷ 1 ∷ 2 ∷ 3 ∷ 4 ∷ 5 ∷ 6 ∷ 7 ∷ 8 ∷ 1 ∷ 2 ∷ 3 ∷ 4 ∷ 5 ∷ 6 ∷ 7 ∷ 8
    ∷ 1 ∷ 2 ∷ 3 ∷ 4 ∷ 5 ∷ 6 ∷ 7 ∷ 255 ∷ []

multisig-read_example :
    (read_address_payload (address_payload (key ∷ other_key ∷ []) 1)
      ≡ some ((key ∷ other_key ∷ [], 1), []))
    × (read_signature_envelope
          (signature_envelope (key ∷ other_key ∷ []) ((key ++ other_key) ∷ []) 1 2)
        ≡ some (((key ++ other_key) ∷ [], (2, (key ∷ other_key ∷ [], 1))), []))
multisig-read_example =
    multisig-read (key ∷ other_key ∷ []) ((key ++ other_key) ∷ []) 1 2 (refl, (refl, tt)) (refl, tt)
      (omega arith) (omega arith) (omega arith) (omega arith)

-- A signature is the key itself, and verifies unless the key is "bad".
abbrev libraries : Libraries
libraries = record {
  sign = λ key message. key;
  verify = λ key message signature. not (text_eq key (codes "bad"));
  marshal = λ p. some p.nonce;
}

abbrev encoders : Encoders
encoders = record { marshal_map = λ m. some (codes "{}"); sha256_hex = λ t. t }

abbrev moment : Moment
moment = record { random_hex = some (codes "n"); now_ms = 10; issued_ms = 10 }

abbrev operator : Text → Operator
operator key = record { id = key; private_key = key; public_key = key }

abbrev client_of : List Text → Client
client_of (a ∷ b ∷ c ∷ d ∷ rest) = record {
  operators = operator a ∷ operator b ∷ operator c ∷ operator d ∷ [];
  signer_set_id = codes "set";
}
client_of rest = record { operators = []; signer_set_id = [] }

abbrev sound : Client
sound = client_of (codes "a" ∷ codes "b" ∷ codes "c" ∷ codes "d" ∷ [])

abbrev unsound : Client
unsound = client_of (codes "a" ∷ codes "bad" ∷ codes "c" ∷ codes "d" ∷ [])

abbrev signed : Text → OperatorSignature
signed key = record { operator_id = key; public_key = key; signature = key }

abbrev approval : Client → List OperatorSignature → AuthorizeResult
approval c sigs =
    new_result libraries encoders c moment (codes "sponsor_tx.approve") (codes "0x{}") (codes "n")
      120010 sigs

-- The bitmap does not name the keys that signed, since the second operator's signature is missing.
wrong_bitmap-run :
    approve_sponsor_tx libraries encoders unsound moment (codes "h")
    ≡ ok (approval unsound (signed (codes "a") ∷ signed (codes "c") ∷ signed (codes "d") ∷ []))
unfolding approve_sponsor_tx approve authorize collect is_allowed_action text_eq
wrong_bitmap-run = refl

wrong_keys-run :
    named
      (set_bits 0 0 (signed (codes "a") ∷ signed (codes "c") ∷ signed (codes "d") ∷ []))
      (public_keys unsound.operators)
    ≡ codes "a" ∷ codes "bad" ∷ codes "c" ∷ []
wrong_keys-run = refl

bitmap-names_signers_iff_example :
    (named
        (set_bits 0 0 (signed (codes "a") ∷ signed (codes "b") ∷ signed (codes "c") ∷ []))
        (public_keys sound.operators)
      ≡ signers_keys (signed (codes "a") ∷ signed (codes "b") ∷ signed (codes "c") ∷ []))
    ↔ All
        (Signs libraries (codes "nearby-payments.avs.authorization" ++ codes "n"))
        (take 3 sound.operators)
unfolding approve_sponsor_tx approve authorize collect is_allowed_action text_eq
bitmap-names_signers_iff_example =
    bitmap-names_signers_iff libraries encoders sound moment (codes "h")
      (approval sound (signed (codes "a") ∷ signed (codes "b") ∷ signed (codes "c") ∷ []))
      (codes "nearby-payments.avs.authorization" ++ codes "n") (refl, (refl, (refl, (refl, tt))))
      refl (codes "n", refl, refl)

abbrev node : Node Text
node = record {
  digest = λ b. b;
  encode_base64 = λ b. b;
  execute = λ tx sigs. if length sigs == 2 then ok tx else err wrapped;
}

submit_sponsored-approved_example :
    (r : AuthorizeResult) × IsApproval libraries encoders moment
      (codes "sponsor_tx.approve")
      (or_nil (
        encoders.marshal_map
          (fields_of (sponsor_tx (approved_hash node libraries encoders moment sound key)))))
      (2 * 60 * 1000)
      sound
      r.authorization
    × (node.execute key (
          codes "user"
          ∷ combine_multisig_signature node.digest node.encode_base64
              (public_keys sound.operators)
              (collected_signatures r.authorization.signatures)
              3
              7
          ∷ [])
        ≡ ok key)
unfolding submit_sponsored_transaction new_sponsor approve_sponsor_tx approve authorize collect
    is_allowed_action text_eq
submit_sponsored-approved_example =
    submit_sponsored-approved node libraries encoders moment sound key [] (codes "user") key refl

panic-run :
    submit_sponsored_transaction node libraries encoders moment
      (new_sponsor node sound)
      (1 ∷ [])
      []
      (codes "user")
    ≡ panicked
unfolding submit_sponsored_transaction
panic-run = refl

append_uleb128_ends_example :
    ((9 ∷ []) ++ uleb128 12 300 ≡ append_uleb128 (9 ∷ []) 300)
    × (read_uleb128 (uleb128 12 300 ++ (7 ∷ [])) ≡ some (300, 7 ∷ []))
append_uleb128_ends_example =
    append_uleb128_ends (9 ∷ []) (7 ∷ []) 300 12 (omega arith) (omega arith)
