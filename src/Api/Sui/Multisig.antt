-- ===== src/Api/Sui/Multisig.antt =====
-- apps/api/internal/sui/multisig.go. Bytes are numbers below 256; SHA-256, which
-- blake2b.go gives for BLAKE2b, and base64 are parameters.
use nearby_payments_api.Base.{
  ℕ, zero, suc, ◌+◌, ◌/◌, ◌%◌, List, [], ◌∷◌, ◌++◌, Text, codes, length, get_or, ◌==◌,
  if◌then◌else◌,
}

abbrev pub ed25519_flag : ℕ
ed25519_flag = 0

abbrev pub multisig_flag : ℕ
multisig_flag = 3

-- The loop, with a number of rounds: a uint64 takes at most ten.
unfoldable pub uleb128 : (rounds v : ℕ) → List ℕ
uleb128 zero v = []
uleb128 (suc rounds) v =
    let rest = uleb128 rounds (v / 128) in
    if v / 128 == 0 then (v % 128) ∷ [] else (v % 128 + 128) ∷ rest

unfoldable pub append_uleb128 : List ℕ → ℕ → List ℕ
unfolding uleb128
append_uleb128 buf v = buf ++ uleb128 10 v

-- `byte(n), byte(n>>8)` of a uint16
abbrev pub uint16_bytes : ℕ → List ℕ
uint16_bytes n = (n % 256) ∷ (n / 256 % 256) ∷ []

-- The loop over the keys, each with its flag and the weight 1.
abbrev pub key_bytes : List (List ℕ) → List ℕ
key_bytes [] = []
key_bytes (pk ∷ pks) = ed25519_flag ∷ (pk ++ (1 ∷ key_bytes pks))

-- The loop over the signatures.
abbrev pub signature_bytes : List (List ℕ) → List ℕ
signature_bytes [] = []
signature_bytes (sig ∷ sigs) = ed25519_flag ∷ (sig ++ signature_bytes sigs)

-- What BuildMultisigAddress hashes.
unfoldable pub address_payload : List (List ℕ) → ℕ → List ℕ
unfolding append_uleb128
address_payload public_keys threshold =
    append_uleb128 (multisig_flag ∷ []) (length public_keys)
    ++ (key_bytes public_keys ++ uint16_bytes threshold)

-- What CombineMultisigSignature encodes.
unfoldable pub signature_envelope : List (List ℕ) → List (List ℕ) → (threshold bitmap : ℕ) → List ℕ
unfolding append_uleb128
signature_envelope public_keys signatures threshold bitmap =
    let signed = append_uleb128 [] (length signatures) ++ signature_bytes signatures in
    let counted = append_uleb128 (signed ++ uint16_bytes bitmap) (length public_keys) in
    (multisig_flag ∷ []) ++ (counted ++ (key_bytes public_keys ++ uint16_bytes threshold))

-- `hexChars[n]`
abbrev pub hex_char : ℕ → ℕ
hex_char n = get_or (codes "0123456789abcdef") n 0

abbrev pub hex_encode : List ℕ → Text
hex_encode [] = []
hex_encode (v ∷ b) = hex_char (v / 16) ∷ hex_char (v % 16) ∷ hex_encode b

module _ (sha256 : List ℕ → List ℕ) (encode_base64 : List ℕ → Text) where
  unfoldable pub build_multisig_address : List (List ℕ) → ℕ → Text
  unfolding address_payload
  build_multisig_address public_keys threshold =
      codes "0x" ++ hex_encode (sha256 (address_payload public_keys threshold))

  unfoldable pub combine_multisig_signature :
      List (List ℕ) → List (List ℕ) → (threshold bitmap : ℕ) → Text
  unfolding signature_envelope
  combine_multisig_signature public_keys signatures threshold bitmap =
      encode_base64 (signature_envelope public_keys signatures threshold bitmap)
