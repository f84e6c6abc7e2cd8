-- ===== src/Api/Sui/Reading.antt =====
-- What the multisig's address is made of and what its signature holds can be read back.
use nearby_payments_api.Base.{
  ℕ, zero, suc, ◌+◌, ◌*◌, ◌/◌, ◌%◌, ◌^◌, ◌<◌, ◌≡◌, refl, sym, ap, ◌∙◌, Option, none, some, List, [],
  ◌∷◌, ◌++◌, append_assoc, arith, length, All, ◌==◌, if◌then◌else◌,
}
use nearby_payments_api.Api.Sui.Multisig.{
  multisig_flag, uleb128, append_uleb128, uint16_bytes, key_bytes, signature_bytes, address_payload,
  signature_envelope,
}
use nearby_payments_api.Api.Sui.Decoding.{Reader, read_uleb128, append_uleb128-read}

abbrev pure : {A : Type 0} → A → Reader A
pure a bs = some (a, bs)

abbrev after : {A B : Type 0} → (A → Reader B) → Option (A × List ℕ) → Option (B × List ℕ)
after f none = none
after f (some (a, bs)) = f a bs

infixl 5 ◌>>=◌
abbrev ◌>>=◌ : {A B : Type 0} → Reader A → (A → Reader B) → Reader B
◌>>=◌ m f bs = after f (m bs)

-- A given byte.
abbrev expect : ℕ → Reader (Unit {0})
expect b [] = none
expect b (c ∷ bs) = if c == b then some (tt, bs) else none

-- So many bytes.
unfoldable pub read_bytes : ℕ → Reader (List ℕ)
read_bytes zero bs = some ([], bs)
read_bytes (suc n) [] = none
read_bytes (suc n) (b ∷ bs) = elim (read_bytes n bs) [ none ↦ none | some r ↦ some (b ∷ r.0, r.1) ]

-- So many entries.
unfoldable pub read_all : {A : Type 0} → Reader A → ℕ → Reader (List A)
read_all read zero bs = some ([], bs)
read_all read (suc n) bs =
    let later = read_all read n in after (λ a. later >>= (λ l. pure (a ∷ l))) (read bs)

-- A key of 32 bytes between its flag and the weight 1.
unfoldable pub read_key : Reader (List ℕ)
read_key = do _ ← expect 0; pk ← read_bytes 32; _ ← expect 1; pure pk

-- A signature of 64 bytes after its flag.
unfoldable pub read_signature : Reader (List ℕ)
read_signature = do _ ← expect 0; read_bytes 64

-- A uint16, its low byte first.
abbrev read_uint16 : Reader ℕ
read_uint16 [] = none
read_uint16 (_ ∷ []) = none
read_uint16 (b ∷ c ∷ bs) = some (b + 256 * c, bs)

-- The keys and the threshold.
unfoldable pub read_committee : Reader (List (List ℕ) × ℕ)
read_committee = do
  n ← read_uleb128
  pks ← read_all read_key n
  threshold ← read_uint16
  pure (pks, threshold)

unfoldable pub read_address_payload : Reader (List (List ℕ) × ℕ)
read_address_payload = do _ ← expect multisig_flag; read_committee

-- The signatures, the bitmap, and the keys and the threshold.
unfoldable pub read_signature_envelope : Reader (List (List ℕ) × (ℕ × (List (List ℕ) × ℕ)))
read_signature_envelope = do
  _ ← expect multisig_flag
  n ← read_uleb128
  sigs ← read_all read_signature n
  bitmap ← read_uint16
  committee ← read_committee
  pure (sigs, (bitmap, committee))

read_bytes-append : (xs rest : List ℕ) → read_bytes (length xs) (xs ++ rest) ≡ some (xs, rest)
unfolding read_bytes
read_bytes-append [] rest = refl
read_bytes-append (x ∷ xs) rest = rw (read_bytes-append xs rest) refl

read_bytes-sized :
    (n : ℕ) (xs rest : List ℕ) → length xs ≡ n → read_bytes n (xs ++ rest) ≡ some (xs, rest)
read_bytes-sized n xs rest e =
    ap (λ k. read_bytes k (xs ++ rest)) (sym e) ∙ read_bytes-append xs rest

bind-some :
    {A B : Type 0} (m : Reader A) (f : A → Reader B) (bs : List ℕ) (a : A) (rest : List ℕ)
    → m bs ≡ some (a, rest)
    → (m >>= f) bs ≡ f a rest
bind-some m f bs a rest e = ap (after f) e

all-step :
    {A : Type 0} (read : Reader A) (n : ℕ) (bs mid rest : List ℕ) (a : A) (l : List A)
    → read bs ≡ some (a, mid)
    → read_all read n mid ≡ some (l, rest)
    → read_all read (suc n) bs ≡ some (a ∷ l, rest)
unfolding read_all
all-step read n bs mid rest a l e e' =
    bind-some read (λ x. read_all read n >>= (λ t. pure (x ∷ t))) bs a mid e
    ∙ bind-some (read_all read n) (λ t. pure (a ∷ t)) mid l rest e'

read_key-read :
    (pk rest : List ℕ) → length pk ≡ 32 → read_key (0 ∷ (pk ++ (1 ∷ rest))) ≡ some (pk, rest)
unfolding read_key
read_key-read pk rest e =
    bind-some (read_bytes 32) (λ k. expect 1 >>= (λ _. pure k)) (pk ++ (1 ∷ rest)) pk (1 ∷ rest)
      (read_bytes-sized 32 pk (1 ∷ rest) e)

read_signature-read :
    (sig rest : List ℕ) → length sig ≡ 64 → read_signature (0 ∷ (sig ++ rest)) ≡ some (sig, rest)
unfolding read_signature
read_signature-read sig rest e = read_bytes-sized 64 sig rest e

abbrev pub AreKeys : List (List ℕ) → Type 0
AreKeys = All (λ pk. length pk ≡ 32)

abbrev pub AreSignatures : List (List ℕ) → Type 0
AreSignatures = All (λ sig. length sig ≡ 64)

key_bytes-read :
    (pks : List (List ℕ)) (rest : List ℕ)
    → AreKeys pks
    → read_all read_key (length pks) (key_bytes pks ++ rest) ≡ some (pks, rest)
unfolding read_all
key_bytes-read [] rest h = refl
key_bytes-read (pk ∷ pks) rest (e, h) =
    all-step read_key (length pks) (key_bytes (pk ∷ pks) ++ rest) (key_bytes pks ++ rest) rest pk
      pks
      (ap (λ t. read_key (0 ∷ t)) (append_assoc pk (1 ∷ key_bytes pks) rest)
        ∙ read_key-read pk (key_bytes pks ++ rest) e)
      (key_bytes-read pks rest h)

signature_bytes-read :
    (sigs : List (List ℕ)) (rest : List ℕ)
    → AreSignatures sigs
    → read_all read_signature (length sigs) (signature_bytes sigs ++ rest) ≡ some (sigs, rest)
unfolding read_all
signature_bytes-read [] rest h = refl
signature_bytes-read (sig ∷ sigs) rest (e, h) =
    all-step read_signature (length sigs) (signature_bytes (sig ∷ sigs) ++ rest)
      (signature_bytes sigs ++ rest) rest sig sigs
      (ap (λ t. read_signature (0 ∷ t)) (append_assoc sig (signature_bytes sigs) rest)
        ∙ read_signature-read sig (signature_bytes sigs ++ rest) e)
      (signature_bytes-read sigs rest h)

uint16-read :
    (n : ℕ) (rest : List ℕ) → n < 2 ^ 16 → read_uint16 (uint16_bytes n ++ rest) ≡ some (n, rest)
uint16-read n rest h =
    let whole : n % 256 + 256 * (n / 256 % 256) ≡ n = omega (arith, h) in
    ap (λ t. some (t, rest)) whole

-- The keys, the count before them and the threshold after them.
committee-read :
    (pks : List (List ℕ)) (threshold : ℕ)
    → AreKeys pks
    → length pks < 2 ^ 64
    → threshold < 2 ^ 16
    → read_committee (append_uleb128 [] (length pks) ++ (key_bytes pks ++ uint16_bytes threshold))
      ≡ some ((pks, threshold), [])
unfolding read_committee
committee-read pks threshold keys few low =
    bind-some read_uleb128
      (λ n. read_all read_key n >>= (λ ks. read_uint16 >>= (λ t. pure (ks, t))))
      (append_uleb128 [] (length pks) ++ (key_bytes pks ++ uint16_bytes threshold)) (length pks)
      (key_bytes pks ++ uint16_bytes threshold)
      (append_uleb128-read (length pks) (key_bytes pks ++ uint16_bytes threshold) few)
    ∙ (bind-some (read_all read_key (length pks)) (λ ks. read_uint16 >>= (λ t. pure (ks, t)))
          (key_bytes pks ++ uint16_bytes threshold) pks (uint16_bytes threshold)
          (key_bytes-read pks (uint16_bytes threshold) keys)
        ∙ bind-some read_uint16 (λ t. pure (pks, t)) (uint16_bytes threshold) threshold []
            (uint16-read threshold [] low))

-- The keys and the threshold can be read back from what is hashed to the multisig's address, if each
-- key has 32 bytes: two committees, or two thresholds, are never hashed from the same bytes.
address_payload-read :
    (pks : List (List ℕ)) (threshold : ℕ)
    → AreKeys pks
    → length pks < 2 ^ 64
    → threshold < 2 ^ 16
    → read_address_payload (address_payload pks threshold) ≡ some ((pks, threshold), [])
unfolding address_payload append_uleb128 read_address_payload
address_payload-read pks threshold keys few low = committee-read pks threshold keys few low

-- What `read_signature_envelope` reads after the bitmap, and after the signatures.
abbrev end_of : List (List ℕ) → ℕ → Reader (List (List ℕ) × (ℕ × (List (List ℕ) × ℕ)))
end_of sigs bitmap = read_committee >>= (λ c. pure (sigs, (bitmap, c)))

abbrev rest_of : List (List ℕ) → Reader (List (List ℕ) × (ℕ × (List (List ℕ) × ℕ)))
rest_of sigs = read_uint16 >>= (λ b. end_of sigs b)

-- The signatures, the bitmap, the keys and the threshold can be read back from what is encoded as the
-- multisig's signature, if each key has 32 bytes, each signature 64, and the bitmap 16 bits.
signature_envelope-read :
    (pks sigs : List (List ℕ)) (threshold bitmap : ℕ)
    → AreKeys pks
    → AreSignatures sigs
    → length pks < 2 ^ 64
    → length sigs < 2 ^ 64
    → threshold < 2 ^ 16
    → bitmap < 2 ^ 16
    → read_signature_envelope (signature_envelope pks sigs threshold bitmap)
      ≡ some ((sigs, (bitmap, (pks, threshold))), [])
unfolding signature_envelope append_uleb128 read_signature_envelope
signature_envelope-read pks sigs threshold bitmap keys signed few few' low low' =
    let count = uleb128 10 (length sigs) in
    let count' = uleb128 10 (length pks) in
    let bits = uint16_bytes bitmap in
    let tail = key_bytes pks ++ uint16_bytes threshold in
    let behind = bits ++ (count' ++ tail) in
    let regrouped =
      append_assoc ((count ++ signature_bytes sigs) ++ bits) count' tail
      ∙ (append_assoc (count ++ signature_bytes sigs) bits (count' ++ tail)
          ∙ append_assoc count (signature_bytes sigs) behind) in
    ap (λ t. read_signature_envelope (multisig_flag ∷ t)) regrouped
    ∙ (bind-some read_uleb128 (λ n. read_all read_signature n >>= (λ ss. rest_of ss))
          (count ++ (signature_bytes sigs ++ behind)) (length sigs) (signature_bytes sigs ++ behind)
          (append_uleb128-read (length sigs) (signature_bytes sigs ++ behind) few')
        ∙ (bind-some (read_all read_signature (length sigs)) (λ ss. rest_of ss)
              (signature_bytes sigs ++ behind) sigs behind (signature_bytes-read sigs behind signed)
            ∙ (bind-some read_uint16 (λ b. end_of sigs b) behind bitmap (count' ++ tail)
                  (uint16-read bitmap (count' ++ tail) low')
                ∙ bind-some read_committee (λ c. pure (sigs, (bitmap, c))) (count' ++ tail)
                    (pks, threshold) [] (committee-read pks threshold keys few low))))

-- If each key has 32 bytes, each signature 64, and the bitmap and the threshold 16 bits, the keys and the
-- threshold can be read back from what is hashed to the multisig's address, and the signatures, the
-- bitmap, the keys and the threshold from what is encoded as its signature: no two committees have one
-- payload, and no two signatures one encoding.
pub multisig-read :
    (pks sigs : List (List ℕ)) (threshold bitmap : ℕ)
    → AreKeys pks
    → AreSignatures sigs
    → length pks < 2 ^ 64
    → length sigs < 2 ^ 64
    → threshold < 2 ^ 16
    → bitmap < 2 ^ 16
    → (read_address_payload (address_payload pks threshold) ≡ some ((pks, threshold), []))
      × (read_signature_envelope (signature_envelope pks sigs threshold bitmap)
          ≡ some ((sigs, (bitmap, (pks, threshold))), []))
multisig-read pks sigs threshold bitmap keys signed few few' low low' = (
  address_payload-read pks threshold keys few low,
  signature_envelope-read pks sigs threshold bitmap keys signed few few' low low',
)
