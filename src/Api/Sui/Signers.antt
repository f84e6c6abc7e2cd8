-- ===== src/Api/Sui/Signers.antt =====
-- Which keys the sponsor's multisig names as the signers', and what the node is asked to run.
use nearby_payments_api.Base.{
  ℕ, zero, suc, ◌*◌, ◌/◌, ◌%◌, ◌≡◌, refl, sym, ap, ◌∙◌, subst, ◌↔◌, inl, inr, true, false, none,
  List, [], ◌∷◌, ◌++◌, Text, text_eq, text_eq_refl, codes, arith, length, ltb, ◌==◌, if◌then◌else◌,
  take, Bool-cases, List-cases, All,
}
use nearby_payments_api.Api.Errors.{returned, Result, ok, err, Result-cases}
use nearby_payments_api.Api.Rows.{find, keyed}
use nearby_payments_api.Api.Rows.Unique.{Unique}
use nearby_payments_api.Api.Avs.Aggregator.{Operator, OperatorSignature, Libraries}
use nearby_payments_api.Api.Avs.Quorum.{verified, is_verified}
use nearby_payments_api.Api.Avs.Client.{
  AuthorizeResult, Client, Moment, Encoders, public_keys, approve_sponsor_tx, or_nil,
}
use nearby_payments_api.Api.Avs.Approvals.{call-IsApproval}
use nearby_payments_api.Api.Avs.Requests.{IsMessage, IsApproval, sponsor_tx, fields_of}
use nearby_payments_api.Api.Sui.Sponsor.{
  Node, new_sponsor, set_bits, collected_signatures, wrapping, execute_sponsored,
  submit_sponsored_transaction,
}
use nearby_payments_api.Api.Sui.Multisig.{hex_encode, combine_multisig_signature}

-- The keys at the bits of a bitmap, the lowest bit first.
abbrev pub named {ℓ} : {A : Type ℓ} → ℕ → List A → List A
named bitmap [] = []
named bitmap (k ∷ ks) =
    let rest = named (bitmap / 2) ks in if bitmap % 2 == 1 then k ∷ rest else rest

abbrev pub signers_keys : List OperatorSignature → List Text
signers_keys [] = []
signers_keys (s ∷ l) = s.public_key ∷ signers_keys l

named_none : {A : Type 0} (l : List A) → named 0 l ≡ []
named_none [] = refl
named_none (a ∷ l) = named_none l

named_first : {A : Type 0} (l : List A) → named 7 l ≡ take 3 l
named_first [] = refl
named_first (a ∷ []) = refl
named_first (a ∷ b ∷ []) = refl
named_first (a ∷ b ∷ c ∷ l) = ap (λ t. a ∷ b ∷ c ∷ t) (named_none l)

-- Three signatures set the lowest three bits.
pub set_bits_three : (sigs : List OperatorSignature) → length sigs ≡ 3 → set_bits 0 0 sigs ≡ 7
set_bits_three [] e = let never : ⊥ = omega (arith, e) in absurd never
set_bits_three (a ∷ []) e = let never : ⊥ = omega (arith, e) in absurd never
set_bits_three (a ∷ b ∷ []) e = let never : ⊥ = omega (arith, e) in absurd never
set_bits_three (a ∷ b ∷ c ∷ []) e = refl
set_bits_three (a ∷ b ∷ c ∷ d ∷ l) e = let never : ⊥ = omega (arith, e) in absurd never

module _ (lib : Libraries) (message : Text) where
  abbrev pub Signs : Operator → Type 0
  Signs op = is_verified lib message op ≡ true

  -- No signature is by a key that none of the operators has.
  verified-fresh :
      (k : Text) (ops : List Operator) (s : OperatorSignature) (l : List OperatorSignature)
      → find (keyed (λ (o : Operator). o.public_key) k) ops ≡ none
      → verified lib message ops ≡ s ∷ l
      → text_eq s.public_key k ≡ false
  verified-fresh k [] s l h e = ground (arith, e)
  verified-fresh k (op ∷ ops) s l h e = elim (Bool-cases (is_verified lib message op)) [
    | inl good ↦
        let same : op.public_key ≡ s.public_key = ground (arith, e, good) in
        elim (Bool-cases (text_eq op.public_key k)) [
          | inl taken ↦ let never : ⊥ = ground (arith, h, taken) in absurd never
          | inr free ↦ rw (sym same) free
        ]
    | inr bad ↦
        let later : find (keyed (λ (o : Operator). o.public_key) k) ops ≡ none =
          ground (arith, h) in
        let signed : verified lib message ops ≡ s ∷ l = ground (arith, e, bad) in
        verified-fresh k ops s l later signed
  ]

  first_signed :
      (n : ℕ) (ops : List Operator)
      → All Signs (take n ops)
      → signers_keys (take n (verified lib message ops)) ≡ take n (public_keys ops)
  first_signed zero ops h = refl
  first_signed (suc n) [] h = refl
  first_signed (suc n) (op ∷ ops) (p, h) =
      rw (p) (ap (λ t. op.public_key ∷ t) (first_signed n ops h))

  signed_first :
      (n : ℕ) (ops : List Operator)
      → Unique (λ (o : Operator). o.public_key) ops
      → take n (public_keys ops) ≡ signers_keys (take n (verified lib message ops))
      → All Signs (take n ops)
  signed_first zero ops u e = tt
  signed_first (suc n) [] u e = tt
  signed_first (suc n) (op ∷ ops) (fresh, u) e = elim (Bool-cases (is_verified lib message op)) [
    | inl good ↦ (good, signed_first n ops u (ground (arith, e, good)))
    | inr bad ↦
        let skipped : op.public_key ∷ take n (public_keys ops)
            ≡ signers_keys (take (suc n) (verified lib message ops)) =
          ground (arith, e, bad) in
        elim (List-cases (verified lib message ops)) [
          | inl empty ↦ let never : ⊥ = ground (arith, skipped, empty) in absurd never
          | inr (s, l, some_signed) ↦
              let same : op.public_key ≡ s.public_key = ground (arith, skipped, some_signed) in
              let other = verified-fresh op.public_key ops s l fresh some_signed in
              let never : ⊥ = ground (arith, same, other, text_eq_refl op.public_key) in
              absurd never
        ]
  ]

same-message :
    (lib : Libraries) (issued : ℕ) (r : AuthorizeResult) (m m' : Text)
    → IsMessage lib issued r.authorization m
    → IsMessage lib issued r.authorization m'
    → m ≡ m'
same-message lib issued r m m' (bytes, encoded, e) (bytes', encoded', e') =
    let same : bytes ≡ bytes' = ground (arith, encoded, encoded') in
    e ∙ (ap (λ t. codes "nearby-payments.avs.authorization" ++ t) same ∙ sym e')

-- The operators have different keys. For a transaction that they approve, the keys that the bitmap of
-- the sponsor's multisig names are those that the signatures verify under if and only if the
-- signatures of the first three operators all verify: with a later operator in the place of one of
-- them, the bitmap names keys that did not sign.
pub bitmap-names_signers_iff :
    (lib : Libraries) (enc : Encoders) (c : Client) (at : Moment) (hash : Text)
    (r : AuthorizeResult) (message : Text)
    → Unique (λ (o : Operator). o.public_key) c.operators
    → approve_sponsor_tx lib enc c at hash ≡ ok r
    → IsMessage lib at.issued_ms r.authorization message
    → (named (set_bits 0 0 r.authorization.signatures) (public_keys c.operators)
        ≡ signers_keys r.authorization.signatures)
      ↔ All (Signs lib message) (take 3 c.operators)
bitmap-names_signers_iff lib enc c at hash r message distinct e said =
    let (m, is_m, _, _, _, _, taken, three, _, _) =
      call-IsApproval lib enc c at (sponsor_tx hash) r e in
    let same = same-message lib at.issued_ms r m message is_m said in
    let sigs : r.authorization.signatures ≡ take 3 (verified lib message c.operators) =
      subst (λ t. r.authorization.signatures ≡ take 3 (verified lib t c.operators)) same taken in
    let keys = ap signers_keys sigs in
    let bits : named (set_bits 0 0 r.authorization.signatures) (public_keys c.operators)
        ≡ take 3 (public_keys c.operators) =
      ap (λ b. named b (public_keys c.operators)) (set_bits_three r.authorization.signatures three)
      ∙ named_first (public_keys c.operators) in
    (
      (λ named_well.
          signed_first lib message 3 c.operators distinct (sym bits ∙ (named_well ∙ keys))),
      (λ signed. bits ∙ (sym (first_signed lib message 3 c.operators signed) ∙ sym keys)),
    )

module _ {Response : Type 0} (node : Node Response) (lib : Libraries) (enc : Encoders) (at : Moment)
    (c : Client) where
  -- The name under which the operators approve a transaction.
  abbrev pub approved_hash : List ℕ → Text
  approved_hash bytes = codes "0x" ++ hex_encode (take 32 bytes)

  wrapping-ok : (x : Result Response) (resp : Response) → wrapping node x ≡ ok resp → x ≡ ok resp
  wrapping-ok (ok y) resp e = e
  wrapping-ok (err y) resp e = ground (arith, e)

  submitted_bits :
      (tx_bytes : List ℕ) (user_signature : Text) (r : AuthorizeResult) (resp : Response)
      → length r.authorization.signatures ≡ 3
      → execute_sponsored node (new_sponsor node c) tx_bytes user_signature r ≡ ok resp
      → node.execute (node.encode_base64 tx_bytes) (
          user_signature
          ∷ combine_multisig_signature node.digest node.encode_base64
              (public_keys c.operators)
              (collected_signatures r.authorization.signatures)
              3
              7
          ∷ [])
        ≡ ok resp
  unfolding new_sponsor
  submitted_bits tx_bytes user_signature r resp three answered =
      let sigs = r.authorization.signatures in
      let submitted = λ (bits : ℕ). node.execute (node.encode_base64 tx_bytes) (
        user_signature
        ∷ combine_multisig_signature node.digest node.encode_base64 (public_keys c.operators)
            (collected_signatures sigs) 3 bits
        ∷ []) in
      ap submitted (sym (set_bits_three sigs three))
      ∙ wrapping-ok (submitted (set_bits 0 0 sigs)) resp answered

  -- A sponsored submission that returns an answer has the operators' approval of the first 32 bytes of
  -- the transaction, or of what lies behind it in its slice; and the answer is the node's to the
  -- transaction with the user's signature and the multisig, which holds the three signatures of the
  -- approval, all keys of the operators, the threshold 3 and the bits of the first three keys.
  pub submit_sponsored-approved :
      (tx_bytes capacity : List ℕ) (user_signature : Text) (resp : Response)
      → submit_sponsored_transaction node lib enc at
          (new_sponsor node c)
          tx_bytes
          capacity
          user_signature
        ≡ returned (ok resp)
      → (r : AuthorizeResult) × IsApproval lib enc at
          (codes "sponsor_tx.approve")
          (or_nil (enc.marshal_map (fields_of (sponsor_tx (approved_hash (tx_bytes ++ capacity))))))
          (2 * 60 * 1000)
          c
          r.authorization
        × (node.execute (node.encode_base64 tx_bytes) (
              user_signature
              ∷ combine_multisig_signature node.digest node.encode_base64
                  (public_keys c.operators)
                  (collected_signatures r.authorization.signatures)
                  3
                  7
              ∷ [])
            ≡ ok resp)
  unfolding submit_sponsored_transaction new_sponsor
  submit_sponsored-approved tx_bytes capacity user_signature resp e =
      let whole = tx_bytes ++ capacity in
      elim (Bool-cases (ltb (length whole) 32)) [
        | inl few ↦ let never : ⊥ = ground (arith, e, few) in absurd never
        | inr many ↦ elim (Result-cases (approve_sponsor_tx lib enc c at (approved_hash whole))) [
          | inl (x, refused) ↦ let never : ⊥ = ground (arith, e, many, refused) in absurd never
          | inr (r, approved) ↦ elim (Bool-cases (text_eq r.status (codes "authorized"))) [
            | inr other ↦ let never : ⊥ = ground (arith, e, many, approved, other) in absurd never
            | inl passed ↦
                let answered : execute_sponsored node (new_sponsor node c) tx_bytes user_signature r
                    ≡ ok resp =
                  ground (arith, e, many, approved, passed) in
                let approval =
                  call-IsApproval lib enc c at (sponsor_tx (approved_hash whole)) r approved in
                (r, approval, submitted_bits tx_bytes user_signature r resp approval.7 answered)
          ]
        ]
      ]
