-- ===== src/Api/Sui/Decoding.antt =====
-- The encodings of the multisig can be read back: a decoder for each, and that it inverts it.
use nearby_payments_api.Base.{
  ℕ, zero, suc, ◌+◌, ◌-◌, ◌*◌, ◌/◌, ◌%◌, ◌^◌, ◌<◌, ◌≤◌, ◌≡◌, refl, sym, ap, ◌∙◌, inl, inr, false,
  Option, none, some, List, [], ◌∷◌, ◌++◌, arith, ltb, ◌==◌, if◌then◌else◌, Bool-cases,
}
use nearby_payments_api.Api.Sui.Multisig.{uleb128, append_uleb128}

abbrev pub Reader : Type 0 → Type 0
Reader A = List ℕ → Option (A × List ℕ)

-- A number in groups of seven bits, the lowest first; the eighth bit says that more follow.
unfoldable pub read_uleb128 : Reader ℕ
read_uleb128 [] = none
read_uleb128 (b ∷ bs) =
    let rest = read_uleb128 bs in
    if ltb b 128
    then some (b, bs)
    else elim rest [ none ↦ none | some r ↦ some (b - 128 + 128 * r.0, r.1) ]

uleb128-last : (rounds v : ℕ) → v < 128 → uleb128 (suc rounds) v ≡ v ∷ []
unfolding uleb128
uleb128-last rounds v h =
    let top : v / 128 ≡ 0 = omega (arith, h) in
    let low : v % 128 ≡ v = omega (arith, h) in rw (top, low) refl

uleb128-more :
    (rounds v : ℕ) → 127 < v → uleb128 (suc rounds) v ≡ (v % 128 + 128) ∷ uleb128 rounds (v / 128)
unfolding uleb128
uleb128-more rounds v h =
    let top : (v / 128 == 0) ≡ false = ground (arith, h) in rw (top, uleb128) refl

read-last : (b : ℕ) (bs : List ℕ) → b < 128 → read_uleb128 (b ∷ bs) ≡ some (b, bs)
unfolding read_uleb128
read-last b bs h = ground (arith, h)

read-more :
    (b v : ℕ) (bs rest : List ℕ)
    → read_uleb128 bs ≡ some (v, rest)
    → read_uleb128 ((b + 128) ∷ bs) ≡ some (b + 128 * v, rest)
unfolding read_uleb128
read-more b v bs rest h =
    let more : ltb (b + 128) 128 ≡ false = ground arith in
    let low : b + 128 - 128 ≡ b = omega arith in rw (more, h, low) refl

uleb128-read :
    (rounds v : ℕ) (rest : List ℕ)
    → v < 128 ^ suc rounds
    → read_uleb128 (uleb128 (suc rounds) v ++ rest) ≡ some (v, rest)
uleb128-read zero v rest h =
    let few : v < 128 = omega (arith, h) in rw (uleb128-last 0 v few) (read-last v rest few)
uleb128-read (suc rounds) v rest h = elim (Bool-cases (ltb v 128)) [
  | inl small ↦
      let few : v < 128 = ground (arith, small) in
      rw (uleb128-last (suc rounds) v few) (read-last v rest few)
  | inr large ↦
      let many : 127 < v = ground (arith, large) in
      let fits : v / 128 < 128 ^ suc rounds = omega (arith, h) in
      let whole : v % 128 + 128 * (v / 128) ≡ v = omega arith in
      rw (uleb128-more (suc rounds) v many) (
        read-more (v % 128) (v / 128) (uleb128 (suc rounds) (v / 128) ++ rest) rest
          (uleb128-read rounds (v / 128) rest fits)
        ∙ ap (λ t. some (t, rest)) whole)
]

-- What a number of up to 64 bits was, and what follows it, can be told from its bytes.
pub append_uleb128-read :
    (v : ℕ) (rest : List ℕ)
    → v < 2 ^ 64
    → read_uleb128 (append_uleb128 [] v ++ rest) ≡ some (v, rest)
unfolding append_uleb128
append_uleb128-read v rest h = uleb128-read 9 v rest (omega (arith, h))

uleb128-rounds :
    (rounds more v : ℕ)
    → v < 128 ^ suc rounds
    → rounds ≤ more
    → uleb128 (suc more) v ≡ uleb128 (suc rounds) v
uleb128-rounds zero more v h le =
    let few : v < 128 = omega (arith, h) in
    rw (uleb128-last more v few, uleb128-last zero v few) refl
uleb128-rounds (suc rounds) zero v h le = let never : ⊥ = omega (arith, le) in absurd never
uleb128-rounds (suc rounds) (suc more) v h le = elim (Bool-cases (ltb v 128)) [
  | inl small ↦
      let few : v < 128 = ground (arith, small) in
      rw (uleb128-last (suc more) v few, uleb128-last (suc rounds) v few) refl
  | inr large ↦
      let many : 127 < v = ground (arith, large) in
      let fits : v / 128 < 128 ^ suc rounds = omega (arith, h) in
      rw (uleb128-more (suc more) v many, uleb128-more (suc rounds) v many)
        (ap (λ t. (v % 128 + 128) ∷ t)
          (uleb128-rounds rounds more (v / 128) fits (omega (arith, le))))
]

-- The loop that appends a number of up to 64 bits ends within ten rounds: any number of rounds from ten
-- on appends the same bytes, from which the number, and what follows it, can be read back.
pub append_uleb128_ends :
    (buf rest : List ℕ) (v rounds : ℕ)
    → v < 2 ^ 64
    → 10 ≤ rounds
    → (buf ++ uleb128 rounds v ≡ append_uleb128 buf v)
      × (read_uleb128 (uleb128 rounds v ++ rest) ≡ some (v, rest))
unfolding append_uleb128
append_uleb128_ends buf rest v rounds h enough =
    let whole : suc (rounds - 1) ≡ rounds = omega (arith, enough) in
    let same : uleb128 rounds v ≡ uleb128 10 v =
      ap (λ n. uleb128 n v) (sym whole)
      ∙ uleb128-rounds 9 (rounds - 1) v (omega (arith, h)) (omega (arith, enough)) in
    (
      ap (λ t. buf ++ t) same,
      ap (λ t. read_uleb128 (t ++ rest)) same ∙ append_uleb128-read v rest h,
    )
