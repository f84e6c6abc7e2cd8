-- ===== src/Cache/Http/Decimal.antt =====
-- `Number.prototype.toString` on a natural number, and what its digits stand for.
use nearby_payments_api.Base.{
  ℕ, zero, suc, ◌+◌, ◌*◌, ◌-◌, ◌/◌, ◌%◌, ◌<◌, ◌≡◌, ap, ◌∙◌, Bool-cases, [], ◌∷◌, Text, arith, ltb,
  inl, inr, if◌then◌else◌,
}

decimal_from : ℕ → ℕ → Text → Text
decimal_from zero n acc = acc
decimal_from (suc f) n acc =
    let rest = decimal_from f (n / 10) ((b'0' + n % 10) ∷ acc) in
    if ltb n 10 then (b'0' + n) ∷ acc else rest

-- The number itself is fuel enough, since every round divides by ten.
unfoldable pub to_decimal : ℕ → Text
unfolding decimal_from
to_decimal n = decimal_from (suc n) n []

parse_from : ℕ → Text → ℕ
parse_from acc [] = acc
parse_from acc (c ∷ s) = parse_from (acc * 10 + (c - b'0')) s

-- The number that a text of decimal digits stands for.
unfoldable pub parse_decimal : Text → ℕ
unfolding parse_from
parse_decimal s = parse_from 0 s

parse_from-decimal_from :
    (f n : ℕ) (acc : Text) → n < f → parse_from 0 (decimal_from f n acc) ≡ parse_from n acc
unfolding decimal_from parse_from
parse_from-decimal_from zero n acc h = elim h [ ]
parse_from-decimal_from (suc f) n acc h = elim (Bool-cases (ltb n 10)) [
  | inl small ↦ rw small (ap (λ k. parse_from k acc) (omega arith))
  | inr large ↦ rw large (
      parse_from-decimal_from f (n / 10) ((b'0' + n % 10) ∷ acc) (ground arith)
      ∙ ap (λ k. parse_from k acc) (omega arith))
]

-- The digits of a number stand for it.
pub parse_decimal-to_decimal : (n : ℕ) → parse_decimal (to_decimal n) ≡ n
unfolding parse_decimal to_decimal
parse_decimal-to_decimal n = parse_from-decimal_from (suc n) n [] (omega arith)
