-- ===== src/Api/Auth/Window.antt =====
-- apps/api/internal/utils/time.go: InWindow at the int64 of Go.
use nearby_payments_api.Base.{
  ℕ, suc, ◌+◌, ◌-◌, ◌/◌, ◌^◌, ◌≤◌, ◌<◌, ◌≡◌, ◌↔◌, inl, inr, ℤ, pos, negsuc, pos_part, neg_part,
  ◌-ℤ◌, div_ℤ, wrap64, IsInt64, true, arith, leb, Bool-cases,
}
use nearby_payments_api.Api.Auth.Sessions.{in_window}

-- At most so many seconds lie between a time and the present.
abbrev pub IsNear : ℕ → ℤ → ℕ → Type 0
IsNear now ts seconds =
    (pos_part ts ≤ now + neg_part ts + seconds) × (now + neg_part ts ≤ pos_part ts + seconds)

in_window_pos :
    (now t : ℕ)
    → now < 2 ^ 62
    → t < 2 ^ 62
    → (in_window now (pos t) (pos 300) ≡ true) ↔ IsNear now (pos t) 300
unfolding in_window wrap64 ◌-ℤ◌
in_window_pos now t h h' = (λ e. ground arith, λ e. ground arith)

in_window_neg :
    (now t : ℕ)
    → now < 2 ^ 62
    → t < 2 ^ 62
    → (in_window now (negsuc t) (pos 300) ≡ true) ↔ IsNear now (negsuc t) 300
unfolding in_window wrap64 ◌-ℤ◌
in_window_neg now t h h' = (λ e. ground arith, λ e. ground arith)

-- A time in milliseconds, any int64, rounded to seconds: InWindow answers by the distance, without
-- overflow.
pub in_window_iff :
    (now : ℕ) (ms : ℤ)
    → now < 2 ^ 62
    → IsInt64 ms
    → (in_window now (div_ℤ ms 1000) (pos 300) ≡ true) ↔ IsNear now (div_ℤ ms 1000) 300
in_window_iff now (pos n) h (low, high) = in_window_pos now (n / 1000) h (omega arith)
in_window_iff now (negsuc n) h (low, high) = elim (Bool-cases (leb (suc n / 1000) 0)) [
  | inl e ↦ rw e (in_window_pos now (0 - suc n / 1000) h (omega arith))
  | inr e ↦ rw e (in_window_neg now (suc n / 1000 - 0 - 1) h (omega arith))
]
