-- ===== src/Api/Idempotency/Tests.antt =====
-- A counter behind the middleware.
use nearby_payments_api.Base.{ℕ, ◌+◌, ◌≡◌, refl, ap, true, [], ◌∷◌, codes, text_eq, get_or, arith}
use nearby_payments_api.Api.Replies.{answered, refused, Handler}
use nearby_payments_api.Api.Idempotency.{
  State, redis_key, idempotency, err_replay, meanwhile, idempotency-once,
}

abbrev count : Handler ℕ ℕ
count n = (answered 200 n, n + 1)

abbrev start : State ℕ
start = record { keys = []; inner = 0 }

first-run :
    idempotency count true (codes "k") start
    ≡ (answered 200 0, record { keys = redis_key (codes "k") ∷ []; inner = 1 })
unfolding idempotency text_eq
first-run = refl

idempotency-once_example :
    let later = meanwhile (codes "z" ∷ []) 5 (idempotency count true (codes "k") start).1 in
    (idempotency count true (codes "k") later ≡ (refused err_replay, later))
idempotency-once_example =
    idempotency-once count count (codes "k") start (codes "z" ∷ []) 5 true
      (λ e. absurd (omega (arith, ap (λ t. get_or t 0 0) e)))
