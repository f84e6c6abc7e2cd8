-- ===== src/Api/Auth/Nonces.antt =====
-- A nonce serves for one request of high fidelity.
use nearby_payments_api.Base.{ℕ, ◌≡◌, true, List, [], ◌∷◌, Text}
use nearby_payments_api.Api.Rows.{find}
use nearby_payments_api.Api.Auth.Types.{SessionContext}
use nearby_payments_api.Api.Auth.Store.{Tables}
use nearby_payments_api.Api.Auth.Google.{Google}
use nearby_payments_api.Api.Auth.Keys.{has_redis_key}
use nearby_payments_api.Api.Auth.Middleware.{Request, nonce_key, is_live}

-- The key is set and has not expired at a time.
abbrev IsHeld : Text → (at : ℕ) → List (Text × Text × ℕ) → Type 0
IsHeld key at l = is_live at (find (has_redis_key key) l) ≡ true

abbrev first : Text → ℕ
first [] = 0
first (c ∷ t) = c

-- The nonce of a request, at a time.
module _ (ctx : SessionContext) (r : Request) (at : ℕ) where
  abbrev P : Tables → Type 0
  P db = IsHeld (nonce_key ctx r) at db.redis
