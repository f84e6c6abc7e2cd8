-- ===== src/Api/Auth/Middleware.antt =====
-- apps/api/internal/domain/auth/middleware.go: the guard of the other handlers, in both fidelities.
use nearby_payments_api.Base.{
  ℕ, ◌+◌, ◌*◌, ltb, ℤ, pos, div_ℤ, Bool, true, false, not, ◌||◌, Option, none, some, [], ◌∷◌, ◌++◌,
  Text, codes, text_eq, if◌then◌else◌,
}
use nearby_payments_api.Api.Errors.{app, wrapped, err_internal, Result, ok, err, Action, pure}
use nearby_payments_api.Api.Replies.{Reply, Handler, refuse}
use nearby_payments_api.Api.Auth.Actions.{◌>>=◌, ◌>>◌, or_else, or_raise, ensure}
use nearby_payments_api.Api.Payment.Service.{has_prefix}
use nearby_payments_api.Api.Rows.{find}
use nearby_payments_api.Api.Auth.Types.{
  SessionContext, err_unauthorized, err_high_fidelity_required, err_timestamp_out_of_window,
  err_replay_detected, err_body_hash_mismatch,
}
use nearby_payments_api.Api.Auth.Store.{Tables, redis_set_nx}
use nearby_payments_api.Api.Auth.Sessions.{World, in_window, verify_access_token}
use nearby_payments_api.Api.Auth.Keys.{has_redis_key}

-- A request as the middleware reads it.
pub record Request : Type 0 where
  -- `r.Header.Get`, the empty text where the header is missing
  pub header : Text → Text
  -- `io.ReadAll(r.Body)`, which may fail
  pub body : Option Text

-- What follows a prefix.
unfoldable pub drop_prefix : Text → Text → Text
drop_prefix t [] = t
drop_prefix [] (p ∷ prefix) = []
drop_prefix (c ∷ t) (p ∷ prefix) = drop_prefix t prefix

-- `strings.TrimPrefix`
abbrev pub trim_prefix : Text → Text → Text
trim_prefix t prefix = if has_prefix t prefix then drop_prefix t prefix else t

unfoldable pub extract_bearer_token : Request → Text
extract_bearer_token r =
    let auth = r.header (codes "Authorization") in
    if has_prefix auth (codes "Bearer ") then trim_prefix auth (codes "Bearer ") else []

-- `nonceTTL`, in milliseconds.
abbrev pub nonce_ttl : ℕ
nonce_ttl = 10 * 60 * 1000

abbrev pub nonce_key : SessionContext → Request → Text
nonce_key ctx r =
    codes "hf:nonce:"
    ++ (ctx.session.device_integrity_id ++ (codes ":" ++ r.header (codes "X-Request-Nonce")))

-- Whether a key was found that has not expired.
abbrev pub is_live : ℕ → Option (Text × Text × ℕ) → Bool
is_live now none = false
is_live now (some (k, v, expires)) = ltb now expires

-- `rdb.SetNX`: whether the key was not set, or had expired, and is set now.
unfoldable pub set_nx : Bool → (now expires : ℕ) → Text → Text → Action Tables Bool
set_nx up now expires key value db =
    if up
    then if is_live now (find (has_redis_key key) db.redis)
      then (ok false, db)
      else (ok true, record db { redis = (key, value, expires) ∷ db.redis })
    else (err wrapped, db)

-- `next.ServeHTTP` for an admitted request, and `apperr.Write` for any other.
abbrev pub serve_admitted :
    {A : Type 0}
    → (SessionContext → Request → Handler Tables A)
    → Request
    → Result SessionContext × Tables
    → Reply A × Tables
serve_admitted next r (ok ctx, db) = next ctx r db
serve_admitted next r (err e, db) = refuse e db

-- `scan` is `fmt.Sscanf` with "%d" into an int64, which may fail.
module _ (sha256 : Text → Text) (scan : Text → Option ℤ) (w : World) where
  -- The checks of the headers.
  unfoldable pub are_fresh : Request → Action Tables (Unit {0})
  are_fresh r = do
    ensure
        (not (
          text_eq (r.header (codes "X-Device-Provider")) []
          || (text_eq (r.header (codes "X-Request-Nonce")) []
              || text_eq (r.header (codes "X-Request-Timestamp")) [])))
        err_high_fidelity_required
    ts_ms ← or_raise err_high_fidelity_required (scan (r.header (codes "X-Request-Timestamp")))
    ensure (in_window w.later (div_ℤ ts_ms 1000) (pos 300)) err_timestamp_out_of_window

  -- The check of the body.
  unfoldable pub has_body_hash : Request → Action Tables (Unit {0})
  has_body_hash r = do
    body ← or_raise (app err_internal) r.body
    ensure
        (text_eq (r.header (codes "X-Body-Hash")) []
          || text_eq (r.header (codes "X-Body-Hash")) (codes "0x" ++ sha256 body))
        err_body_hash_mismatch

  unfoldable pub verify_high_fidelity : Request → SessionContext → Action Tables (Unit {0})
  verify_high_fidelity r ctx = do
    are_fresh r
    is_new ← or_else (app err_internal) (
        set_nx (w.up redis_set_nx) w.redis_now (w.redis_now + nonce_ttl) (nonce_key ctx r)
          (codes "1"))
    ensure is_new err_replay_detected
    has_body_hash r

  -- What a request must pass before the handler.
  unfoldable pub admit : Text → Request → Action Tables SessionContext
  admit fidelity r = do
    ensure (not (text_eq (extract_bearer_token r) [])) err_unauthorized
    ctx ← verify_access_token sha256 w (extract_bearer_token r)
    if text_eq fidelity (codes "high") then verify_high_fidelity r ctx else pure tt
    pure ctx

  unfoldable pub middleware :
      {A : Type 0}
      → Text
      → (SessionContext → Request → Handler Tables A)
      → Request
      → Handler Tables A
  middleware fidelity next r db = serve_admitted next r (admit fidelity r db)
