-- ===== src/Api/Auth/Sessions.antt =====
-- apps/api/internal/domain/auth/service.go: RefreshSession, RevokeSession, VerifyAccessToken and
-- AssertDeviceIntegrity, and utils.InWindow.
use nearby_payments_api.Base.{
  ℕ, ◌+◌, ◌*◌, ℤ, pos, ◌-ℤ◌, ltb_ℤ, div_ℤ, wrap64, Bool, not, Option, [], Text, codes, text_eq, ltb,
  if◌then◌else◌,
}
use nearby_payments_api.Api.Errors.{app, err_internal, Action, pure}
use nearby_payments_api.Api.Auth.Actions.{◌>>=◌, ◌>>◌, or_else, or_raise, ensure}
use nearby_payments_api.Api.Auth.Types.{
  User, Device, Session, SessionContext, SessionRefreshResponse, AssertIntegrityRequest,
  err_unauthorized, err_device_not_trusted, err_session_expired, err_session_revoked,
  err_invalid_token, err_timestamp_out_of_window,
}
use nearby_payments_api.Api.Auth.Store.{
  Tables, Step, get_user_by_id, get_device_by_id, create_device_integrity_record,
  get_integrity_record_by_id, get_session_by_access_token_hash, get_session_by_refresh_token_hash,
  update_session_tokens, revoke_session_row,
}

-- What the rest of the world answers during one call of the service.
pub record World : Type 0 where
  -- whether the database and Redis answer
  pub up : Step → Bool
  -- `utils.NowUnix` at its first and its second call
  pub now : ℕ
  pub later : ℕ
  -- the clock of Redis, in milliseconds
  pub redis_now : ℕ
  -- `utils.NewID` for each kind of row
  pub user_id : Text
  pub identity_id : Text
  pub salt_id : Text
  pub device_id : Text
  pub integrity_id : Text
  pub session_id : Text
  -- `utils.NewToken` at its first and its second call, and `utils.RandomHex`; they may fail
  pub access_token : Option Text
  pub refresh_token : Option Text
  pub random_hex : Option Text

abbrev pub access_token_ttl : ℕ
access_token_ttl = 15 * 60

abbrev pub refresh_token_ttl : ℕ
refresh_token_ttl = 30 * 24 * 60 * 60

-- `utils.InWindow`, with the overflow of int64.
unfoldable pub in_window : ℕ → ℤ → ℤ → Bool
unfolding wrap64
in_window now ts skew_seconds =
    let diff = wrap64 (pos now -ℤ ts) in
    let size = if ltb_ℤ diff (pos 0) then wrap64 (pos 0 -ℤ diff) else diff in
    not (ltb_ℤ skew_seconds size)

module _ (sha256 : Text → Text) (w : World) where
  open w use {up, now, later, integrity_id, access_token, refresh_token}

  -- The end of RefreshSession.
  unfoldable pub rotate : Session → Action Tables SessionRefreshResponse
  rotate sess = do
    new_access ← or_raise (app err_internal) access_token
    new_refresh ← or_raise (app err_internal) refresh_token
    update_session_tokens up sess.id (sha256 new_access) (sha256 new_refresh)
        (now + access_token_ttl) (now + refresh_token_ttl)
    pure (record { access_token = new_access; expires_at = now + access_token_ttl })

  -- The session of a refresh token.
  unfoldable pub refreshable_session : Text → Action Tables Session
  refreshable_session refresh_token = do
    found ← or_else (app err_internal) (get_session_by_refresh_token_hash up (sha256 refresh_token))
    sess ← or_raise err_invalid_token found
    ensure (not (text_eq sess.status (codes "revoked"))) err_session_revoked
    ensure (not (ltb sess.refresh_expires_at now)) err_session_expired
    pure sess

  unfoldable pub refresh_session : Text → Action Tables SessionRefreshResponse
  refresh_session refresh_token = do sess ← refreshable_session refresh_token; rotate sess

  unfoldable pub revoke_session : SessionContext → Action Tables (Unit {0})
  revoke_session sess_ctx = revoke_session_row up sess_ctx.session.id

  -- The session of an access token.
  unfoldable pub live_session : Text → Action Tables Session
  live_session raw_token = do
    found ← or_else (app err_internal) (get_session_by_access_token_hash up (sha256 raw_token))
    sess ← or_raise err_invalid_token found
    ensure (not (text_eq sess.status (codes "revoked"))) err_session_revoked
    ensure (not (ltb sess.expires_at now)) err_session_expired
    pure sess

  unfoldable pub active_user : Text → Action Tables User
  active_user user_id = do
    found ← or_else (app err_internal) (get_user_by_id up user_id)
    user ← or_raise (app err_internal) found
    ensure (text_eq user.status (codes "active")) err_unauthorized
    pure user

  unfoldable pub active_device : Text → Action Tables Device
  active_device device_id = do
    found ← or_else (app err_internal) (get_device_by_id up device_id)
    device ← or_raise (app err_internal) found
    ensure (text_eq device.status (codes "active")) err_device_not_trusted
    pure device

  unfoldable pub context_of : Session → User → Device → Action Tables SessionContext
  context_of sess user device = do
    integrity ← or_else (app err_internal) (get_integrity_record_by_id up sess.device_integrity_id)
    pure (record { session = sess; user = user; device = device; integrity = integrity })

  unfoldable pub verify_access_token : Text → Action Tables SessionContext
  verify_access_token raw_token = do
    sess ← live_session raw_token
    user ← active_user sess.user_id
    device ← active_device sess.device_id
    context_of sess user device

  unfoldable pub assert_device_integrity :
      SessionContext → AssertIntegrityRequest → Action Tables (Unit {0})
  unfolding in_window
  assert_device_integrity sess_ctx req = do
    ensure (not (text_eq req.device_integrity.provider [])) err_device_not_trusted
    ensure (in_window later (div_ℤ req.timestamp_ms 1000) (pos 300)) err_timestamp_out_of_window
    create_device_integrity_record up (record {
      id = integrity_id;
      device_id = sess_ctx.device.id;
      provider = req.device_integrity.provider;
      provider_key_id = req.device_integrity.key_id;
      public_key = [];
      sign_count = 0;
      last_verdict = [];
      status = codes "active";
      created_at = now;
      updated_at = now;
    })
