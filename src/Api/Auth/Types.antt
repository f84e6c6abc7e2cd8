-- ===== src/Api/Auth/Types.antt =====
-- apps/api/internal/domain/auth/types.go and errors.go. Times are seconds since 1970.
use nearby_payments_api.Base.{ℕ, ℤ, Bool, Option, Text, codes}
use nearby_payments_api.Api.Errors.{Error, new_error}

pub record User : Type 0 where
  pub id : Text
  pub status : Text
  pub created_at : ℕ
  pub updated_at : ℕ

pub record OauthIdentity : Type 0 where
  pub id : Text
  pub user_id : Text
  pub issuer : Text
  pub subject : Text
  pub audience : Text
  pub email : Text
  pub email_verified : Bool
  pub created_at : ℕ

pub record Device : Type 0 where
  pub id : Text
  pub user_id : Text
  pub platform : Text
  pub os_version : Text
  pub app_bundle_id : Text
  pub status : Text
  pub created_at : ℕ
  pub updated_at : ℕ

pub record DeviceIntegrityRecord : Type 0 where
  pub id : Text
  pub device_id : Text
  pub provider : Text
  pub provider_key_id : Text
  pub public_key : Text
  pub sign_count : ℕ
  pub last_verdict : Text
  pub status : Text
  pub created_at : ℕ
  pub updated_at : ℕ

pub record Session : Type 0 where
  pub id : Text
  pub user_id : Text
  pub device_id : Text
  pub device_integrity_id : Text
  pub access_token_hash : Text
  pub refresh_token_hash : Text
  pub issued_at : ℕ
  pub expires_at : ℕ
  pub refresh_expires_at : ℕ
  pub status : Text

pub record ZkLoginSalt : Type 0 where
  pub id : Text
  pub user_id : Text
  pub issuer : Text
  pub subject : Text
  pub audience : Text
  pub salt : Text
  pub created_at : ℕ

pub record SessionContext : Type 0 where
  pub session : Session
  pub user : User
  pub device : Device
  -- nil where the session's integrity record is missing
  pub integrity : Option DeviceIntegrityRecord

pub record OauthBeginRequest : Type 0 where
  pub provider : Text
  pub code_challenge : Text
  pub code_challenge_method : Text
  pub zk_login_nonce : Text

pub record OauthBeginResponse : Type 0 where
  pub state : Text
  pub auth_url : Text

pub record DeviceIntegrityProof : Type 0 where
  pub provider : Text
  pub assertion : Text
  pub key_id : Text
  pub nonce : Text
  pub timestamp_ms : ℤ
  pub request_hash : Text
  pub integrity_token : Text

pub record OauthCompleteRequest : Type 0 where
  pub code : Text
  pub state : Text
  pub code_verifier : Text
  pub device_integrity : DeviceIntegrityProof
  pub local_proof_public_key : Text
  pub platform : Text
  pub os_version : Text
  pub app_bundle_id : Text
  pub sui_address : Text

pub record OauthCompleteResponse : Type 0 where
  pub access_token : Text
  pub refresh_token : Text
  pub expires_at : ℕ
  pub refresh_expires_at : ℕ
  pub user_id : Text
  pub sui_address : Text
  pub zk_login_salt : Text

pub record SessionRefreshResponse : Type 0 where
  pub access_token : Text
  pub expires_at : ℕ

pub record AssertIntegrityRequest : Type 0 where
  pub device_integrity : DeviceIntegrityProof
  pub timestamp_ms : ℤ

abbrev pub err_unauthorized : Error
err_unauthorized = new_error (codes "unauthorized") (codes "Unauthorized") 401

abbrev pub err_high_fidelity_required : Error
err_high_fidelity_required =
    new_error (codes "high_fidelity_required") (codes "High fidelity authentication is required")
      403

abbrev pub err_device_not_trusted : Error
err_device_not_trusted = new_error (codes "device_not_trusted") (codes "Device is not trusted") 403

abbrev pub err_replay_detected : Error
err_replay_detected = new_error (codes "replay_detected") (codes "Request replay detected") 409

abbrev pub err_session_expired : Error
err_session_expired = new_error (codes "session_expired") (codes "Session has expired") 401

abbrev pub err_session_revoked : Error
err_session_revoked = new_error (codes "session_revoked") (codes "Session has been revoked") 401

abbrev pub err_invalid_token : Error
err_invalid_token = new_error (codes "invalid_token") (codes "Invalid token") 401

abbrev pub err_oauth_state_mismatch : Error
err_oauth_state_mismatch =
    new_error (codes "oauth_state_mismatch") (codes "OAuth state mismatch") 400

abbrev pub err_oauth_failed : Error
err_oauth_failed = new_error (codes "oauth_failed") (codes "OAuth authentication failed") 400

abbrev pub err_oauth_provider_unsupported : Error
err_oauth_provider_unsupported =
    new_error (codes "oauth_provider_unsupported") (codes "OAuth provider is not supported") 400

abbrev pub err_timestamp_out_of_window : Error
err_timestamp_out_of_window =
    new_error (codes "timestamp_out_of_window")
      (codes "Request timestamp is outside allowed window") 400

abbrev pub err_body_hash_mismatch : Error
err_body_hash_mismatch =
    new_error (codes "body_hash_mismatch") (codes "Request body hash does not match") 400
