-- ===== src/Api/Auth/Login.antt =====
-- apps/api/internal/domain/auth/service.go: OAuthComplete from the claims on.
use nearby_payments_api.Base.{◌+◌, Bool, none, some, [], Text, codes, text_eq, if◌then◌else◌}
use nearby_payments_api.Api.Errors.{app, wrapped, err_internal, Action, pure}
use nearby_payments_api.Api.Auth.Actions.{◌>>=◌, ◌>>◌, or_raise, ensure}
use nearby_payments_api.Api.Auth.Types.{
  Session, OauthCompleteRequest, OauthCompleteResponse, err_unauthorized,
}
use nearby_payments_api.Api.Auth.Store.{
  Tables, create_user, get_user_by_id, get_oauth_identity, create_oauth_identity, create_device,
  create_device_integrity_record, create_session, get_or_create_zk_login_salt, create_zk_login_salt,
  upsert_wallet_binding,
}
use nearby_payments_api.Api.Auth.Sessions.{World, access_token_ttl, refresh_token_ttl}
use nearby_payments_api.Api.Auth.Google.{Object, as_string, as_bool, Libraries, Google}
use nearby_payments_api.Api.Auth.Claims.{claims_of}

module _ (lib : Libraries) (google : Google) where
  open lib use {sha256, marshal_state, unmarshal_state, unmarshal_object, encode, post_form, get}

  module _ (w : World) where
    open w use {up, now}

    -- A new user with the identity.
    unfoldable pub new_user : (iss sub aud email : Text) → Bool → Action Tables Text
    new_user iss sub aud email email_verified = do
      create_user up
          (record { id = w.user_id; status = codes "active"; created_at = now; updated_at = now })
      create_oauth_identity up (record {
        id = w.identity_id;
        user_id = w.user_id;
        issuer = iss;
        subject = sub;
        audience = aud;
        email = email;
        email_verified = email_verified;
        created_at = now;
      })
      pure w.user_id

    -- The user of the identity.
    unfoldable pub user_of : (iss sub aud email : Text) → Bool → Action Tables Text
    unfolding new_user
    user_of iss sub aud email email_verified = do
      existing ← get_oauth_identity up iss sub aud
      elim existing [ some oi ↦ pure oi.user_id | none ↦ new_user iss sub aud email email_verified ]

    -- The user must be active; a query that fails and a user who is missing are one error.
    unfoldable pub require_active : Text → Action Tables (Unit {0})
    require_active user_id = do
      found ← get_user_by_id up user_id
      user ← or_raise wrapped found
      ensure (text_eq user.status (codes "active")) err_unauthorized

    unfoldable pub new_salt : (user_id iss sub aud : Text) → Action Tables Text
    new_salt user_id iss sub aud = do
      salt_hex ← or_raise (app err_internal) w.random_hex
      create_zk_login_salt up (record {
        id = w.salt_id;
        user_id = user_id;
        issuer = iss;
        subject = sub;
        audience = aud;
        salt = salt_hex;
        created_at = now;
      })
      pure salt_hex

    unfoldable pub salt_of : (user_id iss sub aud : Text) → Action Tables Text
    unfolding new_salt
    salt_of user_id iss sub aud = do
      found ← get_or_create_zk_login_salt up iss sub aud
      elim found [ some z ↦ pure z.salt | none ↦ new_salt user_id iss sub aud ]

    unfoldable pub bind_wallet : (user_id address iss aud : Text) → Action Tables (Unit {0})
    bind_wallet user_id address iss aud =
        if text_eq address []
        then pure tt
        else upsert_wallet_binding up (record {
          user_id = user_id;
          sui_address = address;
          auth_scheme = codes "zklogin";
          issuer = iss;
          audience = aud;
          created_at = now;
          updated_at = now;
        })

    unfoldable pub new_device : Text → OauthCompleteRequest → Action Tables (Unit {0})
    new_device user_id req = do
      create_device up (record {
        id = w.device_id;
        user_id = user_id;
        platform = req.platform;
        os_version = req.os_version;
        app_bundle_id = req.app_bundle_id;
        status = codes "active";
        created_at = now;
        updated_at = now;
      })
      create_device_integrity_record up (record {
        id = w.integrity_id;
        device_id = w.device_id;
        provider = req.device_integrity.provider;
        provider_key_id = req.device_integrity.key_id;
        public_key = [];
        sign_count = 0;
        last_verdict = [];
        status = codes "active";
        created_at = now;
        updated_at = now;
      })

    -- The row of the new session.
    abbrev pub session_row : (user_id access refresh : Text) → Session
    session_row user_id access refresh = record {
      id = w.session_id;
      user_id = user_id;
      device_id = w.device_id;
      device_integrity_id = w.integrity_id;
      access_token_hash = sha256 access;
      refresh_token_hash = sha256 refresh;
      issued_at = now;
      expires_at = now + access_token_ttl;
      refresh_expires_at = now + refresh_token_ttl;
      status = codes "active";
    }

    -- The session, its access token and its refresh token.
    unfoldable pub new_session : Text → Action Tables (Text × Text)
    new_session user_id = do
      access ← or_raise (app err_internal) w.access_token
      refresh ← or_raise (app err_internal) w.refresh_token
      create_session up (session_row user_id access refresh)
      pure (access, refresh)

    -- The wallet, the device, the session and the response.
    unfoldable pub enroll :
        (user_id salt iss aud : Text) → OauthCompleteRequest → Action Tables OauthCompleteResponse
    enroll user_id salt iss aud req = do
      bind_wallet user_id req.sui_address iss aud
      new_device user_id req
      tokens ← new_session user_id
      pure (record {
        access_token = tokens.0;
        refresh_token = tokens.1;
        expires_at = now + access_token_ttl;
        refresh_expires_at = now + refresh_token_ttl;
        user_id = user_id;
        sui_address = req.sui_address;
        zk_login_salt = salt;
      })

    -- What follows the user.
    unfoldable pub admit_user :
        (user_id iss sub aud : Text) → OauthCompleteRequest → Action Tables OauthCompleteResponse
    admit_user user_id iss sub aud req = do
      require_active user_id
      salt ← salt_of user_id iss sub aud
      enroll user_id salt iss aud req

    -- What follows the claims.
    unfoldable pub sign_in : Object → OauthCompleteRequest → Action Tables OauthCompleteResponse
    sign_in claims req =
        let sub = as_string (claims (codes "sub")) in
        let iss = as_string (claims (codes "iss")) in
        let aud = as_string (claims (codes "aud")) in
        do
          user_id ←
              user_of iss sub aud (as_string (claims (codes "email")))
                (as_bool (claims (codes "email_verified")))
          admit_user user_id iss sub aud req

    unfoldable pub oauth_complete : OauthCompleteRequest → Action Tables OauthCompleteResponse
    oauth_complete req = do claims ← claims_of lib google w req; sign_in claims req
