-- ===== src/Api/Auth/Tests/Twice.antt =====
-- One person signs in twice.
use nearby_payments_api.Base.{
  pos, ◌≡◌, refl, none, some, [], ◌∷◌, Text, codes, text_eq, if◌then◌else◌,
}
use nearby_payments_api.Api.Errors.{ok}
use nearby_payments_api.Api.Payment.Service.{has_prefix}
use nearby_payments_api.Api.Auth.Actions.{◌>>=◌, or_else, or_raise, ensure}
use nearby_payments_api.Api.Auth.Types.{OauthCompleteRequest, OauthCompleteResponse}
use nearby_payments_api.Api.Auth.Store.{
  Tables, create_user, add_user, get_user_by_id, get_oauth_identity, create_oauth_identity,
  add_identity, create_device, add_device, create_device_integrity_record, add_integrity,
  create_session, add_session, get_or_create_zk_login_salt, create_zk_login_salt, add_salt,
  upsert_wallet_binding, put_wallet,
}
use nearby_payments_api.Api.Auth.Sessions.{World}
use nearby_payments_api.Api.Auth.Google.{
  string, Object, Libraries, exchange_google_code, verify_google_id_token,
}
use nearby_payments_api.Api.Auth.Keys.{get_del, drop_key}
use nearby_payments_api.Api.Auth.Claims.{claims_of, are_accepted}
use nearby_payments_api.Api.Auth.Login.{
  oauth_complete, sign_in, user_of, new_user, require_active, salt_of, new_salt, bind_wallet,
  new_device, new_session, enroll, admit_user,
}
use nearby_payments_api.Api.Auth.Calls.{calls}
use nearby_payments_api.Api.Auth.SignIns.{oauth_complete-same}
use nearby_payments_api.Api.Auth.Tests.{digest, world, tables, google}

-- The claims of every identity token, and the answer to every code.
abbrev claims : Object
claims k =
    if text_eq k (codes "sub")
    then some (string (codes "g1"))
    else if text_eq k (codes "iss")
    then some (string (codes "google"))
    else if text_eq k (codes "aud")
    then some (string (codes "c"))
    else none

abbrev answer : Object
answer k = if text_eq k (codes "id_token") then some (string (codes "jwt")) else none

abbrev lib : Libraries
lib = record {
  sha256 = digest;
  marshal_state = λ s. s.zk_login_nonce;
  unmarshal_state =
      λ t. some (record { code_challenge = []; code_challenge_method = []; zk_login_nonce = [] });
  unmarshal_object = λ t. if text_eq t (codes "tokens") then some answer else some claims;
  encode = λ l. [];
  post_form = λ u l. some (record { status_code = 200; body = some (codes "tokens") });
  get = λ u. some (record { status_code = 200; body = some (codes "claims") });
}

abbrev request : Text → OauthCompleteRequest
request state = record {
  code = codes "code";
  state = state;
  code_verifier = codes "v";
  device_integrity = record {
    provider = codes "stub";
    assertion = [];
    key_id = [];
    nonce = [];
    timestamp_ms = pos 0;
    request_hash = [];
    integrity_token = [];
  };
  local_proof_public_key = [];
  platform = codes "ios";
  os_version = [];
  app_bundle_id = [];
  sui_address = codes "0xa";
}

abbrev two_states : Tables
two_states = record tables {
  redis = (codes "oauth:state:q1", [], 1600000) ∷ (codes "oauth:state:q2", [], 1600000) ∷ [];
}

abbrev next_world : World
next_world = record world {
  user_id = codes "u3";
  identity_id = codes "i3";
  salt_id = codes "z3";
  device_id = codes "d3";
  integrity_id = codes "r3";
  session_id = codes "s3";
  access_token = some (codes "a3");
  refresh_token = some (codes "f3");
  random_hex = some (codes "q3");
}

abbrev response : Text → Text → OauthCompleteResponse
response access refresh = record {
  access_token = access;
  refresh_token = refresh;
  expires_at = 1900;
  refresh_expires_at = 2593000;
  user_id = codes "u2";
  sui_address = codes "0xa";
  zk_login_salt = codes "q2";
}

abbrev claimed : Tables
claimed = (claims_of lib google world (request (codes "q1")) two_states).1

abbrev once : Tables
once = (oauth_complete lib google world (request (codes "q1")) two_states).1

abbrev claimed_again : Tables
claimed_again = (claims_of lib google next_world (request (codes "q2")) once).1

abbrev twice : Tables
twice = (oauth_complete lib google next_world (request (codes "q2")) once).1

first_claims : claims_of lib google world (request (codes "q1")) two_states ≡ (ok claims, claimed)
unfolding oauth_complete claims_of sign_in user_of new_user require_active salt_of new_salt
    bind_wallet new_device new_session enroll admit_user exchange_google_code verify_google_id_token
    are_accepted get_del drop_key ◌>>=◌ or_else or_raise ensure create_user add_user get_user_by_id
    get_oauth_identity create_oauth_identity add_identity create_device add_device
    create_device_integrity_record add_integrity create_session add_session
    get_or_create_zk_login_salt create_zk_login_salt add_salt upsert_wallet_binding put_wallet
    has_prefix text_eq
first_claims = refl

first_answer :
    oauth_complete lib google world (request (codes "q1")) two_states
    ≡ (ok (response (codes "a2") (codes "f2")), once)
unfolding oauth_complete claims_of sign_in user_of new_user require_active salt_of new_salt
    bind_wallet new_device new_session enroll admit_user exchange_google_code verify_google_id_token
    are_accepted get_del drop_key ◌>>=◌ or_else or_raise ensure create_user add_user get_user_by_id
    get_oauth_identity create_oauth_identity add_identity create_device add_device
    create_device_integrity_record add_integrity create_session add_session
    get_or_create_zk_login_salt create_zk_login_salt add_salt upsert_wallet_binding put_wallet
    has_prefix text_eq
first_answer = refl

next_claims :
    claims_of lib google next_world (request (codes "q2")) once ≡ (ok claims, claimed_again)
unfolding oauth_complete claims_of sign_in user_of new_user require_active salt_of new_salt
    bind_wallet new_device new_session enroll admit_user exchange_google_code verify_google_id_token
    are_accepted get_del drop_key ◌>>=◌ or_else or_raise ensure create_user add_user get_user_by_id
    get_oauth_identity create_oauth_identity add_identity create_device add_device
    create_device_integrity_record add_integrity create_session add_session
    get_or_create_zk_login_salt create_zk_login_salt add_salt upsert_wallet_binding put_wallet
    has_prefix text_eq
next_claims = refl

next_answer :
    oauth_complete lib google next_world (request (codes "q2")) once
    ≡ (ok (response (codes "a3") (codes "f3")), twice)
unfolding oauth_complete claims_of sign_in user_of new_user require_active salt_of new_salt
    bind_wallet new_device new_session enroll admit_user exchange_google_code verify_google_id_token
    are_accepted get_del drop_key ◌>>=◌ or_else or_raise ensure create_user add_user get_user_by_id
    get_oauth_identity create_oauth_identity add_identity create_device add_device
    create_device_integrity_record add_integrity create_session add_session
    get_or_create_zk_login_salt create_zk_login_salt add_salt upsert_wallet_binding put_wallet
    has_prefix text_eq
next_answer = refl

oauth_complete-same_example :
    ((response (codes "a3") (codes "f3")).user_id ≡ (response (codes "a2") (codes "f2")).user_id)
    × ((response (codes "a3") (codes "f3")).zk_login_salt
        ≡ (response (codes "a2") (codes "f2")).zk_login_salt)
unfolding calls
oauth_complete-same_example =
    oauth_complete-same lib google world next_world (request (codes "q1")) (request (codes "q2"))
      claims claims (response (codes "a2") (codes "f2")) (response (codes "a3") (codes "f3"))
      two_states claimed once once claimed_again twice [] first_claims first_answer refl next_claims
      refl refl refl next_answer
