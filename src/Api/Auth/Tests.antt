-- ===== src/Api/Auth/Tests.antt =====
-- One user with one device and one session.
mod Credentials
mod Guards
mod Twice
use nearby_payments_api.Base.{
  ◌≡◌, refl, sym, ap, ◌∙◌, ◌≢◌, ◌↔◌, true, false, none, some, [], ◌∷◌, ◌++◌, Text, codes, arith,
  text_eq, text_eq_iff,
}
use nearby_payments_api.Api.Errors.{ok}
use nearby_payments_api.Api.Rows.{find, keyed}
use nearby_payments_api.Api.Auth.Actions.{◌>>=◌, or_else, or_raise, ensure}
use nearby_payments_api.Api.Auth.Types.{
  User, Device, Session, SessionContext, SessionRefreshResponse,
}
use nearby_payments_api.Api.Auth.Store.{
  Tables, access_hash_of, refresh_hash_of, get_user_by_id, get_device_by_id,
  get_integrity_record_by_id, get_session_by_access_token_hash, get_session_by_refresh_token_hash,
  update_session_tokens, set_tokens,
}
use nearby_payments_api.Api.Auth.Sessions.{
  World, rotate, refreshable_session, refresh_session, live_session, active_user, active_device,
  context_of, verify_access_token,
}
use nearby_payments_api.Api.Auth.Google.{Libraries, Google}
use nearby_payments_api.Api.Auth.Verify.{IsAdmitted, verify_access_token_iff}
use nearby_payments_api.Api.Auth.Rotation.{IsKeyed, IsReplaced, refresh_session-rotates}

-- A hash without collisions, for the tests.
abbrev digest : Text → Text
digest t = codes "h" ++ t

abbrev world : World
world = record {
  up = λ s. true;
  now = 1000;
  later = 1000;
  redis_now = 1000000;
  user_id = codes "u2";
  identity_id = codes "i2";
  salt_id = codes "z2";
  device_id = codes "d2";
  integrity_id = codes "r2";
  session_id = codes "s2";
  access_token = some (codes "a2");
  refresh_token = some (codes "f2");
  random_hex = some (codes "q2");
}

abbrev session : Session
session = record {
  id = codes "s1";
  user_id = codes "u1";
  device_id = codes "d1";
  device_integrity_id = codes "r1";
  access_token_hash = codes "ha1";
  refresh_token_hash = codes "hf1";
  issued_at = 900;
  expires_at = 1800;
  refresh_expires_at = 9000;
  status = codes "active";
}

abbrev user : User
user = record { id = codes "u1"; status = codes "active"; created_at = 1; updated_at = 1 }

abbrev device : Device
device = record {
  id = codes "d1";
  user_id = codes "u1";
  platform = codes "ios";
  os_version = [];
  app_bundle_id = [];
  status = codes "active";
  created_at = 1;
  updated_at = 1;
}

abbrev tables : Tables
tables = record {
  users = user ∷ [];
  identities = [];
  devices = device ∷ [];
  integrity = [];
  sessions = session ∷ [];
  salts = [];
  wallets = [];
  redis = (codes "oauth:state:q1", codes "state", 1600000) ∷ [];
}

abbrev context : SessionContext
context = record { session = session; user = user; device = device; integrity = none }

abbrev libraries : Libraries
libraries = record {
  sha256 = digest;
  marshal_state = λ s. s.zk_login_nonce;
  unmarshal_state = λ t. none;
  unmarshal_object = λ t. none;
  encode = λ l. [];
  post_form = λ u l. none;
  get = λ u. none;
}

abbrev google : Google
google = record { client_id = codes "c"; client_secret = codes "s"; redirect_uri = codes "r" }

tables-IsKeyed : IsKeyed tables.sessions
tables-IsKeyed = record {
  ids = (refl, tt);
  access_hashes = (refl, tt);
  refresh_hashes = (refl, tt);
}

verify_access_token_iff_example :
    (verify_access_token digest world (codes "a1") tables ≡ (ok context, tables))
    ↔ IsAdmitted digest 1000 (codes "a1") tables context
verify_access_token_iff_example =
    verify_access_token_iff digest world (codes "a1") tables context (λ s. refl)

-- The token of the session is admitted.
verified : verify_access_token digest world (codes "a1") tables ≡ (ok context, tables)
unfolding verify_access_token live_session active_user active_device context_of ◌>>=◌ or_else
    or_raise ensure get_session_by_access_token_hash get_user_by_id get_device_by_id
    get_integrity_record_by_id text_eq
verified = refl

abbrev response : SessionRefreshResponse
response = record { access_token = codes "a2"; expires_at = 1900 }

abbrev refreshed : Tables
refreshed = (refresh_session digest world (codes "f1") tables).1

refresh_answer : refresh_session digest world (codes "f1") tables ≡ (ok response, refreshed)
unfolding refresh_session refreshable_session rotate ◌>>=◌ or_else or_raise ensure
    get_session_by_refresh_token_hash update_session_tokens set_tokens text_eq
refresh_answer = refl

both_tokens :
    find (keyed access_hash_of (digest (codes "a1"))) tables.sessions
    ≡ find (keyed refresh_hash_of (digest (codes "f1"))) tables.sessions
unfolding text_eq
both_tokens = refl

apart : (s t : Text) → text_eq s t ≡ false → s ≢ t
apart s t e q = let hit = (text_eq_iff s t).1 q in ground arith

new_access : digest (codes "a2") ≢ digest (codes "a1")
unfolding text_eq
new_access = apart (digest (codes "a2")) (digest (codes "a1")) refl

new_refresh : (t : Text) → world.refresh_token ≡ some t → digest t ≢ digest (codes "f1")
unfolding text_eq
new_refresh t e q =
    let same : t ≡ codes "f2" = cc in
    apart (digest (codes "f2")) (digest (codes "f1")) refl (ap digest (sym same) ∙ q)

refresh_session-rotates_example :
    IsReplaced digest world world (codes "f1") (codes "a1") response tables refreshed
refresh_session-rotates_example =
    refresh_session-rotates digest world world tables refreshed (codes "f1") (codes "a1") response
      tables-IsKeyed refresh_answer both_tokens new_access new_refresh refl refl (omega arith)
