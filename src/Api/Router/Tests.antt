-- ===== src/Api/Router/Tests.antt =====
-- A session that has expired, and an instance of the theorem on its refresh.
use nearby_payments_api.Base.{
  ◌≡◌, refl, true, none, some, [], ◌∷◌, Text, codes, arith, text_eq, if◌then◌else◌,
}
use nearby_payments_api.Api.Errors.{written_error}
use nearby_payments_api.Api.Replies.{answered, refused}
use nearby_payments_api.Api.Payment.Service.{has_prefix}
use nearby_payments_api.Api.Auth.Types.{Session, err_session_expired}
use nearby_payments_api.Api.Auth.Store.{Tables}
use nearby_payments_api.Api.Auth.Sessions.{World}
use nearby_payments_api.Api.Auth.Middleware.{Request, drop_prefix, extract_bearer_token}
use nearby_payments_api.Api.Router.{
  refresh, submit_intent, cancel_intent, guard_of, Handlers, dispatch, dispatch-expired,
}

abbrev world : World
world = record {
  up = λ s. true;
  now = 1801;
  later = 1801;
  redis_now = 1801000;
  user_id = codes "u2";
  identity_id = codes "i2";
  salt_id = codes "z2";
  device_id = codes "d2";
  integrity_id = codes "r2";
  session_id = codes "s2";
  access_token = some (codes "a2");
  refresh_token = some (codes "f2");
  random_hex = some (codes "q2");
}

abbrev expired : Session
expired = record {
  id = codes "s1";
  user_id = codes "u1";
  device_id = codes "d1";
  device_integrity_id = codes "r1";
  access_token_hash = codes "a1";
  refresh_token_hash = codes "f1";
  issued_at = 900;
  expires_at = 1800;
  refresh_expires_at = 9000;
  status = codes "active";
}

abbrev tables : Tables
tables = record {
  users = [];
  identities = [];
  devices = [];
  integrity = [];
  sessions = expired ∷ [];
  salts = [];
  wallets = [];
  redis = [];
}

abbrev request : Request
request = record {
  header = λ t. if text_eq t (codes "Authorization") then codes "Bearer a1" else [];
  body = some [];
}

abbrev handlers : Handlers Text
handlers route ctx r db = (answered 200 (codes "done"), db)

-- Mutations that are guarded in low fidelity.
low-run :
    (guard_of refresh ≡ some (codes "low"))
    × (guard_of submit_intent ≡ some (codes "low"))
    × (guard_of cancel_intent ≡ some (codes "low"))
unfolding guard_of
low-run = (refl, refl, refl)

dispatch-expired_example :
    (dispatch (λ t. t) (λ t. none) world handlers refresh request tables
      ≡ (refused (written_error err_session_expired), tables))
    × (guard_of refresh ≡ some (codes "low"))
unfolding guard_of extract_bearer_token drop_prefix has_prefix text_eq
dispatch-expired_example =
    dispatch-expired (λ t. t) (λ t. none) world handlers refresh (codes "low") request expired
      tables refl refl (λ e. ground (arith, e)) refl (λ e. ground (arith, e)) (omega arith)
