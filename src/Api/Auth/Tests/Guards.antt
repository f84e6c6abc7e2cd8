-- ===== src/Api/Auth/Tests/Guards.antt =====
-- Runs of revocation, of the states and of the nonces.
use nearby_payments_api.Base.{
  ℤ, pos, div_ℤ, ◌≡◌, refl, sym, ◌∙◌, ◌≢◌, ◌↔◌, true, Option, some, List, [], ◌∷◌, Text, codes,
  arith, text_eq, if◌then◌else◌,
}
use nearby_payments_api.Api.Errors.{err}
use nearby_payments_api.Api.Replies.{answered, Handler}
use nearby_payments_api.Api.Rows.{find, keyed}
use nearby_payments_api.Api.Auth.Types.{
  SessionContext, OauthCompleteRequest, err_session_revoked, err_oauth_state_mismatch,
}
use nearby_payments_api.Api.Auth.Store.{Tables, session_id_of}
use nearby_payments_api.Api.Auth.Sessions.{World, in_window, refresh_session, verify_access_token}
use nearby_payments_api.Api.Auth.Login.{oauth_complete}
use nearby_payments_api.Api.Auth.Calls.{Call, complete, refresh, revoke_call, verify, calls}
use nearby_payments_api.Api.Auth.Revoked.{revoked_forever}
use nearby_payments_api.Api.Auth.Window.{IsNear, in_window_iff}
use nearby_payments_api.Api.Auth.States.{oauth_complete-once}
use nearby_payments_api.Api.Auth.Middleware.{Request, admit}
use nearby_payments_api.Api.Auth.Tests.{
  digest, world, session, tables, context, libraries, google, tables-IsKeyed, apart,
}

abbrev later : World
later = record world { later = 1100 }

abbrev requests : List (World × Call)
requests = (world, refresh (codes "f1")) ∷ (world, verify (codes "a1")) ∷ []

abbrev after_revoke : Tables
after_revoke = calls libraries google ((world, revoke_call context) ∷ requests) tables

found_s1 : find (keyed session_id_of context.session.id) tables.sessions ≡ some session
unfolding text_eq
found_s1 = refl

revoked_forever_example :
    (verify_access_token digest world (codes "a1") after_revoke
      ≡ (err err_session_revoked, after_revoke))
    × (refresh_session digest world (codes "f1") after_revoke
        ≡ (err err_session_revoked, after_revoke))
revoked_forever_example =
    revoked_forever libraries google world context session tables requests tables-IsKeyed found_s1
      refl after_revoke world (codes "a1") (codes "f1") refl refl refl refl refl

in_window_iff_example :
    (in_window 1000 (div_ℤ (pos 900999) 1000) (pos 300) ≡ true)
    ↔ IsNear 1000 (div_ℤ (pos 900999) 1000) 300
in_window_iff_example = in_window_iff 1000 (pos 900999) (omega arith) (omega arith, omega arith)

abbrev request : OauthCompleteRequest
request = record {
  code = codes "code";
  state = codes "q1";
  code_verifier = codes "v";
  device_integrity = record {
    provider = codes "stub";
    assertion = [];
    key_id = [];
    nonce = [];
    timestamp_ms = pos 0;
    request_hash = [];
    integrity_token = [];
  };
  local_proof_public_key = [];
  platform = codes "ios";
  os_version = [];
  app_bundle_id = [];
  sui_address = [];
}

abbrev after_complete : Tables
after_complete = calls libraries google ((world, complete request) ∷ requests) tables

other_state : (t : Text) → world.random_hex ≡ some t → t ≢ codes "q1"
unfolding text_eq
other_state t e q =
    let same : t ≡ codes "q2" = cc in apart (codes "q2") (codes "q1") refl (sym same ∙ q)

oauth_complete-once_example :
    oauth_complete libraries google world request after_complete
    ≡ (err err_oauth_state_mismatch, after_complete)
oauth_complete-once_example =
    oauth_complete-once libraries google world world request request tables after_complete requests
      refl (other_state, (other_state, tt)) refl refl

abbrev header : Text → Text
header t =
    if text_eq t (codes "Authorization")
    then codes "Bearer a1"
    else if text_eq t (codes "X-Body-Hash")
    then []
    else codes "7"

abbrev http : Request
http = record { header = header; body = some [] }

abbrev scan : Text → Option ℤ
scan t = some (pos 900000)

abbrev admitted : Tables
admitted = (admit digest scan world (codes "high") http tables).1

abbrev accepts : SessionContext → Request → Handler Tables Text
accepts ctx r db = (answered 200 (codes "done"), db)
