-- ===== src/Api/Auth/Calls.antt =====
-- The service of apps/api/internal/domain/auth/service.go over its life: calls of its methods that
-- change the tables, one after the other, each with what the world answers.
use nearby_payments_api.Base.{List, [], ◌∷◌, Text}
use nearby_payments_api.Api.Auth.Types.{
  SessionContext, OauthBeginRequest, OauthCompleteRequest, AssertIntegrityRequest,
}
use nearby_payments_api.Api.Auth.Store.{Tables}
use nearby_payments_api.Api.Auth.Sessions.{
  World, refresh_session, revoke_session, verify_access_token, assert_device_integrity,
}
use nearby_payments_api.Api.Auth.Google.{Libraries, Google}
use nearby_payments_api.Api.Auth.Claims.{oauth_begin}
use nearby_payments_api.Api.Auth.Login.{oauth_complete}

pub data Call : Type 0 where
  begin : OauthBeginRequest → Call
  complete : OauthCompleteRequest → Call
  refresh : Text → Call
  revoke_call : SessionContext → Call
  verify : Text → Call
  assert_integrity : SessionContext → AssertIntegrityRequest → Call

module _ (lib : Libraries) (google : Google) where
  -- The tables after a call.
  unfoldable pub call : World → Call → Tables → Tables
  unfolding oauth_begin oauth_complete refresh_session revoke_session verify_access_token
      assert_device_integrity
  call w (begin req) db = (oauth_begin lib google w req db).1
  call w (complete req) db = (oauth_complete lib google w req db).1
  call w (refresh token) db = (refresh_session lib.sha256 w token db).1
  call w (revoke_call ctx) db = (revoke_session lib.sha256 w ctx db).1
  call w (verify token) db = (verify_access_token lib.sha256 w token db).1
  call w (assert_integrity ctx req) db = (assert_device_integrity lib.sha256 w ctx req db).1

  unfoldable pub calls : List (World × Call) → Tables → Tables
  unfolding call
  calls [] db = db
  calls ((w, c) ∷ l) db = calls l (call w c db)
