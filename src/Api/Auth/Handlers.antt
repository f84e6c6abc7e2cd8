-- ===== src/Api/Auth/Handlers.antt =====
-- apps/api/internal/domain/auth/handler.go, but for the credential and the page of the callback: the
-- decoded body and the session of the context are given.
use nearby_payments_api.Base.{
  ℤ, pos, negsuc, ◌==◌, Bool, false, not, ◌&&◌, ◌||◌, Option, none, some, Text, [], codes, text_eq,
  if◌then◌else◌,
}
use nearby_payments_api.Api.Errors.{err_bad_request}
use nearby_payments_api.Api.Replies.{Handler, refuse, with_body, respond, validation_error}
use nearby_payments_api.Api.Auth.Types.{
  SessionContext, OauthBeginRequest, OauthBeginResponse, OauthCompleteRequest,
  OauthCompleteResponse, SessionRefreshResponse, AssertIntegrityRequest, err_unauthorized,
}
use nearby_payments_api.Api.Auth.Store.{Tables}
use nearby_payments_api.Api.Auth.Sessions.{
  World, refresh_session, revoke_session, assert_device_integrity,
}
use nearby_payments_api.Api.Auth.Google.{Libraries, Google}
use nearby_payments_api.Api.Auth.Claims.{oauth_begin}
use nearby_payments_api.Api.Auth.Login.{oauth_complete}

-- `GetSession(r.Context())`, which is nil where nobody is signed in.
abbrev pub with_context :
    {A : Type 0} → Option SessionContext → (SessionContext → Handler Tables A) → Handler Tables A
with_context none h = refuse err_unauthorized
with_context (some ctx) h = h ctx

abbrev is_zero : ℤ → Bool
is_zero (pos n) = n == 0
is_zero (negsuc n) = false

abbrev or_s256 : Text → Text
or_s256 method = if text_eq method [] then codes "S256" else method

module _ (lib : Libraries) (google : Google) (w : World) where
  unfoldable pub handle_oauth_begin : Option OauthBeginRequest → Handler Tables OauthBeginResponse
  handle_oauth_begin body = with_body body λ req.
      if text_eq req.provider [] || (text_eq req.code_challenge [] || text_eq req.zk_login_nonce [])
      then refuse
          (validation_error (codes "provider, codeChallenge, and zkLoginNonce are required"))
      else respond 200 (
          oauth_begin lib google w
            (record req { code_challenge_method = or_s256 req.code_challenge_method }))

  unfoldable pub handle_oauth_complete :
      Option OauthCompleteRequest → Handler Tables OauthCompleteResponse
  handle_oauth_complete body = with_body body λ req.
      if text_eq req.code [] || (text_eq req.state [] || text_eq req.code_verifier [])
      then refuse (validation_error (codes "code, state, and codeVerifier are required"))
      else if not (text_eq req.platform (codes "ios"))
          && not (text_eq req.platform (codes "android"))
      then refuse (validation_error (codes "platform must be ios or android"))
      else respond 200 (oauth_complete lib google w req)

  -- The body is the refresh token.
  unfoldable pub handle_refresh_session : Option Text → Handler Tables SessionRefreshResponse
  handle_refresh_session body = with_body body λ token.
      if text_eq token []
      then refuse err_bad_request
      else respond 200 (refresh_session lib.sha256 w token)

  unfoldable pub handle_revoke_session : Option SessionContext → Handler Tables (Unit {0})
  handle_revoke_session session =
      with_context session λ ctx. respond 204 (revoke_session lib.sha256 w ctx)

  unfoldable pub handle_assert_device_integrity :
      Option SessionContext → Option AssertIntegrityRequest → Handler Tables (Unit {0})
  handle_assert_device_integrity session body = with_context session λ ctx. with_body body λ req.
      if text_eq req.device_integrity.provider [] || is_zero req.timestamp_ms
      then refuse (validation_error (codes "deviceIntegrity.provider and timestampMs are required"))
      else respond 204 (assert_device_integrity lib.sha256 w ctx req)
