-- ===== src/Api/Auth/Claims.antt =====
-- apps/api/internal/domain/auth/service.go: OAuthBegin, and OAuthComplete up to the claims.
use nearby_payments_api.Base.{ℕ, ◌+◌, ◌*◌, Bool, not, ◌&&◌, ◌||◌, [], ◌∷◌, ◌++◌, codes, text_eq}
use nearby_payments_api.Api.Errors.{app, err_internal, Action, pure}
use nearby_payments_api.Api.Auth.Actions.{◌>>=◌, ◌>>◌, or_else, or_raise, ensure}
use nearby_payments_api.Api.Auth.Types.{
  OauthBeginRequest, OauthBeginResponse, OauthCompleteRequest, err_oauth_state_mismatch,
  err_oauth_failed, err_oauth_provider_unsupported,
}
use nearby_payments_api.Api.Auth.Store.{Tables, redis_set, redis_get_del}
use nearby_payments_api.Api.Auth.Sessions.{World}
use nearby_payments_api.Api.Auth.Google.{
  Object, as_string, OauthState, Libraries, Google, exchange_google_code, verify_google_id_token,
}
use nearby_payments_api.Api.Auth.Keys.{state_key, set_key, get_del}

-- `oauthStateTTL`, in milliseconds.
abbrev pub oauth_state_ttl : ℕ
oauth_state_ttl = 10 * 60 * 1000

module _ (lib : Libraries) (google : Google) where
  open lib use {sha256, marshal_state, unmarshal_state, unmarshal_object, encode, post_form, get}

  -- The checks of the claims against the state.
  unfoldable pub are_accepted : Object → OauthState → Bool
  are_accepted claims state =
      not (
        text_eq (as_string (claims (codes "sub"))) []
        || (text_eq (as_string (claims (codes "iss"))) []
            || text_eq (as_string (claims (codes "aud"))) []))
      && (text_eq state.zk_login_nonce []
          || text_eq (as_string (claims (codes "nonce"))) state.zk_login_nonce)

  module _ (w : World) where
    open w use {up, now}

    unfoldable pub oauth_begin : OauthBeginRequest → Action Tables OauthBeginResponse
    unfolding set_key
    oauth_begin req = do
      ensure (text_eq req.provider (codes "google")) err_oauth_provider_unsupported
      state ← or_raise (app err_internal) w.random_hex
      or_else (app err_internal) (
          set_key (up redis_set) (w.redis_now + oauth_state_ttl) (state_key state) (
            marshal_state (record {
              code_challenge = req.code_challenge;
              code_challenge_method = req.code_challenge_method;
              zk_login_nonce = req.zk_login_nonce;
            })))
      pure (record {
        state = state;
        auth_url =
            codes "https://accounts.google.com/o/oauth2/v2/auth?"
            ++ encode (
                (codes "client_id", google.client_id)
                ∷ (codes "redirect_uri", google.redirect_uri)
                ∷ (codes "response_type", codes "code")
                ∷ (codes "scope", codes "openid email profile")
                ∷ (codes "state", state)
                ∷ (codes "nonce", req.zk_login_nonce)
                ∷ (codes "code_challenge", req.code_challenge)
                ∷ (codes "code_challenge_method", req.code_challenge_method)
                ∷ (codes "access_type", codes "offline")
                ∷ []);
      })

    -- The claims of a state that is used up and a code that Google accepts.
    unfoldable pub claims_of : OauthCompleteRequest → Action Tables Object
    unfolding get_del exchange_google_code verify_google_id_token are_accepted
    claims_of req = do
      state_json ←
          or_else err_oauth_state_mismatch
            (get_del (up redis_get_del) w.redis_now (state_key req.state))
      state ← or_raise err_oauth_state_mismatch (unmarshal_state state_json)
      id_token ←
          or_raise err_oauth_failed (exchange_google_code lib google req.code req.code_verifier)
      claims ← or_raise err_oauth_failed (verify_google_id_token lib google id_token)
      ensure (are_accepted claims state) err_oauth_failed
      pure claims
