-- ===== src/Api/Router.antt =====
-- apps/api/router/router.go: the routes and their guards. How chi finds the route of a request is not
-- modelled; the handlers are parameters.
mod Tests
use nearby_payments_api.Base.{
  ℤ, ◌≡◌, ◌<◌, ◌≢◌, refl, sym, ap, ◌∙◌, inl, inr, true, false, not, Option, none, some, [], Text,
  codes, arith, text_eq, text_eq-false, ltb, Bool-cases, lt→ltb,
}
use nearby_payments_api.Api.Errors.{written_error, Result, ok, err}
use nearby_payments_api.Api.Replies.{Reply, refused, Handler}
use nearby_payments_api.Api.Rows.{find, keyed}
use nearby_payments_api.Api.Auth.Actions.{◌>>=◌, ◌>>◌, or_else, or_raise, ensure}
use nearby_payments_api.Api.Auth.Actions.Binds.{bind-at, bind-err}
use nearby_payments_api.Api.Auth.Types.{
  Session, SessionContext, err_session_expired, err_unauthorized,
}
use nearby_payments_api.Api.Auth.Store.{
  Tables, session_by_access, access_hash_of, get_session_by_access_token_hash,
}
use nearby_payments_api.Api.Auth.Sessions.{World, live_session, verify_access_token}
use nearby_payments_api.Api.Auth.Middleware.{
  Request, extract_bearer_token, admit, middleware, serve_admitted,
}

pub data Route : Type 0 where
  health server_public_key oauth_begin oauth_callback_page oauth_complete : Route
  refresh revoke integrity credential : Route
  deposit_options deposit_history deposit : Route
  create_intent get_intent submit_intent cancel_intent get_payment : Route
  register_leaf name_task initiate_session get_session acknowledge_session bridge_webhook : Route

-- The fidelity of `auth.Middleware` before the route, if it is there.
unfoldable pub guard_of : Route → Option Text
guard_of health = none
guard_of server_public_key = none
guard_of oauth_begin = none
guard_of oauth_callback_page = none
guard_of oauth_complete = none
guard_of bridge_webhook = none
guard_of refresh = some (codes "low")
guard_of revoke = some (codes "low")
guard_of integrity = some (codes "high")
guard_of credential = some (codes "high")
guard_of deposit_options = some (codes "low")
guard_of deposit_history = some (codes "low")
guard_of deposit = some (codes "low")
guard_of create_intent = some (codes "high")
guard_of get_intent = some (codes "low")
guard_of submit_intent = some (codes "low")
guard_of cancel_intent = some (codes "low")
guard_of get_payment = some (codes "low")
guard_of register_leaf = some (codes "high")
guard_of name_task = some (codes "high")
guard_of initiate_session = some (codes "high")
guard_of get_session = some (codes "high")
guard_of acknowledge_session = some (codes "high")

-- What follows the guard of each route, with the session that the guard puts into the context.
abbrev pub Handlers : Type 0 → Type 0
Handlers A = Route → Option SessionContext → Request → Handler Tables A

module _ (sha256 : Text → Text) (scan : Text → Option ℤ) (w : World) where
  unfoldable pub dispatch : {A : Type 0} → Handlers A → Route → Request → Handler Tables A
  dispatch handlers route r = elim (guard_of route) [
    | none ↦ handlers route none r
    | some fidelity ↦
        middleware sha256 scan w fidelity (λ ctx request. handlers route (some ctx) request) r
  ]

  expired-refused :
      (raw_token : Text) (sess : Session) (db : Tables)
      → w.up session_by_access ≡ true
      → find (keyed access_hash_of (sha256 raw_token)) db.sessions ≡ some sess
      → text_eq sess.status (codes "revoked") ≡ false
      → ltb sess.expires_at w.now ≡ true
      → live_session sha256 w raw_token db ≡ (err err_session_expired, db)
  unfolding ◌>>=◌ or_else or_raise ensure live_session get_session_by_access_token_hash
  expired-refused raw_token sess db up found live late = ground arith

  admit-expired :
      (fidelity : Text) (r : Request) (sess : Session) (db : Tables)
      → w.up session_by_access ≡ true
      → text_eq (extract_bearer_token r) [] ≡ false
      → find (keyed access_hash_of (sha256 (extract_bearer_token r))) db.sessions ≡ some sess
      → text_eq sess.status (codes "revoked") ≡ false
      → ltb sess.expires_at w.now ≡ true
      → admit sha256 scan w fidelity r db ≡ (err err_session_expired, db)
  unfolding ensure admit verify_access_token
  admit-expired fidelity r sess db up given found live late =
      let token = extract_bearer_token r in
      let passed : ensure (not (text_eq token [])) err_unauthorized db ≡ (ok tt, db) =
        rw (given) refl in
      let refused_token : verify_access_token sha256 w token db ≡ (err err_session_expired, db) =
        bind-err (live_session sha256 w token) _ db err_session_expired db
          (expired-refused token sess db up found live late) in
      bind-at (ensure (not (text_eq token [])) err_unauthorized) _ db tt db passed
      ∙ bind-err (verify_access_token sha256 w token) _ db err_session_expired db refused_token

  -- Where the database answers, a request with the access token of a session that is not revoked but
  -- expired is answered by "session expired" on every guarded route, reaches no handler and changes
  -- nothing. The refresh of a session is such a route: its access token cannot be renewed once it has
  -- expired.
  pub dispatch-expired :
      {A : Type 0} (handlers : Handlers A) (route : Route) (fidelity : Text) (r : Request)
      (sess : Session) (db : Tables)
      → guard_of route ≡ some fidelity
      → w.up session_by_access ≡ true
      → extract_bearer_token r ≢ []
      → find (keyed access_hash_of (sha256 (extract_bearer_token r))) db.sessions ≡ some sess
      → sess.status ≢ codes "revoked"
      → sess.expires_at < w.now
      → (dispatch handlers route r db ≡ (refused (written_error err_session_expired), db))
        × (guard_of refresh ≡ some (codes "low"))
  unfolding dispatch middleware guard_of
  dispatch-expired handlers route fidelity r sess db guarded up given found live late =
      let gone =
        admit-expired fidelity r sess db up (text_eq-false (extract_bearer_token r) [] given) found
          (text_eq-false sess.status (codes "revoked") live) (lt→ltb sess.expires_at w.now late) in
      (
        rw (guarded, dispatch)
            (ap (serve_admitted (λ ctx request. handlers route (some ctx) request) r) gone),
        refl,
      )
