-- ===== src/Api/Auth/Stable/Runs.antt =====
-- Any sequence of calls keeps an invariant.
use nearby_payments_api.Base.{
  ℕ, ◌≡◌, inl, inr, Bool, true, false, some, List, [], ◌∷◌, Text, Option-cases,
}
use nearby_payments_api.Api.Auth.Actions.Binds.{
  Keeps, pure-Keeps, bind-Keeps, or_else-Keeps, or_raise-Keeps, or_raise_bind-Keeps, ensure-Keeps,
}
use nearby_payments_api.Api.Rows.{find}
use nearby_payments_api.Api.Auth.Types.{Session, OauthBeginRequest, OauthCompleteRequest}
use nearby_payments_api.Api.Auth.Store.{Tables}
use nearby_payments_api.Api.Auth.Sessions.{World}
use nearby_payments_api.Api.Auth.Google.{Libraries, Google}
use nearby_payments_api.Api.Auth.Keys.{has_redis_key, state_key, get_del, set_key}
use nearby_payments_api.Api.Auth.Claims.{oauth_begin, claims_of}
use nearby_payments_api.Api.Auth.Login.{oauth_complete}
use nearby_payments_api.Api.Auth.Calls.{
  Call, begin, complete, refresh, revoke_call, verify, assert_integrity, call, calls,
}
use nearby_payments_api.Api.Auth.Invariants.{Invariant, IsStable, of_sessions}
use nearby_payments_api.Api.Auth.Stable.Methods.{
  sign_in-Keeps, refresh_session-Keeps, verify_access_token-Keeps, assert_device_integrity-Keeps,
  revoke_session-Keeps,
}
use nearby_payments_api.Api.Auth.Stable.{Holds}

-- What holds of each state that an OAuthBegin among the calls may draw.
abbrev pub Draws {ℓ} : (Text → Type ℓ) → List (World × Call) → Type ℓ
Draws F [] = Unit
Draws F ((w, c) ∷ l) = ((state : Text) → w.random_hex ≡ some state → F state) × Draws F l

module _ (inv : Invariant) where
  abbrev P : Tables → Type 0
  P = Holds inv

  set_keeps :
      (up : Bool) (expires : ℕ) (state value : Text) (db : Tables)
      → inv.drawn state
      → P db
      → P (set_key up expires (state_key state) value db).1
  unfolding set_key
  set_keeps false expires state value db fresh h = h
  set_keeps true expires state value db fresh (q, (r, t)) =
      (q, (inv.redis_stable.set state value expires db.redis fresh r, t))

  get_del_keeps :
      (up : Bool) (now : ℕ) (state : Text) (db : Tables)
      → P db
      → P (get_del up now (state_key state) db).1
  unfolding get_del
  get_del_keeps false now state db h = h
  get_del_keeps true now state db (q, (r, t)) =
      elim (Option-cases (find (has_redis_key (state_key state)) db.redis)) [
        | inl e ↦ rw e (q, (r, t))
        | inr (v, e) ↦ rw e (q, (inv.redis_stable.drop state db.redis r, t))
      ]

  module _ (lib : Libraries) (google : Google) (w : World) where
    oauth_begin-Keeps :
        (req : OauthBeginRequest)
        → ((state : Text) → w.random_hex ≡ some state → inv.drawn state)
        → Keeps P (oauth_begin lib google w req)
    unfolding oauth_begin
    oauth_begin-Keeps req drawn = bind-Keeps P (ensure-Keeps P _ _) λ u.
        or_raise_bind-Keeps P _ w.random_hex _ λ state e.
          bind-Keeps P
            (or_else-Keeps P _ _
              (record { keeps = λ db. set_keeps _ _ state _ db (drawn state e) }))
            λ u. pure-Keeps P _

    pub claims_of-Keeps : (req : OauthCompleteRequest) → Keeps P (claims_of lib google w req)
    unfolding claims_of
    claims_of-Keeps req =
        bind-Keeps P (or_else-Keeps P _ _ (record { keeps = get_del_keeps _ _ req.state }))
          λ state_json. bind-Keeps P (or_raise-Keeps P _ _) λ state.
            bind-Keeps P (or_raise-Keeps P _ _) λ id_token.
              bind-Keeps P (or_raise-Keeps P _ _)
                λ claims. bind-Keeps P (ensure-Keeps P _ _) λ u. pure-Keeps P _

    oauth_complete-Keeps : (req : OauthCompleteRequest) → Keeps P (oauth_complete lib google w req)
    unfolding oauth_complete
    oauth_complete-Keeps req =
        bind-Keeps P (claims_of-Keeps req) λ claims. sign_in-Keeps inv lib google w claims req

  module _ (lib : Libraries) (google : Google) where
    call_keeps :
        (w : World) (c : Call) (db : Tables)
        → ((state : Text) → w.random_hex ≡ some state → inv.drawn state)
        → P db
        → P (call lib google w c db)
    unfolding call
    call_keeps w (begin req) db drawn = (oauth_begin-Keeps lib google w req drawn).keeps db
    call_keeps w (complete req) db drawn = (oauth_complete-Keeps lib google w req).keeps db
    call_keeps w (refresh token) db drawn = (refresh_session-Keeps inv lib.sha256 w token).keeps db
    call_keeps w (revoke_call ctx) db drawn = (revoke_session-Keeps inv lib.sha256 w ctx).keeps db
    call_keeps w (verify token) db drawn =
        (verify_access_token-Keeps inv lib.sha256 w token).keeps db
    call_keeps w (assert_integrity ctx req) db drawn =
        (assert_device_integrity-Keeps inv lib.sha256 w ctx req).keeps db

    pub calls_keep :
        (l : List (World × Call)) (db : Tables)
        → Draws inv.drawn l
        → P db
        → P (calls lib google l db)
    unfolding calls
    calls_keep [] db drawn h = h
    calls_keep ((w, c) ∷ l) db (drawn, rest) h =
        calls_keep l (call lib google w c db) rest (call_keeps w c db drawn h)

pub no_demand : (l : List (World × Call)) → Draws (λ (state : Text). Unit {0}) l
no_demand [] = tt
no_demand ((w, c) ∷ l) = (λ state e. tt, no_demand l)

-- A property of the sessions alone, whatever is drawn.
module _ (Q : List Session → Type 0) (stable : IsStable Q) where
  pub sessions_keep :
      (lib : Libraries) (google : Google) (l : List (World × Call)) (db : Tables)
      → Q db.sessions
      → Q (calls lib google l db).sessions
  sessions_keep lib google l db h =
      (calls_keep (of_sessions Q stable) lib google l db (no_demand l) (h, (tt, tt))).0
