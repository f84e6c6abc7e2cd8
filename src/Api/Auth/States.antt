-- ===== src/Api/Auth/States.antt =====
-- A state of OAuthBegin serves for one OAuthComplete.
use nearby_payments_api.Base.{
  ℕ, ◌≡◌, refl, ap, subst, ◌∙◌, ◌≢◌, inl, inr, Bool, true, none, List, [], ◌∷◌, Text, arith,
  text_eq-false, Option-cases,
}
use nearby_payments_api.Api.Errors.{wrapped, err}
use nearby_payments_api.Api.Auth.Actions.{or_else}
use nearby_payments_api.Api.Auth.Actions.Binds.{
  pure-Keeps, bind-err, or_else-err, or_else-state, bind_keeps, bind-Keeps, or_raise-Keeps,
  ensure-Keeps,
}
use nearby_payments_api.Api.Rows.{find}
use nearby_payments_api.Api.Auth.Types.{OauthCompleteRequest, err_oauth_state_mismatch}
use nearby_payments_api.Api.Auth.Store.{Tables, redis_get_del}
use nearby_payments_api.Api.Auth.Sessions.{World}
use nearby_payments_api.Api.Auth.Google.{Libraries, Google}
use nearby_payments_api.Api.Auth.Keys.{state_key, has_redis_key, drop_key, get_del}
use nearby_payments_api.Api.Auth.Claims.{claims_of}
use nearby_payments_api.Api.Auth.Login.{oauth_complete}
use nearby_payments_api.Api.Auth.Calls.{Call, complete, call, calls}
use nearby_payments_api.Api.Auth.Invariants.{Invariant, IsRedisStable, of_redis}
use nearby_payments_api.Api.Auth.Stable.{Holds}
use nearby_payments_api.Api.Auth.Stable.Methods.{sign_in-Keeps}
use nearby_payments_api.Api.Auth.Stable.Runs.{Draws, calls_keep}

-- The key is not set.
abbrev IsUnset : Text → List (Text × Text × ℕ) → Type 0
IsUnset key l = find (has_redis_key key) l ≡ none

drop_key-IsUnset :
    (key dropped : Text) (l : List (Text × Text × ℕ))
    → IsUnset key l
    → IsUnset key (drop_key dropped l)
unfolding drop_key
drop_key-IsUnset key dropped [] h = refl
drop_key-IsUnset key dropped ((k, v, expires) ∷ l) h =
    let rest = drop_key-IsUnset key dropped l in ground arith

dropped-IsUnset : (key : Text) (l : List (Text × Text × ℕ)) → IsUnset key (drop_key key l)
unfolding drop_key
dropped-IsUnset key [] = refl
dropped-IsUnset key ((k, v, expires) ∷ l) = let rest = dropped-IsUnset key l in ground arith

state_key-inj : (s t : Text) → state_key s ≡ state_key t → s ≡ t
state_key-inj s t e = cc

module _ (state : Text) where
  state-IsRedisStable : IsRedisStable (λ (s : Text). s ≢ state) (IsUnset (state_key state))
  state-IsRedisStable = record {
    set = λ s value expires l other unset.
        rw (text_eq-false (state_key s) (state_key state) (λ e. other (state_key-inj s state e)))
          unset;
    drop = λ s l unset. drop_key-IsUnset (state_key state) (state_key s) l unset;
  }

  abbrev keeps_unset : Invariant
  keeps_unset = of_redis (λ (s : Text). s ≢ state) (IsUnset (state_key state)) state-IsRedisStable

  abbrev P : Tables → Type 0
  P = Holds keeps_unset

  get_del_unset : (now : ℕ) (db : Tables) → P (get_del true now (state_key state) db).1
  unfolding get_del
  get_del_unset now db = elim (Option-cases (find (has_redis_key (state_key state)) db.redis)) [
    | inl e ↦ rw e (tt, (e, tt))
    | inr (v, e) ↦ rw e (tt, (dropped-IsUnset (state_key state) db.redis, tt))
  ]

  get_del-absent :
      (up : Bool) (now : ℕ) (db : Tables)
      → P db
      → get_del up now (state_key state) db ≡ (err wrapped, db)
  unfolding get_del
  get_del-absent up now db (q, (h, t)) = ground arith

  module _ (lib : Libraries) (google : Google) (w : World) (req : OauthCompleteRequest)
      (same : req.state ≡ state) where
    taken_unset :
        (db : Tables)
        → w.up redis_get_del ≡ true
        → P
            (or_else err_oauth_state_mismatch
              (get_del (w.up redis_get_del) w.redis_now (state_key req.state))
              db).1
    taken_unset db up =
        subst P
          (or_else-state err_oauth_state_mismatch
            (get_del (w.up redis_get_del) w.redis_now (state_key req.state)) db)
          (rw (up, same) (get_del_unset w.redis_now db))

    claims_unset : (db : Tables) → w.up redis_get_del ≡ true → P (claims_of lib google w req db).1
    unfolding claims_of
    claims_unset db up =
        let first : P
            (or_else err_oauth_state_mismatch
              (get_del (w.up redis_get_del) w.redis_now (state_key req.state)) db).1 =
          taken_unset db up in
        bind_keeps P
          (or_else err_oauth_state_mismatch
            (get_del (w.up redis_get_del) w.redis_now (state_key req.state)))
          _ db first
          λ json db1 q.
            (bind-Keeps P (or_raise-Keeps P _ _) λ value.
                bind-Keeps P (or_raise-Keeps P _ _) λ id_token.
                  bind-Keeps P (or_raise-Keeps P _ _)
                    λ claims. bind-Keeps P (ensure-Keeps P _ _) λ u. pure-Keeps P _).keeps
              db1 (subst (λ o. P o.1) q first)

    complete_unset :
        (db : Tables) → w.up redis_get_del ≡ true → P (oauth_complete lib google w req db).1
    unfolding oauth_complete
    complete_unset db up =
        bind_keeps P (claims_of lib google w req) _ db (claims_unset db up) λ claims db1 q.
          (sign_in-Keeps keeps_unset lib google w claims req).keeps db1
            (subst (λ o. P o.1) q (claims_unset db up))

    complete-refused :
        (db : Tables)
        → P db
        → oauth_complete lib google w req db ≡ (err err_oauth_state_mismatch, db)
    unfolding oauth_complete claims_of
    complete-refused db h =
        let gone =
          ap (λ t. get_del (w.up redis_get_del) w.redis_now (state_key t) db) same
          ∙ get_del-absent (w.up redis_get_del) w.redis_now db h in
        bind-err (claims_of lib google w req) _ db _ db (
          bind-err
            (or_else err_oauth_state_mismatch
              (get_del (w.up redis_get_del) w.redis_now (state_key req.state)))
            _ db _ db
            (or_else-err _ (get_del (w.up redis_get_del) w.redis_now (state_key req.state)) db
              wrapped db gone))

module _ (lib : Libraries) (google : Google) where
  -- After an OAuthComplete for a state, which Redis answered, whether or not it succeeded, and any
  -- further calls that do not draw this state again, another OAuthComplete for it is refused as a
  -- state mismatch and changes nothing.
  pub oauth_complete-once :
      (w w' : World) (req req' : OauthCompleteRequest) (db db' : Tables) (l : List (World × Call))
      → w.up redis_get_del ≡ true
      → Draws (λ (s : Text). s ≢ req.state) l
      → calls lib google ((w, complete req) ∷ l) db ≡ db'
      → req'.state ≡ req.state
      → oauth_complete lib google w' req' db' ≡ (err err_oauth_state_mismatch, db')
  unfolding calls call
  oauth_complete-once w w' req req' db db' l up drawn e same =
      let first = complete_unset req.state lib google w req refl db up in
      let last =
        calls_keep (keeps_unset req.state) lib google l (call lib google w (complete req) db) drawn
          first in
      complete-refused req.state lib google w' req' same db' (subst (P req.state) e last)
