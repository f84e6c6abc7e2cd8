-- ===== src/Api/Auth/Invariants.antt =====
-- Properties of the sessions, of the keys of Redis, and of identities and salts, by the statements that
-- keep them.
use nearby_payments_api.Base.{ℕ, ◌≡◌, none, some, List, ◌∷◌, Text, codes, text_eq, false}
use nearby_payments_api.Api.Rows.{find, keyed, update}
use nearby_payments_api.Api.Auth.Types.{OauthIdentity, Session, ZkLoginSalt}
use nearby_payments_api.Api.Auth.Store.{
  session_id_of, access_hash_of, refresh_hash_of, is_identity, is_salt, with_tokens, taken, revoked,
}
use nearby_payments_api.Api.Auth.Keys.{state_key, drop_key}

-- What the statements on the table of sessions keep.
pub record IsStable (Q : List Session → Type 0) : Type 0 where
  pub add :
      (s : Session) (l : List Session)
      → Q l
      → find (keyed session_id_of s.id) l ≡ none
      → find (keyed access_hash_of s.access_token_hash) l ≡ none
      → find (keyed refresh_hash_of s.refresh_token_hash) l ≡ none
      → Q (s ∷ l)
  pub rotate :
      (sess : Session) (hash access refresh : Text) (expires refresh_expires : ℕ) (l : List Session)
      → Q l
      → find (keyed refresh_hash_of hash) l ≡ some sess
      → text_eq sess.status (codes "revoked") ≡ false
      → taken access_hash_of sess.id access l ≡ false
      → taken refresh_hash_of sess.id refresh l ≡ false
      → Q (update session_id_of sess.id (with_tokens access refresh expires refresh_expires) l)
  pub revoke : (id : Text) (l : List Session) → Q l → Q (update session_id_of id revoked l)

-- What the calls of Redis keep, where the states that are set have the property F.
pub record IsRedisStable (F : Text → Type 0) (R : List (Text × Text × ℕ) → Type 0) : Type 0 where
  pub set :
      (state value : Text) (expires : ℕ) (l : List (Text × Text × ℕ))
      → F state
      → R l
      → R ((state_key state, value, expires) ∷ l)
  pub drop : (state : Text) (l : List (Text × Text × ℕ)) → R l → R (drop_key (state_key state) l)

-- What the statements on identities and salts keep.
pub record IsLoginStable (T : List OauthIdentity → List ZkLoginSalt → Type 0) : Type 0 where
  pub identity :
      (oi : OauthIdentity) (l : List OauthIdentity) (salts : List ZkLoginSalt)
      → T l salts
      → find (is_identity oi.issuer oi.subject oi.audience) l ≡ none
      → T (oi ∷ l) salts
  pub salt :
      (z : ZkLoginSalt) (l : List OauthIdentity) (salts : List ZkLoginSalt)
      → T l salts
      → find (is_salt z.issuer z.subject z.audience) salts ≡ none
      → T l (z ∷ salts)

-- A property of the tables that the calls of the service keep.
pub record Invariant : Type 1 where
  pub sessions : List Session → Type 0
  pub redis : List (Text × Text × ℕ) → Type 0
  pub logins : List OauthIdentity → List ZkLoginSalt → Type 0
  -- what must hold of each state that is drawn
  pub drawn : Text → Type 0
  pub stable : IsStable sessions
  pub redis_stable : IsRedisStable drawn redis
  pub login_stable : IsLoginStable logins

pub any_session-IsStable : IsStable (λ (l : List Session). Unit {0})
any_session-IsStable = record {
  add = λ s l q a b c. tt;
  rotate = λ sess hash access refresh expires refresh_expires l q found live a b. tt;
  revoke = λ id l q. tt;
}

pub any_redis-IsRedisStable :
    IsRedisStable (λ (s : Text). Unit {0}) (λ (l : List (Text × Text × ℕ)). Unit {0})
any_redis-IsRedisStable = record { set = λ state value expires l f r. tt; drop = λ state l r. tt }

pub any_login-IsLoginStable :
    IsLoginStable (λ (l : List OauthIdentity) (salts : List ZkLoginSalt). Unit {0})
any_login-IsLoginStable = record {
  identity = λ oi l salts t fresh. tt;
  salt = λ z l salts t fresh. tt;
}

-- Properties of one part of the tables.
abbrev pub of_sessions : (Q : List Session → Type 0) → IsStable Q → Invariant
of_sessions Q stable = record {
  sessions = Q;
  redis = λ l. Unit {0};
  logins = λ l salts. Unit {0};
  drawn = λ s. Unit {0};
  stable = stable;
  redis_stable = any_redis-IsRedisStable;
  login_stable = any_login-IsLoginStable;
}

abbrev pub of_redis :
    (F : Text → Type 0) (R : List (Text × Text × ℕ) → Type 0) → IsRedisStable F R → Invariant
of_redis F R stable = record {
  sessions = λ l. Unit {0};
  redis = R;
  logins = λ l salts. Unit {0};
  drawn = F;
  stable = any_session-IsStable;
  redis_stable = stable;
  login_stable = any_login-IsLoginStable;
}

abbrev pub of_logins :
    (T : List OauthIdentity → List ZkLoginSalt → Type 0) → IsLoginStable T → Invariant
of_logins T stable = record {
  sessions = λ l. Unit {0};
  redis = λ l. Unit {0};
  logins = T;
  drawn = λ s. Unit {0};
  stable = any_session-IsStable;
  redis_stable = any_redis-IsRedisStable;
  login_stable = stable;
}
