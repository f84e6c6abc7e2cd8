-- ===== src/Api/Auth/Store.antt =====
-- apps/api/internal/domain/auth/store.go over the tables of
-- apps/api/internal/db/migrations/001_auth.sql, with their UNIQUE and CHECK constraints, and the Redis
-- server that the service shares with them. A NULL text is the empty text; foreign keys are left out,
-- and a key of Redis stays until it is deleted.
use nearby_payments_api.Base.{
  ℕ, Bool, true, false, not, ◌&&◌, ◌||◌, Option, none, some, List, [], ◌∷◌, Text, codes, text_eq,
  if◌then◌else◌,
}
use nearby_payments_api.Api.Errors.{Action, query, exec}
use nearby_payments_api.Api.Rows.{find, keyed, update}
use nearby_payments_api.Api.Wallets.{WalletBinding, wallet_of_user}
use nearby_payments_api.Api.Auth.Types.{
  User, OauthIdentity, Device, DeviceIntegrityRecord, Session, ZkLoginSalt,
}

pub record Tables : Type 0 where
  pub users : List User
  pub identities : List OauthIdentity
  pub devices : List Device
  pub integrity : List DeviceIntegrityRecord
  pub sessions : List Session
  pub salts : List ZkLoginSalt
  pub wallets : List WalletBinding
  -- keys, values, and when they expire by the clock of Redis, in milliseconds: the first entry of a
  -- key counts
  pub redis : List (Text × Text × ℕ)

-- The statements and the calls of Redis, each of which may fail by itself.
pub data Step : Type 0 where
  insert_user select_user select_identity insert_identity insert_device select_device : Step
  insert_integrity select_integrity insert_session session_by_access session_by_refresh : Step
  update_tokens revoke select_salt insert_salt upsert_wallet select_wallet : Step
  redis_set redis_get_del redis_set_nx : Step

-- Whether a row was found.
abbrev pub exists {ℓ} : {A : Type ℓ} → Option A → Bool
exists none = false
exists (some _) = true

abbrev pub one_of : Text → List Text → Bool
one_of t [] = false
one_of t (s ∷ l) = text_eq t s || one_of t l

abbrev pub user_id_of : User → Text
user_id_of u = u.id

abbrev pub device_id_of : Device → Text
device_id_of d = d.id

abbrev pub integrity_id_of : DeviceIntegrityRecord → Text
integrity_id_of r = r.id

abbrev pub session_id_of : Session → Text
session_id_of s = s.id

abbrev pub access_hash_of : Session → Text
access_hash_of s = s.access_token_hash

abbrev pub refresh_hash_of : Session → Text
refresh_hash_of s = s.refresh_token_hash

abbrev pub is_identity : Text → Text → Text → OauthIdentity → Bool
is_identity issuer subject audience oi =
    text_eq oi.issuer issuer && (text_eq oi.subject subject && text_eq oi.audience audience)

abbrev pub is_salt : Text → Text → Text → ZkLoginSalt → Bool
is_salt issuer subject audience z =
    text_eq z.issuer issuer && (text_eq z.subject subject && text_eq z.audience audience)

-- INSERT INTO users
unfoldable pub add_user : User → Tables → Option Tables
add_user u db =
    if exists (find (keyed user_id_of u.id) db.users)
      || not (one_of u.status (codes "active" ∷ codes "restricted" ∷ codes "revoked" ∷ []))
    then none
    else some (record db { users = u ∷ db.users })

-- INSERT INTO oauth_identities
unfoldable pub add_identity : OauthIdentity → Tables → Option Tables
add_identity oi db =
    if exists (find (λ (x : OauthIdentity). text_eq x.id oi.id) db.identities)
      || exists (find (is_identity oi.issuer oi.subject oi.audience) db.identities)
    then none
    else some (record db { identities = oi ∷ db.identities })

-- INSERT INTO devices
unfoldable pub add_device : Device → Tables → Option Tables
add_device d db =
    if exists (find (keyed device_id_of d.id) db.devices)
      || (not (one_of d.platform (codes "ios" ∷ codes "android" ∷ []))
          || not (one_of d.status (codes "active" ∷ codes "restricted" ∷ codes "revoked" ∷ [])))
    then none
    else some (record db { devices = d ∷ db.devices })

-- INSERT INTO device_integrity_records
unfoldable pub add_integrity : DeviceIntegrityRecord → Tables → Option Tables
add_integrity r db =
    if exists (find (keyed integrity_id_of r.id) db.integrity)
      || (not (
            one_of r.provider
              (codes "ios_app_attest" ∷ codes "android_play_integrity" ∷ codes "stub" ∷ []))
          || not (one_of r.status (codes "active" ∷ codes "revoked" ∷ [])))
    then none
    else some (record db { integrity = r ∷ db.integrity })

-- INSERT INTO sessions: the id and both hashes are unique.
unfoldable pub add_session : Session → Tables → Option Tables
add_session s db =
    if exists (find (keyed session_id_of s.id) db.sessions)
      || (exists (find (keyed access_hash_of s.access_token_hash) db.sessions)
          || (exists (find (keyed refresh_hash_of s.refresh_token_hash) db.sessions)
              || not (one_of s.status (codes "active" ∷ codes "expired" ∷ codes "revoked" ∷ []))))
    then none
    else some (record db { sessions = s ∷ db.sessions })

-- What the UPDATE of the tokens sets in a row.
abbrev pub with_tokens : Text → Text → ℕ → ℕ → Session → Session
with_tokens access refresh expires refresh_expires s = record s {
  access_token_hash = access;
  refresh_token_hash = refresh;
  expires_at = expires;
  refresh_expires_at = refresh_expires;
}

-- Another row than that with the id has the value.
abbrev pub taken : (Session → Text) → Text → Text → List Session → Bool
taken key id value l = exists (find (λ s. text_eq (key s) value && not (text_eq s.id id)) l)

-- UPDATE sessions SET the tokens: both hashes stay unique.
unfoldable pub set_tokens : Text → Text → Text → ℕ → ℕ → Tables → Option Tables
set_tokens id access refresh expires refresh_expires db =
    if taken access_hash_of id access db.sessions || taken refresh_hash_of id refresh db.sessions
    then none
    else some (record db {
      sessions =
          update session_id_of id (with_tokens access refresh expires refresh_expires) db.sessions;
    })

-- UPDATE sessions SET status = 'revoked'
abbrev pub revoked : Session → Session
revoked s = record s { status = codes "revoked" }

abbrev pub set_revoked : Text → Tables → Option Tables
set_revoked id db = some (record db { sessions = update session_id_of id revoked db.sessions })

-- INSERT INTO zklogin_salts … ON CONFLICT (issuer, subject, audience) DO NOTHING
unfoldable pub add_salt : ZkLoginSalt → Tables → Option Tables
add_salt z db =
    if exists (find (is_salt z.issuer z.subject z.audience) db.salts)
    then some db
    else if exists (find (λ (x : ZkLoginSalt). text_eq x.id z.id) db.salts)
    then none
    else some (record db { salts = z ∷ db.salts })

abbrev pub wallet_user : WalletBinding → Text
wallet_user wb = wb.user_id

-- INSERT INTO wallet_bindings … ON CONFLICT (user_id) DO UPDATE: an address has one user.
unfoldable pub put_wallet : WalletBinding → Tables → Option Tables
put_wallet wb db =
    if not (text_eq wb.auth_scheme (codes "zklogin"))
      || exists (
          find
            (λ (x : WalletBinding).
              text_eq x.sui_address wb.sui_address && not (text_eq x.user_id wb.user_id))
            db.wallets)
    then none
    else some (record db {
      wallets =
          if exists (wallet_of_user wb.user_id db.wallets)
          then update wallet_user wb.user_id
              (λ x. record x { sui_address = wb.sui_address; updated_at = wb.updated_at })
              db.wallets
          else wb ∷ db.wallets;
    })

module _ (up : Step → Bool) where
  unfoldable pub create_user : User → Action Tables (Unit {0})
  create_user u = exec (up insert_user) (add_user u)

  unfoldable pub get_user_by_id : Text → Action Tables (Option User)
  get_user_by_id id = query (up select_user) (λ db. find (keyed user_id_of id) db.users)

  unfoldable pub get_oauth_identity : Text → Text → Text → Action Tables (Option OauthIdentity)
  get_oauth_identity issuer subject audience =
      query (up select_identity) (λ db. find (is_identity issuer subject audience) db.identities)

  unfoldable pub create_oauth_identity : OauthIdentity → Action Tables (Unit {0})
  create_oauth_identity oi = exec (up insert_identity) (add_identity oi)

  unfoldable pub create_device : Device → Action Tables (Unit {0})
  create_device d = exec (up insert_device) (add_device d)

  unfoldable pub get_device_by_id : Text → Action Tables (Option Device)
  get_device_by_id id = query (up select_device) (λ db. find (keyed device_id_of id) db.devices)

  unfoldable pub create_device_integrity_record : DeviceIntegrityRecord → Action Tables (Unit {0})
  create_device_integrity_record r = exec (up insert_integrity) (add_integrity r)

  unfoldable pub get_integrity_record_by_id : Text → Action Tables (Option DeviceIntegrityRecord)
  get_integrity_record_by_id id =
      query (up select_integrity) (λ db. find (keyed integrity_id_of id) db.integrity)

  unfoldable pub create_session : Session → Action Tables (Unit {0})
  create_session s = exec (up insert_session) (add_session s)

  unfoldable pub get_session_by_access_token_hash : Text → Action Tables (Option Session)
  get_session_by_access_token_hash hash =
      query (up session_by_access) (λ db. find (keyed access_hash_of hash) db.sessions)

  unfoldable pub get_session_by_refresh_token_hash : Text → Action Tables (Option Session)
  get_session_by_refresh_token_hash hash =
      query (up session_by_refresh) (λ db. find (keyed refresh_hash_of hash) db.sessions)

  unfoldable pub update_session_tokens : Text → Text → Text → ℕ → ℕ → Action Tables (Unit {0})
  update_session_tokens id access refresh expires refresh_expires =
      exec (up update_tokens) (set_tokens id access refresh expires refresh_expires)

  unfoldable pub revoke_session_row : Text → Action Tables (Unit {0})
  revoke_session_row id = exec (up revoke) (set_revoked id)

  unfoldable pub get_or_create_zk_login_salt :
      Text → Text → Text → Action Tables (Option ZkLoginSalt)
  get_or_create_zk_login_salt issuer subject audience =
      query (up select_salt) (λ db. find (is_salt issuer subject audience) db.salts)

  unfoldable pub create_zk_login_salt : ZkLoginSalt → Action Tables (Unit {0})
  create_zk_login_salt z = exec (up insert_salt) (add_salt z)

  unfoldable pub upsert_wallet_binding : WalletBinding → Action Tables (Unit {0})
  upsert_wallet_binding wb = exec (up upsert_wallet) (put_wallet wb)

  unfoldable pub get_wallet_binding : Text → Action Tables (Option WalletBinding)
  get_wallet_binding user = query (up select_wallet) (λ db. wallet_of_user user db.wallets)
