-- ===== src/Api/Auth/Stable/Methods.antt =====
-- Every method of the service keeps an invariant.
use nearby_payments_api.Base.{
  ◌≡◌, sym, ap, subst, ◌∙◌, inl, inr, Bool, false, some, [], Text, codes, arith, text_eq,
  Bool-cases,
}
use nearby_payments_api.Api.Errors.{Error, err}
use nearby_payments_api.Api.Auth.Actions.{◌>>=◌, or_raise}
use nearby_payments_api.Api.Auth.Actions.Binds.{
  Keeps, Outcome-cases, pure-Keeps, query-Keeps, bind_keeps, bind-Keeps, option-Keeps,
  or_else-Keeps, or_raise-Keeps, ensure-Keeps,
}
use nearby_payments_api.Api.Rows.{find, keyed, update}
use nearby_payments_api.Api.Auth.Types.{
  Session, SessionContext, OauthCompleteRequest, AssertIntegrityRequest,
}
use nearby_payments_api.Api.Auth.Store.{
  Tables, session_id_of, refresh_hash_of, update_session_tokens, get_user_by_id, get_oauth_identity,
  get_device_by_id, get_integrity_record_by_id, get_session_by_access_token_hash,
  get_session_by_refresh_token_hash, get_or_create_zk_login_salt,
}
use nearby_payments_api.Api.Auth.Sessions.{
  World, rotate, refreshable_session, refresh_session, revoke_session, live_session, active_user,
  active_device, context_of, verify_access_token, assert_device_integrity,
}
use nearby_payments_api.Api.Auth.Google.{Libraries, Google, Object}
use nearby_payments_api.Api.Auth.Login.{
  new_user, user_of, require_active, new_salt, salt_of, bind_wallet, new_device, new_session,
  enroll, admit_user, sign_in,
}
use nearby_payments_api.Api.Auth.Rotation.{rotated, rotate-IsRotated, refreshable_session-ended}
use nearby_payments_api.Api.Auth.Invariants.{Invariant}
use nearby_payments_api.Api.Auth.Stable.{
  transfer, Holds, create_user-Keeps, create_oauth_identity-Keeps, create_device-Keeps,
  create_device_integrity_record-Keeps, create_zk_login_salt-Keeps, upsert_wallet_binding-Keeps,
  create_session-Keeps, revoke_session_row-Keeps,
}

module _ (inv : Invariant) where
  abbrev P : Tables → Type 0
  P = Holds inv

  module _ (lib : Libraries) (google : Google) (w : World) where
    new_user-Keeps :
        (iss sub aud email : Text) (verified : Bool)
        → Keeps P (new_user lib google w iss sub aud email verified)
    unfolding new_user
    new_user-Keeps iss sub aud email verified =
        bind-Keeps P (create_user-Keeps inv _ _)
          λ u. bind-Keeps P (create_oauth_identity-Keeps inv _ _) λ u. pure-Keeps P _

    pub user_of-Keeps :
        (iss sub aud email : Text) (verified : Bool)
        → Keeps P (user_of lib google w iss sub aud email verified)
    unfolding user_of get_oauth_identity
    user_of-Keeps iss sub aud email verified = bind-Keeps P (query-Keeps P _ _) λ existing.
        option-Keeps P existing _ _ (new_user-Keeps iss sub aud email verified) λ oi. pure-Keeps P _

    pub require_active-Keeps : (user_id : Text) → Keeps P (require_active lib google w user_id)
    unfolding require_active get_user_by_id
    require_active-Keeps user_id =
        bind-Keeps P (query-Keeps P _ _)
          λ found. bind-Keeps P (or_raise-Keeps P _ _) λ user. ensure-Keeps P _ _

    new_salt-Keeps :
        (user_id iss sub aud : Text) → Keeps P (new_salt lib google w user_id iss sub aud)
    unfolding new_salt
    new_salt-Keeps user_id iss sub aud =
        bind-Keeps P (or_raise-Keeps P _ _)
          λ salt. bind-Keeps P (create_zk_login_salt-Keeps inv _ _) λ u. pure-Keeps P _

    salt_of-Keeps :
        (user_id iss sub aud : Text) → Keeps P (salt_of lib google w user_id iss sub aud)
    unfolding salt_of get_or_create_zk_login_salt
    salt_of-Keeps user_id iss sub aud =
        bind-Keeps P (query-Keeps P _ _)
          λ found. option-Keeps P found _ _ (new_salt-Keeps user_id iss sub aud) λ z. pure-Keeps P _

    bind_wallet-Keeps :
        (user_id address iss aud : Text)
        → Keeps P (bind_wallet lib google w user_id address iss aud)
    unfolding bind_wallet
    bind_wallet-Keeps user_id address iss aud = elim (Bool-cases (text_eq address [])) [
      | inl e ↦ rw e (pure-Keeps P _)
      | inr e ↦ rw e (upsert_wallet_binding-Keeps inv _ _)
    ]

    new_device-Keeps :
        (user_id : Text) (req : OauthCompleteRequest)
        → Keeps P (new_device lib google w user_id req)
    unfolding new_device
    new_device-Keeps user_id req =
        bind-Keeps P (create_device-Keeps inv _ _) λ u. create_device_integrity_record-Keeps inv _ _

    new_session-Keeps : (user_id : Text) → Keeps P (new_session lib google w user_id)
    unfolding new_session
    new_session-Keeps user_id = bind-Keeps P (or_raise-Keeps P _ _) λ access.
        bind-Keeps P (or_raise-Keeps P _ _)
          λ refresh. bind-Keeps P (create_session-Keeps inv _ _) λ u. pure-Keeps P _

    pub enroll-Keeps :
        (user_id salt iss aud : Text) (req : OauthCompleteRequest)
        → Keeps P (enroll lib google w user_id salt iss aud req)
    unfolding enroll
    enroll-Keeps user_id salt iss aud req = bind-Keeps P (bind_wallet-Keeps _ _ _ _) λ u.
        bind-Keeps P (new_device-Keeps _ _)
          λ u. bind-Keeps P (new_session-Keeps _) λ tokens. pure-Keeps P _

    pub admit_user-Keeps :
        (user_id iss sub aud : Text) (req : OauthCompleteRequest)
        → Keeps P (admit_user lib google w user_id iss sub aud req)
    unfolding admit_user
    admit_user-Keeps user_id iss sub aud req =
        bind-Keeps P (require_active-Keeps _)
          λ u. bind-Keeps P (salt_of-Keeps _ _ _ _) λ salt. enroll-Keeps _ _ _ _ _

    pub sign_in-Keeps :
        (claims : Object) (req : OauthCompleteRequest) → Keeps P (sign_in lib google w claims req)
    unfolding sign_in
    sign_in-Keeps claims req =
        bind-Keeps P (user_of-Keeps _ _ _ _ _) λ user_id. admit_user-Keeps _ _ _ _ _

  module _ (sha256 : Text → Text) (w : World) where
    rotate_failed :
        (sess : Session) (e : Error) (db db' : Tables)
        → rotate sha256 w sess db ≡ (err e, db')
        → db ≡ db'
    unfolding ◌>>=◌ or_raise rotate update_session_tokens
    rotate_failed sess e db db' q = ground arith

    rotate_keeps :
        (hash : Text) (sess : Session) (db : Tables)
        → P db
        → find (keyed refresh_hash_of hash) db.sessions ≡ some sess
        → text_eq sess.status (codes "revoked") ≡ false
        → P (rotate sha256 w sess db).1
    rotate_keeps hash sess db h found live = elim (Outcome-cases (rotate sha256 w sess db)) [
      | inl (resp, (db1, q)) ↦
          let r = rotate-IsRotated sha256 w sess resp db db1 q in
          let kept =
            inv.stable.rotate sess hash _ _ _ _ db.sessions h.0 found live r.free_access
              r.free_refresh in
          subst (λ o. P o.1) (sym q)
            (transfer inv
              (record db {
                sessions =
                    update session_id_of sess.id (rotated sha256 w resp.access_token r.refresh)
                      db.sessions;
              })
              db1 (sym r.sessions) (sym r.redis) (sym r.identities) (sym r.salts) (kept, h.1))
      | inr (e, (db1, q)) ↦ subst (λ o. P o.1) (sym q) (subst P (rotate_failed sess e db db1 q) h)
    ]

    refreshable_session-Keeps : (token : Text) → Keeps P (refreshable_session sha256 w token)
    unfolding refreshable_session get_session_by_refresh_token_hash
    refreshable_session-Keeps token =
        bind-Keeps P (or_else-Keeps P _ _ (query-Keeps P _ _)) λ found.
          bind-Keeps P (or_raise-Keeps P _ _) λ sess.
            bind-Keeps P (ensure-Keeps P _ _)
              λ u. bind-Keeps P (ensure-Keeps P _ _) λ u. pure-Keeps P _

    pub refresh_session-Keeps : (token : Text) → Keeps P (refresh_session sha256 w token)
    unfolding refresh_session
    refresh_session-Keeps token = record {
      keeps = λ db h.
          bind_keeps P (refreshable_session sha256 w token) (rotate sha256 w) db
            ((refreshable_session-Keeps token).keeps db h)
            (λ sess db1 q.
              let (found, (live, same)) = refreshable_session-ended sha256 w token sess db db1 q in
              rotate_keeps (sha256 token) sess db1 (subst P same h)
                (ap (λ (t : Tables). find (keyed refresh_hash_of (sha256 token)) t.sessions)
                    (sym same)
                  ∙ found)
                live);
    }

    live_session-Keeps : (token : Text) → Keeps P (live_session sha256 w token)
    unfolding live_session get_session_by_access_token_hash
    live_session-Keeps token = bind-Keeps P (or_else-Keeps P _ _ (query-Keeps P _ _)) λ found.
        bind-Keeps P (or_raise-Keeps P _ _) λ sess.
          bind-Keeps P (ensure-Keeps P _ _)
            λ u. bind-Keeps P (ensure-Keeps P _ _) λ u. pure-Keeps P _

    active_user-Keeps : (id : Text) → Keeps P (active_user sha256 w id)
    unfolding active_user get_user_by_id
    active_user-Keeps id = bind-Keeps P (or_else-Keeps P _ _ (query-Keeps P _ _)) λ found.
        bind-Keeps P (or_raise-Keeps P _ _)
          λ user. bind-Keeps P (ensure-Keeps P _ _) λ u. pure-Keeps P _

    active_device-Keeps : (id : Text) → Keeps P (active_device sha256 w id)
    unfolding active_device get_device_by_id
    active_device-Keeps id = bind-Keeps P (or_else-Keeps P _ _ (query-Keeps P _ _)) λ found.
        bind-Keeps P (or_raise-Keeps P _ _)
          λ device. bind-Keeps P (ensure-Keeps P _ _) λ u. pure-Keeps P _

    pub verify_access_token-Keeps : (token : Text) → Keeps P (verify_access_token sha256 w token)
    unfolding verify_access_token context_of get_integrity_record_by_id
    verify_access_token-Keeps token = bind-Keeps P (live_session-Keeps token) λ sess.
        bind-Keeps P (active_user-Keeps _) λ user. bind-Keeps P (active_device-Keeps _) λ device.
          bind-Keeps P (or_else-Keeps P _ _ (query-Keeps P _ _)) λ integrity. pure-Keeps P _

    pub assert_device_integrity-Keeps :
        (ctx : SessionContext) (req : AssertIntegrityRequest)
        → Keeps P (assert_device_integrity sha256 w ctx req)
    unfolding assert_device_integrity
    assert_device_integrity-Keeps ctx req =
        bind-Keeps P (ensure-Keeps P _ _)
          λ u. bind-Keeps P (ensure-Keeps P _ _) λ u. create_device_integrity_record-Keeps inv _ _

    pub revoke_session-Keeps : (ctx : SessionContext) → Keeps P (revoke_session sha256 w ctx)
    unfolding revoke_session
    revoke_session-Keeps ctx = revoke_session_row-Keeps inv _ _
