-- ===== src/Api/Auth/Verify.antt =====
-- Exactly which access tokens are accepted.
use nearby_payments_api.Base.{
  ℕ, suc, ◌<◌, ◌≡◌, refl, ap, subst, text_eq-false, ◌∙◌, ◌≢◌, ◌↔◌, inl, inr, true, false, some,
  Text, codes, arith, text_eq, text_eq_iff, ltb, Option-cases,
}
use nearby_payments_api.Api.Errors.{ok}
use nearby_payments_api.Api.Auth.Actions.{◌>>=◌, or_else, or_raise, ensure}
use nearby_payments_api.Api.Auth.Actions.Binds.{bind-ok}
use nearby_payments_api.Api.Rows.{find, keyed}
use nearby_payments_api.Api.Auth.Types.{User, Device, Session, SessionContext}
use nearby_payments_api.Api.Auth.Store.{
  Tables, Step, session_by_access, select_user, select_device, select_integrity, user_id_of,
  device_id_of, integrity_id_of, access_hash_of, get_user_by_id, get_device_by_id,
  get_integrity_record_by_id, get_session_by_access_token_hash,
}
use nearby_payments_api.Api.Auth.Sessions.{
  World, live_session, active_user, active_device, context_of, verify_access_token,
}

-- A token is admitted at a time, with a context: it is that of a session that is neither revoked nor
-- expired, whose user and whose device are active.
pub record IsAdmitted (sha256 : Text → Text) (now : ℕ) (raw_token : Text) (db : Tables)
    (ctx : SessionContext) : Type 0 where
  pub session : find (keyed access_hash_of (sha256 raw_token)) db.sessions ≡ some ctx.session
  pub live : ctx.session.status ≢ codes "revoked"
  pub in_time : now < suc ctx.session.expires_at
  pub user : find (keyed user_id_of ctx.session.user_id) db.users ≡ some ctx.user
  pub user_active : ctx.user.status ≡ codes "active"
  pub device : find (keyed device_id_of ctx.session.device_id) db.devices ≡ some ctx.device
  pub device_active : ctx.device.status ≡ codes "active"
  pub integrity :
      find (keyed integrity_id_of ctx.session.device_integrity_id) db.integrity ≡ ctx.integrity

not_revoked :
    (sess : Session) → text_eq sess.status (codes "revoked") ≡ false → sess.status ≢ codes "revoked"
not_revoked sess live q = let hit = (text_eq_iff sess.status (codes "revoked")).1 q in ground arith

module _ (sha256 : Text → Text) (w : World) (raw_token : Text) (db : Tables) (ctx : SessionContext)
    (answers : (s : Step) → w.up s ≡ true) where
  -- The rows of an accepted token.
  rows-IsAdmitted :
      (sess : Session) (user : User) (device : Device)
      → find (keyed access_hash_of (sha256 raw_token)) db.sessions ≡ some sess
      → text_eq sess.status (codes "revoked") ≡ false
      → ltb sess.expires_at w.now ≡ false
      → find (keyed user_id_of sess.user_id) db.users ≡ some user
      → text_eq user.status (codes "active") ≡ true
      → find (keyed device_id_of sess.device_id) db.devices ≡ some device
      → text_eq device.status (codes "active") ≡ true
      → record {
        session = sess;
        user = user;
        device = device;
        integrity = find (keyed integrity_id_of sess.device_integrity_id) db.integrity;
      }
        ≡ ctx
      → IsAdmitted sha256 w.now raw_token db ctx
  rows-IsAdmitted sess user device found live in_time found_user user_ok found_device device_ok e =
      subst (IsAdmitted sha256 w.now raw_token db) e (record {
        session = found;
        live = not_revoked sess live;
        in_time = ground arith;
        user = found_user;
        user_active = (text_eq_iff user.status (codes "active")).0 user_ok;
        device = found_device;
        device_active = (text_eq_iff device.status (codes "active")).0 device_ok;
        integrity = refl;
      })

  live_session-ended :
      (sess : Session) (db' : Tables)
      → live_session sha256 w raw_token db ≡ (ok sess, db')
      → (find (keyed access_hash_of (sha256 raw_token)) db.sessions ≡ some sess)
        × ((text_eq sess.status (codes "revoked") ≡ false)
            × ((ltb sess.expires_at w.now ≡ false) × (db ≡ db')))
  unfolding ◌>>=◌ or_else or_raise ensure live_session get_session_by_access_token_hash
  live_session-ended sess db' e =
      let up1 = answers session_by_access in
      elim (Option-cases (find (keyed access_hash_of (sha256 raw_token)) db.sessions)) [
        | inl missing ↦ let no : ⊥ = ground arith in absurd no
        | inr (s, found) ↦ (ground arith, (ground arith, (ground arith, ground arith)))
      ]

  active_user-ended :
      (id : Text) (user : User) (db' : Tables)
      → active_user sha256 w id db ≡ (ok user, db')
      → (find (keyed user_id_of id) db.users ≡ some user)
        × ((text_eq user.status (codes "active") ≡ true) × (db ≡ db'))
  unfolding ◌>>=◌ or_else or_raise ensure active_user get_user_by_id
  active_user-ended id user db' e =
      let up2 = answers select_user in
      elim (Option-cases (find (keyed user_id_of id) db.users)) [
        | inl missing ↦ let no : ⊥ = ground arith in absurd no
        | inr (s, found) ↦ (ground arith, (ground arith, ground arith))
      ]

  active_device-ended :
      (id : Text) (device : Device) (db' : Tables)
      → active_device sha256 w id db ≡ (ok device, db')
      → (find (keyed device_id_of id) db.devices ≡ some device)
        × ((text_eq device.status (codes "active") ≡ true) × (db ≡ db'))
  unfolding ◌>>=◌ or_else or_raise ensure active_device get_device_by_id
  active_device-ended id device db' e =
      let up2 = answers select_device in
      elim (Option-cases (find (keyed device_id_of id) db.devices)) [
        | inl missing ↦ let no : ⊥ = ground arith in absurd no
        | inr (s, found) ↦ (ground arith, (ground arith, ground arith))
      ]

  built :
      (sess : Session) (user : User) (device : Device)
      → context_of sha256 w sess user device db ≡ (ok ctx, db)
      → record {
        session = sess;
        user = user;
        device = device;
        integrity = find (keyed integrity_id_of sess.device_integrity_id) db.integrity;
      }
        ≡ ctx
  unfolding ◌>>=◌ or_else or_raise ensure context_of get_integrity_record_by_id
  built sess user device e = let up4 = answers select_integrity in ground arith

  accepted-IsAdmitted :
      verify_access_token sha256 w raw_token db ≡ (ok ctx, db)
      → IsAdmitted sha256 w.now raw_token db ctx
  unfolding verify_access_token context_of get_integrity_record_by_id
  accepted-IsAdmitted e =
      let (sess, (db1, (e1, k1))) =
        bind-ok (live_session sha256 w raw_token)
          (λ s. active_user sha256 w s.user_id >>= λ u.
            active_device sha256 w s.device_id >>= context_of sha256 w s u)
          db db ctx e in
      let (found, (live, (in_time, same1))) = live_session-ended sess db1 e1 in
      let (user, (db2, (e2, k2))) =
        bind-ok (active_user sha256 w sess.user_id)
          (λ u. active_device sha256 w sess.device_id >>= context_of sha256 w sess u) db1 db ctx
          k1 in
      let (found_user, (user_ok, same2)) =
        active_user-ended sess.user_id user db2
          (ap (active_user sha256 w sess.user_id) same1 ∙ e2) in
      let (device, (db3, (e3, k3))) =
        bind-ok (active_device sha256 w sess.device_id) (context_of sha256 w sess user) db2 db ctx
          k2 in
      let (found_device, (device_ok, same3)) =
        active_device-ended sess.device_id device db3
          (ap (active_device sha256 w sess.device_id) same2 ∙ e3) in
      rows-IsAdmitted sess user device found live in_time found_user user_ok found_device device_ok
        (built sess user device (ap (context_of sha256 w sess user device) same3 ∙ k3))

  admitted-accepted :
      IsAdmitted sha256 w.now raw_token db ctx
      → verify_access_token sha256 w raw_token db ≡ (ok ctx, db)
  unfolding ◌>>=◌ or_else or_raise ensure verify_access_token context_of live_session active_user
      active_device get_session_by_access_token_hash get_user_by_id get_device_by_id
      get_integrity_record_by_id
  admitted-accepted h =
      let up1 = answers session_by_access in
      let up2 = answers select_user in
      let up3 = answers select_device in
      let up4 = answers select_integrity in
      let f1 = h.session in
      let f2 = h.user in
      let f3 = h.device in
      let f4 = h.integrity in
      let live : text_eq ctx.session.status (codes "revoked") ≡ false =
        text_eq-false ctx.session.status (codes "revoked") h.live in
      let in_time : ltb ctx.session.expires_at w.now ≡ false =
        (let h2 = h.in_time in ground arith) in
      let user_ok = (text_eq_iff ctx.user.status (codes "active")).1 h.user_active in
      let device_ok = (text_eq_iff ctx.device.status (codes "active")).1 h.device_active in
      ground arith

  -- Where the database answers, exactly the admitted tokens are accepted, and nothing is changed.
  pub verify_access_token_iff :
      (verify_access_token sha256 w raw_token db ≡ (ok ctx, db))
      ↔ IsAdmitted sha256 w.now raw_token db ctx
  verify_access_token_iff = (accepted-IsAdmitted, admitted-accepted)
