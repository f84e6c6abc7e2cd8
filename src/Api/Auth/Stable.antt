-- ===== src/Api/Auth/Stable.antt =====
-- What the statements of the store keep of an invariant.
pub mod Methods
pub mod Runs
use nearby_payments_api.Base.{
  ℕ, ◌≡◌, refl, subst, ◌⊎◌, inl, inr, Bool-cases, if◌then◌else◌, ◌||◌, not, Bool, true, false,
  Option, none, some, List, [], ◌∷◌, ◌++◌, Text, codes, arith, text_eq,
}
use nearby_payments_api.Api.Errors.{exec}
use nearby_payments_api.Api.Auth.Actions.Binds.{Keeps, exec-Keeps}
use nearby_payments_api.Api.Rows.{find, keyed, update}
use nearby_payments_api.Api.Wallets.{WalletBinding}
use nearby_payments_api.Api.Auth.Types.{
  User, OauthIdentity, Device, DeviceIntegrityRecord, Session, ZkLoginSalt,
}
use nearby_payments_api.Api.Auth.Store.{
  Tables, Step, session_id_of, access_hash_of, refresh_hash_of, is_identity, is_salt, with_tokens,
  taken, revoked, set_revoked, add_user, add_identity, add_device, add_integrity, add_session,
  add_salt, put_wallet, create_user, create_oauth_identity, create_device,
  create_device_integrity_record, create_session, create_zk_login_salt, upsert_wallet_binding,
  revoke_session_row, exists,
}
use nearby_payments_api.Api.Auth.Invariants.{Invariant}

module _ {A : Type 0} where
  fresh : (o : Option A) → exists o ≡ false → o ≡ none
  fresh none e = refl
  fresh (some s) e = cc

module _ (inv : Invariant) where
  abbrev pub Holds : Tables → Type 0
  Holds db = inv.sessions db.sessions × (inv.redis db.redis × inv.logins db.identities db.salts)

  -- The parts of other tables that are the same.
  pub transfer :
      (db db' : Tables)
      → db.sessions ≡ db'.sessions
      → db.redis ≡ db'.redis
      → db.identities ≡ db'.identities
      → db.salts ≡ db'.salts
      → Holds db
      → Holds db'
  transfer db db' e1 e2 e3 e4 (q, (r, t)) = (
    subst inv.sessions e1 q,
    (
      subst inv.redis e2 r,
      subst (inv.logins db'.identities) e4 (subst (λ l. inv.logins l db.salts) e3 t),
    ),
  )

  -- A statement on another table.
  other-Keeps :
      (up : Bool) (f : Tables → Option Tables)
      → ((db db' : Tables)
          → f db ≡ some db'
          → (db.sessions ≡ db'.sessions)
            × ((db.redis ≡ db'.redis)
                × ((db.identities ≡ db'.identities) × (db.salts ≡ db'.salts))))
      → Keeps Holds (exec up f)
  other-Keeps up f same =
      exec-Keeps Holds up f
        (λ db db' h e. let (e1, (e2, (e3, e4))) = same db db' e in transfer db db' e1 e2 e3 e4 h)

  pub create_user-Keeps : (up : Step → Bool) (u : User) → Keeps Holds (create_user up u)
  unfolding create_user add_user
  create_user-Keeps up u =
      other-Keeps _ (add_user u)
        (λ db db' e. (ground arith, (ground arith, (ground arith, ground arith))))

  pub create_device-Keeps : (up : Step → Bool) (d : Device) → Keeps Holds (create_device up d)
  unfolding create_device add_device
  create_device-Keeps up d =
      other-Keeps _ (add_device d)
        (λ db db' e. (ground arith, (ground arith, (ground arith, ground arith))))

  pub create_device_integrity_record-Keeps :
      (up : Step → Bool) (r : DeviceIntegrityRecord)
      → Keeps Holds (create_device_integrity_record up r)
  unfolding create_device_integrity_record add_integrity
  create_device_integrity_record-Keeps up r =
      other-Keeps _ (add_integrity r)
        (λ db db' e. (ground arith, (ground arith, (ground arith, ground arith))))

  pub upsert_wallet_binding-Keeps :
      (up : Step → Bool) (wb : WalletBinding) → Keeps Holds (upsert_wallet_binding up wb)
  unfolding upsert_wallet_binding put_wallet
  upsert_wallet_binding-Keeps up wb =
      other-Keeps _ (put_wallet wb)
        (λ db db' e. (ground arith, (ground arith, (ground arith, ground arith))))

  pub create_oauth_identity-Keeps :
      (up : Step → Bool) (oi : OauthIdentity) → Keeps Holds (create_oauth_identity up oi)
  unfolding create_oauth_identity add_identity
  create_oauth_identity-Keeps up oi = exec-Keeps Holds _ (add_identity oi) (λ db db' (q, (r, t)) e.
      let kept = inv.login_stable.identity oi db.identities db.salts t (fresh _ (ground arith)) in
      transfer (record db { identities = oi ∷ db.identities }) db' (ground arith) (ground arith)
        (ground arith) (ground arith) (q, (r, kept)))

  salt_keeps : (z : ZkLoginSalt) (db db' : Tables) → Holds db → add_salt z db ≡ some db' → Holds db'
  unfolding add_salt
  salt_keeps z db db' (q, (r, t)) e =
      elim (Bool-cases (exists (find (is_salt z.issuer z.subject z.audience) db.salts))) [
        | inl there ↦
            transfer db db' (ground arith) (ground arith) (ground arith) (ground arith) (q, (r, t))
        | inr none_there ↦
            let kept = inv.login_stable.salt z db.identities db.salts t (fresh _ none_there) in
            transfer (record db { salts = z ∷ db.salts }) db' (ground arith) (ground arith)
              (ground arith) (ground arith) (q, (r, kept))
      ]

  pub create_zk_login_salt-Keeps :
      (up : Step → Bool) (z : ZkLoginSalt) → Keeps Holds (create_zk_login_salt up z)
  unfolding create_zk_login_salt
  create_zk_login_salt-Keeps up z = exec-Keeps Holds _ (add_salt z) (salt_keeps z)

  pub create_session-Keeps : (up : Step → Bool) (s : Session) → Keeps Holds (create_session up s)
  unfolding create_session add_session
  create_session-Keeps up s = exec-Keeps Holds _ (add_session s) (λ db db' (q, rest) e.
      let kept =
        inv.stable.add s db.sessions q (fresh _ (ground arith)) (fresh _ (ground arith))
          (fresh _ (ground arith)) in
      transfer (record db { sessions = s ∷ db.sessions }) db' (ground arith) (ground arith)
        (ground arith) (ground arith) (kept, rest))

  pub revoke_session_row-Keeps :
      (up : Step → Bool) (id : Text) → Keeps Holds (revoke_session_row up id)
  unfolding revoke_session_row
  revoke_session_row-Keeps up id = exec-Keeps Holds _ (set_revoked id) (λ db db' (q, rest) e.
      transfer (record db { sessions = update session_id_of id revoked db.sessions }) db'
        (ground arith) (ground arith) (ground arith) (ground arith)
        (inv.stable.revoke id db.sessions q, rest))
