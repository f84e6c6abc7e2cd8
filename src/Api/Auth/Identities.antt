-- ===== src/Api/Auth/Identities.antt =====
-- An identity of Google keeps its user and its salt.
use nearby_payments_api.Base.{
  ◌≡◌, sym, ap, subst, ◌∙◌, inl, inr, Bool, none, some, List, ◌∷◌, Text, arith, text_eq_iff,
  text_eq_refl, Option-cases, Bool-cases,
}
use nearby_payments_api.Api.Errors.{Result, ok}
use nearby_payments_api.Api.Auth.Actions.{◌>>=◌, or_raise}
use nearby_payments_api.Api.Auth.Actions.Binds.{bind-ok}
use nearby_payments_api.Api.Rows.{find, map_some}
use nearby_payments_api.Api.Auth.Types.{
  OauthIdentity, ZkLoginSalt, OauthCompleteRequest, OauthCompleteResponse,
}
use nearby_payments_api.Api.Auth.Store.{
  Tables, is_identity, is_salt, add_identity, add_salt, create_oauth_identity, get_oauth_identity,
  create_zk_login_salt, get_or_create_zk_login_salt,
}
use nearby_payments_api.Api.Auth.Sessions.{World}
use nearby_payments_api.Api.Auth.Google.{Libraries, Google}
use nearby_payments_api.Api.Auth.Login.{new_user, user_of, new_salt, salt_of, enroll, admit_user}
use nearby_payments_api.Api.Auth.Invariants.{Invariant, of_logins}
use nearby_payments_api.Api.Auth.Stable.{Holds}
use nearby_payments_api.Api.Auth.Stable.Methods.{
  require_active-Keeps, enroll-Keeps, admit_user-Keeps,
}

abbrev pub user_in : OauthIdentity → Text
user_in oi = oi.user_id

abbrev pub salt_in : ZkLoginSalt → Text
salt_in z = z.salt

module _ (iss sub aud : Text) where
  -- The user of the identity, and its salt.
  abbrev pub IsUserOf : Text → List OauthIdentity → Type 0
  IsUserOf user l = map_some user_in (find (is_identity iss sub aud) l) ≡ some user

  abbrev pub IsSaltOf : Text → List ZkLoginSalt → Type 0
  IsSaltOf salt l = map_some salt_in (find (is_salt iss sub aud) l) ≡ some salt

  pub add-IsUserOf :
      (user : Text) (oi : OauthIdentity) (l : List OauthIdentity)
      → IsUserOf user l
      → find (is_identity oi.issuer oi.subject oi.audience) l ≡ none
      → IsUserOf user (oi ∷ l)
  add-IsUserOf user oi l h fresh = elim (Bool-cases (is_identity iss sub aud oi)) [
    | inr e ↦ rw e h
    | inl e ↦
        let e1 : oi.issuer ≡ iss = (text_eq_iff oi.issuer iss).0 (ground arith) in
        let e2 : oi.subject ≡ sub = (text_eq_iff oi.subject sub).0 (ground arith) in
        let e3 : oi.audience ≡ aud = (text_eq_iff oi.audience aud).0 (ground arith) in
        let gone : find (is_identity iss sub aud) l ≡ none =
          subst (λ t. find (is_identity t sub aud) l ≡ none) e1
            (subst (λ t. find (is_identity oi.issuer t aud) l ≡ none) e2
              (subst (λ t. find (is_identity oi.issuer oi.subject t) l ≡ none) e3 fresh)) in
        let no : ⊥ = ground arith in absurd no
  ]

  pub add-IsSaltOf :
      (salt : Text) (z : ZkLoginSalt) (l : List ZkLoginSalt)
      → IsSaltOf salt l
      → find (is_salt z.issuer z.subject z.audience) l ≡ none
      → IsSaltOf salt (z ∷ l)
  add-IsSaltOf salt z l h fresh = elim (Bool-cases (is_salt iss sub aud z)) [
    | inr e ↦ rw e h
    | inl e ↦
        let e1 : z.issuer ≡ iss = (text_eq_iff z.issuer iss).0 (ground arith) in
        let e2 : z.subject ≡ sub = (text_eq_iff z.subject sub).0 (ground arith) in
        let e3 : z.audience ≡ aud = (text_eq_iff z.audience aud).0 (ground arith) in
        let gone : find (is_salt iss sub aud) l ≡ none =
          subst (λ t. find (is_salt t sub aud) l ≡ none) e1
            (subst (λ t. find (is_salt z.issuer t aud) l ≡ none) e2
              (subst (λ t. find (is_salt z.issuer z.subject t) l ≡ none) e3 fresh)) in
        let no : ⊥ = ground arith in absurd no
  ]

  -- The identity has the salt.
  abbrev pub known_salt : Text → Invariant
  known_salt salt =
      of_logins (λ l salts. IsSaltOf salt salts)
        (record {
          identity = λ oi l salts h fresh. h;
          salt = λ z l salts h fresh. add-IsSaltOf salt z salts h fresh;
        })

  -- The identity has the user.
  abbrev pub known_user : Text → Invariant
  known_user user =
      of_logins (λ l salts. IsUserOf user l)
        (record {
          identity = λ oi l salts h fresh. add-IsUserOf user oi l h fresh;
          salt = λ z l salts h fresh. h;
        })

  module _ (lib : Libraries) (google : Google) (w : World) where
    created :
        (oi : OauthIdentity) (db db1 : Tables) (u : Unit {0})
        → create_oauth_identity w.up oi db ≡ (ok u, db1)
        → oi ∷ db.identities ≡ db1.identities
    unfolding create_oauth_identity add_identity
    created oi db db1 u e = ground arith

    new_user-IsUserOf :
        (email user : Text) (verified : Bool) (db db1 : Tables)
        → new_user lib google w iss sub aud email verified db ≡ (ok user, db1)
        → IsUserOf user db1.identities
    unfolding new_user
    new_user-IsUserOf email user verified db db1 e =
        let (u1, (s1, (q1, k1))) = bind-ok _ _ db db1 user e in
        let (u2, (s2, (q2, k2))) = bind-ok _ _ s1 db1 user k1 in
        let ids = created _ s1 s2 u2 q2 in
        let same : w.user_id ≡ user = cc in
        let same_db : s2 ≡ db1 = cc in
        let e1 = text_eq_refl iss in
        let e2 = text_eq_refl sub in
        let e3 = text_eq_refl aud in
        subst (λ l. IsUserOf user l) (ids ∙ ap (λ (t : Tables). t.identities) same_db)
          (rw (e1, e2, e3) (ap some same))

    pub user_of-IsUserOf :
        (email user : Text) (verified : Bool) (db db1 : Tables)
        → user_of lib google w iss sub aud email verified db ≡ (ok user, db1)
        → IsUserOf user db1.identities
    unfolding user_of get_oauth_identity ◌>>=◌
    user_of-IsUserOf email user verified db db1 e =
        elim (Option-cases (find (is_identity iss sub aud) db.identities)) [
          | inl q ↦ new_user-IsUserOf email user verified db db1 (ground arith)
          | inr (oi, q) ↦ ground arith
        ]

    pub user_of-again :
        (email user user' : Text) (verified : Bool) (db db1 : Tables)
        → IsUserOf user db.identities
        → user_of lib google w iss sub aud email verified db ≡ (ok user', db1)
        → (user' ≡ user) × (db ≡ db1)
    unfolding user_of get_oauth_identity ◌>>=◌
    user_of-again email user user' verified db db1 h e =
        elim (Option-cases (find (is_identity iss sub aud) db.identities)) [
          | inl q ↦ let no : ⊥ = ground arith in absurd no
          | inr (oi, q) ↦ (ground arith, ground arith)
        ]

    salt_of-IsSaltOf :
        (user salt : Text) (db db1 : Tables)
        → salt_of lib google w user iss sub aud db ≡ (ok salt, db1)
        → IsSaltOf salt db1.salts
    unfolding salt_of get_or_create_zk_login_salt ◌>>=◌ new_salt or_raise create_zk_login_salt
        add_salt
    salt_of-IsSaltOf user salt db db1 e =
        let e1 = text_eq_refl iss in
        let e2 = text_eq_refl sub in
        let e3 = text_eq_refl aud in
        elim (Option-cases (find (is_salt iss sub aud) db.salts)) [
          | inl q ↦ ground arith
          | inr (z, q) ↦ ground arith
        ]

    salt_of-again :
        (user salt salt' : Text) (db db1 : Tables)
        → IsSaltOf salt db.salts
        → salt_of lib google w user iss sub aud db ≡ (ok salt', db1)
        → salt' ≡ salt
    unfolding salt_of get_or_create_zk_login_salt ◌>>=◌
    salt_of-again user salt salt' db db1 h e =
        elim (Option-cases (find (is_salt iss sub aud) db.salts)) [
          | inl q ↦ let no : ⊥ = ground arith in absurd no
          | inr (z, q) ↦ ground arith
        ]

    enroll-ended :
        (user salt : Text) (req : OauthCompleteRequest) (resp : OauthCompleteResponse)
        (db db1 : Tables)
        → enroll lib google w user salt iss aud req db ≡ (ok resp, db1)
        → (user ≡ resp.user_id) × (salt ≡ resp.zk_login_salt)
    unfolding enroll
    enroll-ended user salt req resp db db1 e =
        let (u, (s1, (q1, k1))) = bind-ok _ _ db db1 resp e in
        let (u2, (s2, (q2, k2))) = bind-ok _ _ s1 db1 resp k1 in
        let (tokens, (s3, (q3, k3))) = bind-ok _ _ s2 db1 resp k2 in (ground arith, ground arith)

    -- A sign-in of a user leaves the identity with the user and the salt that it answers.
    pub admit_user-known :
        (user : Text) (req : OauthCompleteRequest) (resp : OauthCompleteResponse) (db db1 : Tables)
        → IsUserOf user db.identities
        → admit_user lib google w user iss sub aud req db ≡ (ok resp, db1)
        → (user ≡ resp.user_id)
          × (IsUserOf user db1.identities × IsSaltOf resp.zk_login_salt db1.salts)
    unfolding admit_user
    admit_user-known user req resp db db1 h e =
        let (u, (s1, (q1, k1))) = bind-ok _ _ db db1 resp e in
        let (salt, (s2, (q2, k2))) = bind-ok _ _ s1 db1 resp k1 in
        let (is_user, is_salt_of) = enroll-ended user salt req resp s2 db1 k2 in
        let at_end : Result OauthCompleteResponse × Tables → Tables = λ o. o.1 in
        let user_kept = subst (Holds (known_user user)) (ap at_end e) (
          (admit_user-Keeps (known_user user) lib google w user iss sub aud req).keeps db
            (tt, (tt, h))) in
        let salt_kept = subst (Holds (known_salt salt)) (ap at_end k2) (
          (enroll-Keeps (known_salt salt) lib google w user salt iss aud req).keeps s2
            (tt, (tt, salt_of-IsSaltOf user salt s1 s2 q2))) in
        (is_user, (user_kept.1.1, subst (λ t. IsSaltOf t db1.salts) is_salt_of salt_kept.1.1))

    pub admit_user-again :
        (user salt : Text) (req : OauthCompleteRequest) (resp : OauthCompleteResponse)
        (db db1 : Tables)
        → IsSaltOf salt db.salts
        → admit_user lib google w user iss sub aud req db ≡ (ok resp, db1)
        → (user ≡ resp.user_id) × (resp.zk_login_salt ≡ salt)
    unfolding admit_user
    admit_user-again user salt req resp db db1 h e =
        let (u, (s1, (q1, k1))) = bind-ok _ _ db db1 resp e in
        let (salt', (s2, (q2, k2))) = bind-ok _ _ s1 db1 resp k1 in
        let (is_user, is_salt_of) = enroll-ended user salt' req resp s2 db1 k2 in
        let at_end : Result (Unit {0}) × Tables → Tables = λ o. o.1 in
        let kept =
          subst (Holds (known_salt salt)) (ap at_end q1)
            ((require_active-Keeps (known_salt salt) lib google w user).keeps db (tt, (tt, h))) in
        (is_user, sym is_salt_of ∙ salt_of-again user salt salt' s1 s2 kept.1.1 q2)
