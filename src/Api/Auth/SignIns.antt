-- ===== src/Api/Auth/SignIns.antt =====
-- Signing in twice with one identity.
use nearby_payments_api.Base.{◌≡◌, sym, ap, subst, ◌∙◌, List, Text, codes}
use nearby_payments_api.Api.Errors.{Result, ok, Action}
use nearby_payments_api.Api.Auth.Actions.Binds.{bind-ok, bind-at}
use nearby_payments_api.Api.Auth.Types.{OauthCompleteRequest, OauthCompleteResponse}
use nearby_payments_api.Api.Auth.Store.{Tables}
use nearby_payments_api.Api.Auth.Sessions.{World}
use nearby_payments_api.Api.Auth.Google.{Libraries, Google, Object, as_string, as_bool}
use nearby_payments_api.Api.Auth.Claims.{claims_of}
use nearby_payments_api.Api.Auth.Login.{sign_in, oauth_complete}
use nearby_payments_api.Api.Auth.Calls.{Call, calls}
use nearby_payments_api.Api.Auth.Invariants.{Invariant}
use nearby_payments_api.Api.Auth.Stable.{Holds}
use nearby_payments_api.Api.Auth.Stable.Runs.{claims_of-Keeps, calls_keep, no_demand}
use nearby_payments_api.Api.Auth.Identities.{
  IsUserOf, IsSaltOf, known_user, known_salt, user_of-IsUserOf, user_of-again, admit_user-known,
  admit_user-again,
}

-- The claims that name an identity.
abbrev claim : Object → Text → Text
claim claims name = as_string (claims name)

move :
    (T : Text → Text → Text → Type 0) (a b c a' b' c' : Text)
    → a ≡ a'
    → b ≡ b'
    → c ≡ c'
    → T a b c
    → T a' b' c'
move T a b c a' b' c' e1 e2 e3 t =
    subst (λ x. T x b' c') e1 (subst (λ x. T a x c') e2 (subst (λ x. T a b x) e3 t))

module _ (lib : Libraries) (google : Google) where
  signed_in :
      (w : World) (claims : Object) (req : OauthCompleteRequest) (resp : OauthCompleteResponse)
      (db db1 : Tables)
      → sign_in lib google w claims req db ≡ (ok resp, db1)
      → IsUserOf
          (claim claims (codes "iss"))
          (claim claims (codes "sub"))
          (claim claims (codes "aud"))
          resp.user_id
          db1.identities
        × IsSaltOf
            (claim claims (codes "iss"))
            (claim claims (codes "sub"))
            (claim claims (codes "aud"))
            resp.zk_login_salt
            db1.salts
  unfolding sign_in
  signed_in w claims req resp db db1 e =
      let (user, (s1, (q1, k1))) = bind-ok _ _ db db1 resp e in
      let iss = claim claims (codes "iss") in
      let sub = claim claims (codes "sub") in
      let aud = claim claims (codes "aud") in
      let first =
        user_of-IsUserOf iss sub aud lib google w (claim claims (codes "email")) user
          (as_bool (claims (codes "email_verified"))) db s1 q1 in
      let (same, (h, h')) =
        admit_user-known iss sub aud lib google w user req resp s1 db1 first k1 in
      (subst (λ t. IsUserOf iss sub aud t db1.identities) same h, h')

  signed_in_again :
      (w : World) (claims : Object) (req : OauthCompleteRequest) (resp : OauthCompleteResponse)
      (db db1 : Tables) (user salt : Text)
      → IsUserOf
          (claim claims (codes "iss"))
          (claim claims (codes "sub"))
          (claim claims (codes "aud"))
          user
          db.identities
      → IsSaltOf
          (claim claims (codes "iss"))
          (claim claims (codes "sub"))
          (claim claims (codes "aud"))
          salt
          db.salts
      → sign_in lib google w claims req db ≡ (ok resp, db1)
      → (resp.user_id ≡ user) × (resp.zk_login_salt ≡ salt)
  unfolding sign_in
  signed_in_again w claims req resp db db1 user salt h h' e =
      let (user', (s1, (q1, k1))) = bind-ok _ _ db db1 resp e in
      let iss = claim claims (codes "iss") in
      let sub = claim claims (codes "sub") in
      let aud = claim claims (codes "aud") in
      let (same, kept) =
        user_of-again iss sub aud lib google w (claim claims (codes "email")) user user'
          (as_bool (claims (codes "email_verified"))) db s1 h q1 in
      let (same', salt_same) =
        admit_user-again iss sub aud lib google w user' salt req resp s1 db1
          (subst (λ (t : Tables). IsSaltOf iss sub aud salt t.salts) kept h') k1 in
      (sym same' ∙ same, salt_same)

  abbrev sign_in_with : World → OauthCompleteRequest → Object → Action Tables OauthCompleteResponse
  sign_in_with w req claims = sign_in lib google w claims req

  -- Two sign-ins that succeed with one issuer, subject and audience, with any calls of the service
  -- between them, answer the same user and the same salt.
  pub oauth_complete-same :
      (w w' : World) (req req' : OauthCompleteRequest) (claims claims' : Object)
      (resp resp' : OauthCompleteResponse) (db dbc db1 db2 dbc' db3 : Tables)
      (l : List (World × Call))
      → claims_of lib google w req db ≡ (ok claims, dbc)
      → oauth_complete lib google w req db ≡ (ok resp, db1)
      → calls lib google l db1 ≡ db2
      → claims_of lib google w' req' db2 ≡ (ok claims', dbc')
      → as_string (claims' (codes "iss")) ≡ as_string (claims (codes "iss"))
      → as_string (claims' (codes "sub")) ≡ as_string (claims (codes "sub"))
      → as_string (claims' (codes "aud")) ≡ as_string (claims (codes "aud"))
      → oauth_complete lib google w' req' db2 ≡ (ok resp', db3)
      → (resp'.user_id ≡ resp.user_id) × (resp'.zk_login_salt ≡ resp.zk_login_salt)
  unfolding oauth_complete
  oauth_complete-same w w' req req' claims claims' resp resp' db dbc db1 db2 dbc' db3 l c e run c'
        e1 e2 e3 e' =
      let first =
        sym (bind-at (claims_of lib google w req) (sign_in_with w req) db claims dbc c) ∙ e in
      let (h, h') = signed_in w claims req resp dbc db1 first in
      let again =
        sym (bind-at (claims_of lib google w' req') (sign_in_with w' req') db2 claims' dbc' c')
        ∙ e' in
      let iss = claim claims (codes "iss") in
      let sub = claim claims (codes "sub") in
      let aud = claim claims (codes "aud") in
      let user_kept =
        (calls_keep (known_user iss sub aud resp.user_id) lib google l db1 (no_demand l)
          (tt, (tt, h))) in
      let salt_kept =
        (calls_keep (known_salt iss sub aud resp.zk_login_salt) lib google l db1 (no_demand l)
          (tt, (tt, h'))) in
      let at_end : Result Object × Tables → Tables = λ o. o.1 in
      let before : (inv : Invariant) → Holds inv (calls lib google l db1) → Holds inv dbc' =
        λ inv held.
          subst (Holds inv) (ap at_end c')
            ((claims_of-Keeps inv lib google w' req').keeps db2 (subst (Holds inv) run held)) in
      let user_there = (before (known_user iss sub aud resp.user_id) user_kept).1.1 in
      let salt_there = (before (known_salt iss sub aud resp.zk_login_salt) salt_kept).1.1 in
      signed_in_again w' claims' req' resp' dbc' db3 resp.user_id resp.zk_login_salt
        (move (λ i s a. IsUserOf i s a resp.user_id dbc'.identities) iss sub aud _ _ _ (sym e1)
          (sym e2) (sym e3) user_there)
        (move (λ i s a. IsSaltOf i s a resp.zk_login_salt dbc'.salts) iss sub aud _ _ _ (sym e1)
          (sym e2) (sym e3) salt_there)
        again
