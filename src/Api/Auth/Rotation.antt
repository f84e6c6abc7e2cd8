-- ===== src/Api/Auth/Rotation.antt =====
-- What a refresh leaves: new tokens that work, and old ones that no longer do.
use nearby_payments_api.Base.{
  suc, ◌+◌, ◌<◌, ◌≡◌, refl, sym, ap, subst, ◌∙◌, ◌≢◌, inl, inr, true, false, not, ◌&&◌, ◌||◌, none,
  some, List, Text, codes, arith, text_eq, Option-cases, Bool-cases,
}
use nearby_payments_api.Api.Errors.{ok, err}
use nearby_payments_api.Api.Auth.Actions.{◌>>=◌, or_else, or_raise, ensure}
use nearby_payments_api.Api.Auth.Actions.Binds.{bind-ok}
use nearby_payments_api.Api.Rows.{find, keyed, update}
use nearby_payments_api.Api.Rows.Unique.{Unique, find-keyed, find-update_new, find-update_old}
use nearby_payments_api.Api.Auth.Types.{Session, SessionRefreshResponse, err_invalid_token}
use nearby_payments_api.Api.Auth.Store.{
  Tables, session_by_access, session_by_refresh, update_tokens, session_id_of, access_hash_of,
  refresh_hash_of, with_tokens, taken, set_tokens, update_session_tokens,
  get_session_by_access_token_hash, get_session_by_refresh_token_hash,
}
use nearby_payments_api.Api.Auth.Sessions.{
  World, access_token_ttl, refresh_token_ttl, rotate, refreshable_session, refresh_session,
  live_session,
}

-- Without duplicates, as the constraints of the table have it.
pub record IsKeyed (l : List Session) : Type 0 where
  pub ids : Unique session_id_of l
  pub access_hashes : Unique access_hash_of l
  pub refresh_hashes : Unique refresh_hash_of l

module _ (sha256 : Text → Text) (w : World) where
  -- The row that a refresh with these tokens leaves.
  abbrev pub rotated : Text → Text → Session → Session
  rotated access refresh =
      with_tokens (sha256 access) (sha256 refresh) (w.now + access_token_ttl)
        (w.now + refresh_token_ttl)

  -- A refresh of the session that succeeded.
  pub record IsRotated (sess : Session) (resp : SessionRefreshResponse) (db db' : Tables)
      : Type 0 where
    pub refresh : Text
    pub drawn : w.refresh_token ≡ some refresh
    pub expires : resp.expires_at ≡ w.now + access_token_ttl
    pub free_access : taken access_hash_of sess.id (sha256 resp.access_token) db.sessions ≡ false
    pub free_refresh : taken refresh_hash_of sess.id (sha256 refresh) db.sessions ≡ false
    pub sessions :
        db'.sessions ≡ update session_id_of sess.id (rotated resp.access_token refresh) db.sessions
    pub redis : db'.redis ≡ db.redis
    pub identities : db'.identities ≡ db.identities
    pub salts : db'.salts ≡ db.salts

  pub refreshable_session-ended :
      (token : Text) (sess : Session) (db db' : Tables)
      → refreshable_session sha256 w token db ≡ (ok sess, db')
      → (find (keyed refresh_hash_of (sha256 token)) db.sessions ≡ some sess)
        × ((text_eq sess.status (codes "revoked") ≡ false) × (db ≡ db'))
  unfolding ◌>>=◌ or_else or_raise ensure refreshable_session get_session_by_refresh_token_hash
  refreshable_session-ended token sess db db' e = elim (Bool-cases (w.up session_by_refresh)) [
    | inr down ↦ let no : ⊥ = ground arith in absurd no
    | inl up ↦ elim (Option-cases (find (keyed refresh_hash_of (sha256 token)) db.sessions)) [
      | inl missing ↦ let no : ⊥ = ground arith in absurd no
      | inr (s, found) ↦ (ground arith, (ground arith, ground arith))
    ]
  ]

  ended :
      (sess : Session) (resp : SessionRefreshResponse) (db db' : Tables) (access refresh : Text)
      → w.refresh_token ≡ some refresh
      → taken access_hash_of sess.id (sha256 access) db.sessions
          || taken refresh_hash_of sess.id (sha256 refresh) db.sessions
        ≡ false
      → access ≡ resp.access_token
      → w.now + access_token_ttl ≡ resp.expires_at
      → record db { sessions = update session_id_of sess.id (rotated access refresh) db.sessions }
        ≡ db'
      → IsRotated sess resp db db'
  ended sess resp db db' access refresh drawn free same expires sessions =
      let free' =
        subst
          (λ t.
            taken access_hash_of sess.id (sha256 t) db.sessions
              || taken refresh_hash_of sess.id (sha256 refresh) db.sessions
            ≡ false)
          same free in
      record {
        refresh = refresh;
        drawn = drawn;
        expires = sym expires;
        free_access = ground arith;
        free_refresh = ground arith;
        sessions =
            sym (ap (λ (t : Tables). t.sessions) sessions)
            ∙ ap (λ t. update session_id_of sess.id (rotated t refresh) db.sessions) same;
        redis = sym (ap (λ (t : Tables). t.redis) sessions);
        identities = sym (ap (λ (t : Tables). t.identities) sessions);
        salts = sym (ap (λ (t : Tables). t.salts) sessions);
      }

  pub rotate-IsRotated :
      (sess : Session) (resp : SessionRefreshResponse) (db db' : Tables)
      → rotate sha256 w sess db ≡ (ok resp, db')
      → IsRotated sess resp db db'
  unfolding ◌>>=◌ or_else or_raise ensure rotate update_session_tokens set_tokens
  rotate-IsRotated sess resp db db' e = elim (Option-cases w.access_token) [
    | inl missing ↦ let no : ⊥ = ground arith in absurd no
    | inr (access, drawn_access) ↦ elim (Option-cases w.refresh_token) [
      | inl missing ↦ let no : ⊥ = ground arith in absurd no
      | inr (refresh, drawn) ↦ elim (Bool-cases (w.up update_tokens)) [
        | inr down ↦ let no : ⊥ = ground arith in absurd no
        | inl up ↦
            elim (Bool-cases (
              taken access_hash_of sess.id (sha256 access) db.sessions
              || taken refresh_hash_of sess.id (sha256 refresh) db.sessions)) [
                | inl both ↦ let no : ⊥ = ground arith in absurd no
                | inr free ↦
                    ended sess resp db db' access refresh drawn free (ground arith) (ground arith)
                      (ground arith)
              ]
      ]
    ]
  ]

  pub refresh_session-ended :
      (token : Text) (resp : SessionRefreshResponse) (db db' : Tables)
      → refresh_session sha256 w token db ≡ (ok resp, db')
      → (sess : Session) × ((find (keyed refresh_hash_of (sha256 token)) db.sessions ≡ some sess)
          × ((text_eq sess.status (codes "revoked") ≡ false) × IsRotated sess resp db db'))
  unfolding refresh_session
  refresh_session-ended token resp db db' e =
      let (sess, (db1, (e1, k1))) =
        bind-ok (refreshable_session sha256 w token) (rotate sha256 w) db db' resp e in
      let (found, (live, same)) = refreshable_session-ended token sess db db1 e1 in
      (
        sess,
        (found, (live, rotate-IsRotated sess resp db db' (ap (rotate sha256 w sess) same ∙ k1))),
      )

pub absent_of :
    (key : Session → Text) (id value : Text) (l : List Session)
    → taken key id value l ≡ false
    → find (λ s. text_eq (key s) value && not (text_eq s.id id)) l ≡ none
absent_of key id value l e =
    elim (Option-cases (find (λ s. text_eq (key s) value && not (text_eq s.id id)) l)) [
      | inl q ↦ q
      | inr (s, q) ↦ let no : ⊥ = ground arith in absurd no
    ]

-- A call with a token that no session has.
module _ (sha256 : Text → Text) (w : World) (token : Text) (db : Tables) where
  live_session-absent :
      w.up session_by_access ≡ true
      → find (keyed access_hash_of (sha256 token)) db.sessions ≡ none
      → live_session sha256 w token db ≡ (err err_invalid_token, db)
  unfolding ◌>>=◌ or_else or_raise ensure live_session get_session_by_access_token_hash
  live_session-absent up missing = ground arith

  refresh_session-absent :
      w.up session_by_refresh ≡ true
      → find (keyed refresh_hash_of (sha256 token)) db.sessions ≡ none
      → refresh_session sha256 w token db ≡ (err err_invalid_token, db)
  unfolding ◌>>=◌ or_else or_raise ensure refresh_session refreshable_session
      get_session_by_refresh_token_hash
  refresh_session-absent up missing = ground arith

  live_session-found :
      (sess : Session)
      → w.up session_by_access ≡ true
      → find (keyed access_hash_of (sha256 token)) db.sessions ≡ some sess
      → text_eq sess.status (codes "revoked") ≡ false
      → w.now < suc sess.expires_at
      → live_session sha256 w token db ≡ (ok sess, db)
  unfolding ◌>>=◌ or_else or_raise ensure live_session get_session_by_access_token_hash
  live_session-found sess up found live in_time = ground arith

-- What is known of the tokens after a refresh in the world w, at calls in the world w'.
pub record IsReplaced (sha256 : Text → Text) (w w' : World) (token old_access : Text)
    (resp : SessionRefreshResponse) (db db' : Tables) : Type 0 where
  pub sess : Session
  pub refresh : Text
  pub found : find (keyed refresh_hash_of (sha256 token)) db.sessions ≡ some sess
  pub new_access :
      live_session sha256 w' resp.access_token db'
      ≡ (ok (rotated sha256 w resp.access_token refresh sess), db')
  pub old_access_refused : live_session sha256 w' old_access db' ≡ (err err_invalid_token, db')
  pub old_refresh_refused : refresh_session sha256 w' token db' ≡ (err err_invalid_token, db')

module _ (sha256 : Text → Text) (w w' : World) (db db' : Tables) where
  -- On the tables that a refresh leaves which succeeds, where no two sessions shared an id or a token,
  -- the new access token is that of a live session until it expires, the refresh token that was used is
  -- refused, and so is the access token that the session had, all by a database that answers, where
  -- the new tokens have other hashes than the old ones.
  pub refresh_session-rotates :
      (token old_access : Text) (resp : SessionRefreshResponse)
      → IsKeyed db.sessions
      → refresh_session sha256 w token db ≡ (ok resp, db')
      → find (keyed access_hash_of (sha256 old_access)) db.sessions
        ≡ find (keyed refresh_hash_of (sha256 token)) db.sessions
      → sha256 resp.access_token ≢ sha256 old_access
      → ((refresh : Text) → w.refresh_token ≡ some refresh → sha256 refresh ≢ sha256 token)
      → w'.up session_by_access ≡ true
      → w'.up session_by_refresh ≡ true
      → w'.now < suc resp.expires_at
      → IsReplaced sha256 w w' token old_access resp db db'
  refresh_session-rotates token old_access resp keys e both new_access new_refresh up1 up2 in_time =
      let (sess, (found, (live, r))) = refresh_session-ended sha256 w token resp db db' e in
      let sets : Session → Session = rotated sha256 w resp.access_token r.refresh in
      let mine : find (keyed session_id_of sess.id) db.sessions ≡ some sess =
        find-keyed session_id_of (keyed refresh_hash_of (sha256 token)) db.sessions sess keys.ids
          found in
      let at_access =
        find-update_new session_id_of sess.id sets access_hash_of (sha256 resp.access_token)
          (λ s. refl) db.sessions sess mine
          (absent_of access_hash_of sess.id (sha256 resp.access_token) db.sessions r.free_access) in
      let no_access =
        find-update_old session_id_of sess.id sets access_hash_of (sha256 resp.access_token)
          (λ s. refl) db.sessions sess (sha256 old_access) new_access keys.access_hashes
          (both ∙ found) refl in
      let no_refresh =
        find-update_old session_id_of sess.id sets refresh_hash_of (sha256 r.refresh) (λ s. refl)
          db.sessions sess (sha256 token) (new_refresh r.refresh r.drawn) keys.refresh_hashes found
          refl in
      record {
        sess = sess;
        refresh = r.refresh;
        found = found;
        new_access =
            live_session-found sha256 w' resp.access_token db' (sets sess) up1
              (ap (find (keyed access_hash_of (sha256 resp.access_token))) r.sessions ∙ at_access)
              live (subst (λ t. w'.now < suc t) r.expires in_time);
        old_access_refused =
            live_session-absent sha256 w' old_access db' up1
              (ap (find (keyed access_hash_of (sha256 old_access))) r.sessions ∙ no_access);
        old_refresh_refused =
            refresh_session-absent sha256 w' token db' up2
              (ap (find (keyed refresh_hash_of (sha256 token))) r.sessions ∙ no_refresh);
      }
