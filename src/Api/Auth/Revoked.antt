-- ===== src/Api/Auth/Revoked.antt =====
-- A session that is revoked stays as it is, after any sequence of calls.
use nearby_payments_api.Base.{
  ℕ, ◌≡◌, refl, sym, ap, subst, ◌∙◌, inl, inr, true, false, none, some, List, ◌∷◌, Text, codes,
  arith, text_eq, text_eq_iff, text_eq_refl, if◌then◌else◌, Bool-cases,
}
use nearby_payments_api.Api.Errors.{err}
use nearby_payments_api.Api.Auth.Actions.{◌>>=◌, or_else, or_raise, ensure}
use nearby_payments_api.Api.Rows.{find, map_some, keyed, update, find_sound, find-update_self}
use nearby_payments_api.Api.Rows.Unique.{find-keyed, find-update_by}
use nearby_payments_api.Api.Auth.Types.{Session, SessionContext, err_session_revoked}
use nearby_payments_api.Api.Auth.Store.{
  Tables, revoke, session_by_access, session_by_refresh, session_id_of, access_hash_of,
  refresh_hash_of, with_tokens, taken, revoked, revoke_session_row,
  get_session_by_access_token_hash, get_session_by_refresh_token_hash,
}
use nearby_payments_api.Api.Auth.Sessions.{
  World, refreshable_session, refresh_session, revoke_session, live_session, verify_access_token,
}
use nearby_payments_api.Api.Auth.Google.{Libraries, Google}
use nearby_payments_api.Api.Auth.Calls.{Call, revoke_call, call, calls}
use nearby_payments_api.Api.Auth.Rotation.{IsKeyed}
use nearby_payments_api.Api.Auth.Invariants.{IsStable}
use nearby_payments_api.Api.Auth.Stable.Runs.{sessions_keep}
use nearby_payments_api.Api.Auth.Keyed.{add-IsKeyed, rotate-IsKeyed, revoke-IsKeyed}

-- The row is in the table, and revoked.
record IsRevoked (row : Session) (l : List Session) : Type 0 where
  keys : IsKeyed l
  there : find (keyed session_id_of row.id) l ≡ some row
  is_revoked : row.status ≡ codes "revoked"

module _ (row : Session) where
  -- An update that leaves the row as it is.
  update-there :
      (id : Text) (f : Session → Session) (l : List Session)
      → ((s : Session) → (f s).id ≡ s.id)
      → (text_eq row.id id ≡ true → f row ≡ row)
      → find (keyed session_id_of row.id) l ≡ some row
      → find (keyed session_id_of row.id) (update session_id_of id f l) ≡ some row
  update-there id f l keeps same found =
      find-update_by session_id_of id f (keyed session_id_of row.id)
        (λ s. ap (λ t. text_eq t row.id) (keeps s)) l
      ∙ (ap (map_some (λ a. if keyed session_id_of id a then f a else a)) found
          ∙ (elim (Bool-cases (text_eq row.id id)) [
            | inl e ↦ rw e (ap some (same e))
            | inr e ↦ rw e refl
          ]))

  add-IsRevoked :
      (s : Session) (l : List Session)
      → IsRevoked row l
      → find (keyed session_id_of s.id) l ≡ none
      → find (keyed access_hash_of s.access_token_hash) l ≡ none
      → find (keyed refresh_hash_of s.refresh_token_hash) l ≡ none
      → IsRevoked row (s ∷ l)
  add-IsRevoked s l h no_id no_access no_refresh = record {
    keys = add-IsKeyed s l h.keys no_id no_access no_refresh;
    there = elim (Bool-cases (text_eq s.id row.id)) [
      | inl e ↦ let same = (text_eq_iff s.id row.id).0 e in let found = h.there in cc
      | inr e ↦ rw e h.there
    ];
    is_revoked = h.is_revoked;
  }

  -- A session that is refreshed is not the revoked one.
  not_the_row :
      (sess : Session) (hash : Text) (l : List Session)
      → IsRevoked row l
      → find (keyed refresh_hash_of hash) l ≡ some sess
      → text_eq sess.status (codes "revoked") ≡ false
      → text_eq row.id sess.id ≡ true
      → ⊥
  not_the_row sess hash l h found live e =
      let mine = find-keyed session_id_of (keyed refresh_hash_of hash) l sess h.keys.ids found in
      let same : row.id ≡ sess.id = (text_eq_iff row.id sess.id).0 e in
      let row_there = h.there in
      let one : some row ≡ some sess =
        sym row_there ∙ (ap (λ t. find (keyed session_id_of t) l) same ∙ mine) in
      let hit = (text_eq_iff row.status (codes "revoked")).1 h.is_revoked in ground arith

  rotate-IsRevoked :
      (sess : Session) (hash access refresh : Text) (expires refresh_expires : ℕ) (l : List Session)
      → IsRevoked row l
      → find (keyed refresh_hash_of hash) l ≡ some sess
      → text_eq sess.status (codes "revoked") ≡ false
      → taken access_hash_of sess.id access l ≡ false
      → taken refresh_hash_of sess.id refresh l ≡ false
      → IsRevoked row
          (update session_id_of sess.id (with_tokens access refresh expires refresh_expires) l)
  rotate-IsRevoked sess hash access refresh expires refresh_expires l h found live free free' =
      record {
        keys = rotate-IsKeyed sess.id access refresh expires refresh_expires l h.keys free free';
        there =
            update-there sess.id _ l (λ s. refl)
              (λ e. absurd (not_the_row sess hash l h found live e)) h.there;
        is_revoked = h.is_revoked;
      }

  revoke-IsRevoked :
      (id : Text) (l : List Session)
      → IsRevoked row l
      → IsRevoked row (update session_id_of id revoked l)
  revoke-IsRevoked id l h = record {
    keys = revoke-IsKeyed id l h.keys;
    there =
        update-there id revoked l (λ s. refl)
          (λ e. ap (λ t. record row { status = t }) (sym h.is_revoked)) h.there;
    is_revoked = h.is_revoked;
  }

  IsRevoked-IsStable : IsStable (IsRevoked row)
  IsRevoked-IsStable = record {
    add = add-IsRevoked;
    rotate = rotate-IsRevoked;
    revoke = revoke-IsRevoked;
  }

module _ (sha256 : Text → Text) (w : World) (token : Text) (row : Session) (db : Tables) where
  verify-refused :
      w.up session_by_access ≡ true
      → find (keyed access_hash_of (sha256 token)) db.sessions ≡ some row
      → text_eq row.status (codes "revoked") ≡ true
      → verify_access_token sha256 w token db ≡ (err err_session_revoked, db)
  unfolding ◌>>=◌ or_else or_raise ensure verify_access_token live_session
      get_session_by_access_token_hash
  verify-refused up found dead = ground arith

  refresh-refused :
      w.up session_by_refresh ≡ true
      → find (keyed refresh_hash_of (sha256 token)) db.sessions ≡ some row
      → text_eq row.status (codes "revoked") ≡ true
      → refresh_session sha256 w token db ≡ (err err_session_revoked, db)
  unfolding ◌>>=◌ or_else or_raise ensure refresh_session refreshable_session
      get_session_by_refresh_token_hash
  refresh-refused up found dead = ground arith

module _ (lib : Libraries) (google : Google) where
  sessions-revoke_call :
      (w : World) (ctx : SessionContext) (db : Tables)
      → w.up revoke ≡ true
      → update session_id_of ctx.session.id revoked db.sessions
        ≡ (call lib google w (revoke_call ctx) db).sessions
  unfolding call revoke_session revoke_session_row
  sessions-revoke_call w ctx db up = ground arith

  revoked-IsRevoked :
      (ctx : SessionContext) (row : Session) (l : List Session)
      → IsKeyed l
      → find (keyed session_id_of ctx.session.id) l ≡ some row
      → IsRevoked (revoked row) (update session_id_of ctx.session.id revoked l)
  revoked-IsRevoked ctx row l keys found = record {
    keys = revoke-IsKeyed ctx.session.id l keys;
    there =
        ap (λ t. find (keyed session_id_of t) (update session_id_of ctx.session.id revoked l))
          (find_sound session_id_of ctx.session.id l row found)
        ∙ (find-update_self session_id_of revoked (λ s. refl) ctx.session.id l
            ∙ ap (map_some revoked) found);
    is_revoked = refl;
  }

  -- After a session is revoked, by a call that the database answers, and any further calls, both
  -- tokens that it had then are refused as those of a revoked session, and nothing is changed, where
  -- the database answers.
  pub revoked_forever :
      (w : World) (ctx : SessionContext) (row : Session) (db : Tables) (l : List (World × Call))
      → IsKeyed db.sessions
      → find (keyed session_id_of ctx.session.id) db.sessions ≡ some row
      → w.up revoke ≡ true
      → (db' : Tables) (w' : World) (access refresh : Text)
      → calls lib google ((w, revoke_call ctx) ∷ l) db ≡ db'
      → lib.sha256 access ≡ row.access_token_hash
      → lib.sha256 refresh ≡ row.refresh_token_hash
      → w'.up session_by_access ≡ true
      → w'.up session_by_refresh ≡ true
      → (verify_access_token lib.sha256 w' access db' ≡ (err err_session_revoked, db'))
        × (refresh_session lib.sha256 w' refresh db' ≡ (err err_session_revoked, db'))
  unfolding calls
  revoked_forever w ctx row db l keys found up db' w' access refresh e is_access is_refresh up1
        up2 =
      let first =
        subst (IsRevoked (revoked row)) (sessions-revoke_call w ctx db up)
          (revoked-IsRevoked ctx row db.sessions keys found) in
      let last : IsRevoked (revoked row) db'.sessions =
        subst (λ (t : Tables). IsRevoked (revoked row) t.sessions) e
          (sessions_keep (IsRevoked (revoked row)) (IsRevoked-IsStable (revoked row)) lib google l _
            first) in
      let at_id = keyed session_id_of row.id in
      (
        verify-refused lib.sha256 w' access (revoked row) db' up1
            (ap (λ t. find (keyed access_hash_of t) db'.sessions) is_access
              ∙ find-keyed access_hash_of at_id db'.sessions (revoked row) last.keys.access_hashes
                  last.there)
            (text_eq_refl (codes "revoked")),
        refresh-refused lib.sha256 w' refresh (revoked row) db' up2
            (ap (λ t. find (keyed refresh_hash_of t) db'.sessions) is_refresh
              ∙ find-keyed refresh_hash_of at_id db'.sessions (revoked row) last.keys.refresh_hashes
                  last.there)
            (text_eq_refl (codes "revoked")),
      )
