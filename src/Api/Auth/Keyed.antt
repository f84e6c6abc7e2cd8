-- ===== src/Api/Auth/Keyed.antt =====
-- The property of the table of sessions that no two of them share an id or a token.
use nearby_payments_api.Base.{ℕ, ◌≡◌, refl, false, none, List, ◌∷◌, Text}
use nearby_payments_api.Api.Rows.{find, keyed, update}
use nearby_payments_api.Api.Rows.Unique.{update-Unique, update-Unique_new}
use nearby_payments_api.Api.Auth.Types.{Session}
use nearby_payments_api.Api.Auth.Store.{
  session_id_of, access_hash_of, refresh_hash_of, with_tokens, taken, revoked,
}
use nearby_payments_api.Api.Auth.Rotation.{IsKeyed, absent_of}

pub add-IsKeyed :
    (s : Session) (l : List Session)
    → IsKeyed l
    → find (keyed session_id_of s.id) l ≡ none
    → find (keyed access_hash_of s.access_token_hash) l ≡ none
    → find (keyed refresh_hash_of s.refresh_token_hash) l ≡ none
    → IsKeyed (s ∷ l)
add-IsKeyed s l keys no_id no_access no_refresh = record {
  ids = (no_id, keys.ids);
  access_hashes = (no_access, keys.access_hashes);
  refresh_hashes = (no_refresh, keys.refresh_hashes);
}

pub revoke-IsKeyed :
    (id : Text) (l : List Session) → IsKeyed l → IsKeyed (update session_id_of id revoked l)
revoke-IsKeyed id l keys = record {
  ids = update-Unique session_id_of id revoked session_id_of (λ s. refl) l keys.ids;
  access_hashes =
      update-Unique session_id_of id revoked access_hash_of (λ s. refl) l keys.access_hashes;
  refresh_hashes =
      update-Unique session_id_of id revoked refresh_hash_of (λ s. refl) l keys.refresh_hashes;
}

module _ (id access refresh : Text) (expires refresh_expires : ℕ) where
  abbrev sets : Session → Session
  sets = with_tokens access refresh expires refresh_expires

  pub rotate-IsKeyed :
      (l : List Session)
      → IsKeyed l
      → taken access_hash_of id access l ≡ false
      → taken refresh_hash_of id refresh l ≡ false
      → IsKeyed (update session_id_of id sets l)
  rotate-IsKeyed l keys free_access free_refresh = record {
    ids = update-Unique session_id_of id sets session_id_of (λ s. refl) l keys.ids;
    access_hashes =
        update-Unique_new session_id_of id sets access_hash_of access (λ s. refl) l keys.ids
          keys.access_hashes (absent_of access_hash_of id access l free_access);
    refresh_hashes =
        update-Unique_new session_id_of id sets refresh_hash_of refresh (λ s. refl) l keys.ids
          keys.refresh_hashes (absent_of refresh_hash_of id refresh l free_refresh);
  }
