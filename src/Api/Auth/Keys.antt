-- ===== src/Api/Auth/Keys.antt =====
-- The keys of Redis that apps/api/internal/domain/auth/service.go sets, reads and deletes.
use nearby_payments_api.Base.{
  ℕ, ltb, Bool, none, some, List, [], ◌∷◌, ◌++◌, Text, codes, text_eq, if◌then◌else◌,
}
use nearby_payments_api.Api.Errors.{wrapped, ok, err, Action}
use nearby_payments_api.Api.Rows.{find}
use nearby_payments_api.Api.Auth.Store.{Tables}

abbrev pub state_key : Text → Text
state_key state = codes "oauth:state:" ++ state

abbrev pub has_redis_key : Text → Text × Text × ℕ → Bool
has_redis_key key (k, v, expires) = text_eq k key

unfoldable pub drop_key : Text → List (Text × Text × ℕ) → List (Text × Text × ℕ)
drop_key key [] = []
drop_key key (e ∷ l) = let rest = drop_key key l in if has_redis_key key e then rest else e ∷ rest

-- `rdb.Set`, with the time of expiry.
unfoldable pub set_key : Bool → ℕ → Text → Text → Action Tables (Unit {0})
set_key up expires key value db =
    if up
    then (ok tt, record db { redis = (key, value, expires) ∷ db.redis })
    else (err wrapped, db)

-- `rdb.GetDel`, which fails where there is no such key or it has expired: an expired key goes too.
unfoldable pub get_del : Bool → (now : ℕ) → Text → Action Tables Text
unfolding drop_key
get_del up now key db =
    if up
    then elim (find (has_redis_key key) db.redis) [
      | none ↦ (err wrapped, db)
      | some e ↦
          (if ltb now e.2 then ok e.1 else err wrapped, record db { redis = drop_key key db.redis })
    ]
    else (err wrapped, db)
