-- ===== src/Api/Idempotency.antt =====
-- apps/api/internal/middleware/idempotency.go over a Redis server, of which the keys that are set now
-- are the state: a key that has lived for 24 hours is no longer one of them.
mod Tests
use nearby_payments_api.Base.{
  ℕ, ◌≡◌, refl, ap, ◌∙◌, ◌≢◌, ◌⊎◌, inl, inr, Bool, true, false, Option, none, some, List, [], ◌∷◌,
  ◌++◌, Text, codes, arith, text_eq, text_eq_refl, text_eq-false, if◌then◌else◌, Option-cases,
  Bool-cases,
}
use nearby_payments_api.Api.Errors.{AppError, new_error, written_error, err_internal}
use nearby_payments_api.Api.Replies.{Reply, answered, refused, Handler, refuse}
use nearby_payments_api.Api.Rows.{find}

-- The keys of Redis, and the state that the requests after the middleware change.
pub record State (S : Type 0) : Type 0 where
  pub keys : List Text
  pub inner : S

abbrev pub redis_key : Text → Text
redis_key key = codes "idempotency:" ++ key

abbrev pub is_set : Text → List Text → Option Text
is_set key keys = find (λ k. text_eq k key) keys

-- `rdb.SetNX`: whether the key was not set and is now, or nothing where Redis does not answer.
abbrev pub set_nx : {S : Type 0} → Bool → Text → State S → Option Bool × State S
set_nx false key s = (none, s)
set_nx true key s = elim (is_set key s.keys) [
  | some k ↦ (some false, s)
  | none ↦ (some true, record s { keys = key ∷ s.keys })
]

-- `next.ServeHTTP`
abbrev pub serve : {S A : Type 0} → Handler S A → Handler (State S) A
serve next s = let (r, inner') = next s.inner in (r, record s { inner = inner' })

module _ {S A : Type 0} (next : Handler S A) where
  -- What follows the call of Redis.
  abbrev pub let_through : Option Bool × State S → Reply A × State S
  let_through (none, s) = (refused err_internal, s)
  let_through (some false, s) =
      refuse
        (new_error (codes "idempotent_replay")
          (codes "Request with this idempotency key was already processed") 409)
        s
  let_through (some true, s) = serve next s

  -- `up` says whether Redis answers; the header is the empty text where it is missing.
  unfoldable pub idempotency : Bool → Text → Handler (State S) A
  idempotency up key s =
      if text_eq key []
      then refuse
          (new_error (codes "idempotency_key_required") (codes "Idempotency-Key header is required")
            400)
          s
      else let_through (set_nx up (redis_key key) s)

-- What other requests may have made of a state: more keys, and another rest.
abbrev pub meanwhile : {S : Type 0} → List Text → S → State S → State S
meanwhile more inner s = record { keys = more ++ s.keys; inner = inner }

abbrev pub err_replay : AppError
err_replay = record {
  code = codes "idempotent_replay";
  message = codes "Request with this idempotency key was already processed";
  status = 409;
}

set_self : (k : Text) (l : List Text) → is_set k (k ∷ l) ≡ some k
set_self k l = rw (text_eq_refl k) refl

set_nx-known :
    {S : Type 0} (key k : Text) (s : State S)
    → is_set key s.keys ≡ some k
    → set_nx true key s ≡ (some false, s)
set_nx-known key k s e = rw (e, set_nx) refl

set_nx-new :
    {S : Type 0} (key : Text) (s : State S)
    → is_set key s.keys ≡ none
    → set_nx true key s ≡ (some true, record s { keys = key ∷ s.keys })
set_nx-new key s e = rw (e, set_nx) refl

idempotency-named :
    {S A : Type 0} (next : Handler S A) (up : Bool) (key : Text) (s : State S)
    → key ≢ []
    → idempotency next up key s ≡ let_through next (set_nx up (redis_key key) s)
unfolding idempotency
idempotency-named next up key s given =
    let named = text_eq-false key [] given in
    ap
      (λ b.
        if b
        then refuse
            (new_error (codes "idempotency_key_required")
              (codes "Idempotency-Key header is required") 400)
            s
        else let_through next (set_nx up (redis_key key) s))
      named

-- After a request with the key, the key is set.
idempotency-is_set :
    {S A : Type 0} (next : Handler S A) (key : Text) (s : State S)
    → key ≢ []
    → (k : Text) × (is_set (redis_key key) (idempotency next true key s).1.keys ≡ some k)
idempotency-is_set next key s given =
    let named = idempotency-named next true key s given in
    elim (Option-cases (is_set (redis_key key) s.keys)) [
      | inr (k, found) ↦ (
        k,
        ap (λ r. is_set (redis_key key) r.1.keys)
              (named ∙ ap (let_through next) (set_nx-known (redis_key key) k s found))
            ∙ found,
      )
      | inl fresh ↦ (
        redis_key key,
        ap (λ r. is_set (redis_key key) r.1.keys)
              (named ∙ ap (let_through next) (set_nx-new (redis_key key) s fresh))
            ∙ set_self (redis_key key) s.keys,
      )
    ]

-- It stays set while other keys are added.
is_set-append :
    (key k : Text) (more keys : List Text)
    → is_set key keys ≡ some k
    → (j : Text) × (is_set key (more ++ keys) ≡ some j)
is_set-append key k [] keys e = (k, e)
is_set-append key k (a ∷ more) keys e = elim (Bool-cases (text_eq a key)) [
  | inl same ↦ (a, rw same refl)
  | inr other ↦ let (j, found) = is_set-append key k more keys e in (j, rw other found)
]

-- After a request with an idempotency key that Redis answered, any later request with this key is
-- refused, by 409 where Redis answers and by 500 where it does not, and reaches no handler, whatever handler it is for, whatever keys other requests have
-- added and whatever they have done to the rest of the state, as long as the key is not expired.
pub idempotency-once :
    {S A B : Type 0} (next : Handler S A) (again : Handler S B) (key : Text) (s : State S)
    (more : List Text) (inner : S) (up : Bool)
    → key ≢ []
    → let later = meanwhile more inner (idempotency next true key s).1 in
      idempotency again up key later ≡ (refused (if up then err_replay else err_internal), later)
idempotency-once next again key s more inner false given =
    idempotency-named again false key (meanwhile more inner (idempotency next true key s).1) given
idempotency-once next again key s more inner true given =
    let first = (idempotency next true key s).1 in
    let later = meanwhile more inner first in
    let (k, set) = idempotency-is_set next key s given in
    let (j, still) = is_set-append (redis_key key) k more first.keys set in
    idempotency-named again true key later given
    ∙ ap (let_through again) (set_nx-known (redis_key key) j later still)
