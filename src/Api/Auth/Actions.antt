-- ===== src/Api/Auth/Actions.antt =====
-- The calls of apps/api/internal/domain/auth in a row: each may fail, and ends the method then. The
-- chain is a definition of its own here, which a proof opens or follows step by step.
pub mod Binds
use nearby_payments_api.Base.{Bool, true, false, Option, none, some}
use nearby_payments_api.Api.Errors.{Error, Result, ok, err, Action, pure, raise}

infixl 5 ◌>>=◌ ◌>>◌
unfoldable pub ◌>>=◌ : {S A B : Type 0} → Action S A → (A → Action S B) → Action S B
◌>>=◌ m f s = let (r, s') = m s in elim r [ ok a ↦ f a s' | err e ↦ (err e, s') ]

abbrev pub ◌>>◌ : {S B : Type 0} → Action S (Unit {0}) → Action S B → Action S B
m >> k = m >>= λ _. k

-- A call whose error, whatever it is, is answered by another.
unfoldable pub or_else : {S A : Type 0} → Error → Action S A → Action S A
or_else e m s = let (r, s') = m s in elim r [ ok a ↦ (ok a, s') | err x ↦ (err e, s') ]

-- A value that may be missing.
unfoldable pub or_raise : {S A : Type 0} → Error → Option A → Action S A
or_raise e none = raise e
or_raise e (some a) = pure a

-- A condition that must hold.
unfoldable pub ensure : {S : Type 0} → Bool → Error → Action S (Unit {0})
ensure true e = pure tt
ensure false e = raise e
