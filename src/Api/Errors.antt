-- ===== src/Api/Errors.antt =====
-- apps/api/internal/errors and the shape of a service method: it returns a value or an error, and
-- the database is passed along. What a method has written before an error stays written.
use nearby_payments_api.Base.{
  ℕ, ◌≡◌, refl, ◌⊎◌, inl, inr, Bool, false, Option, none, some, Text, codes, if◌then◌else◌, ◌==◌,
}

pub record AppError : Type 0 where
  pub code : Text
  pub message : Text
  pub status : ℕ

-- The errors that a method returns: an `*AppError`, or any other, such as one of `fmt.Errorf`; and a
-- panic, which leaves a method and those that called it as an error does.
pub data Error : Type 0 where
  app : AppError → Error
  wrapped : Error
  panic : Error

-- `apperr.New`
abbrev pub new_error : Text → Text → ℕ → Error
new_error code message status = app (record { code = code; message = message; status = status })

abbrev pub err_internal : AppError
err_internal = record {
  code = codes "internal_error";
  message = codes "Internal server error";
  status = 500;
}

abbrev pub err_bad_request : Error
err_bad_request = new_error (codes "bad_request") (codes "Bad request") 400

abbrev pub err_unauthorized : Error
err_unauthorized = new_error (codes "unauthorized") (codes "Unauthorized") 401

abbrev pub err_unprocessable : Error
err_unprocessable = new_error (codes "unprocessable") (codes "Unprocessable entity") 422

-- `apperr.Write`: what the client sees of an error, and of a panic by `Recovery`.
abbrev pub written_error : Error → AppError
written_error (app e) = e
written_error wrapped = err_internal
written_error panic = err_internal

-- `apperr.IsNotFound`
pub is_not_found : Error → Bool
is_not_found (app e) = e.status == 404
is_not_found wrapped = false
is_not_found panic = false

pub data Result (A : Type 0) : Type 0 where
  ok : A → Result A
  err : Error → Result A

pub Result-cases :
    {A : Type 0} (r : Result A) → ((e : Error) × (r ≡ err e)) ⊎ ((a : A) × (r ≡ ok a))
Result-cases (ok a) = inr (a, refl)
Result-cases (err e) = inl (e, refl)

-- A method that may also panic.
pub data Outcome (A : Type 0) : Type 0 where
  panicked : Outcome A
  returned : Result A → Outcome A

pub Outcome-cases :
    {A : Type 0} (o : Outcome A)
    → (o ≡ panicked) ⊎ (((e : Error) × (o ≡ returned (err e))) ⊎ ((a : A) × (o ≡ returned (ok a))))
Outcome-cases panicked = inl refl
Outcome-cases (returned (err e)) = inr (inl (e, refl))
Outcome-cases (returned (ok a)) = inr (inr (a, refl))

abbrev pub Action : Type 0 → Type 0 → Type 0
Action S A = S → Result A × S

abbrev pub pure : {S A : Type 0} → A → Action S A
pure a s = (ok a, s)

abbrev pub raise : {S A : Type 0} → Error → Action S A
raise e s = (err e, s)

infixl 5 ◌>>=◌ ◌>>◌
abbrev pub ◌>>=◌ : {S A B : Type 0} → Action S A → (A → Action S B) → Action S B
◌>>=◌ m f s = let (r, s') = m s in elim r [ ok a ↦ f a s' | err e ↦ (err e, s') ]

abbrev pub ◌>>◌ : {S B : Type 0} → Action S (Unit {0}) → Action S B → Action S B
m >> k = m >>= λ _. k

-- `_ = call`: an error is dropped.
abbrev pub ignore : {S : Type 0} → Action S (Unit {0}) → Action S (Unit {0})
ignore m s = (ok tt, (m s).1)

-- A query, which fails where the database does not answer.
abbrev pub query : {S A : Type 0} → Bool → (S → A) → Action S A
query up f s = (if up then ok (f s) else err wrapped, s)

-- A statement, which fails and changes nothing where the database does not answer or refuses it.
abbrev pub exec : {S : Type 0} → Bool → (S → Option S) → Action S (Unit {0})
exec up f s =
    if up then elim (f s) [ some s' ↦ (ok tt, s') | none ↦ (err wrapped, s) ] else (err wrapped, s)
