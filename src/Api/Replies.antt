-- ===== src/Api/Replies.antt =====
-- The shape of an HTTP handler: the session that auth's middleware put in the context, the decoded
-- body and the path's parameter are given, and the answer is a status with a value or an error.
use nearby_payments_api.Base.{ℕ, Option, none, some, Text, codes}
use nearby_payments_api.Api.Errors.{
  AppError, Error, new_error, err_unauthorized, err_bad_request, written_error, ok, err, Action,
}

pub data Reply (A : Type 0) : Type 0 where
  answered : (status : ℕ) → A → Reply A
  refused : AppError → Reply A

abbrev pub Handler : Type 0 → Type 0 → Type 0
Handler S A = S → Reply A × S

-- `apperr.Write` of an error, and the early return.
abbrev pub refuse : {S A : Type 0} → Error → Handler S A
refuse e s = (refused (written_error e), s)

-- `auth.GetSession(r.Context())`, which is nil where nobody is signed in.
abbrev pub with_session : {S A : Type 0} → Option Text → (Text → Handler S A) → Handler S A
with_session none h = refuse err_unauthorized
with_session (some user) h = h user

-- `json.NewDecoder(r.Body).Decode`
abbrev pub with_body : {S B A : Type 0} → Option B → (B → Handler S A) → Handler S A
with_body none h = refuse err_bad_request
with_body (some b) h = h b

-- The call of the service: its error is written, its value is answered with the status.
abbrev pub respond : {S A : Type 0} → ℕ → Action S A → Handler S A
respond status call s =
    let (r, s') = call s in
    elim r [ ok a ↦ (answered status a, s') | err e ↦ (refused (written_error e), s') ]

-- `apperr.WriteStatus` with 400 and "validation_error"
abbrev pub validation_error : Text → Error
validation_error message = new_error (codes "validation_error") message 400
