-- ===== src/Cache/Http.antt =====
-- The parts of the Fetch API that tools/remote-cache/src/index.ts uses: headers, requests,
-- responses and promises, as the language's platform defines them.
pub mod Decimal
use nearby_payments_api.Base.{
  ℕ, ◌≡◌, refl, ◌⊎◌, inl, inr, Option, none, some, List, [], ◌∷◌, Text, codes, text_eq, text_eq_iff,
  arith, if◌then◌else◌,
}

-- A `Headers` object: names in lower case, each at most once.
abbrev pub Headers : Type 0
Headers = List (Text × Text)

-- `headers.get(name)`
unfoldable pub get_header : Text → Headers → Option Text
get_header name [] = none
get_header name ((n, v) ∷ h) = if text_eq n name then some v else get_header name h

-- `headers.set(name, value)`
unfoldable pub set_header : Text → Text → Headers → Headers
set_header name value [] = (name, value) ∷ []
set_header name value ((n, v) ∷ h) =
    if text_eq n name then (n, value) ∷ h else (n, v) ∷ set_header name value h

pub record Request (Body : Type 0) : Type 0 where
  pub method : Text
  pub url : Text
  pub headers : Headers
  -- null is `none`
  pub body : Option Body

-- The first argument of `new Response`.
pub data BodyInit (Body : Type 0) : Type 0 where
  null : BodyInit Body
  string : Text → BodyInit Body
  stream : Body → BodyInit Body

pub record Response (Body : Type 0) : Type 0 where
  pub status : ℕ
  pub headers : Headers
  pub body : BodyInit Body

-- A text body brings its content type, where the headers have none.
-- `new Response(body, { status, headers })`
unfoldable pub new_response : {Body : Type 0} → BodyInit Body → ℕ → Headers → Response Body
new_response (string t) status headers = record {
  status = status;
  headers = elim (get_header (codes "content-type") headers) [
    | none ↦ set_header (codes "content-type") (codes "text/plain;charset=UTF-8") headers
    | some _ ↦ headers
  ];
  body = string t;
}
new_response body status headers = record { status = status; headers = headers; body = body }

-- What an awaited promise comes to.
pub data Promise (A : Type 0) : Type 0 where
  resolved : A → Promise A
  rejected : Promise A

-- An asynchronous function, with the state of the services that it talks to.
abbrev pub Async : Type 0 → Type 0 → Type 0
Async S A = S → Promise A × S

abbrev pub pure : {S A : Type 0} → A → Async S A
pure a s = (resolved a, s)

-- `await`: a rejection ends the function.
infixl 5 ◌>>=◌
abbrev pub ◌>>=◌ : {S A B : Type 0} → Async S A → (A → Async S B) → Async S B
◌>>=◌ m f s = let (r, s') = m s in elim r [ resolved a ↦ f a s' | rejected ↦ (rejected, s') ]

-- A call that reads the state.
abbrev pub reading : {S A : Type 0} → (S → Promise A) → Async S A
reading f s = (f s, s)

pub Promise-cases : {A : Type 0} (p : Promise A) → ((a : A) × (p ≡ resolved a)) ⊎ (p ≡ rejected)
Promise-cases (resolved a) = inl (a, refl)
Promise-cases rejected = inr refl

pub get_header-set_header :
    (m n v : Text) (h : Headers)
    → get_header n (set_header m v h) ≡ (if text_eq m n then some v else get_header n h)
unfolding get_header set_header
get_header-set_header m n v [] = refl
get_header-set_header m n v ((k, w) ∷ h) =
    ground (arith, text_eq_iff k m, text_eq_iff k n, text_eq_iff m n, get_header-set_header m n v h)
