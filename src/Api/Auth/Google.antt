-- ===== src/Api/Auth/Google.antt =====
-- The calls of Google in apps/api/internal/domain/auth/service.go, and the JSON of their answers.
use nearby_payments_api.Base.{
  ℕ, Bool, false, not, ◌&&◌, Option, none, some, List, [], ◌∷◌, ◌++◌, Text, codes, text_eq, ◌==◌,
  if◌then◌else◌,
}
use nearby_payments_api.Api.Payment.Service.{has_prefix}

-- A decoded value of JSON, as far as the service looks at it.
pub data Json : Type 0 where
  string : Text → Json
  boolean : Bool → Json
  other : Json

abbrev pub Object : Type 0
Object = Text → Option Json

-- `value, _ := object[key].(string)`
abbrev pub as_string : Option Json → Text
as_string (some (string s)) = s
as_string _ = []

-- `value, _ := object[key].(bool)`
abbrev pub as_bool : Option Json → Bool
as_bool (some (boolean b)) = b
as_bool _ = false

-- What OAuthBegin keeps for OAuthComplete; a missing key of the map is the empty text.
pub record OauthState : Type 0 where
  pub code_challenge : Text
  pub code_challenge_method : Text
  pub zk_login_nonce : Text

-- A response of Google; the body may be unreadable.
pub record HttpResponse : Type 0 where
  pub status_code : ℕ
  pub body : Option Text

-- Google and the libraries that the two methods call.
pub record Libraries : Type 0 where
  pub sha256 : Text → Text
  -- `json.Marshal` and `json.Unmarshal` of the state, and `json.Unmarshal` of an object
  pub marshal_state : OauthState → Text
  pub unmarshal_state : Text → Option OauthState
  pub unmarshal_object : Text → Option Object
  -- `url.Values.Encode`
  pub encode : List (Text × Text) → Text
  -- `http.PostForm` and `http.Get`, which may fail
  pub post_form : Text → List (Text × Text) → Option HttpResponse
  pub get : Text → Option HttpResponse

-- The configuration of the service.
pub record Google : Type 0 where
  pub client_id : Text
  pub client_secret : Text
  pub redirect_uri : Text

module _ (lib : Libraries) (google : Google) where
  open lib use {sha256, marshal_state, unmarshal_state, unmarshal_object, encode, post_form, get}

  -- The errors are not told apart.
  unfoldable pub exchange_google_code : Text → Text → Option Text
  exchange_google_code code code_verifier =
      let params =
        (codes "code", code)
        ∷ (codes "client_id", google.client_id)
        ∷ (codes "client_secret", google.client_secret)
        ∷ (codes "redirect_uri", google.redirect_uri)
        ∷ (codes "code_verifier", code_verifier)
        ∷ (codes "grant_type", codes "authorization_code")
        ∷ [] in
      elim (post_form (codes "https://oauth2.googleapis.com/token") params) [
        | none ↦ none
        | some resp ↦ elim resp.body [
          | none ↦ none
          | some body ↦ elim (unmarshal_object body) [
            | none ↦ none
            | some result ↦
                if not (resp.status_code == 200)
                then none
                else let id_token = as_string (result (codes "id_token")) in
                  if text_eq id_token [] then none else some id_token
          ]
        ]
      ]

  unfoldable pub verify_google_id_token : Text → Option Object
  verify_google_id_token id_token =
      elim (get (codes "https://oauth2.googleapis.com/tokeninfo?id_token=" ++ id_token)) [
        | none ↦ none
        | some resp ↦ if not (resp.status_code == 200) then none else elim resp.body [
          | none ↦ none
          | some body ↦ elim (unmarshal_object body) [
            | none ↦ none
            | some claims ↦
                let aud = as_string (claims (codes "aud")) in
                if not (has_prefix aud google.client_id) && not (text_eq aud google.client_id)
                then none
                else some claims
          ]
        ]
      ]
