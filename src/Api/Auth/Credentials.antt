-- ===== src/Api/Auth/Credentials.antt =====
-- IssueDeviceCredential, signCredential and GetServerPublicKey of
-- apps/api/internal/domain/auth/service.go and handler.go. Ed25519, JSON and base64 are parameters.
use nearby_payments_api.Base.{
  ℕ, ◌+◌, ◌*◌, ◌≡◌, refl, sym, ap, ◌∙◌, subst, ◌≢◌, inl, inr, Bool, true, Option, none, some, [],
  Text, codes, text_eq, text_eq_iff, arith, if◌then◌else◌, Bool-cases, Option-cases,
}
use nearby_payments_api.Api.Errors.{
  err_internal, err_bad_request, wrapped, Result, ok, err, Result-cases, Outcome, panicked,
  returned, written_error,
}
use nearby_payments_api.Api.Replies.{
  Reply, answered, refused, Handler, refuse, with_body, validation_error,
}
use nearby_payments_api.Api.Auth.Handlers.{with_context}
use nearby_payments_api.Api.Wallets.{WalletBinding, wallet_of_user}
use nearby_payments_api.Api.Auth.Types.{DeviceIntegrityRecord, SessionContext}
use nearby_payments_api.Api.Auth.Store.{Tables, get_wallet_binding}
use nearby_payments_api.Api.Auth.Sessions.{World}

pub record DeviceCredentialCapabilities : Type 0 where
  pub nearby_payments : Bool
  pub nearby_assist : Bool

pub record DeviceIdentityCredential : Type 0 where
  pub version : ℕ
  pub user_id : Text
  pub device_id : Text
  pub platform : Text
  pub app_bundle_id : Text
  pub integrity_provider : Text
  pub local_proof_public_key : Text
  pub sui_address : Text
  pub suins_name : Text
  pub capabilities : DeviceCredentialCapabilities
  pub issued_at : ℕ
  pub expires_at : ℕ
  pub issuer : Text
  pub signature : Text

pub record IssueCredentialRequest : Type 0 where
  pub local_proof_public_key : Text
  pub suins_name : Text
  pub nearby_assist : Bool

pub record ServerPublicKeyResponse : Type 0 where
  pub public_key : Text
  pub format : Text

abbrev pub credential_ttl : ℕ
credential_ttl = 24 * 60 * 60

-- The server's key pair, and what the methods use of packages.
pub record Signer : Type 0 where
  pub cred_sign_key : Text
  pub cred_pub_key : Text
  pub sign : (private_key message : Text) → Text
  pub verify : (public_key message signature : Text) → Bool
  pub marshal : DeviceIdentityCredential → Option Text
  pub base64_url_encode : Text → Text
  pub base64_url_decode : Text → Option Text
  pub hex_encode : Text → Text

-- The public key is that of the private one, and base64 is decoded to what was encoded.
pub record IsSound (s : Signer) : Type 0 where
  pub verifies :
      (message : Text) → s.verify s.cred_pub_key message (s.sign s.cred_sign_key message) ≡ true
  pub decodes : (b : Text) → s.base64_url_decode (s.base64_url_encode b) ≡ some b

abbrev pub address_of : Option WalletBinding → Text
address_of none = []
address_of (some wb) = wb.sui_address

module _ (s : Signer) where
  -- What is signed is the credential without a signature.
  abbrev pub unsigned : DeviceIdentityCredential → DeviceIdentityCredential
  unsigned cred = record cred { signature = [] }

  unfoldable pub sign_credential : DeviceIdentityCredential → Option Text
  sign_credential cred = elim (s.marshal (unsigned cred)) [
    | none ↦ none
    | some bytes ↦ some (s.base64_url_encode (s.sign s.cred_sign_key bytes))
  ]

  unfoldable pub get_server_public_key : ServerPublicKeyResponse
  get_server_public_key = record {
    public_key = s.hex_encode s.cred_pub_key;
    format = codes "ed25519_hex";
  }

  module _ (w : World) (ctx : SessionContext) (req : IssueCredentialRequest) where
    abbrev pub new_credential :
        DeviceIntegrityRecord → Option WalletBinding → DeviceIdentityCredential
    new_credential integrity wb = record {
      version = 1;
      user_id = ctx.user.id;
      device_id = ctx.device.id;
      platform = ctx.device.platform;
      app_bundle_id = ctx.device.app_bundle_id;
      integrity_provider = integrity.provider;
      local_proof_public_key = req.local_proof_public_key;
      sui_address = address_of wb;
      suins_name = req.suins_name;
      capabilities = record { nearby_payments = true; nearby_assist = req.nearby_assist };
      issued_at = w.now;
      expires_at = w.now + credential_ttl;
      issuer = codes "nearby-payments-api";
      signature = [];
    }

    -- The end of the method.
    abbrev pub signed_credential : DeviceIdentityCredential → Result DeviceIdentityCredential
    signed_credential cred = elim (sign_credential cred) [
      | none ↦ err wrapped
      | some sig ↦ ok (record cred { signature = sig })
    ]

    -- The method only reads the tables. `sessCtx.Integrity` may be nil, and is read all the same.
    unfoldable pub issue_device_credential : Tables → Outcome DeviceIdentityCredential
    issue_device_credential db =
        if text_eq req.local_proof_public_key []
        then returned (err err_bad_request)
        else elim (get_wallet_binding w.up ctx.user.id db).0 [
          | err e ↦ returned (err wrapped)
          | ok wb ↦ elim ctx.integrity [
            | none ↦ panicked
            | some integrity ↦ returned (signed_credential (new_credential integrity wb))
          ]
        ]

-- What the client sees of a method: `Recovery` of apps/api/internal/middleware/recovery.go writes an
-- error for a panic.
abbrev pub recovered : {A : Type 0} → Outcome A → Reply A
recovered panicked = refused err_internal
recovered (returned (ok a)) = answered 200 a
recovered (returned (err e)) = refused (written_error e)

-- The handler, which leaves the tables as they are.
unfoldable pub handle_issue_device_credential :
    Signer
    → World
    → Option SessionContext
    → Option IssueCredentialRequest
    → Handler Tables DeviceIdentityCredential
handle_issue_device_credential s w session body = with_context session (λ ctx.
    with_body body (λ req.
      if text_eq req.local_proof_public_key []
      then refuse (validation_error (codes "localProofPublicKey is required"))
      else (λ db. (recovered (issue_device_credential s w ctx req db), db))))

-- What a credential of a session says: the user, the device, its integrity provider and the user's
-- wallet, with the key of the request, for a day.
abbrev pub IsOf :
    World → SessionContext → IssueCredentialRequest → Tables → DeviceIdentityCredential → Type 0
IsOf w ctx req db cred =
    (integrity : DeviceIntegrityRecord) × (ctx.integrity ≡ some integrity)
    × (cred.user_id ≡ ctx.user.id)
    × (cred.device_id ≡ ctx.device.id)
    × (cred.integrity_provider ≡ integrity.provider)
    × (cred.local_proof_public_key ≡ req.local_proof_public_key)
    × (cred.local_proof_public_key ≢ [])
    × (cred.sui_address ≡ address_of (wallet_of_user ctx.user.id db.wallets))
    × (cred.issued_at ≡ w.now)
    × (cred.expires_at ≡ w.now + 86400)

-- The signature in a credential is one over the rest of it, by the key that the server publishes.
abbrev pub IsSigned : Signer → DeviceIdentityCredential → Type 0
IsSigned s cred =
    (message : Text) × (signature : Text) × (s.marshal (unsigned s cred) ≡ some message)
    × (s.base64_url_decode cred.signature ≡ some signature)
    × (s.verify s.cred_pub_key message signature ≡ true)

signed_credential-IsSigned :
    (s : Signer) (w : World) (ctx : SessionContext) (req : IssueCredentialRequest)
    (cred signed : DeviceIdentityCredential)
    → IsSound s
    → signed_credential s w ctx req cred ≡ ok signed
    → IsSigned s signed × (unsigned s signed ≡ unsigned s cred)
unfolding sign_credential
signed_credential-IsSigned s w ctx req cred signed sound e =
    elim (Option-cases (s.marshal (unsigned s cred))) [
      | inl missing ↦ let never : ⊥ = ground (arith, e, missing) in absurd never
      | inr (message, encoded) ↦
          let signature = s.sign s.cred_sign_key message in
          let made : record cred { signature = s.base64_url_encode signature } ≡ signed =
            ground (arith, e, encoded) in
          let same : unsigned s cred ≡ unsigned s signed = ap (unsigned s) made in
          (
            (
              message,
              signature,
              ap s.marshal (sym same) ∙ encoded,
              ap (λ (c : DeviceIdentityCredential). s.base64_url_decode c.signature) (sym made)
                  ∙ sound.decodes signature,
              sound.verifies message,
            ),
            sym same,
          )
    ]

-- A credential that is issued is of the session's user, device and integrity provider, the key of the
-- request and the user's wallet, if any, for a day; and its signature verifies, by the key that the
-- server publishes, over the credential without it, if Ed25519 verifies what was signed and base64
-- decodes what it encoded.
pub issue_device_credential-IsSigned :
    (s : Signer) (w : World) (ctx : SessionContext) (req : IssueCredentialRequest) (db : Tables)
    (cred : DeviceIdentityCredential)
    → IsSound s
    → issue_device_credential s w ctx req db ≡ returned (ok cred)
    → IsSigned s cred × IsOf w ctx req db cred
unfolding issue_device_credential get_wallet_binding
issue_device_credential-IsSigned s w ctx req db cred sound e =
    elim (Bool-cases (text_eq req.local_proof_public_key [])) [
      | inl empty ↦ let never : ⊥ = ground (arith, e, empty) in absurd never
      | inr filled ↦ elim (Result-cases (get_wallet_binding w.up ctx.user.id db).0) [
        | inl (x, down) ↦ let never : ⊥ = ground (arith, e, filled, down) in absurd never
        | inr (wb, found) ↦ elim (Option-cases ctx.integrity) [
          | inl missing ↦ let never : ⊥ = ground (arith, e, filled, found, missing) in absurd never
          | inr (integrity, known) ↦
              let blank = new_credential s w ctx req integrity wb in
              let made : signed_credential s w ctx req blank ≡ ok cred =
                ground (arith, e, filled, found, known) in
              let (signed, same) = signed_credential-IsSigned s w ctx req blank cred sound made in
              let wallet : wb ≡ wallet_of_user ctx.user.id db.wallets = ground (arith, found) in
              let given : req.local_proof_public_key ≢ [] =
                λ q. ground (arith, filled, text_eq_iff req.local_proof_public_key [], q) in
              let told : IsOf w ctx req db (unsigned s blank) = (
                integrity,
                known,
                refl,
                refl,
                refl,
                refl,
                given,
                ap address_of wallet,
                refl,
                refl,
              ) in
              (signed, subst (IsOf w ctx req db) (sym same) told)
        ]
      ]
    ]
