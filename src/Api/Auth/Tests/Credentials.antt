-- ===== src/Api/Auth/Tests/Credentials.antt =====
-- A credential for one session, and one whose integrity record is missing.
use nearby_payments_api.Base.{◌≡◌, refl, true, none, some, [], codes, text_eq}
use nearby_payments_api.Api.Errors.{panicked}
use nearby_payments_api.Api.Auth.Types.{DeviceIntegrityRecord, SessionContext}
use nearby_payments_api.Api.Auth.Store.{get_wallet_binding}
use nearby_payments_api.Api.Auth.Credentials.{
  DeviceIdentityCredential, IssueCredentialRequest, Signer, IsSound, sign_credential,
  new_credential, issue_device_credential, IsOf, IsSigned, issue_device_credential-IsSigned,
}
use nearby_payments_api.Api.Auth.Tests.{world, session, user, device, tables}

abbrev record_of_device : DeviceIntegrityRecord
record_of_device = record {
  id = codes "r1";
  device_id = codes "d1";
  provider = codes "app_attest";
  provider_key_id = [];
  public_key = [];
  sign_count = 0;
  last_verdict = [];
  status = codes "active";
  created_at = 1;
  updated_at = 1;
}

abbrev context : SessionContext
context = record {
  session = session;
  user = user;
  device = device;
  integrity = some record_of_device;
}

abbrev request : IssueCredentialRequest
request = record { local_proof_public_key = codes "pk"; suins_name = []; nearby_assist = true }

-- A signature is the key, and verifies under the same key.
abbrev signer : Signer
signer = record {
  cred_sign_key = codes "k";
  cred_pub_key = codes "k";
  sign = λ key message. key;
  verify = λ key message signature. text_eq key signature;
  marshal = λ cred. some cred.user_id;
  base64_url_encode = λ t. t;
  base64_url_decode = λ t. some t;
  hex_encode = λ t. t;
}

signer-IsSound : IsSound signer
unfolding text_eq
signer-IsSound = record { verifies = λ message. refl; decodes = λ b. refl }

abbrev issued : DeviceIdentityCredential
issued = record (new_credential signer world context request record_of_device none) {
  signature = codes "k";
}

no_integrity-run :
    issue_device_credential signer world (record context { integrity = none }) request tables
    ≡ panicked
unfolding issue_device_credential get_wallet_binding text_eq
no_integrity-run = refl

issue_device_credential-IsSigned_example :
    IsSigned signer issued × IsOf world context request tables issued
unfolding issue_device_credential sign_credential get_wallet_binding text_eq
issue_device_credential-IsSigned_example =
    issue_device_credential-IsSigned signer world context request tables issued signer-IsSound refl
