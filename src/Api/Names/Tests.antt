-- ===== src/Api/Names/Tests.antt =====
-- A user who registers a name with a committee of five, and an instance of each theorem.
use nearby_payments_api.Base.{◌≡◌, refl, ◌↔◌, true, false, some, [], ◌∷◌, Text, codes}
use nearby_payments_api.Api.Avs.Aggregator.{Operator}
use nearby_payments_api.Api.Avs.Client.{Client}
use nearby_payments_api.Api.Names.Types.{RegisterLeafRequest, RegisterLeafResponse, NameTables}
use nearby_payments_api.Api.Names.Pattern.{
  is_alphanumeric, is_label, up_to, leaf_name_re, is_leaf_name, IsLeafName, is_leaf_name_iff,
}
use nearby_payments_api.Api.Names.Service.{Packages, World}
use nearby_payments_api.Cache.Regex.{ways, find_captures}

abbrev packages : Packages
packages = record {
  trim_space = λ t. t;
  to_lower = λ t. t;
  avs_libraries = record {
    sign = λ key message. key;
    verify = λ key message signature. true;
    marshal = λ p. some p.nonce;
  };
  encoders = record { marshal_map = λ m. some (codes "{}"); sha256_hex = λ t. t };
}

abbrev operator : Text → Operator
operator key = record { id = key; private_key = key; public_key = key }

abbrev avs : Client
avs = record {
  operators =
      operator (codes "a")
      ∷ operator (codes "b")
      ∷ operator (codes "c")
      ∷ operator (codes "d")
      ∷ operator (codes "e")
      ∷ [];
  signer_set_id = codes "set";
}

abbrev world : World
world = record {
  up = λ s. true;
  moment = record { random_hex = some (codes "n"); now_ms = 10; issued_ms = 10 };
  now = 1;
  new_id = codes "t1";
}

abbrev tables : NameTables
tables = record {
  tasks = [];
  wallets =
      record {
        user_id = codes "ann";
        sui_address = codes "0x1";
        auth_scheme = codes "zk";
        issuer = [];
        audience = [];
        created_at = 0;
        updated_at = 0;
      }
      ∷ [];
}

abbrev request : RegisterLeafRequest
request = record { leaf_name = codes "a"; parent_name = codes "p" }

abbrev response : RegisterLeafResponse
response = record {
  task_id = codes "t1";
  name_hash = codes "0xa.p";
  action = codes "leaf_name.register_initial";
  status = codes "authorized";
  expires_at = 300;
}

hyphen-run : is_leaf_name (codes "a-") ≡ false
unfolding is_leaf_name find_captures ways leaf_name_re up_to is_label is_alphanumeric
hyphen-run = refl

is_leaf_name_iff_example : (is_leaf_name (codes "ann-1") ≡ true) ↔ IsLeafName (codes "ann-1")
is_leaf_name_iff_example = is_leaf_name_iff (codes "ann-1")
