-- ===== src/Api/Wallets.antt =====
-- The wallet bindings of apps/api/internal/domain/auth, over the table wallet_bindings.
use nearby_payments_api.Base.{ℕ, Option, List, Text, text_eq}
use nearby_payments_api.Api.Rows.{find}

pub record WalletBinding : Type 0 where
  pub user_id : Text
  pub sui_address : Text
  pub auth_scheme : Text
  pub issuer : Text
  pub audience : Text
  pub created_at : ℕ
  pub updated_at : ℕ

abbrev pub wallet_of_user : Text → List WalletBinding → Option WalletBinding
wallet_of_user user wallets = find (λ (w : WalletBinding). text_eq w.user_id user) wallets

abbrev pub wallet_of_address : Text → List WalletBinding → Option WalletBinding
wallet_of_address address wallets =
    find (λ (w : WalletBinding). text_eq w.sui_address address) wallets
