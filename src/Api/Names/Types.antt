-- ===== src/Api/Names/Types.antt =====
-- types.go, errors.go and store.go of apps/api/internal/domain/names, over the table of
-- apps/api/internal/db/migrations/004_names.sql. That the user exists is left out.
use nearby_payments_api.Base.{
  ℕ, Bool, ◌&&◌, ◌||◌, Option, none, some, List, ◌∷◌, Text, codes, text_eq, if◌then◌else◌,
}
use nearby_payments_api.Api.Errors.{Error, new_error, Action, query, exec}
use nearby_payments_api.Api.Rows.{find, keyed, update}
use nearby_payments_api.Api.Wallets.{WalletBinding, wallet_of_user}

pub record NameOperationTask : Type 0 where
  pub id : Text
  pub user_id : Text
  pub action : Text
  pub payload_hash : Text
  pub nonce : Text
  pub status : Text
  pub avs_task_id : Text
  pub created_at : ℕ
  pub updated_at : ℕ
  pub expires_at : ℕ

pub record RegisterLeafRequest : Type 0 where
  pub leaf_name : Text
  pub parent_name : Text

pub record RegisterLeafResponse : Type 0 where
  pub task_id : Text
  pub name_hash : Text
  pub action : Text
  pub status : Text
  pub expires_at : ℕ

pub record GetTaskResponse : Type 0 where
  pub task_id : Text
  pub name_hash : Text
  pub action : Text
  pub status : Text
  pub created_at : ℕ
  pub updated_at : ℕ
  pub expires_at : ℕ

abbrev pub err_task_not_found : Error
err_task_not_found = new_error (codes "task_not_found") (codes "Name operation task not found") 404

abbrev pub err_name_invalid : Error
err_name_invalid = new_error (codes "name_invalid") (codes "Leaf name is invalid") 400

abbrev pub err_parent_invalid : Error
err_parent_invalid = new_error (codes "parent_invalid") (codes "Parent name is invalid") 400

abbrev pub err_avs_unauthorized : Error
err_avs_unauthorized =
    new_error (codes "avs_unauthorized") (codes "AVS quorum authorization failed") 403

abbrev pub err_no_wallet_bound : Error
err_no_wallet_bound =
    new_error (codes "no_wallet_bound") (codes "No Sui wallet bound to this account") 400

-- The tables that the service uses.
pub record NameTables : Type 0 where
  pub tasks : List NameOperationTask
  pub wallets : List WalletBinding

-- The statements, by which their failures are told apart.
pub data Statement : Type 0 where
  select_wallet insert_task select_task update_task : Statement

abbrev pub task_id : NameOperationTask → Text
task_id t = t.id

abbrev pub task_nonce : NameOperationTask → Text
task_nonce t = t.nonce

abbrev pub task_at : Text → List NameOperationTask → Option NameOperationTask
task_at id tasks = find (keyed task_id id) tasks

-- The CHECK constraints on `action` and on `status`.
unfoldable pub is_task_action : Text → Bool
is_task_action a =
    text_eq a (codes "leaf_name.register_initial")
    || (text_eq a (codes "parent_name.renew") || text_eq a (codes "parent_name.admin_recover"))

unfoldable pub is_task_status : Text → Bool
is_task_status s =
    text_eq s (codes "pending")
    || (text_eq s (codes "authorized")
        || (text_eq s (codes "submitted")
            || (text_eq s (codes "failed") || text_eq s (codes "expired"))))

-- INSERT INTO name_operation_tasks: the id and the nonce are unique.
unfoldable pub add_task : NameOperationTask → NameTables → Option NameTables
add_task t db = elim (find (keyed task_id t.id) db.tasks) [
  | some _ ↦ none
  | none ↦ elim (find (keyed task_nonce t.nonce) db.tasks) [
    | some _ ↦ none
    | none ↦
        if is_task_action t.action && is_task_status t.status
        then some (record db { tasks = t ∷ db.tasks })
        else none
  ]
]

abbrev pub with_status : Text → ℕ → NameOperationTask → NameOperationTask
with_status status at t = record t { status = status; updated_at = at }

module _ (up : Statement → Bool) where
  -- `GetWalletBinding` of auth's store
  unfoldable pub get_wallet_binding : Text → Action NameTables (Option WalletBinding)
  get_wallet_binding user = query (up select_wallet) (λ db. wallet_of_user user db.wallets)

  unfoldable pub create_task : NameOperationTask → Action NameTables (Unit {0})
  create_task t = exec (up insert_task) (λ db. add_task t db)

  unfoldable pub get_task_by_id : Text → Action NameTables (Option NameOperationTask)
  get_task_by_id id = query (up select_task) (λ db. task_at id db.tasks)

  unfoldable pub update_task_status : Text → Text → ℕ → Action NameTables (Unit {0})
  update_task_status id status at = exec (up update_task) (λ db.
      if is_task_status status
      then some (record db { tasks = update task_id id (with_status status at) db.tasks })
      else none)
