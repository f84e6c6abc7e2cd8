-- ===== src/Api/Names/Service.antt =====
-- apps/api/internal/domain/names/service.go and handler.go, method by method, over the client of the
-- AVS. `strings.TrimSpace` and `strings.ToLower` are parameters.
use nearby_payments_api.Base.{
  ℕ, ◌/◌, Bool, not, ◌||◌, Option, none, some, [], ◌++◌, Text, codes, text_eq, if◌then◌else◌,
}
use nearby_payments_api.Api.Errors.{Result, ok, err, Action, pure, raise, ◌>>=◌, ◌>>◌}
use nearby_payments_api.Api.Replies.{
  Handler, refuse, with_session, with_body, respond, validation_error,
}
use nearby_payments_api.Api.Wallets.{WalletBinding}
use nearby_payments_api.Api.Avs.Aggregator.{Libraries}
use nearby_payments_api.Api.Avs.Client.{
  LeafRegistrationInput, Authorization, AuthorizeResult, Client, Moment, Encoders,
  authorize_leaf_registration,
}
use nearby_payments_api.Api.Names.Types.{
  NameOperationTask, RegisterLeafRequest, RegisterLeafResponse, GetTaskResponse, err_task_not_found,
  err_name_invalid, err_parent_invalid, err_avs_unauthorized, err_no_wallet_bound, NameTables,
  Statement, get_wallet_binding, create_task, get_task_by_id,
}
use nearby_payments_api.Api.Names.Pattern.{is_leaf_name}

-- The functions of texts, and the libraries of the AVS client.
pub record Packages : Type 0 where
  pub trim_space : Text → Text
  pub to_lower : Text → Text
  pub avs_libraries : Libraries
  pub encoders : Encoders

-- What the rest of the world answers during one call of the service.
pub record World : Type 0 where
  -- whether the database answers
  pub up : Statement → Bool
  -- what the client of the AVS sees
  pub moment : Moment
  -- `utils.NowUnix`
  pub now : ℕ
  -- `utils.NewID`
  pub new_id : Text

-- `task != nil`, and it is the user's.
abbrev pub owned_task : Option NameOperationTask → Text → Option NameOperationTask
owned_task none user = none
owned_task (some t) user = if text_eq t.user_id user then some t else none

abbrev pub task_response : NameOperationTask → GetTaskResponse
task_response t = record {
  task_id = t.id;
  name_hash = t.payload_hash;
  action = t.action;
  status = t.status;
  created_at = t.created_at;
  updated_at = t.updated_at;
  expires_at = t.expires_at;
}

module _ (p : Packages) (avs : Client) (w : World) where
  open p use {trim_space, to_lower, avs_libraries, encoders}
  open w use {up, moment, now, new_id}

  -- What the client of the AVS is asked.
  abbrev pub avs_input : (leaf_name parent_name : Text) → WalletBinding → LeafRegistrationInput
  avs_input leaf_name parent_name wb = record {
    label = leaf_name;
    parent_name = parent_name;
    leaf_name = leaf_name ++ (codes "." ++ parent_name);
    user_address = wb.sui_address;
    wallet_binding_hash = encoders.sha256_hex (wb.sui_address ++ (codes ":" ++ wb.auth_scheme));
    target_package = [];
    target_object = [];
  }

  abbrev pub full_name_hash : (leaf_name parent_name : Text) → Text
  full_name_hash leaf_name parent_name =
      codes "0x" ++ encoders.sha256_hex (leaf_name ++ (codes "." ++ parent_name))

  abbrev pub new_task : (user name_hash : Text) → Authorization → NameOperationTask
  new_task user hash a = record {
    id = new_id;
    user_id = user;
    action = codes "leaf_name.register_initial";
    payload_hash = hash;
    nonce = a.nonce;
    status = codes "authorized";
    avs_task_id = a.signer_set_id;
    created_at = now;
    updated_at = now;
    expires_at = a.expires_at_ms / 1000;
  }

  -- What follows the answer of the AVS.
  store_task : Text → Text → Result AuthorizeResult → Action NameTables RegisterLeafResponse
  store_task user hash (err e) = raise err_avs_unauthorized
  store_task user hash (ok r) =
      if not (text_eq r.status (codes "authorized"))
      then raise err_avs_unauthorized
      else let task = new_task user hash r.authorization in
        do
          create_task up task
          pure (record {
            task_id = task.id;
            name_hash = hash;
            action = task.action;
            status = task.status;
            expires_at = task.expires_at;
          })

  -- What follows the checks of the names.
  unfoldable pub register_checked :
      Text → (leaf_name parent_name : Text) → Action NameTables RegisterLeafResponse
  unfolding store_task
  register_checked user leaf_name parent_name = do
    wallet ← get_wallet_binding up user
    elim wallet [
      | none ↦ raise err_no_wallet_bound
      | some wb ↦ store_task user (full_name_hash leaf_name parent_name) (
          authorize_leaf_registration avs_libraries encoders avs moment
            (avs_input leaf_name parent_name wb))
    ]

  unfoldable pub register_leaf : Text → RegisterLeafRequest → Action NameTables RegisterLeafResponse
  register_leaf user req =
      let leaf_name = to_lower (trim_space req.leaf_name) in
      let parent_name = trim_space req.parent_name in
      if not (is_leaf_name leaf_name)
      then raise err_name_invalid
      else if text_eq parent_name []
      then raise err_parent_invalid
      else register_checked user leaf_name parent_name

  unfoldable pub get_task : Text → Text → Action NameTables GetTaskResponse
  get_task id user = do
    found ← get_task_by_id up id
    elim (owned_task found user) [
      | none ↦ raise err_task_not_found
      | some t ↦ pure (task_response t)
    ]

  unfoldable pub handle_register :
      Option Text → Option RegisterLeafRequest → Handler NameTables RegisterLeafResponse
  handle_register session body = with_session session (λ user. with_body body (λ req.
      if text_eq req.leaf_name [] || text_eq req.parent_name []
      then refuse (validation_error (codes "leafName and parentName are required"))
      else respond 202 (register_leaf user req)))

  unfoldable pub handle_get_task : Option Text → Text → Handler NameTables GetTaskResponse
  handle_get_task session id = with_session session (λ user. respond 200 (get_task id user))
