-- ===== src/Api/Names/Laws.antt =====
-- What a registration that succeeds rests on, and who reads its task.
use nearby_payments_api.Base.{
  ◌≡◌, refl, sym, ap, ◌∙◌, inl, inr, true, false, none, some, [], ◌∷◌, Text, codes, text_eq,
  text_eq_refl, arith, if◌then◌else◌, Bool-cases, Option-cases,
}
use nearby_payments_api.Api.Errors.{Result, ok, err, Result-cases}
use nearby_payments_api.Api.Wallets.{WalletBinding, wallet_of_user}
use nearby_payments_api.Api.Avs.Client.{AuthorizeResult, Client, authorize_leaf_registration}
use nearby_payments_api.Api.Names.Types.{
  NameOperationTask, RegisterLeafRequest, RegisterLeafResponse, GetTaskResponse, err_task_not_found,
  NameTables, select_task, task_at, add_task, get_wallet_binding, create_task, get_task_by_id,
}
use nearby_payments_api.Api.Names.Pattern.{is_leaf_name}
use nearby_payments_api.Api.Names.Service.{
  Packages, World, task_response, avs_input, full_name_hash, new_task, register_checked,
  register_leaf, get_task,
}

module _ (p : Packages) (avs : Client) (w : World) where
  -- The names as they are checked.
  abbrev pub leaf_of : RegisterLeafRequest → Text
  leaf_of req = p.to_lower (p.trim_space req.leaf_name)

  abbrev pub parent_of : RegisterLeafRequest → Text
  parent_of req = p.trim_space req.parent_name

  abbrev pub asked : RegisterLeafRequest → WalletBinding → Result AuthorizeResult
  asked req wb =
      authorize_leaf_registration p.avs_libraries p.encoders avs w.moment
        (avs_input p avs w (leaf_of req) (parent_of req) wb)

  abbrev pub made : Text → RegisterLeafRequest → AuthorizeResult → NameOperationTask
  made user req r =
      new_task p avs w user (full_name_hash p avs w (leaf_of req) (parent_of req)) r.authorization

  -- How a registration that succeeds has ended.
  register-ended :
      (user : Text) (req : RegisterLeafRequest) (db : NameTables) (resp : RegisterLeafResponse)
      → (register_leaf p avs w user req db).0 ≡ ok resp
      → (wb : WalletBinding) × (r : AuthorizeResult) × (is_leaf_name (leaf_of req) ≡ true)
        × (text_eq (parent_of req) [] ≡ false)
        × (wallet_of_user user db.wallets ≡ some wb)
        × (asked req wb ≡ ok r)
        × (add_task (made user req r) db ≡ some (register_leaf p avs w user req db).1)
        × (resp.task_id ≡ w.new_id)
        × (resp.name_hash ≡ full_name_hash p avs w (leaf_of req) (parent_of req))
  unfolding register_leaf register_checked get_wallet_binding create_task
  register-ended user req db resp e = elim (Bool-cases (is_leaf_name (leaf_of req))) [
    | inr bad ↦ let never : ⊥ = ground arith in absurd never
    | inl leaf ↦ elim (Bool-cases (text_eq (parent_of req) [])) [
      | inl empty ↦ let never : ⊥ = ground arith in absurd never
      | inr full ↦ elim (Option-cases (wallet_of_user user db.wallets)) [
        | inl missing ↦ let never : ⊥ = ground arith in absurd never
        | inr (wb, found) ↦ elim (Result-cases (asked req wb)) [
          | inl (x, refused) ↦ let never : ⊥ = ground arith in absurd never
          | inr (r, approved) ↦ elim (Option-cases (add_task (made user req r) db)) [
            | inl clash ↦ let never : ⊥ = ground arith in absurd never
            | inr (db', added) ↦
                (wb, r, leaf, full, found, approved, ground arith, ground arith, ground arith)
          ]
        ]
      ]
    ]
  ]

  add_task-eq-some :
      (t : NameOperationTask) (db db' : NameTables)
      → add_task t db ≡ some db'
      → (task_at t.id db.tasks ≡ none) × (db' ≡ record db { tasks = t ∷ db.tasks })
  unfolding add_task
  add_task-eq-some t db db' e = ground arith

  get_task-at :
      (w' : World) (id reader : Text) (t : NameOperationTask) (db : NameTables)
      → w'.up select_task ≡ true
      → task_at id db.tasks ≡ some t
      → get_task p avs w' id reader db
        ≡ ((if text_eq t.user_id reader then ok (task_response t) else err err_task_not_found), db)
  unfolding get_task get_task_by_id
  get_task-at w' id reader t db up there = elim (Bool-cases (text_eq t.user_id reader)) [
    | inl own ↦ ground arith
    | inr other ↦ ground arith
  ]

  -- After a registration that succeeded, its user reads the task by the id of the answer, with the hash
  -- of the answer, authorized, created and last changed at the time of the registration, if the database
  -- answers; everybody else is told that there is no such task. The tables stay as they are.
  pub register_leaf-get :
      (w' : World) (user reader : Text) (req : RegisterLeafRequest) (db : NameTables)
      (resp : RegisterLeafResponse)
      → (register_leaf p avs w user req db).0 ≡ ok resp
      → w'.up select_task ≡ true
      → let db' = (register_leaf p avs w user req db).1 in
        (shown : GetTaskResponse) × (get_task p avs w' resp.task_id reader db'
          ≡ ((if text_eq user reader then ok shown else err err_task_not_found), db'))
        × (shown.name_hash ≡ resp.name_hash)
        × (shown.status ≡ codes "authorized")
        × (shown.created_at ≡ w.now)
        × (shown.updated_at ≡ w.now)
  register_leaf-get w' user reader req db resp e up =
      let (wb, r, _, _, _, _, added, id, hash) = register-ended user req db resp e in
      let task = made user req r in
      let db' = (register_leaf p avs w user req db).1 in
      let grown = (add_task-eq-some task db db' added).1 in
      let there : task_at task.id db'.tasks ≡ some task =
        ap (λ (d : NameTables). task_at task.id d.tasks) grown ∙ rw (text_eq_refl w.new_id) refl in
      (
        task_response task,
        get_task-at w' resp.task_id reader task db' up (ap (λ i. task_at i db'.tasks) id ∙ there),
        sym hash,
        refl,
        refl,
        refl,
      )
