-- ===== src/Api/Deposit/Processing.antt =====
-- The processor leaves the deposits that are in the table.
use nearby_payments_api.Base.{
  ◌≡◌, refl, sym, ap, subst, ◌∙◌, ◌⊎◌, inl, inr, Bool, ◌&&◌, ◌||◌, List, [], ◌∷◌, Text, codes,
  arith, text_eq, Option-cases, Bool-cases,
}
use nearby_payments_api.Api.Errors.{Result-cases}
use nearby_payments_api.Api.Rows.{find}
use nearby_payments_api.Api.Deposit.Store.{
  DepositRoute, BridgeWebhookEvent, Deposit, Tables, Step, route_by_provider, upsert, put_deposit,
  mark_webhook_event_processed, get_deposit_route_by_provider_route_id, upsert_deposit,
}
use nearby_payments_api.Api.Deposit.Pipeline.{
  Activity, Drain, Libraries, Moment, activity_deposit, drain_deposit, store_deposit,
  process_virtual_account_activity, process_liquidation_drain, process, process_one, process_each,
}
use nearby_payments_api.Api.Deposit.History.{Keeps, Keeps-refl, Keeps-trans, put_deposit-Keeps}

module _ (lib : Libraries) where
  open lib use {unmarshal_activity, unmarshal_drain}

  store-Keeps :
      (m : Moment) (route : Text) (f : DepositRoute → Deposit) (db : Tables)
      → Keeps db (store_deposit lib m route f db).1
  unfolding store_deposit get_deposit_route_by_provider_route_id upsert_deposit
  store-Keeps m route f db = elim (Bool-cases (m.up route_by_provider && m.up upsert)) [
    | inr down ↦ Keeps-refl db (store_deposit lib m route f db).1 (ground arith)
    | inl up ↦
        elim (Option-cases
          (find (λ (r : DepositRoute). text_eq r.provider_route_id route) db.routes)) [
            | inl missing ↦ Keeps-refl db (store_deposit lib m route f db).1 (ground arith)
            | inr (r, there) ↦ elim (Option-cases (put_deposit (f r) db)) [
              | inl clash ↦ Keeps-refl db (store_deposit lib m route f db).1 (ground arith)
              | inr (db', done) ↦
                  put_deposit-Keeps (f r) db (store_deposit lib m route f db).1 (ground arith)
            ]
          ]
  ]

  activity-ended :
      (m : Moment) (ev : BridgeWebhookEvent) (db : Tables)
      → ((process_virtual_account_activity lib m ev db).1 ≡ db)
        ⊎ ((d : Activity) × ((process_virtual_account_activity lib m ev db).1
              ≡ (store_deposit lib m d.virtual_account_id (λ r. activity_deposit lib m r d) db).1))
  unfolding process_virtual_account_activity
  activity-ended m ev db = elim (Option-cases (unmarshal_activity ev.raw_payload)) [
    | inl garbled ↦ inl (ground arith)
    | inr (d, parsed) ↦ elim (Bool-cases (text_eq d.virtual_account_id [] || text_eq d.status [])) [
      | inl blank ↦ inl (ground arith)
      | inr given ↦ inr (d, rw (parsed, given, process_virtual_account_activity) refl)
    ]
  ]

  drain-ended :
      (m : Moment) (ev : BridgeWebhookEvent) (db : Tables)
      → ((process_liquidation_drain lib m ev db).1 ≡ db)
        ⊎ ((d : Drain) × ((process_liquidation_drain lib m ev db).1
              ≡ (store_deposit lib m d.liquidation_address_id (λ r. drain_deposit lib m r d) db).1))
  unfolding process_liquidation_drain
  drain-ended m ev db = elim (Option-cases (unmarshal_drain ev.raw_payload)) [
    | inl garbled ↦ inl (ground arith)
    | inr (d, parsed) ↦
        elim (Bool-cases (text_eq d.liquidation_address_id [] || text_eq d.status [])) [
          | inl blank ↦ inl (ground arith)
          | inr given ↦ inr (d, rw (parsed, given, process_liquidation_drain) refl)
        ]
  ]

  process-ended :
      (m : Moment) (ev : BridgeWebhookEvent) (db : Tables)
      → ((process lib m ev db).1 ≡ db)
        ⊎ (((process lib m ev db).1 ≡ (process_virtual_account_activity lib m ev db).1)
            ⊎ ((process lib m ev db).1 ≡ (process_liquidation_drain lib m ev db).1))
  unfolding process
  process-ended m ev db =
      elim (Bool-cases (text_eq ev.event_type (codes "virtual_account.activity"))) [
        | inl activity ↦ inr (inl (rw activity refl))
        | inr e ↦ elim (Bool-cases (text_eq ev.event_type (codes "liquidation_address.drain"))) [
          | inl drain ↦ inr (inr (rw (e, drain) refl))
          | inr e' ↦ inl (ground arith)
        ]
      ]

  -- Keeping depends on the later tables alone.
  Keeps-eq : (db later db' : Tables) → db' ≡ later → Keeps db later → Keeps db db'
  Keeps-eq db later db' e h = subst (λ (t : Tables). Keeps db t) (sym e) h

  process-Keeps :
      (m : Moment) (ev : BridgeWebhookEvent) (db : Tables) → Keeps db (process lib m ev db).1
  process-Keeps m ev db = elim (process-ended m ev db) [
    | inl same ↦ Keeps-refl db (process lib m ev db).1 (ap (λ (t : Tables). t.deposits) same)
    | inr (inl e) ↦ elim (activity-ended m ev db) [
      | inl same ↦
          Keeps-refl db (process lib m ev db).1 (ap (λ (t : Tables). t.deposits) (e ∙ same))
      | inr (d, stored) ↦
          Keeps-eq db _ (process lib m ev db).1 (e ∙ stored)
            (store-Keeps m d.virtual_account_id (λ r. activity_deposit lib m r d) db)
    ]
    | inr (inr e) ↦ elim (drain-ended m ev db) [
      | inl same ↦
          Keeps-refl db (process lib m ev db).1 (ap (λ (t : Tables). t.deposits) (e ∙ same))
      | inr (d, stored) ↦
          Keeps-eq db _ (process lib m ev db).1 (e ∙ stored)
            (store-Keeps m d.liquidation_address_id (λ r. drain_deposit lib m r d) db)
    ]
  ]

  mark-Keeps :
      (up : Step → Bool) (id : Text) (db : Tables)
      → Keeps db (mark_webhook_event_processed up id db).1
  unfolding mark_webhook_event_processed
  mark-Keeps up id db = Keeps-refl db (mark_webhook_event_processed up id db).1 (ground arith)

  process_one-ended :
      (m : Moment) (ev : BridgeWebhookEvent) (db : Tables)
      → (process_one lib m ev db ≡ (process lib m ev db).1)
        ⊎ (process_one lib m ev db
            ≡ (mark_webhook_event_processed m.up ev.id (process lib m ev db).1).1)
  unfolding process_one
  process_one-ended m ev db = elim (Result-cases (process lib m ev db).0) [
    | inl (x, failed) ↦ inl (rw (failed, process_one) refl)
    | inr (a, done) ↦ inr (rw (done, process_one) refl)
  ]

  process_one-Keeps :
      (m : Moment) (ev : BridgeWebhookEvent) (db : Tables) → Keeps db (process_one lib m ev db)
  process_one-Keeps m ev db =
      let processed = (process lib m ev db).1 in
      let marked = (mark_webhook_event_processed m.up ev.id processed).1 in
      elim (process_one-ended m ev db) [
        | inl e ↦ Keeps-eq db processed (process_one lib m ev db) e (process-Keeps m ev db)
        | inr e ↦ Keeps-eq db marked (process_one lib m ev db) e (
            Keeps-trans db processed marked (process-Keeps m ev db)
              (mark-Keeps m.up ev.id processed))
      ]

  pub process_each-Keeps :
      (moment : BridgeWebhookEvent → Moment) (evs : List BridgeWebhookEvent) (db : Tables)
      → Keeps db (process_each lib moment evs db)
  unfolding process_each
  process_each-Keeps moment [] db = Keeps-refl db db refl
  process_each-Keeps moment (ev ∷ evs) db =
      let step = process_one-Keeps (moment ev) ev db in
      Keeps-trans db (process_one lib (moment ev) ev db) (process_each lib moment (ev ∷ evs) db)
        step (process_each-Keeps moment evs (process_one lib (moment ev) ev db))
