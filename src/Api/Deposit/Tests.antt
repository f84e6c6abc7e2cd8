-- ===== src/Api/Deposit/Tests.antt =====
-- A delivery and a round of the processor on concrete tables, and an instance of each theorem.
use nearby_payments_api.Base.{
  ◌≡◌, refl, ap, ◌⊎◌, Bool, true, false, none, some, [], ◌∷◌, codes, text_eq, get_or, arith,
}
use nearby_payments_api.Api.Replies.{answered}
use nearby_payments_api.Api.Rows.{update_where}
use nearby_payments_api.Api.Deposit.Store.{
  DepositRoute, BridgeWebhookEvent, Deposit, Tables, insert_webhook_event, webhook_event_exists,
  mark_webhook_event_processed, get_unprocessed_webhook_events,
  get_deposit_route_by_provider_route_id, upsert_deposit,
}
use nearby_payments_api.Api.Deposit.Pipeline.{
  Drain, Libraries, Moment, handle_bridge_webhook, drain_deposit, store_deposit,
  process_liquidation_drain, process, process_one, process_each, process_all,
}
use nearby_payments_api.Api.Deposit.Webhook.{
  Stored, handle_bridge_webhook-once, handle_bridge_webhook-writes,
}
use nearby_payments_api.Api.Deposit.History.{Continues, deposit_at}
use nearby_payments_api.Api.Deposit.Runs.{
  deliver, sweep, perform, perform_all, perform_all-deposit_Continues,
}

abbrev drain : Drain
drain = record {
  id = codes "d1";
  liquidation_address_id = codes "la1";
  amount = codes "7";
  currency = codes "usdc";
  status = codes "done";
  tx_hash = codes "0xt";
}

-- Every body is the event "e1", and the signature is right if it is "ok".
abbrev libraries : Libraries
libraries = record {
  unmarshal_envelope =
      λ body. some (record { id = codes "e1"; event_type = codes "liquidation_address.drain" });
  unmarshal_activity = λ body. none;
  unmarshal_drain = λ body. some drain;
  decode = λ t. some t;
  verify = λ body signature. text_eq signature (codes "ok");
  jsonb = λ t. some t;
}

abbrev moment : Moment
moment = record { up = λ s. true; now = 1000; new_id = codes "x1" }

abbrev route : DepositRoute
route = record {
  id = codes "r1";
  user_id = codes "ann";
  provider = codes "bridge";
  provider_route_id = codes "la1";
  kind = codes "liquidation_address";
  source_rail = codes "base";
  source_currency = codes "usdc";
  source_address = codes "0xs";
  destination_rail = codes "sui";
  destination_currency = codes "usdsui";
  destination_addr_hash = codes "h";
  state = codes "active";
  created_at = 1;
  updated_at = 1;
}

abbrev one_route : Tables
one_route = record { routes = route ∷ []; events = []; deposits = []; links = []; wallets = [] }

abbrev event : Bool → BridgeWebhookEvent
event processed = record {
  id = codes "x1";
  provider_event_id = codes "e1";
  event_type = codes "liquidation_address.drain";
  raw_payload = codes "{}";
  processed = processed;
  created_at = 1000;
}

deliver-run :
    handle_bridge_webhook libraries moment (some (codes "{}")) (codes "ok") one_route
    ≡ (answered 200 tt, record one_route { events = event false ∷ [] })
unfolding handle_bridge_webhook webhook_event_exists insert_webhook_event text_eq
deliver-run = refl

unsigned-run :
    (handle_bridge_webhook libraries moment (some (codes "{}")) (codes "no") one_route).1
    ≡ one_route
unfolding handle_bridge_webhook text_eq
unsigned-run = refl

abbrev deposit : Deposit
deposit = drain_deposit libraries moment route drain

abbrev done : Tables
done = record {
  routes = route ∷ [];
  events = event true ∷ [];
  deposits = deposit ∷ [];
  links = [];
  wallets = [];
}

sweep-run :
    perform_all libraries
      (deliver moment (some (codes "{}")) (codes "ok") ∷ sweep (λ ev. moment) true (λ l. l) ∷ [])
      one_route
    ≡ done
unfolding perform_all perform handle_bridge_webhook webhook_event_exists insert_webhook_event
    process_all get_unprocessed_webhook_events process_each process_one process
    process_liquidation_drain store_deposit get_deposit_route_by_provider_route_id upsert_deposit
    mark_webhook_event_processed update_where text_eq
sweep-run = refl

handle_bridge_webhook-once_example :
    let db' =
      (handle_bridge_webhook libraries moment (some (codes "{}")) (codes "ok") one_route).1 in
    handle_bridge_webhook libraries moment (some (codes "{ }")) (codes "ok") db'
    ≡ (answered 200 tt, db')
unfolding handle_bridge_webhook webhook_event_exists insert_webhook_event text_eq
handle_bridge_webhook-once_example =
    handle_bridge_webhook-once libraries moment moment (codes "{}") (codes "{ }") (codes "ok")
      (codes "ok") one_route
      (record { id = codes "e1"; event_type = codes "liquidation_address.drain" })
      (record { id = codes "e1"; event_type = codes "liquidation_address.drain" }) refl refl refl
      (λ e. absurd (omega (arith, ap (λ t. get_or t 0 0) e))) refl refl refl

handle_bridge_webhook-writes_example :
    ((handle_bridge_webhook libraries moment (some (codes "{}")) (codes "ok") one_route).1
      ≡ one_route)
    ⊎ Stored libraries moment (codes "{}") (codes "ok") one_route
handle_bridge_webhook-writes_example =
    handle_bridge_webhook-writes libraries moment (codes "{}") (codes "ok") one_route

perform_all-deposit_Continues_example :
    (d' : Deposit) × (deposit_at
        (codes "d1")
        (perform_all libraries
          (deliver moment (some (codes "{}")) (codes "ok")
            ∷ sweep (λ ev. moment) true (λ l. l)
            ∷ [])
          done).deposits
      ≡ some d')
    × Continues deposit d'
unfolding text_eq
perform_all-deposit_Continues_example =
    perform_all-deposit_Continues libraries
      (deliver moment (some (codes "{}")) (codes "ok") ∷ sweep (λ ev. moment) true (λ l. l) ∷ [])
      done (codes "d1") deposit refl
