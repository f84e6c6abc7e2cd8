-- ===== src/Api/Deposit/Runs.antt =====
-- Any sequence of deliveries to the webhook and of rounds of the processor.
use nearby_payments_api.Base.{
  ◌≡◌, refl, ap, inl, inr, Bool, true, false, Option, none, some, List, [], ◌∷◌, Text, take,
}
use nearby_payments_api.Api.Deposit.Store.{
  BridgeWebhookEvent, Deposit, Tables, get_unprocessed_webhook_events, unprocessed,
}
use nearby_payments_api.Api.Deposit.Pipeline.{Libraries, Moment, handle_bridge_webhook, process_all}
use nearby_payments_api.Api.Deposit.Webhook.{handle_bridge_webhook-writes}
use nearby_payments_api.Api.Deposit.History.{Continues, deposit_at, Keeps, Keeps-refl, Keeps-trans}
use nearby_payments_api.Api.Deposit.Processing.{process_each-Keeps}

-- A request to the webhook, with its body, if it could be read, and its signature; and a round of
-- the processor, with what the world answers for each event.
pub data Call : Type 0 where
  deliver : Moment → Option Text → (header : Text) → Call
  sweep :
      (BridgeWebhookEvent → Moment)
      → Bool
      → (List BridgeWebhookEvent → List BridgeWebhookEvent)
      → Call

module _ (lib : Libraries) where
  unfoldable pub perform : Call → Tables → Tables
  perform (deliver m body header) db = (handle_bridge_webhook lib m body header db).1
  perform (sweep moment up order) db = process_all lib moment up order db

  unfoldable pub perform_all : List Call → Tables → Tables
  perform_all [] db = db
  perform_all (c ∷ cs) db = perform_all cs (perform c db)

  deliver-Keeps :
      (m : Moment) (body : Option Text) (header : Text) (db : Tables)
      → Keeps db (handle_bridge_webhook lib m body header db).1
  unfolding handle_bridge_webhook
  deliver-Keeps m none header db = Keeps-refl db (handle_bridge_webhook lib m none header db).1 refl
  deliver-Keeps m (some body) header db =
      Keeps-refl db (handle_bridge_webhook lib m (some body) header db).1
        (elim (handle_bridge_webhook-writes lib m body header db) [
          | inl e ↦ ap (λ (t : Tables). t.deposits) e
          | inr (envelope, payload, signed, parsed, missing, valid, e) ↦ ap (λ r. r.1.deposits) e
        ])

  sweep-Keeps :
      (moment : BridgeWebhookEvent → Moment) (up : Bool)
      (order : List BridgeWebhookEvent → List BridgeWebhookEvent) (db : Tables)
      → Keeps db (process_all lib moment up order db)
  unfolding process_all get_unprocessed_webhook_events
  sweep-Keeps moment false order db = Keeps-refl db db refl
  sweep-Keeps moment true order db =
      process_each-Keeps lib moment (take 50 (order (unprocessed db.events))) db

  perform-Keeps : (c : Call) (db : Tables) → Keeps db (perform c db)
  unfolding perform
  perform-Keeps (deliver m body header) db = deliver-Keeps m body header db
  perform-Keeps (sweep moment up order) db = sweep-Keeps moment up order db

  perform_all-Keeps : (cs : List Call) (db : Tables) → Keeps db (perform_all cs db)
  unfolding perform_all
  perform_all-Keeps [] db = Keeps-refl db db refl
  perform_all-Keeps (c ∷ cs) db =
      Keeps-trans db (perform c db) (perform_all (c ∷ cs) db) (perform-Keeps c db)
        (perform_all-Keeps cs (perform c db))

  -- Whatever is delivered and processed, in whatever order and with whatever failures, a deposit of
  -- Bridge that is in the table stays there under its provider's id, for the same user, route, kind,
  -- amount and currency; only its status, its time of update and its hash may change, and a hash
  -- that is known may give way to another one but never to none.
  pub perform_all-deposit_Continues :
      (cs : List Call) (db : Tables) (id : Text) (d : Deposit)
      → deposit_at id db.deposits ≡ some d
      → (d' : Deposit) × (deposit_at id (perform_all cs db).deposits ≡ some d') × Continues d d'
  perform_all-deposit_Continues cs db = perform_all-Keeps cs db
