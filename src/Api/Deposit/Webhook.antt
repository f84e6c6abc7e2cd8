-- ===== src/Api/Deposit/Webhook.antt =====
-- What the webhook guarantees: only signed events are stored, and each of them once.
use nearby_payments_api.Base.{
  ◌≡◌, refl, sym, ap, subst, ◌∙◌, ◌≢◌, ◌⊎◌, inl, inr, true, false, not, ◌&&◌, none, some, [], ◌∷◌,
  Text, arith, text_eq, text_eq_iff, text_eq_refl, Option-cases, Bool-cases,
}
use nearby_payments_api.Api.Replies.{answered}
use nearby_payments_api.Api.Rows.{find}
use nearby_payments_api.Api.Deposit.Store.{
  BridgeWebhookEvent, Tables, event_exists, insert_event, is_event, add_event, insert_webhook_event,
  webhook_event_exists,
}
use nearby_payments_api.Api.Deposit.Pipeline.{
  Envelope, Libraries, Moment, verify_signature, new_event, handle_bridge_webhook,
}

module _ (lib : Libraries) where
  open lib use {unmarshal_envelope, jsonb}

  -- What an accepted event leaves: its id is in the table.
  IsStored : Text → Tables → Type 0
  IsStored id db = (ev : BridgeWebhookEvent) × (find (is_event id) db.events ≡ some ev)

  added-stored :
      (ev : BridgeWebhookEvent) (db db' : Tables)
      → add_event ev db ≡ some db'
      → find (is_event ev.provider_event_id) db'.events ≡ some ev
  unfolding add_event
  added-stored ev db db' e =
      let grown : db' ≡ record db { events = ev ∷ db.events } = ground arith in
      ap (λ (d : Tables). find (is_event ev.provider_event_id) d.events) grown
      ∙ rw (text_eq_refl ev.provider_event_id) refl

  accepted-ended :
      (m : Moment) (body header : Text) (db : Tables) (envelope : Envelope)
      → unmarshal_envelope body ≡ some envelope
      → (handle_bridge_webhook lib m (some body) header db).0 ≡ answered 200 tt
      → IsStored envelope.id (handle_bridge_webhook lib m (some body) header db).1
  unfolding handle_bridge_webhook webhook_event_exists insert_webhook_event IsStored
  accepted-ended m body header db envelope parsed e =
      elim (Option-cases (find (is_event envelope.id) db.events)) [
        | inr (ev, found) ↦ (ev, ground arith)
        | inl missing ↦ elim (Option-cases (jsonb body)) [
          | inl garbled ↦ let no : ⊥ = ground arith in absurd no
          | inr (payload, stored) ↦
              let ev = record (new_event lib m envelope body) { raw_payload = payload } in
              elim (Option-cases (add_event ev db)) [
                | inl clash ↦ let no : ⊥ = ground arith in absurd no
                | inr (db', added) ↦ (ev, ground (arith, added-stored ev db db' added))
              ]
        ]
      ]

  known-id :
      (m : Moment) (body header : Text) (db : Tables) (envelope : Envelope)
      → unmarshal_envelope body ≡ some envelope
      → (handle_bridge_webhook lib m (some body) header db).0 ≡ answered 200 tt
      → text_eq envelope.id [] ≡ false
  unfolding handle_bridge_webhook
  known-id m body header db envelope parsed e = ground arith

  repeated :
      (m : Moment) (body header : Text) (db : Tables) (envelope : Envelope)
      → unmarshal_envelope body ≡ some envelope
      → verify_signature lib header body ≡ true
      → text_eq envelope.id [] ≡ false
      → text_eq envelope.event_type [] ≡ false
      → m.up event_exists ≡ true
      → IsStored envelope.id db
      → handle_bridge_webhook lib m (some body) header db ≡ (answered 200 tt, db)
  unfolding handle_bridge_webhook webhook_event_exists IsStored
  repeated m body header db envelope parsed signed id kind up (ev, found) = ground arith

  -- After an event was answered by 200, any signed delivery of an event with the same id and with a
  -- type is answered by 200 and changes nothing, if the database answers.
  pub handle_bridge_webhook-once :
      (m m' : Moment) (body body' header header' : Text) (db : Tables) (first again : Envelope)
      → unmarshal_envelope body ≡ some first
      → unmarshal_envelope body' ≡ some again
      → first.id ≡ again.id
      → again.event_type ≢ []
      → verify_signature lib header' body' ≡ true
      → m'.up event_exists ≡ true
      → (handle_bridge_webhook lib m (some body) header db).0 ≡ answered 200 tt
      → let db' = (handle_bridge_webhook lib m (some body) header db).1 in
        handle_bridge_webhook lib m' (some body') header' db' ≡ (answered 200 tt, db')
  handle_bridge_webhook-once m m' body body' header header' db first again parsed parsed' same kind
        signed up e =
      let db' = (handle_bridge_webhook lib m (some body) header db).1 in
      repeated m' body' header' db' again parsed' signed
        (ap (λ t. text_eq t []) (sym same) ∙ known-id m body header db first parsed e)
        (ground (arith, text_eq_iff again.event_type [])) up
        (subst (λ t. IsStored t db') same (accepted-ended m body header db first parsed e))

  add_event-eq-some :
      (ev : BridgeWebhookEvent) (db db' : Tables)
      → add_event ev db ≡ some db'
      → db' ≡ record db { events = ev ∷ db.events }
  unfolding add_event
  add_event-eq-some ev db db' e = ground arith

  -- A delivery that is stored.
  abbrev pub Stored : Moment → Text → Text → Tables → Type 0
  Stored m body header db =
      (envelope : Envelope) × (payload : Text) × (verify_signature lib header body ≡ true)
      × (unmarshal_envelope body ≡ some envelope)
      × (find (is_event envelope.id) db.events ≡ none)
      × (jsonb body ≡ some payload)
      × (handle_bridge_webhook lib m (some body) header db ≡ (
        answered 200 tt,
        record db {
          events = record (new_event lib m envelope body) { raw_payload = payload } ∷ db.events;
        },
      ))

  -- The only thing that the webhook writes is one event, not yet processed, with an id that no
  -- stored event has and the signed body, as the JSONB column takes it, for its payload; and then it
  -- answers 200.
  pub handle_bridge_webhook-writes :
      (m : Moment) (body header : Text) (db : Tables)
      → ((handle_bridge_webhook lib m (some body) header db).1 ≡ db) ⊎ Stored m body header db
  unfolding handle_bridge_webhook webhook_event_exists insert_webhook_event
  handle_bridge_webhook-writes m body header db =
      elim (Bool-cases (verify_signature lib header body)) [
        | inr unsigned ↦ inl (ground arith)
        | inl signed ↦ elim (Option-cases (unmarshal_envelope body)) [
          | inl garbled ↦ inl (ground arith)
          | inr (envelope, parsed) ↦ elim (Option-cases (find (is_event envelope.id) db.events)) [
            | inr (ev, found) ↦ inl (ground arith)
            | inl missing ↦ elim (Option-cases (jsonb body)) [
              | inl invalid ↦ inl (ground arith)
              | inr (payload, valid) ↦
                  let ev = record (new_event lib m envelope body) { raw_payload = payload } in
                  elim (Option-cases (add_event ev db)) [
                    | inl clash ↦ inl (ground arith)
                    | inr (db', added) ↦
                        elim (Bool-cases (
                          m.up event_exists
                          && (m.up insert_event
                              && (not (text_eq envelope.id [])
                                  && not (text_eq envelope.event_type []))))) [
                                    | inr refused_it ↦ inl (ground arith)
                                    | inl accepted ↦ inr (
                                      envelope,
                                      payload,
                                      signed,
                                      parsed,
                                      missing,
                                      valid,
                                      ground (arith, add_event-eq-some ev db db' added),
                                    )
                                  ]
                  ]
            ]
          ]
        ]
      ]
