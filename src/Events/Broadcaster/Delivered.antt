-- ===== src/Events/Broadcaster/Delivered.antt =====
-- From the broadcaster to the calls of the webhooks.
use sms_server.Base.{
  ℕ, ◌≡◌, refl, ◌∙◌, ap, sym, Bool, true, List, [], ◌∷◌, ◌++◌, append-nil, append_assoc, map,
  Option, some, Result, ok, Option-cases, inl, inr,
}
use sms_server.Events.{EventTypes}
use sms_server.Webhooks.{ConfiguredWebhook, new_events_map, process}
use sms_server.Webhooks.Certificates.{Tls, client_builder, new_webhook_worker}
use sms_server.Webhooks.Dispatch.{subscribers, process-subscribers}
use sms_server.Events.Broadcaster.{EventBroadcaster, new_broadcaster, broadcast_event, run_worker}

module _ (e : EventTypes) (is_open : ℕ → Bool) where
  -- The worker lives while the events are broadcast.
  abbrev pub broadcast_all : EventBroadcaster e → List (e.Event) → EventBroadcaster e
  broadcast_all b [] = b
  broadcast_all b (event ∷ events) = broadcast_all (broadcast_event e true is_open b event) events

  broadcast_event-webhooks :
      (b : EventBroadcaster e) (event : e.Event) (queue : List (e.Event))
      → b.webhooks ≡ some queue
      → (broadcast_event e true is_open b event).webhooks ≡ some (queue ++ event ∷ [])
  unfolding broadcast_event
  broadcast_event-webhooks b event queue h = elim (Option-cases b.websocket) [
    | inl q ↦ rw (q, h) refl
    | inr (cs, q) ↦ rw (q, h) refl
  ]

  broadcast_all-webhooks :
      (b : EventBroadcaster e) (events queue : List (e.Event))
      → b.webhooks ≡ some queue
      → (broadcast_all b events).webhooks ≡ some (queue ++ events)
  broadcast_all-webhooks b [] queue h = h ∙ ap some (sym (append-nil queue))
  broadcast_all-webhooks b (event ∷ events) queue h =
      broadcast_all-webhooks (broadcast_event e true is_open b event) events (queue ++ event ∷ [])
        (broadcast_event-webhooks b event queue h)
      ∙ ap some (append_assoc queue (event ∷ []) events)

  abbrev calls_for :
      List (ConfiguredWebhook e) → e.Event → e.Event × Option (List (ConfiguredWebhook e))
  calls_for webhooks event = (event, some (subscribers e (e.kind_of event) webhooks))

  run_worker-calls :
      (webhooks : List (ConfiguredWebhook e)) (queue : List (e.Event))
      → run_worker e (some (new_events_map e webhooks)) webhooks queue
        ≡ map (calls_for webhooks) queue
  unfolding run_worker
  run_worker-calls webhooks [] = refl
  run_worker-calls webhooks (event ∷ queue) = rw (run_worker-calls webhooks queue) (
      ap (λ calls. (event, calls) ∷ map (calls_for webhooks) queue)
        (unfold process in process-subscribers e webhooks event))

  new_webhook_worker-created :
      (x : Tls) (tls : Bool) (build : List (x.Certificate) → Result (Unit {0}))
      (webhooks : List (ConfiguredWebhook e)) (certificates : List (x.Certificate))
      → client_builder x e tls webhooks ≡ ok certificates
      → build certificates ≡ ok tt
      → new_webhook_worker x e tls build webhooks ≡ some (new_events_map e webhooks)
  unfolding new_webhook_worker
  new_webhook_worker-created x tls build webhooks certificates loaded built =
      rw (loaded, built) refl

  -- With webhooks configured, a broadcaster is made. If the certificates of the webhooks load and
  -- the client is built with them, so that the worker does not panic at its creation, then after
  -- any events have been broadcast the worker's calls are, event by event and in that order,
  -- those to the webhooks that list the event's kind: no event is lost on the way to the calls.
  pub new_broadcaster-run_worker :
      (x : Tls) (tls : Bool) (build : List (x.Certificate) → Result (Unit {0}))
      (webhooks : List (ConfiguredWebhook e)) (certificates : List (x.Certificate))
      (websocket_enabled : Bool) (events : List (e.Event))
      → client_builder x e tls webhooks ≡ ok certificates
      → build certificates ≡ ok tt
      → (b : EventBroadcaster e) × (new_broadcaster e (some webhooks) websocket_enabled
          ≡ (some b, true))
        × (queue : List (e.Event)) × ((broadcast_all b events).webhooks ≡ some queue)
        × (run_worker e (new_webhook_worker x e tls build webhooks) webhooks queue
            ≡ map (calls_for webhooks) events)
  unfolding new_broadcaster
  new_broadcaster-run_worker x tls build webhooks certificates websocket_enabled events loaded
        built =
      (
        _,
        refl,
        events,
        broadcast_all-webhooks _ events [] refl,
        rw (new_webhook_worker-created x tls build webhooks certificates loaded built)
            (run_worker-calls webhooks events),
      )
