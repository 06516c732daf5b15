-- ===== src/Webhooks/Dispatch.antt =====
-- To which webhooks an event goes, and when a call counts as a success.
use sms_server.Base.{
  ℕ, zero, suc, ◌≡◌, refl, sym, ◌∙◌, ap, List, [], ◌∷◌, ◌++◌, append-nil, append_assoc, some, arith,
  length, get_elem?, replicate, get_elem?-append_length, length-append, Bool-cases, inl, inr,
  if◌then◌else◌,
}
use sms_server.Events.{EventTypes}
use sms_server.Webhooks.{
  ConfiguredWebhook, EventsMap, push_index, push_events, fill_events_map, new_events_map, fetch,
  process,
}

module _ (e : EventTypes) where
  -- How often a kind is listed.
  abbrev occurrences : e.EventKind → List (e.EventKind) → ℕ
  occurrences k [] = 0
  occurrences k (l ∷ ls) = let rest = occurrences k ls in if e.same l k then suc rest else rest

  abbrev indices : e.EventKind → ℕ → List (ConfiguredWebhook e) → List ℕ
  indices k idx [] = []
  indices k idx (w ∷ ws) = replicate (occurrences k w.events) idx ++ indices k (suc idx) ws

  -- Each webhook as often as it lists the kind, in the order of the configuration.
  abbrev pub subscribers : e.EventKind → List (ConfiguredWebhook e) → List (ConfiguredWebhook e)
  subscribers k [] = []
  subscribers k (w ∷ ws) = replicate (occurrences k w.events) w ++ subscribers k ws

  push_events-replicate :
      (k : e.EventKind) (idx : ℕ) (events : List (e.EventKind)) (events_map : EventsMap e)
      → push_events e idx events events_map k ≡ events_map k ++ replicate (occurrences k events) idx
  push_events-replicate k idx [] events_map = sym (append-nil _)
  push_events-replicate k idx (l ∷ ls) events_map = elim (Bool-cases (e.same l k)) [
    | inl h ↦
        push_events-replicate k idx ls (push_index e l idx events_map)
        ∙ rw h (append_assoc (events_map k) (idx ∷ []) _)
    | inr h ↦ push_events-replicate k idx ls (push_index e l idx events_map) ∙ rw h refl
  ]

  fill_events_map-indices :
      (k : e.EventKind) (idx : ℕ) (ws : List (ConfiguredWebhook e)) (events_map : EventsMap e)
      → fill_events_map e idx ws events_map k ≡ events_map k ++ indices k idx ws
  unfolding fill_events_map
  fill_events_map-indices k idx [] events_map = sym (append-nil _)
  fill_events_map-indices k idx (w ∷ ws) events_map =
      fill_events_map-indices k (suc idx) ws (push_events e idx w.events events_map)
      ∙ rw (push_events-replicate k idx w.events events_map) (append_assoc (events_map k) _ _)

  fetch-replicate :
      (all : List (ConfiguredWebhook e)) (i n : ℕ) (w : ConfiguredWebhook e) (is : List ℕ)
      (ws : List (ConfiguredWebhook e))
      → get_elem? all i ≡ some w
      → fetch e all is ≡ some ws
      → fetch e all (replicate n i ++ is) ≡ some (replicate n w ++ ws)
  fetch-replicate all i zero w is ws h q = q
  fetch-replicate all i (suc n) w is ws h q = rw (h, fetch-replicate all i n w is ws h q) refl

  fetch-indices :
      (k : e.EventKind) (before ws : List (ConfiguredWebhook e))
      → fetch e (before ++ ws) (indices k (length before) ws) ≡ some (subscribers k ws)
  fetch-indices k before [] = refl
  fetch-indices k before (w ∷ ws) =
      fetch-replicate (before ++ w ∷ ws) (length before) (occurrences k w.events) w _ _
        (get_elem?-append_length before w ws)
        (ap (λ all. fetch e all (indices k (suc (length before)) ws))
            (sym (append_assoc before (w ∷ []) ws))
          ∙ ap (λ n. fetch e ((before ++ w ∷ []) ++ ws) (indices k n ws))
              (omega (arith, length-append before (w ∷ [])))
          ∙ fetch-indices k (before ++ w ∷ []) ws)

  -- An event is sent to each webhook as often as the webhook lists the event's kind, in the order
  -- of the configuration, and to no other; no index is out of bounds.
  pub process-subscribers :
      (webhooks : List (ConfiguredWebhook e)) (event : e.Event)
      → process e webhooks event ≡ some (subscribers (e.kind_of event) webhooks)
  unfolding process new_events_map
  process-subscribers webhooks event =
      ap (fetch e webhooks) (fill_events_map-indices (e.kind_of event) 0 webhooks (λ k. []))
      ∙ fetch-indices (e.kind_of event) [] webhooks
