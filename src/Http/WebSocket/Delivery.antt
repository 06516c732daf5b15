-- ===== src/Http/WebSocket/Delivery.antt =====
-- To which connections an event goes.
use Prim.Native.Nat.{bit_and}
use sms_server.Base.{
  ℕ, ◌≡◌, refl, sym, Bool, true, not, ◌&&◌, ◌||◌, List, [], ◌∷◌, map, Option, none, some, Result,
  ok, err, length, ◌==◌, Bool-cases, Result-cases, inl, inr, if◌then◌else◌, select, Text,
}
use sms_server.Events.{EventTypes, IsLawful, has_bit, member}
use sms_server.Http.WebSocket.{StoredConnection, Broadcast, retain, broadcast, mask_of, connection}

-- The filter of the subscriptions, without masks.
abbrev pub subscribes : (e : EventTypes) → Option (List (e.EventKind)) → e.EventKind → Bool
subscribes e none k = true
subscribes e (some ks) k = member e k ks

has_bit-mask_of :
    (e : EventTypes)
    → IsLawful e
    → (events : Option (List (e.EventKind))) (k : e.EventKind)
    → has_bit e (mask_of e events) k ≡ subscribes e events k
has_bit-mask_of e lawful none k = lawful.has_bit-all_bits k
has_bit-mask_of e lawful (some ks) k = lawful.has_bit-events_to_mask ks k

module _ (e : EventTypes) (is_open : ℕ → Bool) where
  abbrev wants : e.Event → StoredConnection → Bool
  wants event c = has_bit e c.event_mask (e.kind_of event)

  -- What becomes of the connections, by two filters.
  abbrev pub delivered : List StoredConnection → e.Event → Result Text → Broadcast
  delivered cs event (err reason) = record { connections = cs; sent = []; successful_sends = 0 }
  delivered cs event (ok message) =
      let reached = select (λ c. wants event c && is_open c.sender) cs in
      record {
        connections = select (λ c. not (wants event c) || is_open c.sender) cs;
        sent = map (λ c. (c.sender, message)) reached;
        successful_sends = length reached;
      }

  retain-delivered :
      (cs : List StoredConnection) (event : e.Event) (message : Text)
      → retain is_open message (e.to_bit (e.kind_of event)) cs ≡ delivered cs event (ok message)
  unfolding retain
  retain-delivered [] event message = refl
  retain-delivered (c ∷ cs) event message =
      elim (Bool-cases (bit_and c.event_mask (e.to_bit (e.kind_of event)) == 0)) [
        | inl h ↦ rw (h, retain-delivered cs event message) refl
        | inr h ↦ elim (Bool-cases (is_open c.sender)) [
          | inl q ↦ rw (h, q, retain-delivered cs event message) refl
          | inr q ↦ rw (h, q, retain-delivered cs event message) refl
        ]
      ]

  -- An event goes, in order, to the connections that want it and whose channel is open; those
  -- whose channel is closed are removed when they want it, and the others stay in order. The
  -- result counts the messages. An event that has no JSON form does nothing.
  pub broadcast-delivered :
      (cs : List StoredConnection) (event : e.Event)
      → broadcast e is_open cs event ≡ delivered cs event (e.to_json event)
  unfolding broadcast
  broadcast-delivered cs event = elim (Result-cases (e.to_json event)) [
    | inl (message, h) ↦ rw h (retain-delivered cs event message)
    | inr (reason, h) ↦ rw h refl
  ]

  -- A connection that was added with a list of kinds, or with none for all kinds, gets an event,
  -- in front of what the others get, just if its kind is one of them.
  broadcast-connection :
      (id : Text) (tx : ℕ) (events : Option (List (e.EventKind))) (cs : List StoredConnection)
      (event : e.Event) (message : Text)
      → IsLawful e
      → is_open tx ≡ true
      → e.to_json event ≡ ok message
      → let rest = (broadcast e is_open cs event).sent in
        (broadcast e is_open (connection e id tx events ∷ cs) event).sent
        ≡ (if subscribes e events (e.kind_of event) then (tx, message) ∷ rest else rest)
  unfolding broadcast retain
  broadcast-connection id tx events cs event message lawful opened json =
      rw (json, opened, sym (has_bit-mask_of e lawful events (e.kind_of event)))
        (elim (Bool-cases (bit_and (mask_of e events) (e.to_bit (e.kind_of event)) == 0)) [
          | inl h ↦ rw h refl
          | inr h ↦ rw h refl
        ])
