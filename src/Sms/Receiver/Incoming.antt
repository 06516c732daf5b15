-- ===== src/Sms/Receiver/Incoming.antt =====
-- What is stored of the messages that come in.
use sms_server.Base.{
  ℕ, ◌≡◌, refl, ◌⊎◌, inl, inr, Bool, true, false, [], ◌∷◌, Option, none, some, Result, ok, arith,
  Option-cases,
}
use sms_server.Modem.Types.{SmsMultipartHeader, SmsIncomingMessage}
use sms_server.Sms.Types.{SmsMessage, Conversions, incoming_message, insert_message, announce}
use sms_server.Sms.Multipart.{SmsMultipartMessages, add_message, compile, store, flatten}
use sms_server.Sms.Manager.{Surroundings}
use sms_server.Sms.Receiver.{
  Groups, key_of, settled, entered, entry_part, get_incoming_sms_message, handle_incoming_sms,
  to_option,
}

module _ (c : Conversions) where
  -- Nothing, or a message.
  abbrev IsPassed : Option (Result SmsMessage) → Type 0
  IsPassed passed = (passed ≡ none) ⊎ ((m : SmsMessage) × (passed ≡ some (ok m)))

  settled-IsPassed :
      (g : SmsMultipartMessages) (done : Bool) (first : SmsIncomingMessage)
      → g.first_message ≡ some first
      → IsPassed (settled c (g, done)).1
  unfolding compile
  settled-IsPassed g true first h =
      inr (record (c.from_incoming first) { message_content = flatten g.text_parts }, rw h refl)
  settled-IsPassed g false first h = inl refl

  first_message-add_message-some :
      (now : ℕ) (g : SmsMultipartMessages) (m : SmsIncomingMessage) (index : ℕ)
      → (first : SmsIncomingMessage) × ((add_message now g m index).0.first_message ≡ some first)
  unfolding add_message store
  first_message-add_message-some now g m index = elim (Option-cases g.first_message) [
    | inl e ↦ (m, ground (arith, e))
    | inr (first, e) ↦ (first, ground (arith, e))
  ]

  entry_part-IsPassed :
      (now : ℕ) (m : SmsIncomingMessage) (header : SmsMultipartHeader)
      (entry : Option SmsMultipartMessages)
      → IsPassed (entry_part c now m header entry).1
  unfolding entry_part
  entry_part-IsPassed now m header entry =
      let r = add_message now (entered c now header entry) m header.index in
      let (first, e) =
        first_message-add_message-some now (entered c now header entry) m header.index in
      settled-IsPassed r.0 r.1 first e

  get_incoming_sms_message-IsPassed :
      (now : ℕ) (groups : Groups) (m : SmsIncomingMessage)
      → IsPassed (get_incoming_sms_message c now groups m).1
  unfolding get_incoming_sms_message
  get_incoming_sms_message-IsPassed now groups m = elim (Option-cases m.user_data_header) [
    | inl h ↦ inr (c.from_incoming m, rw h refl)
    | inr (header, h) ↦
        let m' = record m { user_data_header = some header } in
        rw h (entry_part-IsPassed now m' header (groups (key_of m' header)))
  ]

-- An incoming message leads either to nothing, or to one message that is inserted, not final, and
-- then announced, if there is a broadcaster, with the row's number, if the insertion gave one; its
-- result is then the insertion's. The error of a group that does not compile never arises.
pub handle_incoming_sms_stores :
    (s : Surroundings) (now : ℕ) (groups : Groups) (m : SmsIncomingMessage)
    → let (groups', actions, result) = handle_incoming_sms s now groups m in
      ((actions ≡ []) × (result ≡ none))
      ⊎ ((stored : SmsMessage) × (actions
            ≡ insert_message stored false
              ∷ announce s.has_broadcaster
                  (incoming_message (record stored { message_id = to_option s.row })))
          × (result ≡ some s.row))
unfolding handle_incoming_sms
handle_incoming_sms_stores s now groups m =
    elim (get_incoming_sms_message-IsPassed s.conversions now groups m) [
      | inl nothing ↦ rw nothing (inl (refl, refl))
      | inr (stored, passed) ↦ rw passed (inr (stored, refl, refl))
    ]
