-- ===== src/Sms/Receiver/Groups.antt =====
-- The groups of parts do not disturb one another, however their messages are interleaved.
use sms_server.Base.{
  ℕ, ◌≡◌, refl, sym, ap, subst, ◌∙◌, true, false, List, [], ◌∷◌, inl, inr, Option, none, some,
  Result, arith, Bool-cases, Option-cases, ◌==◌, ==_iff, if◌then◌else◌,
}
use sms_server.Text.{equal}
use sms_server.Text.Laws.{equal→≡, equal_refl}
use sms_server.Modem.Types.{SmsMultipartHeader, SmsIncomingMessage}
use sms_server.Sms.Types.{SmsMessage, Conversions}
use sms_server.Sms.Multipart.{SmsMultipartMessages}
use sms_server.Sms.Receiver.{
  MultipartReference, Groups, same_key, update, key_of, entry_part, get_incoming_sms_message,
}

-- A message that comes in, with the clock.
pub record Arrival : Type 0 where
  pub now : ℕ
  pub message : SmsIncomingMessage

same_key→≡ : (k l : MultipartReference) → same_key k l ≡ true → k ≡ l
same_key→≡ k l h =
    let both : (equal k.phone_number l.phone_number ≡ true)
        × ((k.message_reference == l.message_reference) ≡ true) =
      ground (arith, h) in
    let phone = equal→≡ k.phone_number l.phone_number both.0 in
    let reference = (==_iff k.message_reference l.message_reference).0 both.1 in
    λ i. record { phone_number = phone i; message_reference = reference i }

-- A part for a group, with the clock and its header.
pub record Part : Type 0 where
  pub now : ℕ
  pub message : SmsIncomingMessage
  pub header : SmsMultipartHeader

abbrev part_if : MultipartReference → Arrival → Option SmsMultipartHeader → List Part → List Part
part_if key a none parts = parts
part_if key a (some header) parts =
    if same_key (key_of a.message header) key
    then record { now = a.now; message = a.message; header = header } ∷ parts
    else parts

-- The parts that came in for one group, in order.
abbrev pub parts_for : MultipartReference → List Arrival → List Part
parts_for key [] = []
parts_for key (a ∷ arrivals) = part_if key a a.message.user_data_header (parts_for key arrivals)

module _ (c : Conversions) where
  unfoldable pub receive_all : Groups → List Arrival → Groups
  receive_all groups [] = groups
  receive_all groups (a ∷ arrivals) =
      receive_all (get_incoming_sms_message c a.now groups a.message).0 arrivals

  abbrev passed_if :
      MultipartReference
      → Arrival
      → Option SmsMultipartHeader
      → Option (Result SmsMessage)
      → List (Option (Result SmsMessage))
      → List (Option (Result SmsMessage))
  passed_if key a none passed later = later
  passed_if key a (some header) passed later =
      if same_key (key_of a.message header) key then passed ∷ later else later

  -- What was passed on for each part of one group.
  unfoldable pub passed_for :
      MultipartReference → Groups → List Arrival → List (Option (Result SmsMessage))
  passed_for key groups [] = []
  passed_for key groups (a ∷ arrivals) =
      let (groups', passed) = get_incoming_sms_message c a.now groups a.message in
      let later = passed_for key groups' arrivals in
      passed_if key a a.message.user_data_header passed later

  -- One group on its own.
  unfoldable pub group_all : Option SmsMultipartMessages → List Part → Option SmsMultipartMessages
  group_all entry [] = entry
  group_all entry (p ∷ ps) = group_all (entry_part c p.now p.message p.header entry).0 ps

  unfoldable pub group_passed :
      Option SmsMultipartMessages → List Part → List (Option (Result SmsMessage))
  group_passed entry [] = []
  group_passed entry (p ∷ ps) =
      let (entry', passed) = entry_part c p.now p.message p.header entry in
      let later = group_passed entry' ps in passed ∷ later

  -- The message is no part of the group of `key`.
  abbrev Skipped : MultipartReference → Groups → Arrival → List Arrival → Type 0
  Skipped key groups a arrivals =
      let groups' = (get_incoming_sms_message c a.now groups a.message).0 in
      (groups' key ≡ groups key)
      × (passed_for key groups (a ∷ arrivals) ≡ passed_for key groups' arrivals)
      × (parts_for key (a ∷ arrivals) ≡ parts_for key arrivals)

  -- The message is a part of the group of `key`, with that header.
  abbrev Added : SmsMultipartHeader → MultipartReference → Groups → Arrival → List Arrival → Type 0
  Added header key groups a arrivals =
      let groups' = (get_incoming_sms_message c a.now groups a.message).0 in
      let r = entry_part c a.now a.message header (groups key) in
      (groups' key ≡ r.0)
      × (passed_for key groups (a ∷ arrivals) ≡ r.1 ∷ passed_for key groups' arrivals)
      × (parts_for key (a ∷ arrivals)
          ≡ record { now = a.now; message = a.message; header = header } ∷ parts_for key arrivals)

  single :
      (key : MultipartReference) (groups : Groups) (a : Arrival) (arrivals : List Arrival)
      → a.message.user_data_header ≡ none
      → Skipped key groups a arrivals
  unfolding get_incoming_sms_message passed_for
  single key groups a arrivals h = rw h (refl, refl, refl)

  skip :
      (key : MultipartReference) (groups : Groups) (a : Arrival) (arrivals : List Arrival)
      (header : SmsMultipartHeader)
      → a.message.user_data_header ≡ some header
      → same_key (key_of a.message header) key ≡ false
      → Skipped key groups a arrivals
  unfolding get_incoming_sms_message passed_for update
  skip key groups a arrivals header h other = rw (h, other) (refl, refl, refl)

  add_own :
      (groups : Groups) (a : Arrival) (arrivals : List Arrival) (header : SmsMultipartHeader)
      → a.message.user_data_header ≡ some header
      → Added header (key_of a.message header) groups a arrivals
  unfolding get_incoming_sms_message passed_for update
  add_own groups a arrivals header h =
      let same : same_key (key_of a.message header) (key_of a.message header) ≡ true =
        ground (arith, equal_refl a.message.phone_number) in
      rw (h, same) (refl, refl, refl)

  add :
      (key : MultipartReference) (groups : Groups) (a : Arrival) (arrivals : List Arrival)
      (header : SmsMultipartHeader)
      → a.message.user_data_header ≡ some header
      → same_key (key_of a.message header) key ≡ true
      → Added header key groups a arrivals
  add key groups a arrivals header h same =
      subst (λ k. Added header k groups a arrivals) (same_key→≡ (key_of a.message header) key same)
        (add_own groups a arrivals header h)

  -- What is to be shown of a group and the messages that come in.
  abbrev Alone : MultipartReference → Groups → List Arrival → Type 0
  Alone key groups arrivals =
      (receive_all groups arrivals key ≡ group_all (groups key) (parts_for key arrivals))
      × (passed_for key groups arrivals ≡ group_passed (groups key) (parts_for key arrivals))

  skip-Alone :
      (key : MultipartReference) (groups : Groups) (a : Arrival) (arrivals : List Arrival)
      → Skipped key groups a arrivals
      → Alone key (get_incoming_sms_message c a.now groups a.message).0 arrivals
      → Alone key groups (a ∷ arrivals)
  unfolding receive_all
  skip-Alone key groups a arrivals s later =
      (rw (s.2, sym s.0) later.0, rw (s.1, s.2, sym s.0) later.1)

  add-Alone :
      (key : MultipartReference) (groups : Groups) (a : Arrival) (arrivals : List Arrival)
      (header : SmsMultipartHeader)
      → Added header key groups a arrivals
      → Alone key (get_incoming_sms_message c a.now groups a.message).0 arrivals
      → Alone key groups (a ∷ arrivals)
  unfolding receive_all group_all group_passed
  add-Alone key groups a arrivals header s later =
      let r = entry_part c a.now a.message header (groups key) in
      let rest = parts_for key arrivals in
      (
        rw (s.2) (later.0 ∙ ap (λ e. group_all e rest) s.0),
        rw (s.1, s.2) (ap (◌∷◌ r.1) (later.1 ∙ ap (λ e. group_passed e rest) s.0)),
      )

  -- What any messages leave of a group, and what they pass on for it, is what its own parts alone
  -- leave and pass on, in their order: the messages between them make no difference.
  pub receive_all-group_all :
      (key : MultipartReference) (groups : Groups) (arrivals : List Arrival)
      → (receive_all groups arrivals key ≡ group_all (groups key) (parts_for key arrivals))
        × (passed_for key groups arrivals ≡ group_passed (groups key) (parts_for key arrivals))
  unfolding receive_all passed_for group_all group_passed
  receive_all-group_all key groups [] = (refl, refl)
  receive_all-group_all key groups (a ∷ arrivals) =
      let later =
        receive_all-group_all key (get_incoming_sms_message c a.now groups a.message).0 arrivals in
      elim (Option-cases a.message.user_data_header) [
        | inl h ↦ skip-Alone key groups a arrivals (single key groups a arrivals h) later
        | inr (header, h) ↦ elim (Bool-cases (same_key (key_of a.message header) key)) [
          | inl same ↦
              add-Alone key groups a arrivals header (add key groups a arrivals header h same) later
          | inr other ↦
              skip-Alone key groups a arrivals (skip key groups a arrivals header h other) later
        ]
      ]
