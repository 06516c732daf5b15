-- ===== src/Sms/Receiver/Tests.antt =====
-- The theorems on `SMSReceiver` at concrete messages.
use sms_server.Base.{
  ℕ, ◌+◌, ◌≡◌, refl, ◌⊎◌, true, false, List, [], ◌∷◌, ◌++◌, none, some, ok, ltb, if◌then◌else◌,
  Text,
}
use sms_server.Text.{codes, equal}
use sms_server.Modem.Types.{SmsIncomingMessage, SmsMultipartHeader}
use sms_server.Sms.Types.{SmsMessage, incoming_message, insert_message, announce}
use sms_server.Sms.Multipart.{stalled_duration}
use sms_server.Sms.Receiver.{
  MultipartReference, Groups, key_of, get_incoming_sms_message, cleanup_stalled_multipart,
  handle_incoming_sms, to_option,
}
use sms_server.Sms.Receiver.Groups.{
  Arrival, Part, parts_for, receive_all, passed_for, group_all, group_passed, receive_all-group_all,
}
use sms_server.Sms.Receiver.Cleanup.{cleanup-get_incoming_sms_message}
use sms_server.Sms.Receiver.Incoming.{handle_incoming_sms_stores}
use sms_server.Sms.Multipart.Parts.{first_at, first_parts}
use sms_server.Sms.Multipart.Whole.{joined}
use sms_server.Sms.Receiver.Whole.{delivered, deliveries, is_covered, receive_all-whole}
use sms_server.Sms.Samples.{conversions, surroundings}

abbrev empty : Groups
empty = λ key. none

abbrev header : ℕ → ℕ → SmsMultipartHeader
header reference index = record { message_reference = reference; total = 2; index = index }

abbrev piece : Text → ℕ → ℕ → SmsIncomingMessage
piece phone reference index = record {
  phone_number = phone;
  user_data_header = some (header reference index);
  content = codes "part@";
}

-- Two messages, of different senders with the same reference, interleaved.
abbrev arrivals : List Arrival
arrivals =
    record { now = 1; message = piece (codes "+1") 5 2 }
    ∷ record { now = 2; message = piece (codes "+2") 5 1 }
    ∷ record { now = 3; message = piece (codes "+1") 5 1 }
    ∷ []

abbrev key : MultipartReference
key = record { phone_number = codes "+1"; message_reference = 5 }

receive_all-group_all_example :
    (receive_all conversions empty arrivals key
      ≡ group_all conversions none (parts_for key arrivals))
    × (passed_for conversions key empty arrivals
        ≡ group_passed conversions none (parts_for key arrivals))
receive_all-group_all_example = receive_all-group_all conversions key empty arrivals

cleanup-get_incoming_sms_message_example :
    let groups' = (get_incoming_sms_message conversions 9 empty (piece (codes "+1") 5 2)).0 in
    let key = key_of (piece (codes "+1") 5 2) (header 5 2) in
    cleanup_stalled_multipart 100 groups' key
    ≡ (if ltb (9 + stalled_duration) 100 then none else groups' key)
cleanup-get_incoming_sms_message_example =
    cleanup-get_incoming_sms_message conversions 9 100 empty (piece (codes "+1") 5 2) (header 5 2)
      refl

handle_incoming_sms_stores_example :
    let (groups', actions, result) =
      handle_incoming_sms surroundings 9 empty (piece (codes "+1") 5 2) in
    ((actions ≡ []) × (result ≡ none))
    ⊎ ((stored : SmsMessage) × (actions
          ≡ insert_message stored false
            ∷ announce true
                (incoming_message (record stored { message_id = to_option (surroundings.row) })))
        × (result ≡ some (surroundings.row)))
handle_incoming_sms_stores_example =
    handle_incoming_sms_stores surroundings 9 empty (piece (codes "+1") 5 2)

abbrev contents : List Text
contents = codes "part@" ∷ codes "part@" ∷ []

abbrev first : Part
first = record { now = 1; message = piece (codes "+1") 5 2; header = header 5 2 }

abbrev last : Part
last = record { now = 3; message = piece (codes "+1") 5 1; header = header 5 1 }

own_parts : parts_for key arrivals ≡ (first ∷ []) ++ last ∷ []
unfolding equal
own_parts = refl

one_missing : is_covered 2 (deliveries (first ∷ [])) ≡ false
unfolding first_parts first_at
one_missing = refl

both_there : is_covered 2 (deliveries (first ∷ []) ++ delivered last ∷ []) ≡ true
unfolding first_parts first_at
both_there = refl

receive_all-whole_example :
    (receive_all conversions empty arrivals key ≡ none)
    × (passed_for conversions key empty arrivals
        ≡ none
          ∷ some (
              ok (record (conversions.from_incoming (piece (codes "+1") 5 2)) {
                message_content = joined contents;
              }))
          ∷ [])
receive_all-whole_example =
    receive_all-whole conversions key empty arrivals contents first [] last refl own_parts refl
      (refl, (refl, tt)) one_missing both_there
