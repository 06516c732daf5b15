-- ===== src/Sms/Receiver/Cleanup.antt =====
-- How long a group of parts is kept while nothing comes in for it.
use sms_server.Base.{ℕ, ◌+◌, ◌≡◌, true, none, some, arith, ltb, if◌then◌else◌}
use sms_server.Text.Laws.{equal_refl}
use sms_server.Modem.Types.{SmsMultipartHeader, SmsIncomingMessage}
use sms_server.Sms.Types.{Conversions}
use sms_server.Sms.Multipart.{
  SmsMultipartMessages, stalled_duration, add_message, store, is_stalled,
}
use sms_server.Sms.Receiver.{
  Groups, same_key, update, key_of, entered, entry_part, get_incoming_sms_message,
  cleanup_stalled_multipart,
}

last_updated-add_message :
    (now : ℕ) (g : SmsMultipartMessages) (m : SmsIncomingMessage) (index : ℕ)
    → (add_message now g m index).0.last_updated ≡ now
unfolding add_message store
last_updated-add_message now g m index = ground arith

-- What `cleanup_stalled_multipart` leaves at `now` of the group into which a part came at `t`:
-- nothing if more than the time after which a group counts as stalled has passed, and else all.
pub cleanup-get_incoming_sms_message :
    (c : Conversions) (t now : ℕ) (groups : Groups) (m : SmsIncomingMessage)
    (header : SmsMultipartHeader)
    → m.user_data_header ≡ some header
    → let groups' = (get_incoming_sms_message c t groups m).0 in
      let key = key_of m header in
      cleanup_stalled_multipart now groups' key
      ≡ (if ltb (t + stalled_duration) now then none else groups' key)
unfolding cleanup_stalled_multipart get_incoming_sms_message update entry_part is_stalled
cleanup-get_incoming_sms_message c t now groups m header h =
    let same : same_key (key_of m header) (key_of m header) ≡ true =
      ground (arith, equal_refl m.phone_number) in
    let entry = entered c t header (groups (key_of m header)) in
    let updated = last_updated-add_message t entry m header.index in
    rw (h, same) (ground (arith, updated))
