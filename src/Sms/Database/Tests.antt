-- ===== src/Sms/Database/Tests.antt =====
-- Tests of the database, and its theorems at small tables.
use mathlib.Core.List.{Permᴰ}
use sms_server.Base.{
  Text, ℕ, ◌≡◌, refl, true, false, List, Option, [], ◌∷◌, ◌++◌, map, none, some, ok,
}
use sms_server.Text.{codes, equal}
use sms_server.Text.Number.{decimal}
use sms_server.Text.Utf8.{as_bytes}
use sms_server.Sms.Encryption.{encrypt}
use sms_server.Sms.Types.{SmsMessage}
use sms_server.Sms.Samples.{encryption, encryption-IsLawful}
use sms_server.Sms.Database.Schema.{empty_tables, find_name}
use sms_server.Sms.Database.{insert_message, update_message_status}
use sms_server.Sms.Database.Queries.{
  contains_number, get_latest_numbers, get_messages, page, build_pagination_query,
}
use sms_server.Sms.Database.Invariant.{Reachable, WellFormed}
use sms_server.Sms.Database.Invariant.Preserved.{Reachable-WellFormed}
use sms_server.Sms.Database.Messages.{
  Reads, written_message, update_seen, get_messages-Reads, insert_message-Reads,
  update_message_status-Reads,
}
use sms_server.Sms.Database.Latest.{is_known, DistinctTexts, get_latest_numbers-numbers}
use sms_server.Sms.Database.Samples.{
  sqlite, sqlite-Permutes, sqlite-GetsU8, fine_at, nonce, outgoing_row, one_message,
}

query_text :
    build_pagination_query (codes "SELECT 1 FROM t") (codes "created_at") (some 10) (some 200) true
    ≡ codes "SELECT 1 FROM t ORDER BY created_at ASC LIMIT 10 OFFSET 200"
unfolding build_pagination_query decimal
query_text = refl

offset_alone : page {A = ℕ} none (some 1) (1 ∷ 2 ∷ []) ≡ none
unfolding page
offset_alone = refl

second_page : page {A = ℕ} (some 1) (some 1) (1 ∷ 2 ∷ 3 ∷ []) ≡ some (2 ∷ [])
unfolding page
second_page = refl

sealed : encrypt encryption nonce (codes "hi") ≡ ok (nonce ++ 99 ∷ 104 ∷ 105 ∷ [])
unfolding encrypt as_bytes
sealed = refl

reached : Reachable encryption one_message
unfolding insert_message encrypt as_bytes
reached = Reachable.by_insert_message nonce (fine_at 100) outgoing_row false Reachable.start

one_message-WellFormed : WellFormed one_message
one_message-WellFormed = Reachable-WellFormed encryption one_message reached

Reachable-WellFormed_example : WellFormed one_message
Reachable-WellFormed_example = Reachable-WellFormed encryption one_message reached

abbrev seen_message : SmsMessage
seen_message = written_message sqlite encryption (fine_at 100) empty_tables outgoing_row false 32

one_message-Reads : Reads sqlite encryption one_message.messages (seen_message ∷ [])
unfolding insert_message encrypt as_bytes
one_message-Reads =
    (insert_message-Reads sqlite encryption nonce (fine_at 100) empty_tables outgoing_row false _ 32
      [] encryption-IsLawful refl refl sealed refl refl Reads.nothing).1

insert_message-Reads_example :
    let (t', result) =
      insert_message encryption nonce (fine_at 200) one_message outgoing_row true in
    (result ≡ ok 2)
    × Reads sqlite encryption t'.messages (
        written_message sqlite encryption (fine_at 200) one_message outgoing_row true 32
        ∷ seen_message
        ∷ [])
insert_message-Reads_example =
    insert_message-Reads sqlite encryption nonce (fine_at 200) one_message outgoing_row true _ 32
      (seen_message ∷ []) encryption-IsLawful refl refl sealed refl refl one_message-Reads

get_messages-Reads_example :
    (out : List SmsMessage) × (get_messages sqlite false encryption one_message
        (codes "+44")
        none
        none
        true
      ≡ ok out)
    × Permᴰ out (seen_message ∷ [])
unfolding equal
get_messages-Reads_example =
    get_messages-Reads sqlite encryption one_message (seen_message ∷ []) (codes "+44") true
      sqlite-Permutes one_message-Reads

update_message_status-Reads_example :
    Reads sqlite encryption
      (update_message_status (fine_at 200) one_message 1 0 true).0.messages
      (map (update_seen sqlite encryption (fine_at 200) 1 0 true) (seen_message ∷ []))
update_message_status-Reads_example =
    update_message_status-Reads sqlite encryption (fine_at 200) one_message 1 0 true
      (seen_message ∷ []) sqlite-GetsU8 refl one_message-Reads

get_latest_numbers-numbers_example :
    (numbers : List Text) × ((n : Text)
      → contains_number n numbers ≡ is_known n one_message.messages)
    × DistinctTexts numbers
    × (out : List (Text × Option Text)) × (get_latest_numbers sqlite false one_message none none
          true
        ≡ ok out)
    × Permᴰ out (map (λ n. (n, find_name n one_message.friendly_names)) numbers)
get_latest_numbers-numbers_example =
    get_latest_numbers-numbers sqlite one_message true sqlite-Permutes
