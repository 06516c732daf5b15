-- ===== src/Http/WebSocket/Tests.antt =====
-- Tests of the websockets, and their theorems at two connections.
use sms_server.Base.{ℕ, ◌+◌, ◌≡◌, refl, Bool, true, List, [], ◌∷◌, none, some, arith, ltb, Text}
use sms_server.Text.{codes, equal}
use sms_server.Events.Samples.{incoming, outgoing, two_kinds}
use sms_server.Http.WebSocket.{
  StoredConnection, connection, retain, broadcast, add_connection, remove_connection,
}
use sms_server.Http.WebSocket.Delivery.{delivered, broadcast-delivered}
use sms_server.Http.WebSocket.Fresh.{IsAdded, add_connection-total}

-- The channel 8 is closed.
abbrev is_open : ℕ → Bool
is_open c = ltb c 8

abbrev clients : List StoredConnection
clients =
    connection two_kinds (codes "a") 5 (some (incoming ∷ []))
    ∷ connection two_kinds (codes "b") 8 none
    ∷ []

incoming_sent : broadcast two_kinds is_open clients incoming ≡ record {
  connections = connection two_kinds (codes "a") 5 (some (incoming ∷ [])) ∷ [];
  sent = (5, 1 ∷ []) ∷ [];
  successful_sends = 1;
}
unfolding broadcast retain
incoming_sent = refl

removed :
    remove_connection (codes "b") clients
    ≡ connection two_kinds (codes "a") 5 (some (incoming ∷ [])) ∷ []
unfolding remove_connection equal
removed = refl

broadcast-delivered_example :
    broadcast two_kinds is_open clients outgoing
    ≡ delivered two_kinds is_open clients outgoing (two_kinds.to_json outgoing)
broadcast-delivered_example = broadcast-delivered two_kinds is_open clients outgoing

-- The ids "a", "b", …: each a letter.
abbrev letters : ℕ → Text
letters i = (97 + i) ∷ []

letters_distinct : (i j : ℕ) → equal (letters i) (letters j) ≡ true → i ≡ j
unfolding equal
letters_distinct i j h = ground (arith, h)

add_connection-total_example :
    IsAdded two_kinds letters 9 none clients (add_connection two_kinds letters 3 9 none 0 clients)
add_connection-total_example =
    add_connection-total two_kinds letters 9 none letters_distinct 0 clients
