-- ===== src/Sms/Database/Names.antt =====
-- The friendly names are a map from phone numbers.
use sms_server.Base.{
  ◌≡◌, refl, false, List, [], ◌∷◌, Option, none, some, ok, arith, if◌then◌else◌, Text,
}
use sms_server.Text.{equal}
use sms_server.Text.Laws.{equal_sym, equal-congruence}
use sms_server.Sms.Database.Schema.{Tables, find_name, put_name, remove_name}
use sms_server.Sms.Database.{Statement, update_friendly_name}
use sms_server.Sms.Database.Queries.{get_friendly_name}

pub find_name-put_name :
    (j number name : Text) (names : List (Text × Text))
    → find_name j (put_name number name names)
      ≡ (if equal number j then some name else find_name j names)
unfolding find_name put_name
find_name-put_name j number name [] = refl
find_name-put_name j number name ((n, old) ∷ names) = ground (
  arith,
  find_name-put_name j number name names,
  equal-congruence n number j,
  equal-congruence n j number,
  equal_sym j number,
)

pub find_name-remove_name :
    (j number : Text) (names : List (Text × Text))
    → find_name j (remove_name number names) ≡ (if equal number j then none else find_name j names)
unfolding find_name remove_name
find_name-remove_name j number [] = ground arith
find_name-remove_name j number ((n, old) ∷ names) = ground (
  arith,
  find_name-remove_name j number names,
  equal-congruence n number j,
  equal-congruence n j number,
  equal_sym j number,
)

-- What a phone number's friendly name is behind `update_friendly_name`: the new one, or none when
-- it was removed, for the number itself, and the old one for any other number, or for all of them
-- when the statement failed.
get_friendly_name-update_friendly_name :
    (s : Statement) (t : Tables) (number : Text) (name : Option Text) (j : Text)
    → get_friendly_name false (update_friendly_name s t number name).0 j ≡ (
        if s.fails
        then get_friendly_name false t j
        else if equal number j
        then ok name
        else get_friendly_name false t j)
unfolding get_friendly_name update_friendly_name
get_friendly_name-update_friendly_name s t number none j =
    ground (arith, find_name-remove_name j number t.friendly_names)
get_friendly_name-update_friendly_name s t number (some name) j =
    ground (arith, find_name-put_name j number name t.friendly_names)
