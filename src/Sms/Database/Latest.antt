-- ===== src/Sms/Database/Latest.antt =====
-- The phone numbers of the stored messages.
use mathlib.Core.List.{Permᴰ}
use sms_server.Base.{
  ◌≡◌, refl, ◌∙◌, sym, ap, Bool, true, false, List, [], ◌∷◌, map, Option, none, ok, Bool-cases, inl,
  inr, if◌then◌else◌, Text,
}
use sms_server.Text.{equal}
use sms_server.Text.Laws.{equal→≡}
use sms_server.Sms.Database.Schema.{MessageRow, Tables, find_name}
use sms_server.Sms.Database.Queries.{
  Sqlite, page, paged, numbers_of, contains_number, latest, get_latest_numbers,
}
use sms_server.Sms.Database.Messages.{Permutes}

-- Whether a message from or to the number is stored.
abbrev pub is_known : Text → List MessageRow → Bool
is_known number [] = false
is_known number (row ∷ rows) = if equal row.phone_number number then true else is_known number rows

abbrev pub DistinctTexts : List Text → Type 0
DistinctTexts [] = Unit
DistinctTexts (n ∷ ns) = (contains_number n ns ≡ false) × DistinctTexts ns

contains_number-numbers_of :
    (number : Text) (rows : List MessageRow)
    → contains_number number (numbers_of rows) ≡ is_known number rows
unfolding numbers_of
contains_number-numbers_of number [] = refl
contains_number-numbers_of number (row ∷ rows) =
    elim (Bool-cases (contains_number row.phone_number (numbers_of rows))) [
      | inr h ↦ rw (h, contains_number-numbers_of number rows) refl
      | inl h ↦
          rw (h, contains_number-numbers_of number rows)
            (elim (Bool-cases (equal row.phone_number number)) [
              | inr q ↦ rw q refl
              | inl q ↦ rw q (
                  sym (contains_number-numbers_of number rows)
                  ∙ ap (λ n. contains_number n (numbers_of rows))
                      (sym (equal→≡ row.phone_number number q))
                  ∙ h)
            ])
    ]

numbers_of-DistinctTexts : (rows : List MessageRow) → DistinctTexts (numbers_of rows)
unfolding numbers_of
numbers_of-DistinctTexts [] = tt
numbers_of-DistinctTexts (row ∷ rows) =
    elim (Bool-cases (contains_number row.phone_number (numbers_of rows))) [
      | inl h ↦ rw h (numbers_of-DistinctTexts rows)
      | inr h ↦ rw h (h, numbers_of-DistinctTexts rows)
    ]

map-perm : {A B : Type 0} (f : A → B) {xs ys : List A} → Permᴰ xs ys → Permᴰ (map f xs) (map f ys)
map-perm f Permᴰ.nil = Permᴰ.nil
map-perm f (Permᴰ.cons e p) = Permᴰ.cons (ap f e) (map-perm f p)
map-perm f (Permᴰ.swap e e') = Permᴰ.swap (ap f e) (ap f e')
map-perm f (Permᴰ.trans p p') = Permᴰ.trans (map-perm f p) (map-perm f p')

-- Without a page, the latest numbers are, in some order, distinct numbers with their friendly
-- names, and a number is among them just if a message with it is stored.
pub get_latest_numbers-numbers :
    (q : Sqlite) (t : Tables) (reverse : Bool)
    → Permutes q
    → (numbers : List Text) × ((n : Text) → contains_number n numbers ≡ is_known n t.messages)
      × DistinctTexts numbers
      × (out : List (Text × Option Text)) × (get_latest_numbers q false t none none reverse
          ≡ ok out)
      × Permᴰ out (map (λ n. (n, find_name n t.friendly_names)) numbers)
unfolding get_latest_numbers paged page
get_latest_numbers-numbers q t reverse permutes = (
  numbers_of t.messages,
  λ n. contains_number-numbers_of n t.messages,
  numbers_of-DistinctTexts t.messages,
  _,
  refl,
  map-perm _ (permutes Text (λ n. latest n t.messages) reverse (numbers_of t.messages)),
)
