-- ===== src/Sms/Database/Invariant/Rows.antt =====
-- What the operations do to references, numbers and names of the rows.
use sms_server.Base.{
  ℕ, ◌≡◌, refl, ◌∙◌, Bool, true, false, List, [], ◌∷◌, map, none, arith, All, Bool-cases, inl, inr,
  Text,
}
use sms_server.Text.{equal}
use sms_server.Text.Laws.{equal_sym}
use sms_server.Sms.Database.Names.{find_name-put_name, find_name-remove_name}
use sms_server.Sms.Database.Schema.{MessageRow, has_message, find_name, put_name, remove_name}
use sms_server.Sms.Database.{Statement, update_row}
use sms_server.Sms.Database.Invariant.{IsDescending, DistinctNumbers}

module _ (s : Statement) (id status : ℕ) (completed : Bool) where
  update_row-message_id :
      (row : MessageRow) → (update_row s id status completed row).message_id ≡ row.message_id
  update_row-message_id row = elim completed [ true ↦ ground arith | false ↦ ground arith ]

  pub update_row-IsDescending :
      (bound : ℕ) (rows : List MessageRow)
      → IsDescending bound rows
      → IsDescending bound (map (update_row s id status completed) rows)
  update_row-IsDescending bound [] h = h
  update_row-IsDescending bound (row ∷ rows) (h, hs) =
      rw (update_row-message_id row) (h, update_row-IsDescending row.message_id rows hs)

  pub has_message-update_row :
      (i : ℕ) (rows : List MessageRow)
      → has_message i (map (update_row s id status completed) rows) ≡ has_message i rows
  unfolding has_message
  has_message-update_row i [] = refl
  has_message-update_row i (row ∷ rows) =
      rw (update_row-message_id row, has_message-update_row i rows) refl

-- What a weaker condition makes of references.
pub All-implies :
    {A : Type 0} {P Q : A → Type 0} → ((a : A) → P a → Q a) → (as' : List A) → All P as' → All Q as'
All-implies f [] h = tt
All-implies f (a ∷ rest) (h, hs) = (f a h, All-implies f rest hs)

pub has_message-cons :
    (i : ℕ) (row : MessageRow) (rows : List MessageRow)
    → has_message i rows ≡ true
    → has_message i (row ∷ rows) ≡ true
unfolding has_message
has_message-cons i row rows h = ground (arith, h)

remove_name-keeps_missing :
    (j number : Text) (names : List (Text × Text))
    → find_name j names ≡ none
    → find_name j (remove_name number names) ≡ none
remove_name-keeps_missing j number names h =
    find_name-remove_name j number names ∙ ground (arith, h)

pub remove_name-DistinctNumbers :
    (number : Text) (names : List (Text × Text))
    → DistinctNumbers names
    → DistinctNumbers (remove_name number names)
unfolding remove_name
remove_name-DistinctNumbers number [] h = tt
remove_name-DistinctNumbers number ((n, old) ∷ names) (h, hs) = elim (Bool-cases (equal n number)) [
  | inl same ↦ rw same (remove_name-DistinctNumbers number names hs)
  | inr other ↦
      rw other
        (remove_name-keeps_missing n number names h, remove_name-DistinctNumbers number names hs)
]

pub put_name-DistinctNumbers :
    (number name : Text) (names : List (Text × Text))
    → DistinctNumbers names
    → DistinctNumbers (put_name number name names)
unfolding put_name find_name
put_name-DistinctNumbers number name [] h = (refl, tt)
put_name-DistinctNumbers number name ((n, old) ∷ names) (h, hs) =
    elim (Bool-cases (equal n number)) [
      | inl same ↦ rw same (h, hs)
      | inr other ↦ rw other (
        find_name-put_name n number name names ∙ ground (arith, equal_sym n number, other, h),
        put_name-DistinctNumbers number name names hs,
      )
    ]
