-- ===== src/Sms/Multipart/Parts.antt =====
-- What a group of parts holds after any deliveries, whatever their order and repetitions.
use sms_server.Base.{
  ℕ, zero, suc, ◌+◌, ◌-◌, ◌<◌, ◌≡◌, refl, sym, ap, ◌∙◌, true, false, List, [], ◌∷◌, ◌++◌, inl, inr,
  Option, none, some, arith, Bool-cases, ◌==◌, if◌then◌else◌, length, get_elem?, set, replicate,
  Text,
}
use sms_server.Text.Utf8.{as_bytes}
use sms_server.Modem.Types.{SmsIncomingMessage}
use sms_server.Sms.Multipart.{
  SmsMultipartMessages, with_capacity, without_separator, vacant, store, add_message,
}

-- A message that arrives, with the clock and the part that its header names.
pub record Delivery : Type 0 where
  pub now : ℕ
  pub message : SmsIncomingMessage
  pub index : ℕ

-- Where the part goes, from 0.
abbrev pub slot : Delivery → ℕ
slot d = d.index - 1

abbrev pub text_of : Delivery → Text
text_of d = without_separator d.message.content

unfoldable pub add_all : SmsMultipartMessages → List Delivery → SmsMultipartMessages
add_all m [] = m
add_all m (d ∷ ds) = add_all (add_message d.now m d.message d.index).0 ds

-- The text of the first delivery for a slot.
unfoldable pub first_at : ℕ → List Delivery → Option Text
first_at k [] = none
first_at k (d ∷ ds) = if slot d == k then some (text_of d) else first_at k ds

-- The first deliveries for `n` slots from `k` on.
unfoldable pub first_parts : ℕ → ℕ → List Delivery → List (Option Text)
first_parts k zero ds = []
first_parts k (suc n) ds = first_at k ds ∷ first_parts (k + 1) n ds

abbrev pub filled : List (Option Text) → ℕ
filled [] = 0
filled (none ∷ parts) = filled parts
filled (some text ∷ parts) = 1 + filled parts

-- The parts' bytes in all.
abbrev pub bytes_in : List (Option Text) → ℕ
bytes_in [] = 0
bytes_in (none ∷ parts) = bytes_in parts
bytes_in (some text ∷ parts) = length (as_bytes text) + bytes_in parts

abbrev or_else : Option Text → Option Text → Option Text
or_else none o = o
or_else (some text) o = some text

-- The parts from slot `k` on, with the deliveries put where nothing is yet.
overlay : List Delivery → ℕ → List (Option Text) → List (Option Text)
overlay ds k [] = []
overlay ds k (p ∷ parts) = or_else p (first_at k ds) ∷ overlay ds (k + 1) parts

abbrev put : ℕ → Text → List (Option Text) → List (Option Text)
put idx text parts = if vacant (get_elem? parts idx) then set parts idx (some text) else parts

put-suc :
    (idx : ℕ) (text : Text) (p : Option Text) (parts : List (Option Text))
    → put (suc idx) text (p ∷ parts) ≡ p ∷ put idx text parts
put-suc idx text p parts = elim (Bool-cases (vacant (get_elem? parts idx))) [
  | inl free ↦ rw free refl
  | inr taken ↦ rw taken refl
]

-- A delivery for an earlier slot does not matter.
overlay_before :
    (d : Delivery) (ds : List Delivery) (k : ℕ) (parts : List (Option Text))
    → slot d < k
    → overlay (d ∷ ds) k parts ≡ overlay ds k parts
unfolding overlay first_at
overlay_before d ds k [] h = refl
overlay_before d ds k (p ∷ parts) h =
    let other : (slot d == k) ≡ false = ground arith in
    rw (other, overlay_before d ds (k + 1) parts (omega arith)) refl

overlay-put :
    (d : Delivery) (ds : List Delivery) (k idx : ℕ) (parts : List (Option Text))
    → slot d ≡ k + idx
    → overlay ds k (put idx (text_of d) parts) ≡ overlay (d ∷ ds) k parts
unfolding overlay first_at
overlay-put d ds k idx [] h = refl
overlay-put d ds k zero (none ∷ parts) h =
    let here : (slot d == k) ≡ true = ground arith in
    rw (here, overlay_before d ds (k + 1) parts (omega arith)) refl
overlay-put d ds k zero (some text ∷ parts) h =
    rw (overlay_before d ds (k + 1) parts (omega arith)) refl
overlay-put d ds k (suc idx) (p ∷ parts) h =
    let other : (slot d == k) ≡ false = ground arith in
    rw
      (
        put-suc idx (text_of d) p parts,
        other,
        sym (overlay-put d ds (k + 1) idx parts (omega arith)),
      )
      refl

overlay_nil : (k : ℕ) (parts : List (Option Text)) → overlay [] k parts ≡ parts
unfolding overlay first_at
overlay_nil k [] = refl
overlay_nil k (none ∷ parts) = rw (overlay_nil (k + 1) parts) refl
overlay_nil k (some text ∷ parts) = rw (overlay_nil (k + 1) parts) refl

overlay-replicate :
    (ds : List Delivery) (k n : ℕ) → overlay ds k (replicate n none) ≡ first_parts k n ds
unfolding overlay first_parts
overlay-replicate ds k zero = refl
overlay-replicate ds k (suc n) = rw (overlay-replicate ds (k + 1) n) refl

text_parts-store :
    (m : SmsMultipartMessages) (text : Text) (idx : ℕ)
    → (store m text idx).text_parts ≡ put idx text m.text_parts
unfolding store
text_parts-store m text idx = elim (Bool-cases (vacant (get_elem? m.text_parts idx))) [
  | inl free ↦ rw free refl
  | inr taken ↦ rw taken refl
]

text_parts-add_all :
    (m : SmsMultipartMessages) (ds : List Delivery)
    → (add_all m ds).text_parts ≡ overlay ds 0 m.text_parts
unfolding add_all add_message
text_parts-add_all m [] = sym (overlay_nil 0 m.text_parts)
text_parts-add_all m (d ∷ ds) =
    let fresh = record m { last_updated = d.now } in
    text_parts-add_all (add_message d.now m d.message d.index).0 ds
    ∙ (ap (overlay ds 0) (text_parts-store fresh (text_of d) (slot d))
        ∙ overlay-put d ds 0 (slot d) m.text_parts (omega arith))

pub text_parts-with_capacity :
    (now n : ℕ) (ds : List Delivery)
    → (add_all (with_capacity now n) ds).text_parts ≡ first_parts 0 n ds
unfolding with_capacity
text_parts-with_capacity now n ds =
    text_parts-add_all (with_capacity now n) ds ∙ overlay-replicate ds 0 n

pub add_all-append :
    (m : SmsMultipartMessages) (ds : List Delivery) (d : Delivery)
    → add_all m (ds ++ d ∷ []) ≡ (add_message d.now (add_all m ds) d.message d.index).0
unfolding add_all
add_all-append m [] d = refl
add_all-append m (e ∷ ds) d = add_all-append (add_message e.now m e.message e.index).0 ds d
