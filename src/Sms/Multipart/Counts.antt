-- ===== src/Sms/Multipart/Counts.antt =====
-- The counters of a group of parts, and when it is complete.
use sms_server.Base.{
  ℕ, zero, suc, ◌+◌, ◌≤◌, ◌≡◌, refl, sym, ap, ◌∙◌, Bool, true, List, [], ◌∷◌, ◌++◌, inl, inr,
  Option, none, some, arith, Bool-cases, leb, length, get_elem?, set, replicate, all, Text,
}
use sms_server.Text.{is_some}
use sms_server.Text.Utf8.{as_bytes}
use sms_server.Sms.Multipart.{SmsMultipartMessages, with_capacity, vacant, store, add_message}
use sms_server.Sms.Multipart.Parts.{
  Delivery, slot, text_of, add_all, add_all-append, first_parts, filled, bytes_in,
  text_parts-with_capacity,
}

filled-set :
    (parts : List (Option Text)) (idx : ℕ) (text : Text)
    → vacant (get_elem? parts idx) ≡ true
    → filled (set parts idx (some text)) ≡ filled parts + 1
filled-set [] idx text h = cc
filled-set (none ∷ parts) zero text h = omega arith
filled-set (some t ∷ parts) zero text h = cc
filled-set (none ∷ parts) (suc idx) text h = filled-set parts idx text h
filled-set (some t ∷ parts) (suc idx) text h = omega (arith, filled-set parts idx text h)

bytes_in-set :
    (parts : List (Option Text)) (idx : ℕ) (text : Text)
    → vacant (get_elem? parts idx) ≡ true
    → bytes_in (set parts idx (some text)) ≡ bytes_in parts + length (as_bytes text)
bytes_in-set [] idx text h = cc
bytes_in-set (none ∷ parts) zero text h = omega arith
bytes_in-set (some t ∷ parts) zero text h = cc
bytes_in-set (none ∷ parts) (suc idx) text h = bytes_in-set parts idx text h
bytes_in-set (some t ∷ parts) (suc idx) text h = omega (arith, bytes_in-set parts idx text h)

-- The counters count what the parts hold.
record Counted (m : SmsMultipartMessages) : Type 0 where
  count : m.received_count ≡ filled m.text_parts
  bytes : m.text_len ≡ bytes_in m.text_parts

store-Counted :
    (m : SmsMultipartMessages) (text : Text) (idx : ℕ) → Counted m → Counted (store m text idx)
unfolding store
store-Counted m text idx c = elim (Bool-cases (vacant (get_elem? m.text_parts idx))) [
  | inl free ↦ rw free (record {
    count = omega (arith, c.count, filled-set m.text_parts idx text free);
    bytes = omega (arith, c.bytes, bytes_in-set m.text_parts idx text free);
  })
  | inr taken ↦ rw taken c
]

total_size-store :
    (m : SmsMultipartMessages) (text : Text) (idx : ℕ)
    → (store m text idx).total_size ≡ m.total_size
unfolding store
total_size-store m text idx = elim (Bool-cases (vacant (get_elem? m.text_parts idx))) [
  | inl free ↦ rw free refl
  | inr taken ↦ rw taken refl
]

add_message-Counted :
    (m : SmsMultipartMessages) (d : Delivery)
    → Counted m
    → Counted (add_message d.now m d.message d.index).0
unfolding add_message
add_message-Counted m d c =
    let s =
      store-Counted (record m { last_updated = d.now }) (text_of d) (slot d)
        (record { count = c.count; bytes = c.bytes }) in
    record { count = s.count; bytes = s.bytes }

add_all-Counted :
    (m : SmsMultipartMessages) (ds : List Delivery) → Counted m → Counted (add_all m ds)
unfolding add_all
add_all-Counted m [] c = c
add_all-Counted m (d ∷ ds) c =
    add_all-Counted (add_message d.now m d.message d.index).0 ds (add_message-Counted m d c)

total_size-add_all :
    (m : SmsMultipartMessages) (ds : List Delivery) → (add_all m ds).total_size ≡ m.total_size
unfolding add_all add_message
total_size-add_all m [] = refl
total_size-add_all m (d ∷ ds) =
    total_size-add_all (add_message d.now m d.message d.index).0 ds
    ∙ total_size-store (record m { last_updated = d.now }) (text_of d) (slot d)

none-filled : (n : ℕ) → filled (replicate n none) ≡ 0
none-filled zero = refl
none-filled (suc n) = none-filled n

no_bytes : (n : ℕ) → bytes_in (replicate n none) ≡ 0
no_bytes zero = refl
no_bytes (suc n) = no_bytes n

with_capacity-Counted : (now n : ℕ) → Counted (with_capacity now n)
unfolding with_capacity
with_capacity-Counted now n = record { count = sym (none-filled n); bytes = sym (no_bytes n) }

-- A group made for `n` parts holds, after any deliveries, for each part the text of its first
-- delivery, without the separator, and nothing for a part that has not come or that is out of
-- range; the counters are the number of the parts that have come and their length in bytes,
-- and the size stays `n`.
pub add_all-with_capacity :
    (now n : ℕ) (ds : List Delivery)
    → let m = add_all (with_capacity now n) ds in
      (m.text_parts ≡ first_parts 0 n ds)
      × (m.received_count ≡ filled (first_parts 0 n ds))
      × (m.text_len ≡ bytes_in (first_parts 0 n ds))
      × (m.total_size ≡ n)
add_all-with_capacity now n ds =
    let c = add_all-Counted (with_capacity now n) ds (with_capacity-Counted now n) in
    let parts = text_parts-with_capacity now n ds in
    (
      parts,
      c.count ∙ ap filled parts,
      c.bytes ∙ ap bytes_in parts,
      total_size-add_all (with_capacity now n) ds ∙ (unfold with_capacity in refl),
    )

filled-length : (parts : List (Option Text)) → filled parts ≤ length parts
filled-length [] = omega arith
filled-length (none ∷ parts) = omega (arith, filled-length parts)
filled-length (some text ∷ parts) = omega (arith, filled-length parts)

leb-filled : (parts : List (Option Text)) → leb (length parts) (filled parts) ≡ all is_some parts
leb-filled [] = refl
leb-filled (none ∷ parts) = ground (arith, filled-length parts)
leb-filled (some text ∷ parts) =
    let same : leb (suc (length parts)) (1 + filled parts) ≡ leb (length parts) (filled parts) =
      ground arith in
    same ∙ leb-filled parts

length-first_parts : (k n : ℕ) (ds : List Delivery) → length (first_parts k n ds) ≡ n
unfolding first_parts
length-first_parts k zero ds = refl
length-first_parts k (suc n) ds = ap suc (length-first_parts (k + 1) n ds)

answer_of :
    (m : SmsMultipartMessages) (d : Delivery)
    → let r = add_message d.now m d.message d.index in r.1 ≡ leb r.0.total_size r.0.received_count
unfolding add_message
answer_of m d = refl

-- The last delivery `d` to a group made for `n` parts, behind the deliveries `ds`.
abbrev pub receive : ℕ → ℕ → List Delivery → Delivery → SmsMultipartMessages × Bool
receive now n ds d = add_message d.now (add_all (with_capacity now n) ds) d.message d.index

-- What `add_message` answers on the last of any deliveries to a group made for `n` parts: whether
-- each of the `n` parts has been delivered.
pub add_message_complete :
    (now n : ℕ) (ds : List Delivery) (d : Delivery)
    → (receive now n ds d).1 ≡ all is_some (first_parts 0 n (ds ++ d ∷ []))
add_message_complete now n ds d =
    let parts = first_parts 0 n (ds ++ d ∷ []) in
    let all_of = add_all-with_capacity now n (ds ++ d ∷ []) in
    let last = add_all-append (with_capacity now n) ds d in
    answer_of (add_all (with_capacity now n) ds) d
    ∙ (ap (λ (m : SmsMultipartMessages). leb m.total_size m.received_count) (sym last)
        ∙ (rw (all_of.3, all_of.1)
            (ap (λ l. leb l (filled parts)) (sym (length-first_parts 0 n (ds ++ d ∷ [])))
              ∙ leb-filled parts)))
