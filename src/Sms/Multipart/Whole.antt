-- ===== src/Sms/Multipart/Whole.antt =====
-- A complete group compiles to the message that was cut, in whatever order its parts came.
use sms_server.Base.{
  ℕ, suc, ◌+◌, ◌≡◌, refl, sym, ap, ◌∙◌, true, List, [], ◌∷◌, ◌++◌, inl, inr, none, some, ok, All,
  arith, Bool-cases, ==_iff, ◌==◌, length, get_elem?, all, Text,
}
use sms_server.Text.{is_some}
use sms_server.Modem.Types.{SmsIncomingMessage}
use sms_server.Sms.Types.{Conversions}
use sms_server.Sms.Multipart.{
  SmsMultipartMessages, with_capacity, without_separator, store, add_message, flatten, compile,
}
use sms_server.Sms.Multipart.Parts.{
  Delivery, slot, add_all, add_all-append, first_at, first_parts, text_parts-with_capacity,
}
use sms_server.Sms.Multipart.Counts.{receive, add_message_complete}

-- The delivery carries the content that its part has in the message that was cut.
abbrev pub Agrees : List Text → Delivery → Type 0
Agrees contents d = get_elem? contents (slot d) ≡ some (d.message.content)

-- The contents in order, each without the separator.
abbrev pub joined : List Text → Text
joined [] = []
joined (content ∷ contents) = without_separator content ++ joined contents

some-inj : (s t : Text) → some s ≡ some t → s ≡ t
some-inj s t h = cc

first_at-Agrees :
    (contents : List Text) (k : ℕ) (s : Text) (ds : List Delivery)
    → get_elem? contents k ≡ some s
    → All (Agrees contents) ds
    → is_some (first_at k ds) ≡ true
    → first_at k ds ≡ some (without_separator s)
unfolding first_at
first_at-Agrees contents k s [] g a h = cc
first_at-Agrees contents k s (d ∷ ds) g a h = elim (Bool-cases (slot d == k)) [
  | inl here ↦
      let same : slot d ≡ k = (==_iff (slot d) k).0 here in
      let content : d.message.content ≡ s =
        some-inj _ _ (sym a.0 ∙ (ap (get_elem? contents) same ∙ g)) in
      rw here (ap (λ t. some (without_separator t)) content)
  | inr other ↦
      let rest : is_some (first_at k ds) ≡ true = ground (arith, other, h) in
      rw other (first_at-Agrees contents k s ds g a.1 rest)
]

flatten-first_parts :
    (contents rest : List Text) (k : ℕ) (ds : List Delivery)
    → ((j : ℕ) → get_elem? contents (k + j) ≡ get_elem? rest j)
    → All (Agrees contents) ds
    → all is_some (first_parts k (length rest) ds) ≡ true
    → flatten (first_parts k (length rest) ds) ≡ joined rest
unfolding first_parts
flatten-first_parts contents [] k ds at a h = refl
flatten-first_parts contents (s ∷ rest) k ds at a h =
    let here : get_elem? contents k ≡ some s = ap (get_elem? contents) (omega arith) ∙ at 0 in
    let both : (is_some (first_at k ds) ≡ true)
        × (all is_some (first_parts (k + 1) (length rest) ds) ≡ true) =
      ground (arith, h) in
    rw (first_at-Agrees contents k s ds here a both.0) (
      ap (◌++◌ (without_separator s)) (
        flatten-first_parts contents rest (k + 1) ds
          (λ j. ap (get_elem? contents) (omega arith) ∙ at (suc j)) a both.1))

-- The message of the first delivery.
abbrev pub first_of : List Delivery → Delivery → SmsIncomingMessage
first_of [] d = d.message
first_of (e ∷ ds) d = e.message

first_message-add_message :
    (m : SmsMultipartMessages) (d : Delivery)
    → (add_message d.now m d.message d.index).0.first_message
      ≡ some (elim m.first_message [ none ↦ d.message | some first ↦ first ])
unfolding add_message store
first_message-add_message m d = ground arith

first_message-add_all :
    (m : SmsMultipartMessages) (ds : List Delivery) (d : Delivery)
    → m.first_message ≡ none
    → (add_all m (ds ++ d ∷ [])).first_message ≡ some (first_of ds d)
unfolding add_all
first_message-add_all m [] d h = first_message-add_message m d ∙ rw h refl
first_message-add_all m (e ∷ ds) d h =
    kept (add_message e.now m e.message e.index).0 e.message (ds ++ d ∷ [])
      (first_message-add_message m e ∙ rw h refl)
  where
    kept :
        (m : SmsMultipartMessages) (first : SmsIncomingMessage) (ds : List Delivery)
        → m.first_message ≡ some first
        → (add_all m ds).first_message ≡ some first
    kept m first [] h = h
    kept m first (d ∷ ds) h =
        kept (add_message d.now m d.message d.index).0 first ds
          (first_message-add_message m d ∙ rw h refl)

-- Deliveries to a group made for the parts of `contents`, in any order and with any repetitions,
-- of which each is in range and carries its part's content: if `add_message` answers on the last
-- one that the group is complete, it compiles to the first delivery's message with the parts'
-- contents in their order, without the separators, as its content.
pub compile-receive :
    (c : Conversions) (now : ℕ) (contents : List Text) (ds : List Delivery) (d : Delivery)
    → All (Agrees contents) (ds ++ d ∷ [])
    → (receive now (length contents) ds d).1 ≡ true
    → compile c (receive now (length contents) ds d).0
      ≡ ok (record (c.from_incoming (first_of ds d)) { message_content = joined contents })
unfolding compile
compile-receive c now contents ds d a complete =
    let n = length contents in
    let m = add_all (with_capacity now n) (ds ++ d ∷ []) in
    let first : m.first_message ≡ some (first_of ds d) =
      first_message-add_all (with_capacity now n) ds d (unfold with_capacity in refl) in
    let covered : all is_some (first_parts 0 n (ds ++ d ∷ [])) ≡ true =
      sym (add_message_complete now n ds d) ∙ complete in
    let content : flatten m.text_parts ≡ joined contents =
      ap flatten (text_parts-with_capacity now n (ds ++ d ∷ []))
      ∙ flatten-first_parts contents contents 0 (ds ++ d ∷ [])
          (λ j. ap (get_elem? contents) (omega arith)) a covered in
    let whole : compile c m
        ≡ ok (record (c.from_incoming (first_of ds d)) { message_content = joined contents }) =
      rw (first, content) refl in
    ap (compile c) (sym (add_all-append (with_capacity now n) ds d)) ∙ whole
