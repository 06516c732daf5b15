-- ===== src/Sms/Receiver/Whole.antt =====
-- The parts of a concatenated message come in between other messages, and leave as one message.
use sms_server.Base.{
  ℕ, zero, suc, ◌+◌, ◌≡◌, refl, sym, ap, ◌∙◌, Bool, true, false, List, [], ◌∷◌, ◌++◌, append-nil,
  append_assoc, inl, inr, Option, none, some, Result, ok, All, arith, Bool-cases, ◌==◌, length, all,
  Text,
}
use sms_server.Text.{is_some}
use sms_server.Sms.Types.{SmsMessage, Conversions}
use sms_server.Sms.Multipart.{SmsMultipartMessages, with_capacity, add_message, compile}
use sms_server.Sms.Multipart.Parts.{Delivery, slot, add_all, add_all-append, first_at, first_parts}
use sms_server.Sms.Multipart.Counts.{receive, add_message_complete}
use sms_server.Sms.Multipart.Whole.{Agrees, joined, compile-receive}
use sms_server.Sms.Receiver.{MultipartReference, Groups, settled, entry_part}
use sms_server.Sms.Receiver.Groups.{
  Arrival, Part, parts_for, receive_all, passed_for, group_all, group_passed, receive_all-group_all,
}

-- The part as its group gets it.
abbrev pub delivered : Part → Delivery
delivered p = record { now = p.now; message = p.message; index = p.header.index }

abbrev pub deliveries : List Part → List Delivery
deliveries [] = []
deliveries (p ∷ ps) = delivered p ∷ deliveries ps

-- Each of `n` parts is among the deliveries.
abbrev pub is_covered : ℕ → List Delivery → Bool
is_covered n ds = all is_some (first_parts 0 n ds)

-- Nothing is passed on for these parts.
abbrev nothing_for : List Part → List (Option (Result SmsMessage))
nothing_for [] = []
nothing_for (p ∷ ps) = none ∷ nothing_for ps

first_at-append :
    (k : ℕ) (ds es : List Delivery)
    → is_some (first_at k ds) ≡ true
    → is_some (first_at k (ds ++ es)) ≡ true
unfolding first_at
first_at-append k [] es h = cc
first_at-append k (d ∷ ds) es h = elim (Bool-cases (slot d == k)) [
  | inl here ↦ ground (arith, here)
  | inr other ↦ ground (arith, other, h, first_at-append k ds es)
]

covered-append :
    (k n : ℕ) (ds es : List Delivery)
    → all is_some (first_parts k n ds) ≡ true
    → all is_some (first_parts k n (ds ++ es)) ≡ true
unfolding first_parts
covered-append k zero ds es h = refl
covered-append k (suc n) ds es h =
    let both : (is_some (first_at k ds) ≡ true) × (all is_some (first_parts (k + 1) n ds) ≡ true) =
      ground (arith, h) in
    ground (arith, first_at-append k ds es both.0, covered-append (k + 1) n ds es both.1)

-- What is incomplete with more deliveries is so without them.
uncovered :
    (n : ℕ) (ds es : List Delivery) → is_covered n (ds ++ es) ≡ false → is_covered n ds ≡ false
uncovered n ds es h = elim (Bool-cases (is_covered n ds)) [
  | inl covered ↦ ground (arith, h, covered-append 0 n ds es covered)
  | inr missing ↦ missing
]

module _ (c : Conversions) (t n : ℕ) where
  abbrev gathered : List Delivery → SmsMultipartMessages
  gathered ds = add_all (with_capacity t n) ds

  -- A part that leaves the group incomplete.
  entry_part_incomplete :
      (ds : List Delivery) (p : Part)
      → is_covered n (ds ++ delivered p ∷ []) ≡ false
      → entry_part c p.now p.message p.header (some (gathered ds))
        ≡ (some (gathered (ds ++ delivered p ∷ [])), none)
  unfolding entry_part
  entry_part_incomplete ds p h =
      let answer : (receive t n ds (delivered p)).1 ≡ false =
        add_message_complete t n ds (delivered p) ∙ h in
      ap (λ (b : Bool). settled c ((receive t n ds (delivered p)).0, b)) answer
      ∙ ap (λ g. (some g, none)) (sym (add_all-append (with_capacity t n) ds (delivered p)))

  group_all_incomplete :
      (ps : List Part) (ds : List Delivery)
      → is_covered n (ds ++ deliveries ps) ≡ false
      → (group_all c (some (gathered ds)) ps ≡ some (gathered (ds ++ deliveries ps)))
        × (group_passed c (some (gathered ds)) ps ≡ nothing_for ps)
  unfolding group_all group_passed
  group_all_incomplete [] ds h = (rw append-nil refl, refl)
  group_all_incomplete (p ∷ ps) ds h =
      let ds' = ds ++ delivered p ∷ [] in
      let assoc : ds' ++ deliveries ps ≡ ds ++ delivered p ∷ deliveries ps =
        append_assoc ds (delivered p ∷ []) (deliveries ps) in
      let h' : is_covered n (ds' ++ deliveries ps) ≡ false = ap (is_covered n) assoc ∙ h in
      let one = entry_part_incomplete ds p (uncovered n ds' (deliveries ps) h') in
      let later = group_all_incomplete ps ds' h' in
      (rw one (later.0 ∙ ap (λ l. some (gathered l)) assoc), rw one (ap (◌∷◌ none) later.1))

  -- The part that completes the group.
  entry_part_complete :
      (ds : List Delivery) (p : Part)
      → is_covered n (ds ++ delivered p ∷ []) ≡ true
      → entry_part c p.now p.message p.header (some (gathered ds))
        ≡ (none, some (compile c (receive t n ds (delivered p)).0))
  unfolding entry_part
  entry_part_complete ds p h =
      let answer : (receive t n ds (delivered p)).1 ≡ true =
        add_message_complete t n ds (delivered p) ∙ h in
      ap (λ (b : Bool). settled c ((receive t n ds (delivered p)).0, b)) answer

  -- A group's first part.
  fresh :
      (p : Part)
      → p.now ≡ t
      → p.header.total ≡ n
      → entry_part c p.now p.message p.header none
        ≡ entry_part c p.now p.message p.header (some (gathered []))
  unfolding entry_part add_all
  fresh p time total =
      ap
        (λ (w : ℕ × ℕ).
          settled c (add_message p.now (with_capacity w.0 w.1) p.message p.header.index))
        (λ i. (time i, total i))

  -- The first parts of a new group.
  group_all_begun :
      (q : Part) (ps : List Part)
      → q.now ≡ t
      → q.header.total ≡ n
      → is_covered n (deliveries (q ∷ ps)) ≡ false
      → (group_all c none (q ∷ ps) ≡ some (gathered (deliveries (q ∷ ps))))
        × (group_passed c none (q ∷ ps) ≡ nothing_for (q ∷ ps))
  unfolding group_all group_passed
  group_all_begun q ps time total h =
      let all = group_all_incomplete (q ∷ ps) [] h in
      let first = fresh q time total in
      (
        ap (λ (r : Option SmsMultipartMessages × Option (Result SmsMessage)). group_all c r.0 ps)
              first
            ∙ all.0,
        ap
              (λ (r : Option SmsMultipartMessages × Option (Result SmsMessage)).
                r.1 ∷ group_passed c r.0 ps)
              first
            ∙ all.1,
      )

module _ (c : Conversions) where
  group_all-append :
      (entry : Option SmsMultipartMessages) (ps : List Part) (p : Part)
      → let last = entry_part c p.now p.message p.header (group_all c entry ps) in
        (group_all c entry (ps ++ p ∷ []) ≡ last.0)
        × (group_passed c entry (ps ++ p ∷ []) ≡ group_passed c entry ps ++ last.1 ∷ [])
  unfolding group_all group_passed
  group_all-append entry [] p = (refl, refl)
  group_all-append entry (q ∷ ps) p =
      let r = entry_part c q.now q.message q.header entry in
      let later = group_all-append r.0 ps p in (later.0, ap (◌∷◌ r.1) later.1)

  -- The parts of a message of `contents` come in, between any other messages, for a reference of
  -- which no group is kept: `q` first, whose header gives the number of parts, then `ps`, then `p`. Each is in range and carries its
  -- part's content, and they are all there with `p`, but not before. Then nothing is passed on
  -- for the parts before `p`, and for `p` the whole message, `q`'s with the parts' contents in
  -- their order and without separators; and no group is kept.
  pub receive_all-whole :
      (key : MultipartReference) (groups : Groups) (arrivals : List Arrival) (contents : List Text)
      (q : Part) (ps : List Part) (p : Part)
      → groups key ≡ none
      → parts_for key arrivals ≡ (q ∷ ps) ++ p ∷ []
      → q.header.total ≡ length contents
      → All (Agrees contents) (deliveries (q ∷ ps) ++ delivered p ∷ [])
      → is_covered (length contents) (deliveries (q ∷ ps)) ≡ false
      → is_covered (length contents) (deliveries (q ∷ ps) ++ delivered p ∷ []) ≡ true
      → (receive_all c groups arrivals key ≡ none)
        × (passed_for c key groups arrivals
            ≡ nothing_for (q ∷ ps)
              ++ some
                  (ok (record (c.from_incoming q.message) { message_content = joined contents }))
                ∷ [])
  receive_all-whole key groups arrivals contents q ps p none_kept parts total agree before after =
      let n = length contents in
      let own = receive_all-group_all c key groups arrivals in
      let begun = group_all_begun c q.now n q ps refl total before in
      let last = group_all-append none (q ∷ ps) p in
      let done = entry_part_complete c q.now n (deliveries (q ∷ ps)) p after in
      let whole =
        compile-receive c q.now contents (deliveries (q ∷ ps)) (delivered p) agree
          (add_message_complete q.now n (deliveries (q ∷ ps)) (delivered p) ∙ after) in
      let passed : group_passed c none (q ∷ ps)
            ++ (entry_part c p.now p.message p.header (group_all c none (q ∷ ps))).1 ∷ []
          ≡ nothing_for (q ∷ ps)
            ++ some (ok (record (c.from_incoming q.message) { message_content = joined contents }))
              ∷ [] =
        rw (begun.1, begun.0, done, whole) refl in
      (
        own.0
            ∙ (ap (λ e. group_all c e (parts_for key arrivals)) none_kept
                ∙ (ap (group_all c none) parts
                    ∙ (last.0
                        ∙ (ap (λ e. (entry_part c p.now p.message p.header e).0) begun.0
                            ∙ ap
                                (λ (r : Option SmsMultipartMessages × Option (Result SmsMessage)).
                                  r.0)
                                done)))),
        own.1
            ∙ (ap (λ e. group_passed c e (parts_for key arrivals)) none_kept
                ∙ (ap (group_passed c none) parts ∙ (last.1 ∙ passed))),
      )
