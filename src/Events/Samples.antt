-- ===== src/Events/Samples.antt =====
-- Two kinds of event with the bits 1 and 2, for the tests.
use sms_server.Base.{
  ℕ, ◌≡◌, refl, ◌∙◌, ◌↔◌, Bool, true, false, List, [], ◌∷◌, Option, none, some, ok, length, arith,
  if◌then◌else◌, Text,
}
use sms_server.Text.{codes, equal}
use sms_server.Events.{EventTypes, IsLawful, Distinct, member, has_bit}

pub data Kind : Type 0 where
  incoming outgoing : Kind

abbrev same_kind : Kind → Kind → Bool
same_kind incoming incoming = true
same_kind outgoing outgoing = true
same_kind _ _ = false

abbrev bit_of : Kind → ℕ
bit_of incoming = 1
bit_of outgoing = 2

abbrev bits : Bool → Bool → ℕ
bits false false = 0
bits true false = 1
bits false true = 2
bits true true = 3

abbrev kind_member : Kind → List Kind → Bool
kind_member k [] = false
kind_member k (l ∷ ls) = if same_kind l k then true else kind_member k ls

unfoldable pub parse_kind : Text → Option Kind
unfolding equal
parse_kind s =
    if equal s (codes "incoming")
    then some incoming
    else if equal s (codes "outgoing")
    then some outgoing
    else none

-- An event is its kind, and its JSON form the bit.
abbrev pub two_kinds : EventTypes
two_kinds = record {
  Event = Kind;
  EventKind = Kind;
  kind_of = λ k. k;
  same = same_kind;
  to_json = λ k. ok (bit_of k ∷ []);
  to_bit = bit_of;
  events_to_mask = λ ks. bits (kind_member incoming ks) (kind_member outgoing ks);
  all_bits = 3;
  try_from = parse_kind;
  count = 2;
}

same_kind_iff : (k l : Kind) → (same_kind k l ≡ true) ↔ (k ≡ l)
same_kind_iff incoming incoming = (λ h. refl, λ h. refl)
same_kind_iff outgoing outgoing = (λ h. refl, λ h. refl)
same_kind_iff incoming outgoing = (λ h. cc, λ h. cc)
same_kind_iff outgoing incoming = (λ h. cc, λ h. cc)

has_bit-bits :
    (a b : Bool) (k : Kind)
    → has_bit two_kinds (bits a b) k ≡ elim k [ incoming ↦ a | outgoing ↦ b ]
has_bit-bits false false incoming = refl
has_bit-bits false false outgoing = refl
has_bit-bits true false incoming = refl
has_bit-bits true false outgoing = refl
has_bit-bits false true incoming = refl
has_bit-bits false true outgoing = refl
has_bit-bits true true incoming = refl
has_bit-bits true true outgoing = refl

kind_member-member : (k : Kind) (ks : List Kind) → kind_member k ks ≡ member two_kinds k ks
kind_member-member k [] = refl
kind_member-member k (l ∷ ls) = ground (arith, kind_member-member k ls)

has_bit-two_kinds :
    (ks : List Kind) (k : Kind)
    → has_bit two_kinds (two_kinds.events_to_mask ks) k ≡ member two_kinds k ks
has_bit-two_kinds ks incoming =
    has_bit-bits (kind_member incoming ks) (kind_member outgoing ks) incoming
    ∙ kind_member-member incoming ks
has_bit-two_kinds ks outgoing =
    has_bit-bits (kind_member incoming ks) (kind_member outgoing ks) outgoing
    ∙ kind_member-member outgoing ks

every_kind_of_two :
    (ks : List Kind) (k : Kind)
    → Distinct two_kinds ks
    → length ks ≡ 2
    → member two_kinds k ks ≡ true
every_kind_of_two [] k d h = absurd (omega (arith, h))
every_kind_of_two (a ∷ []) k d h = absurd (omega (arith, h))
every_kind_of_two (incoming ∷ incoming ∷ []) k (d, ds) h = cc
every_kind_of_two (outgoing ∷ outgoing ∷ []) k (d, ds) h = cc
every_kind_of_two (incoming ∷ outgoing ∷ []) incoming d h = refl
every_kind_of_two (incoming ∷ outgoing ∷ []) outgoing d h = refl
every_kind_of_two (outgoing ∷ incoming ∷ []) incoming d h = refl
every_kind_of_two (outgoing ∷ incoming ∷ []) outgoing d h = refl
every_kind_of_two (a ∷ b ∷ c ∷ ks) k d h = absurd (omega (arith, h))

has_bit-all_two : (k : Kind) → has_bit two_kinds 3 k ≡ true
has_bit-all_two incoming = refl
has_bit-all_two outgoing = refl

pub two_kinds-IsLawful : IsLawful two_kinds
two_kinds-IsLawful = record {
  same_iff = same_kind_iff;
  has_bit-events_to_mask = has_bit-two_kinds;
  has_bit-all_bits = has_bit-all_two;
  every_kind = every_kind_of_two;
}
