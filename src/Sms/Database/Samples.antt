-- ===== src/Sms/Database/Samples.antt =====
-- A sort by insertion and small tables for the tests.
use mathlib.Core.List.{Permᴰ}
use mathlib.Core.List.Permᴰ
use sms_server.Base.{
  ℕ, refl, Bool, true, false, List, [], ◌∷◌, ◌++◌, none, some, ok, leb, Bool-cases, inl, inr,
  if◌then◌else◌, replicate, Bytes,
}
use sms_server.Text.{codes}
use sms_server.Sms.Types.{SmsMessage}
use sms_server.Sms.Database.Schema.{Tables, empty_tables}
use sms_server.Sms.Database.{Statement, new_row}
use sms_server.Sms.Database.Queries.{Sqlite}
use sms_server.Sms.Database.Messages.{Permutes, GetsU8}

abbrev before : {A : Type 0} → (A → ℕ) → Bool → A → A → Bool
before key true a b = leb (key a) (key b)
before key false a b = leb (key b) (key a)

abbrev put : {A : Type 0} → (A → ℕ) → Bool → A → List A → List A
put key reverse a [] = a ∷ []
put key reverse a (b ∷ bs) =
    let rest = put key reverse a bs in if before key reverse a b then a ∷ b ∷ bs else b ∷ rest

abbrev sort : {A : Type 0} → (A → ℕ) → Bool → List A → List A
sort key reverse [] = []
sort key reverse (a ∷ rest) = put key reverse a (sort key reverse rest)

abbrev pub sqlite : Sqlite
sqlite = record {
  order_by = λ key reverse rows. sort key reverse rows;
  get_u8 = λ o. elim o [ none ↦ ok 0 | some n ↦ ok n ];
}

put-perm :
    (A : Type 0) (key : A → ℕ) (reverse : Bool) (a : A) (bs : List A)
    → Permᴰ (put key reverse a bs) (a ∷ bs)
put-perm A key reverse a [] = Permᴰ.cons refl Permᴰ.nil
put-perm A key reverse a (b ∷ bs) = elim (Bool-cases (before key reverse a b)) [
  | inl q ↦ rw q (Permᴰ.refl (a ∷ b ∷ bs))
  | inr q ↦
      rw q (Permᴰ.trans (Permᴰ.cons refl (put-perm A key reverse a bs)) (Permᴰ.swap refl refl))
]

pub sqlite-Permutes : Permutes sqlite
sqlite-Permutes A key reverse [] = Permᴰ.nil
sqlite-Permutes A key reverse (a ∷ rest) =
    Permᴰ.trans (put-perm A key reverse a (sort key reverse rest))
      (Permᴰ.cons refl (sqlite-Permutes A key reverse rest))

pub sqlite-GetsU8 : GetsU8 sqlite
sqlite-GetsU8 n = refl

abbrev pub fine_at : ℕ → Statement
fine_at now = record { fails = false; now = now }

abbrev pub nonce : Bytes
nonce = replicate 12 7

abbrev pub outgoing_row : SmsMessage
outgoing_row = record {
  message_id = none;
  phone_number = codes "+44";
  message_content = codes "hi";
  message_reference = some 5;
  is_outgoing = true;
  status = some 32;
  created_at = none;
  completed_at = none;
}

-- One outgoing message, not completed, inserted at the time 100.
abbrev pub one_message : Tables
one_message = record {
  messages =
      new_row (fine_at 100) empty_tables outgoing_row (nonce ++ 99 ∷ 104 ∷ 105 ∷ []) false ∷ [];
  sequence = 1;
  friendly_names = [];
  send_failures = [];
  delivery_reports = [];
}
