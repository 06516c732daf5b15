-- ===== src/Sms/Database/Messages.antt =====
-- The stored messages as their readers see them: a list of messages in plain text.
use mathlib.Core.List.{Permᴰ}
use sms_server.Base.{
  select, ℕ, suc, ◌≡◌, refl, sym, ◌∙◌, ap, Result-cases, ok_injective, Bool, true, false, List, [],
  ◌∷◌, map, none, some, ok, arith, all, length, Bool-cases, inl, inr, ◌==◌, if◌then◌else◌, Text,
  Bytes,
}
use sms_server.Text.{equal}
use sms_server.Text.Utf8.RoundTrip.{is_char}
use sms_server.Sms.Types.{SmsMessage}
use sms_server.Sms.Encryption.{SmsEncryption, encrypt, decrypt}
use sms_server.Sms.Encryption.RoundTrip.{IsLawful, decrypt-encrypt}
use sms_server.Sms.Database.Schema.{MessageRow, Tables}
use sms_server.Sms.Database.{
  Statement, insert_message, update_message_status, update_row, completion,
}
use sms_server.Sms.Database.Queries.{Sqlite, page, paged, read_row, read_rows, get_messages}

-- ORDER BY gives every row once.
abbrev pub Permutes : Sqlite → Type 1
Permutes q =
    (A : Type 0) (key : A → ℕ) (reverse : Bool) (rows : List A)
    → Permᴰ (q.order_by key reverse rows) rows

-- `row.get::<u8, _>` gives what is stored.
abbrev pub GetsU8 : Sqlite → Type 0
GetsU8 q = (n : ℕ) → q.get_u8 (some n) ≡ ok n

module _ (q : Sqlite) (e : SmsEncryption) where
  -- Each row is read as the message in its place.
  pub data Reads : List MessageRow → List SmsMessage → Type 0 where
    nothing : Reads [] []
    and_then :
        {row : MessageRow} {m : SmsMessage} {rows : List MessageRow} {ms : List SmsMessage}
        → read_row q e row ≡ ok m
        → Reads rows ms
        → Reads (row ∷ rows) (m ∷ ms)

  read_rows-Reads :
      (rows : List MessageRow) (ms : List SmsMessage) → Reads rows ms → read_rows q e rows ≡ ok ms
  unfolding read_rows
  read_rows-Reads _ _ nothing = refl
  read_rows-Reads _ _ (and_then h r) = rw (h, read_rows-Reads _ _ r) refl

  Reads-perm :
      (rows rows' : List MessageRow) (ms : List SmsMessage)
      → Permᴰ rows rows'
      → Reads rows' ms
      → (ms' : List SmsMessage) × Reads rows ms' × Permᴰ ms' ms
  Reads-perm _ _ _ Permᴰ.nil nothing = ([], nothing, Permᴰ.nil)
  Reads-perm _ _ _ (Permᴰ.cons same p) (and_then {m = m} h r) =
      let (ms', r', p') = Reads-perm _ _ _ p r in
      (m ∷ ms', and_then (rw same h) r', Permᴰ.cons refl p')
  Reads-perm _ _ _ (Permᴰ.swap one two) (and_then {m = m} h (and_then {m = m'} {ms = ms} h' r)) =
      (m' ∷ m ∷ ms, and_then (rw one h') (and_then (rw two h) r), Permᴰ.swap refl refl)
  Reads-perm _ _ _ (Permᴰ.trans first second) r =
      let (ms', r', p') = Reads-perm _ _ _ second r in
      let (ms'', r'', p'') = Reads-perm _ _ _ first r' in (ms'', r'', Permᴰ.trans p'' p')

  -- What a reader sees of a row whose content and status can be read.
  abbrev seen : MessageRow → Text → ℕ → SmsMessage
  seen row content status = record {
    message_id = some row.message_id;
    phone_number = row.phone_number;
    message_content = content;
    message_reference = row.message_reference;
    is_outgoing = row.is_outgoing;
    status = some status;
    created_at = some row.created_at;
    completed_at = row.completed_at;
  }

  read_row-ok :
      (row : MessageRow) (m : SmsMessage)
      → read_row q e row ≡ ok m
      → (content : Text) × (status : ℕ) × (decrypt e row.message_content ≡ ok content)
        × (q.get_u8 row.status ≡ ok status)
        × (m ≡ seen row content status)
  unfolding read_row
  read_row-ok row m h = elim (Result-cases (decrypt e row.message_content)) [
    | inr (reason, d) ↦ absurd (ground (arith, rw d at h))
    | inl (content, d) ↦ elim (Result-cases (q.get_u8 row.status)) [
      | inr (reason, g) ↦ absurd (ground (arith, rw (d, g) at h))
      | inl (status, g) ↦ (content, status, d, g, sym (ok_injective (rw (d, g) at h)))
    ]
  ]

  select-Reads :
      (number : Text) (rows : List MessageRow) (ms : List SmsMessage)
      → Reads rows ms
      → Reads
          (select (λ row. equal row.phone_number number) rows)
          (select (λ m. equal m.phone_number number) ms)
  select-Reads number _ _ nothing = nothing
  select-Reads number _ _ (and_then {row = row} {m = m} {rows = rows} {ms = ms} h r) =
      let (content, status, d, g, same) = read_row-ok row m h in
      let phone : equal m.phone_number number ≡ equal row.phone_number number =
        ap (λ x. equal x.phone_number number) same in
      elim (Bool-cases (equal row.phone_number number)) [
        | inl here ↦ rw (here, phone ∙ here) (and_then h (select-Reads number rows ms r))
        | inr other ↦ rw (other, phone ∙ other) (select-Reads number rows ms r)
      ]

  -- If each stored message can be read, then a query without a page gives the messages of the
  -- phone number, each once and no other, in some order.
  pub get_messages-Reads :
      (t : Tables) (ms : List SmsMessage) (number : Text) (reverse : Bool)
      → Permutes q
      → Reads t.messages ms
      → (out : List SmsMessage) × (get_messages q false e t number none none reverse ≡ ok out)
        × Permᴰ out (select (λ m. equal m.phone_number number) ms)
  unfolding get_messages paged page
  get_messages-Reads t ms number reverse permutes r =
      let (out, r', p) =
        Reads-perm _ _ _
          (permutes MessageRow (λ row. row.created_at) reverse
            (select (λ row. equal row.phone_number number) t.messages))
          (select-Reads number t.messages ms r) in
      (out, read_rows-Reads _ _ r', p)

  abbrev pub written_message : Statement → Tables → SmsMessage → Bool → ℕ → SmsMessage
  written_message s t m is_final status = record m {
    message_id = some (suc t.sequence);
    status = some status;
    created_at = some s.now;
    completed_at = completion s is_final;
  }

  -- A message that is inserted is read, with its content in plain text, in front of what was read
  -- before, if the statement succeeds, its content can be encrypted, and its status can be read.
  pub insert_message-Reads :
      (nonce : Bytes) (s : Statement) (t : Tables) (m : SmsMessage) (is_final : Bool)
      (encrypted : Text) (status : ℕ) (ms : List SmsMessage)
      → IsLawful e.primitives
      → length nonce ≡ 12
      → all is_char m.message_content ≡ true
      → encrypt e nonce m.message_content ≡ ok encrypted
      → s.fails ≡ false
      → q.get_u8 m.status ≡ ok status
      → Reads t.messages ms
      → let (t', result) = insert_message e nonce s t m is_final in
        (result ≡ ok (suc t.sequence))
        × Reads t'.messages (written_message s t m is_final status ∷ ms)
  unfolding insert_message read_row
  insert_message-Reads nonce s t m is_final encrypted status ms lawful size chars sealed fine known
        r =
      let opened = decrypt-encrypt e lawful nonce m.message_content encrypted size chars sealed in
      rw (sealed, fine) (refl, and_then (rw (opened, known) refl) r)

  abbrev pub complete : Statement → Bool → SmsMessage → SmsMessage
  complete s true m = record m { completed_at = some s.now }
  complete s false m = m

  abbrev has_id : ℕ → SmsMessage → Bool
  has_id id m = elim m.message_id [ none ↦ false | some i ↦ i == id ]

  abbrev pub update_seen : Statement → ℕ → ℕ → Bool → SmsMessage → SmsMessage
  update_seen s id status completed m =
      if has_id id m then record (complete s completed m) { status = some status } else m

  update_row-read_row :
      (s : Statement) (id status : ℕ) (completed : Bool) (row : MessageRow) (m : SmsMessage)
      → GetsU8 q
      → read_row q e row ≡ ok m
      → read_row q e (update_row s id status completed row)
        ≡ ok (update_seen s id status completed m)
  unfolding read_row
  update_row-read_row s id status true row m gets h =
      let (content, old, d, g, same) = read_row-ok row m h in
      rw same (elim (Bool-cases (row.message_id == id)) [
        | inl here ↦ rw (here, d, gets status) refl
        | inr other ↦ rw (other, d, g) refl
      ])
  update_row-read_row s id status false row m gets h =
      let (content, old, d, g, same) = read_row-ok row m h in
      rw same (elim (Bool-cases (row.message_id == id)) [
        | inl here ↦ rw (here, d, gets status) refl
        | inr other ↦ rw (other, d, g) refl
      ])

  -- An update of a message's status changes, for the readers, just the status of that message
  -- and, if it is completed, the time of its completion.
  pub update_message_status-Reads :
      (s : Statement) (t : Tables) (id status : ℕ) (completed : Bool) (ms : List SmsMessage)
      → GetsU8 q
      → s.fails ≡ false
      → Reads t.messages ms
      → Reads
          (update_message_status s t id status completed).0.messages
          (map (update_seen s id status completed) ms)
  unfolding update_message_status
  update_message_status-Reads s t id status completed ms gets fine r = rw fine (each _ _ r)
    where
      each :
          (rows : List MessageRow) (ns : List SmsMessage)
          → Reads rows ns
          → Reads
              (map (update_row s id status completed) rows)
              (map (update_seen s id status completed) ns)
      each _ _ nothing = nothing
      each _ _ (and_then h r) =
          and_then (update_row-read_row s id status completed _ _ gets h) (each _ _ r)
