-- ===== src/Sms/Service/Completed.antt =====
-- A message that is completed stays so, whatever is done to the tables.
use sms_server.Base.{
  ℕ, suc, ◌≤◌, ◌<◌, ◌≡◌, ◌≢◌, refl, sym, ◌∙◌, Bool, true, false, not, ◌||◌, List, [], ◌∷◌, map,
  some, ok, arith, all, All, select, Bool-cases, Result-cases, inl, inr, ok_injective,
  some_injective, ap, ◌==◌, Text,
}
use sms_server.Text.{is_some}
use sms_server.Sms.Types.{
  Action, insert_message, insert_send_failure, insert_delivery_report, update_message_status,
  broadcast,
}
use sms_server.Sms.Encryption.{SmsEncryption, encrypt}
use sms_server.Sms.Database.Schema.{MessageRow, Tables}
use sms_server.Sms.Database.{Statement, update_row, new_row}
use sms_server.Sms.Database
use sms_server.Sms.Database.Queries.{is_target, newest, id_of, get_delivery_report_target_message}
use sms_server.Sms.Database.Invariant.{IsDescending, WellFormed}
use sms_server.Sms.Database.Reports.{newest-ne, newest-cons, select-IsDescending}
use sms_server.Sms.Service.{Call, perform, perform_all}

-- A row that is not the message's, or that is completed.
abbrev pub is_settled : ℕ → MessageRow → Bool
is_settled id row = not (row.message_id == id) || is_some row.completed_at

-- The message has been stored before, and is completed.
abbrev pub IsCompleted : ℕ → Tables → Type 0
IsCompleted id t = (id ≤ t.sequence) × (all (is_settled id) t.messages ≡ true)

update_row-is_settled :
    (s : Statement) (id other status : ℕ) (completed : Bool) (rows : List MessageRow)
    → all (is_settled id) rows ≡ true
    → all (is_settled id) (map (update_row s other status completed) rows) ≡ true
update_row-is_settled s id other status completed [] h = refl
update_row-is_settled s id other status true (row ∷ rows) h =
    ground (arith, h, update_row-is_settled s id other status true rows (ground (arith, h)))
update_row-is_settled s id other status false (row ∷ rows) h =
    ground (arith, h, update_row-is_settled s id other status false rows (ground (arith, h)))

completing-is_settled :
    (s : Statement) (id status : ℕ) (rows : List MessageRow)
    → all (is_settled id) (map (update_row s id status true) rows) ≡ true
completing-is_settled s id status [] = refl
completing-is_settled s id status (row ∷ rows) =
    ground (arith, completing-is_settled s id status rows)

-- An update that completes the message leaves it completed.
pub update_message_status-IsCompleted :
    (s : Statement) (t : Tables) (id status : ℕ)
    → s.fails ≡ false
    → id ≤ t.sequence
    → IsCompleted id (Database.update_message_status s t id status true).0
unfolding Database.update_message_status
update_message_status-IsCompleted s t id status fine known =
    rw fine (known, completing-is_settled s id status t.messages)

pub sequence-insert_delivery_report :
    (s : Statement) (t : Tables) (id status : ℕ) (is_final : Bool)
    → (Database.insert_delivery_report s t id status is_final).0.sequence ≡ t.sequence
unfolding Database.insert_delivery_report
sequence-insert_delivery_report s t id status is_final = ground arith

module _ (e : SmsEncryption) (id : ℕ) where
  perform-IsCompleted :
      (c : Call) (t : Tables) (action : Action)
      → IsCompleted id t
      → IsCompleted id (perform e c t action)
  unfolding Database.insert_message Database.insert_send_failure Database.insert_delivery_report
      Database.update_message_status
  perform-IsCompleted c t (broadcast event) h = h
  perform-IsCompleted c t (insert_send_failure m text) h = ground (arith, h)
  perform-IsCompleted c t (insert_delivery_report m status final) h = ground (arith, h)
  perform-IsCompleted c t (update_message_status m status completed) h =
      ground (arith, h, update_row-is_settled c.statement id m status completed t.messages h.1)
  perform-IsCompleted c t (insert_message m final) h =
      elim (Result-cases (encrypt e c.nonce m.message_content)) [
        | inl (content, q) ↦ rw (q, perform) (ground (arith, h))
        | inr (reason, q) ↦ rw (q, perform) h
      ]

  pub perform_all-IsCompleted :
      (calls : ℕ → Call) (t : Tables) (i : ℕ) (actions : List Action)
      → IsCompleted id t
      → IsCompleted id (perform_all e calls t i actions)
  perform_all-IsCompleted calls t i [] h = h
  perform_all-IsCompleted calls t i (a ∷ actions) h =
      perform_all-IsCompleted calls (perform e (calls i) t a) (suc i) actions
        (perform-IsCompleted (calls i) t a h)

newest-bound :
    (id bound : ℕ) (rows : List MessageRow)
    → IsDescending bound rows
    → id_of (newest rows) ≡ some id
    → id < bound
newest-bound id bound [] h q = absurd (unfold newest in cc)
newest-bound id bound (row ∷ rows) h q =
    let same : id_of (some row) ≡ some id = ap id_of (sym (newest-cons bound row rows h)) ∙ q in
    omega (arith, h.0, some_injective same)

module _ (number : Text) (reference id : ℕ) where
  select-is_settled :
      (rows : List MessageRow)
      → all (is_settled id) rows ≡ true
      → All (λ row. row.message_id ≢ id) (select (is_target number reference) rows)
  select-is_settled [] h = tt
  select-is_settled (row ∷ rows) h = elim (Bool-cases (is_target number reference row)) [
    | inr other ↦ rw other (select-is_settled rows (ground (arith, h)))
    | inl target ↦ rw target (
      λ same. absurd (ground (arith, h, target, same)),
      select-is_settled rows (ground (arith, h)),
    )
  ]

  -- No report is for a message that is completed.
  pub get_delivery_report_target_message-IsCompleted :
      (t : Tables)
      → IsCompleted id t
      → get_delivery_report_target_message false t number reference ≢ ok (some id)
  unfolding get_delivery_report_target_message
  get_delivery_report_target_message-IsCompleted t h =
      λ q. newest-ne id _ (select-is_settled t.messages h.1) (ok_injective q)

  -- A message that a report is for has been stored.
  pub stored_target :
      (t : Tables)
      → WellFormed t
      → get_delivery_report_target_message false t number reference ≡ ok (some id)
      → id < suc t.sequence
  unfolding get_delivery_report_target_message
  stored_target t w q =
      newest-bound id (suc t.sequence) (select (is_target number reference) t.messages)
        (select-IsDescending (is_target number reference) (suc t.sequence) t.messages w.descending)
        (ok_injective q)
