-- ===== src/Sms/Database/Invariant/Preserved.antt =====
-- Every operation keeps the tables well formed.
use sms_server.Base.{
  ℕ, ◌∙◌, Bool, Option, none, some, arith, Bool-cases, Result-cases, inl, inr, Text, Bytes,
}
use sms_server.Sms.Types.{SmsMessage}
use sms_server.Sms.Encryption.{SmsEncryption, encrypt}
use sms_server.Sms.Database.Schema.{
  Tables, empty_tables, has_message, has_failure, next_report_id, largest_report_id,
}
use sms_server.Sms.Database.{
  Statement, insert_message, insert_send_failure, insert_delivery_report, update_message_status,
  update_friendly_name, executed,
}
use sms_server.Sms.Database.Invariant.{Reachable, WellFormed}
use sms_server.Sms.Database.Invariant.Rows.{
  update_row-IsDescending, has_message-update_row, All-implies, has_message-cons,
  remove_name-DistinctNumbers, put_name-DistinctNumbers,
}

empty-WellFormed : WellFormed empty_tables
unfolding next_report_id
empty-WellFormed = record {
  descending = omega arith;
  reports_descend = omega arith;
  reports_refer = tt;
  failures_refer = tt;
  one_failure = tt;
  distinct_numbers = tt;
}

-- The two outcomes of a statement.
unless_fails :
    {A : Type 0} (s : Statement) (context : Text) {t t' : Tables} (a : A)
    → WellFormed t
    → WellFormed t'
    → WellFormed (executed s context t (some (t', a))).0
unless_fails s context a w w' = elim (Bool-cases s.fails) [ inl h ↦ rw h w | inr h ↦ rw h w' ]

module _ (t : Tables) (w : WellFormed t) where
  pub insert_message-WellFormed :
      (e : SmsEncryption) (nonce : Bytes) (s : Statement) (m : SmsMessage) (is_final : Bool)
      → WellFormed (insert_message e nonce s t m is_final).0
  unfolding insert_message
  insert_message-WellFormed e nonce s m is_final =
      elim (Result-cases (encrypt e nonce m.message_content)) [
        | inr (reason, q) ↦ rw q w
        | inl (content, q) ↦ elim (Bool-cases s.fails) [
          | inl h ↦ rw (q, h) w
          | inr h ↦
              rw (q, h)
                (record {
                  descending = (omega arith, w.descending);
                  reports_descend = w.reports_descend;
                  reports_refer =
                      All-implies (λ r. has_message-cons r.message_id _ t.messages)
                        t.delivery_reports w.reports_refer;
                  failures_refer =
                      All-implies (λ r. has_message-cons r.message_id _ t.messages) t.send_failures
                        w.failures_refer;
                  one_failure = w.one_failure;
                  distinct_numbers = w.distinct_numbers;
                })
        ]
      ]

  pub insert_send_failure-WellFormed :
      (s : Statement) (id : ℕ) (text : Text) → WellFormed (insert_send_failure s t id text).0
  unfolding insert_send_failure
  insert_send_failure-WellFormed s id text = elim (Bool-cases (has_failure id t.send_failures)) [
    | inl double ↦ rw double w
    | inr single ↦ elim (Bool-cases (has_message id t.messages)) [
      | inr missing ↦ rw (single, missing) w
      | inl there ↦
          rw (single, there)
            (unless_fails s _ _ w (record {
              descending = w.descending;
              reports_descend = w.reports_descend;
              reports_refer = w.reports_refer;
              failures_refer = (there, w.failures_refer);
              one_failure = (single, w.one_failure);
              distinct_numbers = w.distinct_numbers;
            }))
    ]
  ]

  pub insert_delivery_report-WellFormed :
      (s : Statement) (id status : ℕ) (is_final : Bool)
      → WellFormed (insert_delivery_report s t id status is_final).0
  unfolding insert_delivery_report next_report_id largest_report_id
  insert_delivery_report-WellFormed s id status is_final =
      elim (Bool-cases (has_message id t.messages)) [
        | inr missing ↦ rw missing w
        | inl there ↦ rw there (
            unless_fails s _ _ w (record {
              descending = w.descending;
              reports_descend = (ground arith, w.reports_descend);
              reports_refer = (there, w.reports_refer);
              failures_refer = w.failures_refer;
              one_failure = w.one_failure;
              distinct_numbers = w.distinct_numbers;
            }))
      ]

  pub update_message_status-WellFormed :
      (s : Statement) (id status : ℕ) (completed : Bool)
      → WellFormed (update_message_status s t id status completed).0
  unfolding update_message_status
  update_message_status-WellFormed s id status completed = unless_fails s _ _ w (record {
    descending = update_row-IsDescending s id status completed _ t.messages w.descending;
    reports_descend = w.reports_descend;
    reports_refer =
        All-implies
          (λ r q. has_message-update_row s id status completed r.message_id t.messages ∙ q)
          t.delivery_reports w.reports_refer;
    failures_refer =
        All-implies
          (λ r q. has_message-update_row s id status completed r.message_id t.messages ∙ q)
          t.send_failures w.failures_refer;
    one_failure = w.one_failure;
    distinct_numbers = w.distinct_numbers;
  })

  update_friendly_name-WellFormed :
      (s : Statement) (number : Text) (name : Option Text)
      → WellFormed (update_friendly_name s t number name).0
  unfolding update_friendly_name
  update_friendly_name-WellFormed s number none = unless_fails s _ _ w (record {
    descending = w.descending;
    reports_descend = w.reports_descend;
    reports_refer = w.reports_refer;
    failures_refer = w.failures_refer;
    one_failure = w.one_failure;
    distinct_numbers = remove_name-DistinctNumbers number t.friendly_names w.distinct_numbers;
  })
  update_friendly_name-WellFormed s number (some name) = unless_fails s _ _ w (record {
    descending = w.descending;
    reports_descend = w.reports_descend;
    reports_refer = w.reports_refer;
    failures_refer = w.failures_refer;
    one_failure = w.one_failure;
    distinct_numbers = put_name-DistinctNumbers number name t.friendly_names w.distinct_numbers;
  })

-- Whatever calls have been made of a new database, with whatever outcome of their statements, its
-- tables are well formed: the numbers of messages and of reports are unique and rise with time,
-- each report and each send failure refers to a message that is there, a message has at most one
-- send failure, and a phone number at most one friendly name.
pub Reachable-WellFormed : (e : SmsEncryption) (t : Tables) → Reachable e t → WellFormed t
Reachable-WellFormed e _ Reachable.start = empty-WellFormed
Reachable-WellFormed e _ (Reachable.by_insert_message nonce s m is_final r) =
    insert_message-WellFormed _ (Reachable-WellFormed e _ r) e nonce s m is_final
Reachable-WellFormed e _ (Reachable.by_insert_send_failure s id text r) =
    insert_send_failure-WellFormed _ (Reachable-WellFormed e _ r) s id text
Reachable-WellFormed e _ (Reachable.by_insert_delivery_report s id status is_final r) =
    insert_delivery_report-WellFormed _ (Reachable-WellFormed e _ r) s id status is_final
Reachable-WellFormed e _ (Reachable.by_update_message_status s id status completed r) =
    update_message_status-WellFormed _ (Reachable-WellFormed e _ r) s id status completed
Reachable-WellFormed e _ (Reachable.by_update_friendly_name s number name r) =
    update_friendly_name-WellFormed _ (Reachable-WellFormed e _ r) s number name
