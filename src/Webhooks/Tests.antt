-- ===== src/Webhooks/Tests.antt =====
-- Tests of the webhooks, and their theorems at three of them.
use sms_server.Base.{ℕ, ◌≡◌, refl, List, [], ◌∷◌, ◌++◌, Option, none, some, ok, err, Text, Bytes}
use sms_server.Text.{codes, message}
use sms_server.Text.Number.{decimal}
use sms_server.Events.Samples.{Kind, incoming, outgoing, two_kinds}
use sms_server.Webhooks.{ConfiguredWebhook, process, execute_webhook, network_error, status}
use sms_server.Webhooks.Dispatch.{process-subscribers}
use sms_server.Webhooks.Certificates.{Tls}

abbrev webhook : Text → Option ℕ → List Kind → ConfiguredWebhook two_kinds
webhook url expected events = record {
  url = url;
  expected_status = expected;
  events = events;
  headers = none;
  certificate_path = none;
}

abbrev one : ConfiguredWebhook two_kinds
one = webhook (codes "one") none (incoming ∷ [])

abbrev two : ConfiguredWebhook two_kinds
two = webhook (codes "two") (some 201) (outgoing ∷ [])

abbrev three : ConfiguredWebhook two_kinds
three = webhook (codes "three") none (outgoing ∷ incoming ∷ outgoing ∷ [])

process-subscribers_example :
    process two_kinds (one ∷ two ∷ three ∷ []) outgoing ≡ some (two ∷ three ∷ three ∷ [])
process-subscribers_example = process-subscribers two_kinds (one ∷ two ∷ three ∷ []) outgoing

abbrev show : ℕ → Text
show code = code ∷ []

outcomes :
    (execute_webhook two_kinds show one (status 204) ≡ ok tt)
    × (execute_webhook two_kinds show one (status 404)
        ≡ err (codes "Unsuccessful status " ++ 404 ∷ []))
    × (execute_webhook two_kinds show two (status 200) ≡ err (codes "Got 200 expected 201!"))
    × (execute_webhook two_kinds show two network_error ≡ err (codes "Network error"))
unfolding execute_webhook decimal message
outcomes = (refl, refl, refl, refl)

-- Every file holds a PEM header, and a certificate is its bytes.
abbrev files : Tls
files = record {
  Certificate = Bytes;
  read = λ path. ok (codes "-----BEGIN");
  extension = λ path. none;
  from_pem = ok;
  from_der = λ bytes. err [];
}
