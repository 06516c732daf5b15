-- ===== src/Events/Broadcaster/Tests.antt =====
-- A broadcaster with one webhook.
use sms_server.Base.{
  ◌≡◌, refl, Bool, true, false, List, [], ◌∷◌, none, some, Result, ok, err, ℕ, Bytes,
}
use sms_server.Text.{codes}
use sms_server.Events.Samples.{Kind, incoming, outgoing, two_kinds}
use sms_server.Webhooks.{ConfiguredWebhook}
use sms_server.Webhooks.Certificates.{
  Tls, client_builder, load_all, load_certificate, new_webhook_worker,
}
use sms_server.Events.Broadcaster.{EventBroadcaster, new_broadcaster, run_worker}
use sms_server.Events.Broadcaster.Delivered.{broadcast_all, new_broadcaster-run_worker}

nothing_to_do : new_broadcaster two_kinds none false ≡ (none, false)
unfolding new_broadcaster
nothing_to_do = refl

abbrev hook : ConfiguredWebhook two_kinds
hook = record {
  url = codes "http://localhost";
  expected_status = none;
  events = incoming ∷ [];
  headers = none;
  certificate_path = some (codes "ca.pem");
}

abbrev is_open : ℕ → Bool
is_open c = true

-- Every file holds a PEM header, and a certificate is its bytes.
abbrev files : Tls
files = record {
  Certificate = Bytes;
  read = λ path. ok (codes "-----BEGIN");
  extension = λ path. none;
  from_pem = ok;
  from_der = λ bytes. err [];
}

abbrev built : List Bytes → Result (Unit {0})
built certificates = ok tt

loaded : client_builder files two_kinds true (hook ∷ []) ≡ ok (codes "-----BEGIN" ∷ [])
unfolding client_builder load_all load_certificate
loaded = refl

-- Without a TLS feature the worker panics, and what is queued is lost.
panics :
    run_worker two_kinds
      (new_webhook_worker files two_kinds false built (hook ∷ []))
      (hook ∷ [])
      (incoming ∷ [])
    ≡ []
unfolding run_worker new_webhook_worker client_builder
panics = refl

new_broadcaster-run_worker_example :
    (b : EventBroadcaster two_kinds) × (new_broadcaster two_kinds (some (hook ∷ [])) true
      ≡ (some b, true))
    × (queue : List Kind) × ((broadcast_all two_kinds is_open b (incoming ∷ outgoing ∷ [])).webhooks
        ≡ some queue)
    × (run_worker two_kinds
          (new_webhook_worker files two_kinds true built (hook ∷ []))
          (hook ∷ [])
          queue
        ≡ (incoming, some (hook ∷ [])) ∷ (outgoing, some []) ∷ [])
new_broadcaster-run_worker_example =
    new_broadcaster-run_worker two_kinds is_open files true built (hook ∷ [])
      (codes "-----BEGIN" ∷ []) true (incoming ∷ outgoing ∷ []) loaded refl
