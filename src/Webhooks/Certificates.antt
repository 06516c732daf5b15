-- ===== src/Webhooks/Certificates.antt =====
-- `client_builder`, `load_certificate` and `WebhookWorker::new` of src/webhooks.rs.
use sms_server.Base.{
  ◌≡◌, refl, ◌≢◌, ap, Bool, true, false, List, [], ◌∷◌, Option, none, some, Result, ok, err, ◌>>=◌,
  Bool-cases, inl, inr, if◌then◌else◌, Text, Bytes,
}
use sms_server.Text.{codes, message, equal, starts_with}
use sms_server.Text.Laws.{equal→≡}
use sms_server.Events.{EventTypes}
use sms_server.Webhooks.{ConfiguredWebhook, EventsMap, new_events_map}

-- The file system, `Path::extension` where it is valid UTF-8, and `reqwest::tls::Certificate`.
pub record Tls : Type 1 where
  pub Certificate : Type 0
  pub read : Text → Result Bytes
  pub extension : Text → Option Text
  pub from_pem : Bytes → Result Certificate
  pub from_der : Bytes → Result Certificate

module _ (x : Tls) where
  abbrev pub or_else : Result (x.Certificate) → Result (x.Certificate) → Result (x.Certificate)
  or_else (ok c) other = ok c
  or_else (err e) other = other

  -- PEM first, then DER.
  abbrev detect : Bytes → Result (x.Certificate)
  detect cert_data = or_else (x.from_pem cert_data) (x.from_der cert_data)

  abbrev parse_as : Option Text → Bytes → Result (x.Certificate)
  parse_as none cert_data = detect cert_data
  parse_as (some ext) cert_data =
      if equal ext (codes "pem")
      then x.from_pem cert_data
      else if equal ext (codes "der")
      then x.from_der cert_data
      else if equal ext (codes "crt")
      then (if starts_with (codes "-----BEGIN") cert_data
          then x.from_pem cert_data
          else x.from_der cert_data)
      else detect cert_data

  unfoldable pub load_certificate : Text → Result (x.Certificate)
  load_certificate certificate_path = do
    cert_data ← x.read certificate_path
    parse_as (x.extension certificate_path) cert_data

  unfoldable pub load_all : List Text → Result (List (x.Certificate))
  unfolding load_certificate
  load_all [] = ok []
  load_all (path ∷ paths) = do
    certificate ← load_certificate path
    certificates ← load_all paths
    ok (certificate ∷ certificates)

  module _ (e : EventTypes) where
    abbrev certificate_paths : List (ConfiguredWebhook e) → List Text
    certificate_paths [] = []
    certificate_paths (w ∷ ws) = elim w.certificate_path [
      | none ↦ certificate_paths ws
      | some path ↦ path ∷ certificate_paths ws
    ]

    abbrev with_paths : Bool → List Text → Result (List (x.Certificate))
    with_paths tls [] = ok []
    with_paths true (path ∷ paths) = load_all (path ∷ paths)
    with_paths false (path ∷ paths) = err (
        message
          "Webhook TLS configuration provided but no TLS features enabled. Compile with a TLS backend feature!")

    -- The root certificates of the client; `tls` says whether a TLS feature is compiled in.
    unfoldable pub client_builder :
        Bool → List (ConfiguredWebhook e) → Result (List (x.Certificate))
    unfolding load_all
    client_builder tls webhooks = with_paths tls (certificate_paths webhooks)

    -- The two `expect`s: `none` is a panic.
    abbrev expect_client : Result (Unit {0}) → EventsMap e → Option (EventsMap e)
    expect_client (ok client) events_map = some events_map
    expect_client (err reason) events_map = none

    -- `WebhookWorker::new`, to its `events_map`, where `build` says whether reqwest builds a client
    -- with the certificates.
    unfoldable pub new_webhook_worker :
        Bool
        → (List (x.Certificate) → Result (Unit {0}))
        → List (ConfiguredWebhook e)
        → Option (EventsMap e)
    unfolding client_builder
    new_webhook_worker tls build webhooks =
        expect_client (do certificates ← client_builder tls webhooks; build certificates)
          (new_events_map e webhooks)

  parse_as_pem :
      (extension : Option Text) (bytes : Bytes) (certificate : x.Certificate)
      → x.from_pem bytes ≡ ok certificate
      → extension ≢ some (codes "der")
      → starts_with (codes "-----BEGIN") bytes ≡ true
      → parse_as extension bytes ≡ ok certificate
  parse_as_pem none bytes certificate pem other begins = rw pem refl
  parse_as_pem (some ext) bytes certificate pem other begins =
      elim (Bool-cases (equal ext (codes "der"))) [
        | inl h ↦ absurd (other (ap some (equal→≡ ext (codes "der") h)))
        | inr h ↦
            rw (h, begins, pem)
              (elim (Bool-cases (equal ext (codes "pem"))) [
                | inl p ↦ rw p refl
                | inr p ↦ rw p (elim (Bool-cases (equal ext (codes "crt"))) [
                  | inl c ↦ rw c refl
                  | inr c ↦ rw c refl
                ])
              ])
      ]

  -- A file that can be read and that `from_pem` accepts is loaded as PEM, whatever its extension,
  -- unless that is `der`, if it begins with the PEM header.
  load_certificate_pem :
      (path : Text) (bytes : Bytes) (certificate : x.Certificate)
      → x.read path ≡ ok bytes
      → x.from_pem bytes ≡ ok certificate
      → x.extension path ≢ some (codes "der")
      → starts_with (codes "-----BEGIN") bytes ≡ true
      → load_certificate path ≡ ok certificate
  unfolding load_certificate
  load_certificate_pem path bytes certificate there pem other begins =
      rw there (parse_as_pem (x.extension path) bytes certificate pem other begins)
