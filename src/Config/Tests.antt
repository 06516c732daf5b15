-- ===== src/Config/Tests.antt =====
-- The checks of the configuration at concrete values.
use sms_server.Base.{◌≡◌, refl, true, [], ◌∷◌, ok, err, replicate, Bytes}
use sms_server.Text.{codes, equal, message}
use sms_server.Text.Number.{decimal}
use sms_server.Config.Checks.{Files, deserialize_encryption_key}

short_key :
    deserialize_encryption_key ok (1 ∷ 2 ∷ [])
    ≡ err (codes "Encryption key must be 32 bytes, got 2")
unfolding deserialize_encryption_key message decimal
short_key = refl

abbrev sevens : Bytes
sevens = replicate 32 7

abbrev files : Files
files = record { exists = λ path. true; is_file = λ path. equal path (codes "cert.pem") }
