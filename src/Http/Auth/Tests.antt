-- ===== src/Http/Auth/Tests.antt =====
-- The middleware at concrete headers.
use sms_server.Base.{◌≡◌, refl, some, ok, Text}
use sms_server.Text.{codes, trim, is_whitespace, strip_prefix}
use sms_server.Http.Types.{success}
use sms_server.Http.Auth.{auth_middleware, token_of, auth_middleware_accepts}

plain_header : auth_middleware (codes "secret") (some (ok (codes " secret "))) ≡ success tt
unfolding auth_middleware trim is_whitespace strip_prefix
plain_header = refl

secret_plain : trim (codes "secret") ≡ codes "secret"
unfolding trim is_whitespace
secret_plain = refl

auth_middleware_accepts_example :
    ((s : Text) × (some (ok (codes " secret ")) ≡ some (ok s)) × (token_of s ≡ codes "secret"))
    × (trim (codes "secret") ≡ codes "secret")
auth_middleware_accepts_example =
    auth_middleware_accepts (codes "secret") (some (ok (codes " secret "))) plain_header
