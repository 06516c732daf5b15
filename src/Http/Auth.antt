-- ===== src/Http/Auth.antt =====
-- `auth_middleware` of src/http/mod.rs.
mod Tests
use sms_server.Base.{
  ◌≡◌, ◌≢◌, refl, sym, ◌∙◌, ap, subst, ◌↔◌, Bool, true, false, not, List, [], ◌∷◌, ◌++◌, Option,
  none, some, Result, ok, err, arith, Bool-cases, Option-cases, inl, inr, if◌then◌else◌, Text,
}
use sms_server.Text.{codes, message, equal, strip_prefix, trim}
use sms_server.Text.Laws.{equal→≡, equal_refl, trim_idempotent}
use sms_server.Http.Types.{
  HttpError, HttpResult, success, failure, ◌>>=◌, unauthorized, bad_request,
}

abbrev unwrap_or : Text → Option Text → Text
unwrap_or s none = s
unwrap_or s (some t) = t

abbrev pub token_of : Text → Text
token_of auth_str = trim (unwrap_or auth_str (strip_prefix (codes "Bearer ") auth_str))

-- A header's value that `to_str` refuses is an error.
abbrev header_text : Option (Result Text) → HttpResult Text
header_text none =
    failure (record { status = unauthorized; message = message "Missing authorization header" })
header_text (some (err e)) =
    failure (record { status = bad_request; message = message "Invalid authorization header" })
header_text (some (ok auth_str)) = success auth_str

abbrev invalid_token : HttpError
invalid_token = record { status = unauthorized; message = message "Invalid token" }

-- Whether the request is passed on: its answer is then that of the next layer.
unfoldable pub auth_middleware : Text → Option (Result Text) → HttpResult (Unit {0})
unfolding equal
auth_middleware expected_token authorization = do
  auth_str ← header_text authorization
  if not (equal (token_of auth_str) expected_token) then failure invalid_token else success tt

-- A token without blanks around it, sent behind `Bearer `, is let through just if it is the
-- expected one.
auth_middleware_bearer :
    (expected token : Text)
    → trim token ≡ token
    → auth_middleware expected (some (ok (codes "Bearer " ++ token)))
      ≡ (if equal token expected then success tt else failure invalid_token)
unfolding auth_middleware strip_prefix
auth_middleware_bearer expected token plain =
    rw plain (elim (Bool-cases (equal token expected)) [ inl h ↦ rw h refl | inr h ↦ rw h refl ])

-- A request is let through only with a header whose token is the expected one; an expected token
-- with blanks around it therefore lets nothing through.
pub auth_middleware_accepts :
    (expected : Text) (header : Option (Result Text))
    → auth_middleware expected header ≡ success tt
    → ((s : Text) × (header ≡ some (ok s)) × (token_of s ≡ expected)) × (trim expected ≡ expected)
unfolding auth_middleware
auth_middleware_accepts expected none h = absurd (ground (arith, h))
auth_middleware_accepts expected (some (err e)) h = absurd (ground (arith, h))
auth_middleware_accepts expected (some (ok s)) h = elim (Bool-cases (equal (token_of s) expected)) [
  | inr other ↦ absurd (ground (arith, rw other at h))
  | inl same ↦
      let token : token_of s ≡ expected = equal→≡ (token_of s) expected same in
      ((s, refl, token), subst (λ t. trim t ≡ t) token (trim_idempotent _))
]
