-- ===== src/Modem/Parsers.antt =====
-- src/modem/parsers.rs: the responses of the modem, line by line.
use sms_server.Base.{
  ℕ, ◌+◌, ◌-◌, Bool, List, [], ◌∷◌, Option, none, some, Result, ok, err, ok_or, ◌>>=◌, leb,
  if◌then◌else◌, take, drop, Text,
}
use sms_server.Base.Int.{ℤ}
use sms_server.Text.{
  codes, message, trim, lines, split, starts_with, strip_prefix, strip_suffix, find, rfind,
  split_once,
}
use sms_server.Text.Number.{parse_u8, parse_u32, parse_i32}
use sms_server.Modem.Types.{Crates}

-- `response.lines().find(|line| line.trim().starts_with(header))`
find_line : Text → List Text → Option Text
find_line header [] = none
find_line header (l ∷ ls) =
    let rest = find_line header ls in if starts_with header (trim l) then some l else rest

-- What follows the header on its line.
unfoldable pub payload : Text → Text → Text → Text → Result Text
unfolding find_line
payload header missing malformed response = do
  line ← ok_or missing (find_line header (lines response))
  rest ← ok_or malformed (strip_prefix header (trim line))
  ok (trim rest)

-- `parts.next().ok_or_else(…)?.trim()`
abbrev next_part : Text → List Text → Result (Text × List Text)
next_part missing [] = err missing
next_part missing (p ∷ ps) = ok (trim p, ps)

-- The same, then `.parse().map_err(…)?`
unfoldable next_number {ℓ} :
    {A : Type ℓ} → (Text → Option A) → Text → Text → List Text → Result (A × List Text)
next_number parse missing invalid parts = do
  (p, rest) ← next_part missing parts
  n ← ok_or invalid (parse p)
  ok (n, rest)

unfoldable pub parse_cmgs_result : Text → Result ℕ
unfolding payload
parse_cmgs_result response = do
  rest ←
      payload (codes "+CMGS:") (message "No CMGS response found in buffer")
        (message "Malformed CMGS response") response
  ok_or (message "Invalid CMGS message reference number") (parse_u8 rest)

unfoldable pub parse_creg_response : Text → Result (ℕ × ℕ)
unfolding payload next_number
parse_creg_response response = do
  rest ←
      payload (codes "+CREG:") (message "No CREG response found in buffer")
        (message "Malformed CREG response") response
  (registration, parts) ←
      next_number parse_u8 (message "Missing registration status")
        (message "Invalid registration status") (split b',' rest)
  (technology, _) ←
      next_number parse_u8 (message "Missing technology status")
        (message "Invalid technology status") parts
  ok (registration, technology)

unfoldable pub parse_csq_response : Text → Result (ℤ × ℤ)
unfolding payload next_number
parse_csq_response response = do
  rest ←
      payload (codes "+CSQ:") (message "No CSQ response found in buffer")
        (message "Malformed CSQ response") response
  (rssi, parts) ←
      next_number parse_i32 (message "Missing RSSI value") (message "Invalid RSSI value")
        (split b',' rest)
  (ber, _) ← next_number parse_i32 (message "Missing BER value") (message "Invalid BER value") parts
  ok (rssi, ber)

-- `.strip_prefix('"').and_then(|s| s.strip_suffix('"'))`
abbrev unquote : Text → Option Text
unquote s = elim (strip_prefix (b'"' ∷ []) s) [ none ↦ none | some t ↦ strip_suffix (b'"' ∷ []) t ]

unfoldable pub parse_cops_response : Text → Result (ℕ × ℕ × Text)
unfolding payload next_number
parse_cops_response response = do
  rest ←
      payload (codes "+COPS:") (message "No COPS response found in buffer")
        (message "Malformed COPS response") response
  (status, parts) ←
      next_number parse_u8 (message "Missing operator status") (message "Invalid operator status")
        (split b',' rest)
  (format, more) ←
      next_number parse_u8 (message "Missing operator format") (message "Invalid operator format")
        parts
  (quoted, _) ← next_part (message "Missing operator name") more
  operator ← ok_or (message "Operator name not properly quoted") (unquote quoted)
  ok (status, format, operator)

unfoldable pub parse_cspn_response : Text → Result Text
unfolding payload
parse_cspn_response response = do
  rest ←
      payload (codes "+CSPN:") (message "No CSPN response found in buffer")
        (message "Malformed CSPN response") response
  quote_start ← ok_or (message "Missing opening quote for operator name") (find b'"' rest)
  quote_end ← ok_or (message "Missing closing quote for operator name") (rfind b'"' rest)
  if leb quote_end quote_start
      then err (message "Invalid quoted operator name")
      else ok (take (quote_end - (quote_start + 1)) (drop (quote_start + 1) rest))

-- The voltage in millivolts, before its division by 1000.
unfoldable pub parse_cbc_response : Text → Result (ℕ × ℕ × ℕ)
unfolding payload next_number
parse_cbc_response response = do
  rest ←
      payload (codes "+CBC:") (message "No CBC response found in buffer")
        (message "Malformed CBC response") response
  (status, parts) ←
      next_number parse_u8 (message "Missing battery status") (message "Invalid battery status")
        (split b',' rest)
  (charge, more) ←
      next_number parse_u8 (message "Missing battery charge") (message "Invalid battery charge")
        parts
  (voltage_raw, _) ←
      next_number parse_u32 (message "Missing battery voltage") (message "Invalid battery voltage")
        more
  ok (status, charge, voltage_raw)

-- `line.split_once(": ").map(|(_, s)| s.trim())`
abbrev behind_colon : Text → Option Text
behind_colon line = elim (split_once (codes ": ") line) [
  | none ↦ none
  | some (_, s) ↦ some (trim s)
]

module _ (x : Crates) where
  unfoldable pub parse_cgpsstatus_response : Text → Result x.FixStatus
  unfolding find_line
  parse_cgpsstatus_response response = do
    line ←
        ok_or (message "No CGPSSTATUS response found in buffer")
          (find_line (codes "+CGPSSTATUS:") (lines response))
    status ← ok_or (message "Missing CGPS status") (behind_colon line)
    x.fix_status status

  unfoldable pub parse_cgnsinf_response : Text → Bool → Result x.PositionReport
  unfolding find_line
  parse_cgnsinf_response response unsolicited = do
    let header = if unsolicited then codes "+UGNSINF" else codes "+CGNSINF"
    line ← ok_or (message "No CGNSINF response found in buffer") (find_line header (lines response))
    fields ← ok_or (message "Missing CGNSINF data") (behind_colon line)
    x.position_report (split b',' fields)
