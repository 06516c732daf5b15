-- ===== src/Config/Checks.antt =====
-- The functions of src/config.rs that check what is deserialized.
use sms_server.Base.{
  ℕ, ◌≡◌, ◌↔◌, refl, ◌∙◌, sym, ap, ◌&&◌, Bool, true, not, List, [], ◌∷◌, ◌++◌, Option, none, some,
  Result, ok, err, ◌>>=◌, length, Bool-cases, inl, inr, arith, ==_iff, ok_injective, ◌==◌,
  if◌then◌else◌, Text, Bytes,
}
use sms_server.Text.{message}
use sms_server.Text.Number.{decimal}
use sms_server.Events.{EventTypes}
use sms_server.Webhooks.{ConfiguredWebhook}

abbrev key_size : ℕ
key_size = 32

abbrev decoded_key : Result Bytes → Result Bytes
decoded_key (err e) = err (message "Failed to decode base64 encryption key: " ++ e)
decoded_key (ok decoded) =
    if not (length decoded == key_size)
    then err (message "Encryption key must be 32 bytes, got " ++ decimal (length decoded))
    else ok decoded

-- `base64_decode` is that of the engine `STANDARD`.
unfoldable pub deserialize_encryption_key : (Text → Result Bytes) → Text → Result Bytes
deserialize_encryption_key base64_decode s = decoded_key (base64_decode s)

-- What the file system says of a path.
pub record Files : Type 0 where
  pub exists : Text → Bool
  pub is_file : Text → Bool

unfoldable deserialize_existing_file : Files → Text → Result Text
deserialize_existing_file f path =
    if not (f.exists path)
    then err (message "File does not exist: " ++ path)
    else if not (f.is_file path)
    then err (message "Path is not a file: " ++ path)
    else ok path

abbrev some_path : Text → Result (Option Text)
some_path path = ok (some path)

unfoldable deserialize_optional_existing_file : Files → Option Text → Result (Option Text)
unfolding deserialize_existing_file
deserialize_optional_existing_file f none = ok none
deserialize_optional_existing_file f (some path_str) = do
  path ← deserialize_existing_file f path_str
  some_path path

-- `HeaderName::from_str` and `HeaderValue::from_str` of `reqwest`.
pub record Headers : Type 1 where
  pub HeaderName : Type 0
  pub HeaderValue : Type 0
  pub same_name : HeaderName → HeaderName → Bool
  pub name_from_str : Text → Result HeaderName
  pub value_from_str : Text → Result HeaderValue

module _ (h : Headers) where
  -- `HeaderMap::insert`: a name that is there already gets the new value.
  abbrev pub insert :
      h.HeaderName
      → h.HeaderValue
      → List (h.HeaderName × h.HeaderValue)
      → List (h.HeaderName × h.HeaderValue)
  insert k v [] = (k, v) ∷ []
  insert k v ((l, w) ∷ out) = if h.same_name l k then (l, v) ∷ out else (l, w) ∷ insert k v out

  -- The loop of `get_header_map`, over the pairs in the order of the map.
  unfoldable fill_headers :
      List (Text × Text)
      → List (h.HeaderName × h.HeaderValue)
      → Result (List (h.HeaderName × h.HeaderValue))
  fill_headers [] out = ok out
  fill_headers ((k, v) ∷ pairs) out = do
    name ← h.name_from_str k
    value ← h.value_from_str v
    fill_headers pairs (insert name value out)

  unfoldable get_header_map :
      {e : EventTypes} → ConfiguredWebhook e → Result (Option (List (h.HeaderName × h.HeaderValue)))
  unfolding fill_headers
  get_header_map webhook = elim webhook.headers [
    | none ↦ ok none
    | some pairs ↦ (do out ← fill_headers pairs []; ok (some out))
  ]

decoded_key_iff :
    (r : Result Bytes) (key : Bytes) → (decoded_key r ≡ ok key) ↔ ((r ≡ ok key) × (length key ≡ 32))
decoded_key_iff (err e) key = (λ h. absurd (err_ok h), λ (h, size). absurd (err_ok h))
  where
    err_ok : {e' : Text} → err e' ≡ ok key → ⊥
    err_ok = λ h. cc
decoded_key_iff (ok decoded) key = elim (Bool-cases (length decoded == key_size)) [
  | inl h ↦ rw h (λ q. (q, ap length (sym (ok_injective q)) ∙ (==_iff _ _).0 h), λ (q, size). q)
  | inr h ↦ rw h (
    λ q. absurd (ground (arith, q)),
    λ (q, size). absurd (ground (arith, ap length (ok_injective q), size, h)),
  )
]

-- A key that is accepted has 32 bytes, and is what the text decodes to; every text that decodes to
-- 32 bytes is accepted.
deserialize_encryption_key_iff :
    (base64_decode : Text → Result Bytes) (s : Text) (key : Bytes)
    → (deserialize_encryption_key base64_decode s ≡ ok key)
      ↔ ((base64_decode s ≡ ok key) × (length key ≡ 32))
unfolding deserialize_encryption_key
deserialize_encryption_key_iff base64_decode s key = decoded_key_iff (base64_decode s) key

-- A path in the configuration is accepted just if it is that of a file that exists, and is then
-- kept as it is. A path that is missing is accepted.
deserialize_optional_existing_file_iff :
    (f : Files) (path : Option Text) (accepted : Option Text)
    → (deserialize_optional_existing_file f path ≡ ok accepted) ↔ (
        (path ≡ accepted) × (elim path [ none ↦ true | some p ↦ f.exists p && f.is_file p ] ≡ true))
unfolding deserialize_optional_existing_file deserialize_existing_file
deserialize_optional_existing_file_iff f none accepted =
    (λ q. (ok_injective q, refl), λ (q, u). ap ok q)
deserialize_optional_existing_file_iff f (some path) accepted = elim (Bool-cases (f.exists path)) [
  | inr absent ↦ rw absent (λ q. absurd (ground (arith, q)), λ (q, u). absurd (ground (arith, u)))
  | inl there ↦ elim (Bool-cases (f.is_file path)) [
    | inr folder ↦
        rw (there, folder) (λ q. absurd (ground (arith, q)), λ (q, u). absurd (ground (arith, u)))
    | inl file ↦ rw (there, file) (λ q. (ok_injective q, refl), λ (q, u). ap ok q)
  ]
]
