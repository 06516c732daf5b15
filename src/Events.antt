-- ===== src/Events.antt =====
-- The events of the crate `sms-types`, as the broadcaster, the websockets and the webhooks use them.
pub mod Samples
pub mod Broadcaster
use Prim.Native.Nat.{bit_and}
use sms_server.Base.{
  ℕ, ◌≡◌, ◌↔◌, Bool, true, false, not, ◌||◌, List, [], ◌∷◌, Option, Result, length, ◌==◌, Text,
}

-- `Event` and `EventKind` of that crate: `kind_of` is the conversion between them, `same` the
-- equality of kinds, `to_json` what `serde_json` makes of an event, and `count` is `COUNT`.
pub record EventTypes : Type 1 where
  pub Event : Type 0
  pub EventKind : Type 0
  pub kind_of : Event → EventKind
  pub same : EventKind → EventKind → Bool
  pub to_json : Event → Result Text
  pub to_bit : EventKind → ℕ
  pub events_to_mask : List EventKind → ℕ
  pub all_bits : ℕ
  pub try_from : Text → Option EventKind
  pub count : ℕ

module _ (e : EventTypes) where
  abbrev pub member : e.EventKind → List (e.EventKind) → Bool
  member k [] = false
  member k (l ∷ ls) = e.same l k || member k ls

  abbrev pub Distinct : List (e.EventKind) → Type 0
  Distinct [] = Unit
  Distinct (k ∷ ks) = (member k ks ≡ false) × Distinct ks

  -- Whether a mask has the bit of a kind.
  abbrev pub has_bit : ℕ → e.EventKind → Bool
  has_bit mask k = not (bit_and mask (e.to_bit k) == 0)

  -- What the crate promises: each kind has a bit of its own, and there are `count` kinds.
  pub record IsLawful : Type 0 where
    pub same_iff : (k l : e.EventKind) → (e.same k l ≡ true) ↔ (k ≡ l)
    pub has_bit-events_to_mask :
        (ks : List (e.EventKind)) (k : e.EventKind) → has_bit (e.events_to_mask ks) k ≡ member k ks
    pub has_bit-all_bits : (k : e.EventKind) → has_bit e.all_bits k ≡ true
    pub every_kind :
        (ks : List (e.EventKind)) (k : e.EventKind)
        → Distinct ks
        → length ks ≡ e.count
        → member k ks ≡ true
