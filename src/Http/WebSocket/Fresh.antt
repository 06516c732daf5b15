-- ===== src/Http/WebSocket/Fresh.antt =====
-- The loop for a new id ends.
use sms_server.Base.{
  ℕ, zero, suc, ◌+◌, ◌≤◌, ◌<◌, ◌≡◌, refl, Bool, true, false, List, [], ◌∷◌, Option, some, arith,
  length, Bool-cases, ◌⊎◌, inl, inr, if◌then◌else◌, Text,
}
use sms_server.Text.{equal}
use sms_server.Text.Laws.{equal-congruence}
use sms_server.Events.{EventTypes}
use sms_server.Http.WebSocket.{StoredConnection, contains_key, connection, add_connection}

-- How many of `n` numbers, from `i` on, pass the test.
passing : (ℕ → Bool) → ℕ → ℕ → ℕ
passing test zero i = 0
passing test (suc n) i = (if test i then 1 else 0) + passing test n (suc i)

module _ (ids : ℕ → Text) (distinct : (i j : ℕ) → equal (ids i) (ids j) ≡ true → i ≡ j) where
  -- Behind a match there is no other.
  passing_none :
      (id : Text) (k n i : ℕ)
      → equal id (ids k) ≡ true
      → k < i
      → passing (λ j. equal id (ids j)) n i ≡ 0
  unfolding passing
  passing_none id k zero i h lt = refl
  passing_none id k (suc n) i h lt = ground (
    arith,
    passing_none id k n (suc i) h (omega arith),
    equal-congruence id (ids k) (ids i) h,
    distinct k i,
  )

  passing_one : (id : Text) (n i : ℕ) → passing (λ j. equal id (ids j)) n i ≤ 1
  unfolding passing
  passing_one id zero i = omega arith
  passing_one id (suc n) i = elim (Bool-cases (equal id (ids i))) [
    | inl h ↦ rw h (omega (arith, passing_none id i n (suc i) h (omega arith)))
    | inr h ↦ rw h (omega (arith, passing_one id n (suc i)))
  ]

  passing-cons :
      (c : StoredConnection) (cs : List StoredConnection) (n i : ℕ)
      → passing (λ j. contains_key (ids j) (c ∷ cs)) n i
        ≤ passing (λ j. equal c.id (ids j)) n i + passing (λ j. contains_key (ids j) cs) n i
  unfolding passing contains_key
  passing-cons c cs zero i = omega arith
  passing-cons c cs (suc n) i = ground (arith, passing-cons c cs n (suc i))

  passing_nil : (n i : ℕ) → passing (λ j. contains_key (ids j) []) n i ≤ 0
  unfolding passing contains_key
  passing_nil zero i = omega arith
  passing_nil (suc n) i = omega (arith, passing_nil n (suc i))

  -- Each connection takes at most one of the ids.
  passing-contains_key :
      (cs : List StoredConnection) (n i : ℕ)
      → passing (λ j. contains_key (ids j) cs) n i ≤ length cs
  passing-contains_key [] n i = passing_nil n i
  passing-contains_key (c ∷ cs) n i =
      omega (arith, passing-cons c cs n i, passing_one c.id n i, passing-contains_key cs n i)

module _ (e : EventTypes) (ids : ℕ → Text) (tx : ℕ) (events : Option (List (e.EventKind))) where
  abbrev pub IsAdded : List StoredConnection → Option (Text × List StoredConnection) → Type 0
  IsAdded cs added =
      (id : Text) × (added ≡ some (id, connection e id tx events ∷ cs))
      × (contains_key id cs ≡ false)

  -- Either a round finds a new id, or each round finds one that is taken.
  add_connection-IsAdded :
      (fuel i : ℕ) (cs : List StoredConnection)
      → IsAdded cs (add_connection e ids fuel tx events i cs)
        ⊎ (passing (λ j. contains_key (ids j) cs) fuel i ≡ fuel)
  unfolding add_connection passing
  add_connection-IsAdded zero i cs = inr refl
  add_connection-IsAdded (suc fuel) i cs = elim (Bool-cases (contains_key (ids i) cs)) [
    | inr h ↦ inl (ids i, rw h refl, h)
    | inl h ↦ elim (add_connection-IsAdded fuel (suc i) cs) [
      | inl (id, added, fresh) ↦ inl (id, rw h added, fresh)
      | inr taken ↦ inr (rw h (omega (arith, taken)))
    ]
  ]

  -- If the generator never gives the same id twice, then the loop of `add_connection` ends within
  -- one more round than there are connections, and adds the connection, with the mask of its
  -- events, under an id that was not in use.
  pub add_connection-total :
      ((i j : ℕ) → equal (ids i) (ids j) ≡ true → i ≡ j)
      → (i : ℕ) (cs : List StoredConnection)
      → IsAdded cs (add_connection e ids (suc (length cs)) tx events i cs)
  add_connection-total distinct i cs = elim (add_connection-IsAdded (suc (length cs)) i cs) [
    | inl added ↦ added
    | inr taken ↦
        absurd (omega (arith, taken, passing-contains_key ids distinct cs (suc (length cs)) i))
  ]
