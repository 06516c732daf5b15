-- ===== src/Text/Laws.antt =====
-- Equality of texts, decided.
use sms_server.Base.{◌≡◌, refl, ap, ◌∙◌, Bool-cases, inl, inr, true, false, [], ◌∷◌, arith, Text}
use sms_server.Text.{equal, trim, trim_start, trim_end, is_whitespace, cons_unless_blank}

pub equal→≡ : (s t : Text) → equal s t ≡ true → s ≡ t
unfolding equal
equal→≡ [] [] h = refl
equal→≡ [] (d ∷ t) h = cc
equal→≡ (c ∷ s) [] h = cc
equal→≡ (c ∷ s) (d ∷ t) h = ground (arith, equal→≡ s t)

pub equal_refl : (s : Text) → equal s s ≡ true
unfolding equal
equal_refl [] = refl
equal_refl (c ∷ s) = ground (arith, equal_refl s)

pub equal_sym : (s t : Text) → equal s t ≡ equal t s
unfolding equal
equal_sym [] [] = refl
equal_sym [] (d ∷ t) = refl
equal_sym (c ∷ s) [] = refl
equal_sym (c ∷ s) (d ∷ t) = ground (arith, equal_sym s t)

-- Equal texts are interchangeable in a test.
pub equal-congruence : (s t u : Text) → equal s t ≡ true → equal s u ≡ equal t u
equal-congruence s t u h = ap (λ v. equal v u) (equal→≡ s t h)

trim_end_idempotent : (s : Text) → trim_end (trim_end s) ≡ trim_end s
unfolding trim_end
trim_end_idempotent [] = refl
trim_end_idempotent (c ∷ cs) = of_rest (trim_end cs) (trim_end_idempotent cs)
  where
    of_rest : (t : Text) → trim_end t ≡ t → trim_end (cons_unless_blank c t) ≡ cons_unless_blank c t
    of_rest [] h = elim (Bool-cases (is_whitespace c)) [
      | inl b ↦ rw b refl
      | inr b ↦ rw b (rw b refl)
    ]
    of_rest (d ∷ ds) h = rw h refl

-- What `trim_start` leaves, `trim_end` does not begin with a blank.
trim_start-trim_end : (s : Text) → trim_start (trim_end (trim_start s)) ≡ trim_end (trim_start s)
unfolding trim_start trim_end
trim_start-trim_end [] = refl
trim_start-trim_end (c ∷ cs) = elim (Bool-cases (is_whitespace c)) [
  | inl b ↦ rw b (trim_start-trim_end cs)
  | inr b ↦ rw b (of_rest (trim_end cs) b)
]
  where
    of_rest :
        (t : Text)
        → is_whitespace c ≡ false
        → trim_start (cons_unless_blank c t) ≡ cons_unless_blank c t
    of_rest [] h = rw h (rw h refl)
    of_rest (d ∷ ds) h = rw h refl

pub trim_idempotent : (s : Text) → trim (trim s) ≡ trim s
unfolding trim
trim_idempotent s = ap trim_end (trim_start-trim_end s) ∙ trim_end_idempotent (trim_start s)
