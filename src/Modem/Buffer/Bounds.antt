-- ===== src/Modem/Buffer/Bounds.antt =====
-- What the line buffer retains: a partial line with no newline in it, within the maximal size.
use sms_server.Base.{
  ℕ, zero, suc, ◌-◌, ◌≤◌, ◌≡◌, refl, ap, ◌∙◌, false, [], ◌∷◌, ◌++◌, inl, inr, none, All, arith, ltb,
  Bool-cases, length, length-drop, take, drop, Bytes,
}
use sms_server.Text.{rfind}
use sms_server.Modem.Buffer.{LineBuffer, is_newline, truncate, process_data}
use sms_server.Modem.Buffer.Automaton.{Auto, partial, next, final}
use sms_server.Modem.Buffer.Refinement.{process_data-Auto}

-- No byte ends a line.
abbrev pub IsUnbroken : Bytes → Type 0
IsUnbroken = All (λ b. is_newline b ≡ false)

IsUnbroken-snoc :
    (xs : Bytes) (b : ℕ) → IsUnbroken xs → is_newline b ≡ false → IsUnbroken (xs ++ b ∷ [])
IsUnbroken-snoc [] b h n = (n, tt)
IsUnbroken-snoc (x ∷ xs) b h n = (h.0, IsUnbroken-snoc xs b h.1 n)

next-IsUnbroken : (a : Auto) (b : ℕ) → IsUnbroken a.segment → IsUnbroken (next a b).segment
unfolding next
next-IsUnbroken a b h = ground (arith, IsUnbroken-snoc a.segment b h)

final-IsUnbroken : (a : Auto) (bs : Bytes) → IsUnbroken a.segment → IsUnbroken (final a bs).segment
unfolding final
final-IsUnbroken a [] h = h
final-IsUnbroken a (b ∷ bs) h = final-IsUnbroken (next a b) bs (next-IsUnbroken a b h)

IsUnbroken-drop : (n : ℕ) (xs : Bytes) → IsUnbroken xs → IsUnbroken (drop n xs)
IsUnbroken-drop zero xs h = h
IsUnbroken-drop (suc n) [] h = h
IsUnbroken-drop (suc n) (x ∷ xs) h = IsUnbroken-drop n xs h.1

rfind-IsUnbroken : (n : ℕ) (xs : Bytes) → IsUnbroken xs → rfind b'\n' (take n xs) ≡ none
unfolding rfind
rfind-IsUnbroken zero xs h = refl
rfind-IsUnbroken (suc n) [] h = refl
rfind-IsUnbroken (suc n) (x ∷ xs) h = ground (arith, rfind-IsUnbroken n xs h.1)

-- The search for a newline never succeeds, so a long partial line is cut at the raw offset.
truncate-drop : (max : ℕ) (xs : Bytes) → IsUnbroken xs → truncate max xs ≡ drop (length xs - max) xs
unfolding truncate
truncate-drop max xs h = elim (Bool-cases (ltb max (length xs))) [
  | inl long ↦ rw (long, rfind-IsUnbroken (length xs - max) xs h)
  | inr short ↦ let fits : length xs - max ≡ 0 = ground arith in rw (short, fits)
]

-- The partial line before the cut.
abbrev pub pending : LineBuffer → Bytes → Bytes
pending b bytes = (final (partial []) (b.buffer ++ bytes)).segment

pub buffer-process_data :
    (b : LineBuffer) (bytes : Bytes)
    → (process_data b bytes).0.buffer
      ≡ drop (length (pending b bytes) - b.max_buffer_size) (pending b bytes)
buffer-process_data b bytes =
    ap (λ (l : LineBuffer). l.buffer) (process_data-Auto b bytes).1
    ∙ truncate-drop b.max_buffer_size (pending b bytes)
        (final-IsUnbroken (partial []) (b.buffer ++ bytes) tt)

-- Whatever the buffer held and whatever bytes arrive, what `process_data` retains is at most
-- the maximal size and holds no carriage return or newline, and the maximal size is unchanged.
pub process_data_bounded :
    (b : LineBuffer) (bytes : Bytes)
    → (length (process_data b bytes).0.buffer ≤ b.max_buffer_size)
      × IsUnbroken (process_data b bytes).0.buffer
      × ((process_data b bytes).0.max_buffer_size ≡ b.max_buffer_size)
process_data_bounded b bytes =
    let p = pending b bytes in
    let e = buffer-process_data b bytes in
    (
      rw e (omega (arith, length-drop (length p - b.max_buffer_size) p)),
      rw e (
          IsUnbroken-drop (length p - b.max_buffer_size) p
            (final-IsUnbroken (partial []) (b.buffer ++ bytes) tt)),
      ap (λ (l : LineBuffer). l.max_buffer_size) (process_data-Auto b bytes).1,
    )
