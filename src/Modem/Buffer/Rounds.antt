-- ===== src/Modem/Buffer/Rounds.antt =====
-- One round of the loop of `process_data`, by the split of the buffer where it stands.
use Prim.Native.Nat.{◌≤◌}
use sms_server.Base.{
  ℕ, zero, suc, ◌+◌, ◌-◌, ◌≡◌, refl, sym, ap, subst, ◌∙◌, Bool, true, false, ◌&&◌, List, [], ◌∷◌,
  ◌++◌, append-nil, append_assoc, none, some, arith, ◌==◌, if◌then◌else◌, length, length-append,
  get_elem?, drop-append, take-append, All, get_elem?-append_length, get_elem?_end, Bytes,
}
use sms_server.Text.{is_ascii_whitespace, is_whitespace, trim, trim_start, trim_end}
use sms_server.Text.Utf8.{from_utf8-IsAscii, IsAscii}
use sms_server.Modem.Buffer.{
  LineEvent, line, prompt, is_newline, is_space, try_create_event, Cursor, skip_while, slice, push,
  is_prompt, advance,
}
use sms_server.Modem.Buffer.Automaton.{partial, after_prompt, is_nil, next, emit, final, events_of}

-- The longest run of bytes that pass a test, and what follows it.
abbrev pub prefix : (ℕ → Bool) → Bytes → Bytes
prefix test [] = []
prefix test (b ∷ bs) = if test b then b ∷ prefix test bs else []

abbrev pub suffix : (ℕ → Bool) → Bytes → Bytes
suffix test [] = []
suffix test (b ∷ bs) = if test b then suffix test bs else b ∷ bs

prefix-append-suffix : (test : ℕ → Bool) (bs : Bytes) → prefix test bs ++ suffix test bs ≡ bs
prefix-append-suffix test [] = refl
prefix-append-suffix test (b ∷ bs) = ground (arith, prefix-append-suffix test bs)

pub length-suffix : (test : ℕ → Bool) (bs : Bytes) → length (suffix test bs) ≤ length bs
length-suffix test [] = omega arith
length-suffix test (b ∷ bs) = ground (arith, length-suffix test bs)

pub get_at :
    {buf : Bytes} (xs : Bytes) (b : ℕ) (ys : Bytes) (i : ℕ)
    → buf ≡ xs ++ (b ∷ ys)
    → i ≡ length xs
    → get_elem? buf i ≡ some b
get_at xs b ys i e p = rw (e, p) (get_elem?-append_length xs b ys)

pub get_at_end :
    {buf : Bytes} (xs : Bytes) (i : ℕ) → buf ≡ xs ++ [] → i ≡ length xs → get_elem? buf i ≡ none
get_at_end xs i e p = rw (e, p, append-nil) (get_elem?_end xs)

-- The inner loops stop behind the run.
skip_while-prefix :
    (test : ℕ → Bool) (rest xs : Bytes) {buf : Bytes} (f i : ℕ)
    → buf ≡ xs ++ rest
    → i ≡ length xs
    → length rest ≤ f
    → skip_while f test buf i ≡ length xs + length (prefix test rest)
unfolding skip_while
skip_while-prefix test [] xs zero i e p h = omega arith
skip_while-prefix test [] xs (suc f) i e p h = ground (arith, get_at_end xs i e p)
skip_while-prefix test (b ∷ bs) xs zero i e p h = absurd (omega arith)
skip_while-prefix test (b ∷ bs) xs (suc f) i e p h =
    let e' = e ∙ sym (append_assoc xs (b ∷ []) bs) in
    ground (
      arith,
      get_at xs b bs i e p,
      skip_while-prefix test bs (xs ++ b ∷ []) f (i + 1) e',
      length-append xs (b ∷ []),
    )

slice-segment :
    {buf : Bytes} (pre seg rest : Bytes) (start i : ℕ)
    → buf ≡ pre ++ (seg ++ rest)
    → start ≡ length pre
    → i ≡ length pre + length seg
    → slice buf start i ≡ seg
slice-segment pre seg rest start i e p q =
    let n : length pre + length seg - length pre ≡ length seg = omega arith in
    rw (e, p, q, n, drop-append pre (seg ++ rest)) (take-append seg rest)

pub record At (buf pre seg rest : Bytes) (c : Cursor) : Type 0 where
  pub splits : buf ≡ pre ++ (seg ++ rest)
  pub start_at : c.start ≡ length pre
  pub i_at : c.i ≡ length pre + length seg
  pub unbroken : All (λ b. is_newline b ≡ false) seg

-- Where the loop stands again behind a run that starts a new line.
pub At-skip :
    {buf : Bytes} (test : ℕ → Bool) (pre rest : Bytes) (i : ℕ) (events : List LineEvent)
    → buf ≡ pre ++ rest
    → i ≡ length pre
    → let i' = skip_while (length buf) test buf i in
      At buf
        (pre ++ prefix test rest)
        []
        (suffix test rest)
        (record { start = i'; i = i'; events = events })
At-skip {buf} test pre rest i events e p =
    let fuel : length rest ≤ length buf = rw e (omega (arith, length-append pre rest)) in
    let stop = skip_while-prefix test rest pre (length buf) i e p fuel in
    record {
      splits =
          e
          ∙ ap (◌++◌ pre) (sym (prefix-append-suffix test rest))
          ∙ sym (append_assoc pre (prefix test rest) (suffix test rest));
      start_at = omega (arith, stop, length-append pre (prefix test rest));
      i_at = omega (arith, stop, length-append pre (prefix test rest));
      unbroken = tt;
    }

-- More newlines change nothing at the start of a line.
pub skip_newlines :
    (bs : Bytes)
    → (events_of (partial []) (suffix is_newline bs) ≡ events_of (partial []) bs)
      × (final (partial []) (suffix is_newline bs) ≡ final (partial []) bs)
unfolding events_of final next emit try_create_event
skip_newlines [] = (refl, refl)
skip_newlines (b ∷ bs) = ground (arith, skip_newlines bs)

-- Spaces behind a prompt belong to it.
pub skip_spaces :
    (bs : Bytes)
    → (events_of (partial []) (suffix is_space bs) ≡ events_of after_prompt bs)
      × ((final (partial []) (suffix is_space bs)).segment ≡ (final after_prompt bs).segment)
unfolding events_of final next emit
skip_spaces [] = (refl, refl)
skip_spaces (b ∷ bs) = ground (arith, skip_spaces bs)

IsAscii-spaces : (bs : Bytes) → IsAscii (prefix is_space bs)
IsAscii-spaces [] = tt
IsAscii-spaces (b ∷ bs) = ground (arith, IsAscii-spaces bs)

trim_end-spaces : (bs : Bytes) → trim_end (prefix is_space bs) ≡ []
unfolding trim_end is_whitespace
trim_end-spaces [] = refl
trim_end-spaces (b ∷ bs) = ground (arith, trim_end-spaces bs)

-- Whatever spaces follow the `>`, the prompt reads `>`.
prompt_text :
    (bs : Bytes) → try_create_event (b'>' ∷ prefix is_space bs) prompt ≡ some (prompt (b'>' ∷ []))
unfolding try_create_event is_ascii_whitespace trim trim_start is_whitespace
prompt_text bs =
    rw (from_utf8-IsAscii (b'>' ∷ prefix is_space bs) (omega arith, IsAscii-spaces bs))
      (unfold trim_end in ground (arith, trim_end-spaces bs))

All-snoc : (P : ℕ → Type 0) (xs : Bytes) {y : ℕ} → All P xs → P y → All P (xs ++ y ∷ [])
All-snoc P [] h k = (k, tt)
All-snoc P (x ∷ xs) h k = (h.0, All-snoc P xs h.1 k)

All-last : (P : ℕ → Type 0) (xs : Bytes) (y : ℕ) → All P (xs ++ y ∷ []) → P y
All-last P [] y h = h.0
All-last P (x ∷ xs) y h = All-last P xs y h.1

last_split : (x : ℕ) (xs : Bytes) → (s : Bytes) × (y : ℕ) × (x ∷ xs ≡ s ++ y ∷ [])
last_split x [] = ([], x, refl)
last_split x (y ∷ ys) = let (s, z, e) = last_split y ys in (x ∷ s, z, ap (◌∷◌ x) e)

-- The test for a prompt holds just at the start of a line.
is_prompt-is_nil :
    {buf : Bytes} (pre seg rest : Bytes) (c : Cursor)
    → At buf pre seg rest c
    → is_prompt buf c ≡ is_nil seg
is_prompt-is_nil pre [] rest c at = ground arith
is_prompt-is_nil pre (x ∷ xs) rest c at =
    let (s, y, e) = last_split x xs in
    let n : suc (length xs) ≡ length s + 1 = ap length e ∙ length-append s (y ∷ []) in
    let e' : _ ≡ (pre ++ s) ++ (y ∷ rest) =
      at.splits ∙ ap (λ z. pre ++ (z ++ rest)) e ∙ simp append_assoc in
    let there =
      get_at (pre ++ s) y rest (c.i - 1) e' (omega (arith, at.i_at, length-append pre s, n)) in
    let unbroken = All-last (λ b. is_newline b ≡ false) s y (subst (All _) e at.unbroken) in
    ground (arith, there)

-- One round on a byte that neither ends a line nor is a prompt.
pub advance_step :
    {buf : Bytes} (pre seg : Bytes) (b : ℕ) (rest : Bytes) (c : Cursor)
    → At buf pre seg (b ∷ rest) c
    → is_newline b ≡ false
    → (is_nil seg && b == b'>') ≡ false
    → advance buf b c ≡ record c { i = c.i + 1 }
unfolding advance
advance_step pre seg b rest c at n p = ground (arith, is_prompt-is_nil pre seg (b ∷ rest) c at)

pub At-step :
    {buf : Bytes} (pre seg : Bytes) (b : ℕ) (rest : Bytes) (c : Cursor)
    → At buf pre seg (b ∷ rest) c
    → is_newline b ≡ false
    → At buf pre (seg ++ b ∷ []) rest (record c { i = c.i + 1 })
At-step pre seg b rest c at n = record {
  splits = at.splits ∙ ap (◌++◌ pre) (sym (append_assoc seg (b ∷ []) rest));
  start_at = at.start_at;
  i_at = omega (arith, at.i_at, length-append seg (b ∷ []));
  unbroken = All-snoc (λ b. is_newline b ≡ false) seg at.unbroken n;
}

try_create_event_nil : try_create_event [] line ≡ none
unfolding try_create_event
try_create_event_nil = refl

-- One round at the end of a line.
pub advance_newline :
    {buf : Bytes} (pre seg : Bytes) (b : ℕ) (rest : Bytes) (c : Cursor)
    → At buf pre seg (b ∷ rest) c
    → is_newline b ≡ true
    → let i' = skip_while (length buf) is_newline buf c.i in
      advance buf b c
      ≡ record { start = i'; i = i'; events = push c.events (try_create_event seg line) }
unfolding advance
advance_newline pre [] b rest c at n = ground (arith, try_create_event_nil)
advance_newline pre (x ∷ xs) b rest c at n =
    ground (arith, slice-segment pre (x ∷ xs) (b ∷ rest) c.start c.i at.splits at.start_at at.i_at)

-- One round at a prompt.
pub advance_prompt :
    {buf : Bytes} (pre : Bytes) (b : ℕ) (rest : Bytes) (c : Cursor)
    → At buf pre [] (b ∷ rest) c
    → is_newline b ≡ false
    → (b == b'>') ≡ true
    → let i' = skip_while (length buf) is_space buf (c.i + 1) in
      advance buf b c ≡ record { start = i'; i = i'; events = c.events ++ prompt (b'>' ∷ []) ∷ [] }
unfolding advance
advance_prompt {buf} pre b rest c at n q =
    let mark : b ≡ b'>' = ground arith in
    let e : buf ≡ (pre ++ b'>' ∷ []) ++ rest =
      at.splits ∙ ap (λ x. pre ++ (x ∷ rest)) mark ∙ sym (append_assoc pre (b'>' ∷ []) rest) in
    let i' = skip_while (length buf) is_space buf (c.i + 1) in
    let fuel : length rest ≤ length buf =
      omega (arith, ap length e, length-append (pre ++ b'>' ∷ []) rest) in
    let next_at : c.i + 1 ≡ length (pre ++ b'>' ∷ []) =
      omega (arith, at.i_at, length-append pre (b'>' ∷ [])) in
    let stop : i' ≡ length (pre ++ b'>' ∷ []) + length (prefix is_space rest) =
      skip_while-prefix is_space rest (pre ++ b'>' ∷ []) (length buf) (c.i + 1) e next_at fuel in
    let split : buf ≡ pre ++ ((b'>' ∷ prefix is_space rest) ++ suffix is_space rest) =
      at.splits
      ∙ ap (λ x. pre ++ (x ∷ rest)) mark
      ∙ ap (λ z. pre ++ (b'>' ∷ z)) (sym (prefix-append-suffix is_space rest)) in
    let cut : slice buf c.start i' ≡ b'>' ∷ prefix is_space rest =
      slice-segment pre (b'>' ∷ prefix is_space rest) (suffix is_space rest) c.start i' split
        at.start_at (omega (arith, stop, length-append pre (b'>' ∷ []))) in
    ground (arith, is_prompt-is_nil pre [] (b ∷ rest) c at, cut, prompt_text rest)
