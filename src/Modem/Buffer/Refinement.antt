-- ===== src/Modem/Buffer/Refinement.antt =====
-- The loop of `process_data`, with its indices and its inner loops, computes what the automaton
-- reads from the same bytes.
use Prim.Native.Nat.{◌≤◌}
use sms_server.Base.{
  ℕ, zero, suc, ◌+◌, ◌≡◌, refl, sym, ap, ◌∙◌, inl, inr, true, false, ◌&&◌, List, [], ◌∷◌, ◌++◌,
  append-nil, append_assoc, Option, none, some, arith, ◌==◌, Bool-cases, length, length-append,
  drop, drop-append, Bytes,
}
use sms_server.Modem.Buffer.{
  LineEvent, line, prompt, LineBuffer, is_newline, is_space, try_create_event, Cursor, skip_while,
  push, advance, scan, begin, process_data, truncate,
}
use sms_server.Modem.Buffer.Rounds.{
  prefix, suffix, length-suffix, get_at, get_at_end, At, At-skip, At-step, skip_newlines,
  skip_spaces, advance_step, advance_newline, advance_prompt,
}
use sms_server.Modem.Buffer.Automaton.{
  Auto, partial, after_prompt, is_nil, next, emit, final, events_of,
}

-- What the events and the partial line come to.
abbrev Yields : Auto → Bytes → Bytes → List LineEvent → Cursor → Type 0
Yields a rest buf events c =
    (c.events ≡ events ++ events_of a rest) × (drop c.start buf ≡ (final a rest).segment)

Yields-end :
    {buf : Bytes} (pre seg : Bytes) (c : Cursor)
    → At buf pre seg [] c
    → Yields (partial seg) [] buf c.events c
unfolding events_of final
Yields-end pre seg c at =
    (sym (append-nil c.events), rw (at.splits, at.start_at, append-nil) (drop-append pre seg))

-- One byte, then the rest.
Yields-cons :
    (buf : Bytes) (a b' : Auto) (b : ℕ) (rest rest' : Bytes) (events events' : List LineEvent)
    (c : Cursor)
    → Yields b' rest' buf events' c
    → events' ≡ events ++ emit a b
    → events_of b' rest' ≡ events_of (next a b) rest
    → (final b' rest').segment ≡ (final (next a b) rest).segment
    → Yields a (b ∷ rest) buf events c
unfolding events_of final
Yields-cons buf a b' b rest rest' events events' c y p q r = (
  y.0
      ∙ ap (λ z. z ++ events_of b' rest') p
      ∙ ap (◌++◌ (events ++ emit a b)) q
      ∙ append_assoc events (emit a b) (events_of (next a b) rest),
  y.1 ∙ r,
)

emit_newline :
    (seg : Bytes) (b : ℕ)
    → is_newline b ≡ true
    → (next (partial seg) b ≡ partial [])
      × (emit (partial seg) b ≡ push [] (try_create_event seg line))
unfolding next emit
emit_newline seg b n = ground arith

emit_prompt :
    (b : ℕ)
    → is_newline b ≡ false
    → (b == b'>') ≡ true
    → (next (partial []) b ≡ after_prompt) × (emit (partial []) b ≡ prompt (b'>' ∷ []) ∷ [])
unfolding next emit
emit_prompt b n p = ground arith

emit_plain :
    (seg : Bytes) (b : ℕ)
    → is_newline b ≡ false
    → (is_nil seg && b == b'>') ≡ false
    → (next (partial seg) b ≡ partial (seg ++ b ∷ [])) × (emit (partial seg) b ≡ [])
unfolding next emit
emit_plain seg b n p = ground arith

push-append : (events : List LineEvent) (o : Option LineEvent) → push events o ≡ events ++ push [] o
push-append events none = sym (append-nil events)
push-append events (some e) = refl

-- What the loop does with `f` rounds left.
abbrev Goes : ℕ → Bytes → Type 0
Goes f buf =
    (pre seg rest : Bytes) (c : Cursor)
    → At buf pre seg rest c
    → length rest ≤ f
    → Yields (partial seg) rest buf c.events (scan f buf c)

module _ (f : ℕ) (buf : Bytes) (go : Goes f buf) where
  round_newline :
      (pre seg : Bytes) (b : ℕ) (rest : Bytes) (c : Cursor)
      → At buf pre seg (b ∷ rest) c
      → is_newline b ≡ true
      → length rest ≤ f
      → Yields (partial seg) (b ∷ rest) buf c.events (scan f buf (advance buf b c))
  round_newline pre seg b rest c at n h =
      let i' = skip_while (length buf) is_newline buf c.i in
      let events' = push c.events (try_create_event seg line) in
      let c' : Cursor = record { start = i'; i = i'; events = events' } in
      let rest' = suffix is_newline (b ∷ rest) in
      let same : rest' ≡ suffix is_newline rest = rw n in
      let there : At buf ((pre ++ seg) ++ prefix is_newline (b ∷ rest)) [] rest' c' =
        At-skip is_newline (pre ++ seg) (b ∷ rest) c.i events'
          (at.splits ∙ sym (append_assoc pre seg (b ∷ rest)))
          (at.i_at ∙ sym (length-append pre seg)) in
      let fuel : length rest' ≤ f = omega (arith, ap length same, length-suffix is_newline rest) in
      rw (advance_newline pre seg b rest c at n) (
        Yields-cons buf (partial seg) (partial []) b rest rest' c.events events' (scan f buf c')
          (go _ [] rest' c' there fuel)
          (push-append c.events _ ∙ ap (◌++◌ c.events) (sym (emit_newline seg b n).1))
          (rw (same, (emit_newline seg b n).0) (skip_newlines rest).0)
          (rw (same, (emit_newline seg b n).0) (ap (λ a. a.segment) (skip_newlines rest).1)))

  round_prompt :
      (pre : Bytes) (b : ℕ) (rest : Bytes) (c : Cursor)
      → At buf pre [] (b ∷ rest) c
      → is_newline b ≡ false
      → (b == b'>') ≡ true
      → length rest ≤ f
      → Yields (partial []) (b ∷ rest) buf c.events (scan f buf (advance buf b c))
  round_prompt pre b rest c at n p h =
      let i' = skip_while (length buf) is_space buf (c.i + 1) in
      let events' = c.events ++ prompt (b'>' ∷ []) ∷ [] in
      let c' : Cursor = record { start = i'; i = i'; events = events' } in
      let rest' = suffix is_space rest in
      let there : At buf ((pre ++ b ∷ []) ++ prefix is_space rest) [] rest' c' =
        At-skip is_space (pre ++ b ∷ []) rest (c.i + 1) events'
          (at.splits ∙ sym (append_assoc pre (b ∷ []) rest))
          (omega (arith, at.i_at, length-append pre (b ∷ []))) in
      let fuel : length rest' ≤ f = omega (arith, length-suffix is_space rest) in
      rw (advance_prompt pre b rest c at n p) (
        Yields-cons buf (partial []) (partial []) b rest rest' c.events events' (scan f buf c')
          (go _ [] rest' c' there fuel) (ap (◌++◌ c.events) (sym (emit_prompt b n p).1))
          (rw (emit_prompt b n p).0 (skip_spaces rest).0)
          (rw (emit_prompt b n p).0 (skip_spaces rest).1))

  round_plain :
      (pre seg : Bytes) (b : ℕ) (rest : Bytes) (c : Cursor)
      → At buf pre seg (b ∷ rest) c
      → is_newline b ≡ false
      → (is_nil seg && b == b'>') ≡ false
      → length rest ≤ f
      → Yields (partial seg) (b ∷ rest) buf c.events (scan f buf (advance buf b c))
  round_plain pre seg b rest c at n p h =
      let c' : Cursor = record c { i = c.i + 1 } in
      let (same, none_out) = emit_plain seg b n p in
      rw (advance_step pre seg b rest c at n p) (
        Yields-cons buf (partial seg) (partial (seg ++ b ∷ [])) b rest rest c.events c.events
          (scan f buf c') (go pre (seg ++ b ∷ []) rest c' (At-step pre seg b rest c at n) h)
          (rw (none_out, append-nil)) (rw same) (rw same))

  round_other :
      (pre seg : Bytes) (b : ℕ) (rest : Bytes) (c : Cursor)
      → At buf pre seg (b ∷ rest) c
      → is_newline b ≡ false
      → length rest ≤ f
      → Yields (partial seg) (b ∷ rest) buf c.events (scan f buf (advance buf b c))
  round_other pre [] b rest c at n h = elim (Bool-cases (b == b'>')) [
    | inl p ↦ round_prompt pre b rest c at n p h
    | inr p ↦ round_plain pre [] b rest c at n p h
  ]
  round_other pre (x ∷ xs) b rest c at n h = round_plain pre (x ∷ xs) b rest c at n refl h

  round :
      (pre seg : Bytes) (b : ℕ) (rest : Bytes) (c : Cursor)
      → At buf pre seg (b ∷ rest) c
      → length rest ≤ f
      → Yields (partial seg) (b ∷ rest) buf c.events (scan f buf (advance buf b c))
  round pre seg b rest c at h = elim (Bool-cases (is_newline b)) [
    | inl n ↦ round_newline pre seg b rest c at n h
    | inr n ↦ round_other pre seg b rest c at n h
  ]

scan-Yields : (f : ℕ) (buf : Bytes) → Goes f buf
unfolding scan
scan-Yields zero buf pre seg [] c at h = Yields-end pre seg c at
scan-Yields zero buf pre seg (b ∷ rest) c at h = absurd (omega arith)
scan-Yields (suc f) buf pre seg [] c at h =
    rw
      (
        get_at_end (pre ++ seg) c.i (at.splits ∙ sym (append_assoc pre seg []))
            (at.i_at ∙ sym (length-append pre seg)),
        scan,
      )
      (Yields-end pre seg c at)
scan-Yields (suc f) buf pre seg (b ∷ rest) c at h =
    rw
      (
        get_at (pre ++ seg) b rest c.i (at.splits ∙ sym (append_assoc pre seg (b ∷ rest)))
            (at.i_at ∙ sym (length-append pre seg)),
        scan,
      )
      (round f buf (scan-Yields f buf) pre seg b rest c at (omega arith))

-- `process_data` reports the events that the automaton emits from the start of a line over the
-- retained bytes and the new ones, and keeps its partial line, cut to the maximal size.
pub process_data-Auto :
    (b : LineBuffer) (bytes : Bytes)
    → ((process_data b bytes).1 ≡ events_of (partial []) (b.buffer ++ bytes))
      × ((process_data b bytes).0 ≡ record b {
        buffer = truncate b.max_buffer_size (final (partial []) (b.buffer ++ bytes)).segment;
      })
unfolding process_data
process_data-Auto b bytes =
    let all = b.buffer ++ bytes in
    let y : Yields (partial []) all all [] (scan (length all) all begin) =
      scan-Yields (length all) all [] [] all begin
        (record { splits = refl; start_at = refl; i_at = refl; unbroken = tt }) (omega arith) in
    (y.0, rw y.1)
