-- ===== src/Modem/Buffer/Framing.antt =====
-- Lines that are sent behind one another are read back.
use sms_server.Base.{
  ℕ, ◌≡◌, refl, sym, ap, ◌∙◌, Bool, true, false, not, ◌&&◌, List, [], ◌∷◌, ◌++◌, append-nil,
  append_assoc, map, some, arith, ◌==◌, all, Bytes, Text,
}
use sms_server.Text.{is_ascii_whitespace, trim, equal}
use sms_server.Text.Laws.{equal→≡}
use sms_server.Text.Utf8.{as_bytes}
use sms_server.Text.Utf8.RoundTrip.{is_char, from_utf8-as_bytes}
use sms_server.Modem.Buffer.{
  LineEvent, line, non_empty, is_newline, with_max_size, process_data, truncate, try_create_event,
}
use sms_server.Modem.Buffer.Automaton.{
  Auto, partial, next, emit, final, events_of, final-append, events_of-append,
}
use sms_server.Modem.Buffer.Refinement.{process_data-Auto}

-- The lines as a modem sends them.
abbrev pub frame : List Text → Bytes
frame [] = []
frame (t ∷ ts) = as_bytes t ++ b'\r' ∷ b'\n' ∷ frame ts

abbrev opens_prompt : Bytes → Bool
opens_prompt [] = false
opens_prompt (b ∷ bs) = b == b'>'

-- A line of valid characters, without a newline, blanks at its ends or a prompt at its start, that
-- is not all whitespace.
abbrev pub is_line : Text → Bool
is_line t =
    all is_char t
    && all (λ b. not (is_newline b)) (as_bytes t)
    && not (all is_ascii_whitespace (as_bytes t))
    && not (opens_prompt (as_bytes t))
    && equal (trim t) t

-- From the first state to the second over some bytes, with some events.
record Runs (a : Auto) (bs : Bytes) (a' : Auto) (events : List LineEvent) : Type 0 where
  ends : final a bs ≡ a'
  emits : events_of a bs ≡ events

Runs-append :
    (a : Auto) (xs : Bytes) (a' : Auto) (es : List LineEvent) (ys : Bytes) (a'' : Auto)
    (fs : List LineEvent)
    → Runs a xs a' es
    → Runs a' ys a'' fs
    → Runs a (xs ++ ys) a'' (es ++ fs)
Runs-append a xs a' es ys a'' fs first second = record {
  ends = final-append a xs ys ∙ rw first.ends second.ends;
  emits = events_of-append a xs ys ∙ rw (first.ends, first.emits, second.emits) refl;
}

Runs-cons :
    (a : Auto) (b : ℕ) (bs : Bytes) (a' a'' : Auto) (fs : List LineEvent)
    → next a b ≡ a'
    → emit a b ≡ []
    → Runs a' bs a'' fs
    → Runs a (b ∷ bs) a'' fs
unfolding final events_of
Runs-cons a b bs a' a'' fs n e rest = record {
  ends = ap (λ x. final x bs) n ∙ rest.ends;
  emits = rw (e, n) rest.emits;
}

inside :
    (seg bs : Bytes) (c : ℕ)
    → all (λ b. not (is_newline b)) bs ≡ true
    → Runs (partial (c ∷ seg)) bs (partial (c ∷ seg ++ bs)) []
unfolding final events_of
inside seg [] c h = record { ends = ap (λ s. partial (c ∷ s)) (sym (append-nil seg)); emits = refl }
inside seg (b ∷ bs) c h =
    Runs-cons (partial (c ∷ seg)) b bs (partial (c ∷ seg ++ b ∷ [])) _ []
      (unfold next in ground (arith, h)) (unfold emit in ground (arith, h))
      (rw (← append_assoc seg (b ∷ []) bs) (inside (seg ++ b ∷ []) bs c (ground (arith, h))))

whole :
    (bs : Bytes)
    → all (λ b. not (is_newline b)) bs ≡ true
    → opens_prompt bs ≡ false
    → Runs (partial []) bs (partial bs) []
unfolding final events_of
whole [] h p = record { ends = refl; emits = refl }
whole (b ∷ bs) h p =
    Runs-cons (partial []) b bs (partial (b ∷ [])) (partial (b ∷ bs)) []
      (unfold next in ground (arith, h, p)) (unfold emit in ground (arith, h, p))
      (inside [] bs b (ground (arith, h)))

non_empty_line :
    (t : Text) → all is_ascii_whitespace (as_bytes t) ≡ false → non_empty t line ≡ some (line t)
unfolding as_bytes
non_empty_line [] blank = absurd (ground (arith, blank))
non_empty_line (c ∷ cs) blank = refl

event_of_line : (t : Text) → is_line t ≡ true → try_create_event (as_bytes t) line ≡ some (line t)
unfolding try_create_event
event_of_line t h =
    let dark : all is_ascii_whitespace (as_bytes t) ≡ false = ground (arith, h) in
    let trimmed : trim t ≡ t = equal→≡ (trim t) t (ground (arith, h)) in
    rw (dark, from_utf8-as_bytes t (ground (arith, h)), trimmed) (non_empty_line t dark)

-- The two bytes at a line's end.
line_end :
    (t : Text)
    → is_line t ≡ true
    → Runs (partial (as_bytes t)) (b'\r' ∷ b'\n' ∷ []) (partial []) (line t ∷ [])
unfolding final events_of next emit
line_end t h = record {
  ends = refl;
  emits = rw (event_of_line t h) (unfold try_create_event in refl);
}

frame-Runs :
    (lines : List Text)
    → all is_line lines ≡ true
    → Runs (partial []) (frame lines) (partial []) (map line lines)
unfolding final events_of
frame-Runs [] h = record { ends = refl; emits = refl }
frame-Runs (t ∷ ts) h =
    let first = whole (as_bytes t) (ground (arith, h)) (ground (arith, h)) in
    let ending =
      Runs-append (partial (as_bytes t)) (b'\r' ∷ b'\n' ∷ []) (partial []) (line t ∷ []) (frame ts)
        (partial []) (map line ts) (line_end t (ground (arith, h)))
        (frame-Runs ts (ground (arith, h))) in
    Runs-append (partial []) (as_bytes t) (partial (as_bytes t)) [] (b'\r' ∷ b'\n' ∷ frame ts)
      (partial []) (line t ∷ map line ts) first ending

nothing_truncated : (max : ℕ) → truncate max [] ≡ []
unfolding truncate
nothing_truncated max = ground arith

-- Lines of valid characters, each not all whitespace, without a carriage return or newline in it,
-- blanks at its ends or `>` as its first character: sent with a carriage return and a newline
-- behind each, they come out of a fresh buffer of any size as they are and in order, and nothing
-- is retained.
pub process_data-frame :
    (max : ℕ) (lines : List Text)
    → all is_line lines ≡ true
    → process_data (with_max_size max) (frame lines) ≡ (with_max_size max, map line lines)
unfolding with_max_size
process_data-frame max lines h =
    let (events, kept) = process_data-Auto (with_max_size max) (frame lines) in
    let runs = frame-Runs lines h in
    let empty : truncate max (final (partial []) (frame lines)).segment ≡ [] =
      ap (λ (a : Auto). truncate max a.segment) runs.ends ∙ nothing_truncated max in
    let retained : (process_data (with_max_size max) (frame lines)).0 ≡ with_max_size max =
      kept ∙ ap (λ (s : Bytes). record (with_max_size max) { buffer = s }) empty in
    λ i. (retained i, (events ∙ runs.emits) i)
