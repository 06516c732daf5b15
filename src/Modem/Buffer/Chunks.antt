-- ===== src/Modem/Buffer/Chunks.antt =====
-- How the serial port cuts the stream into reads does not matter.
use sms_server.Base.{
  ℕ, ◌+◌, ◌-◌, ◌≤◌, ◌≡◌, refl, sym, ap, ◌∙◌, Bool, true, false, not, ◌||◌, List, [], ◌∷◌, ◌++◌, All,
  arith, ◌==◌, length, length-append, Bytes,
}
use sms_server.Modem.Buffer.{LineEvent, LineBuffer, is_space, with_max_size, process_data}
use sms_server.Modem.Buffer.Automaton.{
  Auto, partial, next, emit, final, events_of, final-append, events_of-append,
}
use sms_server.Modem.Buffer.Refinement.{process_data-Auto}
use sms_server.Modem.Buffer.Bounds.{pending, buffer-process_data}

-- The reads of the worker's loop, one after the other.
unfoldable pub feed : LineBuffer → List Bytes → LineBuffer × List LineEvent
feed b [] = (b, [])
feed b (chunk ∷ chunks) =
    let (b', events) = process_data b chunk in
    let (b'', later) = feed b' chunks in (b'', events ++ later)

abbrev concat : List Bytes → Bytes
concat [] = []
concat (chunk ∷ chunks) = chunk ++ concat chunks

-- A read that does not end behind a prompt: its last byte is neither `>` nor a space.
abbrev ends_clear : Bytes → Bool
ends_clear [] = true
ends_clear (b ∷ []) = not (b == b'>' || is_space b)
ends_clear (b ∷ c ∷ bs) = ends_clear (c ∷ bs)

-- What is retained can be read again: it gives no event and is the partial line again.
record IsPartial (s : Bytes) : Type 0 where
  silent : events_of (partial []) s ≡ []
  again : final (partial []) s ≡ partial s

next_clear : (a : Auto) (b : ℕ) → ends_clear (b ∷ []) ≡ true → (next a b).prompted ≡ false
unfolding next
next_clear a b h = ground arith

final_clear :
    (a : Auto) (bs : Bytes)
    → a.prompted ≡ false
    → ends_clear bs ≡ true
    → (final a bs).prompted ≡ false
unfolding final
final_clear a [] p h = p
final_clear a (b ∷ []) p h = next_clear a b h
final_clear a (b ∷ c ∷ bs) p h = final_clear_cons (next a b) c bs h
  where
    final_clear_cons :
        (a : Auto) (c : ℕ) (bs : Bytes)
        → ends_clear (c ∷ bs) ≡ true
        → (final a (c ∷ bs)).prompted ≡ false
    final_clear_cons a c [] h = next_clear a c h
    final_clear_cons a c (d ∷ bs) h = final_clear_cons (next a c) d bs h

IsPartial-nil : IsPartial []
unfolding events_of final
IsPartial-nil = record { silent = refl; again = refl }

IsPartial-snoc :
    (s : Bytes) (b : ℕ)
    → IsPartial s
    → emit (partial s) b ≡ []
    → next (partial s) b ≡ partial (s ++ b ∷ [])
    → IsPartial (s ++ b ∷ [])
IsPartial-snoc s b h e n = record {
  silent =
      events_of-append (partial []) s (b ∷ [])
      ∙ rw (h.silent, h.again) (unfold events_of in rw (e));
  again = final-append (partial []) s (b ∷ []) ∙ rw h.again (unfold final in n);
}

next-IsPartial : (a : Auto) (b : ℕ) → IsPartial a.segment → IsPartial (next a b).segment
unfolding next emit
next-IsPartial a b h = ground (arith, IsPartial-nil, IsPartial-snoc a.segment b h)

final-IsPartial : (a : Auto) (bs : Bytes) → IsPartial a.segment → IsPartial (final a bs).segment
unfolding final
final-IsPartial a [] h = h
final-IsPartial a (b ∷ bs) h = final-IsPartial (next a b) bs (next-IsPartial a b h)

length-next : (a : Auto) (b : ℕ) → length (next a b).segment ≤ length a.segment + 1
unfolding next
length-next a b = ground (arith, length-append a.segment (b ∷ []))

length-final : (a : Auto) (bs : Bytes) → length (final a bs).segment ≤ length a.segment + length bs
unfolding final
length-final a [] = omega arith
length-final a (b ∷ bs) = omega (arith, length-final (next a b) bs, length-next a b)

-- One read from a retained partial line, when it fits.
process_data-IsPartial :
    (b : LineBuffer) (chunk : Bytes)
    → IsPartial b.buffer
    → length b.buffer + length chunk ≤ b.max_buffer_size
    → process_data b chunk ≡ (
      record b { buffer = (final (partial b.buffer) chunk).segment },
      events_of (partial b.buffer) chunk,
    )
process_data-IsPartial b chunk h fits =
    let resumed : final (partial []) (b.buffer ++ chunk) ≡ final (partial b.buffer) chunk =
      final-append (partial []) b.buffer chunk ∙ rw h.again in
    let events : events_of (partial []) (b.buffer ++ chunk) ≡ events_of (partial b.buffer) chunk =
      events_of-append (partial []) b.buffer chunk ∙ rw (h.silent, h.again) in
    let whole : length (pending b chunk) - b.max_buffer_size ≡ 0 =
      omega (
        arith,
        ap (λ (a : Auto). length a.segment) resumed,
        length-final (partial b.buffer) chunk,
      ) in
    let kept : (process_data b chunk).0.buffer ≡ (final (partial b.buffer) chunk).segment =
      buffer-process_data b chunk ∙ rw whole (ap (λ (a : Auto). a.segment) resumed) in
    let auto = process_data-Auto b chunk in
    let same : (process_data b chunk).0 ≡ record b { buffer = (process_data b chunk).0.buffer } =
      rw auto.1 in
    λ i. ((same ∙ ap (λ s. record b { buffer = s }) kept) i, (auto.0 ∙ events) i)

-- A state with no prompt behind it is its partial line.
partial_eta : (a : Auto) → a.prompted ≡ false → a ≡ partial a.segment
partial_eta a h = λ i. record { segment = a.segment; prompted = h i }

feed-Auto :
    (b : LineBuffer) (chunks : List Bytes)
    → IsPartial b.buffer
    → All (λ chunk. ends_clear chunk ≡ true) chunks
    → length b.buffer + length (concat chunks) ≤ b.max_buffer_size
    → feed b chunks ≡ (
      record b { buffer = (final (partial b.buffer) (concat chunks)).segment },
      events_of (partial b.buffer) (concat chunks),
    )
unfolding feed
feed-Auto b [] h c fits = unfold events_of final in refl
feed-Auto b (chunk ∷ chunks) h c fits =
    let a = final (partial b.buffer) chunk in
    let b' : LineBuffer = record b { buffer = a.segment } in
    let clear : a ≡ partial a.segment =
      partial_eta a (final_clear (partial b.buffer) chunk refl c.0) in
    let room : length b.buffer + length chunk ≤ b.max_buffer_size =
      omega (arith, length-append chunk (concat chunks)) in
    let later =
      feed-Auto b' chunks (final-IsPartial (partial b.buffer) chunk h) c.1 (
        omega
          (arith, length-append chunk (concat chunks), length-final (partial b.buffer) chunk)) in
    let whole : final (partial b.buffer) (chunk ++ concat chunks)
        ≡ final (partial a.segment) (concat chunks) =
      final-append (partial b.buffer) chunk (concat chunks)
      ∙ ap (λ z. final z (concat chunks)) clear in
    let events : events_of (partial b.buffer) (chunk ++ concat chunks)
        ≡ events_of (partial b.buffer) chunk ++ events_of (partial a.segment) (concat chunks) =
      events_of-append (partial b.buffer) chunk (concat chunks)
      ∙ ap (λ z. events_of (partial b.buffer) chunk ++ events_of z (concat chunks)) clear in
    rw (process_data-IsPartial b chunk h room, later, whole, events)

-- For a fresh buffer of any maximal size and any cut of the stream into reads, of which none ends
-- in `>` or a space and which fit in the buffer together: reading them one after the other gives
-- the same events, and leaves the same buffer, as reading all the bytes at once.
pub feed-concat :
    (max : ℕ) (chunks : List Bytes)
    → All (λ chunk. ends_clear chunk ≡ true) chunks
    → length (concat chunks) ≤ max
    → feed (with_max_size max) chunks ≡ process_data (with_max_size max) (concat chunks)
unfolding with_max_size
feed-concat max chunks c fits =
    let fresh : LineBuffer = record { buffer = []; max_buffer_size = max } in
    feed-Auto fresh chunks IsPartial-nil c (omega arith)
    ∙ sym (process_data-IsPartial fresh (concat chunks) IsPartial-nil (omega arith))
