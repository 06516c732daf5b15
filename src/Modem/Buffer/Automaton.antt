-- ===== src/Modem/Buffer/Automaton.antt =====
-- The line protocol a byte at a time, with no indices: what the loop of `process_data` computes.
use sms_server.Base.{
  ℕ, ◌≡◌, refl, sym, ap, ◌∙◌, Bool, true, false, ◌&&◌, List, [], ◌∷◌, ◌++◌, append_assoc, ◌==◌,
  if◌then◌else◌, Bytes,
}
use sms_server.Modem.Buffer.{LineEvent, line, prompt, is_newline, is_space, push, try_create_event}

-- `segment` is the partial line; `prompted` says that a prompt was just read, whose trailing
-- spaces belong to it.
pub record Auto : Type 0 where
  pub segment : Bytes
  pub prompted : Bool

abbrev pub partial : Bytes → Auto
partial s = record { segment = s; prompted = false }

abbrev pub after_prompt : Auto
after_prompt = record { segment = []; prompted = true }

abbrev pub is_nil : Bytes → Bool
is_nil [] = true
is_nil (c ∷ cs) = false

unfoldable pub next : Auto → ℕ → Auto
next a b =
    if is_newline b
    then partial []
    else if a.prompted && is_space b
    then a
    else if is_nil a.segment && b == b'>'
    then after_prompt
    else partial (a.segment ++ b ∷ [])

unfoldable pub emit : Auto → ℕ → List LineEvent
emit a b =
    if is_newline b
    then push [] (try_create_event a.segment line)
    else if is_nil a.segment && b == b'>'
    then prompt (b'>' ∷ []) ∷ []
    else []

unfoldable pub final : Auto → Bytes → Auto
final a [] = a
final a (b ∷ bs) = final (next a b) bs

unfoldable pub events_of : Auto → Bytes → List LineEvent
events_of a [] = []
events_of a (b ∷ bs) = emit a b ++ events_of (next a b) bs

pub final-append : (a : Auto) (xs ys : Bytes) → final a (xs ++ ys) ≡ final (final a xs) ys
unfolding final
final-append a [] ys = refl
final-append a (x ∷ xs) ys = final-append (next a x) xs ys

pub events_of-append :
    (a : Auto) (xs ys : Bytes)
    → events_of a (xs ++ ys) ≡ events_of a xs ++ events_of (final a xs) ys
unfolding final events_of
events_of-append a [] ys = refl
events_of-append a (x ∷ xs) ys =
    ap (◌++◌ (emit a x)) (events_of-append (next a x) xs ys)
    ∙ sym (append_assoc (emit a x) (events_of (next a x) xs) (events_of (final (next a x) xs) ys))
