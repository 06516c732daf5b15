-- ===== src/Modem/Buffer.antt =====
-- src/modem/buffer.rs: the line buffer that cuts the bytes of the serial port into events.
pub mod Automaton
mod Rounds
pub mod Refinement
pub mod Bounds
pub mod Chunks
pub mod Framing
mod Tests
use sms_server.Base.{
  ℕ, zero, suc, ◌+◌, ◌-◌, Bool, true, false, ◌&&◌, ◌||◌, List, [], ◌∷◌, ◌++◌, Option, none, some,
  ltb, ◌==◌, if◌then◌else◌, length, get_elem?, take, drop, all, Text, Bytes,
}
use sms_server.Text.{is_ascii_whitespace, trim, rfind}
use sms_server.Text.Utf8.{from_utf8, from_utf8_lossy}

pub data LineEvent : Type 0 where
  line : Text → LineEvent
  prompt : Text → LineEvent

pub record LineBuffer : Type 0 where
  pub buffer : Bytes
  pub max_buffer_size : ℕ

unfoldable pub with_max_size : ℕ → LineBuffer
with_max_size size = record { buffer = []; max_buffer_size = size }

unfoldable pub clear : LineBuffer → LineBuffer
clear b = record b { buffer = [] }

abbrev pub is_newline : ℕ → Bool
is_newline b = b == b'\r' || b == b'\n'

abbrev pub is_space : ℕ → Bool
is_space b = b == b' '

abbrev pub non_empty : Text → (Text → LineEvent) → Option LineEvent
non_empty [] constructor = none
non_empty (c ∷ cs) constructor = some (constructor (c ∷ cs))

-- `data.is_empty()` is the case of `all` on no bytes.
unfoldable pub try_create_event : Bytes → (Text → LineEvent) → Option LineEvent
try_create_event bytes constructor =
    if all is_ascii_whitespace bytes then none else (elim (from_utf8 bytes) [
      | some content ↦ non_empty (trim content) constructor
      | none ↦ non_empty (trim (from_utf8_lossy bytes)) constructor
    ])

-- The locals of the loop of `process_data`.
pub record Cursor : Type 0 where
  pub start : ℕ
  pub i : ℕ
  pub events : List LineEvent

abbrev test_at : (ℕ → Bool) → Option ℕ → Bool
test_at test none = false
test_at test (some b) = test b

-- `while i < self.buffer.len() && test(self.buffer[i]) { i += 1 }`
unfoldable pub skip_while : ℕ → (ℕ → Bool) → Bytes → ℕ → ℕ
skip_while zero test buf i = i
skip_while (suc f) test buf i = elim (test_at test (get_elem? buf i)) [
  | true ↦ skip_while f test buf (i + 1)
  | false ↦ i
]

-- `&self.buffer[start..i]`
abbrev pub slice : Bytes → ℕ → ℕ → Bytes
slice buf start i = take (i - start) (drop start buf)

abbrev pub push : List LineEvent → Option LineEvent → List LineEvent
push events none = events
push events (some e) = events ++ e ∷ []

abbrev pub is_prompt : Bytes → Cursor → Bool
is_prompt buf c = c.start == c.i || (ltb 0 c.i && test_at is_newline (get_elem? buf (c.i - 1)))

-- One round of the loop, on the byte at `i`.
unfoldable pub advance : Bytes → ℕ → Cursor → Cursor
advance buf b c =
    if is_newline b
    then (let i' = skip_while (length buf) is_newline buf c.i in
        record {
          start = i';
          i = i';
          events =
              if ltb c.start c.i
              then push c.events (try_create_event (slice buf c.start c.i) line)
              else c.events;
        })
    else if b == b'>'
    then (if is_prompt buf c
        then (let i' = skip_while (length buf) is_space buf (c.i + 1) in
            record {
              start = i';
              i = i';
              events = push c.events (try_create_event (slice buf c.start i') prompt);
            })
        else record c { i = c.i + 1 })
    else record c { i = c.i + 1 }

-- `while i < self.buffer.len()`; each round raises `i`, so as many rounds as bytes are enough.
unfoldable pub scan : ℕ → Bytes → Cursor → Cursor
scan zero buf c = c
scan (suc f) buf c = elim (get_elem? buf c.i) [ none ↦ c | some b ↦ scan f buf (advance buf b c) ]

-- What the last part of `process_data` keeps of a partial line.
unfoldable pub truncate : ℕ → Bytes → Bytes
truncate max kept =
    if ltb max (length kept)
    then (let keep_from = length kept - max in
        drop (elim (rfind b'\n' (take keep_from kept)) [ none ↦ keep_from | some pos ↦ pos + 1 ])
          kept)
    else kept

abbrev pub begin : Cursor
begin = record { start = 0; i = 0; events = [] }

unfoldable pub process_data : LineBuffer → Bytes → LineBuffer × List LineEvent
process_data b bytes =
    let extended = b.buffer ++ bytes in
    let c = scan (length extended) extended begin in
    (record b { buffer = truncate b.max_buffer_size (drop c.start extended) }, c.events)
