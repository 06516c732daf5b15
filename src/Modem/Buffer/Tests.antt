-- ===== src/Modem/Buffer/Tests.antt =====
-- The unit tests of src/modem/buffer.rs, and the theorems on the buffer at concrete bytes.
use sms_server.Base.{ℕ, ◌≤◌, ◌≡◌, refl, List, [], ◌∷◌, ◌++◌, arith, length, Bytes}
use sms_server.Text.{codes, equal, is_ascii_whitespace, is_whitespace, trim, rfind}
use sms_server.Text.Utf8.{as_bytes, from_utf8, from_utf8_lossy}
use sms_server.Modem.Buffer.{
  LineEvent, line, prompt, LineBuffer, with_max_size, process_data, scan, advance, skip_while,
  try_create_event, truncate,
}
use sms_server.Modem.Buffer.Automaton.{partial, final, events_of}
use sms_server.Modem.Buffer.Refinement.{process_data-Auto}
use sms_server.Modem.Buffer.Bounds.{IsUnbroken, process_data_bounded}
use sms_server.Modem.Buffer.Framing.{frame, process_data-frame}
use sms_server.Modem.Buffer.Chunks.{feed, feed-concat}

abbrev events : ℕ → Bytes → List LineEvent
events max bytes = (process_data (record { buffer = []; max_buffer_size = max }) bytes).1

test_basic_line_processing :
    events 1024 (codes "first\nsecond\nthird\n")
    ≡ line (codes "first") ∷ line (codes "second") ∷ line (codes "third") ∷ []
unfolding process_data scan advance skip_while try_create_event is_ascii_whitespace from_utf8 trim
    is_whitespace
test_basic_line_processing = refl

test_prompt_detection :
    events 1024 (codes "output\n>test>data\n")
    ≡ line (codes "output") ∷ prompt (codes ">") ∷ line (codes "test>data") ∷ []
unfolding process_data scan advance skip_while try_create_event is_ascii_whitespace from_utf8 trim
    is_whitespace
test_prompt_detection = refl

test_prompt_with_trailing_space :
    events 1024 (codes "OK\r\n>   PDU_DATA\n")
    ≡ line (codes "OK") ∷ prompt (codes ">") ∷ line (codes "PDU_DATA") ∷ []
unfolding process_data scan advance skip_while try_create_event is_ascii_whitespace from_utf8 trim
    is_whitespace
test_prompt_with_trailing_space = refl

test_line_endings :
    events 1024 (codes "unix\nwindows\r\nmac\r  end \n \t\n\n")
    ≡ line (codes "unix") ∷ line (codes "windows") ∷ line (codes "mac") ∷ line (codes "end") ∷ []
unfolding process_data scan advance skip_while try_create_event is_ascii_whitespace from_utf8 trim
    is_whitespace
test_line_endings = refl

test_partial_line_truncation :
    (process_data (record { buffer = []; max_buffer_size = 10 }) (codes "0123456789ABCDEFGHIJ")).0
    ≡ record { buffer = codes "ABCDEFGHIJ"; max_buffer_size = 10 }
unfolding process_data scan advance truncate rfind
test_partial_line_truncation = refl

test_invalid_utf8_recovery :
    events 1024 (0xff ∷ 0xfe ∷ 0xfd ∷ b'\n' ∷ []) ≡ line (0xfffd ∷ 0xfffd ∷ 0xfffd ∷ []) ∷ []
unfolding process_data scan advance skip_while try_create_event is_ascii_whitespace from_utf8
    from_utf8_lossy trim is_whitespace
test_invalid_utf8_recovery = refl

-- Behind a prompt the cut does matter: a space that comes with a later read starts a line, and
-- the next `>` is part of it.
test_cut_behind_prompt :
    (events 1024 (codes "> >") ≡ prompt (codes ">") ∷ prompt (codes ">") ∷ [])
    × ((feed (with_max_size 1024) (codes ">" ∷ codes " >" ∷ [])).1 ≡ prompt (codes ">") ∷ [])
unfolding process_data scan advance skip_while try_create_event is_ascii_whitespace from_utf8 trim
    is_whitespace feed with_max_size truncate
test_cut_behind_prompt = (refl, refl)

abbrev holding : LineBuffer
holding = record { buffer = codes "+CS"; max_buffer_size = 4 }

process_data-Auto_example :
    ((process_data holding (codes "Q: 1\r\n>abcdef")).1
      ≡ events_of (partial []) (codes "+CS" ++ codes "Q: 1\r\n>abcdef"))
    × ((process_data holding (codes "Q: 1\r\n>abcdef")).0 ≡ record {
      buffer = truncate 4 (final (partial []) (codes "+CS" ++ codes "Q: 1\r\n>abcdef")).segment;
      max_buffer_size = 4;
    })
process_data-Auto_example = process_data-Auto holding (codes "Q: 1\r\n>abcdef")

process_data_bounded_example :
    (length (process_data holding (codes "Q: 1\r\n>abcdef")).0.buffer ≤ 4)
    × IsUnbroken (process_data holding (codes "Q: 1\r\n>abcdef")).0.buffer
    × ((process_data holding (codes "Q: 1\r\n>abcdef")).0.max_buffer_size ≡ 4)
process_data_bounded_example = process_data_bounded holding (codes "Q: 1\r\n>abcdef")

abbrev reads : List Bytes
reads = codes "+CM" ∷ codes "GS: 7\r" ∷ codes "\nOK" ∷ codes "\r\n" ∷ []

feed-concat_example :
    feed (with_max_size 32) reads ≡ process_data (with_max_size 32) (codes "+CMGS: 7\r\nOK\r\n")
feed-concat_example = feed-concat 32 reads (refl, (refl, (refl, (refl, tt)))) (ground arith)

-- The buffer is smaller than each of the lines.
process_data-frame_example :
    process_data (with_max_size 1) (frame (codes "+CMGS: 7" ∷ codes "OK" ∷ []))
    ≡ (with_max_size 1, line (codes "+CMGS: 7") ∷ line (codes "OK") ∷ [])
unfolding as_bytes trim is_whitespace is_ascii_whitespace equal
process_data-frame_example = process_data-frame 1 (codes "+CMGS: 7" ∷ codes "OK" ∷ []) refl
