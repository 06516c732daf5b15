-- ===== src/Sms/Multipart/Tests.antt =====
-- The unit tests of src/sms/multipart.rs, and the theorems on the parts at concrete deliveries.
use sms_server.Base.{ℕ, ◌≡◌, refl, true, List, [], ◌∷◌, none, ok, Text}
use sms_server.Text.{codes, ends_with, strip_suffix, equal}
use sms_server.Text.Utf8.{as_bytes}
use sms_server.Sms.Samples.{conversions}
use sms_server.Sms.Multipart.{with_capacity, add_message, compile, without_separator, store}
use sms_server.Sms.Multipart.Parts.{Delivery, add_all, first_parts, filled, bytes_in}
use sms_server.Sms.Multipart.Counts.{receive, add_all-with_capacity}
use sms_server.Sms.Multipart.Whole.{joined, first_of, compile-receive}

abbrev part : ℕ → Text → Delivery
part index content = record {
  now = index;
  message = record {
    phone_number = codes "+123456789";
    user_data_header = none;
    content = content;
  };
  index = index;
}

abbrev contents : List Text
contents = codes "Part1 @" ∷ codes "Part2 @" ∷ codes "Part3!" ∷ []

-- The second part comes twice, and last the first.
abbrev earlier : List Delivery
earlier = part 3 (codes "Part3!") ∷ part 2 (codes "Part2 @") ∷ part 2 (codes "Part2 @") ∷ []

abbrev last : Delivery
last = part 1 (codes "Part1 @")

complete : (receive 0 3 earlier last).1 ≡ true
unfolding add_message add_all with_capacity store
complete = refl

test_multipart_assembly : joined contents ≡ codes "Part1 Part2 Part3!"
unfolding without_separator ends_with strip_suffix equal
test_multipart_assembly = refl

test_text_len : (receive 0 3 [] (part 1 (codes "😀😀😀@"))).0.text_len ≡ 12
unfolding add_message add_all with_capacity store without_separator ends_with strip_suffix equal
    as_bytes
test_text_len = refl

add_all-with_capacity_example :
    let m = add_all (with_capacity 0 3) earlier in
    (m.text_parts ≡ first_parts 0 3 earlier)
    × (m.received_count ≡ filled (first_parts 0 3 earlier))
    × (m.text_len ≡ bytes_in (first_parts 0 3 earlier))
    × (m.total_size ≡ 3)
add_all-with_capacity_example = add_all-with_capacity 0 3 earlier

compile-receive_example :
    compile conversions (receive 0 3 earlier last).0
    ≡ ok (record (conversions.from_incoming (first_of earlier last)) {
      message_content = joined contents;
    })
compile-receive_example =
    compile-receive conversions 0 contents earlier last (refl, (refl, (refl, (refl, tt)))) complete
