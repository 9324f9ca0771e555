-- ===== src/Model/Tests.antt =====
-- The theorems on the codecs of src/apex/model/, applied at concrete values.
use apex_fedora.Base.{
  [], ◌∷◌, All, Bytes, List, All-all, arith, codes, false, length, none, refl, some, true, ◌+◌,
  ◌++◌, ◌<◌, ◌≡◌, ◌≤◌,
}
use apex_fedora.Kernel.Errors.{ok}
use apex_fedora.Model.Frames.{
  Codec, FrameDecoder, cut, decode_lines, encode, feed, is_digest, is_hex, line_limit, new_decoder,
}
use apex_fedora.Model.Frames.Feeding.{last_part, feed-append}
use apex_fedora.Model.Frames.Keeping.{IsHeld, here, onward, Reaches-IsHeld}
use apex_fedora.Model.Frames.Pieces.{IsCoded}
use apex_fedora.Model.Frames.RoundTrip.{decode_lines-encode}
use apex_fedora.Model.Marks.{not_text, MarkFile, read_mark}
use apex_fedora.Model.Marks.Honest.{IsHonest, read_mark-IsHonest}
use apex_fedora.Model.Extents.{DedupeRange, alignment, shareable_length, spans}
use apex_fedora.Model.Extents.Tiling.{IsTiling, spans-IsTiling}

abbrev man : Bytes
man = codes "Man"

abbrev digest_text : Bytes
digest_text = codes "0123456789abcdef0123456789abcdef0123456789abcdef0123456789abcdef"

-- Base64 at one payload, and a digest that is the same for all
abbrev codec : Codec
codec = record {
  b64encode = λ payload. codes "TWFu";
  b64decode = λ text. some man;
  hexdigest = λ payload. digest_text;
}

abbrev token : Bytes
token = codes "0123456789abcdef0123456789abcdef"

man-IsCoded : IsCoded codec man
unfolding is_digest
man-IsCoded = record {
  decodes = refl;
  alphabet = (refl, (refl, (refl, (refl, tt))));
  size = refl;
  digest = refl;
}

token_hex : All (λ c. is_hex c ≡ true) token
token_hex = All-all is_hex token refl

decode_lines-encode_example : decode_lines codec (encode codec man token) token 100 ≡ ok man
decode_lines-encode_example =
    decode_lines-encode codec man token 100 man-IsCoded token_hex (omega arith) (omega arith)
      (omega arith)

abbrev start : FrameDecoder
start = new_decoder token 100

abbrev first_half : Bytes
first_half = codes "APEX"

abbrev second_half : Bytes
second_half = codes "LOG"

start_unpaid : start.payload ≡ none
unfolding new_decoder
start_unpaid = refl

first_quiet : (feed codec start first_half).1 ≡ ok none
unfolding feed new_decoder
first_quiet = refl

first_short : length (last_part (cut (start.buffer ++ first_half))) ≤ line_limit
unfolding cut new_decoder
first_short = omega arith

feed-append_example :
    feed codec start (first_half ++ second_half)
    ≡ feed codec (feed codec start first_half).0 second_half
feed-append_example =
    feed-append codec start first_half second_half start_unpaid first_quiet first_short

Reaches-IsHeld_example : IsHeld codec (feed codec start first_half).0
Reaches-IsHeld_example = Reaches-IsHeld codec token 100 (onward first_half here)

spans-IsTiling_example :
    (ranges : List DedupeRange) × (spans 20000000 ≡ ok ranges)
    × IsTiling 0 (shareable_length 20000000) ranges
    × (shareable_length 20000000 ≤ 20000000)
    × (20000000 < shareable_length 20000000 + alignment)
spans-IsTiling_example = spans-IsTiling 20000000

abbrev torn_mark : MarkFile
torn_mark = record {
  is_symlink = false;
  exists = true;
  is_file = true;
  size = 3;
  content = 255 ∷ [];
}

read_mark-IsHonest_example :
    IsHonest (λ content. not_text) torn_mark (read_mark (λ content. not_text) torn_mark)
read_mark-IsHonest_example = read_mark-IsHonest (λ content. not_text) torn_mark
