-- ===== src/Model/Frames.antt =====
-- src/apex/model/serialframe.py: the framing codec of guest output, as lines of bytes and as the state machine
-- that reads them. Base64 and SHA-256 are one bundle of functions; a method that changes the decoder
-- returns the changed one beside what it returned or raised.
pub mod Feeding
pub mod Keeping
pub mod Pieces
pub mod RoundTrip
use apex_fedora.Base.{
  Bool, Bytes, List, Option, [], all, codes, decimal, drop, eqb, false, if◌then◌else◌,
  is_decimal_digit, join, true, leb, length, ltb, map, none, not, number_from, partition, range,
  rstrip, separated, slice_at, some, starts_with, suc, zero, ℕ, ◌&&◌, ◌||◌, ◌*◌, ◌+◌, ◌++◌, ◌-◌,
  ◌/◌, ◌∷◌,
}
use apex_fedora.Kernel.Refusals.{
  frame_malformed, frame_out_of_order, frame_limit_exceeded, frame_checksum_mismatch,
  frame_incomplete,
}
use apex_fedora.Kernel.Errors.{Result, ok, raise, refusal, ◌>>=◌}
use apex_fedora.Kernel.Bounded.{serial_chunk}

-- `base64.b64encode`, `base64.b64decode` with `validate=True`, which may refuse, and the encoded
-- `hexdigest` of SHA-256
pub record Codec : Type 0 where
  pub b64encode : Bytes → Bytes
  pub b64decode : Bytes → Option Bytes
  pub hexdigest : Bytes → Bytes

abbrev pub newline : ℕ
newline = 10

abbrev pub carriage_return : ℕ
carriage_return = 13

abbrev pub separator : ℕ
separator = 58

abbrev pub chunk_text : Bytes
chunk_text = codes "APEXLOG"

abbrev pub trailer_text : Bytes
trailer_text = codes "APEXEND"

abbrev pub line_limit : ℕ
line_limit = 1024

abbrev pub transfer_limit : ℕ
transfer_limit = 16 * 1024 * 1024

-- `[A-Za-z0-9+/=]`
abbrev pub is_base64 : ℕ → Bool
is_base64 c =
    leb 65 c && leb c 90
    || leb 97 c && leb c 122
    || is_decimal_digit c
    || eqb c 43
    || eqb c 47
    || eqb c 61

-- `[0-9a-f]`
abbrev pub is_hex : ℕ → Bool
is_hex c = is_decimal_digit c || leb 97 c && leb c 102

-- The three patterns, matched against the whole text.
unfoldable pub is_chunk : Bytes → Bool
is_chunk text = leb 1 (length text) && all is_base64 text

unfoldable pub is_index : Bytes → Bool
is_index text = leb 1 (length text) && leb (length text) 6 && all is_decimal_digit text

unfoldable pub is_digest : Bytes → Bool
is_digest text = eqb (length text) 64 && all is_hex text

-- The lines of the chunks, counted from an index.
unfoldable pub chunk_lines : Bytes → ℕ → List Bytes → List Bytes
unfolding separated decimal
chunk_lines name index [] = []
chunk_lines name index (chunk ∷ chunks) =
    separated separator (chunk_text ∷ name ∷ decimal index ∷ chunk ∷ [])
    ∷ chunk_lines name (index + 1) chunks

-- `encoded[start : start + width]` for every start
unfoldable pub chunks_of : Bytes → List Bytes
unfolding range
chunks_of encoded = map (slice_at encoded serial_chunk) (range (length encoded) serial_chunk)

abbrev pub trailer_line : Codec → Bytes → ℕ → Bytes → Bytes
trailer_line codec name count payload =
    separated separator (trailer_text ∷ name ∷ decimal count ∷ codec.hexdigest payload ∷ [])

unfoldable pub encode : Codec → Bytes → Bytes → List Bytes
unfolding chunk_lines chunks_of
encode codec payload name =
    let chunks = chunks_of (codec.b64encode payload) in
    chunk_lines name 0 chunks ++ trailer_line codec name (length chunks) payload ∷ []

pub record FrameDecoder : Type 0 where
  pub chunk_prefix : Bytes
  pub trailer_prefix : Bytes
  pub encoded_limit : ℕ
  pub buffer : Bytes
  pub chunks : List Bytes
  pub encoded_size : ℕ
  pub payload : Option Bytes

-- `math.ceil(limit / 3) * 4`
abbrev pub encoded_limit_of : ℕ → ℕ
encoded_limit_of limit = (limit + 2) / 3 * 4

unfoldable pub new_decoder : Bytes → ℕ → FrameDecoder
unfolding separated
new_decoder name limit = record {
  chunk_prefix = separated separator (chunk_text ∷ name ∷ []) ++ separator ∷ [];
  trailer_prefix = separated separator (trailer_text ∷ name ∷ []) ++ separator ∷ [];
  encoded_limit = encoded_limit_of limit;
  buffer = [];
  chunks = [];
  encoded_size = 0;
  payload = none;
}

abbrev pub pending_bytes : FrameDecoder → ℕ
pending_bytes decoder = length decoder.buffer

-- The buffer as `find` and `del` cut it: a line that has its end and what follows, or the start of one.
pub data Unread : Type 0 where
  partial : Bytes → Unread
  complete : Bytes → Unread → Unread

abbrev pub longer : ℕ → Unread → Unread
longer c (partial text) = partial (c ∷ text)
longer c (complete text rest) = complete (c ∷ text) rest

unfoldable pub cut : Bytes → Unread
cut [] = partial []
cut (c ∷ cs) = let rest = cut cs in if eqb c newline then complete [] rest else longer c rest

unfoldable pub bytes_of : Unread → Bytes
bytes_of (partial text) = text
bytes_of (complete text rest) = text ++ newline ∷ bytes_of rest

-- `_drop_noise`
unfoldable pub drop_noise : FrameDecoder → FrameDecoder
drop_noise decoder =
    let excess = length decoder.buffer - line_limit in
    if ltb 0 excess then record decoder { buffer = drop excess decoder.buffer } else decoder

-- `_chunk`
unfoldable pub take_chunk : FrameDecoder → Bytes → FrameDecoder × Result (Unit {0})
unfolding partition is_index is_chunk
take_chunk decoder rest =
    let index_text = (partition separator rest).0 in
    let chunk = (partition separator rest).1 in
    let counted = record decoder { encoded_size = decoder.encoded_size + length chunk } in
    if not (is_index index_text) || not (is_chunk chunk) || ltb serial_chunk (length chunk)
    then (decoder, raise (refusal frame_malformed))
    else if not (eqb (number_from 0 index_text) (length decoder.chunks))
    then (decoder, raise (refusal frame_out_of_order))
    else if ltb decoder.encoded_limit counted.encoded_size
    then (counted, raise (refusal frame_limit_exceeded))
    else (record counted { chunks = decoder.chunks ++ chunk ∷ [] }, ok tt)

abbrev pub decoded : Option Bytes → Result Bytes
decoded none = raise (refusal frame_malformed)
decoded (some payload) = ok payload

abbrev pub same_bytes : Bytes → Bytes → Bool
same_bytes [] [] = true
same_bytes (c ∷ cs) (b ∷ bs) = eqb c b && same_bytes cs bs
same_bytes [] (b ∷ bs) = false
same_bytes (c ∷ cs) [] = false

-- `_finish`
unfoldable pub finish : Codec → FrameDecoder → Bytes → Result Bytes
unfolding partition is_index is_digest
finish codec decoder rest =
    let count_text = (partition separator rest).0 in
    let digest = (partition separator rest).1 in
    let count = number_from 0 count_text in
    if not (is_index count_text) || not (is_digest digest)
    then raise (refusal frame_malformed)
    else if eqb count 0 || not (eqb count (length decoder.chunks))
    then raise (refusal frame_incomplete)
    else (decoded (codec.b64decode (join decoder.chunks)) >>= λ payload.
        if same_bytes (codec.hexdigest payload) digest
        then ok payload
        else raise (refusal frame_checksum_mismatch))

-- What a method of the decoder leaves: the decoder, and the payload, nothing or an error.
abbrev pub Fed : Type 0
Fed = FrameDecoder × Result (Option Bytes)

abbrev pub nothing : FrameDecoder × Result (Unit {0}) → Fed
nothing (decoder, ok done) = (decoder, ok none)
nothing (decoder, raise error) = (decoder, raise error)

abbrev pub found : FrameDecoder → Result Bytes → Fed
found decoder (ok payload) = (decoder, ok (some payload))
found decoder (raise error) = (decoder, raise error)

-- `_consume`
unfoldable pub consume : Codec → FrameDecoder → Bytes → Fed
unfolding starts_with take_chunk finish
consume codec decoder line =
    if starts_with decoder.chunk_prefix line
    then nothing (take_chunk decoder (drop (length decoder.chunk_prefix) line))
    else if starts_with decoder.trailer_prefix line
    then found decoder (finish codec decoder (drop (length decoder.trailer_prefix) line))
    else (decoder, ok none)

-- The loop goes on when a line gave neither a payload nor an error.
abbrev pub or_go_on : Fed → (FrameDecoder → Fed) → Fed
or_go_on (decoder, ok none) go_on = go_on decoder
or_go_on (decoder, ok (some payload)) go_on =
    (record decoder { payload = some payload }, ok (some payload))
or_go_on (decoder, raise error) go_on = (decoder, raise error)

-- The loop of `feed`, over the lines of the buffer.
unfoldable pub feed_lines : Codec → Unread → FrameDecoder → Fed
unfolding drop_noise consume rstrip bytes_of
feed_lines codec (partial text) decoder = (drop_noise (record decoder { buffer = text }), ok none)
feed_lines codec (complete text rest) decoder =
    or_go_on
      (consume codec (record decoder { buffer = bytes_of rest }) (rstrip carriage_return text))
      (feed_lines codec rest)

unfoldable pub feed : Codec → FrameDecoder → Bytes → Fed
unfolding feed_lines cut
feed codec decoder content = elim decoder.payload [
  | some payload ↦ (decoder, ok none)
  | none ↦ feed_lines codec (cut (decoder.buffer ++ content)) decoder
]

abbrev pub or_later : Option Bytes → Result Bytes → Result Bytes
or_later (some payload) later = ok payload
or_later none later = later

unfoldable pub decode_from : Codec → FrameDecoder → List Bytes → Result Bytes
unfolding feed
decode_from codec decoder [] = raise (refusal frame_incomplete)
decode_from codec decoder (line ∷ lines) =
    let fed = feed codec decoder (line ++ newline ∷ []) in
    let rest = decode_from codec fed.0 lines in fed.1 >>= λ answer. or_later answer rest

unfoldable pub decode_lines : Codec → List Bytes → Bytes → ℕ → Result Bytes
unfolding decode_from new_decoder
decode_lines codec lines name limit = decode_from codec (new_decoder name limit) lines
