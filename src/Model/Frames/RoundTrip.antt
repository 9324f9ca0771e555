-- ===== src/Model/Frames/RoundTrip.antt =====
-- What `encode` of src/apex/model/serialframe.py writes, `decode_lines` reads back.
use apex_fedora.Base.{
  All, All-append, All-mono, All-zip, All-map, All-take, All-drop, All-range, Bytes, [], ap, arith,
  append_assoc, append-nil, decimal, decimal_digits, drop, drop-append_length, false, join,
  join-range, length, length-append, length-map, length-range, none, range, refl, rstrip_absent,
  separated, slice_at, some, starts_with, starts_with-append, sym, true, ℕ, ◌+◌, ◌++◌, ◌/◌, ◌<◌,
  ◌∙◌, ◌∷◌, ◌≡◌, ◌≤◌, List,
}
use apex_fedora.Kernel.Errors.{ok}
use apex_fedora.Kernel.Bounded.{serial_chunk}
use apex_fedora.Model.Frames.{
  Codec, FrameDecoder, partial, bytes_of, newline, separator, carriage_return, chunk_text,
  trailer_text, transfer_limit, is_base64, is_hex, encoded_limit_of, chunk_lines, chunks_of,
  trailer_line, encode, take_chunk, finish, consume, nothing, found, or_go_on, drop_noise,
  feed_lines, feed, new_decoder, decode_from, decode_lines,
}
use apex_fedora.Model.Frames.Feeding.{feed_open}
use apex_fedora.Model.Frames.Keeping.{join-append, length-join-append}
use native.Mathlib.Nat.{zero-add}
use apex_fedora.Model.Frames.Pieces.{
  IsCoded, IsPlain, IsPiece, base64-IsPlain, hex-IsPlain, digit-IsPlain, cut_line, take_chunk-next,
  finish-all, chunk_text-IsPlain, trailer_text-IsPlain, hex_digest,
}

module _ (codec : Codec) (name : Bytes) (limit : ℕ) where
  -- The decoder that has read some chunks
  abbrev reading : List Bytes → FrameDecoder
  reading done = record (new_decoder name limit) {
    chunks = done;
    encoded_size = length (join done);
  }

  feed_line :
      (done : List Bytes) (bytes : Bytes)
      → All IsPlain bytes
      → feed codec (reading done) (bytes ++ newline ∷ [])
        ≡ or_go_on (consume codec (reading done) bytes) (feed_lines codec (partial []))
  unfolding feed_lines new_decoder bytes_of
  feed_line done bytes plain =
      let kept = rstrip_absent carriage_return bytes (All-mono (λ c p. p.1) bytes plain) in
      feed_open codec (reading done) (bytes ++ newline ∷ []) refl
      ∙ ap (λ u. feed_lines codec u (reading done)) (cut_line bytes plain)
      ∙ ap (λ b. or_go_on (consume codec (reading done) b) (feed_lines codec (partial []))) kept

  chunk_line_lem :
      (index : ℕ) (chunk : Bytes)
      → separated separator (chunk_text ∷ name ∷ decimal index ∷ chunk ∷ [])
        ≡ (new_decoder name limit).chunk_prefix ++ (decimal index ++ separator ∷ chunk)
  unfolding separated new_decoder
  chunk_line_lem index chunk =
      ap (λ b. chunk_text ++ separator ∷ b)
        (sym (append_assoc name (separator ∷ []) (decimal index ++ separator ∷ chunk)))

  trailer_line_lem :
      (count : ℕ) (digest : Bytes)
      → separated separator (trailer_text ∷ name ∷ decimal count ∷ digest ∷ [])
        ≡ (new_decoder name limit).trailer_prefix ++ (decimal count ++ separator ∷ digest)
  unfolding separated new_decoder
  trailer_line_lem count digest =
      ap (λ b. trailer_text ++ separator ∷ b)
        (sym (append_assoc name (separator ∷ []) (decimal count ++ separator ∷ digest)))

  trailer_other :
      (rest : Bytes)
      → starts_with
          (new_decoder name limit).chunk_prefix
          ((new_decoder name limit).trailer_prefix ++ rest)
        ≡ false
  unfolding starts_with new_decoder separated
  trailer_other rest = refl

  consume_chunk :
      (decoder : FrameDecoder) (rest : Bytes)
      → consume codec decoder (decoder.chunk_prefix ++ rest) ≡ nothing (take_chunk decoder rest)
  unfolding consume
  consume_chunk decoder rest =
      rw
        (
          consume,
          starts_with-append decoder.chunk_prefix rest,
          drop-append_length decoder.chunk_prefix rest,
        )
        refl

  consume_trailer :
      (decoder : FrameDecoder) (rest : Bytes)
      → starts_with decoder.chunk_prefix (decoder.trailer_prefix ++ rest) ≡ false
      → consume codec decoder (decoder.trailer_prefix ++ rest)
        ≡ found decoder (finish codec decoder rest)
  unfolding consume
  consume_trailer decoder rest other =
      rw
        (
          consume,
          other,
          starts_with-append decoder.trailer_prefix rest,
          drop-append_length decoder.trailer_prefix rest,
        )
        refl

  separated-IsPlain :
      (text : Bytes) (number : ℕ) (last : Bytes)
      → All IsPlain text
      → All (λ c. is_hex c ≡ true) name
      → All IsPlain last
      → All IsPlain (separated separator (text ∷ name ∷ decimal number ∷ last ∷ []))
  unfolding separated
  separated-IsPlain text number last h token k =
      let digits = All-mono digit-IsPlain (decimal number) (decimal_digits number) in
      let mark : IsPlain separator = (refl, refl) in
      All-append IsPlain text
        (separator ∷ (name ++ separator ∷ (decimal number ++ separator ∷ last))) h
        (
          mark,
          All-append IsPlain name (separator ∷ (decimal number ++ separator ∷ last))
              (All-mono hex-IsPlain name token)
              (mark, All-append IsPlain (decimal number) (separator ∷ last) digits (mark, k)),
        )

  feed-chunk :
      (done : List Bytes) (chunk : Bytes)
      → IsPiece chunk
      → All (λ c. is_hex c ≡ true) name
      → length done < 1000000
      → length (join done) + length chunk ≤ encoded_limit_of limit
      → feed codec (reading done) (
          separated separator (chunk_text ∷ name ∷ decimal (length done) ∷ chunk ∷ [])
          ++ newline ∷ [])
        ≡ (reading (done ++ chunk ∷ []), ok none)
  unfolding feed_lines new_decoder drop_noise
  feed-chunk done chunk piece token few fits =
      let rest = decimal (length done) ++ separator ∷ chunk in
      let text = separated separator (chunk_text ∷ name ∷ decimal (length done) ∷ chunk ∷ []) in
      let plain : All IsPlain text =
        separated-IsPlain chunk_text (length done) chunk chunk_text-IsPlain token
          (All-mono base64-IsPlain chunk piece.2) in
      feed_line done text plain
      ∙ ap (λ b. or_go_on (consume codec (reading done) b) (feed_lines codec (partial [])))
          (chunk_line_lem (length done) chunk)
      ∙ ap (λ f. or_go_on f (feed_lines codec (partial [])))
          (consume_chunk (reading done) rest
            ∙ ap (λ t. nothing t) (take_chunk-next (reading done) chunk piece few fits))
      ∙ ap (λ n. (record (reading (done ++ chunk ∷ [])) { encoded_size = n }, ok none))
          (sym (length-join-append done chunk))

  feed-trailer :
      (done : List Bytes) (payload : Bytes)
      → IsCoded codec payload
      → All (λ c. is_hex c ≡ true) name
      → 1 ≤ length done
      → length done < 1000000
      → join done ≡ codec.b64encode payload
      → (feed codec
          (reading done)
          (trailer_line codec name (length done) payload ++ newline ∷ [])).1
        ≡ ok (some payload)
  feed-trailer done payload coded token more few whole =
      let rest = decimal (length done) ++ separator ∷ codec.hexdigest payload in
      let text = trailer_line codec name (length done) payload in
      let plain : All IsPlain text =
        separated-IsPlain trailer_text (length done) (codec.hexdigest payload) trailer_text-IsPlain
          token (hex_digest (codec.hexdigest payload) coded.digest) in
      let step =
        feed_line done text plain
        ∙ ap (λ b. or_go_on (consume codec (reading done) b) (feed_lines codec (partial [])))
            (trailer_line_lem (length done) (codec.hexdigest payload))
        ∙ ap (λ f. or_go_on f (feed_lines codec (partial [])))
            (consume_trailer (reading done) rest (trailer_other rest)
              ∙ ap (λ r. found (reading done) r)
                  (finish-all codec (reading done) payload coded more few whole)) in
      ap (λ f. f.1) step

  read_chunks :
      (chunks done : List Bytes) (payload : Bytes)
      → IsCoded codec payload
      → All (λ c. is_hex c ≡ true) name
      → All IsPiece chunks
      → 1 ≤ length done + length chunks
      → length done + length chunks < 1000000
      → length (join done) + length (join chunks) ≤ encoded_limit_of limit
      → join done ++ join chunks ≡ codec.b64encode payload
      → decode_from codec (reading done) (
          chunk_lines name (length done) chunks
          ++ trailer_line codec name (length done + length chunks) payload ∷ [])
        ≡ ok payload
  unfolding decode_from chunk_lines
  read_chunks [] done payload coded token pieces more few fits whole =
      let count : length done + 0 ≡ length done = omega arith in
      let paid =
        feed-trailer done payload coded token (omega (arith, more)) (omega (arith, few))
          (sym (append-nil (join done)) ∙ whole) in
      rw (decode_from, count, paid) refl
  read_chunks (chunk ∷ chunks) done payload coded token (piece, pieces) more few fits whole =
      let kept =
        feed-chunk done chunk piece token (omega (arith, few))
          (omega (arith, fits, length-append chunk (join chunks))) in
      let longer_ : length (done ++ chunk ∷ []) ≡ length done + 1 =
        length-append done (chunk ∷ []) in
      let joined = join-append done chunk in
      let ih =
        read_chunks chunks (done ++ chunk ∷ []) payload coded token pieces (omega (arith, longer_))
          (omega (arith, longer_, few))
          (omega (arith, fits, length-append chunk (join chunks), length-join-append done chunk))
          (ap (λ b. b ++ join chunks) joined
            ∙ append_assoc (join done) chunk (join chunks)
            ∙ whole) in
      let count : length done + 1 + length chunks ≡ length done + length (chunk ∷ chunks) =
        omega arith in
      rw (decode_from, chunk_lines, kept) (rw (longer_, count) at ih)

join-chunks_of : (encoded : Bytes) → join (chunks_of encoded) ≡ encoded
unfolding chunks_of
join-chunks_of encoded = join-range encoded serial_chunk (omega arith)

chunks_of-IsPiece :
    (encoded : Bytes) → All (λ c. is_base64 c ≡ true) encoded → All IsPiece (chunks_of encoded)
unfolding chunks_of
chunks_of-IsPiece encoded letters =
    let starts = range (length encoded) serial_chunk in
    All-zip (λ piece sized inside. (sized.0, sized.1, inside)) (chunks_of encoded)
      (All-range encoded serial_chunk (λ c. (1 ≤ length c) × (length c ≤ serial_chunk))
        (λ c low high. (low, high)) (omega arith))
      (All-map (All (λ c. is_base64 c ≡ true)) (slice_at encoded serial_chunk)
        (λ start.
          All-take (λ c. is_base64 c ≡ true) serial_chunk (drop start encoded)
            (All-drop (λ c. is_base64 c ≡ true) start encoded letters))
        starts)

length-chunks_of : (encoded : Bytes) → length (chunks_of encoded) ≤ length encoded / 768 + 1
unfolding chunks_of
length-chunks_of encoded =
    rw (length-map (slice_at encoded serial_chunk) (range (length encoded) serial_chunk))
      (length-range (length encoded) serial_chunk)

some_pieces : (chunks : List Bytes) → 1 ≤ length (join chunks) → 1 ≤ length chunks
some_pieces [] h = absurd (omega (arith, h))
some_pieces (c ∷ chunks) h = omega arith

-- A payload that is not empty and is within the limit comes back from the lines that it was encoded
-- to, under the same token and any limit up to that of the code: base64 and the digest as documented.
pub decode_lines-encode :
    (codec : Codec) (payload name : Bytes) (limit : ℕ)
    → IsCoded codec payload
    → All (λ c. is_hex c ≡ true) name
    → 1 ≤ length payload
    → length payload ≤ limit
    → limit ≤ transfer_limit
    → decode_lines codec (encode codec payload name) name limit ≡ ok payload
unfolding decode_lines encode new_decoder
decode_lines-encode codec payload name limit coded token more fits bound =
    let encoded = codec.b64encode payload in
    let whole = join-chunks_of encoded in
    let size = ap (λ b. length b) whole ∙ coded.size in
    let count = length-chunks_of encoded in
    let some_ = some_pieces (chunks_of encoded) (omega (arith, size, more)) in
    simp zero-add at (
      read_chunks codec name limit (chunks_of encoded) [] payload coded token
        (chunks_of-IsPiece encoded coded.alphabet) (omega (arith, some_))
        (omega (arith, count, coded.size, fits, bound)) (omega (arith, size, fits)) whole)
