-- ===== src/Model/Frames/Pieces.antt =====
-- Chunks, trailers and plain lines, as src/apex/model/serialframe.py writes and takes them.
use apex_fedora.Base.{
  All, All-mono, Bytes, [], all, all-true, arith, decimal, decimal_digits, decimal_nonempty, eqb,
  false, is_decimal_digit, join, length, length-decimal, number_from-decimal, partition,
  partition-append, refl, some, true, ℕ, ◌*◌, ◌+◌, ◌++◌, ◌/◌, ◌<◌, ◌∷◌, ◌≡◌, ◌≤◌,
}
use apex_fedora.Kernel.Errors.{ok}
use apex_fedora.Kernel.Bounded.{serial_chunk}
use apex_fedora.Model.Frames.{
  Codec, FrameDecoder, partial, complete, cut, newline, separator, carriage_return, chunk_text,
  trailer_text, is_base64, is_hex, is_chunk, is_index, is_digest, same_bytes, take_chunk, finish,
}
use apex_fedora.Base.{All-all, &&_true}

-- What is documented of base64 and of the digest, at one payload.
pub record IsCoded (codec : Codec) (payload : Bytes) : Type 0 where
  pub decodes : codec.b64decode (codec.b64encode payload) ≡ some payload
  pub alphabet : All (λ c. is_base64 c ≡ true) (codec.b64encode payload)
  pub size : length (codec.b64encode payload) ≡ (length payload + 2) / 3 * 4
  pub digest : is_digest (codec.hexdigest payload) ≡ true

-- Neither a line end nor a carriage return
abbrev pub IsPlain : ℕ → Type 0
IsPlain c = (eqb c newline ≡ false) × (eqb c carriage_return ≡ false)

pub base64-IsPlain : (c : ℕ) → is_base64 c ≡ true → IsPlain c
base64-IsPlain c h = ground arith

pub hex-IsPlain : (c : ℕ) → is_hex c ≡ true → IsPlain c
hex-IsPlain c h = ground arith

pub digit-IsPlain : (c : ℕ) → is_decimal_digit c ≡ true → IsPlain c
digit-IsPlain c h = ground arith

-- A chunk as `encode` cuts it
abbrev pub IsPiece : Bytes → Type 0
IsPiece chunk =
    (1 ≤ length chunk) × (length chunk ≤ serial_chunk) × All (λ c. is_base64 c ≡ true) chunk

pub cut_line :
    (bytes : Bytes) → All IsPlain bytes → cut (bytes ++ newline ∷ []) ≡ complete bytes (partial [])
unfolding cut
cut_line [] h = refl
cut_line (c ∷ bytes) (here, h) = rw (cut, here.0, cut_line bytes h) refl

index_decimal : (n : ℕ) → n < 1000000 → is_index (decimal n) ≡ true
unfolding is_index
index_decimal n h =
    rw (all-true is_decimal_digit (decimal n) (decimal_digits n))
      (ground (arith, decimal_nonempty n, length-decimal 5 n h))

is_chunk-piece : (chunk : Bytes) → IsPiece chunk → is_chunk chunk ≡ true
unfolding is_chunk
is_chunk-piece chunk (some_, narrow, letters) =
    rw (all-true is_base64 chunk letters) (ground (arith, some_))

partition-decimal :
    (n : ℕ) (rest : Bytes) → partition separator (decimal n ++ separator ∷ rest) ≡ (decimal n, rest)
partition-decimal n rest =
    partition-append separator (decimal n) rest
      (All-mono (λ c h. ground arith) (decimal n) (decimal_digits n))

-- The chunk that is next is kept.
pub take_chunk-next :
    (decoder : FrameDecoder) (chunk : Bytes)
    → IsPiece chunk
    → length decoder.chunks < 1000000
    → decoder.encoded_size + length chunk ≤ decoder.encoded_limit
    → take_chunk decoder (decimal (length decoder.chunks) ++ separator ∷ chunk) ≡ (
      record decoder {
        encoded_size = decoder.encoded_size + length chunk;
        chunks = decoder.chunks ++ chunk ∷ [];
      },
      ok tt,
    )
unfolding take_chunk
take_chunk-next decoder chunk piece few fits =
    let count = length decoder.chunks in
    rw
      (
        take_chunk,
        partition-decimal count chunk,
        index_decimal count few,
        is_chunk-piece chunk piece,
        number_from-decimal count,
      )
      (ground (arith, piece.1, fits))

same_self : (bytes : Bytes) → same_bytes bytes bytes ≡ true
same_self [] = refl
same_self (c ∷ bytes) = ground (arith, same_self bytes)

pub finish-all :
    (codec : Codec) (decoder : FrameDecoder) (payload : Bytes)
    → IsCoded codec payload
    → 1 ≤ length decoder.chunks
    → length decoder.chunks < 1000000
    → join decoder.chunks ≡ codec.b64encode payload
    → finish codec decoder (decimal (length decoder.chunks) ++ separator ∷ codec.hexdigest payload)
      ≡ ok payload
unfolding finish
finish-all codec decoder payload coded more few whole =
    let count = length decoder.chunks in
    rw
      (
        finish,
        partition-decimal count (codec.hexdigest payload),
        index_decimal count few,
        coded.digest,
        number_from-decimal count,
        whole,
        coded.decodes,
        same_self (codec.hexdigest payload),
      )
      (ground (arith, more))

pub chunk_text-IsPlain : All IsPlain chunk_text
chunk_text-IsPlain = (
  (refl, refl),
  (
    (refl, refl),
    ((refl, refl), ((refl, refl), ((refl, refl), ((refl, refl), ((refl, refl), tt))))),
  ),
)

pub trailer_text-IsPlain : All IsPlain trailer_text
trailer_text-IsPlain = (
  (refl, refl),
  (
    (refl, refl),
    ((refl, refl), ((refl, refl), ((refl, refl), ((refl, refl), ((refl, refl), tt))))),
  ),
)

pub hex_digest : (text : Bytes) → is_digest text ≡ true → All IsPlain text
unfolding is_digest
hex_digest text h =
    All-mono hex-IsPlain text
      (All-all is_hex text (&&_true (eqb (length text) 64) (all is_hex text) h).1)
