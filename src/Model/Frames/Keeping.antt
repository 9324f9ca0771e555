-- ===== src/Model/Frames/Keeping.antt =====
-- What every decoder of src/apex/model/serialframe.py holds that some feeds lead to.
use apex_fedora.Base.{
  All, All-append, Bool-cases, Bytes, Option-cases, [], ap, arith, eqb, inl, inr, join, length,
  length-append, ltb, none, not, number_from, partition, refl, some, sym, true, ℕ, ◌||◌, ◌+◌, ◌++◌,
  ◌∙◌, ◌∷◌, ◌≡◌, ◌≤◌, append-nil, append_assoc, List, rstrip, starts_with, drop,
}
use apex_fedora.Kernel.Errors.{Result, ok, raise}
use apex_fedora.Kernel.Bounded.{serial_chunk}
use apex_fedora.Model.Frames.{
  Codec, FrameDecoder, Fed, Unread, partial, complete, cut, bytes_of, separator, carriage_return,
  drop_noise, is_chunk, is_index, same_bytes, take_chunk, finish, consume, nothing, found, or_go_on,
  feed_lines, feed, new_decoder,
}
use apex_fedora.Model.Frames.Feeding.{feed_open}
use apex_fedora.Base.{◌-◌}
use apex_fedora.Base.{
  All, All-append, Bool-cases, Bytes, Option-cases, [], ap, arith, eqb, inl, inr, join, length,
  length-append, ltb, none, not, number_from, partition, refl, some, sym, true, ℕ, ◌||◌, ◌+◌, ◌++◌,
  ◌∙◌, ◌∷◌, ◌≡◌, ◌≤◌, append-nil, append_assoc, List, rstrip, starts_with, drop,
}
use apex_fedora.Kernel.Errors.{Result, ok, raise}
use apex_fedora.Kernel.Bounded.{serial_chunk}
use apex_fedora.Model.Frames.{
  Codec, FrameDecoder, Fed, Unread, partial, complete, cut, bytes_of, separator, carriage_return,
  drop_noise, is_chunk, is_index, same_bytes, take_chunk, finish, consume, nothing, found, or_go_on,
  feed_lines, feed, new_decoder,
}
use apex_fedora.Model.Frames.Feeding.{feed_open}
use apex_fedora.Base.{◌-◌}

-- The chunks are within the limits, and the payload is what they decode to.
pub record IsHeld (codec : Codec) (decoder : FrameDecoder) : Type 0 where
  pub within : length (join decoder.chunks) ≤ decoder.encoded_limit
  pub counted : length (join decoder.chunks) ≤ decoder.encoded_size
  pub narrow : All (λ c. length c ≤ serial_chunk) decoder.chunks
  pub genuine :
      (payload : Bytes)
      → decoder.payload ≡ some payload
      → codec.b64decode (join decoder.chunks) ≡ some payload

-- The decoders that feeding leads to, errors included.
pub data Reaches (codec : Codec) (start : FrameDecoder) : FrameDecoder → Type 0 where
  here : Reaches codec start start
  onward :
      {decoder : FrameDecoder} (bytes : Bytes)
      → Reaches codec start decoder
      → Reaches codec start (feed codec decoder bytes).0

pub join-append {ℓ} :
    {A : Type ℓ} (xs : List (List A)) (x : List A) → join (xs ++ x ∷ []) ≡ join xs ++ x
join-append [] x = append-nil x
join-append (y ∷ xs) x = rw (join-append xs x) (sym (append_assoc y (join xs) x))

pub length-join-append :
    (xs : List Bytes) (x : Bytes) → length (join (xs ++ x ∷ [])) ≡ length (join xs) + length x
length-join-append xs x = ap (λ l. length l) (join-append xs x) ∙ length-append (join xs) x

module _ (codec : Codec) where
  abbrev with_size : FrameDecoder → ℕ → FrameDecoder
  with_size decoder size = record decoder { encoded_size = size }

  pub take_chunk-IsHeld :
      (decoder : FrameDecoder) (rest : Bytes)
      → decoder.payload ≡ none
      → IsHeld codec decoder
      → IsHeld codec (take_chunk decoder rest).0
  unfolding take_chunk
  take_chunk-IsHeld decoder rest unpaid held =
      let chunk = (partition separator rest).1 in
      let size = decoder.encoded_size + length chunk in
      elim (Bool-cases (
        not (is_index (partition separator rest).0)
        || not (is_chunk chunk)
        || ltb serial_chunk (length chunk))) [
          | inl t ↦ rw (take_chunk, t) held
          | inr f ↦
              elim (Bool-cases
                (not (eqb (number_from 0 (partition separator rest).0) (length decoder.chunks)))) [
                  | inl t ↦ rw (take_chunk, f, t) held
                  | inr g ↦ elim (Bool-cases (ltb decoder.encoded_limit size)) [
                    | inl t ↦
                        rw (take_chunk, f, g, t)
                          (record {
                            within = held.within;
                            counted = omega (arith, held.counted);
                            narrow = held.narrow;
                            genuine = held.genuine;
                          })
                    | inr h ↦
                        let more = length-join-append decoder.chunks chunk in
                        rw (take_chunk, f, g, h)
                          (record {
                            within = ground (arith, more, held.counted);
                            counted = omega (arith, more, held.counted);
                            narrow =
                                All-append (λ c. length c ≤ serial_chunk) decoder.chunks
                                  (chunk ∷ []) held.narrow (ground arith, tt);
                            genuine = λ payload e. cc (unpaid, e);
                          })
                  ]
                ]
        ]

  -- A payload is the decoding of the chunks, and the trailer holds its digest.
  pub finish-ok :
      (decoder : FrameDecoder) (rest : Bytes) {payload : Bytes}
      → finish codec decoder rest ≡ ok payload
      → (codec.b64decode (join decoder.chunks) ≡ some payload)
        × (same_bytes (codec.hexdigest payload) (partition separator rest).1 ≡ true)
  unfolding finish
  finish-ok decoder rest {payload} h = elim (Option-cases (codec.b64decode (join decoder.chunks))) [
    | inl n ↦ ground (arith, n)
    | inr (p, e) ↦ ground (arith, e)
  ]

  abbrev IsAnswer : Fed → Type 0
  IsAnswer fed =
      (IsHeld codec fed.0)
      × (fed.0.payload ≡ none)
      × ((payload : Bytes)
          → fed.1 ≡ ok (some payload)
          → codec.b64decode (join fed.0.chunks) ≡ some payload)

  take_chunk-payload :
      (decoder : FrameDecoder) (rest : Bytes)
      → (take_chunk decoder rest).0.payload ≡ decoder.payload
  unfolding take_chunk
  take_chunk-payload decoder rest = ground arith

  nothing-IsAnswer :
      (taken : FrameDecoder × Result (Unit {0}))
      → IsHeld codec taken.0
      → taken.0.payload ≡ none
      → IsAnswer (nothing taken)
  nothing-IsAnswer (decoder, ok done) held unpaid = (held, unpaid, λ payload e. cc)
  nothing-IsAnswer (decoder, raise error) held unpaid = (held, unpaid, λ payload e. cc)

  found-IsAnswer :
      (decoder : FrameDecoder) (finished : Result Bytes)
      → IsHeld codec decoder
      → decoder.payload ≡ none
      → ((payload : Bytes)
          → finished ≡ ok payload
          → codec.b64decode (join decoder.chunks) ≡ some payload)
      → IsAnswer (found decoder finished)
  found-IsAnswer decoder (ok p) held unpaid h =
      (held, unpaid, λ payload e. h payload (ground (arith, e)))
  found-IsAnswer decoder (raise error) held unpaid h = (held, unpaid, λ payload e. cc)

  consume-IsAnswer :
      (decoder : FrameDecoder) (line : Bytes)
      → decoder.payload ≡ none
      → IsHeld codec decoder
      → IsAnswer (consume codec decoder line)
  unfolding consume
  consume-IsAnswer decoder line unpaid held =
      elim (Bool-cases (starts_with decoder.chunk_prefix line)) [
        | inl t ↦
            let rest = drop (length decoder.chunk_prefix) line in
            rw (consume, t)
              (nothing-IsAnswer (take_chunk decoder rest)
                (take_chunk-IsHeld decoder rest unpaid held)
                (take_chunk-payload decoder rest ∙ unpaid))
        | inr f ↦ elim (Bool-cases (starts_with decoder.trailer_prefix line)) [
          | inl t ↦
              let rest = drop (length decoder.trailer_prefix) line in
              rw (consume, f, t)
                (found-IsAnswer decoder (finish codec decoder rest) held unpaid
                  (λ payload e. (finish-ok decoder rest e).0))
          | inr g ↦ rw (consume, f, g) (held, unpaid, λ payload e. cc)
        ]
      ]

  rebuffered :
      (decoder : FrameDecoder) (bytes : Bytes)
      → IsHeld codec decoder
      → IsHeld codec (record decoder { buffer = bytes })
  rebuffered decoder bytes held = record {
    within = held.within;
    counted = held.counted;
    narrow = held.narrow;
    genuine = held.genuine;
  }

  drop_noise-IsHeld :
      (decoder : FrameDecoder) → IsHeld codec decoder → IsHeld codec (drop_noise decoder)
  unfolding drop_noise
  drop_noise-IsHeld decoder held = elim (Bool-cases (ltb 0 (length decoder.buffer - 1024))) [
    | inl t ↦
        rw (drop_noise, t)
          (rebuffered decoder (drop (length decoder.buffer - 1024) decoder.buffer) held)
    | inr f ↦ rw (drop_noise, f) held
  ]

  or_go_on-IsHeld :
      (answered : Fed) (go_on : FrameDecoder → Fed)
      → IsAnswer answered
      → ((next : FrameDecoder)
          → next.payload ≡ none
          → IsHeld codec next
          → IsHeld codec (go_on next).0)
      → IsHeld codec (or_go_on answered go_on).0
  or_go_on-IsHeld (next, ok none) go_on (held, unpaid, h) later = later next unpaid held
  or_go_on-IsHeld (next, ok (some p)) go_on (held, unpaid, h) later = record {
    within = held.within;
    counted = held.counted;
    narrow = held.narrow;
    genuine = λ payload e. h p refl ∙ e;
  }
  or_go_on-IsHeld (next, raise error) go_on (held, unpaid, h) later = held

  feed_lines-IsHeld :
      (u : Unread) (decoder : FrameDecoder)
      → decoder.payload ≡ none
      → IsHeld codec decoder
      → IsHeld codec (feed_lines codec u decoder).0
  unfolding feed_lines
  feed_lines-IsHeld (partial text) decoder unpaid held =
      drop_noise-IsHeld (record decoder { buffer = text }) (rebuffered decoder text held)
  feed_lines-IsHeld (complete text rest) decoder unpaid held =
      let cleared = record decoder { buffer = bytes_of rest } in
      or_go_on-IsHeld (consume codec cleared (rstrip carriage_return text)) (feed_lines codec rest)
        (consume-IsAnswer cleared (rstrip carriage_return text) unpaid
          (rebuffered decoder (bytes_of rest) held))
        (λ next e. feed_lines-IsHeld rest next e)

  feed_paid :
      (decoder : FrameDecoder) (bytes : Bytes) {payload : Bytes}
      → decoder.payload ≡ some payload
      → feed codec decoder bytes ≡ (decoder, ok none)
  unfolding feed
  feed_paid decoder bytes h = ground (arith, h)

  feed-IsHeld :
      (decoder : FrameDecoder) (bytes : Bytes)
      → IsHeld codec decoder
      → IsHeld codec (feed codec decoder bytes).0
  unfolding feed
  feed-IsHeld decoder bytes held = elim (Option-cases decoder.payload) [
    | inl n ↦
        rw (feed_open codec decoder bytes n)
          (feed_lines-IsHeld (cut (decoder.buffer ++ bytes)) decoder n held)
    | inr (p, e) ↦ rw (feed_paid decoder bytes e) held
  ]

  start-IsHeld : (name : Bytes) (limit : ℕ) → IsHeld codec (new_decoder name limit)
  unfolding new_decoder
  start-IsHeld name limit = record {
    within = omega arith;
    counted = omega arith;
    narrow = tt;
    genuine = λ payload e. cc;
  }

  -- Whatever a guest writes and however its bytes are cut, with refused lines among them, the chunks
  -- that a decoder keeps are within the limit of the transfer and the width of a chunk, and a payload
  -- that it has answered with is the decoding of all of them.
  pub Reaches-IsHeld :
      (name : Bytes) (limit : ℕ) {decoder : FrameDecoder}
      → Reaches codec (new_decoder name limit) decoder
      → IsHeld codec decoder
  Reaches-IsHeld name limit here = start-IsHeld name limit
  Reaches-IsHeld name limit (onward {decoder} bytes before) =
      feed-IsHeld decoder bytes (Reaches-IsHeld name limit before)

  or_go_on-payload :
      (answered : Fed) (go_on : FrameDecoder → Fed) (payload : Bytes)
      → ((next : FrameDecoder)
          → (go_on next).1 ≡ ok (some payload)
          → (go_on next).0.payload ≡ some payload)
      → (or_go_on answered go_on).1 ≡ ok (some payload)
      → (or_go_on answered go_on).0.payload ≡ some payload
  or_go_on-payload (next, ok none) go_on payload later h = later next h
  or_go_on-payload (next, ok (some p)) go_on payload later h = ground (arith, h)
  or_go_on-payload (next, raise error) go_on payload later h = cc

  feed_lines-payload :
      (u : Unread) (decoder : FrameDecoder) (payload : Bytes)
      → (feed_lines codec u decoder).1 ≡ ok (some payload)
      → (feed_lines codec u decoder).0.payload ≡ some payload
  unfolding feed_lines
  feed_lines-payload (partial text) decoder payload h = cc
  feed_lines-payload (complete text rest) decoder payload h =
      or_go_on-payload
        (consume codec (record decoder { buffer = bytes_of rest }) (rstrip carriage_return text))
        (feed_lines codec rest) payload (λ next. feed_lines-payload rest next payload) h

  -- The decoder answers with a payload once: whatever is fed to it after that changes nothing and
  -- answers nothing.
  pub feed_once :
      (decoder : FrameDecoder) (bytes more : Bytes) {payload : Bytes}
      → (feed codec decoder bytes).1 ≡ ok (some payload)
      → feed codec (feed codec decoder bytes).0 more ≡ ((feed codec decoder bytes).0, ok none)
  feed_once decoder bytes more {payload} h = elim (Option-cases decoder.payload) [
    | inr (p, e) ↦ cc (rw (feed_paid decoder bytes e) at h)
    | inl n ↦
        let begun = feed_open codec decoder bytes n in
        feed_paid (feed codec decoder bytes).0 more {payload = payload} (
          rw begun
            (feed_lines-payload (cut (decoder.buffer ++ bytes)) decoder payload (rw begun at h)))
  ]
