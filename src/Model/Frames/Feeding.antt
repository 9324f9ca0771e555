-- ===== src/Model/Frames/Feeding.antt =====
-- How the decoder of src/apex/model/serialframe.py takes its bytes: in any pieces, and in bounded memory.
use apex_fedora.Base.{
  Bool-cases, Bytes, [], ap, arith, eqb, false, inl, inr, length, none, refl, some, sym, ℕ, ◌++◌,
  ◌-◌, ◌∙◌, ◌∷◌, ◌≡◌, ◌≤◌, length-drop, append_assoc,
}
use apex_fedora.Kernel.Errors.{ok, raise}
use apex_fedora.Model.Frames.{
  Codec, FrameDecoder, Fed, Unread, partial, complete, longer, cut, bytes_of, newline,
  carriage_return, line_limit, drop_noise, take_chunk, finish, consume, or_go_on, feed_lines, feed,
  pending_bytes,
}
use apex_fedora.Base.{rstrip}

abbrev with_buffer : FrameDecoder → Bytes → FrameDecoder
with_buffer decoder bytes = record decoder { buffer = bytes }

abbrev refilled : Fed → Bytes → Fed
refilled (decoder, answer) bytes = (record decoder { buffer = bytes }, answer)

-- More bytes behind the unread ones.
extend : Unread → Bytes → Unread
extend (partial text) more = cut (text ++ more)
extend (complete text rest) more = complete text (extend rest more)

longer-extend :
    (c : ℕ) (u : Unread) (more : Bytes)
    → eqb c newline ≡ false
    → extend (longer c u) more ≡ longer c (extend u more)
unfolding extend cut
longer-extend c (partial text) more h = rw h refl
longer-extend c (complete text rest) more h = refl

cut-append : (bytes more : Bytes) → cut (bytes ++ more) ≡ extend (cut bytes) more
unfolding cut extend
cut-append [] more = refl
cut-append (c ∷ bytes) more = elim (Bool-cases (eqb c newline)) [
  | inl t ↦ rw (cut, extend, t) (ap (λ u. complete [] u) (cut-append bytes more))
  | inr f ↦ rw (cut, f, cut-append bytes more) (sym (longer-extend c (cut bytes) more f))
]

consume-with_buffer :
    (codec : Codec) (decoder : FrameDecoder) (bytes line : Bytes)
    → consume codec (with_buffer decoder bytes) line ≡ refilled (consume codec decoder line) bytes
unfolding consume take_chunk finish
consume-with_buffer codec decoder bytes line = ground arith

feed_lines-with_buffer :
    (codec : Codec) (u : Unread) (decoder : FrameDecoder) (bytes : Bytes)
    → feed_lines codec u (with_buffer decoder bytes) ≡ feed_lines codec u decoder
unfolding feed_lines
feed_lines-with_buffer codec (partial text) decoder bytes = refl
feed_lines-with_buffer codec (complete text rest) decoder bytes = refl

-- The unread bytes behind the last line end.
abbrev pub last_part : Unread → Bytes
last_part (partial text) = text
last_part (complete text rest) = last_part rest

consume-payload :
    (codec : Codec) (decoder : FrameDecoder) (line : Bytes)
    → (consume codec decoder line).0.payload ≡ decoder.payload
unfolding consume take_chunk finish
consume-payload codec decoder line = ground arith

drop_noise_short :
    (decoder : FrameDecoder) → length decoder.buffer ≤ line_limit → drop_noise decoder ≡ decoder
unfolding drop_noise
drop_noise_short decoder h = ground arith

pub feed_open :
    (codec : Codec) (decoder : FrameDecoder) (bytes : Bytes)
    → decoder.payload ≡ none
    → feed codec decoder bytes ≡ feed_lines codec (cut (decoder.buffer ++ bytes)) decoder
unfolding feed
feed_open codec decoder bytes h = ground (arith, h)

-- After a line the loop goes on, with a buffer that it does not read.
go_on-refilled :
    (codec : Codec) (fed : Fed) (bytes : Bytes) (rest : Unread)
    → fed.1 ≡ ok none
    → or_go_on (refilled fed bytes) (feed_lines codec rest) ≡ feed_lines codec rest fed.0
go_on-refilled codec (decoder, ok none) bytes rest h =
    feed_lines-with_buffer codec rest decoder bytes
go_on-refilled codec (decoder, ok (some payload)) bytes rest h = cc
go_on-refilled codec (decoder, raise error) bytes rest h = cc

go_on-ok :
    (fed : Fed) (bytes : Bytes) (go_on : FrameDecoder → Fed)
    → (or_go_on (refilled fed bytes) go_on).1 ≡ ok none
    → fed.1 ≡ ok none
go_on-ok (decoder, ok none) bytes go_on h = refl
go_on-ok (decoder, ok (some payload)) bytes go_on h = cc
go_on-ok (decoder, raise error) bytes go_on h = cc

module _ (codec : Codec) where
  goes_on :
      (text : Bytes) (rest : Unread) (decoder : FrameDecoder)
      → (consume codec decoder (rstrip carriage_return text)).1 ≡ ok none
      → feed_lines codec (complete text rest) decoder
        ≡ feed_lines codec rest (consume codec decoder (rstrip carriage_return text)).0
  unfolding feed_lines
  goes_on text rest decoder h =
      let line = rstrip carriage_return text in
      ap (λ f. or_go_on f (feed_lines codec rest))
        (consume-with_buffer codec decoder (bytes_of rest) line)
      ∙ go_on-refilled codec (consume codec decoder line) (bytes_of rest) rest h

  line_quiet :
      (text : Bytes) (rest : Unread) (decoder : FrameDecoder)
      → (feed_lines codec (complete text rest) decoder).1 ≡ ok none
      → (consume codec decoder (rstrip carriage_return text)).1 ≡ ok none
  unfolding feed_lines
  line_quiet text rest decoder h =
      let line = rstrip carriage_return text in
      go_on-ok (consume codec decoder line) (bytes_of rest) (feed_lines codec rest) (
        ap (λ f. (or_go_on f (feed_lines codec rest)).1)
          (sym (consume-with_buffer codec decoder (bytes_of rest) line))
        ∙ h)

  feed_lines-extend :
      (u : Unread) (decoder : FrameDecoder) (more : Bytes)
      → decoder.payload ≡ none
      → length (last_part u) ≤ line_limit
      → (feed_lines codec u decoder).1 ≡ ok none
      → feed_lines codec (extend u more) decoder ≡ feed codec (feed_lines codec u decoder).0 more
  unfolding feed_lines extend
  feed_lines-extend (partial text) decoder more unpaid short h =
      let kept = drop_noise_short (with_buffer decoder text) short in
      rw (feed_lines, extend, kept, feed_open codec (with_buffer decoder text) more unpaid)
        (sym (feed_lines-with_buffer codec (cut (text ++ more)) decoder text))
  feed_lines-extend (complete text rest) decoder more unpaid short h =
      let line = rstrip carriage_return text in
      let fed = consume codec decoder line in
      let answer : fed.1 ≡ ok none = line_quiet text rest decoder h in
      let first = goes_on text rest decoder answer in
      let other = goes_on text (extend rest more) decoder answer in
      let still : fed.0.payload ≡ none = consume-payload codec decoder line ∙ unpaid in
      other
      ∙ feed_lines-extend rest fed.0 more still short (ap (λ f. f.1) (sym first) ∙ h)
      ∙ ap (λ f. feed codec f.0 more) (sym first)

  -- If the bytes so far gave neither a payload nor an error, and the unread ones are within the limit
  -- of a line, then more bytes have the same effect whether they come with them or after them: what
  -- the decoder answers does not depend on how the stream is cut.
  pub feed-append :
      (decoder : FrameDecoder) (bytes more : Bytes)
      → decoder.payload ≡ none
      → (feed codec decoder bytes).1 ≡ ok none
      → length (last_part (cut (decoder.buffer ++ bytes))) ≤ line_limit
      → feed codec decoder (bytes ++ more) ≡ feed codec (feed codec decoder bytes).0 more
  feed-append decoder bytes more unpaid quiet short =
      let begun = feed_open codec decoder bytes unpaid in
      feed_open codec decoder (bytes ++ more) unpaid
      ∙ ap (λ b. feed_lines codec (cut b) decoder) (sym (append_assoc decoder.buffer bytes more))
      ∙ ap (λ u. feed_lines codec u decoder) (cut-append (decoder.buffer ++ bytes) more)
      ∙ feed_lines-extend (cut (decoder.buffer ++ bytes)) decoder more unpaid short
          (ap (λ f. f.1) (sym begun) ∙ quiet)
      ∙ ap (λ f. feed codec f.0 more) (sym begun)

  drop_noise_bounded : (decoder : FrameDecoder) → pending_bytes (drop_noise decoder) ≤ line_limit
  unfolding drop_noise
  drop_noise_bounded decoder =
      let left = length-drop (length decoder.buffer - line_limit) decoder.buffer in
      ground (arith, left)

  feed_lines_bounded :
      (u : Unread) (decoder : FrameDecoder)
      → (feed_lines codec u decoder).1 ≡ ok none
      → pending_bytes (feed_lines codec u decoder).0 ≤ line_limit
  unfolding feed_lines
  feed_lines_bounded (partial text) decoder h = drop_noise_bounded (with_buffer decoder text)
  feed_lines_bounded (complete text rest) decoder h =
      let first = goes_on text rest decoder (line_quiet text rest decoder h) in
      rw first (
        feed_lines_bounded rest (consume codec decoder (rstrip carriage_return text)).0
          (ap (λ f. f.1) (sym first) ∙ h))

  -- Once bytes were taken without a payload or an error, a decoder that still waits for its payload
  -- holds at most one line of unread bytes, however many there were.
  pub feed_bounded :
      (decoder : FrameDecoder) (bytes : Bytes)
      → decoder.payload ≡ none
      → (feed codec decoder bytes).1 ≡ ok none
      → pending_bytes (feed codec decoder bytes).0 ≤ line_limit
  feed_bounded decoder bytes unpaid quiet =
      let begun = feed_open codec decoder bytes unpaid in
      rw begun (
        feed_lines_bounded (cut (decoder.buffer ++ bytes)) decoder
          (ap (λ f. f.1) (sym begun) ∙ quiet))
