-- ===== src/Kernel/Bounded/Tail.antt =====
-- The ring buffer keeps the tail of everything it was given (src/apex/kernel/bounded.py).
use apex_fedora.Base.{
  Bool-cases, Bytes, List, [], ap, append-nil, append_assoc, arith, drop, drop-append_left,
  drop-nil, drop-drop, inl, inr, length, length-append, length-drop, ltb, ltb_iff, refl, sym, ℕ,
  ◌++◌, ◌+◌, ◌-◌, ◌∙◌, ◌∷◌, ◌≡◌, ◌≤◌,
}
use apex_fedora.Kernel.Bounded.{RingBuffer, empty, append}

-- The chunks appended one after another.
abbrev pub append_all : RingBuffer → List Bytes → RingBuffer
append_all buffer [] = buffer
append_all buffer (chunk ∷ chunks) = append_all (append buffer chunk) chunks

-- Every byte that was ever given.
abbrev pub stream : List Bytes → Bytes
stream [] = []
stream (chunk ∷ chunks) = chunk ++ stream chunks

-- What a buffer of this limit holds of a history: its last bytes, and how many came before.
pub record Keeps (limit : ℕ) (history : Bytes) (buffer : RingBuffer) : Type 0 where
  pub same_limit : buffer.limit ≡ limit
  pub tail : buffer.content ≡ drop (length history - limit) history
  pub count : buffer.dropped ≡ length history - limit

append-Keeps :
    (limit : ℕ) (history chunk : Bytes) (buffer : RingBuffer)
    → Keeps limit history buffer
    → Keeps limit (history ++ chunk) (append buffer chunk)
unfolding append
append-Keeps limit history chunk buffer k =
    let n : ℕ = length history - limit in
    let joined : buffer.content ++ chunk ≡ drop n (history ++ chunk) =
      rw k.tail (sym (drop-append_left n history chunk (omega arith))) in
    let total : length (history ++ chunk) ≡ length history + length chunk =
      length-append history chunk in
    let size : length (buffer.content ++ chunk) ≡ length (history ++ chunk) - n =
      rw joined (length-drop n (history ++ chunk)) in
    let e : ℕ = length (buffer.content ++ chunk) - buffer.limit in
    let same : buffer.limit ≡ limit = k.same_limit in
    let count : buffer.dropped ≡ n = k.count in
    elim (Bool-cases (ltb 0 e)) [
      | inl t ↦ rw t (record {
        same_limit = same;
        tail =
            ap (drop e) joined
            ∙ drop-drop e n (history ++ chunk)
            ∙ ap (λ m. drop m (history ++ chunk)) {y = length (history ++ chunk) - limit}
                (omega (arith, (ltb_iff 0 e).0 t));
        count = omega (arith, (ltb_iff 0 e).0 t);
      })
      | inr f ↦ rw f (record {
        same_limit = same;
        tail =
            joined
            ∙ ap (λ m. drop m (history ++ chunk)) {y = length (history ++ chunk) - limit}
                (ground arith);
        count = ground arith;
      })
    ]

append_all-Keeps :
    (limit : ℕ) (chunks : List Bytes) (history : Bytes) (buffer : RingBuffer)
    → Keeps limit history buffer
    → Keeps limit (history ++ stream chunks) (append_all buffer chunks)
append_all-Keeps limit [] history buffer k = rw append-nil k
append_all-Keeps limit (c ∷ cs) history buffer k = rw (← append_assoc history c (stream cs)) (
    append_all-Keeps limit cs (history ++ c) (append buffer c)
      (append-Keeps limit history c buffer k))

-- Whatever arrives, in whatever chunks, the buffer holds the last `limit` bytes of it (all of it, if
-- there are no more), never more than `limit` bytes, and counts exactly the bytes that are gone.
pub append_all-tail :
    (limit : ℕ) (chunks : List Bytes)
    → ((append_all (empty limit) chunks).content
        ≡ drop (length (stream chunks) - limit) (stream chunks))
      × (length (append_all (empty limit) chunks).content ≤ limit)
      × ((append_all (empty limit) chunks).dropped
            + length (append_all (empty limit) chunks).content
          ≡ length (stream chunks))
append_all-tail limit chunks =
    let k : Keeps limit (stream chunks) (append_all (empty limit) chunks) =
      append_all-Keeps limit chunks [] (empty limit) (record {
        same_limit = refl;
        tail = sym (drop-nil {A = ℕ} (0 - limit));
        count = omega arith;
      }) in
    (
      k.tail,
      rw k.tail (omega (arith, length-drop (length (stream chunks) - limit) (stream chunks))),
      rw (k.tail, k.count)
          (omega (arith, length-drop (length (stream chunks) - limit) (stream chunks))),
    )
