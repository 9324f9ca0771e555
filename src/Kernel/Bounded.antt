-- ===== src/Kernel/Bounded.antt =====
-- src/apex/kernel/bounded.py: untrusted output read into a bounded amount of memory.
pub mod Tail
use apex_fedora.Base.{
  Bool, Bytes, List, [], drop, if◌then◌else◌, leb, length, ltb, suc, take, zero, ℕ, ◌++◌, ◌+◌, ◌-◌,
  ◌∷◌,
}
use apex_fedora.Kernel.Refusals.{limit_not_positive, line_exceeds_limit}
use apex_fedora.Kernel.Errors.{Result, ok, raise, refusal, ◌>>=◌}

-- `Limit(value)`: the limits of the code are positive numbers.
unfoldable pub limit : ℕ → Result ℕ
limit value = if leb value 0 then raise (refusal limit_not_positive) else ok value

abbrev pub capture_limit : ℕ
capture_limit = 262144

abbrev pub serial_chunk : ℕ
serial_chunk = 768

pub record Bounded : Type 0 where
  pub content : Bytes
  pub truncated : Bool

-- `take(data, limit)`
unfoldable pub take_bounded : Bytes → ℕ → Bounded
take_bounded content limit = record {
  content = take limit content;
  truncated = ltb limit (length content);
}

-- `BoundedRingBuffer`
pub record RingBuffer : Type 0 where
  pub limit : ℕ
  pub content : Bytes
  pub dropped : ℕ

abbrev pub empty : ℕ → RingBuffer
empty limit = record { limit = limit; content = []; dropped = 0 }

-- `len(data) - limit`, which the source tests to be positive
unfoldable pub append : RingBuffer → Bytes → RingBuffer
append buffer chunk =
    let extended = buffer.content ++ chunk in
    let excess = length extended - buffer.limit in
    if ltb 0 excess
    then record buffer { content = drop excess extended; dropped = buffer.dropped + excess }
    else record buffer { content = extended }

-- `bounded_lines`, over the lines that `splitlines` gives: at most `maximum` of them, and the first
-- one that is too long raises.
unfoldable pub bounded_lines : List Bytes → ℕ → ℕ → Result (List Bytes)
bounded_lines [] line_limit maximum = ok []
bounded_lines (line ∷ lines) line_limit zero = ok []
bounded_lines (line ∷ lines) line_limit (suc maximum) =
    let rest = bounded_lines lines line_limit maximum in
    if ltb line_limit (length line)
    then raise (refusal line_exceeds_limit)
    else (rest >>= λ kept. ok (line ∷ kept))
