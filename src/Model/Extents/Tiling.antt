-- ===== src/Model/Extents/Tiling.antt =====
-- The ranges of src/apex/model/extents.py cover the aligned prefix of a file, each byte once.
use apex_fedora.Base.{
  Bool-cases, List, [], arith, inl, inr, ltb, min, range, range_from, refl, suc, zero, ℕ, ◌%◌, ◌*◌,
  ◌+◌, ◌-◌, ◌/◌, ◌<◌, ◌∷◌, ◌≡◌, ◌≤◌,
}
use apex_fedora.Kernel.Errors.{ok, traverse}
use apex_fedora.Model.Extents.{DedupeRange, alignment, chunk, dedupe_range, shareable_length, spans}

-- The ranges lie one behind the other from `start` to `stop`; each is aligned, not empty, and no longer
-- than a chunk.
abbrev pub IsTiling : ℕ → ℕ → List DedupeRange → Type 0
IsTiling start stop [] = start ≡ stop
IsTiling start stop (r ∷ ranges) =
    (r.offset ≡ start)
    × (r.offset % alignment ≡ 0)
    × (r.extent % alignment ≡ 0)
    × (1 ≤ r.extent)
    × (r.extent ≤ chunk)
    × IsTiling (start + r.extent) stop ranges

dedupe_range-ok :
    (offset extent : ℕ)
    → offset % alignment ≡ 0
    → extent % alignment ≡ 0
    → 1 ≤ extent
    → dedupe_range offset extent ≡ ok (record { offset = offset; extent = extent })
unfolding dedupe_range
dedupe_range-ok offset extent h k more = ground arith

tile_from :
    (count start total : ℕ)
    → start % alignment ≡ 0
    → total % alignment ≡ 0
    → total ≤ start + count * chunk
    → (ranges : List DedupeRange) × (traverse
          (λ offset. dedupe_range offset (min chunk (total - offset)))
          (range_from count start total chunk)
        ≡ ok ranges)
      × IsTiling (min start total) total ranges
unfolding range_from
tile_from zero start total at_start at_end enough = ([], refl, omega arith)
tile_from (suc count) start total at_start at_end enough = elim (Bool-cases (ltb start total)) [
  | inr f ↦ ([], rw (range_from, f) refl, ground arith)
  | inl t ↦
      let extent = min chunk (total - start) in
      let below : start < total = ground arith in
      let (ranges, rest, tiles) =
        tile_from count (start + chunk) total (omega arith) at_end (omega (arith, enough)) in
      let here = dedupe_range-ok start extent at_start (omega arith) (omega (arith, below)) in
      let next : min start total + extent ≡ min (start + chunk) total = omega (arith, below) in
      (
        record { offset = start; extent = extent } ∷ ranges,
        rw (range_from, t, here, rest) refl,
        (
          omega (arith, below),
          at_start,
          omega arith,
          omega (arith, below),
          omega arith,
          rw next tiles,
        ),
      )
]

-- For every size the ranges are made, none refused: they tile the aligned prefix of the file from 0
-- without a gap or an overlap, each aligned, not empty and at most a chunk long, and less than one block of
-- the file is behind them.
pub spans-IsTiling :
    (size : ℕ)
    → (ranges : List DedupeRange) × (spans size ≡ ok ranges)
      × IsTiling 0 (shareable_length size) ranges
      × (shareable_length size ≤ size)
      × (size < shareable_length size + alignment)
unfolding spans shareable_length range
spans-IsTiling size =
    let total = size / 4096 * 4096 in
    let (ranges, made, tiles) =
      tile_from (total / chunk + 1) 0 total refl (omega arith) (omega arith) in
    let start : min 0 total ≡ 0 = omega arith in
    (ranges, made, rw start at tiles, omega arith, omega arith)
