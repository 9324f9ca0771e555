-- ===== src/Model/Extents.antt =====
-- src/apex/model/extents.py: the aligned ranges in which two files are asked to share their blocks.
pub mod Tiling
use apex_fedora.Base.{
  Bool, List, [], eqb, if◌then◌else◌, leb, min, not, range, ℕ, ◌%◌, ◌&&◌, ◌*◌, ◌-◌, ◌/◌, ◌||◌,
}
use apex_fedora.Kernel.Refusals.{fixture_request_malformed}
use apex_fedora.Kernel.Errors.{Result, ok, raise, refusal, traverse}

abbrev pub chunk : ℕ
chunk = 16 * 1024 * 1024

abbrev pub alignment : ℕ
alignment = 4096

abbrev pub same_data : ℕ
same_data = 0

abbrev pub differs : ℕ
differs = 1

pub record DedupeRange : Type 0 where
  pub offset : ℕ
  pub extent : ℕ

-- The offsets of the code are counted up from 0, so that none is negative.
unfoldable pub dedupe_range : ℕ → ℕ → Result DedupeRange
dedupe_range offset extent =
    let aligned = eqb (offset % alignment) 0 && eqb (extent % alignment) 0 in
    if leb extent 0 || not aligned
    then raise (refusal fixture_request_malformed)
    else ok (record { offset = offset; extent = extent })

pub record DedupeOutcome : Type 0 where
  pub bytes_deduped : ℕ
  pub status : ℕ

unfoldable pub complete : DedupeOutcome → Bool
complete outcome = eqb outcome.status same_data

unfoldable pub differed : DedupeOutcome → Bool
differed outcome = eqb outcome.status differs

unfoldable pub shareable_length : ℕ → ℕ
shareable_length size = size / alignment * alignment

unfoldable pub spans : ℕ → Result (List DedupeRange)
unfolding shareable_length dedupe_range range
spans size =
    let total = shareable_length size in
    traverse (λ offset. dedupe_range offset (min chunk (total - offset))) (range total chunk)
