-- ===== src/Attestation/Columns.antt =====
-- src/apex/attestation/columns.py: the table of the checks, with where each record came from. `StoreReading` is
-- declared in src/apex/attestation/readerspecs.py.
pub mod Strict
use apex_fedora.Base.{
  Bool, Dict, List, Option, String, [], if◌then◌else◌, insert, keys, lookup, none, some, sorted,
  sorted_by, ℕ, ◌++◌, ◌+◌, ◌∷◌,
}
use apex_fedora.Kernel.Errors.{Result, ok, raise, other_exception, ◌>>=◌}
use apex_fedora.Kernel.Verdicts.{Verdict}
use apex_fedora.Kernel.Claims.{ScopeLimit, limit_value}
use apex_fedora.Attestation.Readiness.{Outcome, Fault}
use apex_fedora.Attestation.Attesting.{Attestation, is_imported, check_of}
use apex_fedora.Attestation.Retracting.{Withheld}

pub record StoreReading : Type 0 where
  pub version : ℕ
  pub attestations : List Attestation
  pub candidate : Option String
  pub faults : List Fault

pub data Origin : Type 0 where
  imported recorded absent : Origin

pub record Row : Type 0 where
  pub check : String
  pub verdict : Verdict
  pub origin : Origin
  pub limits : List ScopeLimit
  pub withheld : Option Verdict

pub record Table : Type 0 where
  pub version : ℕ
  pub strict : Bool
  pub ready : Bool
  pub imported_rows : ℕ
  pub counts : Dict ℕ
  pub rows : List Row
  pub faults : List Fault

-- `{item.check: item for item in reading.attestations}`
unfoldable pub by_check : List Attestation → Dict Attestation → Dict Attestation
by_check [] found = found
by_check (item ∷ items) found = by_check items (insert (check_of item) item found)

-- `{item.check: item.stated for item in withheld}`
unfoldable pub stated_before : List Withheld → Dict Verdict → Dict Verdict
stated_before [] found = found
stated_before (item ∷ items) found = stated_before items (insert item.check item.stated found)

-- `_origin`
unfoldable pub origin_of : Option Attestation → Origin
origin_of none = absent
origin_of (some item) = if is_imported item.kind then imported else recorded

-- `tuple(sorted(by_check[name].limits)) if name in by_check else ()`
unfoldable pub limits_of : Option Attestation → List ScopeLimit
limits_of none = []
limits_of (some item) = sorted_by limit_value item.limits

-- `Row(...)` of one name
abbrev pub row_of : Dict Attestation → Dict Verdict → String → Verdict → Row
row_of found before name verdict = record {
  check = name;
  verdict = verdict;
  origin = origin_of (lookup name found);
  limits = limits_of (lookup name found);
  withheld = lookup name before;
}

-- The rows, for the names in order
unfoldable pub rows_of :
    Dict Attestation → Dict Verdict → Dict Verdict → List String → Result (List Row)
unfolding origin_of limits_of
rows_of found before verdicts [] = ok []
rows_of found before verdicts (name ∷ names) = elim (lookup name verdicts) [
  | none ↦ raise other_exception
  | some verdict ↦
      rows_of found before verdicts names >>= λ rows. ok (row_of found before name verdict ∷ rows)
]

-- `sum(1 for row in rows if row.origin is Origin.IMPORTED)`
abbrev pub count_one : Origin → ℕ
count_one imported = 1
count_one recorded = 0
count_one absent = 0

abbrev pub count_imported : List Row → ℕ
count_imported [] = 0
count_imported (row ∷ rows) = count_one row.origin + count_imported rows

-- `tabulate`
unfoldable pub tabulate : StoreReading → Outcome → List Withheld → Bool → Result Table
tabulate reading outcome withheld strict = do
  rows ←
      rows_of (by_check reading.attestations []) (stated_before withheld []) outcome.verdicts
        (sorted (keys outcome.verdicts))
  ok (record {
    version = reading.version;
    strict = strict;
    ready = outcome.ready;
    imported_rows = count_imported rows;
    counts = outcome.counts;
    rows = rows;
    faults = outcome.faults ++ reading.faults;
  })
