-- ===== src/Attestation/Retracting.antt =====
-- src/apex/attestation/retracting.py: strict readiness withholds what stands on an imported record.
pub mod Strict
pub mod Ready
use apex_fedora.Base.{Bool, Dict, List, String, [], contains, if◌then◌else◌, values, ◌&&◌, ◌∷◌}
use apex_fedora.Kernel.Refusals.{legacy_import_not_reproven}
use apex_fedora.Kernel.Verdicts.{Verdict, not_tested, permits_installation, require_all}
use apex_fedora.Attestation.Readiness.{Outcome, count_verdicts}
use apex_fedora.Attestation.Attesting.{Attestation, is_imported, check_of}

pub record Withheld : Type 0 where
  pub check : String
  pub stated : Verdict

-- `{item.check for item in attestations if item.kind is IMPORTED}`
unfoldable pub imported_checks : List Attestation → List String
imported_checks [] = []
imported_checks (item ∷ items) =
    let rest = imported_checks items in if is_imported item.kind then check_of item ∷ rest else rest

-- `name in imported and verdict.permits_installation`
unfoldable pub is_withheld : List String → String → Verdict → Bool
is_withheld imported name verdict = contains name imported && permits_installation verdict

-- The loop over the outcome's verdicts: what is stated, and what is withheld.
unfoldable pub withhold : List String → Dict Verdict → Dict Verdict × List Withheld
unfolding is_withheld
withhold imported [] = ([], [])
withhold imported ((name, verdict) ∷ verdicts) =
    let (stated, withheld) = withhold imported verdicts in
    if is_withheld imported name verdict
    then (
      (name, not_tested legacy_import_not_reproven) ∷ stated,
      record { check = name; stated = verdict } ∷ withheld,
    )
    else ((name, verdict) ∷ stated, withheld)

-- `retract`
unfoldable pub retract : Outcome → List Attestation → Outcome × List Withheld
unfolding imported_checks withhold
retract outcome attestations =
    let (stated, withheld) = withhold (imported_checks attestations) outcome.verdicts in
    (
      record {
        ready = outcome.ready && require_all (values stated);
        verdicts = stated;
        counts = count_verdicts (values stated) [];
        faults = outcome.faults;
      },
      withheld,
    )
