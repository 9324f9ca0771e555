-- ===== src/Attestation/Tests.antt =====
-- The theorems on readiness, applied to a catalogue of two checks.
use apex_fedora.Base.{
  All, Dict, List, String, [], contains, false, has, if◌then◌else◌, insert, insert_by, lookup, none,
  refl, some, sort_by, sorted, sorted_by, true, ◌&&◌, ◌↔◌, ◌∷◌, ◌≡◌,
}
use apex_fedora.Kernel.Errors.{ok}
use apex_fedora.Kernel.Refusals.{legacy_import_not_reproven}
use apex_fedora.Kernel.Verdicts.{
  stored_name, require_all, Verdict, passed, not_tested, permits_installation,
}
use apex_fedora.Kernel.Claims.{
  legacy_no_candidate_readback, legacy_no_port_proof, limit_value, EnvironmentKind, vm, physical,
  live_vm,
}
use apex_fedora.Attestation.Readiness.{count_verdicts, ResolvedRecord, Outcome, evaluate}
use apex_fedora.Attestation.Readiness.Decision.{IsReady, evaluate-ready_iff}
use apex_fedora.Attestation.Attesting.{Attestation, recorded, imported, legacy_limits, attestation}
use apex_fedora.Attestation.Columns
use apex_fedora.Attestation.Columns.{
  StoreReading, Table, tabulate, rows_of, by_check, stated_before, origin_of, limits_of,
}
use apex_fedora.Attestation.Columns.Strict.{IsHonest, tabulate-IsHonest}
use apex_fedora.Attestation.Retracting.{withhold, imported_checks, is_withheld, retract}
use apex_fedora.Attestation.Retracting.Strict.{IsMade, resolved_of, retract_withholds}
use apex_fedora.Attestation.Retracting.Ready.{retract-evaluate_ready}

abbrev required : Dict EnvironmentKind
required = ("boots", vm) ∷ ("sleeps", physical) ∷ []

abbrev booted : ResolvedRecord
booted = record {
  check = "boots";
  verdict = passed;
  environment = live_vm;
  candidate = "ab";
  proofs_intact = true;
  proof_count = 2;
  imported = false;
}

abbrev slept : ResolvedRecord
slept = record {
  check = "sleeps";
  verdict = passed;
  environment = physical;
  candidate = "ab";
  proofs_intact = true;
  proof_count = 1;
  imported = true;
}

abbrev attestations : List Attestation
attestations =
    record { kind = recorded; resolved = booted; limits = []; origin = "chain#0" }
    ∷ record { kind = imported; resolved = slept; limits = legacy_limits; origin = "sleeps.json" }
    ∷ []

evaluate-ready_iff_example :
    ((evaluate required (booted ∷ slept ∷ []) (some "ab")).ready ≡ true) ↔ (
      (digest : String) × (some "ab" ≡ some digest) × IsReady required (booted ∷ slept ∷ []) digest)
evaluate-ready_iff_example = evaluate-ready_iff required (booted ∷ slept ∷ []) (some "ab")

sleeps_required : has "sleeps" required ≡ true
unfolding has
sleeps_required = refl

abbrev before : Outcome
before = evaluate required (resolved_of attestations) (some "ab")

retract_withholds_example :
    All
      (λ item. is_withheld (imported_checks attestations) item.0 item.1 ≡ false)
      (retract before attestations).0.verdicts
    × ((name : String) (v : Verdict)
        → lookup name before.verdicts ≡ some v
        → lookup name (retract before attestations).0.verdicts
          ≡ some (
              if contains name (imported_checks attestations) && permits_installation v
              then not_tested legacy_import_not_reproven
              else v))
    × ((retract before attestations).0.faults ≡ before.faults)
    × ((retract before attestations).0.ready ≡ true → before.ready ≡ true)
retract_withholds_example = retract_withholds before attestations

attestations-IsMade : All IsMade attestations
unfolding attestation limit_value
attestations-IsMade = (refl, (refl, tt))

retract-evaluate_ready_example :
    (retract (evaluate required (resolved_of attestations) (some "ab")) attestations).0.ready
    ≡ (evaluate required (resolved_of attestations) (some "ab")).ready
retract-evaluate_ready_example =
    retract-evaluate_ready required attestations (some "ab") attestations-IsMade

abbrev reading : StoreReading
reading = record { version = 2; attestations = attestations; candidate = some "ab"; faults = [] }

-- What was decided before the retraction.
abbrev decided : Outcome
decided = record {
  ready = true;
  verdicts = ("boots", passed) ∷ ("sleeps", passed) ∷ [];
  counts = ("PASS", 2) ∷ [];
  faults = [];
}

abbrev strict_table : Table
strict_table = record {
  version = 2;
  strict = true;
  ready = false;
  imported_rows = 1;
  counts = ("PASS", 1) ∷ ("NOT TESTED", 1) ∷ [];
  rows =
      record {
        check = "boots";
        verdict = passed;
        origin = Columns.recorded;
        limits = [];
        withheld = none;
      }
      ∷ record {
        check = "sleeps";
        verdict = not_tested legacy_import_not_reproven;
        origin = Columns.imported;
        limits = legacy_no_candidate_readback ∷ legacy_no_port_proof ∷ [];
        withheld = some passed;
      }
      ∷ [];
  faults = [];
}

strict_tabulated :
    tabulate reading (retract decided attestations).0 (retract decided attestations).1 true
    ≡ ok strict_table
unfolding tabulate rows_of by_check stated_before origin_of limits_of retract withhold is_withheld
    imported_checks count_verdicts stored_name permits_installation require_all limit_value sorted
    sorted_by sort_by insert_by lookup insert
strict_tabulated = refl

tabulate-IsHonest_example : All IsHonest strict_table.rows
tabulate-IsHonest_example = tabulate-IsHonest reading decided strict_table strict_tabulated
