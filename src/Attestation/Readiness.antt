-- ===== src/Attestation/Readiness.antt =====
-- src/apex/attestation/readiness.py: the decision over the whole catalogue. A fault is its reason and its
-- check; the text behind them is left out.
pub mod Reading
pub mod Decision
use apex_fedora.Base.{
  Bool, Dict, List, Option, String, [], eqb, false, has, if◌then◌else◌, insert, is_some, lookup,
  none, not, some, true, values, ℕ, ◌&&◌, ◌++◌, ◌+◌, ◌==◌, ◌||◌, ◌∷◌,
}
use apex_fedora.Kernel.Refusals.{
  RefusalReason, record_not_bound_to_candidate, proof_altered, hardware_requires_physical,
  pass_requires_proof, unknown_check, duplicate_evidence, no_verified_result,
}
use apex_fedora.Kernel.Verdicts.{
  Verdict, passed, failed, blocked, not_tested, permits_installation, require_all, stored_name,
}
use apex_fedora.Kernel.Claims.{EnvironmentKind, satisfies}

pub record ResolvedRecord : Type 0 where
  pub check : String
  pub verdict : Verdict
  pub environment : EnvironmentKind
  pub candidate : String
  pub proofs_intact : Bool
  pub proof_count : ℕ
  pub imported : Bool

-- `_blocked`
pub record Fault : Type 0 where
  pub reason : RefusalReason
  pub check : String

pub record Outcome : Type 0 where
  pub ready : Bool
  pub verdicts : Dict Verdict
  pub counts : Dict ℕ
  pub faults : List Fault

-- `_Stated`
pub record Stated : Type 0 where
  pub verdicts : Dict Verdict
  pub faults : List Fault
  pub standing_on_imported : Bool

-- `record.verdict == PASSED`
abbrev pub is_passed : Verdict → Bool
is_passed passed = true
is_passed failed = false
is_passed blocked = false
is_passed (not_tested _) = false

-- `_judge`
unfoldable pub judge : ResolvedRecord → EnvironmentKind → String → Verdict × Option Fault
judge item required_environment candidate =
    if not (item.candidate == candidate)
    then (blocked, some (record { reason = record_not_bound_to_candidate; check = item.check }))
    else if not item.proofs_intact
    then (blocked, some (record { reason = proof_altered; check = item.check }))
    else if not (satisfies item.environment required_environment)
    then (blocked, some (record { reason = hardware_requires_physical; check = item.check }))
    else if is_passed item.verdict && eqb item.proof_count 0
    then (blocked, some (record { reason = pass_requires_proof; check = item.check }))
    else (item.verdict, none)

-- The loop of `_one_record_per_known_check`: what is seen, and the faults.
unfoldable pub admit :
    Dict EnvironmentKind
    → ResolvedRecord
    → Dict ResolvedRecord × List Fault
    → Dict ResolvedRecord × List Fault
admit required item (seen, faults) =
    if not (has item.check required)
    then (seen, faults ++ record { reason = unknown_check; check = item.check } ∷ [])
    else if has item.check seen
    then (seen, faults ++ record { reason = duplicate_evidence; check = item.check } ∷ [])
    else (insert item.check item seen, faults)

unfoldable pub collect :
    Dict EnvironmentKind
    → List ResolvedRecord
    → Dict ResolvedRecord × List Fault
    → Dict ResolvedRecord × List Fault
unfolding admit
collect required [] state = state
collect required (item ∷ items) state = collect required items (admit required item state)

-- `_one_record_per_known_check`
unfoldable pub one_record_per_known_check :
    List ResolvedRecord → Dict EnvironmentKind → Dict ResolvedRecord × List Fault
unfolding collect
one_record_per_known_check records required = collect required records ([], [])

-- `candidate or found.candidate`
abbrev pub or_own : Option String → String → String
or_own none own = own
or_own (some candidate) own = candidate

abbrev pub with_fault : Option Fault → List Fault → List Fault
with_fault none faults = faults
with_fault (some fault) faults = fault ∷ faults

-- What one required check is stated as: its verdict, its fault, and whether it stands on an import.
unfoldable pub state_check :
    Option ResolvedRecord → EnvironmentKind → Option String → Verdict × (Option Fault × Bool)
unfolding judge
state_check none environment candidate = (not_tested no_verified_result, (none, false))
state_check (some found) environment candidate =
    let (verdict, fault) = judge found environment (or_own candidate found.candidate) in
    (verdict, (fault, found.imported && permits_installation verdict))

-- `_state_every_check`: the loop over the required checks, whose names are distinct.
unfoldable pub state_every_check :
    Dict EnvironmentKind → Dict ResolvedRecord → Option String → Stated
unfolding state_check
state_every_check [] seen candidate = record {
  verdicts = [];
  faults = [];
  standing_on_imported = false;
}
state_every_check ((name, environment) ∷ required) seen candidate =
    let (verdict, (fault, stands)) = state_check (lookup name seen) environment candidate in
    let rest = state_every_check required seen candidate in
    record {
      verdicts = (name, verdict) ∷ rest.verdicts;
      faults = with_fault fault rest.faults;
      standing_on_imported = stands || rest.standing_on_imported;
    }

-- `counts.get(name, 0)`
abbrev pub or_zero : Option ℕ → ℕ
or_zero none = 0
or_zero (some n) = n

-- `_counts`
unfoldable pub count_verdicts : List Verdict → Dict ℕ → Dict ℕ
unfolding stored_name
count_verdicts [] counts = counts
count_verdicts (verdict ∷ verdicts) counts =
    count_verdicts verdicts
      (insert (stored_name verdict) (or_zero (lookup (stored_name verdict) counts) + 1) counts)

abbrev pub is_clean : List Fault → Bool
is_clean [] = true
is_clean (_ ∷ _) = false

-- `evaluate`
unfoldable pub evaluate : Dict EnvironmentKind → List ResolvedRecord → Option String → Outcome
evaluate required records candidate =
    let (seen, reading_faults) = one_record_per_known_check records required in
    let stated = state_every_check required seen candidate in
    let faults = reading_faults ++ stated.faults in
    record {
      ready =
          is_some candidate
          && is_clean faults
          && not stated.standing_on_imported
          && require_all (values stated.verdicts);
      verdicts = stated.verdicts;
      counts = count_verdicts (values stated.verdicts) [];
      faults = faults;
    }
