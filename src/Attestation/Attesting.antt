-- ===== src/Attestation/Attesting.antt =====
-- src/apex/attestation/attesting.py: what an imported record is, and the limits it keeps for as long as it
-- exists. `EntryKind` is declared in src/apex/attestation/ledger.py. A set of limits is a list of them.
use apex_fedora.Base.{Bool, List, String, [], all, any, false, not, true, ◌&&◌, ◌==◌, ◌∷◌}
use apex_fedora.Kernel.Errors.{Result, ok, raise_if, internal_defect, ◌>>◌}
use apex_fedora.Kernel.Claims.{
  ScopeLimit, limit_value, legacy_no_port_proof, legacy_no_candidate_readback,
}
use apex_fedora.Attestation.Readiness.{ResolvedRecord}

pub data EntryKind : Type 0 where
  recorded imported : EntryKind

abbrev pub is_imported : EntryKind → Bool
is_imported recorded = false
is_imported imported = true

abbrev pub legacy_limits : List ScopeLimit
legacy_limits = legacy_no_port_proof ∷ legacy_no_candidate_readback ∷ []

-- `limit in limits`
abbrev pub has_limit : ScopeLimit → List ScopeLimit → Bool
has_limit limit limits = any (λ other. limit_value other == limit_value limit) limits

pub record Attestation : Type 0 where
  pub kind : EntryKind
  pub resolved : ResolvedRecord
  pub limits : List ScopeLimit
  pub origin : String

-- `imported != self.resolved.imported`
abbrev pub differ : Bool → Bool → Bool
differ true other = not other
differ false other = other

-- `Attestation(...)` with its `__post_init__`
unfoldable pub attestation :
    EntryKind → ResolvedRecord → List ScopeLimit → String → Result Attestation
attestation kind resolved limits origin = do
  raise_if (differ (is_imported kind) resolved.imported) internal_defect
  raise_if (is_imported kind && not (all (λ limit. has_limit limit limits) legacy_limits))
      internal_defect
  raise_if (not (is_imported kind) && any (λ limit. has_limit limit limits) legacy_limits)
      internal_defect
  ok (record { kind = kind; resolved = resolved; limits = limits; origin = origin })

-- `Attestation.check`
abbrev pub check_of : Attestation → String
check_of item = item.resolved.check
