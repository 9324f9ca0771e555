-- ===== src/Kernel/Claims.antt =====
-- src/apex/kernel/claims.py: the environment a result was witnessed in, and what it may attest.
pub mod Laws
use apex_fedora.Base.{
  Bool, List, Option, String, [], any, eqb, false, if◌then◌else◌, none, not, some, true, ℕ, ◌&&◌,
  ◌||◌, ◌∷◌,
}
use apex_fedora.Kernel.Refusals.{
  RefusalReason, simulated_environment, environment_not_witnessed, no_verified_result,
}
use apex_fedora.Kernel.Errors.{Result, ok, raise, refusal, internal_defect, ◌>>=◌, ◌>>◌, raise_if}

pub data EnvironmentKind : Type 0 where
  build build_container vm live_vm installer_vm physical operator simulated : EnvironmentKind

-- The value of the enumeration's member, as documents hold it.
unfoldable pub value : EnvironmentKind → String
value build = "build"
value build_container = "build-container"
value vm = "vm"
value live_vm = "live-vm"
value installer_vm = "installer-vm"
value physical = "physical"
value operator = "operator"
value simulated = "simulated"

abbrev tag : EnvironmentKind → ℕ
tag build = 0
tag build_container = 1
tag vm = 2
tag live_vm = 3
tag installer_vm = 4
tag physical = 5
tag operator = 6
tag simulated = 7

-- `left is right`, which is equality for members of an enumeration.
unfoldable pub is : EnvironmentKind → EnvironmentKind → Bool
is left right = eqb (tag left) (tag right)

-- `self in _VIRTUAL_MACHINES`
unfoldable pub is_virtual_machine : EnvironmentKind → Bool
is_virtual_machine live_vm = true
is_virtual_machine installer_vm = true
is_virtual_machine _ = false

unfoldable pub satisfies : EnvironmentKind → EnvironmentKind → Bool
unfolding is is_virtual_machine
satisfies self required =
    if is self simulated
    then false
    else if is self required
    then true
    else is required vm && is_virtual_machine self

unfoldable pub meet : List EnvironmentKind → Result EnvironmentKind
unfolding is
meet [] = ok simulated
meet (first ∷ rest) =
    if any (λ kind. is kind simulated) (first ∷ rest)
    then ok simulated
    else if any (λ kind. not (is kind first)) (first ∷ rest)
    then raise internal_defect
    else ok first

unfoldable pub witnessed_through : EnvironmentKind → EnvironmentKind → EnvironmentKind
unfolding is
witnessed_through bundle guest =
    if is bundle simulated || is guest simulated then simulated else guest

-- `kind in ATTESTABLE`
unfoldable pub attestable : EnvironmentKind → Bool
unfolding is
attestable kind = not (is kind simulated)

-- `expected is not None and kind is not expected`
unfoldable pub is_unexpected : Option EnvironmentKind → EnvironmentKind → Bool
unfolding is
is_unexpected none kind = false
is_unexpected (some expected) kind = not (is kind expected)

unfoldable pub require_attestable :
    EnvironmentKind → Option EnvironmentKind → Result EnvironmentKind
unfolding attestable is_unexpected
require_attestable kind expected = do
  raise_if (not (attestable kind)) (refusal simulated_environment)
  raise_if (is_unexpected expected kind) (refusal environment_not_witnessed)
  ok kind

pub data ScopeLimit : Type 0 where
  physical_hardware failed_deployment_recovery secure_boot upstream_prose_unverified : ScopeLimit
  legacy_no_port_proof legacy_no_candidate_readback : ScopeLimit

unfoldable pub limit_value : ScopeLimit → String
limit_value physical_hardware = "physical-hardware"
limit_value failed_deployment_recovery = "failed-deployment-recovery"
limit_value secure_boot = "secure-boot"
limit_value upstream_prose_unverified = "upstream-prose-unverified"
limit_value legacy_no_port_proof = "legacy-no-port-proof"
limit_value legacy_no_candidate_readback = "legacy-no-candidate-readback"

-- What a claim proves and what it leaves untested.
pub record ClaimScope : Type 0 where
  pub proven : List String
  pub not_tested : List ScopeLimit

-- `ClaimScope(...)`, which refuses to say nothing.
unfoldable pub claim_scope : List String → List ScopeLimit → Result ClaimScope
claim_scope [] [] = raise (refusal no_verified_result)
claim_scope proven limits = ok (record { proven = proven; not_tested = limits })
