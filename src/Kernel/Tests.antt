-- ===== src/Kernel/Tests.antt =====
-- The theorems on the kernel's modules, applied at concrete values.
use apex_fedora.Base.{Bytes, List, [], ◌∷◌, ◌≡◌, ◌≢◌, ◌↔◌, ◌<◌, All, Any, arith, none, refl, true}
use apex_fedora.Kernel.Refusals.{no_verified_result, stage_failed}
use apex_fedora.Kernel.Errors.{ok}
use apex_fedora.Kernel.Verdicts
use apex_fedora.Kernel.Verdicts.{Verdict, passed, failed, blocked, not_tested}
use apex_fedora.Kernel.Verdicts.Lattice.{IsHarmless, fold-passed_iff}
use apex_fedora.Kernel.Claims
use apex_fedora.Kernel.Claims.{EnvironmentKind, build, live_vm, vm, physical, simulated}
use apex_fedora.Kernel.Claims.Laws.{witnessed_through-attestable}

abbrev three : List Verdict
three = passed ∷ blocked ∷ not_tested stage_failed ∷ []

fold-passed_iff_example :
    (Verdicts.fold three no_verified_result ≡ passed)
    ↔ (All IsHarmless three × Any (λ v. v ≡ passed) three)
fold-passed_iff_example = fold-passed_iff three no_verified_result

failed_is_grave : 0 < Verdicts.severity failed
unfolding Verdicts.severity
failed_is_grave = omega arith

two_passes : Verdicts.require_all (passed ∷ passed ∷ []) ≡ true
unfolding Verdicts.require_all Verdicts.permits_installation
two_passes = refl

two_builds : Claims.meet (build ∷ build ∷ []) ≡ ok build
unfolding Claims.meet
two_builds = refl

build_is_real : build ≢ simulated
build_is_real = λ e. cc

build_asks_guest :
    Claims.require_attestable (Claims.witnessed_through build live_vm) none ≡ ok live_vm
unfolding Claims.require_attestable Claims.witnessed_through
build_asks_guest = refl

witnessed_through-attestable_example :
    (build ≢ simulated) × (live_vm ≢ simulated) × (live_vm ≡ live_vm)
witnessed_through-attestable_example =
    witnessed_through-attestable build live_vm live_vm build_asks_guest

abbrev chunks : List Bytes
chunks = (1 ∷ 2 ∷ 3 ∷ []) ∷ (4 ∷ 5 ∷ []) ∷ []
