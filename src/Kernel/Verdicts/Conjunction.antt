-- ===== src/Kernel/Verdicts/Conjunction.antt =====
-- `require_all`, the conjunction that decides readiness, against the fold (src/apex/kernel/verdicts.py).
use apex_fedora.Base.{
  All, All-mono, List, [], all, arith, false, inl, inr, refl, true, ◌↔◌, ◌∷◌, ◌≡◌, ◌≢◌,
}
use apex_fedora.Kernel.Refusals.{RefusalReason}
use apex_fedora.Kernel.Verdicts.{
  Verdict, passed, not_tested, permits_installation, severity, require_all, fold,
}
use apex_fedora.Kernel.Verdicts.Lattice.{IsHarmless, fold-passed_iff}

all-permits : (vs : List Verdict) → (all permits_installation vs ≡ true) ↔ All (λ v. v ≡ passed) vs
unfolding permits_installation
all-permits [] = (λ h. tt, λ h. refl)
all-permits (v ∷ vs) =
    let ih = all-permits vs in
    (λ h. (ground arith, ih.0 (ground arith)), λ (e, rest). rw e (ih.1 rest))

-- Installation is permitted exactly when there is a verdict and every verdict is a pass.
pub require_all_iff :
    (vs : List Verdict) → (require_all vs ≡ true) ↔ ((vs ≢ []) × All (λ v. v ≡ passed) vs)
unfolding require_all
require_all_iff [] = (λ h. cc, λ h. absurd (h.0 refl))
require_all_iff (v ∷ vs) =
    (λ h. (λ e. cc, (all-permits (v ∷ vs)).0 h), λ h. (all-permits (v ∷ vs)).1 h.1)

passed-IsHarmless : (vs : List Verdict) → All (λ v. v ≡ passed) vs → All IsHarmless vs
unfolding severity
passed-IsHarmless = All-mono (λ v e. rw e (omega arith))

-- Where the conjunction holds, the fold is a pass; and it stays one when verdicts of checks that
-- nobody ran are added, while the conjunction fails: a rollup would report only what was run.
pub require_all-fold :
    (vs : List Verdict) (r s : RefusalReason)
    → require_all vs ≡ true
    → (fold vs r ≡ passed)
      × (fold (not_tested s ∷ vs) r ≡ passed)
      × (require_all (not_tested s ∷ vs) ≡ false)
unfolding require_all severity permits_installation
require_all-fold [] r s h = cc
require_all-fold (v ∷ vs) r s h =
    let all_pass = (all-permits (v ∷ vs)).0 h in
    let harmless = passed-IsHarmless (v ∷ vs) all_pass in
    (
      (fold-passed_iff (v ∷ vs) r).1 (harmless, inl all_pass.0),
      (fold-passed_iff (not_tested s ∷ v ∷ vs) r).1 ((omega arith, harmless), inr (inl all_pass.0)),
      refl,
    )
