-- ===== src/Kernel/Verdicts.antt =====
-- src/apex/kernel/verdicts.py: check outcomes, how two combine, and when a set of them permits installation.
pub mod Lattice
pub mod Conjunction
use apex_fedora.Base.{
  ℕ, String, Bool, true, false, List, [], ◌∷◌, leb, ltb, all, not, ◌&&◌, ◌==◌, if◌then◌else◌,
}
use mathlib.Core.List.{foldl}
use apex_fedora.Kernel.Refusals.{RefusalReason, malformed_verdict}
use apex_fedora.Kernel.Errors.{Result, ok, raise, refusal}

pub data Verdict : Type 0 where
  passed failed blocked : Verdict
  not_tested : RefusalReason → Verdict

unfoldable pub stored_name : Verdict → String
stored_name passed = "PASS"
stored_name failed = "FAIL"
stored_name blocked = "BLOCKED"
stored_name (not_tested _) = "NOT TESTED"

unfoldable pub permits_installation : Verdict → Bool
permits_installation passed = true
permits_installation failed = false
permits_installation blocked = false
permits_installation (not_tested _) = false

unfoldable pub parse : String → RefusalReason → Result Verdict
unfolding stored_name
parse name reason =
    if name == stored_name passed
    then ok passed
    else if name == stored_name failed
    then ok failed
    else if name == stored_name blocked
    then ok blocked
    else if name == stored_name (not_tested reason)
    then ok (not_tested reason)
    else raise (refusal malformed_verdict)

-- `_SEVERITY[verdict.stored_name]`
unfoldable pub severity : Verdict → ℕ
severity (not_tested _) = 0
severity passed = 1
severity blocked = 2
severity failed = 3

unfoldable pub meet : Verdict → Verdict → Verdict
unfolding severity
meet (not_tested _) right = right
meet left (not_tested _) = left
meet left right = if leb (severity right) (severity left) then left else right

-- `_CLAIMED[verdict.stored_name]`
unfoldable pub claimed : Verdict → ℕ
claimed (not_tested _) = 0
claimed blocked = 1
claimed failed = 1
claimed passed = 3

unfoldable pub claims_less : Verdict → Verdict → Bool
unfolding claimed
claims_less old new = ltb (claimed new) (claimed old)

-- `bool(observed) and all(item.permits_installation for item in observed)`
unfoldable pub require_all : List Verdict → Bool
unfolding permits_installation
require_all [] = false
require_all (v ∷ vs) = all permits_installation (v ∷ vs)

-- `functools.reduce(meet, verdicts, NotTested(reason))`
unfoldable pub fold : List Verdict → RefusalReason → Verdict
unfolding meet
fold verdicts reason = foldl meet (not_tested reason) verdicts
