-- ===== src/Kernel/Verdicts/Lattice.antt =====
-- Laws of `meet` and `fold` (src/apex/kernel/verdicts.py).
use apex_fedora.Base.{
  All, Any, List, [], arith, false, inl, inr, max, refl, true, ℕ, ◌<◌, ◌↔◌, ◌∷◌, ◌≡◌, ◌≢◌, ◌≤◌, ◌⊎◌,
}
use mathlib.Core.List.{foldl}
use apex_fedora.Kernel.Refusals.{RefusalReason}
use apex_fedora.Kernel.Errors.{ok}
use apex_fedora.Kernel.Verdicts.{
  Verdict, passed, failed, blocked, not_tested, stored_name, parse, severity, meet, claims_less,
  fold,
}

-- What a reader makes of a stored verdict: the reason of an untested one is not stored.
abbrev pub reread : RefusalReason → Verdict → Verdict
reread r (not_tested _) = not_tested r
reread r v = v

-- A stored name is read back as the verdict it was written from, an untested one with the reason
-- that the reader supplies.
pub parse-stored_name :
    (v : Verdict) (r : RefusalReason) → parse (stored_name v) r ≡ ok (reread r v)
unfolding parse
parse-stored_name passed r = refl
parse-stored_name failed r = refl
parse-stored_name blocked r = refl
parse-stored_name (not_tested _) r = refl

-- Combining verdicts does not depend on how they are grouped.
pub meet_assoc : (a b c : Verdict) → meet (meet a b) c ≡ meet a (meet b c)
unfolding meet
meet_assoc a b c = ground arith

pub severity-meet : (a b : Verdict) → severity (meet a b) ≡ max (severity a) (severity b)
unfolding meet
severity-meet a b = ground arith

-- The gravest severity of the set, 0 for the empty one.
abbrev pub gravest : ℕ → List Verdict → ℕ
gravest n [] = n
gravest n (v ∷ vs) = gravest (max n (severity v)) vs

foldl-severity :
    (seed : Verdict) (vs : List Verdict)
    → severity (foldl meet seed vs) ≡ gravest (severity seed) vs
foldl-severity seed [] = refl
foldl-severity seed (v ∷ vs) = rw (foldl-severity (meet seed v) vs, severity-meet seed v)

-- The fold of a set is as grave as its gravest member.
pub fold-gravest : (vs : List Verdict) (r : RefusalReason) → severity (fold vs r) ≡ gravest 0 vs
unfolding fold
fold-gravest vs r = foldl-severity (not_tested r) vs

-- Neither failed nor blocked.
abbrev pub IsHarmless : Verdict → Type 0
IsHarmless v = severity v ≤ 1

meet-eq-passed :
    (a b : Verdict)
    → meet a b ≡ passed
    → (IsHarmless a × IsHarmless b) × ((a ≡ passed) ⊎ (b ≡ passed))
unfolding meet
meet-eq-passed a b h = ground arith

foldl-passed :
    (seed : Verdict) (vs : List Verdict)
    → foldl meet seed vs ≡ passed
    → (IsHarmless seed × All IsHarmless vs) × ((seed ≡ passed) ⊎ Any (λ v. v ≡ passed) vs)
unfolding severity
foldl-passed seed [] h = ((rw h (omega arith), tt), inl h)
foldl-passed seed (v ∷ vs) h =
    let ((met, rest), which) = foldl-passed (meet seed v) vs h in
    let bound = severity-meet seed v in
    (
      (omega (arith, bound), (omega (arith, bound), rest)),
      elim which [
        | inl e ↦ elim (meet-eq-passed seed v e).1 [ inl p ↦ inl p | inr q ↦ inr (inl q) ]
        | inr more ↦ inr (inr more)
      ],
    )

passed-foldl :
    (seed : Verdict) (vs : List Verdict)
    → IsHarmless seed × All IsHarmless vs
    → ((seed ≡ passed) ⊎ Any (λ v. v ≡ passed) vs)
    → foldl meet seed vs ≡ passed
passed-foldl seed [] h (inl e) = e
passed-foldl seed [] h (inr e) = absurd e
passed-foldl seed (v ∷ vs) (a, (b, rest)) (inl e) =
    passed-foldl (meet seed v) vs (omega (arith, severity-meet seed v), rest)
      (inl (unfold meet in ground arith))
passed-foldl seed (v ∷ vs) (a, (b, rest)) (inr (inl e)) =
    passed-foldl (meet seed v) vs (omega (arith, severity-meet seed v), rest)
      (inl (unfold meet in ground arith))
passed-foldl seed (v ∷ vs) (a, (b, rest)) (inr (inr e)) =
    passed-foldl (meet seed v) vs (omega (arith, severity-meet seed v), rest) (inr e)

-- The fold of a set is a pass exactly when some verdict of the set is a pass and none is failed or
-- blocked: no combination raises a set with no pass in it to a pass.
pub fold-passed_iff :
    (vs : List Verdict) (r : RefusalReason)
    → (fold vs r ≡ passed) ↔ (All IsHarmless vs × Any (λ v. v ≡ passed) vs)
unfolding fold severity
fold-passed_iff vs r = (
  λ h.
      let ((_, harmless), which) = foldl-passed (not_tested r) vs h in
      (harmless, elim which [ inl e ↦ cc | inr e ↦ e ]),
  λ (harmless, some_pass). passed-foldl (not_tested r) vs (omega arith, harmless) (inr some_pass),
)

-- Claiming less is irreflexive and transitive, and every verdict but a pass claims less than one.
pub claims_less_order :
    (a b c : Verdict)
    → (claims_less a a ≡ false)
      × (claims_less a b ≡ true → claims_less b c ≡ true → claims_less a c ≡ true)
      × ((claims_less passed a ≡ true) ↔ (a ≢ passed))
unfolding claims_less
claims_less_order a b c =
    (ground arith, λ p q. ground arith, (λ p e. ground arith, λ p. ground arith))

-- `meet` does not keep the verdict that claims least: where a check was run and another was not,
-- the untested verdict claims less, and `meet` gives the other one, on either side.
pub meet_drops_untested :
    (v : Verdict) (r : RefusalReason)
    → 0 < severity v
    → (claims_less v (not_tested r) ≡ true)
      × (meet v (not_tested r) ≡ v)
      × (meet (not_tested r) v ≡ v)
unfolding meet claims_less
meet_drops_untested v r h = ground arith
