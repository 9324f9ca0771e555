-- ===== src/Attestation/Readiness/Decision.antt =====
-- When a candidate is ready (src/apex/attestation/readiness.py), against what a proven check is.
use apex_fedora.Base.{
  &&_true, All, All-has, All-mono, All-zip, Dict, List, Option, String, [], arith, eq_iff, false,
  lookup, none, not-true, refl, some, subst, sym, true, values, ||_false, ◌++◌, ◌↔◌, ◌∙◌, ◌∷◌, ◌≡◌,
  ◌≢◌,
}
use apex_fedora.Kernel.Verdicts.{Verdict, passed, permits_installation, require_all}
use apex_fedora.Kernel.Verdicts.Conjunction.{require_all_iff}
use apex_fedora.Kernel.Claims.{EnvironmentKind, satisfies}
use apex_fedora.Attestation.Readiness.{
  ResolvedRecord, Fault, judge, state_check, state_every_check, one_record_per_known_check,
  is_clean, evaluate,
}
use apex_fedora.Attestation.Readiness.Reading.{
  first_of, AreOneEach, one_record-clean_iff, lookup-one_record,
}

-- The record is a pass of the candidate with its proofs, from the environment that is asked for.
pub record IsProof (environment : EnvironmentKind) (candidate : String) (r : ResolvedRecord)
    : Type 0 where
  pub bound : r.candidate ≡ candidate
  pub intact : r.proofs_intact ≡ true
  pub witnessed : satisfies r.environment environment ≡ true
  pub passing : r.verdict ≡ passed
  pub proven : r.proof_count ≢ 0

judge-proof :
    (r : ResolvedRecord) (environment : EnvironmentKind) (candidate : String)
    → IsProof environment candidate r
    → judge r environment candidate ≡ (passed, none)
unfolding judge
judge-proof r environment candidate p =
    ground
      (arith, p.bound, p.intact, p.witnessed, p.passing, p.proven, eq_iff r.candidate candidate)

judge-passed :
    (r : ResolvedRecord) (environment : EnvironmentKind) (candidate : String)
    → (judge r environment candidate).0 ≡ passed
    → IsProof environment candidate r
unfolding judge
judge-passed r environment candidate h = record {
  bound = ground (arith, h, eq_iff r.candidate candidate);
  intact = ground (arith, h);
  witnessed = ground (arith, h);
  passing = ground (arith, h);
  proven = ground (arith, h);
}

-- A required check is proven if its first record is a proof, and no imported one.
abbrev pub IsProven : String → List ResolvedRecord → String × EnvironmentKind → Type 0
IsProven candidate records item =
    (r : ResolvedRecord) × (first_of item.0 records ≡ some r)
    × IsProof item.1 candidate r
    × (r.imported ≡ false)

passed_permits : (v : Verdict) → v ≡ passed → permits_installation v ≡ true
unfolding permits_installation
passed_permits v e = rw e refl

-- What a check was seen as, if it is stated as passed and does not stand on an import.
state_check-passed :
    (seen : Option ResolvedRecord) (environment : EnvironmentKind) (candidate : String)
    → (state_check seen environment (some candidate)).0 ≡ passed
    → (state_check seen environment (some candidate)).1.1 ≡ false
    → (r : ResolvedRecord) × (seen ≡ some r)
      × IsProof environment candidate r
      × (r.imported ≡ false)
unfolding state_check
state_check-passed none environment candidate h own = cc
state_check-passed (some r) environment candidate h own =
    let permits = passed_permits (judge r environment candidate).0 h in
    (r, refl, judge-passed r environment candidate h, ground (arith, own, permits))

module _ (seen : Dict ResolvedRecord) (candidate : String) where
  abbrev IsSeenProven : String × EnvironmentKind → Type 0
  IsSeenProven item =
      (r : ResolvedRecord) × (lookup item.0 seen ≡ some r)
      × IsProof item.1 candidate r
      × (r.imported ≡ false)

  -- All is stated as passed, without a fault and an import, exactly where each check is proven.
  state-proven :
      (required : Dict EnvironmentKind)
      → All IsSeenProven required
      → let stated = state_every_check required seen (some candidate) in
        (stated.faults ≡ [])
        × (stated.standing_on_imported ≡ false)
        × All (λ v. v ≡ passed) (values stated.verdicts)
  unfolding state_every_check
  state-proven [] h = (refl, refl, tt)
  state-proven ((name, environment) ∷ required) ((r, e, p, own), h) =
      let (faults, standing, passing) = state-proven required h in
      rw (state_every_check, e, state_check, judge-proof r environment candidate p, own)
        (faults, standing, (refl, passing))

  proven-state :
      (required : Dict EnvironmentKind)
      → let stated = state_every_check required seen (some candidate) in
        (stated.standing_on_imported ≡ false)
        → All (λ v. v ≡ passed) (values stated.verdicts)
        → All IsSeenProven required
  unfolding state_every_check
  proven-state [] own h = tt
  proven-state ((name, environment) ∷ required) own (first, h) =
      let (one, rest) = ||_false _ _ own in
      (
        state_check-passed (lookup name seen) environment candidate first one,
        proven-state required rest h,
      )

is_clean-append : (a b : List Fault) → is_clean (a ++ b) ≡ true → (a ≡ []) × (b ≡ [])
is_clean-append [] [] h = (refl, refl)
is_clean-append [] (f ∷ b) h = cc
is_clean-append (f ∷ a) b h = cc

nonempty_stated :
    (required : Dict EnvironmentKind) (seen : Dict ResolvedRecord) (candidate : Option String)
    → (values (state_every_check required seen candidate).verdicts ≢ []) ↔ (required ≢ [])
unfolding state_every_check
nonempty_stated [] seen candidate = (λ h e. h refl, λ h e. h refl)
nonempty_stated (item ∷ required) seen candidate = (λ h e. cc, λ h e. cc)

-- What it takes for a candidate to be ready.
pub record IsReady (required : Dict EnvironmentKind) (records : List ResolvedRecord)
    (candidate : String) : Type 0 where
  pub any_required : required ≢ []
  pub one_each : AreOneEach required records
  pub all_proven : All (IsProven candidate records) required

module _ (required : Dict EnvironmentKind) (records : List ResolvedRecord)
    (candidate : String) where
  abbrev seen_of : Dict ResolvedRecord
  seen_of = (one_record_per_known_check records required).0

  first_seen : All (λ item. lookup item.0 seen_of ≡ first_of item.0 records) required
  first_seen =
      All-mono (λ item h. lookup-one_record item.0 records required h) required
        (All-has required required (λ k h. h))

  seen-IsProven :
      All (IsSeenProven seen_of candidate) required → All (IsProven candidate records) required
  seen-IsProven h =
      All-zip (λ item first (r, e, p, own). (r, sym first ∙ e, p, own)) required first_seen h

  IsProven-seen :
      All (IsProven candidate records) required → All (IsSeenProven seen_of candidate) required
  IsProven-seen h =
      All-zip (λ item first (r, e, p, own). (r, first ∙ e, p, own)) required first_seen h

  ready-IsReady :
      (evaluate required records (some candidate)).ready ≡ true → IsReady required records candidate
  unfolding evaluate
  ready-IsReady h =
      let stated = state_every_check required seen_of (some candidate) in
      let (rest, all_pass) = &&_true _ _ h in
      let (clean, own) = &&_true _ _ rest in
      let (read_clean, stated_clean) = is_clean-append _ _ clean in
      let (some_stated, passing) = (require_all_iff (values stated.verdicts)).0 all_pass in
      record {
        any_required = (nonempty_stated required seen_of (some candidate)).0 some_stated;
        one_each = (one_record-clean_iff records required).0 read_clean;
        all_proven =
            seen-IsProven (proven-state seen_of candidate required (not-true _ own) passing);
      }

  IsReady-ready :
      IsReady required records candidate → (evaluate required records (some candidate)).ready ≡ true
  unfolding evaluate
  IsReady-ready r =
      let stated = state_every_check required seen_of (some candidate) in
      let (clean, own, passing) =
        state-proven seen_of candidate required (IsProven-seen r.all_proven) in
      let read_clean = (one_record-clean_iff records required).1 r.one_each in
      let all_pass : require_all (values stated.verdicts) ≡ true =
        (require_all_iff (values stated.verdicts)).1
          ((nonempty_stated required seen_of (some candidate)).1 r.any_required, passing) in
      rw (evaluate, read_clean, clean, own, all_pass) refl

-- A candidate is ready exactly when there is one, some check is required, every record is of a
-- required check and no two are of one check, and every required check has a record that is bound to
-- the candidate, passes with at least one proof, has its proofs intact, comes from an environment that
-- meets the requirement, and is not imported.
pub evaluate-ready_iff :
    (required : Dict EnvironmentKind) (records : List ResolvedRecord) (candidate : Option String)
    → ((evaluate required records candidate).ready ≡ true)
      ↔ ((digest : String) × (candidate ≡ some digest) × IsReady required records digest)
evaluate-ready_iff required records none = (λ h. (unfold evaluate in cc h), λ (d, e, r). cc e)
evaluate-ready_iff required records (some digest) = (
  λ h. (digest, refl, ready-IsReady required records digest h),
  λ (d, e, r).
      subst (λ c. (evaluate required records c).ready ≡ true) (sym e)
        (IsReady-ready required records d r),
)
