-- ===== src/Pipeline/Runner/Refusing.antt =====
-- A run that a preflight refuses (src/apex/pipeline/runner.py).
use apex_fedora.Base.{
  Dict, List, Option, [], ap, arith, false, inl, inr, length, none, refl, some, suc, sym, ◌∙◌, ◌∷◌,
  ◌≡◌,
}
use apex_fedora.Kernel.Refusals.{RefusalReason}
use apex_fedora.Kernel.Errors.{Result, Raised, ok, raise, >>=-eq-ok, Result-cases}
use apex_fedora.Pipeline.Facts.{FactMap}
use apex_fedora.Pipeline.Ports.{Ports, members_of, for_planning, perform}
use apex_fedora.Pipeline.Ports.Planning.{perform-for_planning}
use apex_fedora.Pipeline.Stages.{Preflight, ready, skip_because, refuse_because, RunContext, Stage}
use apex_fedora.Pipeline.Plans.{Plan}
use apex_fedora.Pipeline.Runner.{Outcome, seeded, unreached, first_refusal, preflight_all, run}

-- The first reason to refuse among the verdicts, if there is one.
abbrev pub first_reason : List Preflight → Option RefusalReason
first_reason [] = none
first_reason (refuse_because reason ∷ verdicts) = some reason
first_reason (ready ∷ verdicts) = first_reason verdicts
first_reason (skip_because reason ∷ verdicts) = first_reason verdicts

-- What the caller gets for a reason to refuse: nothing was attested, and nothing was learned.
abbrev pub refused : {V Q R : Type 0} → Plan V Q R → FactMap V → RefusalReason → Outcome V
refused plan given reason = record {
  succeeded = false;
  facts = given;
  not_tested = unreached plan [];
  attested = [];
  refusal = some reason;
}

module _ {V Q R : Type 0} where
  first_refusal-reason :
      (plan : Plan V Q R) (stages : List (Stage V Q R)) (verdicts : List Preflight)
      (given : FactMap V) {reason : RefusalReason}
      → length verdicts ≡ length stages
      → first_reason verdicts ≡ some reason
      → first_refusal plan stages verdicts given ≡ ok (some (refused plan given reason))
  unfolding first_refusal
  first_refusal-reason plan [] [] given n h = cc
  first_refusal-reason plan [] (v ∷ vs) given n h = absurd (omega (arith, n))
  first_refusal-reason plan (s ∷ ss) [] given n h = absurd (omega (arith, n))
  first_refusal-reason plan (s ∷ ss) (refuse_because reason ∷ vs) given n h = cc
  first_refusal-reason plan (s ∷ ss) (ready ∷ vs) given n h =
      first_refusal-reason plan ss vs given (omega (arith, n)) h
  first_refusal-reason plan (s ∷ ss) (skip_because reason ∷ vs) given n h =
      first_refusal-reason plan ss vs given (omega (arith, n)) h

module _ {V Q R W : Type 0} where
  -- Planning leaves the world as it is, on every path.
  pub preflight_all-world :
      (ports : Ports Q R W) (stages : List (Stage V Q R)) (context : RunContext V) (world : W)
      → (preflight_all (for_planning ports) stages context world).1 ≡ world
  unfolding preflight_all
  preflight_all-world ports [] context world = refl
  preflight_all-world ports (s ∷ ss) context world =
      let here = perform (for_planning ports) (s.preflight context) world in
      let same : here.1 ≡ world = perform-for_planning ports (s.preflight context) world in
      elim (Result-cases here.0) [
        | inl (v, e) ↦ rw (preflight_all, e) (preflight_all-world ports ss context here.1 ∙ same)
        | inr (e, h) ↦ rw (preflight_all, h) same
      ]

  -- There is a verdict for each stage.
  pub length-preflight_all :
      (ports : Ports Q R W) (stages : List (Stage V Q R)) (context : RunContext V) (world : W)
      {verdicts : List Preflight}
      → (preflight_all ports stages context world).0 ≡ ok verdicts
      → length verdicts ≡ length stages
  unfolding preflight_all
  length-preflight_all ports [] context world {verdicts} h =
      let same : [] ≡ verdicts = cc in rw (sym same) refl
  length-preflight_all ports (s ∷ ss) context world {verdicts} h =
      let here = perform ports (s.preflight context) world in
      elim (Result-cases here.0) [
        | inl (v, e) ↦
            let (vs, made, same) =
              >>=-eq-ok (preflight_all ports ss context here.1).0 (λ vs. ok (v ∷ vs))
                (rw (preflight_all, e) at h) in
            let shape : v ∷ vs ≡ verdicts = cc in
            rw (sym shape) (ap suc (length-preflight_all ports ss context here.1 made))
        | inr (e, r) ↦ cc (rw (preflight_all, r) at h)
      ]

  abbrev pub planned : Ports Q R W → Plan V Q R → FactMap V → W → Result (List Preflight)
  planned ports plan given world =
      (preflight_all (for_planning ports) plan.stages
        (record { facts = given; members = members_of (for_planning ports) }) world).0

  -- If the seeds are facts, every preflight returns and some of them refuses, the run answers with the
  -- first such reason and has attested nothing;
  -- no code has run but the preflights, and the world is as it was.
  pub run-refused :
      (plan : Plan V Q R) (ports : Ports Q R W) (seeds : Dict V) (world : W) (given : FactMap V)
      (verdicts : List Preflight) (reason : RefusalReason)
      → seeded seeds ≡ ok given
      → planned ports plan given world ≡ ok verdicts
      → first_reason verdicts ≡ some reason
      → run plan ports seeds world ≡ (ok (refused plan given reason), world)
  unfolding run
  run-refused plan ports seeds world given verdicts reason h p r =
      let context : RunContext V = record {
        facts = given;
        members = members_of (for_planning ports);
      } in
      let n : length verdicts ≡ length plan.stages =
        length-preflight_all (for_planning ports) plan.stages context world p in
      let same = preflight_all-world ports plan.stages context world in
      rw (run, h, p, first_refusal-reason plan plan.stages verdicts given n r, same) refl

  -- A preflight that raises ends the run with that exception, and the world is as it was.
  pub run_raised :
      (plan : Plan V Q R) (ports : Ports Q R W) (seeds : Dict V) (world : W) (given : FactMap V)
      (error : Raised)
      → seeded seeds ≡ ok given
      → planned ports plan given world ≡ raise error
      → run plan ports seeds world ≡ (raise error, world)
  unfolding run
  run_raised plan ports seeds world given error h p =
      let context : RunContext V = record {
        facts = given;
        members = members_of (for_planning ports);
      } in
      rw (run, h, p, preflight_all-world ports plan.stages context world) refl
