-- ===== src/Pipeline/Runner.antt =====
-- src/apex/pipeline/runner.py: preflight the whole plan, apply it in order, unwind on every path.
pub mod Refusing
pub mod Nesting
pub mod Accounts
pub mod Reports
pub mod Runs
use apex_fedora.Base.{
  Bool, Dict, List, Option, String, [], add, contains, false, if◌then◌else◌, none, not, some,
  sorted, true, ◌++◌, ◌∷◌,
}
use apex_fedora.Kernel.Refusals.{RefusalReason, stage_failed}
use apex_fedora.Kernel.Errors.{Result, ok, raise, other_exception, ◌>>=◌}
use apex_fedora.Pipeline.Facts.{FactMap, with_each}
use apex_fedora.Pipeline.Ports.{Ports, members_of, perform, for_planning}
use apex_fedora.Pipeline.Stages.{
  Finaliser, Preflight, skip_because, refuse_because, StageResult, advance, skip, refuse, fail,
  RunContext, Stage, with_facts,
}
use apex_fedora.Pipeline.Plans.{Plan}

pub record Outcome (V : Type 0) : Type 0 where
  pub succeeded : Bool
  pub facts : FactMap V
  pub not_tested : List String
  pub attested : List String
  pub refusal : Option RefusalReason

-- `_Progress`
pub record Progress (V Q R : Type 0) : Type 0 where
  pub context : RunContext V
  pub finalisers : List (Finaliser Q R)
  pub completed : List String
  pub attested : List String

-- `set.update`
unfoldable pub update : List String → List String → List String
update pending [] = pending
update pending (name ∷ names) = update (add name pending) names

abbrev pub reverse : {A : Type 0} → List A → List A
reverse [] = []
reverse (x ∷ xs) = reverse xs ++ x ∷ []

-- `_seeded`
unfoldable pub seeded : {V : Type 0} → Dict V → Result (FactMap V)
seeded seeds = with_each seeds "seed" []

module _ {V Q R : Type 0} where
  -- `_unreached`
  unfoldable pub pending_of : List (Stage V Q R) → List String → List String → List String
  pending_of [] completed pending = pending
  pending_of (stage ∷ stages) completed pending =
      pending_of stages completed
        (if not (contains stage.id completed) then update pending stage.attests else pending)

  unfoldable pub unreached : Plan V Q R → List String → List String
  unfolding pending_of
  unreached plan completed = sorted (pending_of plan.stages completed [])

  -- `Outcome(succeeded=False, ...)` of `_step`
  abbrev pub stopped_by : Plan V Q R → Progress V Q R → RefusalReason → Outcome V
  stopped_by plan progress reason = record {
    succeeded = false;
    facts = progress.context.facts;
    not_tested = unreached plan progress.completed;
    attested = sorted progress.attested;
    refusal = some reason;
  }

  -- The part of `_step` behind the call of `apply`.
  unfoldable pub settle :
      Plan V Q R
      → Stage V Q R
      → Progress V Q R
      → StageResult V Q R
      → Result (Option (Outcome V)) × Progress V Q R
  settle plan stage progress (advance facts finaliser) =
      elim (with_facts facts stage.id progress.context) [
        | raise e ↦ (raise e, progress)
        | ok context ↦ (
          ok none,
          record {
            context = context;
            finalisers = elim finaliser [
              | none ↦ progress.finalisers
              | some release ↦ progress.finalisers ++ release ∷ []
            ];
            completed = add stage.id progress.completed;
            attested = update progress.attested stage.attests;
          },
        )
      ]
  settle plan stage progress (skip reason) = (ok none, progress)
  settle plan stage progress (refuse reason) =
      (ok (some (stopped_by plan progress reason)), progress)
  settle plan stage progress fail = (ok (some (stopped_by plan progress stage_failed)), progress)

  -- `_first_refusal`, whose `zip` is strict.
  unfoldable pub first_refusal :
      Plan V Q R → List (Stage V Q R) → List Preflight → FactMap V → Result (Option (Outcome V))
  first_refusal plan [] [] given = ok none
  first_refusal plan (stage ∷ stages) (refuse_because reason ∷ verdicts) given = ok (
      some (record {
        succeeded = false;
        facts = given;
        not_tested = unreached plan [];
        attested = [];
        refusal = some reason;
      }))
  first_refusal plan (stage ∷ stages) (_ ∷ verdicts) given =
      first_refusal plan stages verdicts given
  first_refusal plan _ _ given = raise other_exception

  abbrev pub succeeded_with : Plan V Q R → Progress V Q R → Outcome V
  succeeded_with plan progress = record {
    succeeded = true;
    facts = progress.context.facts;
    not_tested = unreached plan progress.completed;
    attested = sorted progress.attested;
    refusal = none;
  }

  -- The end of `_apply`: what stopped the run, or its success.
  unfoldable pub conclude :
      Plan V Q R → Result (Option (Outcome V)) → Progress V Q R → Result (Outcome V)
  conclude plan (raise e) progress = raise e
  conclude plan (ok (some outcome)) progress = ok outcome
  conclude plan (ok none) progress = ok (succeeded_with plan progress)

module _ {Q R W : Type 0} where
  -- `_unwind`: each is released, and what a release raises is suppressed.
  unfoldable pub release_each : Ports Q R W → List (Finaliser Q R) → W → W
  release_each ports [] world = world
  release_each ports (finaliser ∷ finalisers) world =
      release_each ports finalisers (perform ports finaliser.release world).1

  unfoldable pub unwind : Ports Q R W → List (Finaliser Q R) → W → W
  unfolding release_each
  unwind ports finalisers world = release_each ports (reverse finalisers) world

module _ {V Q R W : Type 0} where
  -- `_preflight`: an InternalDefect is raised again as one, and every other exception passes.
  unfoldable pub preflight_all :
      Ports Q R W → List (Stage V Q R) → RunContext V → W → Result (List Preflight) × W
  preflight_all planning [] context world = (ok [], world)
  preflight_all planning (stage ∷ stages) context world =
      let (verdict, after) = perform planning (stage.preflight context) world in
      elim verdict [
        | raise e ↦ (raise e, after)
        | ok v ↦
            let (verdicts, end) = preflight_all planning stages context after in
            (verdicts >>= λ vs. ok (v ∷ vs), end)
      ]

  -- `_step`
  unfoldable pub step :
      Plan V Q R
      → Ports Q R W
      → Stage V Q R
      → Progress V Q R
      → W
      → Result (Option (Outcome V)) × (Progress V Q R × W)
  unfolding settle
  step plan ports stage progress world =
      let (result, after) = perform ports (stage.apply progress.context) world in
      elim result [
        | raise e ↦ (raise e, (progress, after))
        | ok r ↦ let (stopped, more) = settle plan stage progress r in (stopped, (more, after))
      ]

  -- The loop of `_apply`: a stage that was to be skipped is passed over, and the loop is left when a
  -- step raises or stops the run.
  unfoldable pub steps :
      Plan V Q R
      → Ports Q R W
      → List (Stage V Q R)
      → List Preflight
      → Progress V Q R
      → W
      → Result (Option (Outcome V)) × (Progress V Q R × W)
  unfolding step
  steps plan ports [] [] progress world = (ok none, (progress, world))
  steps plan ports (stage ∷ stages) (skip_because reason ∷ verdicts) progress world =
      steps plan ports stages verdicts progress world
  steps plan ports (stage ∷ stages) (_ ∷ verdicts) progress world =
      let (stopped, (more, after)) = step plan ports stage progress world in
      elim stopped [
        | raise e ↦ (raise e, (more, after))
        | ok (some outcome) ↦ (ok (some outcome), (more, after))
        | ok none ↦ steps plan ports stages verdicts more after
      ]
  steps plan ports _ _ progress world = (raise other_exception, (progress, world))

  abbrev pub started : Ports Q R W → FactMap V → Progress V Q R
  started ports given = record {
    context = record { facts = given; members = members_of ports };
    finalisers = [];
    completed = [];
    attested = [];
  }

  -- `_apply`
  unfoldable pub apply_plan :
      Plan V Q R → List Preflight → Ports Q R W → FactMap V → W → Result (Outcome V) × W
  unfolding steps unwind conclude
  apply_plan plan verdicts ports given world =
      let (stopped, (progress, after)) =
        steps plan ports plan.stages verdicts (started ports given) world in
      (conclude plan stopped progress, unwind ports progress.finalisers after)

  -- `run`
  unfoldable pub run : Plan V Q R → Ports Q R W → Dict V → W → Result (Outcome V) × W
  run plan ports seeds world = elim (seeded seeds) [
    | raise e ↦ (raise e, world)
    | ok given ↦
        let planning = for_planning ports in
        let (verdicts, after) =
          preflight_all planning plan.stages
            (record { facts = given; members = members_of planning }) world in
        elim verdicts [
          | raise e ↦ (raise e, after)
          | ok vs ↦ elim (first_refusal plan plan.stages vs given) [
            | raise e ↦ (raise e, after)
            | ok (some outcome) ↦ (ok outcome, after)
            | ok none ↦ apply_plan plan vs ports given after
          ]
        ]
  ]
