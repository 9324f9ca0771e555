-- ===== src/Pipeline/Runner/Runs.antt =====
-- `run` of src/apex/pipeline/runner.py as a whole: every outcome that it returns is an account of the run.
use apex_fedora.Base.{
  Dict, Distinct, List, String, [], ap, contains, inl, inr, none, refl, some, subst, sym, ◌||◌, ◌∙◌,
  ◌∷◌, ◌≡◌,
}
use apex_fedora.Kernel.Refusals.{RefusalReason}
use apex_fedora.Kernel.Errors.{ok, Result-cases}
use apex_fedora.Pipeline.Facts.{FactMap}
use apex_fedora.Pipeline.Ports.{Ports, members_of, for_planning}
use apex_fedora.Pipeline.Stages.{Preflight, ready, skip_because, refuse_because, RunContext, Stage}
use apex_fedora.Pipeline.Plans.{Plan}
use apex_fedora.Pipeline.Runner.{Outcome, seeded, first_refusal, preflight_all, run}
use apex_fedora.Pipeline.Runner.Refusing.{refused}
use apex_fedora.Pipeline.Runner.Accounts.{stage_ids, left_out, contains-unreached}
use apex_fedora.Pipeline.Runner.Reports.{
  IsAccount, credited-none, credited_or_left, apply_plan-IsAccount,
}

module _ {V Q R W : Type 0} where
  refused-IsAccount :
      (ports : Ports Q R W) (plan : Plan V Q R) (given : FactMap V) (reason : RefusalReason)
      → IsAccount ports plan given (refused plan given reason)
  refused-IsAccount ports plan given reason =
      let rest : (c : String)
          → contains c (refused plan given reason).not_tested ≡ left_out plan.stages [] c =
        λ c. contains-unreached c plan [] in
      record {
        completed = [];
        earned = λ id h. cc;
        kept = λ k e. e;
        written = λ k e. inl e;
        attested = λ c. sym (credited-none plan.stages c);
        not_tested = rest;
        every = λ c. rw (rest c) (
            ap (λ b. b || left_out plan.stages [] c) (sym (credited-none plan.stages c))
            ∙ credited_or_left plan.stages [] c);
        refusal = refl;
      }

module _ {V Q R : Type 0} where
  first_refusal-refused :
      (plan : Plan V Q R) (ss : List (Stage V Q R)) (vs : List Preflight) (given : FactMap V)
      (o : Outcome V)
      → first_refusal plan ss vs given ≡ ok (some o)
      → (reason : RefusalReason) × (refused plan given reason ≡ o)
  unfolding first_refusal
  first_refusal-refused plan [] [] given o h = cc
  first_refusal-refused plan [] (v ∷ vs) given o h = cc
  first_refusal-refused plan (s ∷ ss) [] given o h = cc
  first_refusal-refused plan (s ∷ ss) (refuse_because reason ∷ vs) given o h = (reason, cc h)
  first_refusal-refused plan (s ∷ ss) (ready ∷ vs) given o h =
      first_refusal-refused plan ss vs given o h
  first_refusal-refused plan (s ∷ ss) (skip_because reason ∷ vs) given o h =
      first_refusal-refused plan ss vs given o h

module _ {V Q R W : Type 0} where
  -- Whatever outcome a run of distinct stages returns is an account: for some set of completed stages,
  -- each of which was called and answered with an advance whose facts are among those of the outcome, the facts that were given are kept, and every other one was written by a completed stage; a check
  -- is attested if a completed stage attests it, and not tested if another stage of the plan does, so
  -- that every check of the plan is one of the two; and there is a refusal exactly without success.
  pub run-IsAccount :
      (plan : Plan V Q R) (ports : Ports Q R W) (seeds : Dict V) (world : W) (given : FactMap V)
      (o : Outcome V)
      → Distinct (stage_ids plan.stages)
      → seeded seeds ≡ ok given
      → (run plan ports seeds world).0 ≡ ok o
      → IsAccount ports plan given o
  unfolding run
  run-IsAccount plan ports seeds world given o d h r =
      let context : RunContext V = record {
        facts = given;
        members = members_of (for_planning ports);
      } in
      let planned = preflight_all (for_planning ports) plan.stages context world in
      elim (Result-cases planned.0) [
        | inr (x, e) ↦ cc (rw (run, h, e) at r)
        | inl (vs, e) ↦ elim (Result-cases (first_refusal plan plan.stages vs given)) [
          | inr (x, f) ↦ cc (rw (run, h, e, f) at r)
          | inl (some o', f) ↦
              let (reason, same) = first_refusal-refused plan plan.stages vs given o' f in
              let told : o' ≡ o = cc (rw (run, h, e, f) at r) in
              subst (IsAccount ports plan given) (same ∙ told)
                (refused-IsAccount ports plan given reason)
          | inl (none, f) ↦
              apply_plan-IsAccount plan vs ports given planned.1 o d (rw (run, h, e, f) at r)
        ]
      ]
