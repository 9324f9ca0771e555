-- ===== src/Pipeline/Runner/Reports.antt =====
-- What the outcome of a run says, against what the run did (src/apex/pipeline/runner.py).
use apex_fedora.Base.{
  All, Any, Bool-cases, Dict, Distinct, List, Option, String, [], add, ap, arith, contains,
  contains-sorted, each_present, eq_iff, false, inl, inr, is_some, lookup, none, not, refl, some,
  sorted, subst, sym, true, ◌||◌, ◌∙◌, ◌∷◌, ◌≡◌, ◌⊎◌, ◌==◌,
}
use apex_fedora.Kernel.Refusals.{stage_failed}
use apex_fedora.Kernel.Errors.{Result, ok, raise, Result-cases, ◌>>=◌}
use apex_fedora.Pipeline.Facts.{Fact, FactMap}
use apex_fedora.Pipeline.Ports.{Ports, perform}
use apex_fedora.Pipeline.Stages.{
  Finaliser, RunContext, Preflight, ready, skip_because, refuse_because, StageResult, advance, skip,
  refuse, fail, Stage, with_facts,
}
use apex_fedora.Pipeline.Plans.{Plan}
use apex_fedora.Pipeline.Runner.{
  Outcome, Progress, update, unreached, stopped_by, settle, succeeded_with, step, steps, conclude,
  started, apply_plan,
}
use apex_fedora.Pipeline.Runner.Accounts.{
  Writes, with_facts-Writes, stage_ids, attested_by, credited, left_out, contains-add,
  contains-update, contains-unreached, credited-add,
}

module _ {V Q R W : Type 0} where
  -- A stage of the plan that was called and answered with an advance, whose facts were new and are kept.
  pub record IsEarned (ports : Ports Q R W) (plan : Plan V Q R) (facts : FactMap V) (id : String)
      : Type 0 where
    pub stage : Stage V Q R
    pub listed : Any (λ t. t ≡ stage) plan.stages
    pub named : stage.id ≡ id
    pub context : RunContext V
    pub world : W
    pub produced : Dict V
    pub finaliser : Option (Finaliser Q R)
    pub advanced : (perform ports (stage.apply context) world).0 ≡ ok (advance produced finaliser)
    pub later : RunContext V
    pub added : with_facts produced stage.id context ≡ ok later
    pub kept : (k : String) {f : Fact V} → lookup k later.facts ≡ some f → lookup k facts ≡ some f

  IsEarned-kept :
      (ports : Ports Q R W) (plan : Plan V Q R) (old new : FactMap V) (id : String)
      → ((k : String) (f : Fact V) → lookup k old ≡ some f → lookup k new ≡ some f)
      → IsEarned ports plan old id
      → IsEarned ports plan new id
  IsEarned-kept ports plan old new id kept e = record {
    stage = e.stage;
    listed = e.listed;
    named = e.named;
    context = e.context;
    world = e.world;
    produced = e.produced;
    finaliser = e.finaliser;
    advanced = e.advanced;
    later = e.later;
    added = e.added;
    kept = λ k {f} h. kept k f (e.kept k h);
  }

  -- The progress of a run that began with the facts `given`.
  pub record IsProgress (ports : Ports Q R W) (plan : Plan V Q R) (given : FactMap V)
      (p : Progress V Q R) : Type 0 where
    pub earned :
        (id : String) → contains id p.completed ≡ true → IsEarned ports plan p.context.facts id
    pub kept :
        (k : String) {f : Fact V} → lookup k given ≡ some f → lookup k p.context.facts ≡ some f
    pub written :
        (k : String) {f : Fact V}
        → lookup k p.context.facts ≡ some f
        → (lookup k given ≡ some f) ⊎ (contains f.produced_by p.completed ≡ true)
    pub attested : (c : String) → contains c p.attested ≡ credited plan.stages p.completed c

module _ {V Q R : Type 0} where
  -- An outcome says what the progress is.
  abbrev pub Reports : Plan V Q R → Progress V Q R → Outcome V → Type 0
  Reports plan p o =
      (o.facts ≡ p.context.facts)
      × (o.attested ≡ sorted p.attested)
      × (o.not_tested ≡ unreached plan p.completed)
      × (is_some o.refusal ≡ not o.succeeded)

  pub credited-none : (stages : List (Stage V Q R)) (c : String) → credited stages [] c ≡ false
  credited-none [] c = refl
  credited-none (s ∷ ss) c = credited-none ss c

module _ {V Q R W : Type 0} where
  IsProgress-advance :
      (ports : Ports Q R W) (plan : Plan V Q R) (given : FactMap V) (s : Stage V Q R)
      (p more : Progress V Q R)
      → Distinct (stage_ids plan.stages)
      → Any (λ t. t ≡ s) plan.stages
      → IsProgress ports plan given p
      → Writes s.id p.context.facts more.context.facts
      → IsEarned ports plan more.context.facts s.id
      → more.completed ≡ add s.id p.completed
      → more.attested ≡ update p.attested s.attests
      → IsProgress ports plan given more
  IsProgress-advance ports plan given s p more d m i w own done claims = record {
    earned = λ id h. elim (Bool-cases (s.id == id)) [
      | inl t ↦ subst (IsEarned ports plan more.context.facts) ((eq_iff s.id id).0 t) own
      | inr f ↦
          IsEarned-kept ports plan p.context.facts more.context.facts id (λ k f h. w.kept k h)
            (i.earned id (ground (arith, rw done at h, contains-add id s.id p.completed, f)))
    ];
    kept = λ k e. w.kept k (i.kept k e);
    written = λ k {f} e. elim (w.written k e) [
      | inr by_stage ↦ inr (
          rw (done, contains-add f.produced_by s.id p.completed)
            (ground (arith, by_stage, eq_iff s.id f.produced_by)))
      | inl old ↦ elim (i.written k old) [
        | inl before ↦ inl before
        | inr by_other ↦
            inr (rw (done, contains-add f.produced_by s.id p.completed) (ground (arith, by_other)))
      ]
    ];
    attested = λ c.
        rw (claims, done)
          (contains-update c p.attested s.attests
            ∙ ap (λ b. b || contains c s.attests) (i.attested c)
            ∙ sym (credited-add plan.stages p.completed s c d m));
  }

  settle-IsProgress :
      (ports : Ports Q R W) (plan : Plan V Q R) (given : FactMap V) (s : Stage V Q R)
      (p : Progress V Q R) (r : StageResult V Q R) (world : W)
      → (perform ports (s.apply p.context) world).0 ≡ ok r
      → Distinct (stage_ids plan.stages)
      → Any (λ t. t ≡ s) plan.stages
      → IsProgress ports plan given p
      → IsProgress ports plan given (settle plan s p r).1
  unfolding settle
  settle-IsProgress ports plan given s p (skip reason) world said d m i = i
  settle-IsProgress ports plan given s p (refuse reason) world said d m i = i
  settle-IsProgress ports plan given s p fail world said d m i = i
  settle-IsProgress ports plan given s p (advance facts finaliser) world said d m i =
      elim (Result-cases (with_facts facts s.id p.context)) [
        | inr (x, e) ↦ rw (settle, e) i
        | inl (c, e) ↦
            rw (settle, e)
              (IsProgress-advance ports plan given s p _ d m i
                (with_facts-Writes facts s.id p.context e)
                (record {
                  stage = s;
                  listed = m;
                  named = refl;
                  context = p.context;
                  world = world;
                  produced = facts;
                  finaliser = finaliser;
                  advanced = said;
                  later = c;
                  added = e;
                  kept = λ k h. h;
                })
                refl refl)
      ]

module _ {V Q R : Type 0} where
  settle-Reports :
      (plan : Plan V Q R) (s : Stage V Q R) (p : Progress V Q R) (r : StageResult V Q R)
      (o : Outcome V)
      → (settle plan s p r).0 ≡ ok (some o)
      → Reports plan (settle plan s p r).1 o
  unfolding settle
  settle-Reports plan s p (skip reason) o h = cc
  settle-Reports plan s p (refuse reason) o h =
      let same : stopped_by plan p reason ≡ o = cc h in
      subst (Reports plan p) same (refl, refl, refl, refl)
  settle-Reports plan s p fail o h =
      let same : stopped_by plan p stage_failed ≡ o = cc h in
      subst (Reports plan p) same (refl, refl, refl, refl)
  settle-Reports plan s p (advance facts finaliser) o h =
      elim (Result-cases (with_facts facts s.id p.context)) [
        | inr (x, e) ↦ cc (rw (settle, e) at h)
        | inl (c, e) ↦ cc (rw (settle, e) at h)
      ]

module _ {V Q R W : Type 0} where
  -- What an outcome owes to its reader, for some set of completed stages.
  pub record IsAccount (ports : Ports Q R W) (plan : Plan V Q R) (given : FactMap V) (o : Outcome V)
      : Type 0 where
    pub completed : List String
    pub earned : (id : String) → contains id completed ≡ true → IsEarned ports plan o.facts id
    pub kept : (k : String) {f : Fact V} → lookup k given ≡ some f → lookup k o.facts ≡ some f
    pub written :
        (k : String) {f : Fact V}
        → lookup k o.facts ≡ some f
        → (lookup k given ≡ some f) ⊎ (contains f.produced_by completed ≡ true)
    pub attested : (c : String) → contains c o.attested ≡ credited plan.stages completed c
    pub not_tested : (c : String) → contains c o.not_tested ≡ left_out plan.stages completed c
    pub every :
        (c : String)
        → (contains c o.attested || contains c o.not_tested) ≡ attested_by plan.stages c
    pub refusal : is_some o.refusal ≡ not o.succeeded

module _ {V Q R : Type 0} where
  pub credited_or_left :
      (stages : List (Stage V Q R)) (completed : List String) (c : String)
      → (credited stages completed c || left_out stages completed c) ≡ attested_by stages c
  credited_or_left [] completed c = refl
  credited_or_left (s ∷ ss) completed c = ground (arith, credited_or_left ss completed c)

module _ {V Q R W : Type 0} where
  account :
      (ports : Ports Q R W) (plan : Plan V Q R) (given : FactMap V) (p : Progress V Q R)
      (o : Outcome V)
      → IsProgress ports plan given p
      → Reports plan p o
      → IsAccount ports plan given o
  account ports plan given p o i (facts, attested, not_tested, refusal) =
      let claims : (c : String) → contains c o.attested ≡ credited plan.stages p.completed c =
        λ c. rw attested (contains-sorted c p.attested ∙ i.attested c) in
      let rest : (c : String) → contains c o.not_tested ≡ left_out plan.stages p.completed c =
        λ c. rw not_tested (contains-unreached c plan p.completed) in
      record {
        completed = p.completed;
        earned = λ id h. rw facts (i.earned id h);
        kept = λ k e. rw facts (i.kept k e);
        written = λ k e. i.written k (ap (lookup k) (sym facts) ∙ e);
        attested = claims;
        not_tested = rest;
        every = λ c. rw (claims c, rest c) (credited_or_left plan.stages p.completed c);
        refusal = refusal;
      }

module _ {V Q R : Type 0} where
  conclude-Reports :
      (plan : Plan V Q R) (r : Result (Option (Outcome V))) (p : Progress V Q R) (o : Outcome V)
      → ((o' : Outcome V) → r ≡ ok (some o') → Reports plan p o')
      → conclude plan r p ≡ ok o
      → Reports plan p o
  unfolding conclude
  conclude-Reports plan (raise e) p o reports h = cc
  conclude-Reports plan (ok (some o')) p o reports h =
      reports o (ap (λ r. r >>= λ x. ok (some x)) h)
  conclude-Reports plan (ok none) p o reports h =
      let same : succeeded_with plan p ≡ o = cc h in
      subst (Reports plan p) same (refl, refl, refl, refl)

module _ {V Q R W : Type 0} where
  abbrev IsSound :
      Ports Q R W
      → Plan V Q R
      → FactMap V
      → Result (Option (Outcome V)) × (Progress V Q R × W)
      → Type 0
  IsSound ports plan given a =
      IsProgress ports plan given a.1.0
      × ((o : Outcome V) → a.0 ≡ ok (some o) → Reports plan a.1.0 o)

  step-IsSound :
      (plan : Plan V Q R) (given : FactMap V) (ports : Ports Q R W) (s : Stage V Q R)
      (p : Progress V Q R) (world : W)
      → Distinct (stage_ids plan.stages)
      → Any (λ t. t ≡ s) plan.stages
      → IsProgress ports plan given p
      → IsSound ports plan given (step plan ports s p world)
  unfolding step
  step-IsSound plan given ports s p world d m i =
      let called = perform ports (s.apply p.context) world in
      elim (Result-cases called.0) [
        | inl (r, e) ↦
            rw (step, e)
              (
                settle-IsProgress ports plan given s p r world e d m i,
                λ o h. settle-Reports plan s p r o h,
              )
        | inr (x, e) ↦ rw (step, e) (i, λ o h. cc)
      ]

  steps-after :
      (plan : Plan V Q R) (given : FactMap V) (ports : Ports Q R W) (s : Stage V Q R)
      (ss : List (Stage V Q R)) (vs : List Preflight) (p : Progress V Q R) (world : W)
      → IsSound ports plan given (step plan ports s p world)
      → ((q : Progress V Q R) (left : W)
          → IsProgress ports plan given q
          → IsSound ports plan given (steps plan ports ss vs q left))
      → IsSound ports plan given (steps plan ports (s ∷ ss) (ready ∷ vs) p world)
  unfolding steps
  steps-after plan given ports s ss vs p world (i, reports) rest =
      let a = step plan ports s p world in
      elim (Result-cases a.0) [
        | inr (x, e) ↦ rw (steps, e) (i, λ o h. cc)
        | inl (some o, e) ↦ rw (steps, e) (i, λ o' h. reports o' (e ∙ h))
        | inl (none, e) ↦ rw (steps, e) (rest a.1.0 a.1.1 i)
      ]

  steps-IsSound :
      (plan : Plan V Q R) (given : FactMap V) (ports : Ports Q R W) (ss : List (Stage V Q R))
      (vs : List Preflight) (p : Progress V Q R) (world : W)
      → Distinct (stage_ids plan.stages)
      → All (λ s. Any (λ t. t ≡ s) plan.stages) ss
      → IsProgress ports plan given p
      → IsSound ports plan given (steps plan ports ss vs p world)
  unfolding steps
  steps-IsSound plan given ports [] [] p world d m i = (i, λ o h. cc)
  steps-IsSound plan given ports [] (v ∷ vs) p world d m i = (i, λ o h. cc)
  steps-IsSound plan given ports (s ∷ ss) [] p world d m i = (i, λ o h. cc)
  steps-IsSound plan given ports (s ∷ ss) (skip_because reason ∷ vs) p world d m i =
      steps-IsSound plan given ports ss vs p world d m.1 i
  steps-IsSound plan given ports (s ∷ ss) (ready ∷ vs) p world d m i =
      steps-after plan given ports s ss vs p world (step-IsSound plan given ports s p world d m.0 i)
        (λ q left j. steps-IsSound plan given ports ss vs q left d m.1 j)
  steps-IsSound plan given ports (s ∷ ss) (refuse_because reason ∷ vs) p world d m i =
      steps-after plan given ports s ss vs p world (step-IsSound plan given ports s p world d m.0 i)
        (λ q left j. steps-IsSound plan given ports ss vs q left d m.1 j)

  IsProgress-started :
      (plan : Plan V Q R) (ports : Ports Q R W) (given : FactMap V)
      → IsProgress ports plan given (started {V = V} ports given)
  IsProgress-started plan ports given = record {
    earned = λ id h. cc;
    kept = λ k e. e;
    written = λ k e. inl e;
    attested = λ c. sym (credited-none plan.stages c);
  }

  pub apply_plan-IsAccount :
      (plan : Plan V Q R) (vs : List Preflight) (ports : Ports Q R W) (given : FactMap V)
      (world : W) (o : Outcome V)
      → Distinct (stage_ids plan.stages)
      → (apply_plan plan vs ports given world).0 ≡ ok o
      → IsAccount ports plan given o
  unfolding apply_plan
  apply_plan-IsAccount plan vs ports given world o d h =
      let a = steps plan ports plan.stages vs (started ports given) world in
      let (i, reports) =
        steps-IsSound plan given ports plan.stages vs (started ports given) world d
          (each_present plan.stages) (IsProgress-started plan ports given) in
      account ports plan given a.1.0 o i (conclude-Reports plan a.0 a.1.0 o reports h)
