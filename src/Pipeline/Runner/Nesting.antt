-- ===== src/Pipeline/Runner/Nesting.antt =====
-- The unwinding of `_apply` (src/apex/pipeline/runner.py), against the stages as blocks in each other.
use apex_fedora.Base.{
  Dict, List, Option, [], ap, append-nil, append_assoc, inl, inr, none, refl, some, subst, sym,
  ◌++◌, ◌∙◌, ◌∷◌, ◌≡◌,
}
use apex_fedora.Kernel.Errors.{Raised, Result, ok, raise, other_exception, Result-cases}
use apex_fedora.Pipeline.Ports.{Ports, perform}
use apex_fedora.Pipeline.Facts.{FactMap}
use apex_fedora.Pipeline.Stages.{
  Finaliser, Preflight, ready, skip_because, refuse_because, StageResult, advance, skip, refuse,
  fail, Stage, with_facts,
}
use apex_fedora.Pipeline.Plans.{Plan}
use apex_fedora.Pipeline.Runner.{
  Outcome, Progress, reverse, settle, step, steps, release_each, unwind, conclude, started,
  apply_plan,
}

-- The progress of a run, but for what is to be released.
abbrev pub bare : {V Q R : Type 0} → Progress V Q R → Progress V Q R
bare progress = record progress { finalisers = [] }

-- The releases of blocks in each other, the inner ones first; a release that raises has still run.
abbrev pub released : {Q R W : Type 0} → Ports Q R W → List (Finaliser Q R) → W → W
released ports [] world = world
released ports (finaliser ∷ inner) world =
    (perform ports finaliser.release (released ports inner world)).1

module _ {V Q R W : Type 0} where
  -- The same run written as blocks: what a stage acquired is released when the rest of the plan has
  -- run inside it, however that ended.
  unfoldable pub nested :
      Plan V Q R
      → Ports Q R W
      → List (Stage V Q R)
      → List Preflight
      → Progress V Q R
      → W
      → Result (Option (Outcome V)) × (Progress V Q R × W)
  nested plan ports [] [] progress world = (ok none, (progress, world))
  nested plan ports (stage ∷ stages) (skip_because reason ∷ verdicts) progress world =
      nested plan ports stages verdicts progress world
  nested plan ports (stage ∷ stages) (_ ∷ verdicts) progress world =
      let (stopped, (more, after)) = step plan ports stage (bare progress) world in
      elim stopped [
        | raise e ↦ (raise e, (bare more, released ports more.finalisers after))
        | ok (some outcome) ↦ (ok (some outcome), (bare more, released ports more.finalisers after))
        | ok none ↦
            let (end, (last, left)) = nested plan ports stages verdicts (bare more) after in
            (end, (last, released ports more.finalisers left))
      ]
  nested plan ports _ _ progress world = (raise other_exception, (progress, world))

reverse-append : {A : Type 0} (xs ys : List A) → reverse (xs ++ ys) ≡ reverse ys ++ reverse xs
reverse-append [] ys = sym (append-nil _)
reverse-append (x ∷ xs) ys =
    rw (reverse-append xs ys) (append_assoc (reverse ys) (reverse xs) (x ∷ []))

module _ {Q R W : Type 0} where
  release_each-append :
      (ports : Ports Q R W) (xs ys : List (Finaliser Q R)) (world : W)
      → release_each ports (xs ++ ys) world ≡ release_each ports ys (release_each ports xs world)
  unfolding release_each
  release_each-append ports [] ys world = refl
  release_each-append ports (x ∷ xs) ys world =
      release_each-append ports xs ys (perform ports x.release world).1

  -- What was acquired later is released earlier.
  unwind-append :
      (ports : Ports Q R W) (xs ys : List (Finaliser Q R)) (world : W)
      → unwind ports (xs ++ ys) world ≡ unwind ports xs (unwind ports ys world)
  unfolding unwind
  unwind-append ports xs ys world =
      rw (reverse-append xs ys) (release_each-append ports (reverse ys) (reverse xs) world)

  -- The loop releases what the blocks release, in their order.
  unwind-released :
      (ports : Ports Q R W) (finalisers : List (Finaliser Q R)) (world : W)
      → unwind ports finalisers world ≡ released ports finalisers world
  unfolding unwind release_each
  unwind-released ports [] world = refl
  unwind-released ports (f ∷ inner) world =
      release_each-append ports (reverse inner) (f ∷ []) world
      ∙ ap (λ w. (perform ports f.release w).1) (unwind-released ports inner world)

  unwind_split :
      (ports : Ports Q R W) (held new all_held : List (Finaliser Q R)) (a b : W)
      → all_held ≡ held ++ new
      → a ≡ b
      → unwind ports all_held a ≡ unwind ports held (released ports new b)
  unwind_split ports held new all_held a b e same =
      ap (λ fs. unwind ports fs a) e
      ∙ ap (unwind ports (held ++ new)) same
      ∙ unwind-append ports held new b
      ∙ ap (unwind ports held) (unwind-released ports new b)

module _ {V Q R : Type 0} where
  conclude-bare :
      (plan : Plan V Q R) (r : Result (Option (Outcome V))) (p : Progress V Q R)
      → conclude plan r (bare p) ≡ conclude plan r p
  unfolding conclude
  conclude-bare plan (raise e) p = refl
  conclude-bare plan (ok (some o)) p = refl
  conclude-bare plan (ok none) p = refl

  -- A step taken with finalisers, and without: they differ in what is to be released.
  abbrev IsBareOf :
      List (Finaliser Q R)
      → Result (Option (Outcome V)) × Progress V Q R
      → Result (Option (Outcome V)) × Progress V Q R
      → Type 0
  IsBareOf held a b =
      (a.0 ≡ b.0) × (bare a.1 ≡ bare b.1) × (a.1.finalisers ≡ held ++ b.1.finalisers)

  settle-bare :
      (plan : Plan V Q R) (stage : Stage V Q R) (p : Progress V Q R) (r : StageResult V Q R)
      → IsBareOf p.finalisers (settle plan stage p r) (settle plan stage (bare p) r)
  unfolding settle
  settle-bare plan stage p (skip reason) = (refl, refl, sym (append-nil _))
  settle-bare plan stage p (refuse reason) = (refl, refl, sym (append-nil _))
  settle-bare plan stage p fail = (refl, refl, sym (append-nil _))
  settle-bare plan stage p (advance facts none) =
      elim (Result-cases (with_facts facts stage.id p.context)) [
        | inl (c, e) ↦ rw (settle, e) (refl, refl, sym (append-nil _))
        | inr (x, e) ↦ rw (settle, e) (refl, refl, sym (append-nil _))
      ]
  settle-bare plan stage p (advance facts (some f)) =
      elim (Result-cases (with_facts facts stage.id p.context)) [
        | inl (c, e) ↦ rw (settle, e) (refl, refl, refl)
        | inr (x, e) ↦ rw (settle, e) (refl, refl, sym (append-nil _))
      ]

module _ {V Q R W : Type 0} where
  step-bare :
      (plan : Plan V Q R) (ports : Ports Q R W) (stage : Stage V Q R) (p : Progress V Q R)
      (world : W)
      → let a = step plan ports stage p world in
        let b = step plan ports stage (bare p) world in
        IsBareOf p.finalisers (a.0, a.1.0) (b.0, b.1.0) × (a.1.1 ≡ b.1.1)
  unfolding step
  step-bare plan ports stage p world =
      let called = perform ports (stage.apply p.context) world in
      elim (Result-cases called.0) [
        | inl (r, e) ↦ rw (step, e) (settle-bare plan stage p r, refl)
        | inr (x, e) ↦ rw (step, e) ((refl, refl, sym (append-nil _)), refl)
      ]

  -- The steps and the blocks end alike, and the world is the same once all is released.
  abbrev Matches :
      Ports Q R W
      → List (Finaliser Q R)
      → Result (Option (Outcome V)) × (Progress V Q R × W)
      → Result (Option (Outcome V)) × (Progress V Q R × W)
      → Type 0
  Matches ports held a n =
      (a.0 ≡ n.0)
      × (bare a.1.0 ≡ bare n.1.0)
      × (unwind ports a.1.0.finalisers a.1.1 ≡ unwind ports held n.1.1)

  -- One step and what follows it, where what follows matches.
  steps-after :
      (plan : Plan V Q R) (ports : Ports Q R W) (stage : Stage V Q R) (ss : List (Stage V Q R))
      (vs : List Preflight) (p : Progress V Q R) (world : W)
      → ((q : Progress V Q R) (left : W)
          → Matches ports q.finalisers
              (steps plan ports ss vs q left)
              (nested plan ports ss vs (bare q) left))
      → Matches ports p.finalisers
          (steps plan ports (stage ∷ ss) (ready ∷ vs) p world)
          (nested plan ports (stage ∷ ss) (ready ∷ vs) (bare p) world)
  unfolding steps nested
  steps-after plan ports stage ss vs p world rest =
      let a = step plan ports stage p world in
      let b = step plan ports stage (bare p) world in
      let ((same, alike, held), left) = step-bare plan ports stage p world in
      elim (Result-cases a.0) [
        | inr (x, e) ↦
            rw (steps, nested, e, sym same ∙ e)
              (
                refl,
                alike,
                unwind_split ports p.finalisers b.1.0.finalisers a.1.0.finalisers a.1.1 b.1.1 held
                    left,
              )
        | inl (some o, e) ↦
            rw (steps, nested, e, sym same ∙ e)
              (
                refl,
                alike,
                unwind_split ports p.finalisers b.1.0.finalisers a.1.0.finalisers a.1.1 b.1.1 held
                    left,
              )
        | inl (none, e) ↦
            let inside : List (Stage V Q R)
                → Progress V Q R
                → W
                → Result (Option (Outcome V)) × (Progress V Q R × W) =
              λ stages q left. nested plan ports stages vs q left in
            let (end, last, all_released) =
              subst (Matches ports a.1.0.finalisers (steps plan ports ss vs a.1.0 a.1.1))
                (ap (λ q. inside ss q a.1.1) alike ∙ ap (inside ss (bare b.1.0)) left)
                (rest a.1.0 a.1.1) in
            rw (steps, nested, e, sym same ∙ e)
              (
                end,
                last,
                all_released
                    ∙ unwind_split ports p.finalisers b.1.0.finalisers a.1.0.finalisers
                        (inside ss (bare b.1.0) b.1.1).1.1 (inside ss (bare b.1.0) b.1.1).1.1 held
                        refl,
              )
      ]

  steps-nested :
      (plan : Plan V Q R) (ports : Ports Q R W) (ss : List (Stage V Q R)) (vs : List Preflight)
      (p : Progress V Q R) (world : W)
      → Matches ports p.finalisers
          (steps plan ports ss vs p world)
          (nested plan ports ss vs (bare p) world)
  unfolding steps nested
  steps-nested plan ports [] [] p world = (refl, refl, refl)
  steps-nested plan ports [] (v ∷ vs) p world = (refl, refl, refl)
  steps-nested plan ports (s ∷ ss) [] p world = (refl, refl, refl)
  steps-nested plan ports (s ∷ ss) (skip_because reason ∷ vs) p world =
      steps-nested plan ports ss vs p world
  steps-nested plan ports (s ∷ ss) (ready ∷ vs) p world =
      steps-after plan ports s ss vs p world (λ q left. steps-nested plan ports ss vs q left)
  steps-nested plan ports (s ∷ ss) (refuse_because reason ∷ vs) p world =
      steps-after plan ports s ss vs p world (λ q left. steps-nested plan ports ss vs q left)

  -- Applying a plan does what the nested blocks do, with the same result and the same world: every
  -- finaliser that a step recorded is run, after the world that all the later steps and their releases left,
  -- whether the plan succeeds, is stopped by a stage, or raises, and whatever a release raises.
  pub apply_plan-nested :
      (plan : Plan V Q R) (verdicts : List Preflight) (ports : Ports Q R W) (given : FactMap V)
      (world : W)
      → let blocks = nested plan ports plan.stages verdicts (started ports given) world in
        apply_plan plan verdicts ports given world ≡ (conclude plan blocks.0 blocks.1.0, blocks.1.1)
  unfolding apply_plan unwind release_each
  apply_plan-nested plan verdicts ports given world =
      let flat = steps plan ports plan.stages verdicts (started ports given) world in
      let blocks = nested plan ports plan.stages verdicts (started ports given) world in
      let (end, last, left) =
        steps-nested plan ports plan.stages verdicts (started ports given) world in
      let said : conclude plan flat.0 flat.1.0 ≡ conclude plan blocks.0 blocks.1.0 =
        sym (conclude-bare plan flat.0 flat.1.0)
        ∙ ap (conclude plan flat.0) last
        ∙ conclude-bare plan flat.0 blocks.1.0
        ∙ ap (λ r. conclude plan r blocks.1.0) end in
      ap (λ r. (r, unwind ports flat.1.0.finalisers flat.1.1)) said
      ∙ ap (λ w. (conclude plan blocks.0 blocks.1.0, w)) left

  step_clash :
      (plan : Plan V Q R) (ports : Ports Q R W) (stage : Stage V Q R) (p : Progress V Q R)
      (world after : W) (facts : Dict V) (finaliser : Finaliser Q R) (error : Raised)
      → perform ports (stage.apply p.context) world ≡ (ok (advance facts (some finaliser)), after)
      → with_facts facts stage.id p.context ≡ raise error
      → step plan ports stage p world ≡ (raise error, (p, after))
  unfolding step
  step_clash plan ports stage p world after facts finaliser error acts clash =
      rw (step, ap (λ r. r.0) acts, settle, clash)
        (ap (λ w. (raise error, (p, w))) (ap (λ r. r.1) acts))

  stepped-append :
      (plan : Plan V Q R) (ports : Ports Q R W) (s : Stage V Q R) (ss rest : List (Stage V Q R))
      (vs more : List Preflight) (p q : Progress V Q R) (world left : W)
      → steps plan ports (s ∷ ss) (ready ∷ vs) p world ≡ (ok none, (q, left))
      → ((r : Progress V Q R) (w : W)
          → steps plan ports ss vs r w ≡ (ok none, (q, left))
          → steps plan ports (ss ++ rest) (vs ++ more) r w ≡ steps plan ports rest more q left)
      → steps plan ports (s ∷ ss ++ rest) (ready ∷ vs ++ more) p world
        ≡ steps plan ports rest more q left
  unfolding steps
  stepped-append plan ports s ss rest vs more p q world left h later =
      let a = step plan ports s p world in
      elim (Result-cases a.0) [
        | inr (x, e) ↦ cc (ap (λ r. r.0) (rw (steps, e) at h))
        | inl (some o, e) ↦ cc (ap (λ r. r.0) (rw (steps, e) at h))
        | inl (none, e) ↦ rw (steps, e) (later a.1.0 a.1.1 (rw (steps, e) at h))
      ]

  -- The loop, of which the first stages went through.
  steps-append :
      (plan : Plan V Q R) (ports : Ports Q R W) (ss rest : List (Stage V Q R))
      (vs more : List Preflight) (p q : Progress V Q R) (world left : W)
      → steps plan ports ss vs p world ≡ (ok none, (q, left))
      → steps plan ports (ss ++ rest) (vs ++ more) p world ≡ steps plan ports rest more q left
  unfolding steps
  steps-append plan ports [] rest [] more p q world left h =
      ap (λ r. steps plan ports rest more r.1.0 r.1.1) h
  steps-append plan ports [] rest (v ∷ vs) more p q world left h = cc (ap (λ r. r.0) h)
  steps-append plan ports (s ∷ ss) rest [] more p q world left h = cc (ap (λ r. r.0) h)
  steps-append plan ports (s ∷ ss) rest (skip_because reason ∷ vs) more p q world left h =
      steps-append plan ports ss rest vs more p q world left h
  steps-append plan ports (s ∷ ss) rest (ready ∷ vs) more p q world left h =
      stepped-append plan ports s ss rest vs more p q world left h
        (λ r w. steps-append plan ports ss rest vs more r q w left)
  steps-append plan ports (s ∷ ss) rest (refuse_because reason ∷ vs) more p q world left h =
      stepped-append plan ports s ss rest vs more p q world left h
        (λ r w. steps-append plan ports ss rest vs more r q w left)

  -- A stage that hands over a finaliser together with a fact that is already written ends the run by
  -- the exception, whatever stages went through before it and whatever would follow: what those acquired
  -- is released, and the finaliser of the stage itself is not.
  pub clash_unreleased :
      (plan : Plan V Q R) (ports : Ports Q R W) (given : FactMap V) (first : List (Stage V Q R))
      (stage : Stage V Q R) (later : List (Stage V Q R)) (verdicts others : List Preflight)
      (p : Progress V Q R) (world before after : W) (facts : Dict V) (finaliser : Finaliser Q R)
      (error : Raised)
      → plan.stages ≡ first ++ stage ∷ later
      → steps plan ports first verdicts (started ports given) world ≡ (ok none, (p, before))
      → perform ports (stage.apply p.context) before ≡ (ok (advance facts (some finaliser)), after)
      → with_facts facts stage.id p.context ≡ raise error
      → apply_plan plan (verdicts ++ ready ∷ others) ports given world
        ≡ (raise error, released ports p.finalisers after)
  unfolding apply_plan steps conclude
  clash_unreleased plan ports given first stage later verdicts others p world before after facts
        finaliser error whole went acts clash =
      let stops = step_clash plan ports stage p before after facts finaliser error acts clash in
      let reached =
        steps-append plan ports first (stage ∷ later) verdicts (ready ∷ others)
          (started ports given) p world before went in
      let ends : steps plan ports (stage ∷ later) (ready ∷ others) p before
          ≡ (raise error, (p, after)) =
        rw (steps, ap (λ r. r.0) stops) (ap (λ q. (raise error, q)) (ap (λ r. r.1) stops)) in
      ap
        (λ ss. (
          conclude plan
              (steps plan ports ss (verdicts ++ ready ∷ others) (started ports given) world).0
              (steps plan ports ss (verdicts ++ ready ∷ others) (started ports given) world).1.0,
          unwind ports
              (steps plan ports ss (verdicts ++ ready ∷ others) (started ports given)
                world).1.0.finalisers
              (steps plan ports ss (verdicts ++ ready ∷ others) (started ports given) world).1.1,
        ))
        whole
      ∙ ap (λ r. (conclude plan r.0 r.1.0, unwind ports r.1.0.finalisers r.1.1)) (reached ∙ ends)
      ∙ ap (λ w. (raise error, w)) (unwind-released ports p.finalisers after)
