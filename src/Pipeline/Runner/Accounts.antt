-- ===== src/Pipeline/Runner/Accounts.antt =====
-- What an outcome says of the facts and the checks (src/apex/pipeline/runner.py).
use apex_fedora.Base.{
  Any, Bool, Bool-cases, Dict, Distinct, List, String, [], add, any, ap, arith, contains,
  contains-append, contains-sorted, eq_iff, false, has, has-some, inl, inr, insert, lookup,
  lookup-insert, not, refl, some, subst, sym, true, ◌&&◌, ◌==◌, ◌||◌, ◌∙◌, ◌∷◌, ◌≡◌, ◌⊎◌,
}
use apex_fedora.Kernel.Errors.{ok, >>=-eq-ok}
use apex_fedora.Pipeline.Facts.{Fact, FactMap, with_fact, with_each}
use apex_fedora.Pipeline.Stages.{RunContext, Stage, with_facts}
use apex_fedora.Pipeline.Plans.{Plan}
use apex_fedora.Pipeline.Runner.{update, pending_of, unreached}

contains_same : (n c : String) (xs : List String) → (n == c) ≡ true → contains n xs ≡ contains c xs
contains_same n c xs e = ap (λ m. contains m xs) ((eq_iff n c).0 e)

pub contains-add :
    (c n : String) (xs : List String) → contains c (add n xs) ≡ (n == c || contains c xs)
unfolding add
contains-add c n xs = elim (Bool-cases (contains n xs)) [
  | inl t ↦ rw t (elim (Bool-cases (n == c)) [
    | inl e ↦ rw e (sym (contains_same n c xs e) ∙ t)
    | inr f ↦ rw f refl
  ])
  | inr f ↦ rw f (contains-append c xs (n ∷ []) ∙ or_comm (contains c xs) (n == c))
]
  where
    or_comm : (a b : Bool) → (a || (b || false)) ≡ (b || a)
    or_comm a b = ground arith

pub contains-update :
    (c : String) (xs ys : List String)
    → contains c (update xs ys) ≡ (contains c xs || contains c ys)
unfolding update
contains-update c xs [] = ground arith
contains-update c xs (y ∷ ys) = ground (arith, contains-update c (add y xs) ys, contains-add c y xs)

module _ {V : Type 0} where
  -- The facts are those of `old` and others, which `by` produced.
  pub record Writes (by : String) (old new : FactMap V) : Type 0 where
    pub kept : (k : String) {f : Fact V} → lookup k old ≡ some f → lookup k new ≡ some f
    pub written :
        (k : String) {f : Fact V}
        → lookup k new ≡ some f
        → (lookup k old ≡ some f) ⊎ (f.produced_by ≡ by)

  -- Facts are never overwritten.
  pub with_each-Writes :
      (produced : Dict V) (by : String) (facts : FactMap V) {more : FactMap V}
      → with_each produced by facts ≡ ok more
      → Writes by facts more
  unfolding with_each with_fact
  with_each-Writes [] by facts {more} h =
      subst (Writes by facts) (cc) (record { kept = λ k e. e; written = λ k e. inl e })
  with_each-Writes ((key, value) ∷ produced) by facts {more} h = elim (Bool-cases (has key facts)) [
    | inl t ↦ cc (rw t at h)
    | inr fresh ↦
        let fact : Fact V = record { value = value; produced_by = by } in
        let rest : Writes by (insert key fact facts) more =
          with_each-Writes produced by (insert key fact facts) (rw fresh at h) in
        record {
          kept = λ k {f} e. rest.kept k (
              lookup-insert key k fact facts
              ∙ ground (
                arith,
                has-some k facts {v = f},
                ap (λ j. has j facts) {x = key} {y = k},
                eq_iff key k,
                e,
                fresh,
              ));
          written = λ k {f} e. elim (rest.written k e) [
            | inr by_same ↦ inr by_same
            | inl there ↦ elim (Bool-cases (key == k)) [
              | inl t ↦ inr (cc (rw t at (sym (lookup-insert key k fact facts) ∙ there)))
              | inr g ↦ inl (rw g at (sym (lookup-insert key k fact facts) ∙ there))
            ]
          ];
        }
  ]

  pub with_facts-Writes :
      (produced : Dict V) (by : String) (context : RunContext V) {more : RunContext V}
      → with_facts produced by context ≡ ok more
      → Writes by context.facts more.facts
  unfolding with_facts
  with_facts-Writes produced by context {more} h =
      let (updated, made, shape) =
        >>=-eq-ok (with_each produced by context.facts) (λ u. ok (record context { facts = u }))
          h in
      let same : updated ≡ more.facts = cc shape in
      subst (Writes by context.facts) same (with_each-Writes produced by context.facts made)

module _ {V Q R : Type 0} where
  abbrev pub stage_ids : List (Stage V Q R) → List String
  stage_ids [] = []
  stage_ids (s ∷ ss) = s.id ∷ stage_ids ss

  -- Some stage attests the check.
  abbrev pub attested_by : List (Stage V Q R) → String → Bool
  attested_by stages c = any (λ s. contains c s.attests) stages

  -- Some completed stage attests the check; some other stage does.
  abbrev pub credited : List (Stage V Q R) → List String → String → Bool
  credited stages completed c = any (λ s. contains s.id completed && contains c s.attests) stages

  abbrev pub left_out : List (Stage V Q R) → List String → String → Bool
  left_out stages completed c =
      any (λ s. not (contains s.id completed) && contains c s.attests) stages

  contains-pending_of :
      (c : String) (stages : List (Stage V Q R)) (completed pending : List String)
      → contains c (pending_of stages completed pending)
        ≡ (contains c pending || left_out stages completed c)
  unfolding pending_of
  contains-pending_of c [] completed pending = ground arith
  contains-pending_of c (s ∷ ss) completed pending = elim (Bool-cases (contains s.id completed)) [
    | inl t ↦ rw t (contains-pending_of c ss completed pending)
    | inr f ↦ rw f (
        contains-pending_of c ss completed (update pending s.attests)
        ∙ ground (arith, contains-update c pending s.attests))
  ]

  pub contains-unreached :
      (c : String) (plan : Plan V Q R) (completed : List String)
      → contains c (unreached plan completed) ≡ left_out plan.stages completed c
  unfolding unreached
  contains-unreached c plan completed =
      contains-sorted c (pending_of plan.stages completed [])
      ∙ contains-pending_of c plan.stages completed []

  credited-add_other :
      (stages : List (Stage V Q R)) (completed : List String) (id c : String)
      → contains id (stage_ids stages) ≡ false
      → credited stages (add id completed) c ≡ credited stages completed c
  credited-add_other [] completed id c h = refl
  credited-add_other (s ∷ ss) completed id c h = ground (
    arith,
    credited-add_other ss completed id c,
    contains-add s.id id completed,
    eq_iff s.id id,
    eq_iff id s.id,
    h,
  )

  id_known :
      (stage : Stage V Q R) (stages : List (Stage V Q R))
      → Any (λ t. t ≡ stage) stages
      → contains stage.id (stage_ids stages) ≡ true
  id_known stage [] m = elim m [ ]
  id_known stage (s ∷ ss) (inl e) = ground (arith, ap (λ t. t.id) e, eq_iff s.id stage.id)
  id_known stage (s ∷ ss) (inr m) = ground (arith, id_known stage ss m)

  -- One more completed stage credits what it attests.
  pub credited-add :
      (stages : List (Stage V Q R)) (completed : List String) (stage : Stage V Q R) (c : String)
      → Distinct (stage_ids stages)
      → Any (λ t. t ≡ stage) stages
      → credited stages (add stage.id completed) c
        ≡ (credited stages completed c || contains c stage.attests)
  credited-add [] completed stage c d m = elim m [ ]
  credited-add (s ∷ ss) completed stage c (apart, d) (inl e) =
      let same : s.id ≡ stage.id = ap (λ t. t.id) e in
      let alike : contains c s.attests ≡ contains c stage.attests =
        ap (λ t. contains c t.attests) e in
      let others : credited ss (add stage.id completed) c ≡ credited ss completed c =
        credited-add_other ss completed stage.id c
          (ap (λ i. contains i (stage_ids ss)) (sym same) ∙ apart) in
      ground
        (arith, alike, others, contains-add s.id stage.id completed, same, eq_iff stage.id s.id)
  credited-add (s ∷ ss) completed stage c (apart, d) (inr m) = ground (
    arith,
    credited-add ss completed stage c d m,
    id_known stage ss m,
    contains-add s.id stage.id completed,
    eq_iff stage.id s.id,
    ap (λ i. contains i (stage_ids ss)) {x = s.id} {y = stage.id},
    apart,
  )
