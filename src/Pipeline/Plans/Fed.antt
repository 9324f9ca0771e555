-- ===== src/Pipeline/Plans/Fed.antt =====
-- What `Plan.of` gives (src/apex/pipeline/plans.py): distinct stages, each behind those that feed it.
use apex_fedora.Base.{
  arith, false, All, All-mono, Any, Bool-cases, Dict, Distinct, List, Option-cases, String, [], all,
  ap, contains, each_present, eq_iff, inl, inr, insert, lookup, lookup-insert, map, refl, some,
  subst, sym, true, ◌==◌, ◌∙◌, ◌∷◌, ◌≡◌, ◌⊎◌,
}
use apex_fedora.Kernel.Errors.{ok, >>=-eq-ok, ◌>>=◌}
use apex_fedora.Registry.Graph.{Node, order}
use apex_fedora.Registry.Graph.Producers.{Writes}
use apex_fedora.Registry.Graph.Links.{ids_of}
use apex_fedora.Registry.Graph.Order.{Before, order_members, order_reads}
use apex_fedora.Pipeline.Stages.{Stage}
use apex_fedora.Pipeline.Plans.{Plan, node_of, by_name, pick, plan_of}
use apex_fedora.Pipeline.Runner.Accounts.{stage_ids}

module _ {V Q R : Type 0} where
  -- Every stage of the dictionary stands under its own id, and is of the list.
  abbrev IsKeyed : List (Stage V Q R) → Dict (Stage V Q R) → Type 0
  IsKeyed declared stages =
      (k : String) (s : Stage V Q R)
      → lookup k stages ≡ some s
      → (s.id ≡ k) × Any (λ t. t ≡ s) declared

  by_name-IsKeyed :
      (all rest : List (Stage V Q R)) (stages : Dict (Stage V Q R))
      → All (λ s. Any (λ t. t ≡ s) all) rest
      → IsKeyed all stages
      → IsKeyed all (by_name rest stages)
  unfolding by_name
  by_name-IsKeyed all [] stages m h = h
  by_name-IsKeyed all (s ∷ rest) stages (here, m) h =
      by_name-IsKeyed all rest (insert s.id s stages) m λ k t e. elim (Bool-cases (s.id == k)) [
        | inl same ↦
            let found : s ≡ t = cc (rw same at (sym (lookup-insert s.id k s stages) ∙ e)) in
            subst (λ u. (u.id ≡ k) × Any (λ w. w ≡ u) all) found ((eq_iff s.id k).0 same, here)
        | inr f ↦ h k t (rw f at (sym (lookup-insert s.id k s stages) ∙ e))
      ]

  -- The stages that are picked are those of the names.
  pick-stages :
      (declared : List (Stage V Q R)) (stages : Dict (Stage V Q R)) (names : List String)
      {ss : List (Stage V Q R)}
      → IsKeyed declared stages
      → pick stages names ≡ ok ss
      → (stage_ids ss ≡ names) × All (λ s. Any (λ t. t ≡ s) declared) ss
  unfolding pick
  pick-stages declared stages [] {ss} k h =
      subst (λ xs. (stage_ids xs ≡ []) × All (λ s. Any (λ t. t ≡ s) declared) xs) {x = []} {y = ss}
        (cc h) (refl, tt)
  pick-stages declared stages (n ∷ ns) {ss} k h = elim (Option-cases (lookup n stages)) [
    | inl none_there ↦ cc (rw (pick, none_there) at h)
    | inr (s, e) ↦
        let (more, picked, shape) =
          >>=-eq-ok (pick stages ns) (λ more. ok (s ∷ more)) (rw (pick, e) at h) in
        let (id, there) = k n s e in
        let (ids, known) = pick-stages declared stages ns k picked in
        subst (λ xs. (stage_ids xs ≡ n ∷ ns) × All (λ s. Any (λ t. t ≡ s) declared) xs)
          {x = s ∷ more} {y = ss} (cc shape)
          (ap (λ i. i ∷ stage_ids more) id ∙ ap (λ is. n ∷ is) ids, (there, known))
  ]

  abbrev pub nodes_of : List (Stage V Q R) → List Node
  nodes_of declared = map node_of declared

  -- For every fact that the stage reads and that is no seed, a stage of the plan writes it, which is the
  -- stage itself or goes before it.
  abbrev pub IsFed : List (Stage V Q R) → List String → List String → Stage V Q R → Type 0
  IsFed stages seeds ids s =
      All
        (λ fact.
          (contains fact seeds ≡ true)
          ⊎ ((writer : Stage V Q R) × Any (λ t. t ≡ writer) stages
              × (contains fact writer.writes ≡ true)
              × ((writer.id ≡ s.id) ⊎ Before writer.id s.id ids)))
        s.reads

  pub record IsPlan (declared : List (Stage V Q R)) (seeds : List String) (plan : Plan V Q R)
      : Type 0 where
    pub named : stage_ids plan.stages ≡ plan.sequence
    pub distinct : Distinct (stage_ids plan.stages)
    pub members : All (λ s. Any (λ t. t ≡ s) declared) plan.stages
    pub complete : (k : String) → contains k plan.sequence ≡ contains k (stage_ids declared)
    pub fed : All (IsFed plan.stages seeds plan.sequence) plan.stages

  ids_of-map : (declared : List (Stage V Q R)) → ids_of (nodes_of declared) ≡ stage_ids declared
  ids_of-map [] = refl
  ids_of-map (s ∷ ss) = ap (λ is. s.id ∷ is) (ids_of-map ss)

  fed_at :
      (P : Node → Type 0) (declared : List (Stage V Q R)) (s : Stage V Q R)
      → All P (nodes_of declared)
      → Any (λ t. t ≡ s) declared
      → P (node_of s)
  fed_at P [] s h m = elim m [ ]
  fed_at P (t ∷ ts) s h (inl e) = subst (λ u. P (node_of u)) e h.0
  fed_at P (t ∷ ts) s h (inr m) = fed_at P ts s h.1 m

  -- A stage of the list is called so.
  called :
      (id : String) (ss : List (Stage V Q R))
      → contains id (stage_ids ss) ≡ true
      → (s : Stage V Q R) × Any (λ t. t ≡ s) ss × (s.id ≡ id)
  called id [] h = cc
  called id (s ∷ ss) h = elim (Bool-cases (s.id == id)) [
    | inl t ↦ (s, inl refl, (eq_iff s.id id).0 t)
    | inr f ↦ let (u, there, same) = called id ss (rw f at h) in (u, inr there, same)
  ]

  id_listed :
      (s : Stage V Q R) (ss : List (Stage V Q R))
      → Any (λ t. t ≡ s) ss
      → contains s.id (stage_ids ss) ≡ true
  id_listed s [] m = elim m [ ]
  id_listed s (t ∷ ss) (inl e) = ground (arith, ap (λ u. u.id) e, eq_iff t.id s.id)
  id_listed s (t ∷ ss) (inr m) = ground (arith, id_listed s ss m)

  apart_from :
      (s a b : Stage V Q R) (ss : List (Stage V Q R))
      → contains s.id (stage_ids ss) ≡ false
      → s ≡ a
      → Any (λ t. t ≡ b) ss
      → a.id ≡ b.id
      → ⊥
  apart_from s a b ss apart p n e =
      let there : contains s.id (stage_ids ss) ≡ true =
        ap (λ i. contains i (stage_ids ss)) (ap (λ u. u.id) p ∙ e) ∙ id_listed b ss n in
      cc (apart, there)

  -- Stages of distinct names are known by them.
  same_stage :
      (ss : List (Stage V Q R)) (a b : Stage V Q R)
      → Distinct (stage_ids ss)
      → Any (λ t. t ≡ a) ss
      → Any (λ t. t ≡ b) ss
      → a.id ≡ b.id
      → a ≡ b
  same_stage [] a b d m n e = elim m [ ]
  same_stage (s ∷ ss) a b (apart, d) (inl p) (inl q) e = sym p ∙ q
  same_stage (s ∷ ss) a b (apart, d) (inl p) (inr n) e = absurd (apart_from s a b ss apart p n e)
  same_stage (s ∷ ss) a b (apart, d) (inr m) (inl q) e =
      absurd (apart_from s b a ss apart q m (sym e))
  same_stage (s ∷ ss) a b (apart, d) (inr m) (inr n) e = same_stage ss a b d m n e

  -- The stage that writes a fact, among those declared
  writing :
      (fact id : String) (declared : List (Stage V Q R))
      → Any (Writes fact id) (nodes_of declared)
      → (s : Stage V Q R) × Any (λ t. t ≡ s) declared
        × (s.id ≡ id)
        × (contains fact s.writes ≡ true)
  writing fact id [] m = elim m [ ]
  writing fact id (s ∷ ss) (inl (same, writes)) = (s, inl refl, same, writes)
  writing fact id (s ∷ ss) (inr m) =
      let (t, there, same, writes) = writing fact id ss m in (t, inr there, same, writes)

  -- Who writes it among those declared is in the plan.
  planned_writer :
      (declared stages : List (Stage V Q R)) (fact id : String)
      → Distinct (stage_ids declared)
      → All (λ s. Any (λ t. t ≡ s) declared) stages
      → ((k : String) → contains k (stage_ids stages) ≡ contains k (stage_ids declared))
      → Any (Writes fact id) (nodes_of declared)
      → (writer : Stage V Q R) × Any (λ t. t ≡ writer) stages
        × (contains fact writer.writes ≡ true)
        × (writer.id ≡ id)
  planned_writer declared stages fact id d known complete m =
      let (s, there, named, writes) = writing fact id declared m in
      let (t, planned, same) = called s.id stages (complete s.id ∙ id_listed s declared there) in
      let one : t ≡ s = same_stage declared t s d (listed t stages known planned) there same in
      (t, planned, ap (λ u. contains fact u.writes) one ∙ writes, same ∙ named)
    where
      listed :
          (t : Stage V Q R) (ss : List (Stage V Q R))
          → All (λ s. Any (λ u. u ≡ s) declared) ss
          → Any (λ u. u ≡ t) ss
          → Any (λ u. u ≡ t) declared
      listed t [] h m = elim m [ ]
      listed t (s ∷ ss) (here, h) (inl e) = subst (λ v. Any (λ u. u ≡ v) declared) e here
      listed t (s ∷ ss) (here, h) (inr m) = listed t ss h m

  -- A plan that is made of stages with distinct ids has a stage for every declared id and no others, each
  -- of them once and one of those declared, in an order in which everything that a stage reads is a seed or
  -- is written by a stage of the plan that goes before it, or by itself.
  pub plan_of-IsPlan :
      (name : String) (declared : List (Stage V Q R)) (seeds : List String) (plan : Plan V Q R)
      → Distinct (stage_ids declared)
      → plan_of name declared seeds ≡ ok plan
      → IsPlan declared seeds plan
  unfolding plan_of
  plan_of-IsPlan name declared seeds plan d h =
      let (ids, ordered, later) =
        >>=-eq-ok (order (nodes_of declared) seeds)
          (λ ids. pick (by_name declared []) ids >>= λ ss.
            ok (record { name = name; stages = ss; sequence = ids }))
          h in
      let (ss, picked, shape) =
        >>=-eq-ok (pick (by_name declared []) ids)
          (λ ss. ok (record { name = name; stages = ss; sequence = ids })) later in
      let keyed : IsKeyed declared (by_name declared []) =
        by_name-IsKeyed declared declared [] (each_present declared)
          (λ k s e. unfold lookup in cc e) in
      let (named, known) = pick-stages declared (by_name declared []) ids keyed picked in
      let (once, same) = order_members (nodes_of declared) seeds ids ordered in
      subst (IsPlan declared seeds) {x = record { name = name; stages = ss; sequence = ids }}
        {y = plan} (cc shape)
        (record {
          named = named;
          distinct = rw named once;
          members = known;
          complete = λ k. same k ∙ ap (contains k) (ids_of-map declared);
          fed =
              All-mono
                (λ s m.
                  All-mono
                    (λ fact known_fact. elim known_fact [
                      | inl seed ↦ inl seed
                      | inr (id, writes, place) ↦
                          let (writer, there, wrote, called_so) =
                            planned_writer declared ss fact id d known
                              (λ k.
                                ap (contains k) named
                                ∙ same k
                                ∙ ap (contains k) (ids_of-map declared))
                              writes in
                          inr (
                            writer,
                            there,
                            wrote,
                            subst (λ w. (w ≡ s.id) ⊎ Before w s.id ids) (sym called_so) place,
                          )
                    ])
                    s.reads
                    (fed_at _ declared s (order_reads (nodes_of declared) seeds ids ordered) m))
                ss known;
        })
