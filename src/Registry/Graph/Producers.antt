-- ===== src/Registry/Graph/Producers.antt =====
-- Who writes a fact, as `_producers` of src/apex/registry/graph.py finds it.
use apex_fedora.Base.{
  All, All-Any, All-unsort, Any, Any-unsort, Bool-cases, Dict, List, String, [], ap, arith,
  contains, contains-sorted, eq_iff, has, has-some, if◌then◌else◌, inl, inr, insert, lookup,
  lookup-insert, some, sorted, sorted_by, sym, true, ◌↔◌, ◌∙◌, ◌∷◌, ◌≡◌, ◌⊎◌,
}
use apex_fedora.Kernel.Errors.{ok, >>=-eq-ok}
use apex_fedora.Registry.Graph.{Node, claim_facts, claim_nodes, producers_of}

-- The node is called `id` and writes the fact.
abbrev pub Writes : String → String → Node → Type 0
Writes fact id node = (node.id ≡ id) × (contains fact node.writes ≡ true)

lookup-claim_facts :
    (id : String) (facts : List String) (producers : Dict String) {more : Dict String}
    → claim_facts id facts producers ≡ ok more
    → (fact : String)
    → lookup fact more ≡ (if contains fact facts then some id else lookup fact producers)
unfolding claim_facts
lookup-claim_facts id [] producers h fact = ap (lookup fact) (cc)
lookup-claim_facts id (f ∷ fs) producers {more} h fact = elim (Bool-cases (has f producers)) [
  | inl t ↦ cc (rw t at h)
  | inr g ↦
      lookup-claim_facts id fs (insert f id producers) {more = more} (rw g at h) fact
      ∙ ground (arith, lookup-insert f fact id producers)
]

-- A fact that has a producer keeps it: a second writer is refused.
claim_facts_keeps :
    (id : String) (facts : List String) (producers : Dict String) {more : Dict String}
    → claim_facts id facts producers ≡ ok more
    → (fact owner : String) → lookup fact producers ≡ some owner
    → lookup fact more ≡ some owner
unfolding claim_facts
claim_facts_keeps id [] producers h fact owner e = ap (lookup fact) (cc) ∙ e
claim_facts_keeps id (f ∷ fs) producers {more} h fact owner e =
    elim (Bool-cases (has f producers)) [
      | inl t ↦ cc (rw t at h)
      | inr g ↦
          claim_facts_keeps id fs (insert f id producers) {more = more} (rw g at h) fact owner (
            ground (
              arith,
              lookup-insert f fact id producers,
              has-some f producers {v = owner},
              eq_iff f fact,
              e,
              g,
            ))
    ]

claim_nodes_keeps :
    (nodes : List Node) (producers : Dict String) {more : Dict String}
    → claim_nodes nodes producers ≡ ok more
    → (fact owner : String) → lookup fact producers ≡ some owner
    → lookup fact more ≡ some owner
unfolding claim_nodes
claim_nodes_keeps [] producers h fact owner e = ap (lookup fact) (cc) ∙ e
claim_nodes_keeps (n ∷ ns) producers {more} h fact owner e =
    let (mid, first, rest) =
      >>=-eq-ok (claim_facts n.id (sorted n.writes) producers) (λ m. claim_nodes ns m) h in
    claim_nodes_keeps ns mid rest fact owner
      (claim_facts_keeps n.id (sorted n.writes) producers first fact owner e)

claim_nodes_complete :
    (nodes : List Node) (producers : Dict String) {more : Dict String}
    → claim_nodes nodes producers ≡ ok more
    → All
        (λ n. (fact : String) → contains fact n.writes ≡ true → lookup fact more ≡ some n.id)
        nodes
unfolding claim_nodes
claim_nodes_complete [] producers h = tt
claim_nodes_complete (n ∷ ns) producers {more} h =
    let (mid, first, rest) =
      >>=-eq-ok (claim_facts n.id (sorted n.writes) producers) (λ m. claim_nodes ns m) h in
    (
      λ fact writes. claim_nodes_keeps ns mid rest fact n.id (
          lookup-claim_facts n.id (sorted n.writes) producers first fact
          ∙ rw (contains-sorted fact n.writes, writes)),
      claim_nodes_complete ns mid rest,
    )

claimed_now :
    (n : Node) (ns : List Node) (producers : Dict String) (fact : String) {id : String}
    → (if contains fact n.writes then some n.id else lookup fact producers) ≡ some id
    → (lookup fact producers ≡ some id) ⊎ Any (Writes fact id) (n ∷ ns)
claimed_now n ns producers fact h = elim (Bool-cases (contains fact n.writes)) [
  | inl t ↦ inr (inl (cc (h, t), t))
  | inr f ↦ inl (rw f at h)
]

claim_nodes_sound :
    (nodes : List Node) (producers : Dict String) {more : Dict String}
    → claim_nodes nodes producers ≡ ok more
    → (fact id : String) → lookup fact more ≡ some id
    → (lookup fact producers ≡ some id) ⊎ Any (Writes fact id) nodes
unfolding claim_nodes
claim_nodes_sound [] producers h fact id e = inl (ap (lookup fact) (cc) ∙ e)
claim_nodes_sound (n ∷ ns) producers {more} h fact id e =
    let (mid, first, rest) =
      >>=-eq-ok (claim_facts n.id (sorted n.writes) producers) (λ m. claim_nodes ns m) h in
    let step : lookup fact mid
        ≡ (if contains fact n.writes then some n.id else lookup fact producers) =
      rw (← contains-sorted fact n.writes)
        (lookup-claim_facts n.id (sorted n.writes) producers first fact) in
    elim (claim_nodes_sound ns mid rest fact id e) [
      | inr later ↦ inr (inr later)
      | inl now ↦ claimed_now n ns producers fact (sym step ∙ now)
    ]

-- A fact has the producer `id` exactly when some node called `id` writes it. So two nodes of
-- different names that write one fact are refused.
pub producers_of_iff :
    (nodes : List Node) (producers : Dict String)
    → producers_of nodes ≡ ok producers
    → (fact id : String) → (lookup fact producers ≡ some id) ↔ Any (Writes fact id) nodes
unfolding producers_of sorted_by
producers_of_iff nodes producers h fact id = (
  λ e. elim (claim_nodes_sound (sorted_by (λ n. n.id) nodes) [] h fact id e) [
    | inl early ↦ (unfold lookup in cc early)
    | inr found ↦ Any-unsort (Writes fact id) _ nodes found
  ],
  λ found.
      All-Any (λ n claims (same, writes). claims fact writes ∙ ap some same) nodes
        (All-unsort
          (λ n. (f : String) → contains f n.writes ≡ true → lookup f producers ≡ some n.id) _ nodes
          (claim_nodes_complete (sorted_by (λ n. n.id) nodes) [] h))
        found,
)
