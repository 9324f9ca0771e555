-- ===== src/Registry/Graph/Links.antt =====
-- What `_dependencies` of src/apex/registry/graph.py records of a node's reads.
use apex_fedora.Base.{
  ==_refl, All, All-mono, All-unsort, Bool-cases, Dict, Distinct, Distinct-insert, List,
  Option-cases, String, [], add, ap, arith, contains, contains-append, difference, eq_iff, has,
  has-insert, if◌then◌else◌, inl, inr, insert, keys, lookup, lookup-insert, refl, some, sorted,
  sorted_by, str_leb, subst, true, ◌==◌, ◌||◌, ◌∙◌, ◌∷◌, ◌≡◌, ◌⊎◌,
}
use apex_fedora.Kernel.Errors.{ok, >>=-eq-ok}
use apex_fedora.Registry.Graph.{
  Node, add_need, needs_or_none, no_needs, link_facts, link_nodes, dependencies_of,
}
use apex_fedora.Registry.Graph.Rounds.{Needs}

-- The unit `k` is recorded to need `n`.
abbrev pub NeedsIn : Needs → String → String → Type 0
NeedsIn deps k n = (needs : List String) × (lookup k deps ≡ some needs) × (contains n needs ≡ true)

-- What the dependencies keep while links are added: the units, and what they already need.
pub record Extends (deps more : Needs) : Type 0 where
  pub same : (k : String) → has k more ≡ has k deps
  pub distinct : Distinct (keys deps) → Distinct (keys more)
  pub kept : (k n : String) → NeedsIn deps k n → NeedsIn more k n

Extends-refl : (deps : Needs) → Extends deps deps
Extends-refl deps = record { same = λ k. refl; distinct = λ d. d; kept = λ k n h. h }

Extends-trans : {a b c : Needs} → Extends a b → Extends b c → Extends a c
Extends-trans h k = record {
  same = λ j. k.same j ∙ h.same j;
  distinct = λ d. k.distinct (h.distinct d);
  kept = λ j n e. k.kept j n (h.kept j n e);
}

contains-add : (n x : String) (xs : List String) → contains n (add x xs) ≡ (contains n xs || x == n)
unfolding add
contains-add n x xs =
    ground
      (arith, contains-append n xs (x ∷ []), eq_iff x n, ap (λ s. contains s xs) {x = x} {y = n})

add_need-kept :
    (name need : String) (deps : Needs) (k n : String)
    → NeedsIn deps k n
    → NeedsIn (add_need name need deps) k n
unfolding add_need
add_need-kept name need deps k n (needs, e, h) = elim (Bool-cases (name == k)) [
  | inl t ↦ (
    add need needs,
    lookup-insert name k _ deps
        ∙ rw t (
            ap some (
              ap (add need)
                (ap needs_or_none (ap (λ j. lookup j deps) ((eq_iff name k).0 t) ∙ e)))),
    rw (contains-add n need needs, h),
  )
  | inr f ↦ (needs, lookup-insert name k _ deps ∙ rw f e, h)
]

add_need-Extends :
    (name need : String) (deps : Needs)
    → has name deps ≡ true
    → Extends deps (add_need name need deps)
add_need-Extends name need deps there = record {
  same = λ k.
      (unfold add_need in
        ground (
          arith,
          has-insert name k (add need (needs_or_none (lookup name deps))) deps,
          eq_iff name k,
        ));
  distinct = λ d. (unfold add_need in Distinct-insert name _ deps d);
  kept = add_need-kept name need deps;
}

add_need-NeedsIn : (name need : String) (deps : Needs) → NeedsIn (add_need name need deps) name need
unfolding add_need
add_need-NeedsIn name need deps = (
  add need (needs_or_none (lookup name deps)),
  lookup-insert name name _ deps ∙ rw ==_refl,
  contains-add need need (needs_or_none (lookup name deps)) ∙ ground (arith, eq_iff need need),
)

-- The fact has a producer, which is the reader itself or one of its recorded needs.
abbrev pub IsLinked : Dict String → Needs → String → String → Type 0
IsLinked producers deps id fact =
    (p : String) × (lookup fact producers ≡ some p) × ((p ≡ id) ⊎ NeedsIn deps id p)

IsLinked-Extends :
    (producers : Dict String) {deps more : Needs} (id fact : String)
    → Extends deps more
    → IsLinked producers deps id fact
    → IsLinked producers more id fact
IsLinked-Extends producers id fact x (p, e, inl self) = (p, e, inl self)
IsLinked-Extends producers id fact x (p, e, inr need) = (p, e, inr (x.kept id p need))

abbrev IsLinkedAll : Dict String → Needs → String → List String → Type 0
IsLinkedAll producers deps id facts = All (IsLinked producers deps id) facts

-- One fact linked: what holds of the dependencies that the loop goes on from.
link_step :
    (id fact p : String) (producers : Dict String) (deps : Needs)
    → has id deps ≡ true
    → lookup fact producers ≡ some p
    → Extends deps (if p == id then deps else add_need id p deps)
      × IsLinked producers (if p == id then deps else add_need id p deps) id fact
link_step id fact p producers deps there e = elim (Bool-cases (p == id)) [
  | inl t ↦ rw t (Extends-refl deps, (p, e, inl ((eq_iff p id).0 t)))
  | inr f ↦ rw f (add_need-Extends id p deps there, (p, e, inr (add_need-NeedsIn id p deps)))
]

link_facts-Extends :
    (id : String) (facts : List String) (producers : Dict String) (deps : Needs) {more : Needs}
    → has id deps ≡ true
    → link_facts id facts producers deps ≡ ok more
    → Extends deps more × IsLinkedAll producers more id facts
unfolding link_facts
link_facts-Extends id [] producers deps there h =
    (subst (Extends deps) (cc) (Extends-refl deps), tt)
link_facts-Extends id (f ∷ fs) producers deps {more} there h =
    elim (Option-cases (lookup f producers)) [
      | inl e ↦ cc (rw (e, link_facts) at h)
      | inr (p, e) ↦
          let next : Needs = if p == id then deps else add_need id p deps in
          let (x, linked) = link_step id f p producers deps there e in
          let (y, rest) =
            link_facts-Extends id fs producers next (x.same id ∙ there) (rw (e, link_facts) at h) in
          (Extends-trans x y, (IsLinked-Extends producers id f y linked, rest))
    ]

-- Every fact that the node reads, seeds left out, is linked.
abbrev pub IsNodeLinked : List String → Dict String → Needs → Node → Type 0
IsNodeLinked seeds producers deps node =
    All (λ fact. (contains fact seeds ≡ true) ⊎ IsLinked producers deps node.id fact) node.reads

unseeded :
    (P : String → Type 0) (reads seeds : List String)
    → All P (difference reads seeds)
    → All (λ fact. (contains fact seeds ≡ true) ⊎ P fact) reads
unfolding difference
unseeded P [] seeds h = tt
unseeded P (r ∷ rs) seeds h = elim (Bool-cases (contains r seeds)) [
  | inl t ↦ (inl t, unseeded P rs seeds (rw t at h))
  | inr f ↦
      let h' : P r × All P (difference rs seeds) = (unfold difference in rw f at h) in
      (inr h'.0, unseeded P rs seeds h'.1)
]

IsNodeLinked-Extends :
    (seeds : List String) (producers : Dict String) {deps more : Needs} (node : Node)
    → Extends deps more
    → IsNodeLinked seeds producers deps node
    → IsNodeLinked seeds producers more node
IsNodeLinked-Extends seeds producers node x =
    All-mono
      (λ fact h. elim h [
        | inl s ↦ inl s
        | inr l ↦ inr (IsLinked-Extends producers node.id fact x l)
      ])
      node.reads

link_nodes-Extends :
    (nodes : List Node) (seeds : List String) (producers : Dict String) (deps : Needs)
    {more : Needs}
    → All (λ n. has n.id deps ≡ true) nodes
    → link_nodes nodes seeds producers deps ≡ ok more
    → Extends deps more × All (IsNodeLinked seeds producers more) nodes
unfolding link_nodes
link_nodes-Extends [] seeds producers deps there h =
    (subst (Extends deps) (cc) (Extends-refl deps), tt)
link_nodes-Extends (n ∷ ns) seeds producers deps {more} there h =
    let facts : List String = sorted (difference n.reads seeds) in
    let (mid, first, later) =
      >>=-eq-ok (link_facts n.id facts producers deps) (λ m. link_nodes ns seeds producers m) h in
    let (x, linked) = link_facts-Extends n.id facts producers deps there.0 first in
    let (y, rest) =
      link_nodes-Extends ns seeds producers mid (All-mono (λ m t. x.same m.id ∙ t) ns there.1)
        later in
    let linked' : IsLinkedAll producers mid n.id (difference n.reads seeds) =
      (unfold sorted sorted_by in
        All-unsort (IsLinked producers mid n.id) (λ a b. str_leb a b) (difference n.reads seeds)
          linked) in
    (
      Extends-trans x y,
      (
        IsNodeLinked-Extends seeds producers n y
            (unseeded (IsLinked producers mid n.id) n.reads seeds linked'),
        rest,
      ),
    )

abbrev pub ids_of : List Node → List String
ids_of [] = []
ids_of (n ∷ ns) = n.id ∷ ids_of ns

has-no_needs :
    (nodes : List Node) (deps : Needs) (k : String)
    → has k (no_needs nodes deps) ≡ (contains k (ids_of nodes) || has k deps)
unfolding no_needs
has-no_needs [] deps k = refl
has-no_needs (n ∷ ns) deps k =
    has-no_needs ns (insert n.id [] deps) k ∙ ground (arith, has-insert n.id k [] deps)

Distinct-no_needs :
    (nodes : List Node) (deps : Needs)
    → Distinct (keys deps)
    → Distinct (keys (no_needs nodes deps))
unfolding no_needs
Distinct-no_needs [] deps d = d
Distinct-no_needs (n ∷ ns) deps d = Distinct-no_needs ns _ (Distinct-insert n.id [] deps d)

All-ids : (nodes : List Node) → All (λ n. contains n.id (ids_of nodes) ≡ true) nodes
All-ids nodes = go nodes nodes (λ k h. h)
  where
    go :
        (some_nodes all_nodes : List Node)
        → ((k : String)
            → contains k (ids_of some_nodes) ≡ true
            → contains k (ids_of all_nodes) ≡ true)
        → All (λ n. contains n.id (ids_of all_nodes) ≡ true) some_nodes
    go [] all_nodes c = tt
    go (n ∷ ns) all_nodes c = (c n.id (rw ==_refl), go ns all_nodes (λ k h. c k (ground arith)))

-- The dependencies have exactly the nodes as units, and record every read that is not a seed.
pub dependencies_of-links :
    (nodes : List Node) (producers : Dict String) (seeds : List String) (deps : Needs)
    → dependencies_of nodes producers seeds ≡ ok deps
    → Distinct (keys deps)
      × ((k : String) → has k deps ≡ contains k (ids_of nodes))
      × All (IsNodeLinked seeds producers deps) nodes
unfolding dependencies_of
dependencies_of-links nodes producers seeds deps h =
    let start : Needs = no_needs nodes [] in
    let there : All (λ n. has n.id start ≡ true) nodes =
      All-mono (λ n c. has-no_needs nodes [] n.id ∙ rw c) nodes (All-ids nodes) in
    let (x, linked) = link_nodes-Extends nodes seeds producers start there h in
    (
      x.distinct (Distinct-no_needs nodes [] tt),
      λ k. x.same k ∙ has-no_needs nodes [] k ∙ (unfold has in ground arith),
      linked,
    )
