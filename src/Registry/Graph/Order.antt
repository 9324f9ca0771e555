-- ===== src/Registry/Graph/Order.antt =====
-- `order` of src/apex/registry/graph.py as a whole: the derived order respects what is read and written.
use apex_fedora.Base.{
  All, All-at, All-mono, Any, Bool-cases, Dict, Distinct, List, String, [], ap, append-nil,
  append_assoc, contains, eq_iff, has-some, inl, inr, subst, true, ◌++◌, ◌==◌, ◌∙◌, ◌∷◌, ◌≡◌, ◌⊎◌,
}
use apex_fedora.Kernel.Errors.{ok, ◌>>=◌, >>=-eq-ok}
use apex_fedora.Registry.Graph.{Node, producers_of, dependencies_of, topological, order}
use apex_fedora.Registry.Graph.Rounds.{Needs}
use apex_fedora.Registry.Graph.Topological.{IsOrdered, IsOrderOf, topological-IsOrderOf}
use apex_fedora.Registry.Graph.Producers.{Writes, producers_of_iff}
use apex_fedora.Registry.Graph.Links.{NeedsIn, ids_of, dependencies_of-links}

-- In the list, `p` stands before some occurrence of `k`.
abbrev pub Before : String → String → List String → Type 0
Before p k ids = (front back : List String) × (ids ≡ front ++ k ∷ back) × (contains p front ≡ true)

ordered_before :
    (deps : Needs) (seen xs : List String) (k n : String)
    → IsOrdered deps seen xs
    → contains k xs ≡ true
    → NeedsIn deps k n
    → (front back : List String) × (xs ≡ front ++ k ∷ back) × (contains n (seen ++ front) ≡ true)
ordered_before deps seen [] k n o there need = cc
ordered_before deps seen (x ∷ xs) k n ((met, e', h), o) there (needs, e, m) =
    elim (Bool-cases (x == k)) [
      | inl t ↦
          let same : x ≡ k = (eq_iff x k).0 t in
          let met_needs : met ≡ needs = cc (e', e, same) in
          (
            [],
            xs,
            rw same,
            rw append-nil (
                All-at (λ j. contains j seen ≡ true) n needs
                  (subst (All (λ j. contains j seen ≡ true)) met_needs h) m),
          )
      | inr f ↦
          let (front, back, split, found) =
            ordered_before deps (seen ++ x ∷ []) xs k n o (rw f at there) (needs, e, m) in
          (x ∷ front, back, ap (λ r. x ∷ r) split, rw append_assoc at found)
    ]

-- What is returned by `order` rests on the three steps.
order_parts :
    (nodes : List Node) (seeds ids : List String)
    → order nodes seeds ≡ ok ids
    → (producers : Dict String) × (deps : Needs) × (producers_of nodes ≡ ok producers)
      × (dependencies_of nodes producers seeds ≡ ok deps)
      × (topological deps ≡ ok ids)
unfolding order
order_parts nodes seeds ids h =
    let (producers, made, later) =
      >>=-eq-ok (producers_of nodes)
        (λ ps. dependencies_of nodes ps seeds >>= λ deps. topological deps) h in
    let (deps, linked, sorted_out) =
      >>=-eq-ok (dependencies_of nodes producers seeds) (λ d. topological d) later in
    (producers, deps, made, linked, sorted_out)

-- Every unit is in the derived order once, and nothing else is.
pub order_members :
    (nodes : List Node) (seeds ids : List String)
    → order nodes seeds ≡ ok ids
    → Distinct ids × ((k : String) → contains k ids ≡ contains k (ids_of nodes))
order_members nodes seeds ids h =
    let (producers, deps, made, linked, sorted_out) = order_parts nodes seeds ids h in
    let (distinct, same, _) = dependencies_of-links nodes producers seeds deps linked in
    let (once, units, _) =
      subst (IsOrderOf deps) sorted_out (topological-IsOrderOf deps distinct) in
    (once, λ k. units k ∙ same k)

-- For every fact that a unit reads and that is no seed there is a unit that writes it, and the
-- derived order puts a unit of that name before the reader, unless the reader is the writer.
pub order_reads :
    (nodes : List Node) (seeds ids : List String)
    → order nodes seeds ≡ ok ids
    → All
        (λ reader.
          All
            (λ fact.
              (contains fact seeds ≡ true)
              ⊎ ((writer : String) × Any (Writes fact writer) nodes
                  × ((writer ≡ reader.id) ⊎ Before writer reader.id ids)))
            reader.reads)
        nodes
order_reads nodes seeds ids h =
    let (producers, deps, made, linked, sorted_out) = order_parts nodes seeds ids h in
    let (distinct, same, links) = dependencies_of-links nodes producers seeds deps linked in
    let (once, units, ordered) =
      subst (IsOrderOf deps) sorted_out (topological-IsOrderOf deps distinct) in
    All-mono
      (λ reader linked_reads.
        All-mono
          (λ fact known. elim known [
            | inl seed ↦ inl seed
            | inr (p, e, where_from) ↦ inr (
              p,
              (producers_of_iff nodes producers made fact p).0 e,
              elim where_from [
                | inl self ↦ inl self
                | inr (needs, there, m) ↦ inr (
                    ordered_before deps [] ids reader.id p ordered
                      (units reader.id ∙ has-some reader.id deps {v = needs} there)
                      (needs, there, m))
              ],
            )
          ])
          reader.reads linked_reads)
      nodes links

-- Two units of different names never write one fact in a set of units that has an order.
pub order_single_writer :
    (nodes : List Node) (seeds ids : List String)
    → order nodes seeds ≡ ok ids
    → (fact a b : String) → Any (Writes fact a) nodes
    → Any (Writes fact b) nodes
    → a ≡ b
order_single_writer nodes seeds ids h fact a b wa wb =
    let (producers, deps, made, linked, sorted_out) = order_parts nodes seeds ids h in
    let owner = producers_of_iff nodes producers made fact in cc ((owner a).1 wa, (owner b).1 wb)
