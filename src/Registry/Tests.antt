-- ===== src/Registry/Tests.antt =====
-- The theorems on the registry's modules, applied at concrete registrations and units.
use apex_fedora.Base.{
  All, Any, Dict, Distinct, List, String, [], contains, false, has, inl, inr, insert, keys, lookup,
  refl, some, sorted, sorted_by, true, ◌↔◌, ◌∷◌, ◌≡◌, ◌⊎◌, difference, sort_by, add, insert_by,
  remove, ℕ,
}
use apex_fedora.Kernel.Errors.{ok}
use apex_fedora.Registry.Sealing
use apex_fedora.Registry.Sealing.{Provenance, Registry, SealedRegistry, empty, seal}
use apex_fedora.Registry.Sealing.Laws.{Declaration, register_all}
use apex_fedora.Registry.Sealing.Sealed.{IsSealOf, register_all-seal}
use apex_fedora.Registry.Graph
use apex_fedora.Registry.Graph.{Node, producers_of, topological, order}
use apex_fedora.Registry.Graph.Rounds.{Needs}
use apex_fedora.Registry.Graph.Topological.{IsOrderOf, topological-IsOrderOf}
use apex_fedora.Registry.Graph.Acyclic.{IsAcyclic, topological_iff}
use apex_fedora.Registry.Graph.Producers.{Writes, producers_of_iff}
use apex_fedora.Registry.Graph.Order.{Before, order_reads}

abbrev here : Provenance
here = record { module_name = "apex.checks"; qualname = "declare"; line = 3 }

abbrev declared : List (Declaration ℕ)
declared =
    record { key = "image"; value = 7; at = here }
    ∷ record { key = "boot"; value = 8; at = here }
    ∷ []

abbrev filled : Registry ℕ
filled = record {
  entries = insert "boot" 8 (insert "image" 7 []);
  origins = insert "boot" here (insert "image" here []);
  is_sealed = false;
}

declared_fills : register_all empty declared ≡ ok filled
unfolding Sealing.add has insert
declared_fills = refl

register_all-seal_example :
    (after : Registry ℕ) × (s : SealedRegistry ℕ) × (seal filled ≡ ok (after, s))
    × IsSealOf declared after s
register_all-seal_example = register_all-seal declared filled declared_fills

abbrev units : Needs
units = ("boot", "fetch" ∷ "lock" ∷ []) ∷ ("fetch", "lock" ∷ []) ∷ ("lock", []) ∷ []

units-Distinct : Distinct (keys units)
units-Distinct = (refl, (refl, (refl, tt)))

topological-IsOrderOf_example : IsOrderOf units (topological units)
topological-IsOrderOf_example = topological-IsOrderOf units units-Distinct

topological_iff_example : ((ids : List String) × (topological units ≡ ok ids)) ↔ IsAcyclic units
topological_iff_example = topological_iff units units-Distinct

abbrev nodes : List Node
nodes =
    record { id = "boot"; reads = "image" ∷ "digest" ∷ []; writes = "serial" ∷ [] }
    ∷ record { id = "fetch"; reads = "url" ∷ []; writes = "image" ∷ "digest" ∷ [] }
    ∷ []

abbrev owners : Dict String
owners = ("serial", "boot") ∷ ("digest", "fetch") ∷ ("image", "fetch") ∷ []

nodes-owners : producers_of nodes ≡ ok owners
unfolding producers_of Graph.claim_nodes Graph.claim_facts sorted_by sort_by insert_by sorted has
    insert
nodes-owners = refl

producers_of_iff_example :
    (lookup "image" owners ≡ some "fetch") ↔ Any (Writes "image" "fetch") nodes
producers_of_iff_example = producers_of_iff nodes owners nodes-owners "image" "fetch"

nodes_ordered : order nodes ("url" ∷ []) ≡ ok ("fetch" ∷ "boot" ∷ [])
unfolding order producers_of Graph.claim_nodes Graph.claim_facts sorted_by sort_by insert_by sorted
    has insert Graph.dependencies_of Graph.link_nodes Graph.link_facts Graph.no_needs Graph.add_need
    add difference lookup topological Graph.rounds Graph.turn Graph.ready Graph.free_names
    Graph.remove_all Graph.satisfy remove
nodes_ordered = refl

order_reads_example :
    All
      (λ reader.
        All
          (λ fact.
            (contains fact ("url" ∷ []) ≡ true)
            ⊎ ((writer : String) × Any (Writes fact writer) nodes
                × ((writer ≡ reader.id) ⊎ Before writer reader.id ("fetch" ∷ "boot" ∷ []))))
          reader.reads)
      nodes
order_reads_example = order_reads nodes ("url" ∷ []) ("fetch" ∷ "boot" ∷ []) nodes_ordered

image_fetched : Any (Writes "image" "fetch") nodes
image_fetched = inr (inl (refl, refl))

abbrev fetch : String
fetch = "fetch"
