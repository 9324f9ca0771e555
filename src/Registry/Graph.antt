-- ===== src/Registry/Graph.antt =====
-- src/apex/registry/graph.py: execution order derived from what each unit reads and writes.
pub mod Rounds
pub mod Topological
pub mod Acyclic
pub mod Producers
pub mod Links
pub mod Order
use apex_fedora.Base.{
  ==_refl, Bool, Dict, List, Option, String, [], add, ap, arith, contains, contains-sorted,
  difference, false, has, if◌then◌else◌, insert, length, length-remove_le, length-remove_lt, lookup,
  none, refl, remove, some, sorted, sorted_by, suc, sym, true, zero, ℕ, ◌++◌, ◌<◌, ◌==◌, ◌∙◌, ◌∷◌,
  ◌≡◌, ◌≤◌,
}
use native.Mathlib.Nat.{le_refl}
use apex_fedora.Kernel.Errors.{Result, ok, raise, registration_error, ◌>>=◌}

pub record Node : Type 0 where
  pub id : String
  pub reads : List String
  pub writes : List String

-- `_producers`: the inner loop over one node's facts, and the outer one over the nodes by id.
unfoldable pub claim_facts : String → List String → Dict String → Result (Dict String)
claim_facts id [] producers = ok producers
claim_facts id (fact ∷ facts) producers =
    let rest = claim_facts id facts (insert fact id producers) in
    if has fact producers then raise registration_error else rest

unfoldable pub claim_nodes : List Node → Dict String → Result (Dict String)
unfolding claim_facts
claim_nodes [] producers = ok producers
claim_nodes (node ∷ nodes) producers =
    claim_facts node.id (sorted node.writes) producers >>= λ more. claim_nodes nodes more

unfoldable pub producers_of : List Node → Result (Dict String)
unfolding claim_nodes
producers_of nodes = claim_nodes (sorted_by (λ node. node.id) nodes) []

-- `dependencies[name].add(need)`
abbrev pub needs_or_none : Option (List String) → List String
needs_or_none none = []
needs_or_none (some needs) = needs

unfoldable pub add_need : String → String → Dict (List String) → Dict (List String)
add_need name need deps = insert name (add need (needs_or_none (lookup name deps))) deps

-- `{node.id: set() for node in nodes}`
unfoldable pub no_needs : List Node → Dict (List String) → Dict (List String)
no_needs [] deps = deps
no_needs (node ∷ nodes) deps = no_needs nodes (insert node.id [] deps)

-- `_dependencies`: the inner loop over the facts one node reads, and the outer one over the nodes.
unfoldable pub link_facts :
    String → List String → Dict String → Dict (List String) → Result (Dict (List String))
unfolding add_need
link_facts id [] producers deps = ok deps
link_facts id (fact ∷ facts) producers deps = elim (lookup fact producers) [
  | none ↦ raise registration_error
  | some producer ↦
      link_facts id facts producers (if producer == id then deps else add_need id producer deps)
]

unfoldable pub link_nodes :
    List Node → List String → Dict String → Dict (List String) → Result (Dict (List String))
unfolding link_facts
link_nodes [] seeds producers deps = ok deps
link_nodes (node ∷ nodes) seeds producers deps =
    link_facts node.id (sorted (difference node.reads seeds)) producers deps >>= λ more.
    link_nodes nodes seeds producers more

unfoldable pub dependencies_of : List Node → Dict String → List String → Result (Dict (List String))
unfolding link_nodes no_needs
dependencies_of nodes producers seeds = link_nodes nodes seeds producers (no_needs nodes [])

-- `sorted(name for name, needs in remaining.items() if not needs)`
abbrev pub is_nil : List String → Bool
is_nil [] = true
is_nil (_ ∷ _) = false

unfoldable pub free_names : Dict (List String) → List String
free_names [] = []
free_names ((name, needs) ∷ rest) =
    let more = free_names rest in if is_nil needs then name ∷ more else more

unfoldable pub ready : Dict (List String) → List String
unfolding free_names
ready remaining = sorted (free_names remaining)

-- `for name in ready: del remaining[name]`
unfoldable pub remove_all : List String → Dict (List String) → Dict (List String)
remove_all [] remaining = remaining
remove_all (name ∷ names) remaining = remove_all names (remove name remaining)

-- `for needs in remaining.values(): needs.difference_update(ready)`
unfoldable pub satisfy : List String → Dict (List String) → Dict (List String)
satisfy names [] = []
satisfy names ((name, needs) ∷ rest) = (name, difference needs names) ∷ satisfy names rest

abbrev pub after_round : Dict (List String) → Dict (List String)
after_round remaining = satisfy (ready remaining) (remove_all (ready remaining) remaining)

length-satisfy :
    (names : List String) (d : Dict (List String)) → length (satisfy names d) ≡ length d
unfolding satisfy
length-satisfy names [] = refl
length-satisfy names ((name, needs) ∷ rest) = ap suc (length-satisfy names rest)

length-remove_all_le :
    (names : List String) (d : Dict (List String)) → length (remove_all names d) ≤ length d
unfolding remove_all
length-remove_all_le [] d = omega arith
length-remove_all_le (n ∷ ns) d =
    omega (arith, length-remove_all_le ns (remove n d), length-remove_le n d)

has-free : (d : Dict (List String)) (k : String) → contains k (free_names d) ≡ true → has k d ≡ true
unfolding free_names has
has-free [] k h = cc
has-free ((name, needs) ∷ rest) k h = ground (arith, has-free rest k)

ready-free :
    (d : Dict (List String)) (k : String) → contains k (ready d) ≡ contains k (free_names d)
unfolding ready
ready-free d k = contains-sorted k (free_names d)

-- A round with something to take leaves less than it was given.
pub length-after_round_lt :
    (d : Dict (List String)) (first : String) (others : List String)
    → ready d ≡ first ∷ others
    → length (after_round d) < length d
unfolding remove_all
length-after_round_lt d first others e =
    let free : contains first (free_names d) ≡ true =
      sym (ready-free d first) ∙ ap (contains first) e ∙ rw ==_refl in
    rw e (
      omega (
        arith,
        length-satisfy (first ∷ others) (remove_all (first ∷ others) d),
        length-remove_all_le others (remove first d),
        length-remove_lt first d (has-free d first free),
      ))

-- One turn: `names` is what is ready, and `rest` the loop from the state that is left.
unfoldable pub turn :
    (d : Dict (List String)) (names : List String)
    → ready d ≡ names
    → ((first : String) (others : List String) → ready d ≡ first ∷ others → Result (List String))
    → Result (List String)
turn d [] e rest = raise registration_error
turn d (first ∷ others) e rest = rest first others e

-- `_topological`, the `while remaining` loop. It recurs on a proved bound for the number of units
-- that remain, so that there is no outcome which the program lacks.
unfoldable pub rounds :
    (bound : ℕ) (remaining : Dict (List String)) (resolved : List String)
    → length remaining ≤ bound
    → Result (List String)
unfolding turn
rounds bound [] resolved h = ok resolved
rounds zero (item ∷ items) resolved h = absurd (omega arith)
rounds (suc bound) (item ∷ items) resolved h =
    turn (item ∷ items) (ready (item ∷ items)) refl λ first others e.
      rounds bound (after_round (item ∷ items)) (resolved ++ ready (item ∷ items))
        (omega (arith, length-after_round_lt (item ∷ items) first others e))

unfoldable pub topological : Dict (List String) → Result (List String)
unfolding rounds
topological deps = rounds (length deps) deps [] (le_refl (length deps))

-- `order(nodes, seeds=seeds)`
unfoldable pub order : List Node → List String → Result (List String)
order nodes seeds = do
  producers ← producers_of nodes
  deps ← dependencies_of nodes producers seeds
  topological deps
