-- ===== src/Pipeline/Plans.antt =====
-- src/apex/pipeline/plans.py: a plan is the declared stages in their derived order. Its digest names it to
-- the operator and is left out.
pub mod Fed
use apex_fedora.Base.{Dict, List, String, [], insert, lookup, map, none, some, ◌∷◌}
use apex_fedora.Kernel.Errors.{Result, ok, raise, other_exception, ◌>>=◌}
use apex_fedora.Registry.Graph.{Node, order}
use apex_fedora.Pipeline.Stages.{Stage}

pub record Plan (V Q R : Type 0) : Type 0 where
  pub name : String
  pub stages : List (Stage V Q R)
  pub sequence : List String

module _ {V Q R : Type 0} where
  abbrev pub node_of : Stage V Q R → Node
  node_of item = record { id = item.id; reads = item.reads; writes = item.writes }

  -- `{str(item.id): item for item in declared}`
  unfoldable pub by_name : List (Stage V Q R) → Dict (Stage V Q R) → Dict (Stage V Q R)
  by_name [] stages = stages
  by_name (item ∷ declared) stages = by_name declared (insert item.id item stages)

  -- `tuple(by_name[item] for item in ordered)`, whose subscript raises KeyError.
  unfoldable pub pick : Dict (Stage V Q R) → List String → Result (List (Stage V Q R))
  pick stages [] = ok []
  pick stages (name ∷ names) = elim (lookup name stages) [
    | none ↦ raise other_exception
    | some item ↦ pick stages names >>= λ more. ok (item ∷ more)
  ]

  -- `Plan.of`
  unfoldable pub plan_of : String → List (Stage V Q R) → List String → Result (Plan V Q R)
  plan_of name declared seeds = do
    ordered ← order (map node_of declared) seeds
    stages ← pick (by_name declared []) ordered
    ok (record { name = name; stages = stages; sequence = ordered })
