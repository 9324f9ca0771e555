-- ===== src/Pipeline/Facts.antt =====
-- src/apex/pipeline/facts.py: what the stages of a run learned, each fact written once.
use apex_fedora.Base.{
  Bool, Dict, List, Option, String, [], has, if◌then◌else◌, insert, keys, lookup, none, not, some,
  sorted, ◌∷◌,
}
use apex_fedora.Kernel.Errors.{Result, ok, raise, internal_defect, other_exception, ◌>>=◌}

pub record Fact (V : Type 0) : Type 0 where
  pub value : V
  pub produced_by : String

-- `FactMap`: facts by the names of their keys, and a key is its name.
abbrev pub FactMap : Type 0 → Type 0
FactMap V = Dict (Fact V)

module _ {V : Type 0} where
  -- `FactMap.__contains__`
  unfoldable pub is_written : String → FactMap V → Bool
  is_written key facts = has key facts

  -- `FactMap.__getitem__`
  unfoldable pub read : String → FactMap V → Result V
  read key facts = elim (lookup key facts) [
    | none ↦ raise internal_defect
    | some fact ↦ ok fact.value
  ]

  -- `FactMap.get`
  unfoldable pub get : String → FactMap V → Result (Option V)
  unfolding is_written read
  get key facts =
      if not (is_written key facts) then ok none else (read key facts >>= λ value. ok (some value))

  -- `FactMap.producer`, whose subscript raises KeyError.
  unfoldable pub producer : String → FactMap V → Result String
  producer key facts = elim (lookup key facts) [
    | none ↦ raise other_exception
    | some fact ↦ ok fact.produced_by
  ]

  -- `FactMap.with_fact`
  unfoldable pub with_fact : String → V → String → FactMap V → Result (FactMap V)
  with_fact key value produced_by facts =
      if has key facts
      then raise internal_defect
      else ok (insert key (record { value = value; produced_by = produced_by }) facts)

  -- `FactMap.names`
  unfoldable pub names : FactMap V → List String
  names facts = sorted (keys facts)

  -- The loops of `RunContext.with_facts` and of `_seeded`: one fact after another.
  unfoldable pub with_each : Dict V → String → FactMap V → Result (FactMap V)
  with_each [] by facts = ok facts
  with_each ((key, value) ∷ produced) by facts =
      with_fact key value by facts >>= λ updated. with_each produced by updated
