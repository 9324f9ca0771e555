-- ===== src/Pipeline/Stages.antt =====
-- src/apex/pipeline/stages.py: the contract of a stage. The details of a verdict are text for the operator
-- and are left out.
use apex_fedora.Base.{Dict, List, Option, String}
use apex_fedora.Kernel.Refusals.{RefusalReason}
use apex_fedora.Kernel.Errors.{Result, ok, ◌>>=◌}
use apex_fedora.Kernel.Claims.{EnvironmentKind}
use apex_fedora.Pipeline.Facts.{FactMap, with_each}
use apex_fedora.Pipeline.Ports.{Program, done}

-- pipeline/effects.py
pub data Effect : Type 0 where
  reads_host writes_runtime spawns_vm network_fetch remote_exec mutates_guest : Effect
  replaces_host_file emits_evidence : Effect

-- `Ready | SkipBecause | RefuseBecause`
pub data Preflight : Type 0 where
  ready : Preflight
  skip_because refuse_because : RefusalReason → Preflight

pub record Finaliser (Q R : Type 0) : Type 0 where
  pub name : String
  pub release : Program Q R (Unit {0})

-- `Advance | Skip | Refuse | Fail`
pub data StageResult (V Q R : Type 0) : Type 0 where
  advance : Dict V → Option (Finaliser Q R) → StageResult V Q R
  skip refuse : RefusalReason → StageResult V Q R
  fail : StageResult V Q R

-- `RunContext`: the facts, and the environments of the ports. The ports' calls are in the program.
pub record RunContext (V : Type 0) : Type 0 where
  pub facts : FactMap V
  pub members : List EnvironmentKind

-- `RunContext.with_facts`
unfoldable pub with_facts : {V : Type 0} → Dict V → String → RunContext V → Result (RunContext V)
with_facts produced by context =
    with_each produced by context.facts >>= λ updated. ok (record context { facts = updated })

-- `SimpleStage`, with the fields of the protocol `Stage`
pub record Stage (V Q R : Type 0) : Type 0 where
  pub id : String
  pub reads : List String
  pub writes : List String
  pub attests : List String
  pub effects : List Effect
  pub preflight : RunContext V → Program Q R Preflight
  pub apply : RunContext V → Program Q R (StageResult V Q R)

unfoldable pub always_ready : {V Q R : Type 0} → RunContext V → Program Q R Preflight
always_ready context = done ready
