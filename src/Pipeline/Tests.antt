-- ===== src/Pipeline/Tests.antt =====
-- The theorems on the pipeline, applied to a plan of two stages over a world that logs the calls.
use apex_fedora.Base.{
  Distinct, List, String, [], add, difference, has, insert, insert_by, lookup, none, refl, remove,
  ◌==◌, if◌then◌else◌, false, some, sort_by, sorted, sorted_by, true, ℕ, ◌∷◌, ◌≡◌,
}
use apex_fedora.Kernel.Refusals.{no_verified_result, simulated_environment}
use apex_fedora.Kernel.Errors.{ok, raise, refusal, internal_defect}
use apex_fedora.Kernel.Claims.{build, simulated}
use apex_fedora.Registry.Graph
use apex_fedora.Registry.Graph.{order}
use apex_fedora.Pipeline.Facts.{FactMap, with_each, with_fact}
use apex_fedora.Pipeline.Ports.{
  Member, refusing, files, processes, members_of, done, throw, ask, Ports, perform, for_planning,
  environment, require_bundle, refuse,
}
use apex_fedora.Pipeline.Ports.Planning.{planning_harmless}
use apex_fedora.Pipeline.Stages.{Finaliser, Stage, ready, refuse_because, advance, with_facts}
use apex_fedora.Pipeline.Plans.{Plan, plan_of, by_name, pick}
use apex_fedora.Pipeline.Plans.Fed.{IsPlan, plan_of-IsPlan}
use apex_fedora.Pipeline.Runner
use apex_fedora.Pipeline.Runner.{Outcome, Progress, seeded, started, conclude, apply_plan, run}
use apex_fedora.Pipeline.Runner.Refusing.{refused, planned, run-refused}
use apex_fedora.Pipeline.Runner.Nesting.{nested, released, apply_plan-nested, clash_unreleased}
use apex_fedora.Pipeline.Runner.Accounts.{stage_ids}
use apex_fedora.Pipeline.Runner.Reports.{IsAccount}
use apex_fedora.Pipeline.Runner.Runs.{run-IsAccount}

-- A world that logs the calls.
abbrev logging : Member String ℕ (List String)
logging = record { environment = build; answer = λ request log. (ok 1, request ∷ log) }

abbrev ports : Ports String ℕ (List String)
ports = record {
  processes_port = logging;
  files_port = logging;
  clock_port = logging;
  identities_port = logging;
  locks_port = logging;
  digests_port = logging;
  archives_port = logging;
  signing_port = logging;
  downloads_port = logging;
  hypervisor_port = logging;
  monitor_port = logging;
  guest_port = logging;
  port_of = λ request. if request == "fetch" then files else processes;
  is_underscored = λ request. false;
}

abbrev unlock : Finaliser String ℕ
unlock = record { name = "lock"; release = ask "unlock" (λ r. done tt) }

abbrev fetch : Stage ℕ String ℕ
fetch = record {
  id = "fetch";
  reads = "url" ∷ [];
  writes = "image" ∷ [];
  attests = "download" ∷ [];
  effects = [];
  preflight = λ context. done ready;
  apply = λ context. ask "fetch" (λ r. done (advance (("image", 7) ∷ []) (some unlock)));
}

abbrev boot : Stage ℕ String ℕ
boot = record {
  id = "boot";
  reads = "image" ∷ [];
  writes = "serial" ∷ [];
  attests = "boots" ∷ [];
  effects = [];
  preflight = λ context. done ready;
  apply = λ context. ask "boot" (λ r. done (advance (("serial", 8) ∷ []) none));
}

-- A stage that refuses to run, and one whose preflight acts.
abbrev unwilling : Stage ℕ String ℕ
unwilling = record boot { preflight = λ context. done (refuse_because no_verified_result) }

-- Its preflight calls a port.
abbrev acting : Stage ℕ String ℕ
acting = record boot {
  preflight = λ context. ask "boot" (λ r. elim r [ ok n ↦ done ready | raise e ↦ throw e ]);
}

abbrev plan_with : Stage ℕ String ℕ → Plan ℕ String ℕ
plan_with last = record {
  name = "install";
  stages = fetch ∷ last ∷ [];
  sequence = "fetch" ∷ "boot" ∷ [];
}

abbrev given : FactMap ℕ
given = ("url", record { value = 1; produced_by = "seed" }) ∷ []

seeds_given : seeded (("url", 1) ∷ []) ≡ ok given
unfolding seeded with_each with_fact has insert
seeds_given = refl

planning_harmless_example :
    ((perform
        (for_planning ports)
        (acting.preflight (started {V = ℕ} {Q = String} {R = ℕ} ports given).context)
        []).1
      ≡ [])
    × (environment (for_planning ports) ≡ ok simulated)
    × (require_bundle (for_planning ports) none ≡ raise (refusal simulated_environment))
planning_harmless_example =
    planning_harmless ports
      (acting.preflight (started {V = ℕ} {Q = String} {R = ℕ} ports given).context) [] none

unwilling_refuses :
    planned ports (plan_with unwilling) given []
    ≡ ok (ready ∷ refuse_because no_verified_result ∷ [])
unfolding Runner.preflight_all for_planning perform
unwilling_refuses = refl

run-refused_example :
    run (plan_with unwilling) ports (("url", 1) ∷ []) []
    ≡ (ok (refused (plan_with unwilling) given no_verified_result), [])
run-refused_example =
    run-refused (plan_with unwilling) ports (("url", 1) ∷ []) [] given
      (ready ∷ refuse_because no_verified_result ∷ []) no_verified_result seeds_given
      unwilling_refuses refl

acting_raises : planned ports (plan_with acting) given [] ≡ raise internal_defect
unfolding Runner.preflight_all for_planning refusing perform refuse
acting_raises = refl

apply_plan-nested_example : apply_plan (plan_with boot) (ready ∷ ready ∷ []) ports given [] ≡ (
  conclude
      (plan_with boot)
      (nested
        (plan_with boot)
        ports
        (fetch ∷ boot ∷ [])
        (ready ∷ ready ∷ [])
        (started ports given)
        []).0
      (nested
        (plan_with boot)
        ports
        (fetch ∷ boot ∷ [])
        (ready ∷ ready ∷ [])
        (started ports given)
        []).1.0,
  (nested
      (plan_with boot)
      ports
      (fetch ∷ boot ∷ [])
      (ready ∷ ready ∷ [])
      (started ports given)
      []).1.1,
)
apply_plan-nested_example = apply_plan-nested (plan_with boot) (ready ∷ ready ∷ []) ports given []

-- A stage that takes a lock and then writes a fact that is there.
abbrev clashing : Stage ℕ String ℕ
clashing = record boot {
  apply = λ context. ask "lock" (λ r. done (advance (("url", 2) ∷ []) (some unlock)));
}

-- The progress once the first stage went through
abbrev fetched : Progress ℕ String ℕ
fetched = record {
  context = record {
    facts =
        ("url", record { value = 1; produced_by = "seed" })
        ∷ ("image", record { value = 7; produced_by = "fetch" })
        ∷ [];
    members = members_of ports;
  };
  finalisers = unlock ∷ [];
  completed = "fetch" ∷ [];
  attested = "download" ∷ [];
}

fetch_went :
    Runner.steps (plan_with clashing) ports (fetch ∷ []) (ready ∷ []) (started ports given) []
    ≡ (ok none, (fetched, "fetch" ∷ []))
unfolding Runner.steps Runner.step Runner.settle Runner.update perform with_facts with_each
    with_fact has insert add
fetch_went = refl

clashing_acts :
    perform ports (clashing.apply fetched.context) ("fetch" ∷ [])
    ≡ (ok (advance (("url", 2) ∷ []) (some unlock)), "lock" ∷ "fetch" ∷ [])
unfolding perform
clashing_acts = refl

clashing_fact : with_facts (("url", 2) ∷ []) "boot" fetched.context ≡ raise internal_defect
unfolding with_facts with_each with_fact has
clashing_fact = refl

clash_unreleased_example :
    apply_plan (plan_with clashing) (ready ∷ ready ∷ []) ports given []
    ≡ (raise internal_defect, released ports (unlock ∷ []) ("lock" ∷ "fetch" ∷ []))
clash_unreleased_example =
    clash_unreleased (plan_with clashing) ports given (fetch ∷ []) clashing [] (ready ∷ []) []
      fetched [] ("fetch" ∷ []) ("lock" ∷ "fetch" ∷ []) (("url", 2) ∷ []) unlock internal_defect
      refl fetch_went clashing_acts clashing_fact

url_written : with_each {V = ℕ} (("url", 1) ∷ []) "seed" [] ≡ ok given
unfolding with_each with_fact has insert
url_written = refl

-- What the run of the two stages gives.
abbrev learned : FactMap ℕ
learned =
    ("url", record { value = 1; produced_by = "seed" })
    ∷ ("image", record { value = 7; produced_by = "fetch" })
    ∷ ("serial", record { value = 8; produced_by = "boot" })
    ∷ []

abbrev passed_run : Outcome ℕ
passed_run = record {
  succeeded = true;
  facts = learned;
  not_tested = [];
  attested = "boots" ∷ "download" ∷ [];
  refusal = none;
}

run_passes : (run (plan_with boot) ports (("url", 1) ∷ []) []).0 ≡ ok passed_run
unfolding run seeded with_each with_fact with_facts has insert Runner.preflight_all for_planning
    perform Runner.first_refusal apply_plan Runner.steps Runner.step Runner.settle Runner.update add
    conclude Runner.unreached Runner.pending_of Runner.unwind Runner.release_each sorted sorted_by
    sort_by insert_by
run_passes = refl

two-Distinct : Distinct (stage_ids (fetch ∷ boot ∷ []))
two-Distinct = (refl, (refl, tt))

run-IsAccount_example : IsAccount ports (plan_with boot) given passed_run
run-IsAccount_example =
    run-IsAccount (plan_with boot) ports (("url", 1) ∷ []) [] given passed_run two-Distinct
      seeds_given run_passes

plan_made : plan_of "install" (boot ∷ fetch ∷ []) ("url" ∷ []) ≡ ok (plan_with boot)
unfolding plan_of by_name pick order Graph.producers_of Graph.claim_nodes Graph.claim_facts
    sorted_by sort_by insert_by sorted has insert Graph.dependencies_of Graph.link_nodes
    Graph.link_facts Graph.no_needs Graph.add_need add difference lookup Graph.topological
    Graph.rounds Graph.turn Graph.ready Graph.free_names Graph.remove_all Graph.satisfy remove
plan_made = refl

plan_of-IsPlan_example : IsPlan (boot ∷ fetch ∷ []) ("url" ∷ []) (plan_with boot)
plan_of-IsPlan_example =
    plan_of-IsPlan "install" (boot ∷ fetch ∷ []) ("url" ∷ []) (plan_with boot) (refl, (refl, tt))
      plan_made
