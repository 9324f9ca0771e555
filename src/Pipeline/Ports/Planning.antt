-- ===== src/Pipeline/Ports/Planning.antt =====
-- What code can do that is run against the refusing bundle (src/apex/ports/planning.py).
use apex_fedora.Base.{Option, refl, ◌∙◌, ◌≡◌}
use apex_fedora.Kernel.Refusals.{simulated_environment}
use apex_fedora.Kernel.Errors.{ok, raise, refusal}
use apex_fedora.Kernel.Claims
use apex_fedora.Kernel.Claims.{EnvironmentKind, simulated, require_attestable}
use apex_fedora.Pipeline.Ports.{
  Program, done, throw, ask, Ports, PortName, processes, files, clock, identities, locks, digests,
  archives, signing, downloads, hypervisor, monitor, guest, member_at, answer_of, environment,
  require_bundle, refusing, for_planning, perform, refuse,
}

simulated_refused :
    (expected : Option EnvironmentKind)
    → require_attestable simulated expected ≡ raise (refusal simulated_environment)
unfolding require_attestable
simulated_refused expected = refl

module _ {Q R W : Type 0} where
  -- Whichever member is asked, nothing is done.
  refused_at :
      (ports : Ports Q R W) (name : PortName) (request : Q) (world : W)
      → ((member_at name (for_planning ports)).answer request world).1 ≡ world
  unfolding for_planning refusing refuse
  refused_at ports processes request world = refl
  refused_at ports files request world = refl
  refused_at ports clock request world = refl
  refused_at ports identities request world = refl
  refused_at ports locks request world = refl
  refused_at ports digests request world = refl
  refused_at ports archives request world = refl
  refused_at ports signing request world = refl
  refused_at ports downloads request world = refl
  refused_at ports hypervisor request world = refl
  refused_at ports monitor request world = refl
  refused_at ports guest request world = refl

  pub perform-for_planning :
      {A : Type 0} (ports : Ports Q R W) (code : Program Q R A) (world : W)
      → (perform (for_planning ports) code world).1 ≡ world
  unfolding perform
  perform-for_planning ports (done a) world = refl
  perform-for_planning ports (throw e) world = refl
  perform-for_planning ports (ask request next) world =
      let asked = answer_of (for_planning ports) request world in
      perform-for_planning ports (next asked.0) asked.1
      ∙ refused_at ports ((for_planning ports).port_of request) request world

  -- Whatever code runs while it is only planned, and whichever of the twelve members it calls, the world
  -- stays as it is, and the bundle that it holds witnesses nothing but a simulation, which is never
  -- attested.
  pub planning_harmless :
      {A : Type 0} (ports : Ports Q R W) (code : Program Q R A) (world : W)
      (expected : Option EnvironmentKind)
      → ((perform (for_planning ports) code world).1 ≡ world)
        × (environment (for_planning ports) ≡ ok simulated)
        × (require_bundle (for_planning ports) expected ≡ raise (refusal simulated_environment))
  unfolding environment require_bundle for_planning refusing Claims.meet
  planning_harmless ports code world expected =
      (perform-for_planning ports code world, refl, simulated_refused expected)
