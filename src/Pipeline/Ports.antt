-- ===== src/Pipeline/Ports.antt =====
-- src/apex/ports/portset.py and src/apex/ports/planning.py: the authority over the outside world as one bundle, and
-- the bundle that refuses every call. The code of a stage reaches the world only by calls of its
-- ports, so it is a tree of calls and of what it does with each answer.
pub mod Planning
use apex_fedora.Base.{Bool, List, Option, [], if◌then◌else◌, ◌∷◌}
use apex_fedora.Kernel.Errors.{Raised, Result, ok, raise, internal_defect, other_exception, ◌>>=◌}
use apex_fedora.Kernel.Claims
use apex_fedora.Kernel.Claims.{EnvironmentKind, simulated, require_attestable}

-- Code that returns, raises, or asks a port and continues with the answer or the exception.
pub data Program (Q R A : Type 0) : Type 0 where
  done : A → Program Q R A
  throw : Raised → Program Q R A
  ask : Q → (Result R → Program Q R A) → Program Q R A

-- One port: the environment it declares, and what a call answers and does to a world
pub record Member (Q R W : Type 0) : Type 0 where
  pub environment : EnvironmentKind
  pub answer : Q → W → Result R × W

-- The name of a member
pub data PortName : Type 0 where
  processes files clock identities locks digests archives signing downloads hypervisor monitor
        guest :
      PortName

-- `HostPorts`; `port_of` says which member a call is made of, and `is_underscored` whether its method has a
-- name that begins with an underscore.
pub record Ports (Q R W : Type 0) : Type 0 where
  pub processes_port : Member Q R W
  pub files_port : Member Q R W
  pub clock_port : Member Q R W
  pub identities_port : Member Q R W
  pub locks_port : Member Q R W
  pub digests_port : Member Q R W
  pub archives_port : Member Q R W
  pub signing_port : Member Q R W
  pub downloads_port : Member Q R W
  pub hypervisor_port : Member Q R W
  pub monitor_port : Member Q R W
  pub guest_port : Member Q R W
  pub port_of : Q → PortName
  pub is_underscored : Q → Bool

module _ {Q R W : Type 0} where
  abbrev pub member_at : PortName → Ports Q R W → Member Q R W
  member_at processes ports = ports.processes_port
  member_at files ports = ports.files_port
  member_at clock ports = ports.clock_port
  member_at identities ports = ports.identities_port
  member_at locks ports = ports.locks_port
  member_at digests ports = ports.digests_port
  member_at archives ports = ports.archives_port
  member_at signing ports = ports.signing_port
  member_at downloads ports = ports.downloads_port
  member_at hypervisor ports = ports.hypervisor_port
  member_at monitor ports = ports.monitor_port
  member_at guest ports = ports.guest_port

  -- `HostPorts.environment`, by its members in their order
  abbrev pub members_of : Ports Q R W → List EnvironmentKind
  members_of ports =
      ports.processes_port.environment ∷ ports.files_port.environment ∷ ports.clock_port.environment
      ∷ ports.identities_port.environment ∷ ports.locks_port.environment
      ∷ ports.digests_port.environment ∷ ports.archives_port.environment
      ∷ ports.signing_port.environment ∷ ports.downloads_port.environment
      ∷ ports.hypervisor_port.environment ∷ ports.monitor_port.environment
      ∷ ports.guest_port.environment ∷ []

  unfoldable pub environment : Ports Q R W → Result EnvironmentKind
  environment ports = Claims.meet (members_of ports)

  -- `HostPorts.require_attestable`
  unfoldable pub require_bundle : Ports Q R W → Option EnvironmentKind → Result EnvironmentKind
  unfolding environment
  require_bundle ports expected = environment ports >>= λ kind. require_attestable kind expected

  -- `Refusing.__getattr__`: any method raises, and nothing is done; a name with an underscore is no method.
  unfoldable pub refuse : (Q → Bool) → Q → W → Result R × W
  refuse is_underscored request world =
      (if is_underscored request then raise other_exception else raise internal_defect, world)

  -- `refusing`
  unfoldable pub refusing : (Q → Bool) → Member Q R W
  unfolding refuse
  refusing is_underscored = record { environment = simulated; answer = refuse is_underscored }

  -- `HostPorts.for_planning`
  unfoldable pub for_planning : Ports Q R W → Ports Q R W
  unfolding refusing
  for_planning ports = record {
    processes_port = refusing ports.is_underscored;
    files_port = refusing ports.is_underscored;
    clock_port = refusing ports.is_underscored;
    identities_port = refusing ports.is_underscored;
    locks_port = refusing ports.is_underscored;
    digests_port = refusing ports.is_underscored;
    archives_port = refusing ports.is_underscored;
    signing_port = refusing ports.is_underscored;
    downloads_port = refusing ports.is_underscored;
    hypervisor_port = refusing ports.is_underscored;
    monitor_port = refusing ports.is_underscored;
    guest_port = refusing ports.is_underscored;
    port_of = ports.port_of;
    is_underscored = ports.is_underscored;
  }

  abbrev pub answer_of : Ports Q R W → Q → W → Result R × W
  answer_of ports request = (member_at (ports.port_of request) ports).answer request

  -- Running the code of a stage against a bundle.
  unfoldable pub perform : {A : Type 0} → Ports Q R W → Program Q R A → W → Result A × W
  perform ports (done a) world = (ok a, world)
  perform ports (throw e) world = (raise e, world)
  perform ports (ask request next) world =
      let (response, after) = answer_of ports request world in perform ports (next response) after
