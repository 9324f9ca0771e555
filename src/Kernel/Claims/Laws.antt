-- ===== src/Kernel/Claims/Laws.antt =====
-- What an environment can and cannot stand for (src/apex/kernel/claims.py).
use apex_fedora.Base.{
  All, All-mono, Bool-cases, List, [], any, arith, false, inl, inr, none, not, not-false, refl,
  some, true, ||_false, ◌↔◌, ◌∷◌, ◌≡◌, ◌≢◌, ◌⊎◌,
}
use apex_fedora.Kernel.Refusals.{simulated_environment}
use apex_fedora.Kernel.Errors.{Result, ok, raise, refusal}
use apex_fedora.Kernel.Claims.{
  EnvironmentKind, vm, live_vm, installer_vm, simulated, is, satisfies, meet, witnessed_through,
  require_attestable,
}

pub is_iff : (a b : EnvironmentKind) → (is a b ≡ true) ↔ (a ≡ b)
unfolding is
is_iff a b = (λ h. ground arith, λ e. rw e (ground arith))

-- A requirement is met by itself and by nothing simulated, and meeting it is transitive. Besides
-- itself, only a requirement for a virtual machine is met, by the live and the installer machine.
pub satisfies_order :
    (a b c : EnvironmentKind)
    → (satisfies simulated a ≡ false)
      × (satisfies a simulated ≡ false)
      × (satisfies a b ≡ true → satisfies b c ≡ true → satisfies a c ≡ true)
      × (satisfies a b ≡ true → (a ≡ b) ⊎ ((b ≡ vm) × ((a ≡ live_vm) ⊎ (a ≡ installer_vm))))
unfolding satisfies
satisfies_order a b c = (refl, ground arith, λ p q. ground arith, λ p. ground arith)

none_simulated :
    (kinds : List EnvironmentKind)
    → any (λ kind. is kind simulated) kinds ≡ false
    → All (λ kind. kind ≢ simulated) kinds
none_simulated [] h = tt
none_simulated (k ∷ ks) h = (
  λ e.
      cc ((is_iff k simulated).1 e, (||_false (is k simulated) (any (λ j. is j simulated) ks) h).0),
  none_simulated ks (||_false (is k simulated) (any (λ j. is j simulated) ks) h).1,
)

none_differs :
    (first : EnvironmentKind) (kinds : List EnvironmentKind)
    → any (λ kind. not (is kind first)) kinds ≡ false
    → All (λ kind. kind ≡ first) kinds
none_differs first [] h = tt
none_differs first (k ∷ ks) h =
    ((is_iff k first).0 (not-false _ (||_false _ _ h).0), none_differs first ks (||_false _ _ h).1)

uniform :
    {first kind : EnvironmentKind} (kinds : List EnvironmentKind)
    → Result.ok first ≡ ok kind
    → All (λ k. k ≡ first) kinds
    → All (λ k. k ≡ kind) kinds
uniform kinds h = All-mono (λ k e. cc) kinds

-- A bundle that witnesses anything but a simulation has members, none of them simulated, and every
-- one of them witnesses that same environment: one simulated member makes the whole simulated.
pub meet-uniform :
    (kinds : List EnvironmentKind) (kind : EnvironmentKind)
    → meet kinds ≡ ok kind
    → kind ≢ simulated
    → (kinds ≢ []) × All (λ k. k ≡ kind) kinds
unfolding meet
meet-uniform [] kind h real = absurd (real (cc))
meet-uniform (k ∷ ks) kind h real = elim (Bool-cases (any (λ j. is j simulated) (k ∷ ks))) [
  | inl t ↦ absurd (real (cc (rw t at h)))
  | inr f ↦ elim (Bool-cases (any (λ j. not (is j k)) (k ∷ ks))) [
    | inl t ↦ cc (rw (f, t) at h)
    | inr g ↦ (λ e. cc, uniform (k ∷ ks) (rw (f, g) at h) (none_differs k (k ∷ ks) g))
  ]
]

-- An environment is authorised exactly when it is not a simulation and is the one that was asked
-- for, and it is then returned as it is; a simulation is refused whatever was asked for.
pub require_attestable_iff :
    (kind expected : EnvironmentKind)
    → ((require_attestable kind (some expected) ≡ ok kind)
        ↔ ((kind ≢ simulated) × (kind ≡ expected)))
      × (require_attestable simulated (some expected) ≡ raise (refusal simulated_environment))
unfolding require_attestable
require_attestable_iff kind expected = ((λ h. ground arith, λ h. ground arith), refl)

-- What a guest answers can be attested only if neither the bundle that asked nor the guest is
-- simulated, and it then stands in the guest's environment.
pub witnessed_through-attestable :
    (bundle guest kind : EnvironmentKind)
    → require_attestable (witnessed_through bundle guest) none ≡ ok kind
    → (bundle ≢ simulated) × (guest ≢ simulated) × (kind ≡ guest)
unfolding require_attestable witnessed_through
witnessed_through-attestable bundle guest kind h = ground arith
