-- ===== src/Attestation/Minting.antt =====
-- src/apex/attestation/minting.py: writing one result into the store, every refusal before the first byte. The
-- sealed catalogue is a dictionary of its specifications.
pub mod Atomic
pub mod Written
pub mod Tests
use apex_fedora.Base.{
  Bool, Bytes, Dict, List, String, [], contains, eqb, false, has, if◌then◌else◌, length, lookup,
  none, not, some, true, ◌&&◌, ◌==◌, ◌∷◌,
}
use apex_fedora.Kernel.Refusals.{
  unknown_check, hardware_requires_physical, proof_kind_not_accepted, pass_requires_proof,
}
use apex_fedora.Kernel.Errors.{
  Result, ok, raise, raise_if, refusal, internal_defect, traverse, ◌>>=◌, ◌>>◌,
}
use apex_fedora.Kernel.Verdicts.{Verdict}
use apex_fedora.Kernel.Claims.{EnvironmentKind, ScopeLimit, is, physical, require_attestable}
use apex_fedora.Attestation.Readiness.{is_passed}
use apex_fedora.Attestation.Attesting.{recorded}
use apex_fedora.Attestation.Ledger.{Library, Event, Sealed}
use apex_fedora.Attestation.Ledger.Chain.{Store, append}
use apex_fedora.Attestation.Proofs.{Proof, ProofStore, proof, address, absorb}

-- `CheckSpec` of registry/descriptors.py, as far as minting reads it
pub record CheckSpec : Type 0 where
  pub id : String
  pub group : String
  pub environment : EnvironmentKind
  pub accepted_proof_kinds : List String

pub record Offered : Type 0 where
  pub payload : Bytes
  pub kind : String

pub record Minted : Type 0 where
  pub sealed : Sealed
  pub proofs : List Proof

-- `_specification`
unfoldable pub specification : Dict CheckSpec → String → Result CheckSpec
specification catalogue check = elim (lookup check catalogue) [
  | none ↦ raise (refusal unknown_check)
  | some spec ↦ ok spec
]

-- `_require_environment`
unfoldable pub require_environment : CheckSpec → EnvironmentKind → Result EnvironmentKind
unfolding is
require_environment spec witnessed = do
  raise_if (spec.group == "hardware" && not (is witnessed physical))
      (refusal hardware_requires_physical)
  require_attestable witnessed (some spec.environment)

-- `_require_proof_for_pass`
unfoldable pub require_proof_for_pass : Verdict → List Offered → Result (Unit {0})
require_proof_for_pass verdict [] =
    if is_passed verdict then raise (refusal pass_requires_proof) else ok tt
require_proof_for_pass verdict (_ ∷ _) = ok tt

-- The tests of `_intended` on the kinds
abbrev pub all_accepted : CheckSpec → List Offered → Result (Unit {0})
all_accepted spec [] = ok tt
all_accepted spec (item ∷ offered) =
    raise_if (not (contains item.kind spec.accepted_proof_kinds)) (refusal proof_kind_not_accepted)
    >> all_accepted spec offered

-- `filed != intended`, on the proofs as they are
abbrev pub same_proof : Proof → Proof → Bool
same_proof a b = a.digest == b.digest && a.kind == b.kind && eqb a.byte_count b.byte_count

abbrev pub same_proofs : List Proof → List Proof → Bool
same_proofs [] [] = true
same_proofs (a ∷ rest) (b ∷ others) = same_proof a b && same_proofs rest others
same_proofs [] (b ∷ others) = false
same_proofs (a ∷ rest) [] = false

abbrev digests_of : List Proof → List String
digests_of [] = []
digests_of (p ∷ ps) = p.digest ∷ digests_of ps

abbrev pub event_of :
    String → Verdict → String → EnvironmentKind → List ScopeLimit → List Proof → Event
event_of check verdict candidate witnessed scope_limits filed = record {
  kind = recorded;
  check = check;
  verdict = verdict;
  environment = witnessed;
  candidate = candidate;
  proofs = digests_of filed;
  scope_limits = scope_limits;
}

-- What the port of the files answers to the writes: of an object by its digest, of the line, of the head
pub record Writes : Type 0 where
  pub object : String → Result (Unit {0})
  pub line : Result (Unit {0})
  pub head : Result (Unit {0})

module _ (lib : Library) where
  abbrev pub cite : Offered → Result Proof
  cite item = proof (address lib item.payload) item.kind (length item.payload)

  -- `_intended`
  unfoldable pub intended : CheckSpec → List Offered → Result (List Proof)
  intended spec offered = all_accepted spec offered >> traverse cite offered

  -- `ProofStore.absorb`, whose write may raise in the port
  unfoldable pub absorb_in : Writes → Offered → ProofStore → Result Proof × ProofStore
  unfolding absorb
  absorb_in writes item store = elim (absorb lib item.payload item.kind store) [
    | raise e ↦ (raise e, store)
    | ok (cited, more) ↦
        if has cited.digest store.objects
        then (ok cited, store)
        else elim (writes.object cited.digest) [
          | raise e ↦ (raise e, store)
          | ok done ↦ (ok cited, more)
        ]
  ]

  -- `tuple(store.absorb(...) for item in offered)`: what was filed before a raise stays filed.
  unfoldable pub absorb_all : Writes → List Offered → ProofStore → Result (List Proof) × ProofStore
  unfolding absorb_in
  absorb_all writes [] store = (ok [], store)
  absorb_all writes (item ∷ offered) store =
      let (cited, more) = absorb_in writes item store in
      elim cited [
        | raise e ↦ (raise e, more)
        | ok proof_ ↦
            let (rest, after) = absorb_all writes offered more in
            (rest >>= λ proofs. ok (proof_ ∷ proofs), after)
      ]

  -- `Ledger.append`, whose writes may raise in the port: behind the line, the head is the new one and its
  -- record is still the old.
  unfoldable pub append_in : Writes → String → String → Event → Store → Result Sealed × Store
  unfolding append
  append_in writes key stamp event chain = elim (append lib key stamp event chain) [
    | raise e ↦ (raise e, chain)
    | ok (sealed, grown) ↦ elim writes.line [
      | raise e ↦ (raise e, chain)
      | ok done ↦ elim writes.head [
        | raise e ↦ (raise e, record grown { head_record = chain.head_record })
        | ok done ↦ (ok sealed, grown)
      ]
    ]
  ]

  -- The part of `mint` before the first write
  unfoldable pub prepare :
      Dict CheckSpec → String → Verdict → List Offered → EnvironmentKind → Result (List Proof)
  prepare catalogue check verdict offered witnessed = do
    spec ← specification catalogue check
    kind ← require_environment spec witnessed
    proofs ← intended spec offered
    require_proof_for_pass verdict offered
    ok proofs

  -- `mint`, where the chain's clock answers `stamp` and its signer holds `key`
  unfoldable pub mint :
      Writes
      → Dict CheckSpec
      → String
      → Verdict
      → List Offered
      → String
      → EnvironmentKind
      → List ScopeLimit
      → String
      → String
      → ProofStore
      → Store
      → Result Minted × (ProofStore × Store)
  unfolding absorb_all append_in
  mint writes catalogue check verdict offered candidate witnessed scope_limits key stamp store
        chain =
      elim (prepare catalogue check verdict offered witnessed) [
        | raise e ↦ (raise e, (store, chain))
        | ok proofs ↦
            let (filed, after) = absorb_all writes offered store in
            elim filed [
              | raise e ↦ (raise e, (after, chain))
              | ok cited ↦
                  if not (same_proofs cited proofs)
                  then (raise internal_defect, (after, chain))
                  else let (sealed, grown) =
                      append_in writes key stamp
                        (event_of check verdict candidate witnessed scope_limits cited) chain in
                    (
                      sealed >>= λ entry. ok (record { sealed = entry; proofs = cited }),
                      (after, grown),
                    )
            ]
      ]
