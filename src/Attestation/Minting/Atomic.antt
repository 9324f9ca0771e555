-- ===== src/Attestation/Minting/Atomic.antt =====
-- What minting finds before its first write, and what it files (src/apex/attestation/minting.py).
use apex_fedora.Base.{
  All, Bool, Bool-cases, Dict, List, Option-cases, String, [], ap, arith, contains, eq_iff, false,
  has, inl, inr, lookup, none, not, refl, some, true, ◌∙◌, ◌∷◌, ◌≡◌, ◌≢◌,
}
use apex_fedora.Kernel.Errors.{Raised, Result-cases, ok, raise_if, >>=-eq-ok, traverse, ◌>>=◌}
use apex_fedora.Kernel.Verdicts.{Verdict, passed}
use apex_fedora.Kernel.Claims.{EnvironmentKind, physical, simulated, require_attestable}
use apex_fedora.Attestation.Ledger.{Library}
use apex_fedora.Attestation.Proofs.{Proof, ProofStore, absorb}
use apex_fedora.Attestation.Minting.{
  CheckSpec, Offered, specification, require_environment, require_proof_for_pass, same_proofs, cite,
  Writes, all_accepted, intended, absorb_in, absorb_all, prepare,
}

pub same_proofs_refl : (ps : List Proof) → same_proofs ps ps ≡ true
same_proofs_refl [] = refl
same_proofs_refl (p ∷ ps) =
    ground (arith, same_proofs_refl ps, eq_iff p.digest p.digest, eq_iff p.kind p.kind)

-- What the tests before the first write have found.
pub record IsAllowed (catalogue : Dict CheckSpec) (check : String) (verdict : Verdict)
    (offered : List Offered) (witnessed : EnvironmentKind) : Type 0 where
  pub spec : CheckSpec
  pub declared : lookup check catalogue ≡ some spec
  pub environment : witnessed ≡ spec.environment
  pub real : witnessed ≢ simulated
  pub hardware : spec.group ≡ "hardware" → witnessed ≡ physical
  pub accepted : All (λ item. contains item.kind spec.accepted_proof_kinds ≡ true) offered
  pub proven : verdict ≡ passed → offered ≢ []

specification_declared :
    (catalogue : Dict CheckSpec) (check : String) {spec : CheckSpec}
    → specification catalogue check ≡ ok spec
    → lookup check catalogue ≡ some spec
unfolding specification
specification_declared catalogue check {spec} h = elim (Option-cases (lookup check catalogue)) [
  | inl missing ↦ cc (rw (specification, missing) at h)
  | inr (found, e) ↦
      let same : found ≡ spec = cc (rw (specification, e) at h) in e ∙ ap (λ s. some s) same
]

environment_allowed :
    (spec : CheckSpec) (witnessed : EnvironmentKind) {kind : EnvironmentKind}
    → require_environment spec witnessed ≡ ok kind
    → (witnessed ≡ spec.environment)
      × (witnessed ≢ simulated)
      × (spec.group ≡ "hardware" → witnessed ≡ physical)
      × (require_attestable witnessed none ≡ ok witnessed)
unfolding require_environment require_attestable
environment_allowed spec witnessed h = (
  ground (arith, h, eq_iff spec.group "hardware"),
  ground (arith, h, eq_iff spec.group "hardware"),
  λ g. ground (arith, h, eq_iff spec.group "hardware"),
  ground (arith, h, eq_iff spec.group "hardware"),
)

kinds_accepted :
    (spec : CheckSpec) (offered : List Offered)
    → all_accepted spec offered ≡ ok tt
    → All (λ item. contains item.kind spec.accepted_proof_kinds ≡ true) offered
kinds_accepted spec [] h = tt
kinds_accepted spec (item ∷ offered) h =
    let (one, first, rest) =
      >>=-eq-ok (raise_if (not (contains item.kind spec.accepted_proof_kinds)) _)
        (λ done. all_accepted spec offered) h in
    (
      accepted_kind (contains item.kind spec.accepted_proof_kinds) _ first,
      kinds_accepted spec offered rest,
    )
  where
    accepted_kind : (b : Bool) (e : Raised) → raise_if (not b) e ≡ ok tt → b ≡ true
    accepted_kind true e h = refl
    accepted_kind false e h = cc

pass_proven :
    (verdict : Verdict) (offered : List Offered)
    → require_proof_for_pass verdict offered ≡ ok tt
    → verdict ≡ passed
    → offered ≢ []
unfolding require_proof_for_pass
pass_proven verdict [] h p = cc (rw p at h)
pass_proven verdict (item ∷ offered) h p = λ e. cc

module _ (lib : Library) where
  -- What is filed is what was cited, whatever the store holds.
  absorb_in-cite :
      (writes : Writes) (item : Offered) (store : ProofStore) {cited found : Proof}
      → cite lib item ≡ ok cited
      → (absorb_in lib writes item store).0 ≡ ok found
      → found ≡ cited
  unfolding absorb_in absorb
  absorb_in-cite writes item store {cited} {found} h said =
      elim (Bool-cases (has cited.digest store.objects)) [
        | inl t ↦ ground (arith, rw (absorb_in, absorb, h, t) at said)
        | inr f ↦ elim (Result-cases (writes.object cited.digest)) [
          | inr (error, e) ↦ ground (arith, rw (absorb_in, absorb, h, f, e) at said)
          | inl (done, e) ↦ ground (arith, rw (absorb_in, absorb, h, f, e) at said)
        ]
      ]

  pub absorb_all-cite :
      (writes : Writes) (offered : List Offered) (store : ProofStore) {proofs found : List Proof}
      → traverse (cite lib) offered ≡ ok proofs
      → (absorb_all lib writes offered store).0 ≡ ok found
      → found ≡ proofs
  unfolding absorb_all
  absorb_all-cite writes [] store h said = ground (arith, h, said)
  absorb_all-cite writes (item ∷ offered) store {proofs} {found} h said =
      let (cited, first, rest) =
        >>=-eq-ok (cite lib item) (λ p. traverse (cite lib) offered >>= λ ps. ok (p ∷ ps)) h in
      let (ps, others, shape) =
        >>=-eq-ok (traverse (cite lib) offered) (λ ps. ok (cited ∷ ps)) rest in
      let here = absorb_in lib writes item store in
      elim (Result-cases here.0) [
        | inr (error, e) ↦ cc (rw (absorb_all, e) at said)
        | inl (one, e) ↦
            let (more, filed, whole) =
              >>=-eq-ok (absorb_all lib writes offered here.1).0 (λ qs. ok (one ∷ qs))
                (rw (absorb_all, e) at said) in
            let same = absorb_in-cite writes item store first e in
            let alike = absorb_all-cite writes offered here.1 others filed in
            ground (arith, same, alike, shape, whole)
      ]

  -- The tests before the first write, and what they found.
  pub prepare-IsAllowed :
      (catalogue : Dict CheckSpec) (check : String) (verdict : Verdict) (offered : List Offered)
      (witnessed : EnvironmentKind) {proofs : List Proof}
      → prepare lib catalogue check verdict offered witnessed ≡ ok proofs
      → IsAllowed catalogue check verdict offered witnessed
        × (traverse (cite lib) offered ≡ ok proofs)
        × (require_attestable witnessed none ≡ ok witnessed)
  unfolding prepare intended
  prepare-IsAllowed catalogue check verdict offered witnessed {proofs} h =
      let (spec, declared, h1) = >>=-eq-ok (specification catalogue check) _ h in
      let (kind, environment, h2) = >>=-eq-ok (require_environment spec witnessed) _ h1 in
      let (cited, cites, h3) = >>=-eq-ok (intended lib spec offered) _ h2 in
      let (done, proven, h4) = >>=-eq-ok (require_proof_for_pass verdict offered) _ h3 in
      let (same_kinds, accepted, cited_all) =
        >>=-eq-ok (all_accepted spec offered) (λ x. traverse (cite lib) offered) cites in
      let (same, real, hardware, attestable) = environment_allowed spec witnessed environment in
      (
        record {
          spec = spec;
          declared = specification_declared catalogue check declared;
          environment = same;
          real = real;
          hardware = hardware;
          accepted = kinds_accepted spec offered accepted;
          proven = pass_proven verdict offered proven;
        },
        cited_all ∙ h4,
        attestable,
      )
