-- ===== src/Attestation/Retracting/Ready.antt =====
-- Strict readiness and the decision of src/apex/attestation/readiness.py, one after the other.
use apex_fedora.Base.{
  &&_true, All, All-mono, Bool-cases, Dict, List, Option, String, [], contains, false, inl, inr,
  refl, true, values, ◌∷◌, ◌≡◌,
}
use apex_fedora.Kernel.Verdicts.{require_all}
use apex_fedora.Kernel.Claims.{EnvironmentKind}
use apex_fedora.Attestation.Readiness.{ResolvedRecord, state_every_check, evaluate}
use apex_fedora.Attestation.Readiness.Decision.{IsReady, evaluate-ready_iff}
use apex_fedora.Attestation.Attesting.{Attestation}
use apex_fedora.Attestation.Retracting.{imported_checks, withhold, retract}
use apex_fedora.Attestation.Retracting.Strict.{IsMade, resolved_of, withhold-same, own_not_imported}

-- The checks that are stated are the required ones.
stated_names :
    (P : String → Type 0) (required : Dict EnvironmentKind) (seen : Dict ResolvedRecord)
    (candidate : Option String)
    → All (λ item. P item.0) required
    → All (λ item. P item.0) (state_every_check required seen candidate).verdicts
unfolding state_every_check
stated_names P [] seen candidate h = tt
stated_names P (item ∷ required) seen candidate (here, h) =
    (here, stated_names P required seen candidate h)

ready_unimported :
    (required : Dict EnvironmentKind) (items : List Attestation) (digest : String)
    → All IsMade items
    → IsReady required (resolved_of items) digest
    → All (λ item. contains item.0 (imported_checks items) ≡ false) required
ready_unimported required items digest made r =
    All-mono (λ item (q, e, p, own). own_not_imported item.0 items {r = q} made r.one_each.1 e own)
      required r.all_proven

ready_all_pass :
    (required : Dict EnvironmentKind) (records : List ResolvedRecord) (candidate : Option String)
    → (evaluate required records candidate).ready ≡ true
    → require_all (values (evaluate required records candidate).verdicts) ≡ true
unfolding evaluate
ready_all_pass required records candidate h = (&&_true _ _ h).1

-- For attestations that were made by their constructor, narrowing the decision over their records by
-- the same attestations never changes whether the candidate is ready: what is ready stands on no
-- imported record already.
pub retract-evaluate_ready :
    (required : Dict EnvironmentKind) (items : List Attestation) (candidate : Option String)
    → All IsMade items
    → (retract (evaluate required (resolved_of items) candidate) items).0.ready
      ≡ (evaluate required (resolved_of items) candidate).ready
unfolding retract
retract-evaluate_ready required items candidate made =
    let outcome = evaluate required (resolved_of items) candidate in
    elim (Bool-cases outcome.ready) [
      | inr f ↦ rw (retract, f) refl
      | inl t ↦
          let (digest, e, r) = (evaluate-ready_iff required (resolved_of items) candidate).0 t in
          let named = ready_unimported required items digest made r in
          let same : (withhold (imported_checks items) outcome.verdicts).0 ≡ outcome.verdicts =
            withhold-same (imported_checks items) outcome.verdicts (
              unfold evaluate in
              stated_names (λ k. contains k (imported_checks items) ≡ false) required _ candidate
                named) in
          rw (retract, t, same) (ready_all_pass required (resolved_of items) candidate t)
    ]
