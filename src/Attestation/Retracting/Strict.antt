-- ===== src/Attestation/Retracting/Strict.antt =====
-- What strict readiness changes, and that it changes no decision (src/apex/attestation/retracting.py).
use apex_fedora.Base.{
  &&_true, All, Bool-cases, Dict, Distinct, List, String, [], ap, arith, contains, eq_iff, false,
  if◌then◌else◌, inl, inr, lookup, refl, some, subst, sym, true, ◌&&◌, ◌==◌, ◌∙◌, ◌∷◌, ◌≡◌,
}
use apex_fedora.Kernel.Refusals.{legacy_import_not_reproven}
use apex_fedora.Kernel.Errors.{ok}
use apex_fedora.Kernel.Verdicts.{Verdict, not_tested, permits_installation}
use apex_fedora.Attestation.Readiness.{ResolvedRecord, Outcome}
use apex_fedora.Attestation.Readiness.Reading.{first_of, checks_of}
use apex_fedora.Attestation.Attesting.{Attestation, is_imported, differ, attestation}
use apex_fedora.Attestation.Retracting.{imported_checks, is_withheld, withhold, retract}

-- What a verdict is stated as when the checks are imported.
abbrev pub restated : List String → String → Verdict → Verdict
restated imported name verdict =
    if is_withheld imported name verdict then not_tested legacy_import_not_reproven else verdict

withhold-cons :
    (imported : List String) (n : String) (w : Verdict) (verdicts : Dict Verdict)
    → (withhold imported ((n, w) ∷ verdicts)).0
      ≡ (n, restated imported n w) ∷ (withhold imported verdicts).0
unfolding withhold
withhold-cons imported n w verdicts = elim (Bool-cases (is_withheld imported n w)) [
  | inl t ↦ rw (withhold, t) refl
  | inr f ↦ rw (withhold, f) refl
]

lookup-withhold :
    (imported : List String) (name : String) (verdicts : Dict Verdict) {v : Verdict}
    → lookup name verdicts ≡ some v
    → lookup name (withhold imported verdicts).0 ≡ some (restated imported name v)
unfolding lookup
lookup-withhold imported name [] h = cc
lookup-withhold imported name ((n, w) ∷ verdicts) {v} h =
    ap (lookup name) (withhold-cons imported n w verdicts) ∙ elim (Bool-cases (n == name)) [
      | inl t ↦
          let same : w ≡ v = cc (rw t at h) in
          rw t (
            ap (λ k. some (restated imported k w)) ((eq_iff n name).0 t)
            ∙ ap (λ u. some (restated imported name u)) same)
      | inr f ↦ rw f (lookup-withhold imported name verdicts (rw f at h))
    ]

-- Nothing that is stated permits installation for an imported check.
abbrev AreWithheld : List String → Dict Verdict → Type 0
AreWithheld imported = All (λ item. is_withheld imported item.0 item.1 ≡ false)

restated_not_withheld :
    (imported : List String) (name : String) (v : Verdict)
    → is_withheld imported name (restated imported name v) ≡ false
unfolding is_withheld permits_installation
restated_not_withheld imported name v =
    elim (Bool-cases (contains name imported && permits_installation v)) [
      | inl t ↦ rw t (ground arith)
      | inr f ↦ rw f f
    ]

withhold-AreWithheld :
    (imported : List String) (verdicts : Dict Verdict)
    → AreWithheld imported (withhold imported verdicts).0
unfolding withhold
withhold-AreWithheld imported [] = tt
withhold-AreWithheld imported ((n, w) ∷ verdicts) =
    subst (AreWithheld imported) (sym (withhold-cons imported n w verdicts))
      (restated_not_withheld imported n w, withhold-AreWithheld imported verdicts)

-- Strict readiness leaves no imported check that permits installation, and states every other
-- verdict as it was: a finding is never erased. It keeps the faults, and never makes a candidate ready.
pub retract_withholds :
    (outcome : Outcome) (attestations : List Attestation)
    → let narrowed = (retract outcome attestations).0 in
      let imported = imported_checks attestations in
      AreWithheld imported narrowed.verdicts
      × ((name : String) (v : Verdict)
          → lookup name outcome.verdicts ≡ some v
          → lookup name narrowed.verdicts
            ≡ some (
                if contains name imported && permits_installation v
                then not_tested legacy_import_not_reproven
                else v))
      × (narrowed.faults ≡ outcome.faults)
      × (narrowed.ready ≡ true → outcome.ready ≡ true)
unfolding retract is_withheld
retract_withholds outcome attestations =
    let imported = imported_checks attestations in
    (
      withhold-AreWithheld imported outcome.verdicts,
      λ name v h. lookup-withhold imported name outcome.verdicts h,
      refl,
      λ h. (&&_true _ _ h).0,
    )

-- Where no stated check is imported, nothing is withheld.
pub withhold-same :
    (imported : List String) (verdicts : Dict Verdict)
    → All (λ item. contains item.0 imported ≡ false) verdicts
    → (withhold imported verdicts).0 ≡ verdicts
unfolding is_withheld withhold
withhold-same imported [] h = refl
withhold-same imported ((n, w) ∷ verdicts) (here, h) =
    withhold-cons imported n w verdicts
    ∙ rw (is_withheld, here) (ap (λ more. (n, w) ∷ more) (withhold-same imported verdicts h))

-- The attestation was made by its constructor.
abbrev pub IsMade : Attestation → Type 0
IsMade item = attestation item.kind item.resolved item.limits item.origin ≡ ok item

made_kind : (item : Attestation) → IsMade item → is_imported item.kind ≡ item.resolved.imported
unfolding attestation
made_kind item h = elim (Bool-cases (differ (is_imported item.kind) item.resolved.imported)) [
  | inl t ↦ cc (rw (attestation, t) at h)
  | inr f ↦ ground (arith, f)
]

abbrev pub resolved_of : List Attestation → List ResolvedRecord
resolved_of [] = []
resolved_of (item ∷ items) = item.resolved ∷ resolved_of items

imported_known :
    (name : String) (items : List Attestation)
    → contains name (checks_of (resolved_of items)) ≡ false
    → contains name (imported_checks items) ≡ false
unfolding imported_checks
imported_known name [] h = refl
imported_known name (item ∷ items) h = elim (Bool-cases (is_imported item.kind)) [
  | inl t ↦ rw (imported_checks, t) (ground (arith, imported_known name items, h))
  | inr f ↦ rw (imported_checks, f) (ground (arith, imported_known name items, h))
]

-- The check of a record that is not imported is no imported check, if each check has one record.
pub own_not_imported :
    (name : String) (items : List Attestation) {r : ResolvedRecord}
    → All IsMade items
    → Distinct (checks_of (resolved_of items))
    → first_of name (resolved_of items) ≡ some r
    → r.imported ≡ false
    → contains name (imported_checks items) ≡ false
unfolding imported_checks
own_not_imported name [] made distinct h own = refl
own_not_imported name (item ∷ items) {r} (made, more) (apart, distinct) h own =
    elim (Bool-cases (item.resolved.check == name)) [
      | inl t ↦
          let same : some item.resolved ≡ some r = rw t at h in
          let found : item.resolved ≡ r = cc same in
          let kind : is_imported item.kind ≡ false =
            made_kind item made ∙ ap (λ q. q.imported) found ∙ own in
          rw (imported_checks, kind)
            (imported_known name items (
              ap (λ k. contains k (checks_of (resolved_of items)))
                (sym ((eq_iff item.resolved.check name).0 t))
              ∙ apart))
      | inr f ↦
          let rest = own_not_imported name items {r = r} more distinct (rw f at h) own in
          elim (Bool-cases (is_imported item.kind)) [
            | inl t ↦ rw (imported_checks, t) (ground (arith, f, rest))
            | inr g ↦ rw (imported_checks, g) rest
          ]
    ]
