-- ===== src/Attestation/Electing/Claimed.antt =====
-- A mark elects the reader that claims it, and no other (src/apex/attestation/electing.py).
use apex_fedora.Base.{
  All, In, List, Option-cases, String, [], ap, arith, inl, inr, lookup, none, refl, some, sym, ◌++◌,
  ◌∙◌, ◌∷◌, ◌≡◌,
}
use apex_fedora.Kernel.Refusals.{malformed_store_mark, store_version_not_supported}
use apex_fedora.Kernel.Errors.{
  Result, ok, raise, refusal, precondition_unmet, registration_error, ◌>>=◌, Result-cases,
}
use apex_fedora.Registry.Sealing.{
  Registry, SealedRegistry, Provenance, add, empty, seal, lookup_sealed,
}
use apex_fedora.Registry.Sealing.Laws.{Declaration, register_all, keys_of}
use apex_fedora.Registry.Sealing.Sealed.{Answers, register_all-seal}
use apex_fedora.Model.Marks.{VersionMark, unreadable}
use apex_fedora.Attestation.Electing.{MarkClaim, key, key_for, StoreReaderSpec, declare, elect}
use apex_fedora.Attestation.Electing.Keys.{claim_of, key_injective, key_for-claim_of, not_contained}

module _ {Read : Type 0} where
  -- The specifications of the reader modules, declared one after another.
  abbrev pub declare_all :
      Registry (StoreReaderSpec Read)
      → List (StoreReaderSpec Read × Provenance)
      → Result (Registry (StoreReaderSpec Read))
  declare_all collector [] = ok collector
  declare_all collector ((spec, at) ∷ specs) =
      declare collector spec spec.marks at >>= λ more. declare_all more specs

  abbrev under :
      StoreReaderSpec Read → Provenance → List MarkClaim → List (Declaration (StoreReaderSpec Read))
  under spec at [] = []
  under spec at (claim ∷ claims) =
      record { key = key claim; value = spec; at = at } ∷ under spec at claims

  abbrev declarations :
      List (StoreReaderSpec Read × Provenance) → List (Declaration (StoreReaderSpec Read))
  declarations [] = []
  declarations ((spec, at) ∷ specs) = under spec at spec.marks ++ declarations specs

  register_all-append :
      (r : Registry (StoreReaderSpec Read)) (ds es : List (Declaration (StoreReaderSpec Read)))
      → register_all r (ds ++ es) ≡ (register_all r ds >>= λ more. register_all more es)
  register_all-append r [] es = refl
  register_all-append r (d ∷ ds) es = elim (Result-cases (add r d.key d.value d.at)) [
    | inr (error, e) ↦ rw e refl
    | inl (more, e) ↦ rw e (register_all-append more ds es)
  ]

  declare-register_all :
      (r : Registry (StoreReaderSpec Read)) (spec : StoreReaderSpec Read) (claims : List MarkClaim)
      (at : Provenance)
      → declare r spec claims at ≡ register_all r (under spec at claims)
  unfolding declare
  declare-register_all r spec [] at = refl
  declare-register_all r spec (claim ∷ claims) at =
      elim (Result-cases (add r (key claim) spec at)) [
        | inr (error, e) ↦ rw (declare, e) refl
        | inl (more, e) ↦ rw (declare, e) (declare-register_all more spec claims at)
      ]

  declare_all-register_all :
      (r : Registry (StoreReaderSpec Read)) (specs : List (StoreReaderSpec Read × Provenance))
      → declare_all r specs ≡ register_all r (declarations specs)
  declare_all-register_all r [] = refl
  declare_all-register_all r ((spec, at) ∷ specs) =
      let first_ = declare-register_all r spec spec.marks at in
      let split_ = register_all-append r (under spec at spec.marks) (declarations specs) in
      elim (Result-cases (register_all r (under spec at spec.marks))) [
        | inr (error, e) ↦ rw (first_, split_, e) refl
        | inl (more, e) ↦ rw (first_, split_, e) (declare_all-register_all more specs)
      ]

  All-append_split :
      (P : Declaration (StoreReaderSpec Read) → Type 0)
      (ds es : List (Declaration (StoreReaderSpec Read)))
      → All P (ds ++ es)
      → All P ds × All P es
  All-append_split P [] es h = (tt, h)
  All-append_split P (d ∷ ds) es (here, h) =
      let (left, right) = All-append_split P ds es h in ((here, left), right)

  -- What a mark that has a claim elects: a reader that claims it, or none.
  abbrev Chosen :
      MarkClaim → Result (StoreReaderSpec Read) → StoreReaderSpec Read × Provenance → Type 0
  Chosen wanted result (spec, at) = All (λ claim. claim ≡ wanted → result ≡ ok spec) spec.marks

  abbrev pub IsElected :
      List (StoreReaderSpec Read × Provenance) → MarkClaim → Result (StoreReaderSpec Read) → Type 0
  IsElected specs wanted result =
      All (Chosen wanted result) specs
      × (All (λ item. All (λ claim. ¬ (claim ≡ wanted)) item.0.marks) specs
          → result ≡ raise (precondition_unmet store_version_not_supported))

  lookup_returned :
      (s : SealedRegistry (StoreReaderSpec Read)) (name : String) {spec : StoreReaderSpec Read}
      → lookup_sealed s name ≡ ok spec
      → lookup name s.entries ≡ some spec
  unfolding lookup_sealed
  lookup_returned s name h = elim (Option-cases (lookup name s.entries)) [
    | inl n ↦ cc (rw (lookup_sealed, n) at h)
    | inr (found, e) ↦ ground (arith, e, h)
  ]

  lookup_unknown :
      (s : SealedRegistry (StoreReaderSpec Read)) (name : String)
      → lookup_sealed s name ≡ raise registration_error
      → lookup name s.entries ≡ none
  unfolding lookup_sealed
  lookup_unknown s name h = elim (Option-cases (lookup name s.entries)) [
    | inl n ↦ n
    | inr (found, e) ↦ cc (rw (lookup_sealed, e) at h)
  ]

  elect_returns :
      (s : SealedRegistry (StoreReaderSpec Read)) (mark : VersionMark) (wanted : MarkClaim)
      {spec : StoreReaderSpec Read}
      → claim_of mark ≡ some wanted
      → lookup_sealed s (key wanted) ≡ ok spec
      → elect s mark ≡ ok spec
  unfolding elect
  elect_returns s mark wanted h found =
      let e = key_for-claim_of mark wanted h in
      let there = lookup_returned s (key wanted) found in rw (elect, e, there) found

  elect_refuses :
      (s : SealedRegistry (StoreReaderSpec Read)) (mark : VersionMark) (wanted : MarkClaim)
      → claim_of mark ≡ some wanted
      → lookup_sealed s (key wanted) ≡ raise registration_error
      → elect s mark ≡ raise (precondition_unmet store_version_not_supported)
  unfolding elect
  elect_refuses s mark wanted h missing =
      let e = key_for-claim_of mark wanted h in
      let gone = lookup_unknown s (key wanted) missing in rw (elect, e, gone) refl

  under-Chosen :
      (s : SealedRegistry (StoreReaderSpec Read)) (mark : VersionMark) (wanted : MarkClaim)
      (spec : StoreReaderSpec Read) (at : Provenance) (claims : List MarkClaim)
      → claim_of mark ≡ some wanted
      → All (Answers s) (under spec at claims)
      → All (λ claim. claim ≡ wanted → elect s mark ≡ ok spec) claims
  under-Chosen s mark wanted spec at [] h answers = tt
  under-Chosen s mark wanted spec at (claim ∷ claims) h (here, answers) = (
    λ e. elect_returns s mark wanted h (ap (λ c. lookup_sealed s (key c)) (sym e) ∙ here.0),
    under-Chosen s mark wanted spec at claims h answers,
  )

  declarations-Chosen :
      (s : SealedRegistry (StoreReaderSpec Read)) (mark : VersionMark) (wanted : MarkClaim)
      (specs : List (StoreReaderSpec Read × Provenance))
      → claim_of mark ≡ some wanted
      → All (Answers s) (declarations specs)
      → All (Chosen wanted (elect s mark)) specs
  declarations-Chosen s mark wanted [] h answers = tt
  declarations-Chosen s mark wanted ((spec, at) ∷ specs) h answers =
      let (left, right) =
        All-append_split (Answers s) (under spec at spec.marks) (declarations specs) answers in
      (
        under-Chosen s mark wanted spec at spec.marks h left,
        declarations-Chosen s mark wanted specs h right,
      )

  -- A key under which nothing was declared
  under_absent :
      (wanted : MarkClaim) (spec : StoreReaderSpec Read) (at : Provenance) (claims : List MarkClaim)
      (ds : List (Declaration (StoreReaderSpec Read)))
      → All (λ claim. ¬ (claim ≡ wanted)) claims
      → ¬ In (key wanted) (keys_of ds)
      → ¬ In (key wanted) (keys_of (under spec at claims ++ ds))
  under_absent wanted spec at [] ds h rest m = rest m
  under_absent wanted spec at (claim ∷ claims) ds (here, h) rest (inl e) =
      here (key_injective claim wanted e)
  under_absent wanted spec at (claim ∷ claims) ds (here, h) rest (inr m) =
      under_absent wanted spec at claims ds h rest m

  declarations_absent :
      (wanted : MarkClaim) (specs : List (StoreReaderSpec Read × Provenance))
      → All (λ item. All (λ claim. ¬ (claim ≡ wanted)) item.0.marks) specs
      → ¬ In (key wanted) (keys_of (declarations specs))
  declarations_absent wanted [] h m = m
  declarations_absent wanted ((spec, at) ∷ specs) (here, h) m =
      under_absent wanted spec at spec.marks (declarations specs) here
        (declarations_absent wanted specs h) m

  -- If every reader could be declared, the registry seals. A mark that can be read then elects each reader
  -- that claims it, so that readers which claim one mark are equal, and where no reader does, the version
  -- is refused as not supported; a mark that cannot be read elects no reader, whatever was declared.
  pub elect-IsElected :
      (specs : List (StoreReaderSpec Read × Provenance)) {r : Registry (StoreReaderSpec Read)}
      → declare_all empty specs ≡ ok r
      → (after : Registry (StoreReaderSpec Read)) × (s : SealedRegistry (StoreReaderSpec Read))
        × (seal r ≡ ok (after, s))
        × ((mark : VersionMark) (wanted : MarkClaim)
            → claim_of mark ≡ some wanted
            → IsElected specs wanted (elect s mark))
        × (elect s unreadable ≡ raise (refusal malformed_store_mark))
  unfolding elect key_for
  elect-IsElected specs {r} h =
      let ds = declarations specs in
      let (after, s, sealed, is_seal) =
        register_all-seal ds r (sym (declare_all-register_all empty specs) ∙ h) in
      (
        after,
        s,
        sealed,
        λ mark wanted e. (
          declarations-Chosen s mark wanted specs e is_seal.answers,
          λ absent. elect_refuses s mark wanted e (
              is_seal.unknown (key wanted) (
                not_contained (key wanted) (keys_of ds) (declarations_absent wanted specs absent))),
        ),
        refl,
      )
