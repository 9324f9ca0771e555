-- ===== src/Attestation/Readiness/Reading.antt =====
-- One record per known check (src/apex/attestation/readiness.py): what is kept of the records, and the faults.
use apex_fedora.Base.{
  All, All-mono, Bool-cases, Dict, Distinct, List, Option, String, [], ap, arith, contains, eq_iff,
  false, has, has-false, has-insert, has-true, if◌then◌else◌, inl, inr, insert, lookup,
  lookup-insert, none, refl, some, subst, true, ◌++◌, ◌==◌, ◌↔◌, ◌∙◌, ◌∷◌, ◌≡◌, ◌≢◌,
}
use apex_fedora.Kernel.Claims.{EnvironmentKind}
use apex_fedora.Attestation.Readiness.{
  ResolvedRecord, Fault, admit, collect, one_record_per_known_check,
}

-- The first record of the check.
abbrev pub first_of : String → List ResolvedRecord → Option ResolvedRecord
first_of name [] = none
first_of name (r ∷ rs) = if r.check == name then some r else first_of name rs

abbrev pub checks_of : List ResolvedRecord → List String
checks_of [] = []
checks_of (r ∷ rs) = r.check ∷ checks_of rs

abbrev or_else : Option ResolvedRecord → Option ResolvedRecord → Option ResolvedRecord
or_else none second = second
or_else (some r) second = some r

or_else_assoc : (a b c : Option ResolvedRecord) → or_else (or_else a b) c ≡ or_else a (or_else b c)
or_else_assoc none b c = refl
or_else_assoc (some r) b c = refl

or_else-none : (a : Option ResolvedRecord) → a ≡ or_else a none
or_else-none none = refl
or_else-none (some r) = refl

-- The record alone, as far as it is of the check.
abbrev if_of : String → ResolvedRecord → Option ResolvedRecord
if_of name r = if r.check == name then some r else none

first_of-cons :
    (name : String) (r : ResolvedRecord) (rs : List ResolvedRecord)
    → or_else (if_of name r) (first_of name rs) ≡ first_of name (r ∷ rs)
first_of-cons name r rs = elim (Bool-cases (r.check == name)) [
  | inl t ↦ rw t refl
  | inr f ↦ rw f refl
]

module _ (required : Dict EnvironmentKind) where
  lookup-admit :
      (name : String) (r : ResolvedRecord) (s : Dict ResolvedRecord × List Fault)
      → has name required ≡ true
      → lookup name (admit required r s).0 ≡ or_else (lookup name s.0) (if_of name r)
  unfolding admit
  lookup-admit name r (seen, faults) h = elim (Bool-cases (r.check == name)) [
    | inl t ↦
        let known : has r.check required ≡ true =
          ap (λ k. has k required) ((eq_iff r.check name).0 t) ∙ h in
        let there : has r.check seen ≡ has name seen =
          ap (λ k. has k seen) ((eq_iff r.check name).0 t) in
        elim (Bool-cases (has name seen)) [
          | inl twice ↦
              let (old, e) = has-true name seen twice in rw (admit, known, there ∙ twice, e) refl
          | inr fresh ↦
              rw (admit, known, there ∙ fresh, has-false name seen fresh, t)
                (lookup-insert r.check name r seen ∙ rw t refl)
        ]
    | inr f ↦ elim (Bool-cases (has r.check required)) [
      | inl known ↦ elim (Bool-cases (has r.check seen)) [
        | inl twice ↦ rw (admit, known, twice, f) (or_else-none (lookup name seen))
        | inr fresh ↦
            rw (admit, known, fresh, f)
              (lookup-insert r.check name r seen ∙ rw f (or_else-none (lookup name seen)))
      ]
      | inr unknown ↦ rw (admit, unknown, f) (or_else-none (lookup name seen))
    ]
  ]

  -- For a required check, what was seen before is kept, and otherwise its first record is taken.
  lookup-collect :
      (name : String) (rs : List ResolvedRecord) (s : Dict ResolvedRecord × List Fault)
      → has name required ≡ true
      → lookup name (collect required rs s).0 ≡ or_else (lookup name s.0) (first_of name rs)
  unfolding collect
  lookup-collect name [] s h = or_else-none (lookup name s.0)
  lookup-collect name (r ∷ rs) s h =
      lookup-collect name rs (admit required r s) h
      ∙ ap (λ o. or_else o (first_of name rs)) (lookup-admit name r s h)
      ∙ or_else_assoc (lookup name s.0) (if_of name r) (first_of name rs)
      ∙ ap (or_else (lookup name s.0)) (first_of-cons name r rs)

  snoc_nonempty : (faults : List Fault) (fault : Fault) → faults ++ fault ∷ [] ≢ []
  snoc_nonempty [] fault = λ e. cc
  snoc_nonempty (f ∷ fs) fault = λ e. cc

  -- Admitting a record finds no fault exactly where it is of a required check and the first of it.
  admit-clean :
      (r : ResolvedRecord) (s : Dict ResolvedRecord × List Fault)
      → (admit required r s).1 ≡ []
      → (s.1 ≡ []) × (has r.check required ≡ true) × (has r.check s.0 ≡ false)
  unfolding admit
  admit-clean r (seen, faults) h = elim (Bool-cases (has r.check required)) [
    | inl known ↦ elim (Bool-cases (has r.check seen)) [
      | inl twice ↦ absurd (snoc_nonempty faults _ (rw (admit, known, twice) at h))
      | inr fresh ↦ (rw (admit, known, fresh) at h, known, fresh)
    ]
    | inr unknown ↦ absurd (snoc_nonempty faults _ (rw (admit, unknown) at h))
  ]

  admit-first :
      (r : ResolvedRecord) (s : Dict ResolvedRecord × List Fault)
      → has r.check required ≡ true
      → has r.check s.0 ≡ false
      → admit required r s ≡ (insert r.check r s.0, s.1)
  unfolding admit
  admit-first r (seen, faults) known fresh = rw (admit, known, fresh) refl

  -- A record whose check is required, and was not seen.
  abbrev IsNew : Dict ResolvedRecord → ResolvedRecord → Type 0
  IsNew seen r = (has r.check required ≡ true) × (has r.check seen ≡ false)

  IsNew-before :
      (r : ResolvedRecord) (seen : Dict ResolvedRecord) (rs : List ResolvedRecord)
      → All (IsNew (insert r.check r seen)) rs
      → All (IsNew seen) rs × (contains r.check (checks_of rs) ≡ false)
  IsNew-before r seen [] h = (tt, refl)
  IsNew-before r seen (x ∷ xs) ((known, fresh), h) =
      let (more, apart) = IsNew-before r seen xs h in
      let there = has-insert r.check x.check r seen in
      (
        ((known, ground (arith, there, fresh)), more),
        ground (arith, there, fresh, apart, eq_iff r.check x.check, eq_iff x.check r.check),
      )

  IsNew-after :
      (r : ResolvedRecord) (seen : Dict ResolvedRecord) (rs : List ResolvedRecord)
      → All (IsNew seen) rs
      → contains r.check (checks_of rs) ≡ false
      → All (IsNew (insert r.check r seen)) rs
  IsNew-after r seen [] h apart = tt
  IsNew-after r seen (x ∷ xs) ((known, fresh), h) apart =
      let there = has-insert r.check x.check r seen in
      (
        (
          known,
          ground (arith, there, fresh, apart, eq_iff r.check x.check, eq_iff x.check r.check),
        ),
        IsNew-after r seen xs h (ground (arith, apart)),
      )

  -- No fault is found exactly where every record is of a required check, and no two of one check.
  collect-clean :
      (rs : List ResolvedRecord) (s : Dict ResolvedRecord × List Fault)
      → (collect required rs s).1 ≡ []
      → (s.1 ≡ []) × All (IsNew s.0) rs × Distinct (checks_of rs)
  unfolding collect
  collect-clean [] s h = (h, tt, tt)
  collect-clean (r ∷ rs) s h =
      let (clean, new, distinct) = collect-clean rs (admit required r s) h in
      let (before, known, fresh) = admit-clean r s clean in
      let (more, apart) =
        IsNew-before r s.0 rs (subst (λ t. All (IsNew t.0) rs) (admit-first r s known fresh) new) in
      (before, ((known, fresh), more), (apart, distinct))

  clean-collect :
      (rs : List ResolvedRecord) (s : Dict ResolvedRecord × List Fault)
      → s.1 ≡ []
      → All (IsNew s.0) rs
      → Distinct (checks_of rs)
      → (collect required rs s).1 ≡ []
  unfolding collect
  clean-collect [] s clean new distinct = clean
  clean-collect (r ∷ rs) s clean ((known, fresh), new) (apart, distinct) =
      ap (λ t. (collect required rs t).1) (admit-first r s known fresh)
      ∙ clean-collect rs (insert r.check r s.0, s.1) clean (IsNew-after r s.0 rs new apart) distinct

-- Every record is of a required check, and no two are of one check.
abbrev pub AreOneEach : Dict EnvironmentKind → List ResolvedRecord → Type 0
AreOneEach required records =
    All (λ r. has r.check required ≡ true) records × Distinct (checks_of records)

-- Reading the records finds no fault exactly where every record is of a required check and no two of
-- them are of one check.
pub one_record-clean_iff :
    (records : List ResolvedRecord) (required : Dict EnvironmentKind)
    → ((one_record_per_known_check records required).1 ≡ []) ↔ AreOneEach required records
unfolding one_record_per_known_check has
one_record-clean_iff records required = (
  λ h.
      let (clean, new, distinct) = collect-clean required records ([], []) h in
      (All-mono (λ r n. n.0) records new, distinct),
  λ (known, distinct).
      clean-collect required records ([], []) refl (All-mono (λ r k. (k, refl)) records known)
        distinct,
)

-- Whatever the records are, what is seen of a required check is its first record.
pub lookup-one_record :
    (name : String) (records : List ResolvedRecord) (required : Dict EnvironmentKind)
    → has name required ≡ true
    → lookup name (one_record_per_known_check records required).0 ≡ first_of name records
unfolding one_record_per_known_check lookup
lookup-one_record name records required h = lookup-collect required name records ([], []) h
