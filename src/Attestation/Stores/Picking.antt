-- ===== src/Attestation/Stores/Picking.antt =====
-- The attestations that src/apex/attestation/storereaders/v2_reader.py picks out of its dictionary.
use apex_fedora.Base.{
  Bool-cases, Dict, IsKeyed, List, Option, String, [], ap, arith, contains, eq_iff, if◌then◌else◌,
  indexed, inl, inr, insert, lookup, lookup-indexed, newest, newest-name, none, or_first, refl,
  some, sym, ◌==◌, ◌∙◌, ◌∷◌, ◌≡◌, ◌⊎◌, not, all, any, ◌&&◌,
}
use apex_fedora.Kernel.Errors.{Result, ok, >>=-eq-ok, raise_if, internal_defect}
use apex_fedora.Kernel.Claims.{ScopeLimit}
use apex_fedora.Attestation.Readiness.{ResolvedRecord}
use apex_fedora.Attestation.Attesting.{
  EntryKind, is_imported, differ, has_limit, legacy_limits, Attestation, attestation, check_of,
}
use apex_fedora.Attestation.Columns.{by_check}

pub by_check-indexed :
    (items : List Attestation) (found : Dict Attestation)
    → by_check items found ≡ indexed check_of items found
unfolding by_check indexed
by_check-indexed [] found = refl
by_check-indexed (item ∷ items) found = by_check-indexed items (insert (check_of item) item found)

-- The first attestation of a check
abbrev pub find_check : String → List Attestation → Option Attestation
find_check name [] = none
find_check name (item ∷ items) =
    let later = find_check name items in if check_of item == name then some item else later

abbrev pub checks : List Attestation → List String
checks [] = []
checks (item ∷ items) = check_of item ∷ checks items

-- The attestations that a dictionary holds under some names
abbrev pub IsPicked : Dict Attestation → List String → List Attestation → Type 0
IsPicked found names items =
    (checks items ≡ names)
    × ((name : String)
        → find_check name items ≡ (if contains name names then lookup name found else none))

pub IsPicked-cons :
    (found : Dict Attestation) (n : String) (names : List String) (item : Attestation)
    (rest : List Attestation)
    → check_of item ≡ n
    → lookup n found ≡ some item
    → IsPicked found names rest
    → IsPicked found (n ∷ names) (item ∷ rest)
IsPicked-cons found n names item rest named e (all_named, finds) = (
  rw (named, all_named) refl,
  λ name.
      let same : (check_of item == name) ≡ (n == name) = ap (λ m. m == name) named in
      elim (Bool-cases (n == name)) [
        | inl t ↦ rw (same, t) (sym e ∙ ap (λ m. lookup m found) ((eq_iff n name).0 t))
        | inr f ↦ rw (same, f) (finds name)
      ],
)

-- An attestation that was made is of its kind and its record.
pub attestation-ok :
    (kind : EntryKind) (resolved : ResolvedRecord) (limits : List ScopeLimit) (origin : String)
    {item : Attestation}
    → attestation kind resolved limits origin ≡ ok item
    → (item.kind ≡ kind) × (item.resolved ≡ resolved) × (item.limits ≡ limits)
unfolding attestation
attestation-ok kind resolved limits origin h =
    let made =
      >>=-eq-ok (raise_if (differ (is_imported kind) resolved.imported) internal_defect) _ h in
    let made₂ =
      >>=-eq-ok
        (raise_if (is_imported kind && not (all (λ limit. has_limit limit limits) legacy_limits))
          internal_defect)
        _ made.2 in
    let made₃ =
      >>=-eq-ok
        (raise_if (not (is_imported kind) && any (λ limit. has_limit limit limits) legacy_limits)
          internal_defect)
        _ made₂.2 in
    ground (arith, made₃.2)

pub ok_injective : {A : Type 0} {a b : A} → ◌≡◌ {A = Result A} (ok a) (ok b) → a ≡ b
ok_injective h = ground (arith, h)

pub or_first-none {ℓ} : {A : Type ℓ} (o : Option A) → or_first o none ≡ o
or_first-none none = refl
or_first-none (some a) = refl

pub looked_up :
    (name : String) (written legacy : List Attestation)
    → lookup name (by_check written (by_check legacy []))
      ≡ or_first (newest check_of name written) (newest check_of name legacy)
unfolding lookup
looked_up name written legacy =
    ap (λ d. lookup name d)
      (by_check-indexed written (by_check legacy [])
        ∙ ap (λ d. indexed check_of written d) (by_check-indexed legacy []))
    ∙ lookup-indexed check_of name written (indexed check_of legacy [])
    ∙ ap (λ o. or_first (newest check_of name written) o)
        (lookup-indexed check_of name legacy [] ∙ or_first-none (newest check_of name legacy))

or_first-cases :
    (first second : Option Attestation) {item : Attestation}
    → or_first first second ≡ some item
    → (first ≡ some item) ⊎ (second ≡ some item)
or_first-cases none second h = inr h
or_first-cases (some a) second h = inl h

pub found-IsKeyed :
    (written legacy : List Attestation) → IsKeyed check_of (by_check written (by_check legacy []))
found-IsKeyed written legacy name item h =
    elim (or_first-cases (newest check_of name written) (newest check_of name legacy)
      (sym (looked_up name written legacy) ∙ h)) [
        | inl e ↦ newest-name check_of name written e
        | inr e ↦ newest-name check_of name legacy e
      ]
