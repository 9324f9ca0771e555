-- ===== src/Attestation/Columns/Strict.antt =====
-- The table of a strict reading (src/apex/attestation/columns.py, src/apex/attestation/retracting.py).
use apex_fedora.Base.{
  All, Bool-cases, Dict, List, Option, Option-cases, String, [], ap, arith, contains, eq_iff, false,
  inl, inr, insert, keys, lookup, lookup-insert, none, refl, some, sorted, subst, sym, true, ◌==◌,
  ◌∙◌, ◌∷◌, ◌≡◌, ◌⊎◌,
}
use apex_fedora.Kernel.Errors.{ok, >>=-eq-ok}
use apex_fedora.Kernel.Verdicts.{Verdict, permits_installation}
use apex_fedora.Attestation.Readiness.{Outcome}
use apex_fedora.Attestation.Attesting.{Attestation, is_imported, check_of}
use apex_fedora.Attestation.Retracting.{imported_checks, is_withheld, retract}
use apex_fedora.Attestation.Retracting.Strict.{retract_withholds}
use apex_fedora.Attestation.Columns.{
  row_of, StoreReading, Origin, absent, Row, Table, by_check, stated_before, origin_of, rows_of,
  count_imported, tabulate,
}
use apex_fedora.Attestation.Columns

-- A name that is found with an imported attestation is an imported check, if it was not found before.
imported_found :
    (name : String) (items : List Attestation) (found : Dict Attestation) {item : Attestation}
    → lookup name (by_check items found) ≡ some item
    → is_imported item.kind ≡ true
    → (lookup name found ≡ some item) ⊎ (contains name (imported_checks items) ≡ true)
unfolding by_check imported_checks
imported_found name [] found h own = inl h
imported_found name (x ∷ xs) found {item} h own =
    elim (imported_found name xs (insert (check_of x) x found) h own) [
      | inr later ↦ inr (elim (Bool-cases (is_imported x.kind)) [
        | inl t ↦ rw (imported_checks, t) (ground (arith, later))
        | inr f ↦ rw (imported_checks, f) later
      ])
      | inl there ↦ elim (Bool-cases (check_of x == name)) [
        | inl t ↦
            let same : x ≡ item =
              cc (rw t at (sym (lookup-insert (check_of x) name x found) ∙ there)) in
            let kind : is_imported x.kind ≡ true = ap (λ a. is_imported a.kind) same ∙ own in
            inr (rw (imported_checks, kind) (ground (arith, t)))
        | inr f ↦ inl (rw f at (sym (lookup-insert (check_of x) name x found) ∙ there))
      ]
    ]

-- A verdict that is found is one of those stated.
stated_at :
    (P : String × Verdict → Type 0) (name : String) (verdicts : Dict Verdict) {v : Verdict}
    → All P verdicts
    → lookup name verdicts ≡ some v
    → P (name, v)
unfolding lookup
stated_at P name [] h e = cc
stated_at P name ((n, w) ∷ verdicts) {v} (here, h) e = elim (Bool-cases (n == name)) [
  | inl t ↦
      let same : w ≡ v = cc (rw t at e) in
      subst (λ u. P (name, u)) same (subst (λ k. P (k, w)) ((eq_iff n name).0 t) here)
  | inr f ↦ stated_at P name verdicts h (rw f at e)
]

-- The row of an imported record does not permit installation.
abbrev pub IsHonest : Row → Type 0
IsHonest row = row.origin ≡ Columns.imported → permits_installation row.verdict ≡ false

origin_imported :
    (o : Option Attestation)
    → origin_of o ≡ Columns.imported
    → (item : Attestation) × (o ≡ some item) × (is_imported item.kind ≡ true)
unfolding origin_of
origin_imported none h = cc
origin_imported (some item) h = (item, refl, ground (arith, h))

-- An imported check that is not withheld does not permit installation.
honest_verdict :
    (items : List Attestation) (name : String) (verdict : Verdict)
    → is_withheld (imported_checks items) name verdict ≡ false
    → contains name (imported_checks items) ≡ true
    → permits_installation verdict ≡ false
unfolding is_withheld
honest_verdict items name verdict h t = rw t at h

module _ (items : List Attestation) (before verdicts : Dict Verdict) where
  rows_of-IsHonest :
      All (λ item. is_withheld (imported_checks items) item.0 item.1 ≡ false) verdicts
      → (names : List String) {rows : List Row}
      → rows_of (by_check items []) before verdicts names ≡ ok rows
      → All IsHonest rows
  unfolding rows_of
  rows_of-IsHonest kept [] {rows} h = subst (All IsHonest) {x = []} {y = rows} (cc h) tt
  rows_of-IsHonest kept (name ∷ names) {rows} h = elim (Option-cases (lookup name verdicts)) [
    | inl missing ↦ cc (rw (rows_of, missing) at h)
    | inr (verdict, e) ↦
        let (more, made, shape) =
          >>=-eq-ok (rows_of (by_check items []) before verdicts names) _ (rw (rows_of, e) at h) in
        let rest = rows_of-IsHonest kept names made in
        subst (All IsHonest) {x = row_of (by_check items []) before name verdict ∷ more} {y = rows}
          (cc shape)
          (
            λ o.
                let (item, there, own) = origin_imported (lookup name (by_check items [])) o in
                elim (imported_found name items [] there own) [
                  | inl early ↦ (unfold lookup in cc early)
                  | inr is_import ↦
                      honest_verdict items name verdict (stated_at _ name verdicts kept e) is_import
                ],
            rest,
          )
  ]

-- In the table of a strict reading, no row that comes from an imported record permits installation,
-- whatever the store holds.
pub tabulate-IsHonest :
    (reading : StoreReading) (outcome : Outcome) (table : Table)
    → let (narrowed, withheld) = retract outcome reading.attestations in
      tabulate reading narrowed withheld true ≡ ok table → All IsHonest table.rows
unfolding tabulate
tabulate-IsHonest reading outcome table h =
    let (narrowed, withheld) = retract outcome reading.attestations in
    let (kept, others, faults, decision) = retract_withholds outcome reading.attestations in
    let (rows, made, shape) =
      >>=-eq-ok
        (rows_of (by_check reading.attestations []) (stated_before withheld []) narrowed.verdicts
          (sorted (keys narrowed.verdicts)))
        _ h in
    let same : rows ≡ table.rows = cc shape in
    subst (All IsHonest) same (
      rows_of-IsHonest reading.attestations (stated_before withheld []) narrowed.verdicts kept
        (sorted (keys narrowed.verdicts)) made)
