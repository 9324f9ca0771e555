-- ===== src/Attestation/Stores/Newest.antt =====
-- The second reader of src/apex/attestation/storereaders/ lists each check once, in order, as the newest source of
-- it states it.
use apex_fedora.Base.{
  All, Bool-cases, Dict, Distinct, Distinct-indexed, Distinct-sorted, IsKeyed, indexed-AreNamed,
  List, Option, Option-cases, String, [], ap, arith, contains, contains-keys, contains-sorted,
  eq_iff, false, has, has-false, if◌then◌else◌, indexed, inl, inr, is_some, keys, lookup,
  lookup-indexed, newest, none, or_first, refl, some, sorted, subst, sym, values, ◌==◌, ◌∙◌, ◌∷◌,
  ◌≡◌, not,
}
use apex_fedora.Kernel.Errors.{Result, Result-cases, ok, raise, traverse, ◌>>=◌, >>=-eq-ok}
use apex_fedora.Model.Runtime.{Python}
use apex_fedora.Model.Marks.{first_version}
use apex_fedora.Attestation.Readiness.{Fault}
use apex_fedora.Attestation.Attesting.{imported, recorded, legacy_limits, Attestation, check_of}
use apex_fedora.Attestation.Columns.{StoreReading, by_check}
use apex_fedora.Attestation.Ledger.{Library, Report, Sealed}
use apex_fedora.Attestation.Ledger.Chain.{verified}
use apex_fedora.Attestation.Ledger.Opening.{signer_at, read_chain}
use apex_fedora.Attestation.Stores.{
  Root, check_in, read_first, latest, attestation_of, resolved_of, chain, pick, read_second,
}
use apex_fedora.Attestation.Stores.Picking.{
  by_check-indexed, find_check, checks, IsPicked, IsPicked-cons, attestation-ok, ok_injective,
  or_first-none, looked_up, found-IsKeyed,
}

module _ (lib : Library) (python : Python) where
  pick-IsPicked :
      (found : Dict Attestation) (names : List String) {items : List Attestation}
      → IsKeyed check_of found
      → pick lib python found names ≡ ok items
      → IsPicked found names items
  unfolding pick
  pick-IsPicked found [] {items} keyed h =
      let none_left : [] ≡ items = ground (arith, h) in
      subst (IsPicked found []) none_left (refl, λ name. refl)
  pick-IsPicked found (n ∷ names) {items} keyed h = elim (Option-cases (lookup n found)) [
    | inl missing ↦ cc (rw (pick, missing) at h)
    | inr (item, e) ↦
        let (rest, picked, same) =
          >>=-eq-ok (pick lib python found names) (λ items. ok (item ∷ items))
            (rw (pick, e) at h) in
        let whole : item ∷ rest ≡ items = ground (arith, same) in
        subst (IsPicked found (n ∷ names)) whole (
          IsPicked-cons found n names item rest (keyed n item e) e
            (pick-IsPicked found names {items = rest} keyed picked))
  ]

  -- What an entry of the chain is read as
  abbrev IsOf : Root → Sealed → Attestation → Type 0
  IsOf root sealed item =
      (item.kind ≡ recorded)
      × (check_of item ≡ check_in sealed)
      × (item.resolved.verdict ≡ sealed.entry.event.verdict)

  attestation_of-IsOf :
      (root : Root) (sealed : Sealed) {item : Attestation}
      → attestation_of lib python root sealed ≡ ok item
      → IsOf root sealed item
  unfolding attestation_of
  attestation_of-IsOf root sealed h =
      let (kind, resolved, limits) =
        attestation-ok recorded (resolved_of lib python root sealed) sealed.entry.event.scope_limits
          "chain" h in
      (kind, ap (λ r. r.check) resolved, ap (λ r. r.verdict) resolved)

  -- What is newest of a name is the entry, if there is one, or else what was there.
  abbrev pub States : Root → Option Sealed → Option Attestation → Option Attestation → Type 0
  States root none found old = found ≡ old
  States root (some sealed) found old =
      (item : Attestation) × (found ≡ some item) × IsOf root sealed item

  States-cons :
      (root : Root) (sealed : Sealed) (item : Attestation) (items : List Attestation)
      (name : String) (rest : Dict Sealed)
      → IsOf root sealed item
      → contains (check_in sealed) (keys rest) ≡ false
      → States root (lookup name rest) (newest check_of name items) none
      → States root
          (lookup name ((check_in sealed, sealed) ∷ rest))
          (newest check_of name (item ∷ items))
          none
  unfolding lookup
  States-cons root sealed item items name rest is_of fresh states =
      let same : (check_of item == name) ≡ (check_in sealed == name) =
        ap (λ m. m == name) is_of.1 in
      elim (Bool-cases (check_in sealed == name)) [
        | inr f ↦
            let kept : newest check_of name (item ∷ items) ≡ newest check_of name items =
              rw (same, f) (or_first-none (newest check_of name items)) in
            rw f (subst (λ o. States root (lookup name rest) o none) (sym kept) states)
        | inl t ↦
            let gone : lookup name rest ≡ none = has-false name rest (
              sym (contains-keys name rest)
              ∙ ap (λ m. contains m (keys rest)) (sym ((eq_iff (check_in sealed) name).0 t))
              ∙ fresh) in
            let no_later : newest check_of name items ≡ none = rw gone at states in
            rw t (item, rw (no_later, same, t) refl, is_of)
      ]

  -- The attestations of a dictionary of entries
  values-States :
      (root : Root) (entries : Dict Sealed) (items : List Attestation)
      → All (λ e. check_in e.1 ≡ e.0) entries
      → Distinct (keys entries)
      → traverse (attestation_of lib python root) (values entries) ≡ ok items
      → (name : String) → States root (lookup name entries) (newest check_of name items) none
  unfolding lookup
  values-States root [] items keyed distinct h name =
      let none_left : [] ≡ items = ground (arith, h) in
      subst (λ xs. newest check_of name xs ≡ none) none_left refl
  values-States root ((k, sealed) ∷ entries) items (here, keyed) (fresh, distinct) h name =
      let (item, made, more) =
        >>=-eq-ok (attestation_of lib python root sealed)
          (λ y. traverse (attestation_of lib python root) (values entries) >>= λ ys. ok (y ∷ ys))
          h in
      let (rest, traversed, same) =
        >>=-eq-ok (traverse (attestation_of lib python root) (values entries))
          (λ ys. ok (item ∷ ys)) more in
      let whole : item ∷ rest ≡ items = ground (arith, same) in
      let ih = values-States root entries rest keyed distinct traversed name in
      let first =
        States-cons root sealed item rest name entries (attestation_of-IsOf root sealed made)
          (ap (λ m. contains m (keys entries)) here ∙ fresh) ih in
      subst (λ xs. States root (lookup name ((k, sealed) ∷ entries)) (newest check_of name xs) none)
        whole
        (subst
          (λ m.
            States root (lookup name ((m, sealed) ∷ entries)) (newest check_of name (item ∷ rest))
              none)
          here first)

  -- The entries that a replay holds, if it returns
  abbrev pub held_of : Result (List Sealed × Report) → List Sealed
  held_of (ok replayed) = replayed.0
  held_of (raise _) = []

  abbrev pub confirmed_by : Root → Result (Option String) → List Sealed
  confirmed_by root (ok (some key)) =
      held_of
        (read_chain lib root.chain_file root.head_file >>= λ read. verified lib key read.0 read.1)
  confirmed_by root (ok none) = []
  confirmed_by root (raise _) = []

  -- The entries that the chain holds up to its first break, where it is read at all
  abbrev pub entries_of : Root → List Sealed
  entries_of root =
      if not (is_some root.chain_file) then [] else confirmed_by root (signer_at lib root.key_file)

  chain-States :
      (root : Root) {written : List Attestation × List Fault}
      → chain lib python root ≡ ok written
      → (name : String)
      → States root (newest check_in name (entries_of root)) (newest check_of name written.0) none
  unfolding chain latest lookup
  chain-States root {written} h name = elim (Bool-cases (is_some root.chain_file)) [
    | inr f ↦
        let empty : [] ≡ written.0 = ap (λ w. w.0) (ok_injective (rw (chain, f) at h)) in
        rw f (subst (λ xs. newest check_of name xs ≡ none) empty refl)
    | inl t ↦ elim (Result-cases (signer_at lib root.key_file)) [
      | inr (x, refused) ↦ cc (rw (chain, t, refused) at h)
      | inl (none, n) ↦
          let empty : [] ≡ written.0 = ap (λ w. w.0) (ok_injective (rw (chain, t, n) at h)) in
          rw (t, n) (subst (λ xs. newest check_of name xs ≡ none) empty refl)
      | inl (some key, e) ↦
          let (read, found, onward) =
            >>=-eq-ok (read_chain lib root.chain_file root.head_file) _ (rw (chain, t, e) at h) in
          let (replayed, replays, made) = >>=-eq-ok (verified lib key read.0 read.1) _ onward in
          let entries = replayed.0 in
          let (items, traversed, same) =
            >>=-eq-ok
              (traverse (attestation_of lib python root) (values (latest lib python entries))) _
              made in
          let states =
            values-States root (indexed check_in entries []) items
              (indexed-AreNamed check_in entries [] tt) (Distinct-indexed check_in entries [] tt)
              traversed name in
          let last : lookup name (indexed check_in entries []) ≡ newest check_in name entries =
            lookup-indexed check_in name entries []
            ∙ or_first-none (newest check_in name entries) in
          let whole : items ≡ written.0 = ap (λ w. w.0) (ok_injective same) in
          rw (t, e, found, replays)
            (subst (λ xs. States root (newest check_in name entries) (newest check_of name xs) none)
              whole (subst (λ o. States root o (newest check_of name items) none) last states))
    ]
  ]

  -- What one reading states of every check
  pub record IsNewest (root : Root) (legacy reading : StoreReading) : Type 0 where
    pub read_legacy : read_first lib python imported legacy_limits first_version root ≡ ok legacy
    pub once : Distinct (checks reading.attestations)
    pub newest_first :
        (name : String)
        → States root
            (newest check_in name (entries_of root))
            (find_check name reading.attestations)
            (newest check_of name legacy.attestations)

  or_first-States :
      (root : Root) (entry : Option Sealed) (found old : Option Attestation)
      → States root entry found none
      → States root entry (or_first found old) old
  or_first-States root none found old h = ap (λ o. or_first o old) h
  or_first-States root (some sealed) found old (item, e, is_of) =
      (item, ap (λ o. or_first o old) e, is_of)

  find-lookup :
      (found : Dict Attestation) (items : List Attestation) (name : String)
      → IsPicked found (sorted (keys found)) items
      → find_check name items ≡ lookup name found
  find-lookup found items name (named, finds) =
      let there : contains name (sorted (keys found)) ≡ has name found =
        contains-sorted name (keys found) ∙ contains-keys name found in
      finds name ∙ elim (Bool-cases (has name found)) [
        | inl t ↦ rw (there, t) refl
        | inr f ↦ rw (there, f) (sym (has-false name found f))
      ]

  -- Where the second reader returns, it lists every check once. A check that the chain holds is stated as
  -- its last entry before any break states it, as a recorded one, whatever the older tools left; every
  -- other check is stated by the last of the older documents, or not at all.
  pub read_second-IsNewest :
      (root : Root) {reading : StoreReading}
      → read_second lib python root ≡ ok reading
      → (legacy : StoreReading) × IsNewest root legacy reading
  unfolding read_second
  read_second-IsNewest root {reading} h =
      let (legacy, read_legacy, after_legacy) =
        >>=-eq-ok (read_first lib python imported legacy_limits first_version root) _ h in
      let (written, chained, after_chain) = >>=-eq-ok (chain lib python root) _ after_legacy in
      let found = by_check written.0 (by_check legacy.attestations []) in
      let (items, picked, made) =
        >>=-eq-ok (pick lib python found (sorted (keys found))) _ after_chain in
      let index : found ≡ indexed check_of written.0 (indexed check_of legacy.attestations []) =
        by_check-indexed written.0 (by_check legacy.attestations [])
        ∙ ap (λ d. indexed check_of written.0 d) (by_check-indexed legacy.attestations []) in
      let distinct : Distinct (keys found) = rw index (
        Distinct-indexed check_of written.0 (indexed check_of legacy.attestations [])
          (Distinct-indexed check_of legacy.attestations [] tt)) in
      let is_picked =
        pick-IsPicked found (sorted (keys found)) (found-IsKeyed written.0 legacy.attestations)
          picked in
      let same : items ≡ reading.attestations = ap (λ r. r.attestations) (ok_injective made) in
      (
        legacy,
        record {
          read_legacy = read_legacy;
          once =
              subst (λ xs. Distinct (checks xs)) same
                (subst Distinct (sym is_picked.0) (Distinct-sorted (keys found) distinct));
          newest_first = λ name.
              let looked : find_check name items
                  ≡ or_first (newest check_of name written.0)
                      (newest check_of name legacy.attestations) =
                find-lookup found items name is_picked
                ∙ looked_up name written.0 legacy.attestations in
              subst
                (λ xs.
                  States root (newest check_in name (entries_of root)) (find_check name xs)
                    (newest check_of name legacy.attestations))
                same
                (rw looked (
                  or_first-States root (newest check_in name (entries_of root))
                    (newest check_of name written.0) (newest check_of name legacy.attestations)
                    (chain-States root chained name)));
        },
      )
