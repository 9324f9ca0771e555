-- ===== src/Provisioning/Backing/Layers.antt =====
-- What a chain of layers is, apart from the walk of src/apex/provisioning/backingchain.py that finds one.
use apex_fedora.Base.{
  Bool, Bool-cases, List, Option, String, [], ap, arith, contains, false, if◌then◌else◌, inl, inr,
  length, none, not, refl, some, suc, true, zero, ℕ, ◌++◌, ◌≡◌, ◌∷◌, ◌≤◌, ◌↔◌, ◌∙◌, append_assoc,
  subst, sym, All, Distinct, contains-append, eq_iff,
}
use apex_fedora.Kernel.Errors.{Result, Result-cases, ok, >>=-eq-ok}
use apex_fedora.Kernel.Documents.{Document, get}
use apex_fedora.Provisioning.Backing.{
  Host, BackingChain, is_truthy, is_qcow2, regular_file, describe, turn, walk, inspect,
}

parted :
    (before : List String) (link : String) (links : List String)
    → All (λ l. contains l (before ++ link ∷ []) ≡ false) links
    → (contains link links ≡ false) × All (λ l. contains l before ≡ false) links
parted before link [] away = (refl, tt)
parted before link (l ∷ links) (here, away) =
    let (others, new) = parted before link links away in
    let found = contains-append l before (link ∷ []) in
    (
      ground (arith, found, here, others, eq_iff link l, eq_iff l link),
      (ground (arith, found, here), new),
    )

module _ (host : Host) where
  -- What the walk asks of a candidate, after the links before it: a regular file below the root, which is
  -- none of those, and which the tool describes as qcow2.
  pub record IsLink (before : List String) (candidate link : String) (description : Document)
      : Type 0 where
    pub regular : regular_file host candidate ≡ ok link
    pub fresh : contains link before ≡ false
    pub tells : describe host before link ≡ ok description
    pub qcow2 : is_qcow2 (get "format" description) ≡ true

  -- Where a description says that its link is layered over something
  abbrev pub next_of : String → Document → Option String
  next_of link description =
      let backing = get "backing-filename" description in
      if not (is_truthy backing) then none else some (host.beside link (host.str_of backing))

  -- The links of a candidate, after those before it: each is one, and each but the last names the next.
  pub data IsChain : List String → String → List String → Type 0 where
    standing :
        (before : List String) (candidate link : String) (description : Document)
        → IsLink before candidate link description
        → next_of link description ≡ none
        → IsChain before candidate (link ∷ [])
    layered :
        (before : List String) (candidate link : String) (description : Document) (next : String)
        (links : List String)
        → IsLink before candidate link description
        → next_of link description ≡ some next
        → IsChain (before ++ link ∷ []) next links
        → IsChain before candidate (link ∷ links)

  -- A turn that does not fail, by the link that it found
  abbrev pub Found : List String → String → List String → Option String → Type 0
  Found before candidate walked next =
      (link : String) × (description : Document) × IsLink before candidate link description
      × (walked ≡ before ++ link ∷ [])
      × (next ≡ next_of link description)

  pub turn-Found :
      (candidate : String) (before : List String) {walked : List String} {next : Option String}
      → turn host candidate before ≡ ok (walked, next)
      → Found before candidate walked next
  unfolding turn
  turn-Found candidate before {walked} {next} h =
      let (link, regular, after) = >>=-eq-ok (regular_file host candidate) _ h in
      elim (Bool-cases (contains link before)) [
        | inl seen ↦ cc (rw seen at after)
        | inr fresh ↦
            let (description, tells, found) =
              >>=-eq-ok (describe host before link) _ (rw fresh at after) in
            elim (Bool-cases (is_qcow2 (get "format" description))) [
              | inr f ↦ cc (rw f at found)
              | inl qcow2 ↦
                  let (w, n) =
                    told _ _ (is_truthy (get "backing-filename" description)) (rw qcow2 at found) in
                  (
                    link,
                    description,
                    record { regular = regular; fresh = fresh; tells = tells; qcow2 = qcow2 },
                    w,
                    n,
                  )
            ]
      ]
    where
      told :
          (names : List String) (further : Option String) (truthy : Bool)
          → if◌then◌else◌ {A = Result (List String × Option String)}
              (not truthy)
              (ok (names, none))
              (ok (names, further))
            ≡ ok (walked, next)
          → (walked ≡ names) × (next ≡ (if not truthy then none else further))
      told names further true h = (ground (arith, h), ground (arith, h))
      told names further false h = (ground (arith, h), ground (arith, h))

  turn-IsLink :
      (candidate : String) (before : List String) (link : String) (description : Document)
      → IsLink before candidate link description
      → turn host candidate before ≡ ok (before ++ link ∷ [], next_of link description)
  unfolding turn
  turn-IsLink candidate before link description is_link =
      rw (is_link.regular, is_link.fresh, is_link.tells, is_link.qcow2) (ground arith)

  walk-IsChain :
      (turns : ℕ) (candidate : String) (before : List String) {chain : BackingChain}
      → walk host turns candidate before ≡ some (ok chain)
      → (links : List String) × IsChain before candidate links
        × (chain.links ≡ before ++ links)
        × (length links ≤ turns)
  unfolding walk
  walk-IsChain zero candidate before h = cc
  walk-IsChain (suc turns) candidate before {chain} h =
      elim (Result-cases (turn host candidate before)) [
        | inr (error, e) ↦ ground (arith, rw (walk, e) at h)
        | inl ((walked, none), e) ↦
            let (link, description, is_link, w, n) = turn-Found candidate before e in
            let same : chain.links ≡ walked = ground (arith, rw (walk, e) at h) in
            (
              link ∷ [],
              standing before candidate link description is_link (sym n),
              same ∙ w,
              ground arith,
            )
        | inl ((walked, some next), e) ↦
            let (link, description, is_link, w, n) = turn-Found candidate before e in
            let (links, is_chain, whole, few) =
              walk-IsChain turns next walked (rw (walk, e) at h) in
            (
              link ∷ links,
              layered before candidate link description next links is_link (sym n)
                  (subst (λ names. IsChain names next links) w is_chain),
              whole ∙ ap (λ names. names ++ links) w ∙ append_assoc before (link ∷ []) links,
              omega (arith, few),
            )
      ]

  pub IsChain-walk :
      (turns : ℕ) (candidate : String) (before links : List String)
      → IsChain before candidate links
      → length links ≤ turns
      → walk host turns candidate before ≡ some (ok (record { links = before ++ links }))
  unfolding walk
  IsChain-walk zero _ _ _ (standing before candidate link description is_link n) few =
      ground (arith, few)
  IsChain-walk zero _ _ _ (layered before candidate link description next links is_link n rest)
        few =
      ground (arith, few)
  IsChain-walk (suc turns) _ _ _ (standing before candidate link description is_link n) few =
      rw (walk, turn-IsLink candidate before link description is_link, n) refl
  IsChain-walk (suc turns) _ _ _
        (layered before candidate link description next links is_link n rest) few =
      rw (walk, turn-IsLink candidate before link description is_link, n)
        (IsChain-walk turns next (before ++ link ∷ []) links rest (omega (arith, few))
          ∙ ap (λ names. some (ok (record { links = names })))
              (append_assoc before (link ∷ []) links))

  pub inspect_iff :
      (turns : ℕ) (candidate : String) (chain : BackingChain)
      → (inspect host turns candidate ≡ some (ok chain))
        ↔ (IsChain [] candidate chain.links × (length chain.links ≤ turns))
  inspect_iff turns candidate chain = (
    λ h.
        let (links, is_chain, whole, few) = walk-IsChain turns candidate [] h in
        (subst (IsChain [] candidate) (sym whole) is_chain, rw whole few),
    λ (is_chain, few). IsChain-walk turns candidate [] chain.links is_chain few,
  )

  pub IsChain-Distinct :
      (before : List String) (candidate : String) (links : List String)
      → IsChain before candidate links
      → Distinct links × All (λ link. contains link before ≡ false) links
  IsChain-Distinct _ _ _ (standing before candidate link description is_link n) =
      ((refl, tt), (is_link.fresh, tt))
  IsChain-Distinct _ _ _ (layered before candidate link description next links is_link n rest) =
      let (distinct, away) = IsChain-Distinct (before ++ link ∷ []) next links rest in
      let (others, new) = parted before link links away in
      ((others, distinct), (is_link.fresh, new))
