-- ===== src/Provisioning/Backing/Walking.antt =====
-- The walk of src/apex/provisioning/backingchain.py ends, and the chain that it returns is one.
use apex_fedora.Base.{
  All, All-append, Bool-cases, Distinct, Distinct-append, List, String, [], arith, contains, eq_iff,
  false, inl, inr, subst, length, length-append, none, not, refl, select, some, suc, true, zero, ℕ,
  ◌+◌, ◌++◌, ◌<◌, ◌==◌, ◌∷◌, ◌≡◌, ◌≤◌, ap, sym,
}
use apex_fedora.Kernel.Errors.{Result, Result-cases, ok, raise}
use apex_fedora.Provisioning.Backing.Layers.{turn-Found}
use apex_fedora.Provisioning.Backing.{Host, BackingChain, regular_file, turn, walk, inspect}

-- A list without a name
without : String → List String → List String
without name = select (λ n. not (n == name))

contains-without :
    (name other : String) (names : List String)
    → (name == other) ≡ false
    → contains other names ≡ true
    → contains other (without name names) ≡ true
unfolding without
contains-without name other [] h m = m
contains-without name other (n ∷ names) h m =
    ground
      (arith, contains-without name other names h, eq_iff n name, eq_iff n other, eq_iff name other)

length-without_le :
    (name : String) (names : List String) → length (without name names) ≤ length names
unfolding without
length-without_le name [] = omega arith
length-without_le name (n ∷ names) = ground (arith, length-without_le name names)

length-without_lt :
    (name : String) (names : List String)
    → contains name names ≡ true
    → length (without name names) < length names
unfolding without
length-without_lt name [] h = cc
length-without_lt name (n ∷ names) h =
    ground (arith, length-without_lt name names, length-without_le name names, h)

-- Names without a repetition are no more than those that they are among.
length-Distinct :
    (names among : List String)
    → Distinct names
    → All (λ n. contains n among ≡ true) names
    → length names ≤ length among
length-Distinct [] among d h = omega arith
length-Distinct (n ∷ names) among (fresh, d) (here, h) =
    let rest = length-Distinct names (without n among) d (kept names fresh h) in
    omega (arith, rest, length-without_lt n among here)
  where
    kept :
        (others : List String)
        → contains n others ≡ false
        → All (λ m. contains m among ≡ true) others
        → All (λ m. contains m (without n among) ≡ true) others
    kept [] away inside = tt
    kept (m ∷ others) away (first, inside) = (
      contains-without n m among (ground (arith, eq_iff n m, eq_iff m n, away)) first,
      kept others (ground (arith, away)) inside,
    )

-- More turns than were needed change nothing.
walk_more :
    (host : Host) (turns more : ℕ) (candidate : String) (before : List String)
    {result : Result BackingChain}
    → walk host turns candidate before ≡ some result
    → turns ≤ more
    → walk host more candidate before ≡ some result
unfolding walk
walk_more host zero more candidate before h le = cc
walk_more host (suc turns) zero candidate before h le = ground (arith, le)
walk_more host (suc turns) (suc more) candidate before {result} h le =
    elim (Result-cases (turn host candidate before)) [
      | inr (error, e) ↦ rw (walk, e) (rw (walk, e) at h)
      | inl ((walked, none), e) ↦ rw (walk, e) (rw (walk, e) at h)
      | inl ((walked, some next), e) ↦
          rw (walk, e)
            (walk_more host turns more next walked (rw (walk, e) at h) (omega (arith, le)))
    ]

-- The regular files below the root are among these.
unfoldable pub Covers : Host → List String → Type 0
Covers host files =
    (path : String)
    → host.is_below path ≡ true
    → host.is_file path ≡ true
    → contains path files ≡ true

regular-covered :
    (host : Host) (files : List String) (candidate : String) {link : String}
    → Covers host files
    → regular_file host candidate ≡ ok link
    → contains link files ≡ true
unfolding Covers regular_file
regular-covered host files candidate covers h = elim (Bool-cases (host.is_symlink candidate)) [
  | inl t ↦ cc (rw (regular_file, t) at h)
  | inr f ↦ elim (Bool-cases (host.is_below (host.resolve candidate))) [
    | inr g ↦ cc (rw (regular_file, f, g) at h)
    | inl below ↦ elim (Bool-cases (host.is_file (host.resolve candidate))) [
      | inr g ↦ cc (rw (regular_file, f, below, g) at h)
      | inl file ↦ ground (
        arith,
        rw (regular_file, f, below, file) at h,
        covers (host.resolve candidate) below file,
      )
    ]
  ]
]

-- One more link, which is among the files and none of those before it
Distinct-snoc :
    (links : List String) (link : String)
    → Distinct links
    → contains link links ≡ false
    → Distinct (links ++ link ∷ [])
Distinct-snoc links link d fresh =
    Distinct-append links (link ∷ []) d (refl, tt)
      (λ a there. ground (arith, fresh, there, eq_iff link a))

walk_ends :
    (host : Host) (files : List String)
    → Covers host files
    → (turns : ℕ) (candidate : String) (before : List String) → Distinct before
    → All (λ link. contains link files ≡ true) before
    → length files < length before + turns
    → (result : Result BackingChain) × (walk host turns candidate before ≡ some result)
unfolding walk
walk_ends host files covers zero candidate before d inside many =
    ground (arith, length-Distinct before files d inside, many)
walk_ends host files covers (suc turns) candidate before d inside many =
    elim (Result-cases (turn host candidate before)) [
      | inr (error, e) ↦ (raise error, rw (walk, e) refl)
      | inl ((walked, none), e) ↦ (ok (record { links = walked }), rw (walk, e) refl)
      | inl ((walked, some next), e) ↦
          let (link, description, is_link, w, n) = turn-Found host candidate before e in
          let (result, ends) =
            walk_ends host files covers turns next walked
              (subst Distinct (sym w) (Distinct-snoc before link d is_link.fresh))
              (subst (All (λ l. contains l files ≡ true)) (sym w) (
                All-append (λ l. contains l files ≡ true) before (link ∷ []) inside
                  (regular-covered host files candidate covers is_link.regular, tt)))
              (ground (arith, many, ap length w, length-append before (link ∷ []))) in
          (result, rw (walk, e) ends)
    ]

-- When the regular files below the root are finitely many, the walk from any candidate ends, whatever
-- the tool answers: one result is what every number of turns gives that is larger than that of the files.
pub inspect_ends :
    (host : Host) (files : List String) (candidate : String)
    → Covers host files
    → (result : Result BackingChain) × ((turns : ℕ)
        → length files < turns
        → inspect host turns candidate ≡ some result)
inspect_ends host files candidate covers =
    let (result, ends) =
      walk_ends host files covers (suc (length files)) candidate [] tt tt (omega arith) in
    (result, λ turns many. walk_more host (suc (length files)) turns candidate [] ends many)
