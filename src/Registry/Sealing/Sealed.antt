-- ===== src/Registry/Sealing/Sealed.antt =====
-- What a sealed registry holds, and what sealing ends (src/apex/registry/registry.py).
use apex_fedora.Base.{
  All, All-has, All-mono, All-sort_by, Bool-cases, Dict, Distinct, List, String, [], ap, contains,
  eq_iff, false, has, has-false, has-some, has-true, inl, inr, lookup, lookup-sorted_by, refl, some,
  sorted_by, str_leb, sym, true, ◌==◌, ◌∙◌, ◌∷◌, ◌≡◌,
}
use apex_fedora.Kernel.Errors.{ok, raise, registration_error}
use apex_fedora.Registry.Sealing.{
  Provenance, Registry, SealedRegistry, empty, add, seal, origins_of, lookup_sealed, provenance,
}
use apex_fedora.Registry.Sealing.Laws.{
  Declaration, register_all, keys_of, IsOpen, IsOpen-empty, Holds, Registered,
  register_all-Registered,
}

module _ {V : Type 0} where
  -- The origins of all the entries are found, each under its key.
  origins_of_returns :
      (d : Dict V) (origins : Dict Provenance)
      → All (λ item. has item.0 origins ≡ true) d
      → (found : Dict Provenance) × (origins_of d origins ≡ ok found)
        × ((k : String) → has k d ≡ true → lookup k found ≡ lookup k origins)
  unfolding origins_of has lookup
  origins_of_returns [] origins h = ([], refl, λ k m. cc)
  origins_of_returns ((j, v) ∷ d) origins h =
      let (at, e) = has-true j origins h.0 in
      let (found, made, same) = origins_of_returns d origins h.1 in
      (
        (j, at) ∷ found,
        elim_origins j v d origins e made,
        λ k m. elim (Bool-cases (j == k)) [
          | inl t ↦ rw t (sym e ∙ ap (λ i. lookup i origins) ((eq_iff j k).0 t))
          | inr f ↦ rw f (same k (rw f at m))
        ],
      )
    where
      elim_origins :
          (j : String) (v : V) (d : Dict V) (origins : Dict Provenance) {at : Provenance}
          {found : Dict Provenance}
          → lookup j origins ≡ some at
          → origins_of d origins ≡ ok found
          → origins_of ((j, v) ∷ d) origins ≡ ok ((j, at) ∷ found)
      elim_origins j v d origins e made = rw (e, origins_of, made)

  -- The declared value and its origin are what the sealed registry answers.
  abbrev pub Answers : SealedRegistry V → Declaration V → Type 0
  Answers s d = (lookup_sealed s d.key ≡ ok d.value) × (provenance s d.key ≡ ok d.at)

  -- No entry can be added any more, and nothing is sealed twice.
  abbrev pub IsClosed : Registry V → Type 0
  IsClosed r =
      ((k : String) (v : V) (at : Provenance) → add r k v at ≡ raise registration_error)
      × (seal r ≡ raise registration_error)

  -- What a sealed registry is for the declarations that were made.
  pub record IsSealOf (ds : List (Declaration V)) (r : Registry V) (s : SealedRegistry V)
      : Type 0 where
    pub answers : All (Answers s) ds
    pub distinct : Distinct (keys_of ds)
    pub unknown :
        (k : String)
        → contains k (keys_of ds) ≡ false
        → lookup_sealed s k ≡ raise registration_error
    pub closed : IsClosed r

  -- What the sealed entries and origins answer to a declaration that the registry holds.
  Holds-Answers :
      (r : Registry V) (d : Declaration V) (found : Dict Provenance)
      → Holds r d
      → ((k : String)
          → has k (sorted_by (λ item. item.0) r.entries) ≡ true
          → lookup k found ≡ lookup k r.origins)
      → Answers (record { entries = sorted_by (λ item. item.0) r.entries; origins = found }) d
  unfolding lookup_sealed provenance
  Holds-Answers r d found (e, o) same =
      let here = lookup-sorted_by d.key r.entries ∙ e in
      (
        rw (here, lookup_sealed),
        rw (
          provenance,
          same d.key (has-some d.key (sorted_by (λ item. item.0) r.entries) here) ∙ o,
        ),
      )

  -- A key that was not declared is refused.
  unknown_refused :
      (ds : List (Declaration V)) (r : Registry V) (k : String) (found : Dict Provenance)
      → Registered empty ds r
      → contains k (keys_of ds) ≡ false
      → lookup_sealed (record { entries = sorted_by (λ item. item.0) r.entries; origins = found }) k
        ≡ raise registration_error
  unfolding lookup_sealed has
  unknown_refused ds r k found g m =
      rw (lookup-sorted_by k r.entries ∙ has-false k r.entries (g.same k ∙ rw m refl))

  -- The ordered entries of an open registry have their origins.
  ordered_found :
      (r : Registry V)
      → IsOpen r
      → All (λ item. has item.0 r.origins ≡ true) (sorted_by (λ item. item.0) r.entries)
  unfolding sorted_by
  ordered_found r o =
      All-sort_by (λ item. has item.0 r.origins ≡ true) (λ x y. str_leb x.0 y.0) r.entries
        (All-has r.entries r.origins (λ k m. o.paired k ∙ m))

  seal_returns :
      (r : Registry V) {found : Dict Provenance}
      → IsOpen r
      → origins_of (sorted_by (λ item. item.0) r.entries) r.origins ≡ ok found
      → seal r
        ≡ ok (
          record r { is_sealed = true },
          record { entries = sorted_by (λ item. item.0) r.entries; origins = found },
        )
  unfolding seal
  seal_returns r o made = rw (o.unsealed, made)

  sealed_IsClosed : (r : Registry V) → IsClosed (record r { is_sealed = true })
  unfolding seal add
  sealed_IsClosed r = (λ k v at. refl, refl)

  seal-Registered :
      (ds : List (Declaration V)) (r : Registry V)
      → Registered empty ds r
      → (after : Registry V) × (s : SealedRegistry V) × (seal r ≡ ok (after, s))
        × IsSealOf ds after s
  seal-Registered ds r g =
      let (found, made, same) =
        origins_of_returns (sorted_by (λ item. item.0) r.entries) r.origins
          (ordered_found r g.is_open) in
      (
        record r { is_sealed = true },
        record { entries = sorted_by (λ item. item.0) r.entries; origins = found },
        seal_returns r g.is_open made,
        record {
          answers = All-mono (λ d h. Holds-Answers r d found h same) ds g.held;
          distinct = g.distinct;
          unknown = λ k m. unknown_refused ds r k found g m;
          closed = sealed_IsClosed r;
        },
      )

  -- Whatever is registered without a refusal can be sealed: then every declared key answers with
  -- what was declared under it and where, every other key is refused, no key was declared twice, and
  -- neither a registration nor a second seal is accepted afterwards.
  pub register_all-seal :
      (ds : List (Declaration V)) (r : Registry V)
      → register_all empty ds ≡ ok r
      → (after : Registry V) × (s : SealedRegistry V) × (seal r ≡ ok (after, s))
        × IsSealOf ds after s
  register_all-seal ds r h = seal-Registered ds r (register_all-Registered empty ds IsOpen-empty h)
