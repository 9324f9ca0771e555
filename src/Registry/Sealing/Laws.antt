-- ===== src/Registry/Sealing/Laws.antt =====
-- What registering a list of declarations leaves in an open registry (src/apex/registry/registry.py).
use apex_fedora.Base.{
  ==_refl, All, Bool-cases, Distinct, List, String, [], ap, arith, contains, eq_iff, false, has,
  has-insert, has-some, inl, inr, insert, lookup, lookup-insert, refl, some, subst, sym, true, ◌==◌,
  ◌||◌, ◌∙◌, ◌∷◌, ◌≡◌,
}
use apex_fedora.Kernel.Errors.{Result, ok, ◌>>=◌, >>=-eq-ok}
use apex_fedora.Registry.Sealing.{Provenance, Registry, empty, add}

-- A declaration: what is registered under which key, and where.
pub record Declaration (V : Type 0) : Type 0 where
  pub key : String
  pub value : V
  pub at : Provenance

module _ {V : Type 0} where
  -- The declarations of the modules, registered one after another.
  abbrev pub register_all : Registry V → List (Declaration V) → Result (Registry V)
  register_all r [] = ok r
  register_all r (d ∷ ds) = add r d.key d.value d.at >>= λ more. register_all more ds

  abbrev pub keys_of : List (Declaration V) → List String
  keys_of [] = []
  keys_of (d ∷ ds) = d.key ∷ keys_of ds

  -- The registry with one more entry.
  abbrev with_entry : Registry V → Declaration V → Registry V
  with_entry r d = record r {
    entries = insert d.key d.value r.entries;
    origins = insert d.key d.at r.origins;
  }

  -- The entries and the origins of an open registry have the same keys.
  pub record IsOpen (r : Registry V) : Type 0 where
    pub unsealed : r.is_sealed ≡ false
    pub paired : (k : String) → has k r.origins ≡ has k r.entries

  pub IsOpen-empty : IsOpen (empty {V = V})
  unfolding has
  IsOpen-empty = record { unsealed = refl; paired = λ k. refl }

  IsOpen-with_entry : (r : Registry V) (d : Declaration V) → IsOpen r → IsOpen (with_entry r d)
  IsOpen-with_entry r d o = record {
    unsealed = o.unsealed;
    paired = λ k.
        has-insert d.key k d.at r.origins
        ∙ rw (o.paired k) (sym (has-insert d.key k d.value r.entries));
  }

  -- A registration that is not refused found nothing under its key, and adds just that entry.
  add_returns :
      (r : Registry V) (d : Declaration V) {more : Registry V}
      → IsOpen r
      → add r d.key d.value d.at ≡ ok more
      → (has d.key r.entries ≡ false) × (with_entry r d ≡ more)
  unfolding add
  add_returns r d o h = elim (Bool-cases (has d.key r.origins)) [
    | inl t ↦ cc (rw (o.unsealed, t) at h)
    | inr f ↦ (sym (o.paired d.key) ∙ f, cc (rw (o.unsealed, f) at h))
  ]

  -- The declared value and its origin stand under the declared key.
  abbrev pub Holds : Registry V → Declaration V → Type 0
  Holds r d = (lookup d.key r.entries ≡ some d.value) × (lookup d.key r.origins ≡ some d.at)

  Holds-with_entry :
      (r : Registry V) (d held : Declaration V)
      → has d.key r.entries ≡ false
      → Holds r held
      → Holds (with_entry r d) held
  Holds-with_entry r d held fresh (e, o) =
      let apart : (d.key == held.key) ≡ false =
        ground
          (arith, has-some held.key r.entries {v = held.value}, eq_iff d.key held.key, e, fresh) in
      (
        lookup-insert d.key held.key d.value r.entries ∙ rw apart e,
        lookup-insert d.key held.key d.at r.origins ∙ rw apart o,
      )

  Holds-with_entry_self : (r : Registry V) (d : Declaration V) → Holds (with_entry r d) d
  Holds-with_entry_self r d = (
    lookup-insert d.key d.key d.value r.entries ∙ rw ==_refl,
    lookup-insert d.key d.key d.at r.origins ∙ rw ==_refl,
  )

  -- What registering a list of declarations gives, if nothing is refused.
  pub record Registered (r : Registry V) (ds : List (Declaration V)) (more : Registry V)
      : Type 0 where
    pub is_open : IsOpen more
    pub kept : (d : Declaration V) → Holds r d → Holds more d
    pub held : All (Holds more) ds
    pub same : (k : String) → has k more.entries ≡ (contains k (keys_of ds) || has k r.entries)
    pub distinct : Distinct (keys_of ds)
    pub fresh : (k : String) → contains k (keys_of ds) ≡ true → has k r.entries ≡ false

  pub register_all-Registered :
      (r : Registry V) (ds : List (Declaration V)) {more : Registry V}
      → IsOpen r
      → register_all r ds ≡ ok more
      → Registered r ds more
  register_all-Registered r [] o h = subst (Registered r []) (cc) (record {
    is_open = o;
    kept = λ d k. k;
    held = tt;
    same = λ k. refl;
    distinct = tt;
    fresh = λ k h. cc;
  })
  register_all-Registered r (d ∷ ds) {more} o h =
      let (mid, first, later) = >>=-eq-ok (add r d.key d.value d.at) (λ m. register_all m ds) h in
      let (new, made) = add_returns r d o first in
      let rest : Registered (with_entry r d) ds more =
        register_all-Registered (with_entry r d) ds (IsOpen-with_entry r d o)
          (ap (λ m. register_all m ds) made ∙ later) in
      let there : (k : String)
          → has k (insert d.key d.value r.entries) ≡ (d.key == k || has k r.entries) =
        λ k. has-insert d.key k d.value r.entries in
      record {
        is_open = rest.is_open;
        kept = λ e k. rest.kept e (Holds-with_entry r d e new k);
        held = (rest.kept d (Holds-with_entry_self r d), rest.held);
        same = λ k. rest.same k ∙ ground (arith, there k);
        distinct =
            (ground (arith, rest.fresh d.key, there d.key, eq_iff d.key d.key), rest.distinct);
        fresh = λ k m. ground (
          arith,
          rest.fresh k,
          there k,
          new,
          ap (λ j. has j r.entries) {x = d.key} {y = k},
          eq_iff d.key k,
          m,
        );
      }
