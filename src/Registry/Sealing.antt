-- ===== src/Registry/Sealing.antt =====
-- src/apex/registry/registry.py: a keyed collection, open for registration and then sealed for reading.
pub mod Laws
pub mod Sealed
use apex_fedora.Base.{
  Bool, Dict, Option, String, [], false, has, if◌then◌else◌, insert, lookup, none, some, sorted_by,
  true, ℕ, ◌∷◌,
}
use apex_fedora.Kernel.Errors.{Result, ok, raise, registration_error, other_exception, ◌>>=◌}

-- registry/provenance.py: where a unit was declared.
pub record Provenance : Type 0 where
  pub module_name : String
  pub qualname : String
  pub line : ℕ

-- `SealedRegistry[str, V]`; every registry of the code has text keys.
pub record SealedRegistry {ℓ} (V : Type ℓ) : Type ℓ where
  pub entries : Dict V
  pub origins : Dict Provenance

-- `Registry[str, V]`
pub record Registry {ℓ} (V : Type ℓ) : Type ℓ where
  pub entries : Dict V
  pub origins : Dict Provenance
  pub is_sealed : Bool

-- `Registry(kind)`
abbrev pub empty {ℓ} : {V : Type ℓ} → Registry V
empty = record { entries = []; origins = []; is_sealed = false }

-- A lookup that raises for a missing key.
abbrev pub or_raise {ℓ} : {A : Type ℓ} → Option A → Result A
or_raise none = raise registration_error
or_raise (some v) = ok v

module _ {ℓ} {V : Type ℓ} where
  -- `Registry.add`
  unfoldable pub add : Registry V → String → V → Provenance → Result (Registry V)
  add r key value at =
      if r.is_sealed
      then raise registration_error
      else if has key r.origins
      then raise registration_error
      else ok (record r { entries = insert key value r.entries; origins = insert key at r.origins })

  -- `Registry.lookup`: an open registry answers nothing, and says so.
  unfoldable pub lookup_open : Registry V → String → Result V
  lookup_open r key = raise registration_error

  -- `{key: origins[key] for key in ordered}`, whose subscript raises KeyError.
  unfoldable pub origins_of : Dict V → Dict Provenance → Result (Dict Provenance)
  origins_of [] origins = ok []
  origins_of ((key, value) ∷ rest) origins = elim (lookup key origins) [
    | none ↦ raise other_exception
    | some at ↦ origins_of rest origins >>= λ more. ok ((key, at) ∷ more)
  ]

  -- `Registry.seal`: the registry is marked, and its entries are handed out in the order of keys.
  unfoldable pub seal : Registry V → Result (Registry V × SealedRegistry V)
  unfolding origins_of
  seal r =
      if r.is_sealed
      then raise registration_error
      else let ordered : Dict V = sorted_by (λ item. item.0) r.entries in
        origins_of ordered r.origins >>= λ origins.
        ok (record r { is_sealed = true }, record { entries = ordered; origins = origins })

  -- `SealedRegistry.lookup`
  unfoldable pub lookup_sealed : SealedRegistry V → String → Result V
  lookup_sealed s key = or_raise (lookup key s.entries)

  -- `SealedRegistry.provenance`
  unfoldable pub provenance : SealedRegistry V → String → Result Provenance
  provenance s key = elim (lookup key s.origins) [ none ↦ raise other_exception | some at ↦ ok at ]
