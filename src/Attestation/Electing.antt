-- ===== src/Attestation/Electing.antt =====
-- src/apex/attestation/markclaims.py, readerspecs.py, electing.py and the registry of
-- src/apex/attestation/storereaders/__init__.py: what a reader claims, and which reader a mark elects. What a reader
-- reads is a parameter of its specification.
pub mod Keys
pub mod Claimed
use Prim.Native.Char.{Char}
use Prim.Native.String
use apex_fedora.Base.{
  Bool, Bytes, List, Option, String, [], decimal, eqb, if◌then◌else◌, is_nil, leb, ltb, lookup,
  none, some, ℕ, ◌||◌, ◌∷◌,
}
use apex_fedora.Kernel.Refusals.{malformed_store_mark, store_version_not_supported}
use apex_fedora.Kernel.Errors.{
  Result, ok, raise, raise_if, refusal, precondition_unmet, registration_error, ◌>>=◌, ◌>>◌,
}
use apex_fedora.Kernel.Claims.{ScopeLimit}
use apex_fedora.Registry.Sealing.{Registry, SealedRegistry, Provenance, add, lookup_sealed}
use apex_fedora.Model.Marks.{
  VersionMark, unmarked, marked, unreadable, MarkFile, Loaded, first_version, read_mark,
}
use apex_fedora.Attestation.Attesting.{EntryKind, imported, recorded}

pub data MarkClaim : Type 0 where
  mark_absent : MarkClaim
  mark_equals : ℕ → MarkClaim

-- A decimal digit as a character
abbrev pub digit : ℕ → Char
digit c =
    if eqb c 48
    then "0"
    else if eqb c 49
    then "1"
    else if eqb c 50
    then "2"
    else if eqb c 51
    then "3"
    else if eqb c 52
    then "4"
    else if eqb c 53
    then "5"
    else if eqb c 54
    then "6"
    else if eqb c 55
    then "7"
    else if eqb c 56
    then "8"
    else "9"

abbrev pub digits_text : Bytes → String
digits_text [] = String.[]
digits_text (c ∷ cs) = String.◌∷◌ (digit c) (digits_text cs)

-- `f"mark:{value}"`
abbrev pub mark_key : ℕ → String
mark_key value = String.◌∷◌ "m" (
    String.◌∷◌ "a" (String.◌∷◌ "r" (String.◌∷◌ "k" (String.◌∷◌ ":" (digits_text (decimal value))))))

-- `MarkAbsent.key` and `MarkEquals.key`
unfoldable pub key : MarkClaim → String
unfolding decimal
key mark_absent = "absent"
key (mark_equals value) = mark_key value

-- `key_for`; a mark that cannot be read has no key
unfoldable pub key_for : VersionMark → Option String
unfolding key
key_for unmarked = some (key mark_absent)
key_for (marked version) = some (key (mark_equals version))
key_for unreadable = none

pub record StoreReaderSpec (Read : Type 0) : Type 0 where
  pub version : ℕ
  pub marks : List MarkClaim
  pub read : Read
  pub limits : List ScopeLimit
  pub reads_history : Bool
  pub reads_archives : Bool

module _ {Read : Type 0} where
  -- `StoreReaderSpec(...)`, with its `__post_init__`
  unfoldable pub reader_spec : StoreReaderSpec Read → Result (StoreReaderSpec Read)
  reader_spec spec = do
    raise_if (is_nil spec.marks) registration_error
    raise_if (ltb spec.version first_version) registration_error
    raise_if (spec.reads_history || spec.reads_archives) registration_error
    ok spec

  -- `StoreReaderSpec.kind`
  unfoldable pub kind_of : StoreReaderSpec Read → EntryKind
  kind_of spec = if is_nil spec.limits then recorded else imported

  -- `declare`: the specification under every mark that it claims
  unfoldable pub declare :
      Registry (StoreReaderSpec Read)
      → StoreReaderSpec Read
      → List MarkClaim
      → Provenance
      → Result (Registry (StoreReaderSpec Read))
  unfolding key
  declare collector spec [] at = ok collector
  declare collector spec (claim ∷ claims) at =
      add collector (key claim) spec at >>= λ more. declare more spec claims at

  -- `elect`, over the sealed registry
  unfoldable pub elect :
      SealedRegistry (StoreReaderSpec Read) → VersionMark → Result (StoreReaderSpec Read)
  unfolding key_for
  elect registered mark = elim (key_for mark) [
    | none ↦ raise (refusal malformed_store_mark)
    | some name ↦ elim (lookup name registered.entries) [
      | none ↦ raise (precondition_unmet store_version_not_supported)
      | some spec ↦ lookup_sealed registered name
    ]
  ]

  -- `reader_for`
  unfoldable pub reader_for :
      (Bytes → Loaded)
      → SealedRegistry (StoreReaderSpec Read)
      → MarkFile
      → Result (StoreReaderSpec Read)
  unfolding elect
  reader_for loads registered file = read_mark loads file >>= elect registered
