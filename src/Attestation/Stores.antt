-- ===== src/Attestation/Stores.antt =====
-- src/apex/attestation/proofhashing.py and the two readers of src/apex/attestation/storereaders/: the documents that
-- the older tools left, and the chain beside them. The files of a store are what the file system answers
-- about them.
pub mod Picking
pub mod Newest
pub mod Refusing
pub mod Imported
pub mod Tests
use apex_fedora.Base.{
  Bool, Bytes, Dict, List, Option, String, [], all, if◌then◌else◌, indexed, is_some, keys, length,
  lookup, none, not, pos, some, sorted, true, false, ℕ, ℤ, ◌&&◌, ◌++◌, ◌==◌, ◌||◌, ◌∷◌, values,
}
use apex_fedora.Kernel.Refusals.{path_is_a_symlink, stale_evidence, RefusalReason}
use apex_fedora.Kernel.Errors.{Result, ok, raise, refusal, other_exception, Raised, ◌>>=◌, traverse}
use apex_fedora.Kernel.Claims.{ScopeLimit}
use apex_fedora.Model.Marks.{first_version, second_version}
use apex_fedora.Model.Runtime.{
  Python, ProofReference, StoredRecord, StoredCandidate, read_candidate, read_evidence_record,
}
use apex_fedora.Attestation.Readiness.{ResolvedRecord, Fault}
use apex_fedora.Attestation.Attesting.{
  EntryKind, imported, recorded, is_imported, legacy_limits, Attestation, attestation, check_of,
}
use apex_fedora.Attestation.Columns.{StoreReading, by_check}
use apex_fedora.Attestation.Ledger.{Library, Event, Entry, Sealed, Head, Report}
use apex_fedora.Attestation.Ledger.Chain.{verified}
use apex_fedora.Attestation.Ledger.Opening.{signer_at, read_chain}
use apex_fedora.Attestation.Proofs.{ProofStore, intact}

-- A path as the file system answers about it; `inside` is whether it resolves to a place below the
-- directory of the records.
pub record FileState : Type 0 where
  pub is_symlink : Bool
  pub is_file : Bool
  pub inside : Bool
  pub content : Bytes

-- `path` in the directory of the records, in the order of their names
pub record Document : Type 0 where
  pub name : String
  pub state : FileState

-- The files below the root: the candidate's document if it is a file, the records, any path that a
-- record cites, and the files of the chain: what `read_bytes` answers for each that is there.
pub record Root : Type 0 where
  pub candidate : Option Bytes
  pub evidence : List Document
  pub cited : String → FileState
  pub chain_file : Option (Result Bytes)
  pub key_file : Option (Result Bytes)
  pub head_file : Option (Result Bytes)
  pub objects : ProofStore

-- `str(sealed.entry.event.check)`
abbrev pub check_in : Sealed → String
check_in sealed = sealed.entry.event.check

module _ (lib : Library) (python : Python) where
  -- The tests of `proofs_intact`, on one proof
  abbrev pub proof_intact : Root → ProofReference → Bool
  proof_intact root proof =
      let state = root.cited proof.relative_path in
      not (state.is_symlink || not state.is_file)
      && state.inside
      && lib.sha256 state.content == proof.digest

  unfoldable pub proofs_intact : Root → StoredRecord → Bool
  proofs_intact root stored = all (proof_intact root) stored.proofs

  -- `resolve`
  unfoldable pub resolve : Root → Bool → StoredRecord → ResolvedRecord
  unfolding proofs_intact
  resolve root from_import stored = record {
    check = stored.check;
    verdict = stored.verdict;
    environment = stored.environment;
    candidate = stored.digest;
    proofs_intact = proofs_intact root stored;
    proof_count = length stored.proofs;
    imported = from_import;
  }

  -- What one record of the older tools gives: a fault or an attestation
  pub data Found : Type 0 where
    fault : Fault → Found
    attested : Attestation → Found

  -- `except errors.Refusal`: what else is raised passes
  abbrev pub or_fault : String → Result StoredRecord → (StoredRecord → Result Found) → Result Found
  or_fault name (ok stored) go_on = go_on stored
  or_fault name (raise (refusal reason)) go_on =
      ok (fault (record { reason = reason; check = name }))
  or_fault name (raise error) go_on = raise error

  abbrev pub faulty : RefusalReason → String → Found
  faulty reason name = fault (record { reason = reason; check = name })

  -- The body of the loop over the records
  unfoldable pub read_one :
      EntryKind → List ScopeLimit → Root → Option String → Document → Result Found
  unfolding resolve read_evidence_record attestation
  read_one kind limits root candidate document =
      if document.state.is_symlink || not document.state.is_file
      then ok (faulty path_is_a_symlink document.name)
      else or_fault document.name (read_evidence_record python document.state.content) λ stored.
        if not (is_some candidate)
        then ok (faulty stale_evidence document.name)
        else (attestation kind (resolve root (is_imported kind) stored) limits document.name
            >>= λ item. ok (attested item))

  abbrev pub faults_of : List Found → List Fault
  faults_of [] = []
  faults_of (fault f ∷ found) = f ∷ faults_of found
  faults_of (attested item ∷ found) = faults_of found

  abbrev pub attestations_of : List Found → List Attestation
  attestations_of [] = []
  attestations_of (fault f ∷ found) = attestations_of found
  attestations_of (attested item ∷ found) = item ∷ attestations_of found

  abbrev pub candidate_of : Option Bytes → Result (Option String)
  candidate_of none = ok none
  candidate_of (some content) =
      read_candidate python content >>= λ candidate. ok (some candidate.digest)

  -- `v1_reader.read`, for a specification of the kind and limits given
  unfoldable pub read_first : EntryKind → List ScopeLimit → ℕ → Root → Result StoreReading
  unfolding read_one read_candidate
  read_first kind limits version root = do
    candidate ← candidate_of root.candidate
    found ← traverse (read_one kind limits root candidate) root.evidence
    ok (record {
      version = version;
      attestations = attestations_of found;
      candidate = candidate;
      faults = faults_of found;
    })

  -- `latest`: the last entry of each check
  unfoldable pub latest : List Sealed → Dict Sealed
  unfolding indexed
  latest entries = indexed check_in entries []

  -- `ResolvedRecord(...)` in `_attestation`
  abbrev pub resolved_of : Root → Sealed → ResolvedRecord
  resolved_of root sealed =
      let event = sealed.entry.event in
      record {
        check = event.check;
        verdict = event.verdict;
        environment = event.environment;
        candidate = event.candidate;
        proofs_intact = all (λ digest. intact lib digest root.objects) event.proofs;
        proof_count = length event.proofs;
        imported = false;
      }

  -- `_attestation`; the origin is text that names the sequence
  unfoldable pub attestation_of : Root → Sealed → Result Attestation
  unfolding intact attestation
  attestation_of root sealed =
      attestation recorded (resolved_of root sealed) sealed.entry.event.scope_limits "chain"

  abbrev pub broken : Report → List Fault
  broken report = elim report.first_break [
    | none ↦ []
    | some breakage ↦ record { reason = stale_evidence; check = "the chain breaks" } ∷ []
  ]

  -- `_chain`
  unfoldable pub chain : Root → Result (List Attestation × List Fault)
  unfolding signer_at read_chain verified latest attestation_of
  chain root =
      if not (is_some root.chain_file)
      then ok ([], [])
      else (signer_at lib root.key_file >>= λ signer. elim signer [
        | none ↦
            ok (
              [],
              record { reason = stale_evidence; check = "the chain has no key beside it" } ∷ [],
            )
        | some key ↦
            (read_chain lib root.chain_file root.head_file >>= λ read.
            verified lib key read.0 read.1 >>= λ replayed.
            traverse (attestation_of root) (values (latest replayed.0)) >>= λ items.
            ok (items, broken replayed.1))
      ])

  -- `by_check[name] for name in ...`
  unfoldable pub pick : Dict Attestation → List String → Result (List Attestation)
  unfolding lookup
  pick found [] = ok []
  pick found (name ∷ names) = elim (lookup name found) [
    | none ↦ raise other_exception
    | some item ↦ pick found names >>= λ items. ok (item ∷ items)
  ]

  -- `v2_reader.read`: the documents as the first reader reads them, under its own specification, and what
  -- the chain says over them
  unfoldable pub read_second : Root → Result StoreReading
  unfolding read_first chain by_check pick sorted
  read_second root = do
    legacy ← read_first imported legacy_limits first_version root
    written ← chain root
    let found = by_check written.0 (by_check legacy.attestations [])
    items ← pick found (sorted (keys found))
    ok (record {
      version = second_version;
      attestations = items;
      candidate = legacy.candidate;
      faults = legacy.faults ++ written.1;
    })
