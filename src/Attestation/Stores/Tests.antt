-- ===== src/Attestation/Stores/Tests.antt =====
-- The theorems on the readers of a store and on their election, applied to one small store.
use apex_fedora.Base.{
  All, Bytes, List, String, [], false, length, none, pos, refl, some, true, ◌+◌, ◌∷◌, ◌≡◌, ◌↔◌, has,
  insert, split, suc, zero, ℕ, lookup, indexed, sorted, sorted_by, sort_by, insert_by,
}
use apex_fedora.Kernel.Refusals.{malformed_store_mark, malformed_identifier, stale_evidence}
use apex_fedora.Kernel.Errors.{ok, raise, refusal}
use apex_fedora.Kernel.Verdicts.{passed, stored_name}
use apex_fedora.Kernel.Claims
use apex_fedora.Kernel.Claims.{live_vm, build, limit_value}
use apex_fedora.Kernel.Documents
use apex_fedora.Kernel.Documents.{JsonValue}
use apex_fedora.Registry.Sealing.{Provenance, Registry, SealedRegistry, add, empty, seal}
use apex_fedora.Model.Marks.{Loaded, loaded, not_json, VersionMark, unreadable}
use apex_fedora.Model.Runtime.{Python, read_evidence_record, document_of, environment}
use apex_fedora.Kernel.Identifiers
use apex_fedora.Kernel.Identifiers.{dotted_name, parse_digest}
use apex_fedora.Kernel.Verdicts
use apex_fedora.Attestation.Attesting.{recorded, imported, legacy_limits, attestation}
use apex_fedora.Attestation.Columns.{StoreReading, by_check}
use apex_fedora.Attestation.Electing.{
  MarkClaim, mark_absent, mark_equals, StoreReaderSpec, elect, declare, key,
}
use apex_fedora.Attestation.Electing.Keys.{claim_of}
use apex_fedora.Attestation.Electing.Claimed.{declare_all, IsElected, elect-IsElected}
use apex_fedora.Attestation.Ledger
use apex_fedora.Attestation.Ledger.{Library, Sealed, line_document, genesis}
use apex_fedora.Attestation.Stores.{
  FileState, Root, candidate_of, read_first, read_second, read_one, chain, latest, attestation_of,
  pick, resolve, proofs_intact,
}
use apex_fedora.Attestation.Proofs.{intact}
use apex_fedora.Attestation.Ledger.Parsing.{
  environment_of, kind_of, parse_line, event_in, parse_document,
}
use apex_fedora.Attestation.Ledger.Chain.{
  verified, verify_from, line_break, head_break, link_after, confirms, sign,
}
use apex_fedora.Attestation.Ledger.Opening.{parse_head, signer_at, read_chain, stored_head}
use apex_fedora.Attestation.Stores.Imported.{readable, IsImport, read_first_iff}
use apex_fedora.Attestation.Stores.Newest.{IsNewest, read_second-IsNewest}

abbrev digest : String
digest = "0123456789abcdef0123456789abcdef0123456789abcdef0123456789abcdef"

-- The only entry of the chain
abbrev entry : Sealed
entry = record {
  entry = record {
    sequence = pos 0;
    stamp = "noon";
    event = record {
      kind = recorded;
      check = "boots";
      verdict = passed;
      environment = live_vm;
      candidate = digest;
      proofs = [];
      scope_limits = [];
    };
  };
  link = "link";
  tag = "tag";
}

abbrev lib : Library
lib = record {
  encode = λ s. [];
  sha256 = λ b. "link";
  hmac = λ key b. "tag";
  dumps = λ j. [];
  loads = λ b. Ledger.decoded (line_document entry);
  is_ascii = λ s. true;
  stripped = λ b. b;
  spelled = λ cs. "key";
  int_of = λ j. elim j [ Ledger.integer n ↦ ok (some n) | _ ↦ ok none ];
  str_of = λ j. elim j [ Ledger.text s ↦ s | _ ↦ "" ];
  is_digest = λ s. true;
  is_check = λ s. true;
}

-- A record of the older tools, of the same check
abbrev older : JsonValue
older = Documents.object (
    Documents.field "check" (Documents.text "boots") (
      Documents.field "digest" (Documents.text digest) (
        Documents.field "status" (Documents.text "PASS") (
          Documents.field "environment"
            (Documents.object (Documents.field "kind" (Documents.text "build") Documents.no_fields))
            Documents.no_fields))))

abbrev decoded : Bytes → Loaded
decoded [] = not_json
decoded (c ∷ cs) = loaded older

abbrev python : Python
python = record { loads = decoded; str_of = λ v. elim v [ Documents.text s ↦ s | _ ↦ "" ] }

abbrev file : Bytes → FileState
file content = record { is_symlink = false; is_file = true; inside = true; content = content }

-- A key of so many characters
abbrev letters : ℕ → Bytes
letters zero = []
letters (suc n) = 97 ∷ letters n

abbrev root : Root
root = record {
  candidate = none;
  evidence =
      record { name = "boots.json"; state = file (123 ∷ []) }
      ∷ record { name = "torn.json"; state = file [] }
      ∷ [];
  cited = λ path. file [];
  chain_file = some (ok (1 ∷ 10 ∷ []));
  key_file = some (ok (letters 64));
  head_file = none;
  objects = record { objects = []; absorbed = 0 };
}

no_candidate : candidate_of lib python root.candidate ≡ ok none
no_candidate = refl

read_first_iff_example :
    ((reading : StoreReading) × (read_first lib python imported legacy_limits 1 root ≡ ok reading)
      × All (IsImport lib python) reading.attestations
      × (length reading.faults + length reading.attestations ≡ length root.evidence))
    ↔ All (λ d. readable lib python d ≡ true) root.evidence
read_first_iff_example = read_first_iff lib python root no_candidate

abbrev stated : StoreReading
stated = record {
  version = 2;
  attestations =
      record {
        kind = recorded;
        resolved = record {
          check = "boots";
          verdict = passed;
          environment = live_vm;
          candidate = digest;
          proofs_intact = true;
          proof_count = 0;
          imported = false;
        };
        limits = [];
        origin = "chain";
      }
      ∷ [];
  candidate = none;
  faults =
      record { reason = stale_evidence; check = "boots.json" }
      ∷ record { reason = malformed_identifier; check = "torn.json" }
      ∷ [];
}

root_read : read_second lib python root ≡ ok stated
unfolding read_second read_first read_one read_evidence_record document_of environment
    environment_of dotted_name parse_digest Identifiers.digest Verdicts.parse chain latest indexed
    insert attestation_of attestation by_check pick lookup sorted sorted_by sort_by insert_by
    signer_at read_chain stored_head parse_head split verified verify_from line_break parse_line
    parse_document event_in head_break link_after confirms sign stored_name Claims.value limit_value
    intact resolve proofs_intact kind_of line_document
root_read = refl

read_second-IsNewest_example : (legacy : StoreReading) × IsNewest lib python root legacy stated
read_second-IsNewest_example = read_second-IsNewest lib python root root_read

-- The two readers of the code, whatever they read
abbrev first_reader : StoreReaderSpec (Unit {0})
first_reader = record {
  version = 1;
  marks = mark_absent ∷ mark_equals 1 ∷ [];
  read = tt;
  limits = legacy_limits;
  reads_history = false;
  reads_archives = false;
}

abbrev second_reader : StoreReaderSpec (Unit {0})
second_reader = record {
  version = 2;
  marks = mark_equals 2 ∷ [];
  read = tt;
  limits = [];
  reads_history = false;
  reads_archives = false;
}

abbrev place : Provenance
place = record { module_name = "apex.attestation.storereaders"; qualname = "declare"; line = 1 }

abbrev readers : List (StoreReaderSpec (Unit {0}) × Provenance)
readers = (first_reader, place) ∷ (second_reader, place) ∷ []

abbrev collected : Registry (StoreReaderSpec (Unit {0}))
collected = record {
  entries = ("absent", first_reader) ∷ ("mark:1", first_reader) ∷ ("mark:2", second_reader) ∷ [];
  origins = ("absent", place) ∷ ("mark:1", place) ∷ ("mark:2", place) ∷ [];
  is_sealed = false;
}

readers_declared : declare_all empty readers ≡ ok collected
unfolding declare key add has insert
readers_declared = refl

elect-IsElected_example :
    (after : Registry (StoreReaderSpec (Unit {0}))) × (s : SealedRegistry
      (StoreReaderSpec (Unit {0})))
    × (seal collected ≡ ok (after, s))
    × ((mark : VersionMark) (wanted : MarkClaim)
        → claim_of mark ≡ some wanted
        → IsElected readers wanted (elect s mark))
    × (elect s unreadable ≡ raise (refusal malformed_store_mark))
elect-IsElected_example = elect-IsElected readers readers_declared
