-- ===== src/Model/Runtime.antt =====
-- src/apex/model/runtimestate.py: the documents that the older tools wrote, read where they lie.
use apex_fedora.Base.{Bytes, List, Option, String, [], if◌then◌else◌, none, not, some, ◌||◌}
use apex_fedora.Kernel.Refusals.{
  malformed_identifier, malformed_proof_reference, no_verified_result,
}
use apex_fedora.Kernel.Errors.{Result, ok, raise, refusal, other_exception, traverse, ◌>>=◌}
use apex_fedora.Kernel.Verdicts
use apex_fedora.Kernel.Verdicts.{Verdict}
use apex_fedora.Kernel.Claims.{EnvironmentKind}
use apex_fedora.Kernel.Documents.{
  JsonValue, text, array, object, Document, no_fields, get, get_or, has_key, items_of,
}
use apex_fedora.Kernel.Identifiers.{parse_digest, hex_identifier, dotted_name}
use apex_fedora.Model.Marks.{Loaded, loaded, not_json, not_text}
use apex_fedora.Attestation.Ledger.Parsing.{environment_of}

-- `json.loads` and `str` of a JSON value
pub record Python : Type 0 where
  pub loads : Bytes → Loaded
  pub str_of : JsonValue → String

pub record ProofReference : Type 0 where
  pub relative_path : String
  pub digest : String

pub record StoredCandidate : Type 0 where
  pub digest : String
  pub build : String
  pub verification : Document

-- The description and the dates are text that no code reads.
pub record StoredRecord : Type 0 where
  pub check : String
  pub digest : String
  pub verdict : Verdict
  pub environment : EnvironmentKind
  pub proofs : List ProofReference

-- `_document`
unfoldable pub document_of : Loaded → Result Document
document_of (loaded (object document)) = ok document
document_of (loaded _) = raise (refusal malformed_identifier)
document_of not_json = raise (refusal malformed_identifier)
document_of not_text = raise other_exception

abbrev pub object_of : JsonValue → Option Document
object_of (object document) = some document
object_of _ = none

abbrev pub list_of : JsonValue → List JsonValue
list_of (array items) = items_of items
list_of _ = []

module _ (python : Python) where
  -- `_environment`, without the description
  unfoldable pub environment : Document → Result EnvironmentKind
  environment document = elim (object_of (get "environment" document)) [
    | none ↦ raise (refusal malformed_identifier)
    | some raw ↦ elim (environment_of (python.str_of (get "kind" raw))) [
      | none ↦ raise (refusal malformed_identifier)
      | some kind ↦ ok kind
    ]
  ]

  -- `_proof_reference`
  unfoldable pub proof_reference : JsonValue → Result ProofReference
  unfolding parse_digest
  proof_reference entry = elim (object_of entry) [
    | none ↦ raise (refusal malformed_proof_reference)
    | some entry_document ↦
        if not (has_key "path" entry_document) || not (has_key "sha256" entry_document)
        then raise (refusal malformed_proof_reference)
        else (parse_digest (python.str_of (get "sha256" entry_document)) >>= λ digest.
            ok (record {
              relative_path = python.str_of (get "path" entry_document);
              digest = digest;
            }))
  ]

  abbrev pub mapping_or_empty : JsonValue → Document
  mapping_or_empty (object document) = document
  mapping_or_empty _ = no_fields

  abbrev pub text_at : String → Document → String
  text_at key document = python.str_of (get_or (text "") key document)

  unfoldable pub read_candidate : Bytes → Result StoredCandidate
  unfolding document_of parse_digest hex_identifier
  read_candidate content = do
    document ← document_of (python.loads content)
    digest ← parse_digest (text_at "digest" document)
    build ← hex_identifier (text_at "build_id" document)
    ok (record {
      digest = digest;
      build = build;
      verification = mapping_or_empty (get "verification" document);
    })

  unfoldable pub read_evidence_record : Bytes → Result StoredRecord
  unfolding document_of environment proof_reference dotted_name parse_digest
  read_evidence_record content = do
    document ← document_of (python.loads content)
    kind ← environment document
    references ← traverse proof_reference (list_of (get "proof" document))
    check ← dotted_name (text_at "check" document)
    digest ← parse_digest (text_at "digest" document)
    verdict ← Verdicts.parse (text_at "status" document) no_verified_result
    ok (record {
      check = check;
      digest = digest;
      verdict = verdict;
      environment = kind;
      proofs = references;
    })
