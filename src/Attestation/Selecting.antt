-- ===== src/Attestation/Selecting.antt =====
-- src/apex/attestation/selecting.py: a verified build becomes the candidate under test, and the one before it is
-- archived under its run. The paths are below the runtime root; JSON is a parameter.
pub mod Kept
pub mod Tests
use apex_fedora.Base.{
  Bool, Bytes, Dict, List, Option, String, [], false, if◌then◌else◌, insert, none, not, some, ◌++◌,
  ◌==◌, ◌∷◌,
}
use apex_fedora.Kernel.Refusals.{malformed_identifier}
use apex_fedora.Kernel.Errors.{Result, ok, raise, refusal, other_exception, ◌>>=◌}
use apex_fedora.Kernel.Documents.{JsonValue, text, object, Document, no_fields, field, get, has_key}
use apex_fedora.Kernel.Identifiers.{parse_digest, digest_text}
use apex_fedora.Model.Marks.{Loaded, loaded, not_json, not_text}
use apex_fedora.Model.Runtime.{Python}

-- The candidate's document, if there is one, and the archived ones by their runs
pub record Shelf : Type 0 where
  pub candidate : Option Bytes
  pub archives : Dict Bytes

-- The port of the files: what it reads, bounded, and whether a directory, a copy and a write are made
pub record Files : Type 0 where
  pub read_bytes : Bytes → Result Bytes
  pub make_directory : String → Result (Unit {0})
  pub copy : String → Result (Unit {0})
  pub write_atomic : Bytes → Result (Unit {0})

pub record Selected : Type 0 where
  pub digest : String
  pub build : String
  pub previous : Option String
  pub archived : Option String

-- `loaded["digest"]`, which only a mapping has: a KeyError or a TypeError is refused.
abbrev pub digest_in : Loaded → Result JsonValue
digest_in (loaded (object document)) =
    if has_key "digest" document
    then ok (get "digest" document)
    else raise (refusal malformed_identifier)
digest_in (loaded _) = raise (refusal malformed_identifier)
digest_in not_json = raise (refusal malformed_identifier)
digest_in not_text = raise other_exception

-- The document that is written, in the order of the code
abbrev pub candidate_document : String → String → Document → Document
candidate_document digest build verification =
    field "digest" (text (digest_text digest))
      (field "build_id" (text build) (field "verification" (object verification) no_fields))

-- `previous is not None and previous != digest`
abbrev pub is_another : Option String → String → Bool
is_another none digest = false
is_another (some earlier) digest = not (earlier == digest)

-- `files.copy`, of the candidate's document into the archive of a run
abbrev pub archive : String → Shelf → Shelf
archive run shelf = elim shelf.candidate [
  | none ↦ shelf
  | some content ↦ record shelf { archives = insert run content shelf.archives }
]

module _ (python : Python) (canonical : Document → Bytes) (files : Files) where
  -- `_previous`
  unfoldable pub previous_of : Option Bytes → Result (Option String)
  unfolding parse_digest
  previous_of none = ok none
  previous_of (some content) = do
    bytes ← files.read_bytes content
    value ← digest_in (python.loads bytes)
    digest ← parse_digest (python.str_of value)
    ok (some digest)

  -- The document of a candidate as it is written
  abbrev pub written : String → String → Document → Bytes
  written digest build verification =
      canonical (candidate_document digest build verification) ++ 10 ∷ []

  -- The archive of the candidate before, if it is another one
  unfoldable pub keep : Bool → String → Shelf → Result (Unit {0}) × Shelf
  keep another run shelf =
      if another
      then elim (files.make_directory run >>= λ _. files.copy run) [
        | raise error ↦ (raise error, shelf)
        | ok done ↦ (ok tt, archive run shelf)
      ]
      else (ok tt, shelf)

  unfoldable pub select : String → String → Document → String → Shelf → Result Selected × Shelf
  unfolding previous_of keep
  select digest build verification run shelf = elim (previous_of shelf.candidate) [
    | raise error ↦ (raise error, shelf)
    | ok previous ↦
        let another = is_another previous digest in
        let (copied, kept) = keep another run shelf in
        let content = written digest build verification in
        elim (copied >>= λ _. files.write_atomic content) [
          | raise error ↦ (raise error, kept)
          | ok done ↦ (
            ok (record {
              digest = digest;
              build = build;
              previous = previous;
              archived = if another then some run else none;
            }),
            record kept { candidate = some content },
          )
        ]
  ]
