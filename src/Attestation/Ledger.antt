-- ===== src/Attestation/Ledger.antt =====
-- src/apex/attestation/ledger.py: the append-only chain of entries, its documents, and its replay. What the code
-- takes from Python's standard library is one bundle of functions: hashing, the keyed code, JSON, the
-- conversions `int` and `str`, and the patterns of src/apex/kernel/identifiers.py.
pub mod Parsing
pub mod Chain
pub mod Reading
pub mod Appending
pub mod Growing
pub mod Opening
pub mod Continuing
pub mod Tests
pub mod Torn
use apex_fedora.Base.{
  Bool, Bytes, List, Option, String, [], eqb, false, map, suc, zero, ℕ, ◌*◌, ◌+◌, ◌∷◌,
}
pub use apex_fedora.Base.{ℤ, pos, negsuc, same_integer}
use apex_fedora.Kernel.Errors.{Result}
use apex_fedora.Kernel.Verdicts.{Verdict, stored_name}
use apex_fedora.Kernel.Claims
use apex_fedora.Kernel.Claims.{
  EnvironmentKind, build, build_container, vm, live_vm, installer_vm, physical, operator, simulated,
  ScopeLimit, physical_hardware, failed_deployment_recovery, secure_boot, upstream_prose_unverified,
  legacy_no_port_proof, legacy_no_candidate_readback, limit_value, require_attestable,
}
use apex_fedora.Attestation.Attesting.{EntryKind, recorded, imported}

-- `sequence + 1`
abbrev pub next : ℤ → ℤ
next (pos n) = pos (n + 1)
next (negsuc zero) = pos 0
next (negsuc (suc n)) = negsuc n

-- `expected - 1`
abbrev pub before : ℕ → ℤ
before zero = negsuc 0
before (suc n) = pos n

-- A JSON value; `other` stands for the numbers, truth values and null that no document here has.
mutual
  pub data Json : Type 0 where
    text : String → Json
    integer : ℤ → Json
    other : Json
    array : Items → Json
    object : Fields → Json

  pub data Items : Type 0 where
    no_items : Items
    item : Json → Items → Items

  pub data Fields : Type 0 where
    no_fields : Fields
    field : String → Json → Fields → Fields

-- What `json.loads` does: it answers, it raises JSONDecodeError, or it raises another ValueError, as for bytes
-- that are no text.
pub data Decoded : Type 0 where
  decoded : Json → Decoded
  not_json undecodable : Decoded

-- What the code calls of the standard library.
pub record Library : Type 0 where
  pub encode : String → Bytes
  pub sha256 : Bytes → String
  pub hmac : String → Bytes → String
  pub dumps : Json → Bytes
  pub loads : Bytes → Decoded
  pub is_ascii : String → Bool
  -- `content.decode(errors="replace").strip()`, as code points, and the text that code points spell
  pub stripped : Bytes → List ℕ
  pub spelled : List ℕ → String
  -- `int(value)`, where TypeError and ValueError are `ok none`: an OverflowError of an infinity is raised.
  pub int_of : Json → Result (Option ℤ)
  pub str_of : Json → String
  pub is_digest : String → Bool
  pub is_check : String → Bool

pub record Event : Type 0 where
  pub kind : EntryKind
  pub check : String
  pub verdict : Verdict
  pub environment : EnvironmentKind
  pub candidate : String
  pub proofs : List String
  pub scope_limits : List ScopeLimit

pub record Entry : Type 0 where
  pub sequence : ℤ
  pub stamp : String
  pub event : Event

pub record Sealed : Type 0 where
  pub entry : Entry
  pub link : String
  pub tag : String

pub record Head : Type 0 where
  pub sequence : ℤ
  pub link : String

pub data Break : Type 0 where
  malformed_line sequence_out_of_order link_mismatch mac_mismatch head_ahead_of_chain : Break

pub record Breakage : Type 0 where
  pub sequence : ℤ
  pub cause : Break

pub record Report : Type 0 where
  pub entries : ℕ
  pub first_break : Option Breakage

abbrev pub line_limit : ℕ
line_limit = 1024 * 1024

-- `"0" * 64`
abbrev pub genesis : String
genesis = "0000000000000000000000000000000000000000000000000000000000000000"

abbrev pub empty_head : Head
empty_head = record { sequence = negsuc 0; link = genesis }

unfoldable pub kind_value : EntryKind → String
kind_value recorded = "recorded"
kind_value imported = "imported"

abbrev pub texts : List String → Items
texts [] = no_items
texts (s ∷ ss) = item (text s) (texts ss)

-- `Entry.document`; the keys stand in the order in which `canonical` writes them.
unfoldable pub entry_document : Entry → Json
unfolding kind_value stored_name Claims.value limit_value
entry_document entry = object (
    field "candidate" (text entry.event.candidate) (
      field "check" (text entry.event.check) (
        field "environment" (text (Claims.value entry.event.environment)) (
          field "kind" (text (kind_value entry.event.kind)) (
            field "proofs" (array (texts entry.event.proofs)) (
              field "scope_limits" (array (texts (map limit_value entry.event.scope_limits))) (
                field "sequence" (integer entry.sequence) (
                  field "stamp" (text entry.stamp)
                    (field "verdict" (text (stored_name entry.event.verdict)) no_fields)))))))))

-- `Sealed.line`, before it is rendered
unfoldable pub line_document : Sealed → Json
unfolding entry_document
line_document sealed = object (
    field "entry" (entry_document sealed.entry)
      (field "link" (text sealed.link) (field "mac" (text sealed.tag) no_fields)))
