-- ===== src/Attestation/Ledger/Chain.antt =====
-- `Ledger.append` and `verified` of src/apex/attestation/ledger.py. The store is the lines of the chain and the
-- head record beside them; the key is what the signer holds.
use apex_fedora.Base.{
  Bool, Bytes, List, Option, String, [], if◌then◌else◌, none, not, some, ℕ, ◌++◌, ◌+◌, ◌==◌, ◌||◌,
  ◌∷◌,
}
use apex_fedora.Kernel.Errors.{Result, ok, raise, other_exception, ◌>>=◌}
use apex_fedora.Kernel.Claims.{require_attestable}
use apex_fedora.Attestation.Ledger.{
  pos, same_integer, next, before, Json, text, integer, object, field, no_fields, Library, Event,
  Entry, Sealed, Head, malformed_line, sequence_out_of_order, link_mismatch, mac_mismatch,
  head_ahead_of_chain, Breakage, Report, genesis, entry_document, line_document,
}
use apex_fedora.Attestation.Ledger.Parsing.{parse_line}

-- `Ledger`, with the two files that it writes
pub record Store : Type 0 where
  pub head : Head
  pub lines : List Bytes
  pub head_record : Option Bytes

-- The document of a head record, as `append` writes it; the keys stand in the canonical order.
unfoldable pub head_document : Head → Json
head_document head =
    object (field "link" (text head.link) (field "sequence" (integer head.sequence) no_fields))

module _ (lib : Library) where
  unfoldable pub link_after : String → Entry → String
  link_after previous entry = lib.sha256 (lib.encode previous ++ lib.dumps (entry_document entry))

  -- `ChainSigner.sign`
  unfoldable pub sign : String → String → String
  sign key link = lib.hmac key (lib.encode link)

  -- `ChainSigner.confirms`; `hmac.compare_digest` raises for a text that is not ASCII.
  unfoldable pub confirms : String → String → String → Result Bool
  unfolding sign
  confirms key link tag =
      if lib.is_ascii tag then ok (sign key link == tag) else raise other_exception

  -- `Sealed.line`
  unfoldable pub line_of : Sealed → Bytes
  line_of sealed = lib.dumps (line_document sealed)

  -- What `append` seals an event as, behind a head.
  unfoldable pub seal_event : String → Head → String → Event → Sealed
  seal_event key head stamp event =
      let entry : Entry = record { sequence = next head.sequence; stamp = stamp; event = event } in
      let link = link_after head.link entry in
      record { entry = entry; link = link; tag = sign key link }

  -- `Ledger.append`, where the clock answers `stamp` and both writes are done
  unfoldable pub append : String → String → Event → Store → Result (Sealed × Store)
  append key stamp event store = require_attestable event.environment none >>= λ kind.
      let sealed = seal_event key store.head stamp event in
      let head : Head = record { sequence = sealed.entry.sequence; link = sealed.link } in
      ok (
        sealed,
        record {
          head = head;
          lines = store.lines ++ line_of sealed ∷ [];
          head_record = some (lib.dumps (head_document head));
        },
      )

  -- What is wrong with a sealed entry, if anything, in the order of the tests in `verified`.
  unfoldable pub line_break : String → Sealed → String → ℕ → Result (Option Breakage)
  line_break key sealed previous expected =
      if not (same_integer sealed.entry.sequence (pos expected))
      then ok (some (record { sequence = sealed.entry.sequence; cause = sequence_out_of_order }))
      else (confirms key sealed.link sealed.tag >>= λ confirmed.
          if not confirmed
          then ok (some (record { sequence = pos expected; cause = mac_mismatch }))
          else if not (sealed.link == link_after previous sealed.entry)
          then ok (some (record { sequence = pos expected; cause = link_mismatch }))
          else ok none)

  -- The comparison with the head record, behind the loop.
  unfoldable pub head_break : Option Head → String → ℕ → Option Breakage
  head_break none previous expected = none
  head_break (some head) previous expected =
      if not (same_integer head.sequence (before expected)) || not (head.link == previous)
      then some (record { sequence = head.sequence; cause = head_ahead_of_chain })
      else none

  -- The loop of `verified`, from a position on: `expected` is the position too.
  unfoldable pub verify_from :
      String → List Bytes → Option Head → String → ℕ → Result (List Sealed × Report)
  unfolding line_break head_break
  verify_from key [] head previous expected =
      ok ([], record { entries = expected; first_break = head_break head previous expected })
  verify_from key (line ∷ lines) head previous expected = elim (parse_line lib line) [
    | raise e ↦ raise e
    | ok none ↦ ok (
      [],
      record {
        entries = expected;
        first_break = some (record { sequence = pos expected; cause = malformed_line });
      },
    )
    | ok (some sealed) ↦ elim (line_break key sealed previous expected) [
      | raise e ↦ raise e
      | ok (some breakage) ↦ ok ([], record { entries = expected; first_break = some breakage })
      | ok none ↦
          (verify_from key lines head sealed.link (expected + 1) >>= λ result.
          ok (sealed ∷ result.0, result.1))
    ]
  ]

  -- `verified`
  unfoldable pub verified : String → List Bytes → Option Head → Result (List Sealed × Report)
  unfolding verify_from
  verified key lines head = verify_from key lines head genesis 0

  -- `replay`
  unfoldable pub replay : String → List Bytes → Option Head → Result Report
  unfolding verified
  replay key lines head = verified key lines head >>= λ result. ok result.1
