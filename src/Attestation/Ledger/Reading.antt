-- ===== src/Attestation/Ledger/Reading.antt =====
-- A sealed line is read back as what was sealed (src/apex/attestation/ledger.py).
use apex_fedora.Base.{
  All, Bool, List, String, [], arith, false, length, ltb, map, refl, some, true, ◌∷◌, ◌≡◌, ◌≤◌,
}
use apex_fedora.Kernel.Errors.{ok}
use apex_fedora.Kernel.Refusals.{no_verified_result}
use apex_fedora.Kernel.Verdicts.Lattice.{reread, parse-stored_name}
use apex_fedora.Kernel.Claims
use apex_fedora.Kernel.Claims.{EnvironmentKind, ScopeLimit, limit_value}
use apex_fedora.Attestation.Attesting.{EntryKind, recorded, imported}
use apex_fedora.Attestation.Ledger.{
  decoded, ℤ, text, integer, Library, Event, Sealed, kind_value, texts, entry_document,
  line_document, line_limit,
}
use apex_fedora.Attestation.Ledger.Parsing.{
  ◌>>=◌, text_of, list_of, each, accepted, kind_of, environment_of, limit_of, event_in,
  parse_document, parse_line,
}
use apex_fedora.Attestation.Ledger.Chain.{line_of}

-- An entry as it is read back: an untested verdict has lost its reason.
abbrev pub reread_event : Event → Event
reread_event event = record event { verdict = reread no_verified_result event.verdict }

abbrev pub reread_sealed : Sealed → Sealed
reread_sealed sealed = record sealed {
  entry = record {
    sequence = sealed.entry.sequence;
    stamp = sealed.entry.stamp;
    event = reread_event sealed.entry.event;
  };
}

-- The identifiers of an entry were accepted when they were made, and `int` and `str` give back an
-- integer and a string.
pub record IsWellFormed (lib : Library) (sealed : Sealed) : Type 0 where
  pub check : lib.is_check sealed.entry.event.check ≡ true
  pub candidate : lib.is_digest sealed.entry.event.candidate ≡ true
  pub proofs : All (λ p. lib.is_digest p ≡ true) sealed.entry.event.proofs
  pub link : lib.is_digest sealed.link ≡ true
  pub int_of : (n : ℤ) → lib.int_of (integer n) ≡ ok (some n)
  pub str_of : (s : String) → lib.str_of (text s) ≡ s

kind_of-kind_value : (kind : EntryKind) → kind_of (kind_value kind) ≡ some kind
unfolding kind_of kind_value
kind_of-kind_value recorded = refl
kind_of-kind_value imported = refl

environment_of-value : (kind : EnvironmentKind) → environment_of (Claims.value kind) ≡ some kind
unfolding environment_of Claims.value
environment_of-value Claims.build = refl
environment_of-value _ = refl

limit_of-limit_value : (limit : ScopeLimit) → limit_of (limit_value limit) ≡ some limit
unfolding limit_of limit_value
limit_of-limit_value Claims.secure_boot = refl
limit_of-limit_value _ = refl

each-digests :
    (accepts : String → Bool) (proofs : List String)
    → All (λ p. accepts p ≡ true) proofs
    → each (λ value. text_of value >>= accepted accepts) (list_of (texts proofs)) ≡ some proofs
each-digests accepts [] h = refl
each-digests accepts (p ∷ ps) (here, h) = rw (here, each-digests accepts ps h) refl

each-limits :
    (limits : List ScopeLimit)
    → each (λ value. text_of value >>= limit_of) (list_of (texts (map limit_value limits)))
      ≡ some limits
each-limits [] = refl
each-limits (l ∷ ls) = rw (limit_of-limit_value l, each-limits ls) refl

module _ (lib : Library) where
  event_in-entry_document :
      (sealed : Sealed)
      → IsWellFormed lib sealed
      → event_in lib (entry_document sealed.entry) ≡ some (reread_event sealed.entry.event)
  unfolding event_in entry_document
  event_in-entry_document sealed w =
      let event = sealed.entry.event in
      rw
        (
          kind_of-kind_value event.kind,
          w.check,
          parse-stored_name event.verdict no_verified_result,
          environment_of-value event.environment,
          w.candidate,
          each-digests lib.is_digest event.proofs w.proofs,
          each-limits event.scope_limits,
        )
        refl

  parse_document-line_document :
      (sealed : Sealed)
      → IsWellFormed lib sealed
      → parse_document lib (line_document sealed) ≡ ok (some (reread_sealed sealed))
  unfolding parse_document line_document entry_document
  parse_document-line_document sealed w =
      rw
        (
          parse_document,
          event_in-entry_document sealed w,
          w.int_of sealed.entry.sequence,
          w.str_of sealed.entry.stamp,
          w.link,
          w.str_of sealed.tag,
        )
        refl

  -- If the line of a well-formed sealed entry is within the limit and JSON gives back the document that
  -- was rendered, the line is read as that entry, whose untested verdict has lost its reason.
  pub parse_line-line_of :
      (sealed : Sealed)
      → IsWellFormed lib sealed
      → length (line_of lib sealed) ≤ line_limit
      → lib.loads (line_of lib sealed) ≡ decoded (line_document sealed)
      → parse_line lib (line_of lib sealed) ≡ ok (some (reread_sealed sealed))
  unfolding parse_line
  parse_line-line_of sealed w short loads =
      let within : ltb line_limit (length (line_of lib sealed)) ≡ false = ground (arith, short) in
      rw (parse_line, within, loads) (parse_document-line_document sealed w)
