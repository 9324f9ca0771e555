-- ===== src/Attestation/Ledger/Growing.antt =====
-- `append` and `verified` of src/apex/attestation/ledger.py, one after the other.
use apex_fedora.Base.{
  ==_refl, List, String, [], ap, length, none, refl, some, sym, true, ◌++◌, ◌∷◌, ◌≡◌, ◌≤◌,
}
use apex_fedora.Kernel.Refusals.{no_verified_result}
use apex_fedora.Kernel.Errors.{ok, raise, Raised}
use apex_fedora.Kernel.Verdicts.{Verdict, passed, failed, blocked, not_tested, stored_name}
use apex_fedora.Kernel.Verdicts.Lattice.{reread}
use apex_fedora.Kernel.Claims.{EnvironmentKind, require_attestable}
use apex_fedora.Attestation.Ledger.{
  decoded, Library, Event, Sealed, entry_document, line_document, line_limit,
}
use apex_fedora.Attestation.Ledger.Chain.{
  Store, head_document, link_after, sign, confirms, line_of, seal_event, append, verified,
}
use apex_fedora.Attestation.Ledger.Reading.{reread_sealed, IsWellFormed, parse_line-line_of}
use apex_fedora.Attestation.Ledger.Appending.{IsIntact, verify_from-snoc}

stored_name-reread : (v : Verdict) → stored_name (reread no_verified_result v) ≡ stored_name v
unfolding stored_name
stored_name-reread passed = refl
stored_name-reread failed = refl
stored_name-reread blocked = refl
stored_name-reread (not_tested reason) = refl

-- What an entry loses by being read back is not in its document.
entry_document-reread :
    (sealed : Sealed) → entry_document (reread_sealed sealed).entry ≡ entry_document sealed.entry
unfolding entry_document
entry_document-reread sealed = rw (stored_name-reread sealed.entry.event.verdict) refl

module _ (lib : Library) (key stamp : String) (event : Event) (store : Store) where
  -- The entry that an append seals, and its line.
  abbrev pub new_entry : Sealed
  new_entry = seal_event lib key store.head stamp event

  abbrev pub grown : Store
  grown = record {
    head = record { sequence = new_entry.entry.sequence; link = new_entry.link };
    lines = store.lines ++ line_of lib new_entry ∷ [];
    head_record = some (
        lib.dumps
          (head_document (record { sequence = new_entry.entry.sequence; link = new_entry.link })));
  }

  sealed_links :
      lib.is_ascii new_entry.tag ≡ true
      → (confirms lib key new_entry.link new_entry.tag ≡ ok true)
        × (new_entry.link ≡ link_after lib store.head.link (reread_sealed new_entry).entry)
  unfolding confirms sign seal_event link_after
  sealed_links plain = (
    rw (confirms, plain) (ap ok (==_refl _)),
    ap (λ d. lib.sha256 (lib.encode store.head.link ++ lib.dumps d))
        (sym (entry_document-reread new_entry)),
  )

  -- Appending a result of an environment that may be attested to a chain that replays without a break
  -- gives a chain that replays without a break, behind the new head: its entries are those of before
  -- and the new one. The conditions are that JSON gives back what was rendered, that the line is
  -- within the limit, that its identifiers are well formed, and that its code is ASCII, as hex digits are.
  pub append-IsIntact :
      {held : List Sealed} {kind : EnvironmentKind}
      → require_attestable event.environment none ≡ ok kind
      → IsIntact lib key (verified lib key store.lines (some store.head)) held
      → IsWellFormed lib new_entry
      → length (line_of lib new_entry) ≤ line_limit
      → lib.loads (line_of lib new_entry) ≡ decoded (line_document new_entry)
      → lib.is_ascii new_entry.tag ≡ true
      → (after : Store) × (append lib key stamp event store ≡ ok (new_entry, after))
        × IsIntact lib key
            (verified lib key after.lines (some after.head))
            (held ++ reread_sealed new_entry ∷ [])
  unfolding append verified seal_event
  append-IsIntact attestable intact w short loads plain =
      let (confirmed, linked) = sealed_links plain in
      (
        grown,
        rw (append, attestable) refl,
        verify_from-snoc lib key store.lines (line_of lib new_entry) (reread_sealed new_entry)
            store.head _ _ intact (parse_line-line_of lib new_entry w short loads) refl confirmed
            linked,
      )

  -- A result of a simulated run is refused, and nothing is written.
  pub append-refused :
      (error : Raised)
      → require_attestable event.environment none ≡ raise error
      → append lib key stamp event store ≡ raise error
  unfolding append
  append-refused error h = rw (append, h) refl
