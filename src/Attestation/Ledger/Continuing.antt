-- ===== src/Attestation/Ledger/Continuing.antt =====
-- A chain of src/apex/attestation/ledger.py that is opened again: the head record that `append` writes is what
-- `_stored_head` reads.
use apex_fedora.Base.{Bytes, String, ap, none, refl, some, sym, true, ◌∙◌, ◌≡◌}
use apex_fedora.Kernel.Errors.{ok, >>=-eq-ok}
use apex_fedora.Kernel.Claims.{require_attestable}
use apex_fedora.Attestation.Ledger.{text, integer, decoded, Library, Event, Sealed, Head}
use apex_fedora.Attestation.Ledger.Chain.{Store, head_document, append}
use apex_fedora.Attestation.Ledger.Opening.{parse_head, stored_head}
use apex_fedora.Attestation.Ledger.Appending.{ok_pair}

module _ (lib : Library) where
  -- What JSON and the identifiers do with a head record: they give back what was rendered.
  pub record IsKept (head : Head) : Type 0 where
    pub loads : lib.loads (lib.dumps (head_document head)) ≡ decoded (head_document head)
    pub int_of : lib.int_of (integer head.sequence) ≡ ok (some head.sequence)
    pub str_of : lib.str_of (text head.link) ≡ head.link
    pub digest : lib.is_digest head.link ≡ true

  parse_head-head_document :
      (head : Head) → IsKept head → parse_head lib (lib.dumps (head_document head)) ≡ ok head
  unfolding parse_head head_document
  parse_head-head_document head k = rw (parse_head, k.loads, k.int_of, k.str_of, k.digest) refl

  -- Behind an append that is done, where JSON and the identifiers give back what was rendered of its head,
  -- the head record is read back as the head of the new entry.
  pub append-stored_head :
      (key stamp : String) (event : Event) (store : Store) {sealed : Sealed} {after : Store}
      → append lib key stamp event store ≡ ok (sealed, after)
      → IsKept after.head
      → (content : Bytes) × (after.head_record ≡ some content)
        × (stored_head lib (some (ok content))
            ≡ ok (some (record { sequence = sealed.entry.sequence; link = sealed.link })))
  unfolding append stored_head
  append-stored_head key stamp event store {sealed} {after} h k =
      let (kind, attestable, made) = >>=-eq-ok (require_attestable event.environment none) _ h in
      let pair = ok_pair made in
      let headed = ap (λ r. r.1.head) pair in
      let written = ap (λ r. r.1.head_record) pair in
      let same : after.head ≡ record { sequence = sealed.entry.sequence; link = sealed.link } =
        sym headed ∙ ap (λ r. record { sequence = r.0.entry.sequence; link = r.0.link }) pair in
      (
        lib.dumps (head_document after.head),
        sym written ∙ ap (λ head. some (lib.dumps (head_document head))) headed,
        rw (stored_head, parse_head-head_document after.head k) (ap (λ head. ok (some head)) same),
      )
