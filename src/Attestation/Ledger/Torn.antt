-- ===== src/Attestation/Ledger/Torn.antt =====
-- An append of src/apex/attestation/ledger.py that is cut off between its two writes: the line is in the chain,
-- and the head record is still the one before.
use apex_fedora.Base.{
  Bytes, List, String, [], ap, arith, false, inl, inr, none, refl, some, suc, true, zero, ℕ, ◌++◌,
  ◌+◌, ◌∙◌, ◌∷◌, ◌≡◌,
}
use apex_fedora.Kernel.Errors.{Result, Result-cases, ok, >>=-eq-ok}
use apex_fedora.Attestation.Ledger.{
  Report, pos, same_integer, next, before, Library, Sealed, Head, genesis, head_ahead_of_chain,
}
use apex_fedora.Attestation.Ledger.Parsing.{parse_line}
use apex_fedora.Attestation.Ledger.Chain.{
  link_after, confirms, line_break, head_break, verify_from, verified,
}
use apex_fedora.Attestation.Ledger.Appending.{
  IsIntact, IsLinked, head_matches, linked_no_break, next-before, before_next, ok_pair,
}

behind_differs : (n : ℕ) → same_integer (before n) (before (n + 1)) ≡ false
behind_differs n = rw (before_next n) (go n)
  where
    go : (m : ℕ) → same_integer (before m) (pos m) ≡ false
    go zero = refl
    go (suc m) = ground arith

module _ (lib : Library) (key : String) where
  behind_breaks :
      (head : Head) (link : String) (expected : ℕ)
      → head.sequence ≡ before expected
      → head_break lib (some head) link (expected + 1)
        ≡ some (record { sequence = head.sequence; cause = head_ahead_of_chain })
  unfolding head_break
  behind_breaks head link expected same =
      let differs : same_integer head.sequence (before (expected + 1)) ≡ false =
        ap (λ s. same_integer s (before (expected + 1))) same ∙ behind_differs expected in
      rw (head_break, differs) refl

  -- A replay that returned and holds these entries, with the break of a head that differs.
  abbrev IsTorn : Head → List Sealed → Result (List Sealed × Report) → Type 0
  IsTorn head held result =
      (report : Report) × (result ≡ ok (held, report))
      × (report.first_break
          ≡ some (record { sequence = head.sequence; cause = head_ahead_of_chain }))

  verify_from-IsTorn :
      (lines : List Bytes) (line : Bytes) (sealed : Sealed) (head : Head) (previous : String)
      (expected : ℕ) {held : List Sealed}
      → IsIntact lib key (verify_from lib key lines (some head) previous expected) held
      → parse_line lib line ≡ ok (some sealed)
      → sealed.entry.sequence ≡ next head.sequence
      → confirms lib key sealed.link sealed.tag ≡ ok true
      → sealed.link ≡ link_after lib head.link sealed.entry
      → IsTorn head
          (held ++ sealed ∷ [])
          (verify_from lib key (lines ++ line ∷ []) (some head) previous expected)
  unfolding verify_from
  verify_from-IsTorn [] line sealed head previous expected (report, e, fine) read sequence confirmed
        linked =
      let pair = ok_pair e in
      let whole = ap (λ r. r.1.first_break) pair ∙ fine in
      let (order, link) = head_matches lib key head previous expected whole in
      let good : IsLinked lib key sealed previous expected = record {
        in_order = sequence ∙ ap next order ∙ next-before expected;
        confirmed = confirmed;
        linked = linked ∙ ap (λ p. link_after lib p sealed.entry) link;
      } in
      rw (verify_from, read, linked_no_break lib key sealed previous expected good)
        (
          record {
            entries = expected + 1;
            first_break = head_break lib (some head) sealed.link (expected + 1);
          },
          ap
              (λ h. ok (
                h ++ sealed ∷ [],
                record {
                  entries = expected + 1;
                  first_break = head_break lib (some head) sealed.link (expected + 1);
                },
              ))
              (ap (λ r. r.0) pair),
          behind_breaks head sealed.link expected order,
        )
  verify_from-IsTorn (l ∷ lines) line sealed head previous expected {held} (report, e, fine) read
        sequence confirmed linked =
      elim (Result-cases (parse_line lib l)) [
        | inr (x, stops) ↦ cc (rw (verify_from, stops) at e)
        | inl (none, unread) ↦
            cc (ap (λ r. r.1.first_break) (ok_pair (rw (verify_from, unread) at e)) ∙ fine)
        | inl (some s, is_read) ↦ elim (Result-cases (line_break lib key s previous expected)) [
          | inr (x, stops) ↦ cc (rw (verify_from, is_read, stops) at e)
          | inl (some b, broken) ↦
              cc (
                ap (λ r. r.1.first_break) (ok_pair (rw (verify_from, is_read, broken) at e)) ∙ fine)
          | inl (none, place) ↦
              let (later, made, same) =
                >>=-eq-ok (verify_from lib key lines (some head) s.link (expected + 1))
                  (λ r. ok (s ∷ r.0, r.1)) (rw (verify_from, is_read, place) at e) in
              let pair = ok_pair same in
              let (last, more, still) =
                verify_from-IsTorn lines line sealed head s.link (expected + 1)
                  (later.1, made, ap (λ r. r.1.first_break) pair ∙ fine) read sequence confirmed
                  linked in
              rw (verify_from, is_read, place, more)
                (last, ap (λ h. ok (h ++ sealed ∷ [], last)) (ap (λ r. r.0) pair), still)
        ]
      ]

  -- If the line of a linked entry was written behind lines that replay without a break, and the head
  -- record was not, the replay returns and still holds every entry, the new one included; but it reports a break,
  -- at the sequence of the old head, and calls the head ahead of the chain, which it is behind.
  pub verified-torn :
      (lines : List Bytes) (line : Bytes) (sealed : Sealed) (head : Head) {held : List Sealed}
      → IsIntact lib key (verified lib key lines (some head)) held
      → parse_line lib line ≡ ok (some sealed)
      → sealed.entry.sequence ≡ next head.sequence
      → confirms lib key sealed.link sealed.tag ≡ ok true
      → sealed.link ≡ link_after lib head.link sealed.entry
      → (report : Report) × (verified lib key (lines ++ line ∷ []) (some head)
          ≡ ok (held ++ sealed ∷ [], report))
        × (report.first_break
            ≡ some (record { sequence = head.sequence; cause = head_ahead_of_chain }))
  unfolding verified
  verified-torn lines line sealed head intact read sequence confirmed linked =
      verify_from-IsTorn lines line sealed head genesis 0 intact read sequence confirmed linked
