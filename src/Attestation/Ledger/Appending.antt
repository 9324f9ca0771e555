-- ===== src/Attestation/Ledger/Appending.antt =====
-- Appending to a chain that replays (src/apex/attestation/ledger.py), and what a replay says of the lines.
use apex_fedora.Base.{
  ◌==◌, false, subst, Bool-cases, Bool, Bytes, List, Option, String, [], all, ap, arith, eq_iff,
  inl, inr, length, none, refl, some, suc, sym, true, zero, ℕ, ◌++◌, ◌+◌, ◌∙◌, ◌∷◌, ◌≡◌,
}
use apex_fedora.Kernel.Errors.{Result, Result-cases, ok, raise, >>=-eq-ok}
use apex_fedora.Attestation.Ledger.{
  ℤ, pos, negsuc, same_integer, next, before, Library, Sealed, Head, Report, genesis,
}
use apex_fedora.Attestation.Ledger.Parsing.{parse_line}
use apex_fedora.Attestation.Ledger.Chain.{
  link_after, confirms, line_break, head_break, verify_from, verified,
}

same_integer_refl : (n : ℤ) → same_integer n n ≡ true
same_integer_refl (pos n) = ground arith
same_integer_refl (negsuc n) = ground arith

same_integer-eq : (m n : ℤ) → same_integer m n ≡ true → m ≡ n
same_integer-eq (pos m) (pos n) h = ap pos (ground (arith, h))
same_integer-eq (negsuc m) (negsuc n) h = ap negsuc (ground (arith, h))
same_integer-eq (pos m) (negsuc n) h = cc
same_integer-eq (negsuc m) (pos n) h = cc

pub next-before : (n : ℕ) → next (before n) ≡ pos n
next-before zero = refl
next-before (suc n) = ap pos (omega arith)

pub before_next : (n : ℕ) → before (n + 1) ≡ pos n
before_next n = let e : n + 1 ≡ suc n = omega arith in ap before e

pub ok_pair : {A : Type 0} {a b : A} → ok a ≡ ok b → a ≡ b
ok_pair {a} h = ap (λ r. elim r [ ok x ↦ x | raise e ↦ a ]) h

module _ (lib : Library) (key : String) where
  -- The entry stands in its place: behind `previous`, at `expected`, with its own code.
  pub record IsLinked (sealed : Sealed) (previous : String) (expected : ℕ) : Type 0 where
    pub in_order : sealed.entry.sequence ≡ pos expected
    pub confirmed : confirms lib key sealed.link sealed.tag ≡ ok true
    pub linked : sealed.link ≡ link_after lib previous sealed.entry

  line_break-none :
      (sealed : Sealed) (previous : String) (expected : ℕ)
      → line_break lib key sealed previous expected ≡ ok none
      → IsLinked sealed previous expected
  unfolding line_break
  line_break-none sealed previous expected h =
      elim (Bool-cases (same_integer sealed.entry.sequence (pos expected))) [
        | inr f ↦ ground (arith, rw (line_break, f) at h)
        | inl order ↦ elim (Result-cases (confirms lib key sealed.link sealed.tag)) [
          | inr (x, e) ↦ ground (arith, rw (line_break, order, e) at h)
          | inl (false, e) ↦ ground (arith, rw (line_break, order, e) at h)
          | inl (true, e) ↦ record {
            in_order = same_integer-eq _ _ order;
            confirmed = e;
            linked = ground (
              arith,
              rw (line_break, order, e) at h,
              eq_iff sealed.link (link_after lib previous sealed.entry),
            );
          }
        ]
      ]

  pub linked_no_break :
      (sealed : Sealed) (previous : String) (expected : ℕ)
      → IsLinked sealed previous expected
      → line_break lib key sealed previous expected ≡ ok none
  unfolding line_break
  linked_no_break sealed previous expected l =
      let order : same_integer sealed.entry.sequence (pos expected) ≡ true =
        ap (λ s. same_integer s (pos expected)) l.in_order ∙ same_integer_refl (pos expected) in
      let same : (sealed.link == link_after lib previous sealed.entry) ≡ true =
        (eq_iff sealed.link (link_after lib previous sealed.entry)).1 l.linked in
      rw (line_break, order, l.confirmed, same) refl

  -- The entries stand in a chain, one linked to the other.
  abbrev pub IsChain : String → ℕ → List Sealed → Type 0
  IsChain previous expected [] = Unit {0}
  IsChain previous expected (sealed ∷ held) =
      IsLinked sealed previous expected × IsChain sealed.link (expected + 1) held

  -- The lines are read as the entries, as far as these go.
  abbrev pub Reads : List Bytes → List Sealed → Type 0
  Reads lines [] = Unit {0}
  Reads [] (sealed ∷ held) = Bool.false ≡ Bool.true
  Reads (line ∷ lines) (sealed ∷ held) = (parse_line lib line ≡ ok (some sealed)) × Reads lines held

  -- What a replay says of the lines
  abbrev pub Tells : List Bytes → String → ℕ → List Sealed × Report → Type 0
  Tells lines previous expected result =
      IsChain previous expected result.0
      × Reads lines result.0
      × (result.1.first_break ≡ none → length result.0 ≡ length lines)

  verify_from-Tells :
      (lines : List Bytes) (head : Option Head) (previous : String) (expected : ℕ)
      {result : List Sealed × Report}
      → verify_from lib key lines head previous expected ≡ ok result
      → Tells lines previous expected result
  unfolding verify_from
  verify_from-Tells [] head previous expected h =
      subst (Tells [] previous expected) (ok_pair h) (tt, tt, λ e. refl)
  verify_from-Tells (line ∷ lines) head previous expected {result} h =
      elim (Result-cases (parse_line lib line)) [
        | inr (x, e) ↦ cc (rw (verify_from, e) at h)
        | inl (none, unread) ↦
            subst (Tells (line ∷ lines) previous expected) (ok_pair (rw (verify_from, unread) at h))
              (tt, tt, λ e. cc)
        | inl (some sealed, read) ↦
            elim (Result-cases (line_break lib key sealed previous expected)) [
              | inr (x, e) ↦ cc (rw (verify_from, read, e) at h)
              | inl (some b, broken) ↦
                  subst (Tells (line ∷ lines) previous expected)
                    (ok_pair (rw (verify_from, read, broken) at h)) (tt, tt, λ e. cc)
              | inl (none, whole) ↦
                  let (later, made, same) =
                    >>=-eq-ok (verify_from lib key lines head sealed.link (expected + 1))
                      (λ r. ok (sealed ∷ r.0, r.1)) (rw (verify_from, read, whole) at h) in
                  let (chain, reads, all) =
                    verify_from-Tells lines head sealed.link (expected + 1) made in
                  subst (Tells (line ∷ lines) previous expected) (ok_pair same) (
                    (line_break-none sealed previous expected whole, chain),
                    (read, reads),
                    λ e. ap suc (all e),
                  )
            ]
      ]

  -- Where the replay returns, the entries that are held are those of the first lines, each read from its
  -- line; they stand in a chain from the genesis, in sequence, each linked to the one before and confirmed
  -- under the key; and if no break is reported they are all the lines there are.
  pub verified-IsChain :
      (lines : List Bytes) (head : Option Head) {held : List Sealed} {report : Report}
      → verified lib key lines head ≡ ok (held, report)
      → IsChain genesis 0 held
        × Reads lines held
        × (report.first_break ≡ none → length held ≡ length lines)
  unfolding verified
  verified-IsChain lines head h = verify_from-Tells lines head genesis 0 h

  -- A replay that returned and found no break.
  abbrev pub IsIntact : Result (List Sealed × Report) → List Sealed → Type 0
  IsIntact result held =
      (report : Report) × (result ≡ ok (held, report)) × (report.first_break ≡ none)

  pub head_matches :
      (head : Head) (previous : String) (expected : ℕ)
      → head_break lib (some head) previous expected ≡ none
      → (head.sequence ≡ before expected) × (head.link ≡ previous)
  unfolding head_break
  head_matches head previous expected h = (
    same_integer-eq head.sequence (before expected) (ground (arith, h)),
    ground (arith, h, eq_iff head.link previous),
  )

  matches_no_break :
      (head : Head) (previous : String) (expected : ℕ)
      → head.sequence ≡ before expected
      → head.link ≡ previous
      → head_break lib (some head) previous expected ≡ none
  unfolding head_break
  matches_no_break head previous expected same link =
      let order : same_integer head.sequence (before expected) ≡ true =
        ap (λ s. same_integer s (before expected)) same ∙ same_integer_refl (before expected) in
      ground (arith, order, link, eq_iff head.link previous)

  -- One more line, whose entry is linked to the head, behind lines that replay without a break.
  pub verify_from-snoc :
      (lines : List Bytes) (line : Bytes) (sealed : Sealed) (head : Head) (previous : String)
      (expected : ℕ) {held : List Sealed}
      → IsIntact (verify_from lib key lines (some head) previous expected) held
      → parse_line lib line ≡ ok (some sealed)
      → sealed.entry.sequence ≡ next head.sequence
      → confirms lib key sealed.link sealed.tag ≡ ok true
      → sealed.link ≡ link_after lib head.link sealed.entry
      → IsIntact
          (verify_from lib key
            (lines ++ line ∷ [])
            (some (record { sequence = sealed.entry.sequence; link = sealed.link }))
            previous
            expected)
          (held ++ sealed ∷ [])
  unfolding verify_from
  verify_from-snoc [] line sealed head previous expected (report, e, fine) read sequence confirmed
        linked =
      let pair = ok_pair e in
      let whole = ap (λ r. r.1.first_break) pair ∙ fine in
      let (order, link) = head_matches head previous expected whole in
      let place : sealed.entry.sequence ≡ pos expected =
        sequence ∙ ap next order ∙ next-before expected in
      let good : IsLinked sealed previous expected = record {
        in_order = place;
        confirmed = confirmed;
        linked = linked ∙ ap (λ p. link_after lib p sealed.entry) link;
      } in
      rw (verify_from, read, linked_no_break sealed previous expected good)
        (
          record {
            entries = expected + 1;
            first_break =
                head_break lib
                  (some (record { sequence = sealed.entry.sequence; link = sealed.link }))
                  sealed.link (expected + 1);
          },
          ap
              (λ h. ok (
                h ++ sealed ∷ [],
                record {
                  entries = expected + 1;
                  first_break =
                      head_break lib
                        (some (record { sequence = sealed.entry.sequence; link = sealed.link }))
                        sealed.link (expected + 1);
                },
              ))
              (ap (λ r. r.0) pair),
          matches_no_break (record { sequence = sealed.entry.sequence; link = sealed.link })
              sealed.link (expected + 1) (place ∙ sym (before_next expected)) refl,
        )
  verify_from-snoc (l ∷ lines) line sealed head previous expected {held} (report, e, fine) read
        sequence confirmed linked =
      elim (Result-cases (parse_line lib l)) [
        | inr (x, stops) ↦ cc (rw (verify_from, stops) at e)
        | inl (none, unread) ↦
            cc (ap (λ r. r.1.first_break) (ok_pair (rw (verify_from, unread) at e)) ∙ fine)
        | inl (some s, is_read) ↦ elim (Result-cases (line_break lib key s previous expected)) [
          | inr (x, stops) ↦ cc (rw (verify_from, is_read, stops) at e)
          | inl (some b, broken) ↦
              cc (
                ap (λ r. r.1.first_break) (ok_pair (rw (verify_from, is_read, broken) at e)) ∙ fine)
          | inl (none, place) ↦
              let (later, made, same) =
                >>=-eq-ok (verify_from lib key lines (some head) s.link (expected + 1))
                  (λ r. ok (s ∷ r.0, r.1)) (rw (verify_from, is_read, place) at e) in
              let pair = ok_pair same in
              let (last, more, still) =
                verify_from-snoc lines line sealed head s.link (expected + 1)
                  (later.1, made, ap (λ r. r.1.first_break) pair ∙ fine) read sequence confirmed
                  linked in
              rw (verify_from, is_read, place, more)
                (last, ap (λ h. ok (h ++ sealed ∷ [], last)) (ap (λ r. r.0) pair), still)
        ]
      ]
