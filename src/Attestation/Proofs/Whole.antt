-- ===== src/Attestation/Proofs/Whole.antt =====
-- A proof is read back whole or not at all (src/apex/attestation/proofs.py).
use apex_fedora.Base.{
  ==_refl, Bool-cases, Bytes, List, Option-cases, String, [], ap, arith, eq_iff, eqb, false, has,
  has-true, inl, inr, insert, length, length-take, lookup, lookup-insert, none, not, refl, some,
  subst, suc, sym, take, zero, ℕ, ◌+◌, ◌==◌, ◌||◌, ◌∙◌, ◌∷◌, ◌≡◌, ◌≤◌, ◌⊎◌,
}
use apex_fedora.Kernel.Errors.{ok, >>=-eq-ok}
use apex_fedora.Attestation.Ledger.{Library}
use apex_fedora.Attestation.Proofs.{Proof, ProofStore, proof, address, absorb, load}

take-all : {A : Type 0} (n : ℕ) (xs : List A) → length xs ≤ n → take n xs ≡ xs
take-all zero [] h = refl
take-all zero (x ∷ xs) h = absurd (omega (arith, h))
take-all (suc n) [] h = refl
take-all (suc n) (x ∷ xs) h = ap (λ ys. x ∷ ys) (take-all n xs (omega (arith, h)))

-- A file of which one byte more than asked for would be read is read whole.
take_whole :
    {A : Type 0} (n : ℕ) (xs : List A) → length (take (n + 1) xs) ≡ n → take (n + 1) xs ≡ xs
take_whole n xs h = take-all (n + 1) xs (omega (arith, length-take (n + 1) xs, h))

proof_is :
    (digest kind : String) (byte_count : ℕ) {cited : Proof}
    → proof digest kind byte_count ≡ ok cited
    → (cited.digest ≡ digest) × (cited.byte_count ≡ byte_count)
unfolding proof
proof_is digest kind byte_count h = ground (arith, h)

module _ (lib : Library) where
  -- What is loaded is the whole object of that name, as long as the proof says, and hashes to its name:
  -- never the beginning of an object that has grown.
  pub load-whole :
      (cited : Proof) (store : ProofStore) (payload : Bytes)
      → load lib cited store ≡ ok payload
      → (lookup cited.digest store.objects ≡ some payload)
        × (length payload ≡ cited.byte_count)
        × (address lib payload ≡ cited.digest)
  unfolding load
  load-whole cited store payload h = elim (Option-cases (lookup cited.digest store.objects)) [
    | inl missing ↦ cc (rw (load, missing) at h)
    | inr (object, e) ↦
        let read : Bytes = take (cited.byte_count + 1) object in
        elim (Bool-cases
          (not (eqb (length read) cited.byte_count) || not (address lib read == cited.digest))) [
            | inl t ↦ cc (rw (load, e, t) at h)
            | inr f ↦
                let same : read ≡ payload = cc (rw (load, e, f) at h) in
                let long : length read ≡ cited.byte_count = ground (arith, f) in
                let named : address lib read ≡ cited.digest =
                  ground (arith, f, eq_iff (address lib read) cited.digest) in
                (
                  e ∙ ap (λ b. some b) (sym (take_whole cited.byte_count object long) ∙ same),
                  ap length (sym same) ∙ long,
                  ap (address lib) (sym same) ∙ named,
                )
          ]
  ]

  load_filed :
      (cited : Proof) (store : ProofStore) (payload : Bytes)
      → lookup cited.digest store.objects ≡ some payload
      → cited.byte_count ≡ length payload
      → cited.digest ≡ address lib payload
      → load lib cited store ≡ ok payload
  unfolding load
  load_filed cited store payload e long named =
      let all : take (cited.byte_count + 1) payload ≡ payload =
        take-all (cited.byte_count + 1) payload (omega (arith, long)) in
      let fine : (not (eqb (length payload) cited.byte_count)
            || not (address lib payload == cited.digest))
          ≡ false =
        ground (arith, long, named, eq_iff (address lib payload) cited.digest) in
      rw (load, e, all, fine) refl

  -- What was absorbed is loaded by its proof, unless other bytes were filed under its name before.
  pub absorb-load :
      (payload : Bytes) (kind : String) (store : ProofStore) (cited : Proof) (after : ProofStore)
      → absorb lib payload kind store ≡ ok (cited, after)
      → (lookup (address lib payload) store.objects ≡ none)
        ⊎ (lookup (address lib payload) store.objects ≡ some payload)
      → load lib cited after ≡ ok payload
  unfolding absorb
  absorb-load payload kind store cited after h filed =
      let (made, cites, rest) = >>=-eq-ok (proof (address lib payload) kind (length payload)) _ h in
      let (named, long) = proof_is (address lib payload) kind (length payload) cites in
      elim (Bool-cases (has made.digest store.objects)) [
        | inl t ↦
            let same : ◌≡◌ {A = Proof × ProofStore} (made, store) (cited, after) =
              cc (rw t at rest) in
            let there : lookup made.digest store.objects ≡ some payload =
              ap (λ d. lookup d store.objects) named ∙ elim filed [
                | inl missing ↦
                    let (object, e) = has-true made.digest store.objects t in
                    cc (sym e, ap (λ d. lookup d store.objects) named, missing)
                | inr e ↦ e
              ] in
            subst (λ p. load lib p.0 p.1 ≡ ok payload) same
              (load_filed made store payload there long named)
        | inr f ↦
            let more : ProofStore = record {
              objects = insert made.digest payload store.objects;
              absorbed = store.absorbed + 1;
            } in
            let same : ◌≡◌ {A = Proof × ProofStore} (made, more) (cited, after) =
              cc (rw f at rest) in
            subst (λ p. load lib p.0 p.1 ≡ ok payload) same
              (load_filed made more payload
                (lookup-insert made.digest made.digest payload store.objects ∙ rw ==_refl refl) long
                named)
      ]
