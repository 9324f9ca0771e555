-- ===== src/Attestation/Stores/Imported.antt =====
-- The first reader of src/apex/attestation/storereaders/ keeps every record of the older tools, as an imported one or
-- as a fault; but a record that is no text ends the reading of the store.
use apex_fedora.Base.{
  All, Bool, Bool-cases, Bytes, List, Option, Option-cases, String, [], arith, false, if◌then◌else◌,
  inl, inr, is_some, length, none, not, refl, some, true, ◌+◌, ◌||◌, ◌∷◌, ◌≡◌, ◌↔◌, ||_false,
}
use apex_fedora.Kernel.Refusals.{path_is_a_symlink, stale_evidence, no_verified_result}
use apex_fedora.Kernel.Errors.{
  Result, ok, raise, refusal, other_exception, traverse, ◌>>=◌, >>=-eq-ok,
}
use apex_fedora.Kernel.Claims.{limit_value}
use apex_fedora.Kernel.Verdicts
use apex_fedora.Kernel.Documents.{JsonValue, Document, get}
use apex_fedora.Kernel.Identifiers.{parse_digest, dotted_name}
use apex_fedora.Model.Marks.{Loaded, loaded, not_json, not_text}
use apex_fedora.Model.Runtime.{
  Python, StoredRecord, document_of, object_of, list_of, text_at, environment, proof_reference,
  read_evidence_record,
}
use apex_fedora.Attestation.Readiness.{ResolvedRecord}
use apex_fedora.Attestation.Attesting.{imported, legacy_limits, Attestation, attestation}
use apex_fedora.Attestation.Columns.{StoreReading}
use apex_fedora.Attestation.Ledger.{Library}
use apex_fedora.Attestation.Stores
use apex_fedora.Attestation.Ledger.Parsing.{environment_of}
use apex_fedora.Attestation.Stores.{
  Root, Found, fault, attested, or_fault, faulty, read_one, faults_of, attestations_of,
  candidate_of, resolve, read_first,
}
use apex_fedora.Attestation.Stores.Refusing.{
  OnlyRefuses, returns, refuses, OnlyRefuses-bind, OnlyRefuses-if, parse_digest-OnlyRefuses,
  dotted_name-OnlyRefuses, verdict-OnlyRefuses, traverse-OnlyRefuses, document_of-OnlyRefuses,
}

module _ (lib : Library) (python : Python) where
  environment-OnlyRefuses : (document : Document) → OnlyRefuses (environment python document)
  unfolding environment
  environment-OnlyRefuses document = elim (Option-cases (object_of (get "environment" document))) [
    | inl n ↦ rw (environment, n) (refuses tt)
    | inr (raw, e) ↦ elim (Option-cases (environment_of (python.str_of (get "kind" raw)))) [
      | inl n ↦ rw (environment, e, n) (refuses tt)
      | inr (kind, k) ↦ rw (environment, e, k) returns
    ]
  ]

  proof_reference-OnlyRefuses : (entry : JsonValue) → OnlyRefuses (proof_reference python entry)
  unfolding proof_reference
  proof_reference-OnlyRefuses entry = elim (Option-cases (object_of entry)) [
    | inl n ↦ rw (proof_reference, n) (refuses tt)
    | inr (cited, e) ↦
        rw (proof_reference, e)
          (OnlyRefuses-if _ _ _ (refuses tt) (
            OnlyRefuses-bind (parse_digest (python.str_of (get "sha256" cited))) _
              (parse_digest-OnlyRefuses (python.str_of (get "sha256" cited))) (λ value. returns)))
  ]

  -- A record that is text is read or refused.
  read_evidence_record-OnlyRefuses :
      (content : Bytes)
      → ¬ (python.loads content ≡ not_text)
      → OnlyRefuses (read_evidence_record python content)
  unfolding read_evidence_record
  read_evidence_record-OnlyRefuses content is_text =
      OnlyRefuses-bind (document_of (python.loads content)) _
        (document_of-OnlyRefuses (python.loads content) is_text)
        (λ document.
          OnlyRefuses-bind (environment python document) _ (environment-OnlyRefuses document)
            (λ kind.
              OnlyRefuses-bind (traverse (proof_reference python) (list_of (get "proof" document)))
                _
                (traverse-OnlyRefuses (proof_reference python) proof_reference-OnlyRefuses
                  (list_of (get "proof" document)))
                (λ references.
                  OnlyRefuses-bind (dotted_name (text_at python "check" document)) _
                    (dotted_name-OnlyRefuses (text_at python "check" document))
                    (λ check.
                      OnlyRefuses-bind (parse_digest (text_at python "digest" document)) _
                        (parse_digest-OnlyRefuses (text_at python "digest" document))
                        (λ digest.
                          OnlyRefuses-bind
                            (Verdicts.parse (text_at python "status" document) no_verified_result) _
                            (verdict-OnlyRefuses (text_at python "status" document)
                              no_verified_result)
                            (λ verdict. returns))))))

  abbrev is_text : Loaded → Bool
  is_text not_text = false
  is_text _ = true

  -- A path that is skipped, or a record that is text
  abbrev pub readable : Stores.Document → Bool
  readable document =
      document.state.is_symlink
      || not document.state.is_file
      || is_text (python.loads document.state.content)

  abbrev pub IsImport : Attestation → Type 0
  IsImport item =
      (item.kind ≡ imported) × (item.limits ≡ legacy_limits) × (item.resolved.imported ≡ true)

  abbrev IsImported : Found lib python → Type 0
  IsImported (fault f) = Unit
  IsImported (attested item) = IsImport item

  imports :
      (resolved : ResolvedRecord) (name : String)
      → resolved.imported ≡ true
      → attestation imported resolved legacy_limits name
        ≡ ok
            (record { kind = imported; resolved = resolved; limits = legacy_limits; origin = name })
  unfolding attestation limit_value
  imports resolved name h = rw (attestation, h) refl

  text_loaded : (found : Loaded) → is_text found ≡ true → ¬ (found ≡ not_text)
  text_loaded found h e = cc (rw e at h)

  or_fault-returns :
      (root : Root) (name : String) (candidate : Option String) (result : Result StoredRecord)
      → OnlyRefuses result
      → (found : Found lib python) × (or_fault lib python name result (λ stored.
            if not (is_some candidate)
            then ok (faulty lib python stale_evidence name)
            else (attestation imported (resolve lib python root true stored) legacy_limits name
                >>= λ item. ok (attested item)))
          ≡ ok found)
        × IsImported found
  unfolding resolve
  or_fault-returns root name none (ok stored) h = (faulty lib python stale_evidence name, refl, tt)
  or_fault-returns root name (some c) (ok stored) h =
      let resolved = resolve lib python root true stored in
      (
        attested (record {
          kind = imported;
          resolved = resolved;
          limits = legacy_limits;
          origin = name;
        }),
        rw (imports resolved name refl) refl,
        (refl, refl, refl),
      )
  or_fault-returns root name candidate (raise (refusal reason)) h =
      (fault (record { reason = reason; check = name }), refl, tt)
  or_fault-returns root name candidate (raise _) (refuses h) = absurd h

  read_one-returns :
      (root : Root) (candidate : Option String) (document : Stores.Document)
      → readable document ≡ true
      → (found : Found lib python) × (read_one lib python imported legacy_limits root candidate
            document
          ≡ ok found)
        × IsImported found
  unfolding read_one
  read_one-returns root candidate document h =
      elim (Bool-cases (document.state.is_symlink || not document.state.is_file)) [
        | inl t ↦ (faulty lib python path_is_a_symlink document.name, rw (read_one, t) refl, tt)
        | inr f ↦
            let found = python.loads document.state.content in
            let read =
              read_evidence_record-OnlyRefuses document.state.content
                (text_loaded found (rw f at h)) in
            rw (read_one, f)
              (or_fault-returns root document.name candidate
                (read_evidence_record python document.state.content) read)
      ]

  not_text_raises :
      (found : Loaded) → is_text found ≡ false → document_of found ≡ raise other_exception
  unfolding document_of
  not_text_raises (loaded value) h = cc
  not_text_raises not_json h = cc
  not_text_raises not_text h = refl

  read_one-raises :
      (root : Root) (candidate : Option String) (document : Stores.Document)
      → readable document ≡ false
      → read_one lib python imported legacy_limits root candidate document ≡ raise other_exception
  unfolding read_one read_evidence_record
  read_one-raises root candidate document h =
      let (regular, damaged) =
        ||_false (document.state.is_symlink || not document.state.is_file)
          (is_text (python.loads document.state.content)) h in
      rw
        (
          read_one,
          regular,
          read_evidence_record,
          not_text_raises (python.loads document.state.content) damaged,
        )
        refl

  -- What reading a list of records gives
  abbrev Kept : Root → Option String → List Stores.Document → List (Found lib python) → Type 0
  Kept root candidate documents found =
      (traverse (read_one lib python imported legacy_limits root candidate) documents ≡ ok found)
      × All IsImport (attestations_of lib python found)
      × (length (faults_of lib python found) + length (attestations_of lib python found)
          ≡ length documents)

  keep :
      (found : Found lib python) (rest : List (Found lib python))
      → IsImported found
      → All IsImport (attestations_of lib python rest)
      → All IsImport (attestations_of lib python (found ∷ rest))
        × (length (faults_of lib python (found ∷ rest))
              + length (attestations_of lib python (found ∷ rest))
            ≡ length (faults_of lib python rest) + length (attestations_of lib python rest) + 1)
  keep (fault f) rest h k = (k, omega arith)
  keep (attested item) rest h k = ((h, k), omega arith)

  all-Kept :
      (root : Root) (candidate : Option String) (documents : List Stores.Document)
      → All (λ d. readable d ≡ true) documents
      → (found : List (Found lib python)) × Kept root candidate documents found
  all-Kept root candidate [] h = ([], (refl, tt, omega arith))
  all-Kept root candidate (d ∷ documents) (here, h) =
      let (found, read, is_import) = read_one-returns root candidate d here in
      let (rest, (reads, are_imports, count)) = all-Kept root candidate documents h in
      let (kept, more) = keep found rest is_import are_imports in
      (found ∷ rest, (rw (read, reads) refl, kept, omega (arith, count, more)))

  all_readable :
      (root : Root) (candidate : Option String) (documents : List Stores.Document)
      {found : List (Found lib python)}
      → traverse (read_one lib python imported legacy_limits root candidate) documents ≡ ok found
      → All (λ d. readable d ≡ true) documents
  all_readable root candidate [] h = tt
  all_readable root candidate (d ∷ documents) h =
      let (first, read, more) =
        >>=-eq-ok (read_one lib python imported legacy_limits root candidate d) _ h in
      let (rest, reads, same) =
        >>=-eq-ok (traverse (read_one lib python imported legacy_limits root candidate) documents) _
          more in
      (
        elim (Bool-cases (readable d)) [
          | inl t ↦ t
          | inr f ↦ cc (read_one-raises root candidate d f, read)
        ],
        all_readable root candidate documents reads,
      )

  -- If the candidate's document can be read, or there is none, the older records are read exactly where
  -- each of them that is a regular file is text. Then every one of them is an imported attestation with
  -- both permanent limits, or a fault, and none is lost; a single record that is no text ends the reading.
  pub read_first_iff :
      (root : Root) {candidate : Option String}
      → candidate_of lib python root.candidate ≡ ok candidate
      → ((reading : StoreReading) × (read_first lib python imported legacy_limits 1 root
            ≡ ok reading)
          × All IsImport reading.attestations
          × (length reading.faults + length reading.attestations ≡ length root.evidence))
        ↔ All (λ d. readable d ≡ true) root.evidence
  unfolding read_first
  read_first_iff root {candidate} named = (
    λ (reading, h, kept, count).
        let (found, reads, made) =
          >>=-eq-ok
            (traverse (read_one lib python imported legacy_limits root candidate) root.evidence) _
            (rw (read_first, named) at h) in
        all_readable root candidate root.evidence reads,
    λ texts.
        let (found, (reads, are_imports, count)) = all-Kept root candidate root.evidence texts in
        (
          record {
            version = 1;
            attestations = attestations_of lib python found;
            candidate = candidate;
            faults = faults_of lib python found;
          },
          rw (read_first, named, reads) refl,
          are_imports,
          count,
        ),
  )
