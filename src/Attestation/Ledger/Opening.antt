-- ===== src/Attestation/Ledger/Opening.antt =====
-- `parse_head`, `signer_at` and `read_chain` of src/apex/attestation/ledger.py: what is read back of the files
-- of a chain. A file that is not there is `none`; `read_bytes` of a file that is there answers or raises.
use apex_fedora.Base.{
  Bool, Bytes, List, Option, String, [], any, eqb, if◌then◌else◌, leb, length, none, not, some,
  split, ◌&&◌, ◌||◌, ◌∷◌, ℕ,
}
use apex_fedora.Kernel.Refusals.{stale_evidence}
use apex_fedora.Kernel.Errors
use apex_fedora.Kernel.Errors.{Result, ok, raise, refusal}
use apex_fedora.Attestation.Ledger.{ℤ, Json, decoded, not_json, undecodable, Library, Head}
use apex_fedora.Attestation.Ledger.Parsing.{get, accepted, ◌>>=◌}

abbrev key_hex : ℕ
key_hex = 64

abbrev unreadable : {A : Type 0} → Result A
unreadable = raise (refusal stale_evidence)

-- `char in "0123456789abcdef"`, for a code point
abbrev is_hex : ℕ → Bool
is_hex c = leb 48 c && leb c 57 || leb 97 c && leb c 102

-- `[line for line in body.split(b"\n") if line]`
abbrev pub full_lines : List Bytes → List Bytes
full_lines [] = []
full_lines ([] ∷ lines) = full_lines lines
full_lines ((c ∷ cs) ∷ lines) = (c ∷ cs) ∷ full_lines lines

module _ (lib : Library) where
  -- What is built of a head record behind its sequence
  abbrev head_in : Json → ℤ → Option Head
  head_in document sequence = do
    link ← get "link" document
    digest ← accepted lib.is_digest (lib.str_of link)
    some (record { sequence = sequence; link = digest })

  -- `parse_head`
  unfoldable pub parse_head : Bytes → Result Head
  parse_head payload = elim (lib.loads payload) [
    | decoded document ↦ elim (get "sequence" document) [
      | none ↦ unreadable
      | some value ↦ elim (lib.int_of value) [
        | raise e ↦ raise e
        | ok none ↦ unreadable
        | ok (some sequence) ↦ elim (head_in document sequence) [
          | none ↦ unreadable
          | some head ↦ ok head
        ]
      ]
    ]
    | not_json ↦ unreadable
    | undecodable ↦ unreadable
  ]

  -- `_stored_head`
  unfoldable pub stored_head : Option (Result Bytes) → Result (Option Head)
  unfolding parse_head
  stored_head none = ok none
  stored_head (some file) =
      Errors.◌>>=◌ file λ payload. Errors.◌>>=◌ (parse_head payload) λ head. ok (some head)

  -- `signer_at`, with the key that the signer holds
  unfoldable pub signer_at : Option (Result Bytes) → Result (Option String)
  signer_at none = ok none
  signer_at (some file) = Errors.◌>>=◌ file λ content.
      let material = lib.stripped content in
      if not (eqb (length material) key_hex) || any (λ c. not (is_hex c)) material
      then unreadable
      else ok (some (lib.spelled material))

  -- `read_chain`
  unfoldable pub read_chain :
      Option (Result Bytes) → Option (Result Bytes) → Result (List Bytes × Option Head)
  unfolding split stored_head
  read_chain chain_file head_file =
      let body : Result Bytes = elim chain_file [ none ↦ ok [] | some file ↦ file ] in
      Errors.◌>>=◌ body λ content.
        Errors.◌>>=◌ (stored_head head_file) λ head. ok (full_lines (split 10 content), head)
