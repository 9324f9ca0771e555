-- ===== src/Attestation/Proofs.antt =====
-- src/apex/attestation/proofs.py: proofs named by their own content. The path of an object is a function of its
-- digest, so the files of the store are kept here by digest.
pub mod Whole
use apex_fedora.Base.{
  Bool, Bytes, Dict, List, String, [], contains, eqb, false, has, if◌then◌else◌, insert, leb,
  length, lookup, none, not, some, take, ℕ, ◌&&◌, ◌*◌, ◌+◌, ◌==◌, ◌||◌, ◌∷◌,
}
use apex_fedora.Kernel.Refusals.{proof_kind_not_accepted, proof_is_empty, proof_altered}
use apex_fedora.Kernel.Errors.{Result, ok, raise, raise_if, refusal, port_failure, ◌>>=◌, ◌>>◌}
use apex_fedora.Attestation.Ledger.{Library}

-- `PERMITTED_PROOF_KINDS` of registry/descriptors.py
abbrev pub permitted_proof_kinds : List String
permitted_proof_kinds = ".txt" ∷ ".log" ∷ ".json" ∷ ".png" ∷ ".ppm" ∷ ".xml" ∷ []

abbrev pub object_limit : ℕ
object_limit = 64 * 1024 * 1024

pub record Proof : Type 0 where
  pub digest : String
  pub kind : String
  pub byte_count : ℕ

-- `ProofStore`, with the objects that its files hold
pub record ProofStore : Type 0 where
  pub objects : Dict Bytes
  pub absorbed : ℕ

-- `Proof(...)`
unfoldable pub proof : String → String → ℕ → Result Proof
proof digest kind byte_count = do
  raise_if (not (contains kind permitted_proof_kinds)) (refusal proof_kind_not_accepted)
  raise_if (leb byte_count 0) (refusal proof_is_empty)
  ok (record { digest = digest; kind = kind; byte_count = byte_count })

module _ (lib : Library) where
  -- `address`
  abbrev pub address : Bytes → String
  address payload = lib.sha256 payload

  -- `ProofStore.absorb`
  unfoldable pub absorb : Bytes → String → ProofStore → Result (Proof × ProofStore)
  absorb payload kind store = proof (address payload) kind (length payload) >>= λ cited.
      if has cited.digest store.objects
      then ok (cited, store)
      else ok (
        cited,
        record {
          objects = insert cited.digest payload store.objects;
          absorbed = store.absorbed + 1;
        },
      )

  -- `ProofStore.holds`
  unfoldable pub holds : Proof → ProofStore → Bool
  holds cited store = has cited.digest store.objects

  -- `ProofStore.intact`
  unfoldable pub intact : String → ProofStore → Bool
  intact digest store = elim (lookup digest store.objects) [
    | none ↦ false
    | some object ↦
        let payload = take (object_limit + 1) object in
        leb (length payload) object_limit && address payload == digest
  ]

  -- `ProofStore.load`: the read asks for one byte more than the record claims, and a file that is
  -- not there fails in the port.
  unfoldable pub load : Proof → ProofStore → Result Bytes
  load cited store = elim (lookup cited.digest store.objects) [
    | none ↦ raise port_failure
    | some object ↦
        let payload = take (cited.byte_count + 1) object in
        if not (eqb (length payload) cited.byte_count) || not (address payload == cited.digest)
        then raise (refusal proof_altered)
        else ok payload
  ]
