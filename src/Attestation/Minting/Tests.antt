-- ===== src/Attestation/Minting/Tests.antt =====
-- The theorems on proofs and minting, applied to a check with one screenshot as its proof.
use apex_fedora.Base.{
  Bytes, Dict, List, [], has, inl, insert, length, lookup, none, refl, some, true, ◌∷◌, ◌≡◌,
}
use apex_fedora.Kernel.Errors.{ok}
use apex_fedora.Kernel.Claims.{live_vm}
use apex_fedora.Attestation.Ledger.{not_json, Library, empty_head}
use apex_fedora.Attestation.Ledger.Chain.{Store}
use apex_fedora.Attestation.Proofs.{Proof, ProofStore, proof, address, absorb, load}
use apex_fedora.Attestation.Proofs.Whole.{load-whole, absorb-load}
use apex_fedora.Attestation.Minting.{Writes, CheckSpec, Offered}

-- A library whose digest tells the empty payload from the others.
abbrev small : Library
small = record {
  encode = λ s. [];
  sha256 = λ b. elim b [ [] ↦ "empty" | x ∷ xs ↦ "full" ];
  hmac = λ key b. "code";
  dumps = λ j. [];
  loads = λ b. not_json;
  is_ascii = λ s. true;
  stripped = λ b. b;
  spelled = λ cs. "key";
  int_of = λ j. ok none;
  str_of = λ j. "";
  is_digest = λ s. true;
  is_check = λ s. true;
}

abbrev screen : Bytes
screen = 1 ∷ 2 ∷ 3 ∷ []

abbrev nothing : ProofStore
nothing = record { objects = []; absorbed = 0 }

abbrev screenshot : Proof
screenshot = record { digest = "full"; kind = ".png"; byte_count = 3 }

abbrev filed : ProofStore
filed = record { objects = ("full", screen) ∷ []; absorbed = 1 }

screen_absorbed : absorb small screen ".png" nothing ≡ ok (screenshot, filed)
unfolding absorb proof has insert
screen_absorbed = refl

screen_loaded : load small screenshot filed ≡ ok screen
unfolding load lookup
screen_loaded = refl

nothing_filed : lookup "full" nothing.objects ≡ none
unfolding lookup
nothing_filed = refl

load-whole_example :
    (lookup screenshot.digest filed.objects ≡ some screen)
    × (length screen ≡ screenshot.byte_count)
    × (address small screen ≡ screenshot.digest)
load-whole_example = load-whole small screenshot filed screen screen_loaded

absorb-load_example : load small screenshot filed ≡ ok screen
absorb-load_example =
    absorb-load small screen ".png" nothing screenshot filed screen_absorbed (inl nothing_filed)

abbrev catalogue : Dict CheckSpec
catalogue =
    (
      "boots",
      record {
        id = "boots";
        group = "installer";
        environment = live_vm;
        accepted_proof_kinds = ".png" ∷ [];
      },
    )
    ∷ []

abbrev offered : List Offered
offered = record { payload = screen; kind = ".png" } ∷ []

abbrev chain : Store
chain = record { head = empty_head; lines = []; head_record = none }

-- Every write is done.
abbrev done : Writes
done = record { object = λ digest. ok tt; line = ok tt; head = ok tt }
