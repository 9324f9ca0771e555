-- ===== src/Attestation/Minting/Written.antt =====
-- Minting writes everything or nothing, and only what the rules allow (src/apex/attestation/minting.py).
use apex_fedora.Base.{◌⊎◌, Dict, List, String, ◌≡◌}
use apex_fedora.Kernel.Errors.{Result, ok, raise}
use apex_fedora.Kernel.Verdicts.{Verdict}
use apex_fedora.Kernel.Claims.{EnvironmentKind, ScopeLimit}
use apex_fedora.Attestation.Ledger.{Library}
use apex_fedora.Attestation.Ledger.Chain.{Store, append}
use apex_fedora.Attestation.Ledger.Growing.{grown}
use apex_fedora.Attestation.Proofs.{Proof, ProofStore}
use apex_fedora.Attestation.Minting.{
  Writes, CheckSpec, Offered, Minted, absorb_all, prepare, event_of, mint,
}
use apex_fedora.Attestation.Minting.Atomic.{IsAllowed}

module _ (lib : Library) (writes : Writes) (catalogue : Dict CheckSpec) (check : String)
    (verdict : Verdict) (offered : List Offered) (candidate : String) (witnessed : EnvironmentKind)
    (scope_limits : List ScopeLimit) (key stamp : String) (store : ProofStore) (chain : Store) where
  abbrev pub minting : Result Minted × (ProofStore × Store)
  minting =
      mint lib writes catalogue check verdict offered candidate witnessed scope_limits key stamp
        store chain

  -- What a minting writes: the proofs that were cited, and the entry behind the head of the chain.
  pub record IsWritten (minted : Minted) (after : ProofStore × Store) : Type 0 where
    pub allowed : IsAllowed catalogue check verdict offered witnessed
    pub filed : absorb_all lib writes offered store ≡ (ok minted.proofs, after.0)
    pub appended :
        append lib key stamp
          (event_of check verdict candidate witnessed scope_limits minted.proofs)
          chain
        ≡ ok (minted.sealed, after.1)

  -- What a minting leaves that was allowed and then raised in a port: proofs that were filed, and the chain
  -- as it was, or with the line of the new entry and the old record of the head.
  abbrev pub IsCutOff : ProofStore × Store → Type 0
  IsCutOff after =
      IsAllowed catalogue check verdict offered witnessed
      × (after.0 ≡ (absorb_all lib writes offered store).1)
      × ((after.1 ≡ chain)
          ⊎ ((proofs : List Proof) × (let event =
                  event_of check verdict candidate witnessed scope_limits proofs in
                after.1
                ≡ record (grown lib key stamp event chain) { head_record = chain.head_record })))

  -- A minting, by what it answers
  abbrev pub IsMinted : Result Minted → ProofStore × Store → Type 0
  IsMinted (ok minted) after = IsWritten minted after
  IsMinted (raise error) after =
      ((prepare lib catalogue check verdict offered witnessed ≡ raise error)
        × (after ≡ (store, chain)))
      ⊎ IsCutOff after
