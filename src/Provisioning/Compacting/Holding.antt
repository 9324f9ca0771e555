-- ===== src/Provisioning/Compacting/Holding.antt =====
-- What each step of src/apex/provisioning/compacting.py leaves behind it where it returns.
use apex_fedora.Base.{
  all, false, Bool-cases, Dict, In, List, String, [], arith, eqb_iff, inl, inr, ltb, refl, subst,
  sym, ◌++◌, ◌∷◌, ◌≡◌, ℕ, ◌≤◌, ◌+◌,
}
use apex_fedora.Kernel.Errors.{Result, Result-cases, ok, raise}
use apex_fedora.Kernel.Refusals.{RefusalReason}
use apex_fedora.Kernel.Documents.{Document, get, text, object}
use apex_fedora.Provisioning.Backing.{succeeded}
use apex_fedora.Provisioning.Compacting.{
  Act, Argv, convert, compare, check, info, Event, ran, FileIdentity, Host, World, ◌>>=◌,
  after_first, raise_of, save, note, refuse, command, answer, return_of, free, identity_of, digest,
  first_of, number, information, require_standalone, require_unchanged, projected, copy_checked,
  approve, accept, identified, same_at,
}
use apex_fedora.Provisioning.Compacting.Growing.{
  Kept, Grows, save-Grows, bind-Grows, answer-Grows, return-Grows, note-Grows, command-Grows,
  information-Grows, require_standalone-Grows, require_unchanged-Grows, projected-Grows,
}

-- What an act leaves where it returns
abbrev pub Holds : {A : Type 0} → (A → World → Type 0) → Result A × World → Type 0
Holds P (raise error, w) = Unit {0}
Holds P (ok a, w) = P a w

after-Holds :
    {A B : Type 0} (P : B → World → Type 0) (Q : A → World → Type 0) (r : Result A × World)
    (next : A → Act B)
    → Holds Q r
    → ((a : A) (w : World) → Q a w → Holds P (next a w))
    → Holds P (after_first r next)
after-Holds P Q (raise error, w) next holds later = tt
after-Holds P Q (ok a, w) next holds later = later a w holds

In-append : (e : Event) (more events : List Event) → In e events → In e (more ++ events)
In-append e [] events there = there
In-append e (m ∷ more) events there = inr (In-append e more events there)

-- What was asked stays written down.
Kept-In : (e : Event) (w v : World) → Kept w v → In e w.events → In e v.events
Kept-In e w v (more, whole, quiet) there =
    subst (In e) (sym whole) (In-append e more w.events there)

module _ (host : Host) where
  pub any-Holds : {A : Type 0} (r : Result A × World) → Holds (λ _ _. Unit {0}) r
  any-Holds (raise error, v) = tt
  any-Holds (ok a, v) = tt

  In-Holds :
      {A : Type 0} (e : Event) (w : World) (r : Result A × World)
      → Kept w r.1
      → In e w.events
      → Holds (λ _ v. In e v.events) r
  In-Holds e w (raise error, v) kept there = tt
  In-Holds e w (ok a, v) kept there = Kept-In e w v kept there

  refuse-Holds :
      {A : Type 0} (P : A → World → Type 0) (reason : RefusalReason) (detail : String) (w : World)
      → Holds P (refuse host reason detail w)
  unfolding refuse raise_of ◌>>=◌
  refuse-Holds P reason detail w =
      after-Holds P (λ _ _. Unit {0}) (note host (("error", text detail) ∷ []) w) _ (any-Holds _)
        λ _ v _. tt

  command-In :
      (argv : Argv) (w : World) → Holds (λ _ v. In (ran argv 0) v.events) (command host argv w)
  unfolding command return_of ◌>>=◌
  command-In argv w = elim (Result-cases (host.run w.events argv)) [
    | inr (error, e) ↦ rw (command, e) tt
    | inl (completed, e) ↦
        let asked : World = record {
          events = ran argv completed.exit_code ∷ w.events;
          report = record w.report {
            commands = w.report.commands ++ (argv, completed.exit_code) ∷ [];
          };
        } in
        let said = ran argv completed.exit_code in
        rw (command, e)
          (after-Holds (λ _ v. In (ran argv 0) v.events) (λ _ v. In said v.events) (save host asked)
            _ (In-Holds said asked (save host asked) ((save-Grows host).kept asked) (inl refl))
            λ _ v there. elim (Bool-cases (succeeded completed)) [
              | inl t ↦ rw t (
                  subst (λ n. In (ran argv n) v.events) ((eqb_iff completed.exit_code 0).0 t) there)
              | inr f ↦ rw f (refuse-Holds _ _ _ v)
            ])
  ]

  -- The copy was made, is sound, and compares equal.
  abbrev pub Compared : String → String → List Event → Type 0
  Compared source target events =
      In (ran (convert source target) 0) events
      × In (ran (check target) 0) events
      × In (ran (compare source target) 0) events

  pub copy_checked-Grows :
      (source target : String) (chain : List Document)
      → Grows (copy_checked host source target chain)
  unfolding copy_checked
  copy_checked-Grows source target chain = bind-Grows (command-Grows host _) λ _.
      bind-Grows (command-Grows host _) λ output. bind-Grows (information-Grows host _) λ after.
        bind-Grows (require_standalone-Grows host after (get "virtual-size" (first_of chain))) λ _.
          bind-Grows (command-Grows host _)
            λ _. bind-Grows (command-Grows host _) λ _. return-Grows _

  approve-Grows :
      (source target : String) (after : List Document) → Grows (approve host source target after)
  unfolding approve digest
  approve-Grows source target after = bind-Grows (answer-Grows _) λ hash.
      bind-Grows
        (note-Grows host
          (("after", object (first_of after)) ∷ ("compressed_sha256", text hash) ∷ []))
        λ _. bind-Grows (projected-Grows host _) λ available.
          bind-Grows (note-Grows host (("projected_free", number host available) ∷ []))
            λ _. return-Grows _

  pub accept-Grows :
      (source target : String) (after : List Document) (paths : List String)
      (identities : Dict FileIdentity)
      → Grows (accept host source target after paths identities)
  unfolding accept
  accept-Grows source target after paths identities =
      bind-Grows (require_unchanged-Grows host identities paths)
        λ _. approve-Grows source target after

  both-Hold :
      {A : Type 0} (P Q : A → World → Type 0) (r : Result A × World)
      → Holds P r
      → Holds Q r
      → Holds (λ a v. P a v × Q a v) r
  both-Hold P Q (raise error, v) p q = tt
  both-Hold P Q (ok a, v) p q = (p, q)

  pub copy_checked-Compared :
      (source target : String) (chain : List Document) (w : World)
      → Holds (λ _ v. Compared source target v.events) (copy_checked host source target chain w)
  unfolding copy_checked ◌>>=◌ return_of
  copy_checked-Compared source target chain w =
      let made = ran (convert source target) 0 in
      let sound = ran (check target) 0 in
      let P : List Document → World → Type 0 = λ _ v. Compared source target v.events in
      after-Holds P (λ _ v. In made v.events) (command host (convert source target) w) _
        (command-In (convert source target) w)
        λ _ w1 c.
          after-Holds P (λ _ v. In made v.events) (command host (info target) w1) _
            (In-Holds made w1 (command host (info target) w1)
              ((command-Grows host (info target)).kept w1) c)
            λ output w2 c.
              after-Holds P (λ _ v. In made v.events) (information host output w2) _
                (In-Holds made w2 (information host output w2)
                  ((information-Grows host output).kept w2) c)
                λ after w3 c.
                  let size = get "virtual-size" (first_of chain) in
                  after-Holds P (λ _ v. In made v.events) (require_standalone host after size w3) _
                    (In-Holds made w3 (require_standalone host after size w3)
                      ((require_standalone-Grows host after size).kept w3) c)
                    λ _ w4 c.
                      let checking = command host (check target) w4 in
                      after-Holds P (λ _ v. In made v.events × In sound v.events) checking _
                        (both-Hold (λ _ v. In made v.events) (λ _ v. In sound v.events) checking
                          (In-Holds made w4 checking ((command-Grows host (check target)).kept w4)
                            c)
                          (command-In (check target) w4))
                        λ _ w5 (c, d).
                          let comparing = command host (compare source target) w5 in
                          let grown = (command-Grows host (compare source target)).kept w5 in
                          let same = ran (compare source target) 0 in
                          after-Holds P
                            (λ _ v. In made v.events × (In sound v.events × In same v.events))
                            comparing _
                            (both-Hold (λ _ v. In made v.events)
                              (λ _ v. In sound v.events × In same v.events) comparing
                              (In-Holds made w5 comparing grown c)
                              (both-Hold (λ _ v. In sound v.events) (λ _ v. In same v.events)
                                comparing (In-Holds sound w5 comparing grown d)
                                (command-In (compare source target) w5)))
                            λ _ w6 (c, (d, e)). (c, d, e)

  projected-Fits :
      (source : String) (w : World) → Holds (λ a _. host.minimum_free ≤ a) (projected host source w)
  unfolding projected free identity_of answer return_of ◌>>=◌
  projected-Fits source w = elim (Result-cases (host.free_space w.events)) [
    | inr (error, e) ↦ rw e tt
    | inl (room, r) ↦ elim (Result-cases (host.identity w.events source)) [
      | inr (error, e) ↦ rw (r, e) tt
      | inl (held, e) ↦ elim (Bool-cases (ltb (room + held.allocated) host.minimum_free)) [
        | inl t ↦ rw (r, e, t) (refuse-Holds _ _ _ w)
        | inr f ↦ rw (r, e, f) (ground (arith, f))
      ]
    ]
  ]

  approve-Fits :
      (source target : String) (after : List Document) (w : World)
      → Holds (λ a _. host.minimum_free ≤ a) (approve host source target after w)
  unfolding approve digest answer return_of ◌>>=◌
  approve-Fits source target after w =
      let P : ℕ → World → Type 0 = λ a _. host.minimum_free ≤ a in
      after-Holds P (λ _ _. Unit {0}) (host.sha256 w.events target, w) _ (any-Holds _)
        λ hash w1 _.
          after-Holds P (λ _ _. Unit {0})
            (note host (("after", object (first_of after)) ∷ ("compressed_sha256", text hash) ∷ [])
              w1)
            _ (any-Holds _)
            λ _ w4 _.
              after-Holds P P (projected host source _) _ (projected-Fits source _)
                λ available w2 fits.
                  after-Holds P (λ _ _. Unit {0})
                    (note host (("projected_free", number host available) ∷ []) w2) _ (any-Holds _)
                    λ _ w3 _. fits

  require_unchanged-Idle :
      (identities : Dict FileIdentity) (paths : List String) (w : World)
      → Holds (λ _ v. host.is_running v.events ≡ false) (require_unchanged host identities paths w)
  unfolding require_unchanged answer return_of ◌>>=◌
  require_unchanged-Idle identities paths w =
      after-Holds (λ _ v. host.is_running v.events ≡ false) (λ _ _. Unit {0})
        (identified host paths [] w) _ (any-Holds _)
        λ current v _. elim (Bool-cases (host.is_running v.events)) [
          | inl t ↦ rw t (refuse-Holds _ _ _ v)
          | inr f ↦ elim (Bool-cases (all (same_at host current identities) paths)) [
            | inl t ↦ rw (f, t) f
            | inr g ↦ rw (f, g) (refuse-Holds _ _ _ v)
          ]
        ]

  -- A moment since then when no machine ran, and since when nothing was replaced
  abbrev pub Idle : World → World → Type 0
  Idle w v = (seen : World) × Kept w seen × Kept seen v × (host.is_running seen.events ≡ false)

  since-Idle :
      (w seen : World) (r : Result ℕ × World)
      → Kept w seen
      → host.is_running seen.events ≡ false
      → Kept seen r.1
      → Holds (λ a _. host.minimum_free ≤ a) r
      → Holds (λ a v. (host.minimum_free ≤ a) × Idle w v) r
  since-Idle w seen (raise error, v) kept idle more fits = tt
  since-Idle w seen (ok a, v) kept idle more fits = (fits, (seen, kept, more, idle))

  Holds-Kept :
      {A : Type 0} (w : World) (r : Result A × World) → Kept w r.1 → Holds (λ _ v. Kept w v) r
  Holds-Kept w (raise error, v) kept = tt
  Holds-Kept w (ok a, v) kept = kept

  pub accept-Fits :
      (source target : String) (after : List Document) (paths : List String)
      (identities : Dict FileIdentity) (w : World)
      → Holds
          (λ a v. (host.minimum_free ≤ a) × Idle w v)
          (accept host source target after paths identities w)
  unfolding accept ◌>>=◌
  accept-Fits source target after paths identities w =
      let unchanged = require_unchanged host identities paths w in
      let grown = (require_unchanged-Grows host identities paths).kept w in
      after-Holds (λ a v. (host.minimum_free ≤ a) × Idle w v)
        (λ _ v. Kept w v × (host.is_running v.events ≡ false)) unchanged _
        (both-Hold (λ _ v. Kept w v) (λ _ v. host.is_running v.events ≡ false) unchanged
          (Holds-Kept w unchanged grown) (require_unchanged-Idle identities paths w))
        λ _ seen (kept, idle).
          since-Idle w seen (approve host source target after seen) kept idle
            ((approve-Grows source target after).kept seen) (approve-Fits source target after seen)
