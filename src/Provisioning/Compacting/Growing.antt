-- ===== src/Provisioning/Compacting/Growing.antt =====
-- Before the swap, the steps of src/apex/provisioning/compacting.py only ask more of the ports, and replace nothing.
use apex_fedora.Base.{
  not, All, All-append, Bool, Bytes, Dict, List, String, [], sym, append_assoc, ap, false,
  if◌then◌else◌, inl, inr, refl, true, ◌++◌, ◌∙◌, ◌∷◌, ◌≡◌,
}
use apex_fedora.Kernel.Errors.{Raised, Result, Result-cases, ok, raise}
use apex_fedora.Kernel.Refusals.{RefusalReason, compaction_validation_failed}
use apex_fedora.Kernel.Documents.{JsonValue, text, Document}
use apex_fedora.Provisioning.Backing.{CompletedRun, succeeded}
use apex_fedora.Provisioning.Compacting.{
  Act, Argv, Event, replaced, FileIdentity, Host, World, ◌>>=◌, after_first, note, refuse, command,
  saved, ran, raise_of, writing, save, updated, each, identified, answer, return_of, free,
  identity_of, digest, path_in, before_value, survey, information, require_plain,
  require_standalone, require_unchanged, projected,
}

abbrev pub IsQuiet : Event → Type 0
IsQuiet (replaced target source) = ⊥
IsQuiet _ = Unit {0}

-- From one world to another nothing was replaced.
abbrev pub Kept : World → World → Type 0
Kept w later = (more : List Event) × (later.events ≡ more ++ w.events) × All IsQuiet more

pub record Grows {A : Type 0} (act : Act A) : Type 0 where
  pub kept : (w : World) → Kept w (act w).1

pub Kept-trans : (a b c : World) → Kept a b → Kept b c → Kept a c
Kept-trans a b c (first, e, quiet) (rest, f, calm) = (
  rest ++ first,
  f ∙ ap (λ events. rest ++ events) e ∙ sym (append_assoc rest first a.events),
  All-append IsQuiet rest first calm quiet,
)

after-Kept :
    {A B : Type 0} (w : World) (r : Result A × World) (next : A → Act B)
    → Kept w r.1
    → ((a : A) → Grows (next a))
    → Kept w (after_first r next).1
after-Kept w (raise error, v) next kept grows = kept
after-Kept w (ok a, v) next kept grows = Kept-trans w v (next a v).1 kept ((grows a).kept v)

pub bind-Grows :
    {A B : Type 0} {first : Act A} {next : A → Act B}
    → Grows first
    → ((a : A) → Grows (next a))
    → Grows (first >>= next)
unfolding ◌>>=◌
bind-Grows {first} {next} grows later = record {
  kept = λ w. after-Kept w (first w) next (grows.kept w) later;
}

pub answer-Grows : {A : Type 0} (ask : List Event → Result A) → Grows (answer ask)
unfolding answer
answer-Grows ask = record { kept = λ w. ([], refl, tt) }

pub return-Grows : {A : Type 0} (a : A) → Grows (return_of a)
unfolding return_of
return-Grows a = record { kept = λ w. ([], refl, tt) }

pub raise-Grows : {A : Type 0} (error : Raised) → Grows (raise_of {A = A} error)
unfolding raise_of
raise-Grows error = record { kept = λ w. ([], refl, tt) }

writing-Grows :
    (port : List Event → Result (Unit {0})) (event : Event)
    → IsQuiet event
    → Grows (writing port event)
unfolding writing
writing-Grows port event quiet = record {
  kept = λ w. elim (Result-cases (port w.events)) [
    | inr (error, e) ↦ rw (writing, e) ([], refl, tt)
    | inl (done, e) ↦ rw (writing, e) (event ∷ [], refl, (quiet, tt))
  ];
}

-- A test that refuses, or goes on
pub guard-Grows :
    {A : Type 0} (b : Bool) {x y : Act A} → Grows x → Grows y → Grows (if b then x else y)
guard-Grows true f g = f
guard-Grows false f g = g

module _ (host : Host) where
  pub save-Grows : Grows (save host)
  unfolding save
  save-Grows = record { kept = λ w. (writing-Grows host.write_report (saved w.report) tt).kept w }

  pub note-Grows : (fields : Dict JsonValue) → Grows (note host fields)
  unfolding note
  note-Grows fields = record {
    kept = λ w.
        save-Grows.kept
          (record w { report = record w.report { notes = updated fields w.report.notes } });
  }

  pub refuse-Grows :
      (A : Type 0) (reason : RefusalReason) (detail : String)
      → Grows (refuse host {A = A} reason detail)
  unfolding refuse
  refuse-Grows A reason detail =
      bind-Grows (note-Grows (("error", text detail) ∷ [])) (λ _. raise-Grows _)

  -- A command is judged once it is recorded.
  abbrev judged : CompletedRun → Act Bytes
  judged completed = save host >>= λ _.
      if not (succeeded completed)
      then refuse host compaction_validation_failed "exited"
      else return_of completed.stdout

  judged-Grows : (completed : CompletedRun) → Grows (judged completed)
  judged-Grows completed =
      bind-Grows save-Grows (λ _. guard-Grows _ (refuse-Grows _ _ _) (return-Grows _))

  pub command-Grows : (argv : Argv) → Grows (command host argv)
  unfolding command
  command-Grows argv = record {
    kept = λ w. elim (Result-cases (host.run w.events argv)) [
      | inr (error, e) ↦ rw (command, e) ([], refl, tt)
      | inl (completed, e) ↦
          let asked : World = record {
            events = ran argv completed.exit_code ∷ w.events;
            report = record w.report {
              commands = w.report.commands ++ (argv, completed.exit_code) ∷ [];
            };
          } in
          rw (command, e)
            (Kept-trans w asked (judged completed asked).1
              (ran argv completed.exit_code ∷ [], refl, (tt, tt))
              ((judged-Grows completed).kept asked))
    ];
  }

  pub each-Grows :
      {A B : Type 0} (f : A → Act B) (xs : List A)
      → ((x : A) → Grows (f x))
      → Grows (each host f xs)
  unfolding each
  each-Grows f [] grows = return-Grows _
  each-Grows f (x ∷ xs) grows =
      bind-Grows (grows x) (λ y. bind-Grows (each-Grows f xs grows) (λ ys. return-Grows _))

  pub identified-Grows :
      (paths : List String) (found : Dict FileIdentity) → Grows (identified host paths found)
  unfolding identified identity_of
  identified-Grows [] found = return-Grows _
  identified-Grows (path ∷ paths) found =
      bind-Grows (answer-Grows _) (λ identity. identified-Grows paths _)

  pub information-Grows : (output : Bytes) → Grows (information host output)
  unfolding information
  information-Grows output = bind-Grows (answer-Grows _) (λ document. return-Grows _)

  pub require_plain-Grows : (chain : List Document) → Grows (require_plain host chain)
  unfolding require_plain
  require_plain-Grows chain =
      guard-Grows _ (refuse-Grows _ _ _) (guard-Grows _ (return-Grows tt) (refuse-Grows _ _ _))

  pub require_standalone-Grows :
      (after : List Document) (expected : JsonValue)
      → Grows (require_standalone host after expected)
  unfolding require_standalone
  require_standalone-Grows after expected =
      bind-Grows (require_plain-Grows after)
        (λ _. guard-Grows _ (refuse-Grows _ _ _) (return-Grows tt))

  pub require_unchanged-Grows :
      (identities : Dict FileIdentity) (paths : List String)
      → Grows (require_unchanged host identities paths)
  unfolding require_unchanged
  require_unchanged-Grows identities paths = bind-Grows (identified-Grows paths []) (λ current.
      bind-Grows (answer-Grows _) (λ running. guard-Grows _ (refuse-Grows _ _ _) (return-Grows tt)))

  pub projected-Grows : (source : String) → Grows (projected host source)
  unfolding projected free identity_of
  projected-Grows source = bind-Grows (answer-Grows _) (λ available.
      bind-Grows (answer-Grows _) (λ held. guard-Grows _ (refuse-Grows _ _ _) (return-Grows _)))

  pub survey-Grows : (source : String) → Grows (survey host source)
  unfolding survey free identity_of digest path_in
  survey-Grows source = bind-Grows (command-Grows _) λ told.
      bind-Grows (note-Grows (("version", text (host.decode told)) ∷ [])) λ _.
        bind-Grows (command-Grows _) λ output. bind-Grows (information-Grows _) λ chain.
          bind-Grows (require_plain-Grows chain) λ _.
            bind-Grows (each-Grows _ _ (λ document. answer-Grows _)) λ paths.
              bind-Grows (identified-Grows _ _) λ identities.
                bind-Grows (answer-Grows _) λ available.
                  bind-Grows
                    (note-Grows (("before", before_value host chain identities available) ∷ []))
                    λ _. bind-Grows (answer-Grows _) λ held. bind-Grows (answer-Grows _) λ room.
                      bind-Grows (guard-Grows _ (refuse-Grows _ _ _) (return-Grows tt)) λ _.
                        bind-Grows (each-Grows _ _ (λ path. command-Grows _)) λ _.
                          bind-Grows (answer-Grows _) λ hash.
                            bind-Grows (note-Grows (("source_sha256", text hash) ∷ []))
                              λ _. return-Grows _
