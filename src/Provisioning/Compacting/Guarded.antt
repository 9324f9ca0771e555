-- ===== src/Provisioning/Compacting/Guarded.antt =====
-- The swap of src/apex/provisioning/compacting.py comes after every check.
use apex_fedora.Base.{subst, sym, ◌++◌, ◌⊎◌, inl, inr, List, String, [], refl, ◌∷◌, ◌≡◌, ℕ, ◌≤◌}
use apex_fedora.Kernel.Errors.{Result, Result-cases, ok, raise}
use apex_fedora.Provisioning.Compacting.{
  updated, pending_fields, complete_fields, Event, writing, save, Act, Report, saved, replaced,
  Host, World, ◌>>=◌, after_first, note, answer, return_of, free, survey, copy_checked, accept,
  swap, compact,
}
use apex_fedora.Provisioning.Compacting.Growing.{Kept, Kept-trans, survey-Grows}
use apex_fedora.Provisioning.Compacting.Holding.{
  Holds, any-Holds, Compared, Idle, copy_checked-Grows, accept-Grows, copy_checked-Compared,
  accept-Fits,
}

module _ (host : Host) where
  -- The disk was replaced once, after all that was checked; `later` is what was asked behind the rename.
  abbrev pub Swapped : String → String → World → List Event → World → Type 0
  Swapped source target w later v =
      (compared : World) × (before : World) × (pending : Report) × Kept w compared
      × Compared host source target compared.events
      × Idle host compared before
      × (v.events ≡ later ++ replaced target source ∷ saved pending ∷ before.events)

  -- A run from a world: one that raises has replaced nothing, or it has replaced the disk after all that
  -- was checked and was cut off behind that; one that returns has replaced it and saved that it had.
  abbrev pub IsGuarded : String → String → World → Result ℕ × World → Type 0
  IsGuarded source target w (raise error, v) = Kept w v ⊎ Swapped source target w [] v
  IsGuarded source target w (ok available, v) =
      (complete : Report) × Swapped source target w (saved complete ∷ []) v
      × (host.minimum_free ≤ available)

  guarded :
      {A : Type 0} (source target : String) (w v : World) (Q : A → World → Type 0)
      (r : Result A × World) (next : A → Act ℕ)
      → Kept w v
      → Kept v r.1
      → Holds Q r
      → ((a : A) (u : World) → Kept w u → Kept v u → Q a u → IsGuarded source target w (next a u))
      → IsGuarded source target w (after_first r next)
  guarded source target w v Q (raise error, u) next kept more holds later =
      inl (Kept-trans w v u kept more)
  guarded source target w v Q (ok a, u) next kept more holds later =
      later a u (Kept-trans w v u kept more) more holds

  -- From the world in which everything was checked, through the swap
  swapped :
      (source target : String) (w before : World) (compared : World) (available : ℕ)
      → Kept w compared
      → Compared host source target compared.events
      → Idle host compared before
      → host.minimum_free ≤ available
      → Kept w before
      → IsGuarded source target w ((swap host source target >>= λ _. return_of available) before)
  unfolding swap save note writing ◌>>=◌ return_of free answer
  swapped source target w before compared available kept done idle fits all_kept =
      let pending : Report = record before.report {
        notes = updated (pending_fields host) before.report.notes;
      } in
      let waiting = saved pending ∷ before.events in
      let renamed = replaced target source ∷ waiting in
      elim (Result-cases (host.write_report before.events)) [
        | inr (error, e) ↦ rw (writing, e) (inl all_kept)
        | inl (_, e) ↦ elim (Result-cases (host.replace waiting)) [
          | inr (error, f) ↦
              rw (writing, e, f)
                (inl (
                  Kept-trans w before (record { events = waiting; report = pending }) all_kept
                    (saved pending ∷ [], refl, (tt, tt))))
          | inl (_, f) ↦ elim (Result-cases (host.free_space renamed)) [
            | inr (error, g) ↦
                rw (writing, e, f, g) (inr (compared, before, pending, kept, done, idle, refl))
            | inl (room, g) ↦ elim (Result-cases (host.write_report renamed)) [
              | inr (error, h) ↦
                  rw (writing, e, f, g, h) (inr (compared, before, pending, kept, done, idle, refl))
              | inl (_, h) ↦
                  let complete : Report = record pending {
                    notes = updated (complete_fields host room) pending.notes;
                  } in
                  let end : World = record {
                    events = saved complete ∷ renamed;
                    report = complete;
                  } in
                  let ends : (swap host source target >>= λ _. return_of available) before
                      ≡ (ok available, end) =
                    rw (writing, e, f, g, h) refl in
                  subst (IsGuarded source target w) (sym ends)
                    (complete, (compared, before, pending, kept, done, idle, refl), fits)
            ]
          ]
        ]
      ]

  -- A compaction that raises has replaced nothing, unless a port failed behind the rename; one that returns
  -- has replaced the disk and saved a report behind that. Where the disk was replaced, it was so exactly
  -- once, and before that the copy had been made by a conversion that succeeded, checked without a fault
  -- and compared equal to the disk, at some moment after that no machine ran, and the report was saved; the
  -- space that is answered is what a launch demands or more.
  pub compact-IsGuarded :
      (source target : String) (w : World)
      → IsGuarded source target w (compact host source target w)
  unfolding compact ◌>>=◌
  compact-IsGuarded source target w =
      guarded source target w w (λ _ _. Unit {0}) (survey host source w) _ ([], refl, tt)
        ((survey-Grows host source).kept w) (any-Holds host _)
        λ (chain, paths, identities) w1 k1 _ _.
          guarded source target w w1 (λ _ v. Compared host source target v.events)
            (copy_checked host source target chain w1) _ k1
            ((copy_checked-Grows host source target chain).kept w1)
            (copy_checked-Compared host source target chain w1)
            λ after w2 k2 _ compared.
              guarded source target w w2 (λ a v. (host.minimum_free ≤ a) × Idle host w2 v)
                (accept host source target after paths identities w2) _ k2
                ((accept-Grows host source target after paths identities).kept w2)
                (accept-Fits host source target after paths identities w2)
                λ available w3 k3 _ (fits, idle).
                  swapped source target w w3 w2 available k2 compared idle fits k3
