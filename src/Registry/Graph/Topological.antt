-- ===== src/Registry/Graph/Topological.antt =====
-- The order that `_topological` derives (src/apex/registry/graph.py): every unit once, behind its needs.
use apex_fedora.Base.{
  All, All-contains, All-lookup, All-mono, Distinct, Distinct-append, List, String, [], append-nil,
  append_assoc, arith, contains, contains-append, contains-difference, false, has, keys, length,
  lookup, not, refl, some, sym, true, ◌&&◌, ◌++◌, ◌||◌, ◌∙◌, ◌∷◌, ◌≡◌,
}
use native.Mathlib.Nat.{le_refl}
use apex_fedora.Kernel.Errors.{Result, ok, raise, registration_error}
use apex_fedora.Registry.Graph.{ready, remove_all, satisfy, after_round, topological}
use apex_fedora.Registry.Graph.Rounds.{
  Needs, rounds_ind, has-satisfy, keys-satisfy, has-remove_all, Distinct-remove_all, All-remove_all,
  All-satisfy, All-ready, contains-ready, Distinct-ready,
}

-- The unit's needs in `deps` are all in `seen`.
abbrev pub IsMet : Needs → List String → String → Type 0
IsMet deps seen x =
    (needs : List String) × (lookup x deps ≡ some needs) × All (λ n. contains n seen ≡ true) needs

-- Every unit of the list stands behind what it needs, given what was seen before the list.
abbrev pub IsOrdered : Needs → List String → List String → Type 0
IsOrdered deps seen [] = Unit
IsOrdered deps seen (x ∷ xs) = IsMet deps seen x × IsOrdered deps (seen ++ x ∷ []) xs

abbrev Covers : List String → List String → Type 0
Covers seen more = (n : String) → contains n seen ≡ true → contains n more ≡ true

IsMet-mono :
    (deps : Needs) (seen more : List String) (x : String)
    → Covers seen more
    → IsMet deps seen x
    → IsMet deps more x
IsMet-mono deps seen more x c (needs, e, h) = (needs, e, All-mono c needs h)

Covers-snoc :
    (seen more : List String) (x : String) → Covers seen more → Covers seen (more ++ x ∷ [])
Covers-snoc seen more x c n h = ground (arith, contains-append n more (x ∷ []), c n)

All-IsOrdered :
    (deps : Needs) (seen more xs : List String)
    → Covers seen more
    → All (IsMet deps seen) xs
    → IsOrdered deps more xs
All-IsOrdered deps seen more [] c h = tt
All-IsOrdered deps seen more (x ∷ xs) c h = (
  IsMet-mono deps seen more x c h.0,
  All-IsOrdered deps seen (more ++ x ∷ []) xs (Covers-snoc seen more x c) h.1,
)

IsOrdered-append :
    (deps : Needs) (seen xs ys : List String)
    → IsOrdered deps seen xs
    → IsOrdered deps (seen ++ xs) ys
    → IsOrdered deps seen (xs ++ ys)
IsOrdered-append deps seen [] ys h k = rw append-nil at k
IsOrdered-append deps seen (x ∷ xs) ys h k =
    (h.0, IsOrdered-append deps (seen ++ x ∷ []) xs ys h.1 (rw append_assoc k))

-- A unit that remains: each of its needs remains, or is resolved.
abbrev pub IsPending : Needs → List String → String × List String → Type 0
IsPending deps resolved item =
    (needs : List String) × (lookup item.0 deps ≡ some needs)
    × All (λ n. (contains n item.1 || contains n resolved) ≡ true) needs

-- What holds between the rounds.
pub record Invariant (deps d : Needs) (resolved : List String) : Type 0 where
  pub covers : (k : String) → has k deps ≡ (contains k resolved || has k d)
  pub apart : (k : String) → contains k resolved ≡ true → has k d ≡ false
  pub distinct_keys : Distinct (keys d)
  pub distinct : Distinct resolved
  pub pending : All (IsPending deps resolved) d
  pub ordered : IsOrdered deps [] resolved

pending_ready :
    (deps d : Needs) (resolved : List String)
    → All (IsPending deps resolved) d
    → All (IsMet deps resolved) (ready d)
pending_ready deps d resolved =
    All-ready (IsPending deps resolved) (IsMet deps resolved)
      (λ k (needs, e, h). (needs, e, All-mono (λ n h'. h') needs h)) d

IsPending-round :
    (deps d : Needs) (resolved names : List String)
    → All (IsPending deps resolved) d
    → All (IsPending deps (resolved ++ names)) (satisfy names (remove_all names d))
IsPending-round deps d resolved names h =
    All-satisfy (IsPending deps resolved) (IsPending deps (resolved ++ names)) names
      (λ k left (needs, e, met). (
        needs,
        e,
        All-mono
            (λ n m.
              ground (arith, contains-difference n left names, contains-append n resolved names))
            needs met,
      ))
      (remove_all names d) (All-remove_all (IsPending deps resolved) names d h)

pub has-after_round :
    (k : String) (d : Needs) → has k (after_round d) ≡ (not (contains k (ready d)) && has k d)
has-after_round k d =
    rw (has-satisfy k (ready d) (remove_all (ready d) d)) (has-remove_all k (ready d) d)

Invariant-round :
    (deps d : Needs) (resolved : List String)
    → Invariant deps d resolved
    → Invariant deps (after_round d) (resolved ++ ready d)
Invariant-round deps d resolved i = record {
  covers = λ k.
      i.covers k
      ∙ ground
          (arith, has-after_round k d, contains-append k resolved (ready d), contains-ready k d);
  apart = λ k h.
      ground (arith, has-after_round k d, contains-append k resolved (ready d), i.apart k, h);
  distinct_keys =
      rw (keys-satisfy (ready d) (remove_all (ready d) d))
        (Distinct-remove_all (ready d) d i.distinct_keys);
  distinct =
      Distinct-append resolved (ready d) i.distinct (Distinct-ready d i.distinct_keys)
        (λ k h. ground (arith, i.apart k, contains-ready k d));
  pending = IsPending-round deps d resolved (ready d) i.pending;
  ordered = IsOrdered-append deps [] resolved (ready d) i.ordered (
      All-IsOrdered deps resolved resolved (ready d) (λ n h. h)
        (pending_ready deps d resolved i.pending));
}

-- The dependencies themselves, before the first round.
IsPending-start : (deps : Needs) → Distinct (keys deps) → All (IsPending deps []) deps
IsPending-start deps h =
    All-mono (λ item e. (item.1, e, All-mono (λ n m. rw m) item.1 (All-contains item.1))) deps
      (All-lookup deps h)

pub Invariant-start : (deps : Needs) → Distinct (keys deps) → Invariant deps deps []
Invariant-start deps h = record {
  covers = λ k. refl;
  apart = λ k h. cc;
  distinct_keys = h;
  distinct = tt;
  pending = IsPending-start deps h;
  ordered = tt;
}

-- What a returned order is: every unit once and nothing else, each behind all that it needs.
abbrev pub IsOrderOf : Needs → Result (List String) → Type 0
IsOrderOf deps (ok ids) =
    Distinct ids × ((k : String) → contains k ids ≡ has k deps) × IsOrdered deps [] ids
IsOrderOf deps (raise e) = e ≡ registration_error

-- Where the units are distinct, the loop gives an order (every unit once and nothing else, each
-- behind all that it needs), or it raises a RegistrationError; it has no other outcome.
pub topological-IsOrderOf :
    (deps : Needs) → Distinct (keys deps) → IsOrderOf deps (topological deps)
unfolding topological
topological-IsOrderOf deps h =
    rounds_ind {P = Invariant deps} {Q = IsOrderOf deps}
      (record {
        finish = λ resolved i.
            (i.distinct, λ k. sym (i.covers k ∙ (unfold has in ground arith)), i.ordered);
        stuck = λ d resolved i some_left none_free. refl;
        round = Invariant-round deps;
      })
      (length deps) deps [] (le_refl (length deps)) (Invariant-start deps h)
