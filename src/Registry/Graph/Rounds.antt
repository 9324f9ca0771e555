-- ===== src/Registry/Graph/Rounds.antt =====
-- The loop of `_topological` (src/apex/registry/graph.py): what one round does to the units that remain, and
-- the rule by which an invariant of the rounds reaches the result.
use apex_fedora.Base.{
  All, All-sort_by, Bool-cases, Dict, Distinct, Distinct-sorted, List, String, [], ap, arith,
  contains, contains-keys, contains-sorted, difference, has, has-remove, inl, inr, keys, length,
  not, refl, remove, sorted, sorted_by, str_leb, suc, sym, true, zero, ℕ, ◌&&◌, ◌++◌, ◌==◌, ◌∙◌,
  ◌∷◌, ◌≡◌, ◌≢◌, ◌≤◌,
}
use apex_fedora.Kernel.Errors.{Result, ok, raise, registration_error}
use apex_fedora.Registry.Graph.{free_names, ready, remove_all, satisfy, after_round, turn, rounds}

abbrev pub Needs : Type 0
Needs = Dict (List String)

turn_ind :
    (Q : Result (List String) → Type 0) (d : Needs) (names : List String) (e : ready d ≡ names)
    (rest : (first : String) (others : List String)
      → ready d ≡ first ∷ others
      → Result (List String))
    → (ready d ≡ [] → Q (raise registration_error))
    → ((first : String) (others : List String) (e : ready d ≡ first ∷ others)
        → Q (rest first others e))
    → Q (turn d names e rest)
unfolding turn
turn_ind Q d [] e rest stuck more = stuck e
turn_ind Q d (first ∷ others) e rest stuck more = more first others e

-- An invariant of the rounds, and what it says of each way to stop.
pub record Rule (P : Needs → List String → Type 0) (Q : Result (List String) → Type 0)
    : Type 0 where
  pub finish : (resolved : List String) → P [] resolved → Q (ok resolved)
  pub stuck :
      (d : Needs) (resolved : List String)
      → P d resolved
      → d ≢ []
      → ready d ≡ []
      → Q (raise registration_error)
  pub round :
      (d : Needs) (resolved : List String) → P d resolved → P (after_round d) (resolved ++ ready d)

pub rounds_ind :
    {P : Needs → List String → Type 0} {Q : Result (List String) → Type 0}
    → Rule P Q
    → (bound : ℕ) (d : Needs) (resolved : List String) (h : length d ≤ bound) → P d resolved
    → Q (rounds bound d resolved h)
unfolding rounds
rounds_ind rule bound [] resolved h p = rule.finish resolved p
rounds_ind rule zero (item ∷ items) resolved h p = absurd (omega arith)
rounds_ind {Q} rule (suc bound) (item ∷ items) resolved h p =
    turn_ind Q (item ∷ items) (ready (item ∷ items)) refl _
      (λ none_free. rule.stuck (item ∷ items) resolved p (λ e. cc) none_free)
      λ first others e.
        rounds_ind rule bound (after_round (item ∷ items)) (resolved ++ ready (item ∷ items)) _
          (rule.round (item ∷ items) resolved p)

pub has-satisfy : (k : String) (names : List String) (d : Needs) → has k (satisfy names d) ≡ has k d
unfolding has satisfy
has-satisfy k names [] = refl
has-satisfy k names ((j, needs) ∷ d) = ground (arith, has-satisfy k names d)

pub keys-satisfy : (names : List String) (d : Needs) → keys (satisfy names d) ≡ keys d
unfolding satisfy
keys-satisfy names [] = refl
keys-satisfy names ((j, needs) ∷ d) = ap (λ r. j ∷ r) (keys-satisfy names d)

pub has-remove_all :
    (k : String) (names : List String) (d : Needs)
    → has k (remove_all names d) ≡ (not (contains k names) && has k d)
unfolding remove_all
has-remove_all k [] d = refl
has-remove_all k (n ∷ ns) d = ground (arith, has-remove_all k ns (remove n d), has-remove n k d)

pub Distinct-remove : (n : String) (d : Needs) → Distinct (keys d) → Distinct (keys (remove n d))
unfolding remove
Distinct-remove n [] h = tt
Distinct-remove n ((j, needs) ∷ d) h = elim (Bool-cases (j == n)) [
  | inl t ↦ rw t (Distinct-remove n d h.1)
  | inr f ↦ rw f (
    contains-keys j (remove n d) ∙ has-remove n j d ∙ ground (arith, contains-keys j d),
    Distinct-remove n d h.1,
  )
]

pub Distinct-remove_all :
    (ns : List String) (d : Needs) → Distinct (keys d) → Distinct (keys (remove_all ns d))
unfolding remove_all
Distinct-remove_all [] d h = h
Distinct-remove_all (n ∷ ns) d h = Distinct-remove_all ns (remove n d) (Distinct-remove n d h)

All-remove :
    (P : String × List String → Type 0) (n : String) (d : Needs) → All P d → All P (remove n d)
unfolding remove
All-remove P n [] h = tt
All-remove P n ((j, needs) ∷ d) h = elim (Bool-cases (j == n)) [
  | inl t ↦ rw t (All-remove P n d h.1)
  | inr f ↦ rw f (h.0, All-remove P n d h.1)
]

pub All-remove_all :
    (P : String × List String → Type 0) (ns : List String) (d : Needs)
    → All P d
    → All P (remove_all ns d)
unfolding remove_all
All-remove_all P [] d h = h
All-remove_all P (n ∷ ns) d h = All-remove_all P ns (remove n d) (All-remove P n d h)

pub All-satisfy :
    (P Q : String × List String → Type 0) (names : List String)
    → ((k : String) (needs : List String) → P (k, needs) → Q (k, difference needs names))
    → (d : Needs) → All P d
    → All Q (satisfy names d)
unfolding satisfy
All-satisfy P Q names f [] h = tt
All-satisfy P Q names f ((k, needs) ∷ d) h = (f k needs h.0, All-satisfy P Q names f d h.1)

-- A property of the units without needs is one of the names that are ready.
All-free :
    (P : String × List String → Type 0) (Q : String → Type 0)
    → ((k : String) → P (k, []) → Q k)
    → (d : Needs) → All P d
    → All Q (free_names d)
unfolding free_names
All-free P Q f [] h = tt
All-free P Q f ((k, []) ∷ d) h = (f k h.0, All-free P Q f d h.1)
All-free P Q f ((k, n ∷ ns) ∷ d) h = All-free P Q f d h.1

pub All-ready :
    (P : String × List String → Type 0) (Q : String → Type 0)
    → ((k : String) → P (k, []) → Q k)
    → (d : Needs) → All P d
    → All Q (ready d)
unfolding ready sorted sorted_by
All-ready P Q f d h = All-sort_by Q (λ x y. str_leb x y) (free_names d) (All-free P Q f d h)

contains-free_names : (k : String) (d : Needs) → contains k (free_names d) ≡ true → has k d ≡ true
unfolding free_names has
contains-free_names k [] h = cc
contains-free_names k ((j, needs) ∷ d) h = ground (arith, contains-free_names k d)

pub contains-ready : (k : String) (d : Needs) → contains k (ready d) ≡ true → has k d ≡ true
unfolding ready
contains-ready k d h = contains-free_names k d (sym (contains-sorted k (free_names d)) ∙ h)

Distinct-free_names : (d : Needs) → Distinct (keys d) → Distinct (free_names d)
unfolding free_names
Distinct-free_names [] h = tt
Distinct-free_names ((k, []) ∷ d) h =
    (ground (arith, contains-free_names k d, contains-keys k d), Distinct-free_names d h.1)
Distinct-free_names ((k, n ∷ ns) ∷ d) h = Distinct-free_names d h.1

pub Distinct-ready : (d : Needs) → Distinct (keys d) → Distinct (ready d)
unfolding ready
Distinct-ready d h = Distinct-sorted (free_names d) (Distinct-free_names d h)
