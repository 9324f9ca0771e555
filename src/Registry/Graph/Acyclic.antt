-- ===== src/Registry/Graph/Acyclic.antt =====
-- When `_topological` succeeds (src/apex/registry/graph.py): exactly where no unit needs itself in the end.
use apex_fedora.Base.{
  ==_refl, All, All-lookup, All-mono, All-zip, Bool-cases, Distinct, List, String, [], ap,
  append_assoc, arith, contains, contains-append, difference, eq_iff, false, has, has-some,
  if◌then◌else◌, inl, inr, keys, length, lookup, refl, some, sorted-nil, subst, suc, sym, true,
  zero, ℕ, ◌++◌, ◌<◌, ◌==◌, ◌↔◌, ◌∙◌, ◌∷◌, ◌≡◌, ◌≢◌, ◌≤◌,
}
use native.Mathlib.Nat.{le_refl}
use apex_fedora.Kernel.Errors.{Result, ok}
use apex_fedora.Registry.Graph.{free_names, ready, remove_all, after_round, topological, is_nil}
use apex_fedora.Registry.Graph.Rounds.{Needs, rounds_ind, All-remove_all, All-satisfy}
use apex_fedora.Registry.Graph.Topological.{
  IsOrdered, IsOrderOf, topological-IsOrderOf, has-after_round,
}

-- Each need of a unit is a unit of `d`, and of a lower rank.
abbrev pub IsRanked : (String → ℕ) → Needs → String × List String → Type 0
IsRanked rank d item = All (λ n. (has n d ≡ true) × (rank n < rank item.0)) item.1

-- The units can be numbered so that each has a higher number than all that it needs.
pub record IsAcyclic (deps : Needs) : Type 0 where
  pub rank : String → ℕ
  pub ranked : All (IsRanked rank deps) deps

module _ (rank : String → ℕ) where
  All-difference :
      (P Q : String → Type 0) (xs names : List String)
      → ((n : String) → contains n names ≡ false → P n → Q n)
      → All P xs
      → All Q (difference xs names)
  unfolding difference
  All-difference P Q [] names f h = tt
  All-difference P Q (x ∷ xs) names f h = elim (Bool-cases (contains x names)) [
    | inl t ↦ rw t (All-difference P Q xs names f h.1)
    | inr g ↦ rw g (f x g h.0, All-difference P Q xs names f h.1)
  ]

  IsRanked-round :
      (d : Needs) → All (IsRanked rank d) d → All (IsRanked rank (after_round d)) (after_round d)
  IsRanked-round d h =
      All-satisfy (IsRanked rank d) (IsRanked rank (after_round d)) (ready d)
        (λ k needs all_met.
          All-difference (λ n. (has n d ≡ true) × (rank n < rank k))
            (λ n. (has n (after_round d) ≡ true) × (rank n < rank k)) needs (ready d)
            (λ n kept (there, below). (has-after_round n d ∙ rw (kept, there), below)) all_met)
        (remove_all (ready d) d) (All-remove_all (IsRanked rank d) (ready d) d h)

  All-has :
      (P : String × List String → Type 0) (d : Needs) (k : String)
      → All P d
      → has k d ≡ true
      → (needs : List String) × P (k, needs)
  unfolding has
  All-has P [] k h there = cc
  All-has P ((j, needs) ∷ d) k h there = elim (Bool-cases (j == k)) [
    | inl t ↦ (needs, rw (← (eq_iff j k).0 t) h.0)
    | inr f ↦ All-has P d k h.1 (rw f at there)
  ]

  -- Where no unit is free, each of them needs something.
  All-need :
      (P : String × List String → Type 0) (d : Needs)
      → free_names d ≡ []
      → All P d
      → All (λ item. (is_nil item.1 ≡ false) × P item) d
  unfolding free_names
  All-need P [] e h = tt
  All-need P ((k, []) ∷ rest) e h = cc
  All-need P ((k, n ∷ ns) ∷ rest) e h = ((refl, h.0), All-need P rest e h.1)

  -- A unit that needs something has a need of a lower rank.
  step_down :
      (d : Needs) (k : String) (needs : List String)
      → is_nil needs ≡ false
      → IsRanked rank d (k, needs)
      → (n : String) × (has n d ≡ true) × (rank n < rank k)
  step_down d k [] some_need ranked = cc
  step_down d k (n ∷ ns) some_need ranked = (n, ranked.0.0, ranked.0.1)

  -- A chain of needs cannot go down for ever.
  no_descent :
      (d : Needs)
      → All (λ item. (is_nil item.1 ≡ false) × IsRanked rank d item) d
      → (bound : ℕ) (k : String) → rank k < bound
      → has k d ≡ true
      → ⊥
  no_descent d h zero k below there = omega arith
  no_descent d h (suc bound) k below there =
      let (needs, found) =
        All-has (λ item. (is_nil item.1 ≡ false) × IsRanked rank d item) d k h there in
      let (n, n_there, n_below) = step_down d k needs found.0 found.1 in
      no_descent d h bound n (omega arith) n_there

  not_stuck : (d : Needs) → d ≢ [] → ready d ≡ [] → All (IsRanked rank d) d → ⊥
  unfolding ready has
  not_stuck [] ne e h = ne refl
  not_stuck ((k, needs) ∷ rest) ne e h =
      let d : Needs = (k, needs) ∷ rest in
      no_descent d (All-need (IsRanked rank d) d (sorted-nil (free_names d) e) h) (suc (rank k)) k
        (omega arith) (rw ==_refl)

  Returns : Result (List String) → Type 0
  Returns r = (ids : List String) × (r ≡ ok ids)

  ranked-Returns : (deps : Needs) → All (IsRanked rank deps) deps → Returns (topological deps)
  unfolding topological Returns
  ranked-Returns deps h =
      rounds_ind {P = λ d resolved. All (IsRanked rank d) d} {Q = Returns}
        (record {
          finish = λ resolved p. (resolved, refl);
          stuck = λ d resolved p some_left none_free. absurd (not_stuck d some_left none_free p);
          round = λ d resolved p. IsRanked-round d p;
        })
        (length deps) deps [] (le_refl (length deps)) h

-- Where a name stands in a list: its rank in an order that was found.
abbrev position : List String → String → ℕ
position [] k = 0
position (x ∷ xs) k = if x == k then 0 else suc (position xs k)

position_within :
    (xs ys : List String) (k : String) → contains k xs ≡ true → position (xs ++ ys) k < length xs
position_within [] ys k h = cc
position_within (x ∷ xs) ys k h = ground (arith, position_within xs ys k)

position_beyond :
    (xs ys : List String) (k : String) → contains k xs ≡ false → length xs ≤ position (xs ++ ys) k
position_beyond [] ys k h = omega arith
position_beyond (x ∷ xs) ys k h = ground (arith, position_beyond xs ys k)

Distinct-middle :
    (xs ys : List String) (k : String) → Distinct (xs ++ k ∷ ys) → contains k xs ≡ false
Distinct-middle [] ys k h = refl
Distinct-middle (x ∷ xs) ys k h =
    ground (
      arith,
      Distinct-middle xs ys k h.1,
      contains-append x xs (k ∷ ys),
      eq_iff x k,
      eq_iff k x,
      h.0,
    )

ordered_below :
    (deps : Needs) (seen xs : List String)
    → IsOrdered deps seen xs
    → Distinct (seen ++ xs)
    → (k : String) (needs : List String) → contains k xs ≡ true
    → lookup k deps ≡ some needs
    → All (λ n. position (seen ++ xs) n < position (seen ++ xs) k) needs
ordered_below deps seen [] o d k needs there e = cc
ordered_below deps seen (x ∷ xs) ((met, e', h), o) d k needs there e = elim (Bool-cases (x == k)) [
  | inl t ↦
      let same : x ≡ k = (eq_iff x k).0 t in
      let met_needs : met ≡ needs = cc (e', e, same) in
      let beyond : length seen ≤ position (seen ++ x ∷ xs) k =
        position_beyond seen (x ∷ xs) k
          (ap (λ j. contains j seen) (sym same) ∙ Distinct-middle seen xs x d) in
      All-mono (λ n m. omega (arith, position_within seen (x ∷ xs) n m, beyond)) needs
        (subst (All (λ n. contains n seen ≡ true)) met_needs h)
  | inr f ↦
      subst (λ ids. All (λ n. position ids n < position ids k) needs)
        (append_assoc seen (x ∷ []) xs)
        (ordered_below deps (seen ++ x ∷ []) xs o (rw append_assoc d) k needs (rw f at there) e)
]

needs_there :
    (deps : Needs) (seen xs : List String)
    → IsOrdered deps seen xs
    → (k : String) (needs : List String) → contains k xs ≡ true
    → lookup k deps ≡ some needs
    → All (λ n. contains n (seen ++ xs) ≡ true) needs
needs_there deps seen [] o k needs there e = cc
needs_there deps seen (x ∷ xs) ((met, e', h), o) k needs there e = elim (Bool-cases (x == k)) [
  | inl t ↦
      let met_needs : met ≡ needs = cc (e', e, (eq_iff x k).0 t) in
      All-mono (λ n m. contains-append n seen (x ∷ xs) ∙ rw m) needs
        (subst (All (λ n. contains n seen ≡ true)) met_needs h)
  | inr f ↦
      subst (λ ids. All (λ n. contains n ids ≡ true) needs) (append_assoc seen (x ∷ []) xs)
        (needs_there deps (seen ++ x ∷ []) xs o k needs (rw f at there) e)
]

order_ranks :
    (deps : Needs) (ids : List String)
    → Distinct (keys deps)
    → IsOrderOf deps (ok ids)
    → IsAcyclic deps
order_ranks deps ids h (distinct, same, ordered) = record {
  rank = position ids;
  ranked =
      All-mono
        (λ (k, needs) e.
          let there : contains k ids ≡ true = same k ∙ has-some k deps {v = needs} e in
          All-zip (λ n there below. (sym (same n) ∙ there, below)) needs
            (needs_there deps [] ids ordered k needs there e)
            (ordered_below deps [] ids ordered distinct k needs there e))
        deps (All-lookup deps h);
}

-- The units have an order exactly when no chain of needs leads round a circle: when they can be
-- numbered so that every need is a unit with a lower number.
pub topological_iff :
    (deps : Needs)
    → Distinct (keys deps)
    → ((ids : List String) × (topological deps ≡ ok ids)) ↔ IsAcyclic deps
topological_iff deps h = (
  λ (ids, e). order_ranks deps ids h (subst (IsOrderOf deps) e (topological-IsOrderOf deps h)),
  λ a. (unfold Returns in ranked-Returns a.rank deps a.ranked),
)
