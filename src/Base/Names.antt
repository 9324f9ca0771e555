-- ===== src/Base/Names.antt =====
-- Lists of names as sets, and dictionaries by their keys: `in` under the operations on both.
use Prim.Native.Nat.{◌≤◌, ◌<◌}
use Prim.Native.String.{String}
use mathlib.Core.Path.{◌≡◌, refl, sym, subst, ap, ◌∙◌}
use mathlib.Core.Logic.{inl, inr}
use mathlib.Core.Bool.{Bool, true, false, not, ◌&&◌, ◌||◌}
use mathlib.Core.Option.{some}
use mathlib.Core.List.{List, [], ◌∷◌, ◌++◌}
use native.Mathlib.Omega.{arith}
use text.Mathlib.Text.{◌==◌}
use text.Mathlib.TextEquality.{eq_iff}
use text.Mathlib.TextPositions.{compare_refl}
use apex_fedora.Base.Booleans.{if◌then◌else◌, Bool-cases, is_some}
use apex_fedora.Base.Lists.{length, select, contains, All}
use apex_fedora.Base.Sorting.{str_leb, sort_by, insert_by, sorted_by, sorted, length-sort_by}
use apex_fedora.Base.Dicts.{Dict, lookup, has, insert, remove, keys}

pub ==_refl : (a : String) → (a == a) ≡ true
==_refl a = (eq_iff a a).1 refl

pub str_leb_refl : (a : String) → str_leb a a ≡ true
str_leb_refl a = ground (arith, compare_refl a)

contains_within :
    (xs ys : List String)
    → ((n : String) → contains n xs ≡ true → contains n ys ≡ true)
    → All (λ n. contains n ys ≡ true) xs
contains_within [] ys c = tt
contains_within (x ∷ xs) ys c =
    (c x (rw ==_refl), contains_within xs ys (λ n h. c n (ground arith)))

-- Every name of a list is in it.
pub All-contains : (xs : List String) → All (λ n. contains n xs ≡ true) xs
All-contains xs = contains_within xs xs (λ n h. h)

pub ne_of_leb : (a b : String) → str_leb a b ≡ false → ¬ (a ≡ b)
ne_of_leb a b h e = cc (rw e at h, str_leb_refl b)

-- No name twice.
abbrev pub Distinct : List String → Type 0
Distinct [] = Unit
Distinct (x ∷ xs) = (contains x xs ≡ false) × Distinct xs

-- `set(xs) - set(ys)`
unfoldable pub difference : List String → List String → List String
difference xs ys = select (λ x. not (contains x ys)) xs

-- `s.add(x)`
unfoldable pub add : String → List String → List String
add x xs = if contains x xs then xs else xs ++ x ∷ []

-- What holds of every name of a list holds of a name that is in it.
pub All-at :
    (P : String → Type 0) (n : String) (xs : List String) → All P xs → contains n xs ≡ true → P n
All-at P n [] h there = cc
All-at P n (x ∷ xs) h there = elim (Bool-cases (x == n)) [
  | inl t ↦ subst P ((eq_iff x n).0 t) h.0
  | inr f ↦ All-at P n xs h.1 (rw f at there)
]

pub contains-append :
    (a : String) (xs ys : List String) → contains a (xs ++ ys) ≡ (contains a xs || contains a ys)
contains-append a [] ys = refl
contains-append a (x ∷ xs) ys = ground (arith, contains-append a xs ys)

contains-insert_by :
    (le : String → String → Bool) (a x : String) (ys : List String)
    → contains a (insert_by le x ys) ≡ (x == a || contains a ys)
unfolding insert_by
contains-insert_by le a x [] = refl
contains-insert_by le a x (y ∷ ys) = ground (arith, contains-insert_by le a x ys)

contains-sort_by :
    (le : String → String → Bool) (a : String) (xs : List String)
    → contains a (sort_by le xs) ≡ contains a xs
unfolding sort_by
contains-sort_by le a [] = refl
contains-sort_by le a (x ∷ xs) =
    contains-insert_by le a x (sort_by le xs) ∙ ap (λ b. x == a || b) (contains-sort_by le a xs)

pub contains-sorted : (a : String) (xs : List String) → contains a (sorted xs) ≡ contains a xs
unfolding sorted sorted_by
contains-sorted a xs = contains-sort_by (λ x y. str_leb x y) a xs

Distinct-insert_by :
    (le : String → String → Bool) (x : String) (ys : List String)
    → contains x ys ≡ false
    → Distinct ys
    → Distinct (insert_by le x ys)
unfolding insert_by
Distinct-insert_by le x [] h d = (h, tt)
Distinct-insert_by le x (y ∷ ys) h d = elim (Bool-cases (le x y)) [
  | inl t ↦ rw t (h, d)
  | inr f ↦ rw f (
    contains-insert_by le y x ys ∙ ground (arith, eq_iff x y, eq_iff y x),
    Distinct-insert_by le x ys (ground arith) d.1,
  )
]

Distinct-sort_by :
    (le : String → String → Bool) (xs : List String) → Distinct xs → Distinct (sort_by le xs)
unfolding sort_by
Distinct-sort_by le [] d = tt
Distinct-sort_by le (x ∷ xs) d =
    Distinct-insert_by le x (sort_by le xs) (contains-sort_by le x xs ∙ d.0)
      (Distinct-sort_by le xs d.1)

pub Distinct-sorted : (xs : List String) → Distinct xs → Distinct (sorted xs)
unfolding sorted sorted_by
Distinct-sorted xs d = Distinct-sort_by (λ x y. str_leb x y) xs d

pub Distinct-append :
    (xs ys : List String)
    → Distinct xs
    → Distinct ys
    → ((a : String) → contains a xs ≡ true → contains a ys ≡ false)
    → Distinct (xs ++ ys)
Distinct-append [] ys dx dy apart = dy
Distinct-append (x ∷ xs) ys dx dy apart = (
  contains-append x xs ys ∙ rw (dx.0, apart x (rw ==_refl)),
  Distinct-append xs ys dx.1 dy (λ a h. apart a (ground arith)),
)

pub contains-difference :
    (a : String) (xs ys : List String)
    → contains a (difference xs ys) ≡ (contains a xs && not (contains a ys))
unfolding difference
contains-difference a [] ys = refl
contains-difference a (x ∷ xs) ys =
    ground (arith, contains-difference a xs ys, eq_iff x a, ap (λ s. contains s ys) {x = x} {y = a})

pub contains-keys {ℓ} : {V : Type ℓ} (k : String) (d : Dict V) → contains k (keys d) ≡ has k d
unfolding has
contains-keys k [] = refl
contains-keys k ((j, v) ∷ d) = ground (arith, contains-keys k d)

module _ {ℓ} {V : Type ℓ} where
  pub has-insert : (k j : String) (v : V) (d : Dict V) → has j (insert k v d) ≡ (k == j || has j d)
  unfolding has insert
  has-insert k j v [] = ground arith
  has-insert k j v ((i, w) ∷ d) =
      ground (arith, has-insert k j v d, eq_iff i k, eq_iff i j, eq_iff k j)

  pub has-remove : (k j : String) (d : Dict V) → has j (remove k d) ≡ (not (k == j) && has j d)
  unfolding has remove
  has-remove k j [] = ground arith
  has-remove k j ((i, w) ∷ d) = ground (arith, has-remove k j d, eq_iff i k, eq_iff i j, eq_iff k j)

  pub Distinct-insert :
      (k : String) (v : V) (d : Dict V) → Distinct (keys d) → Distinct (keys (insert k v d))
  unfolding insert
  Distinct-insert k v [] h = (refl, tt)
  Distinct-insert k v ((i, w) ∷ d) h = elim (Bool-cases (i == k)) [
    | inl t ↦ rw t h
    | inr f ↦ rw f (
      contains-keys i (insert k v d)
          ∙ has-insert k i v d
          ∙ ground (arith, contains-keys i d, eq_iff k i, eq_iff i k),
      Distinct-insert k v d h.1,
    )
  ]

  pub length-remove_le : (k : String) (d : Dict V) → length (remove k d) ≤ length d
  unfolding remove
  length-remove_le k [] = omega arith
  length-remove_le k ((i, w) ∷ d) = ground (arith, length-remove_le k d)

  pub length-remove_lt : (k : String) (d : Dict V) → has k d ≡ true → length (remove k d) < length d
  unfolding remove has
  length-remove_lt k [] h = cc
  length-remove_lt k ((i, w) ∷ d) h = ground (arith, length-remove_lt k d, length-remove_le k d)

module _ {V : Type 0} where
  entries_within :
      (d rest : Dict V)
      → ((k : String) → has k rest ≡ true → lookup k d ≡ lookup k rest)
      → Distinct (keys rest)
      → All (λ item. lookup item.0 d ≡ some item.1) rest
  unfolding has lookup
  entries_within d [] same h = tt
  entries_within d ((k, v) ∷ rest) same h = (
    same k (rw ==_refl) ∙ rw ==_refl,
    entries_within d rest
        (λ j m. same j (ground arith) ∙ ground (arith, contains-keys k rest, eq_iff k j, m)) h.1,
  )

-- Where no key occurs twice, every entry is found by its key.
pub All-lookup :
    {V : Type 0} (d : Dict V) → Distinct (keys d) → All (λ item. lookup item.0 d ≡ some item.1) d
All-lookup d h = entries_within d d (λ k m. refl) h

pub sorted-nil : (xs : List String) → sorted xs ≡ [] → xs ≡ []
unfolding sorted sorted_by
sorted-nil [] e = refl
sorted-nil (x ∷ xs) e =
    absurd (omega (arith, ap length e, length-sort_by (λ x y. str_leb x y) (x ∷ xs)))

module _ {V : Type 0} where
  -- Sorting a dictionary by its keys moves no value away from its key.
  lookup-insert_by :
      (k j : String) (v : V) (d : Dict V)
      → lookup k (insert_by (λ x y. str_leb x.0 y.0) (j, v) d)
        ≡ (if j == k then some v else lookup k d)
  unfolding lookup insert_by
  lookup-insert_by k j v [] = refl
  lookup-insert_by k j v ((i, w) ∷ d) = elim (Bool-cases (str_leb j i)) [
    | inl t ↦ rw t
    | inr f ↦
        rw f (ground (arith, lookup-insert_by k j v d, eq_iff j k, eq_iff i k, ne_of_leb j i f))
  ]

  pub lookup-sorted_by :
      (k : String) (d : Dict V) → lookup k (sorted_by (λ item. item.0) d) ≡ lookup k d
  unfolding lookup sorted_by sort_by
  lookup-sorted_by k [] = refl
  lookup-sorted_by k ((j, v) ∷ d) =
      lookup-insert_by k j v (sorted_by (λ item. item.0) d)
      ∙ ap (λ r. if j == k then some v else r) (lookup-sorted_by k d)

  has-is_some : (k : String) (d : Dict V) → has k d ≡ is_some (lookup k d)
  unfolding has lookup
  has-is_some k [] = refl
  has-is_some k ((j, v) ∷ d) = ground (arith, has-is_some k d)

  pub has-eq_of_lookup : (k : String) (d e : Dict V) → lookup k d ≡ lookup k e → has k d ≡ has k e
  has-eq_of_lookup k d e h = has-is_some k d ∙ ap is_some h ∙ sym (has-is_some k e)

-- The keys of a dictionary are found wherever they all stand.
pub All-has :
    {V U : Type 0} (d : Dict V) (e : Dict U)
    → ((k : String) → has k d ≡ true → has k e ≡ true)
    → All (λ item. has item.0 e ≡ true) d
unfolding has
All-has [] e h = tt
All-has ((j, v) ∷ d) e h = (h j (rw ==_refl refl), All-has d e (λ k m. h k (ground (arith, m))))
