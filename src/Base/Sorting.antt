-- ===== src/Base/Sorting.antt =====
-- Python's `sorted`: a stable insertion sort by a Boolean order, and the order of texts.
use Prim.Native.Nat.{suc, Ordering}
use Prim.Native.String
use Prim.Native.String.{String}
use mathlib.Core.Path.{◌≡◌, refl, ap, ◌∙◌}
use mathlib.Core.Logic.{◌⊎◌, inl, inr}
use mathlib.Core.Bool.{Bool, true, false}
use mathlib.Core.List.{List, [], ◌∷◌, Perm}
use mathlib.Core.List.Perm
use native.Mathlib.Omega.{arith}
use apex_fedora.Base.Booleans.{if◌then◌else◌, Bool-cases}
use apex_fedora.Base.Lists.{length, All, Any}

-- Texts are ordered by their code points.
abbrev pub str_leb : String → String → Bool
str_leb a b = elim (String.compare a b) [ Ordering.gt ↦ false | _ ↦ true ]

module _ {ℓ} {A : Type ℓ} where
  unfoldable pub insert_by : (A → A → Bool) → A → List A → List A
  insert_by le x [] = x ∷ []
  insert_by le x (y ∷ ys) = let rest = insert_by le x ys in if le x y then x ∷ y ∷ ys else y ∷ rest

  unfoldable pub sort_by : (A → A → Bool) → List A → List A
  unfolding insert_by
  sort_by le [] = []
  sort_by le (x ∷ xs) = insert_by le x (sort_by le xs)

  -- `sorted(xs, key=key)`
  unfoldable pub sorted_by : (A → String) → List A → List A
  unfolding sort_by
  sorted_by key = sort_by (λ x y. str_leb (key x) (key y))

  insert_by-perm : (le : A → A → Bool) (x : A) (ys : List A) → Perm (insert_by le x ys) (x ∷ ys)
  unfolding insert_by
  insert_by-perm le x [] = Perm.refl _
  insert_by-perm le x (y ∷ ys) = elim (Bool-cases (le x y)) [
    | inl t ↦ rw t (Perm.refl _)
    | inr f ↦ rw f (Perm.trans (Perm.cons y (insert_by-perm le x ys)) (Perm.swap x y ys))
  ]

  pub sort_by-perm : (le : A → A → Bool) (xs : List A) → Perm (sort_by le xs) xs
  unfolding sort_by
  sort_by-perm le [] = Perm.refl _
  sort_by-perm le (x ∷ xs) =
      Perm.trans (insert_by-perm le x (sort_by le xs)) (Perm.cons x (sort_by-perm le xs))

  All-insert_by :
      (P : A → Type 0) (le : A → A → Bool) (x : A) (ys : List A)
      → P x
      → All P ys
      → All P (insert_by le x ys)
  unfolding insert_by
  All-insert_by P le x [] p h = (p, tt)
  All-insert_by P le x (y ∷ ys) p h = elim (Bool-cases (le x y)) [
    | inl t ↦ rw t (p, h)
    | inr f ↦ rw f (h.0, All-insert_by P le x ys p h.1)
  ]

  pub All-sort_by :
      (P : A → Type 0) (le : A → A → Bool) (xs : List A) → All P xs → All P (sort_by le xs)
  unfolding sort_by
  All-sort_by P le [] h = tt
  All-sort_by P le (x ∷ xs) h = All-insert_by P le x (sort_by le xs) h.0 (All-sort_by P le xs h.1)

  All-uninsert :
      (P : A → Type 0) (le : A → A → Bool) (x : A) (ys : List A)
      → All P (insert_by le x ys)
      → P x × All P ys
  unfolding insert_by
  All-uninsert P le x [] h = h
  All-uninsert P le x (y ∷ ys) h = elim (Bool-cases (le x y)) [
    | inl t ↦ rw t at h
    | inr f ↦
        let h' : P y × All P (insert_by le x ys) = rw f at h in
        let (p, rest) = All-uninsert P le x ys h'.1 in (p, (h'.0, rest))
  ]

  -- What holds of every element of the sorted list holds of every element.
  pub All-unsort :
      (P : A → Type 0) (le : A → A → Bool) (xs : List A) → All P (sort_by le xs) → All P xs
  unfolding sort_by
  All-unsort P le [] h = tt
  All-unsort P le (x ∷ xs) h =
      let (p, rest) = All-uninsert P le x (sort_by le xs) h in (p, All-unsort P le xs rest)

  Any-uninsert :
      (P : A → Type 0) (le : A → A → Bool) (x : A) (ys : List A)
      → Any P (insert_by le x ys)
      → P x ⊎ Any P ys
  unfolding insert_by
  Any-uninsert P le x [] h = h
  Any-uninsert P le x (y ∷ ys) h = elim (Bool-cases (le x y)) [
    | inl t ↦ rw t at h
    | inr f ↦
        let h' : P y ⊎ Any P (insert_by le x ys) = rw f at h in
        elim h' [
          | inl p ↦ inr (inl p)
          | inr more ↦ elim (Any-uninsert P le x ys more) [ inl p ↦ inl p | inr q ↦ inr (inr q) ]
        ]
  ]

  -- What holds of some element of the sorted list holds of some element.
  pub Any-unsort :
      (P : A → Type 0) (le : A → A → Bool) (xs : List A) → Any P (sort_by le xs) → Any P xs
  unfolding sort_by
  Any-unsort P le [] h = h
  Any-unsort P le (x ∷ xs) h = elim (Any-uninsert P le x (sort_by le xs) h) [
    | inl p ↦ inl p
    | inr more ↦ inr (Any-unsort P le xs more)
  ]

  length-insert_by :
      (le : A → A → Bool) (x : A) (ys : List A) → length (insert_by le x ys) ≡ suc (length ys)
  unfolding insert_by
  length-insert_by le x [] = refl
  length-insert_by le x (y ∷ ys) = ground (arith, length-insert_by le x ys)

  pub length-sort_by : (le : A → A → Bool) (xs : List A) → length (sort_by le xs) ≡ length xs
  unfolding sort_by
  length-sort_by le [] = refl
  length-sort_by le (x ∷ xs) = length-insert_by le x (sort_by le xs) ∙ ap suc (length-sort_by le xs)

-- `sorted(names)`
unfoldable pub sorted : List String → List String
unfolding sorted_by
sorted = sorted_by (λ x. x)

sorted_example : sorted ("b" ∷ "a" ∷ "c" ∷ "B" ∷ []) ≡ "B" ∷ "a" ∷ "b" ∷ "c" ∷ []
unfolding sorted
sorted_example = refl
