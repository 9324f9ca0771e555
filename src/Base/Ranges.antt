-- ===== src/Base/Ranges.antt =====
-- `range(start, stop, step)` and the pieces that it cuts a sequence into.
use Prim.Native.Nat.{ℕ, zero, suc, ◌+◌, ◌*◌, ◌/◌, ◌≤◌}
use mathlib.Core.Path.{◌≡◌, refl, ap, sym}
use mathlib.Core.Logic.{inl, inr}
use mathlib.Core.List.{List, [], ◌∷◌, map}
use native.Mathlib.Omega.{arith}
use apex_fedora.Base.Booleans.{if◌then◌else◌, ltb, Bool-cases}
use apex_fedora.Base.Lists.{
  All, length, length-drop, length-take, take, drop, drop-drop, take-append-drop,
}
use apex_fedora.Base.Texts.{join}

-- At most `count` numbers from `start` on, all below `stop`.
unfoldable pub range_from : ℕ → ℕ → ℕ → ℕ → List ℕ
range_from zero start stop step = []
range_from (suc count) start stop step =
    let rest = range_from count (start + step) stop step in
    if ltb start stop then start ∷ rest else []

-- `range(0, stop, step)`, which has at most `stop / step + 1` numbers.
unfoldable pub range : ℕ → ℕ → List ℕ
unfolding range_from
range stop step = range_from (stop / step + 1) 0 stop step

pub drop_all {ℓ} : {A : Type ℓ} (n : ℕ) (xs : List A) → length xs ≤ n → drop n xs ≡ []
drop_all zero [] h = refl
drop_all zero (x ∷ xs) h = absurd (omega arith)
drop_all (suc n) [] h = refl
drop_all (suc n) (x ∷ xs) h = drop_all n xs (omega arith)

module _ {ℓ} {A : Type ℓ} (xs : List A) (width : ℕ) where
  abbrev pub slice_at : ℕ → List A
  slice_at start = take width (drop start xs)

  join-range_from :
      (count start : ℕ)
      → length xs ≤ start + count * width
      → join (map slice_at (range_from count start (length xs) width)) ≡ drop start xs
  unfolding range_from
  join-range_from zero start h = sym (drop_all start xs (omega arith))
  join-range_from (suc count) start h = elim (Bool-cases (ltb start (length xs))) [
    | inl t ↦
        rw
          (
            range_from,
            t,
            join-range_from count (start + width) (omega arith),
            sym (drop-drop width start xs),
          )
          (take-append-drop width (drop start xs))
    | inr f ↦ rw (range_from, f) (sym (drop_all start xs (ground arith)))
  ]

  -- If the steps reach the end, the pieces are the sequence.
  pub join-range :
      length xs ≤ (length xs / width + 1) * width
      → join (map slice_at (range (length xs) width)) ≡ xs
  unfolding range
  join-range h = join-range_from (length xs / width + 1) 0 (omega (arith, h))

  All-range_from :
      (P : List A → Type 0)
      → ((piece : List A) → 1 ≤ length piece → length piece ≤ width → P piece)
      → 1 ≤ width
      → (count start : ℕ) → All P (map slice_at (range_from count start (length xs) width))
  unfolding range_from
  All-range_from P each wide zero start = tt
  All-range_from P each wide (suc count) start = elim (Bool-cases (ltb start (length xs))) [
    | inl t ↦
        let measure = length-take width (drop start xs) in
        let left = length-drop start xs in
        rw (range_from, t)
          (
            each (slice_at start) (ground (arith, measure, left)) (ground (arith, measure, left)),
            All-range_from P each wide count (start + width),
          )
    | inr f ↦ rw (range_from, f) tt
  ]

  -- A piece is not empty and not wider than a step.
  pub All-range :
      (P : List A → Type 0)
      → ((piece : List A) → 1 ≤ length piece → length piece ≤ width → P piece)
      → 1 ≤ width
      → All P (map slice_at (range (length xs) width))
  unfolding range
  All-range P each wide = All-range_from P each wide (length xs / width + 1) 0

pub All-take {ℓ} :
    {A : Type ℓ} (P : A → Type 0) (n : ℕ) (xs : List A) → All P xs → All P (take n xs)
All-take P zero xs h = tt
All-take P (suc n) [] h = tt
All-take P (suc n) (x ∷ xs) h = (h.0, All-take P n xs h.1)

pub All-drop {ℓ} :
    {A : Type ℓ} (P : A → Type 0) (n : ℕ) (xs : List A) → All P xs → All P (drop n xs)
All-drop P zero xs h = h
All-drop P (suc n) [] h = tt
All-drop P (suc n) (x ∷ xs) h = All-drop P n xs h.1

pub All-map {ℓ κ} :
    {A : Type ℓ} {B : Type κ} (P : B → Type 0) (f : A → B)
    → ((x : A) → P (f x))
    → (xs : List A) → All P (map f xs)
All-map P f h [] = tt
All-map P f h (x ∷ xs) = (h x, All-map P f h xs)

pub length-map {ℓ κ} :
    {A : Type ℓ} {B : Type κ} (f : A → B) (xs : List A) → length (map f xs) ≡ length xs
length-map f [] = refl
length-map f (x ∷ xs) = ap (λ n. suc n) (length-map f xs)

length-range_from : (count start stop step : ℕ) → length (range_from count start stop step) ≤ count
unfolding range_from
length-range_from zero start stop step = omega arith
length-range_from (suc count) start stop step =
    ground (arith, length-range_from count (start + step) stop step)

pub length-range : (stop step : ℕ) → length (range stop step) ≤ stop / step + 1
unfolding range
length-range stop step = length-range_from (stop / step + 1) 0 stop step
