-- ===== src/Base/Indexing.antt =====
-- `{name(x): x for x in xs}`, over a dictionary that is there: what is found is the newest of its name.
use Prim.Native.String.{String}
use mathlib.Core.Path.{◌≡◌, refl, sym}
use mathlib.Core.Logic.{inl, inr}
use mathlib.Core.Option.{Option, none, some}
use mathlib.Core.List.{List, [], ◌∷◌}
use native.Mathlib.Omega.{arith}
use text.Mathlib.Text.{◌==◌}
use text.Mathlib.TextEquality.{eq_iff}
use apex_fedora.Base.Booleans.{if◌then◌else◌, Bool-cases}
use apex_fedora.Base.Dicts.{Dict, lookup, insert, keys, lookup-insert}
use apex_fedora.Base.Lists.{All}
use apex_fedora.Base.Names.{Distinct, Distinct-insert}

module _ {ℓ} {A : Type ℓ} where
  -- The first option if it is there, or else the second
  abbrev pub or_first : Option A → Option A → Option A
  or_first none later = later
  or_first (some a) later = some a

module _ {A : Type 0} (name_of : A → String) where
  unfoldable pub indexed : List A → Dict A → Dict A
  unfolding insert
  indexed [] found = found
  indexed (x ∷ xs) found = indexed xs (insert (name_of x) x found)

  -- The last of a name
  abbrev pub newest : String → List A → Option A
  newest name [] = none
  newest name (x ∷ xs) =
      let later = newest name xs in or_first later (if name_of x == name then some x else none)

  pub lookup-indexed :
      (name : String) (xs : List A) (found : Dict A)
      → lookup name (indexed xs found) ≡ or_first (newest name xs) (lookup name found)
  unfolding indexed
  lookup-indexed name [] found = refl
  lookup-indexed name (x ∷ xs) found = ground (
    arith,
    lookup-indexed name xs (insert (name_of x) x found),
    lookup-insert (name_of x) name x found,
  )

  pub Distinct-indexed :
      (xs : List A) (found : Dict A) → Distinct (keys found) → Distinct (keys (indexed xs found))
  unfolding indexed
  Distinct-indexed [] found d = d
  Distinct-indexed (x ∷ xs) found d =
      Distinct-indexed xs (insert (name_of x) x found) (Distinct-insert (name_of x) x found d)

  -- Each element stands under its name.
  abbrev pub IsKeyed : Dict A → Type 0
  IsKeyed found = (name : String) (x : A) → lookup name found ≡ some x → name_of x ≡ name

  pub newest-name :
      (name : String) (xs : List A) {x : A} → newest name xs ≡ some x → name_of x ≡ name
  newest-name name [] h = cc
  newest-name name (y ∷ xs) {x} h =
      ground (arith, eq_iff (name_of y) name, newest-name name xs {x = x})

  pub indexed-IsKeyed : (xs : List A) → IsKeyed (indexed xs [])
  unfolding lookup
  indexed-IsKeyed xs name x h =
      let found = lookup-indexed name xs [] in newest-name name xs (ground (arith, found, h))

  abbrev pub AreNamed : Dict A → Type 0
  AreNamed found = All (λ entry. name_of entry.1 ≡ entry.0) found

  insert-AreNamed :
      (x : A) (found : Dict A) → AreNamed found → AreNamed (insert (name_of x) x found)
  unfolding insert
  insert-AreNamed x [] h = (refl, tt)
  insert-AreNamed x ((j, w) ∷ found) (here, h) = elim (Bool-cases (j == name_of x)) [
    | inl t ↦ rw t (sym ((eq_iff j (name_of x)).0 t), h)
    | inr f ↦ rw f (here, insert-AreNamed x found h)
  ]

  pub indexed-AreNamed :
      (xs : List A) (found : Dict A) → AreNamed found → AreNamed (indexed xs found)
  unfolding indexed
  indexed-AreNamed [] found h = h
  indexed-AreNamed (x ∷ xs) found h =
      indexed-AreNamed xs (insert (name_of x) x found) (insert-AreNamed x found h)
