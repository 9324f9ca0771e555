-- ===== src/Base/Texts.antt =====
-- Texts as bytes: cutting, joining and testing them, and numbers written in decimal.
use Prim.Native.Char.{code}
use Prim.Native.Nat.{ℕ, zero, suc, ◌+◌, ◌-◌, ◌*◌, ◌/◌, ◌%◌, ◌^◌, ◌≤◌, ◌<◌}
use Prim.Native.String.{String}
use mathlib.Core.Path.{◌≡◌, refl}
use mathlib.Core.Logic.{inl, inr}
use mathlib.Core.Bool.{Bool, true, false, ◌&&◌, ◌||◌}
use mathlib.Core.List.{List, [], ◌∷◌, ◌++◌}
use native.Mathlib.Omega.{arith}
use apex_fedora.Base.Booleans.{if◌then◌else◌, leb, ltb, eqb, Bool-cases, &&_true}
use apex_fedora.Base.Lists.{Bytes, all, All, All-append, length, length-append}

-- `text.encode()`, for a text of ASCII characters
abbrev pub codes : String → Bytes
codes String.[] = []
codes (String.◌∷◌ c s) = code c ∷ codes s

abbrev pub is_nil {ℓ} : {A : Type ℓ} → List A → Bool
is_nil [] = true
is_nil (x ∷ xs) = false

-- `text.startswith(prefix)`
unfoldable pub starts_with : Bytes → Bytes → Bool
starts_with [] text = true
starts_with (p ∷ ps) [] = false
starts_with (p ∷ ps) (c ∷ cs) = eqb p c && starts_with ps cs

-- The first and the last part of `text.partition(separator)`
unfoldable pub partition : ℕ → Bytes → Bytes × Bytes
partition separator [] = ([], [])
partition separator (c ∷ cs) =
    let rest = partition separator cs in if eqb c separator then ([], cs) else (c ∷ rest.0, rest.1)

-- `text.rstrip(character)`
unfoldable pub rstrip : ℕ → Bytes → Bytes
rstrip character [] = []
rstrip character (c ∷ cs) =
    let rest = rstrip character cs in if is_nil rest && eqb c character then [] else c ∷ rest

-- `separator.join(parts)`
unfoldable pub separated : ℕ → List Bytes → Bytes
separated separator [] = []
separated separator (p ∷ []) = p
separated separator (p ∷ q ∷ parts) = p ++ separator ∷ separated separator (q ∷ parts)

-- `b"".join(parts)`
abbrev pub join {ℓ} : {A : Type ℓ} → List (List A) → List A
join [] = []
join (p ∷ parts) = p ++ join parts

abbrev pub is_decimal_digit : ℕ → Bool
is_decimal_digit c = leb 48 c && leb c 57

-- `int(text)`, for a text of digits
abbrev pub number_from : ℕ → Bytes → ℕ
number_from so_far [] = so_far
number_from so_far (c ∷ cs) = number_from (so_far * 10 + (c - 48)) cs

-- `str(n)`: at most `more` digits before the last one
abbrev pub decimal_within : ℕ → ℕ → Bytes
decimal_within zero n = (48 + n % 10) ∷ []
decimal_within (suc more) n =
    let before = decimal_within more (n / 10) in
    if ltb n 10 then (48 + n) ∷ [] else before ++ (48 + n % 10) ∷ []

unfoldable pub decimal : ℕ → Bytes
decimal n = decimal_within n n

number_from-append :
    (a : ℕ) (cs : Bytes) (c : ℕ) → number_from a (cs ++ c ∷ []) ≡ number_from a cs * 10 + (c - 48)
number_from-append a [] c = refl
number_from-append a (x ∷ cs) c = number_from-append (a * 10 + (x - 48)) cs c

number_from-decimal_within : (more n : ℕ) → n ≤ more → number_from 0 (decimal_within more n) ≡ n
number_from-decimal_within zero n h = omega arith
number_from-decimal_within (suc more) n h = elim (Bool-cases (ltb n 10)) [
  | inl t ↦ rw t (ground arith)
  | inr f ↦
      let ih : number_from 0 (decimal_within more (n / 10)) ≡ n / 10 =
        number_from-decimal_within more (n / 10) (ground arith) in
      rw (f, number_from-append 0 (decimal_within more (n / 10)) (48 + n % 10), ih) (omega arith)
]

-- A number is read back from its decimal digits.
pub number_from-decimal : (n : ℕ) → number_from 0 (decimal n) ≡ n
unfolding decimal
number_from-decimal n = number_from-decimal_within n n (omega arith)

digit_within : (more n : ℕ) → All (λ c. is_decimal_digit c ≡ true) (decimal_within more n)
digit_within zero n = (ground arith, tt)
digit_within (suc more) n = elim (Bool-cases (ltb n 10)) [
  | inl t ↦ rw t (ground arith, tt)
  | inr f ↦ rw f (
      All-append (λ c. is_decimal_digit c ≡ true) (decimal_within more (n / 10))
        ((48 + n % 10) ∷ []) (digit_within more (n / 10)) (ground arith, tt))
]

pub decimal_digits : (n : ℕ) → All (λ c. is_decimal_digit c ≡ true) (decimal n)
unfolding decimal
decimal_digits n = digit_within n n

length_within : (width more n : ℕ) → n < 10 ^ suc width → length (decimal_within more n) ≤ suc width
length_within width zero n h = omega arith
length_within zero (suc more) n h =
    let small : ltb n 10 ≡ true = ground arith in rw small (omega arith)
length_within (suc width) (suc more) n h = elim (Bool-cases (ltb n 10)) [
  | inl t ↦ rw t (omega arith)
  | inr f ↦
      let ih = length_within width more (n / 10) (omega arith) in
      rw (f, length-append (decimal_within more (n / 10)) ((48 + n % 10) ∷ [])) (omega (arith, ih))
]

pub length-decimal : (width n : ℕ) → n < 10 ^ suc width → length (decimal n) ≤ suc width
unfolding decimal
length-decimal width n h = length_within width n n h

length_positive : (more n : ℕ) → 1 ≤ length (decimal_within more n)
length_positive zero n = omega arith
length_positive (suc more) n = elim (Bool-cases (ltb n 10)) [
  | inl t ↦ rw t (omega arith)
  | inr f ↦ rw (f, length-append (decimal_within more (n / 10)) ((48 + n % 10) ∷ [])) (omega arith)
]

pub decimal_nonempty : (n : ℕ) → 1 ≤ length (decimal n)
unfolding decimal
decimal_nonempty n = length_positive n n

pub all-true {ℓ} :
    {A : Type ℓ} (p : A → Bool) (xs : List A) → All (λ x. p x ≡ true) xs → all p xs ≡ true
all-true p [] h = refl
all-true p (x ∷ xs) (here, h) = rw (here, all-true p xs h) refl

pub All-all {ℓ} :
    {A : Type ℓ} (p : A → Bool) (xs : List A) → all p xs ≡ true → All (λ x. p x ≡ true) xs
All-all p [] h = tt
All-all p (x ∷ xs) h = let both = &&_true (p x) (all p xs) h in (both.0, All-all p xs both.1)

pub starts_with-append : (p cs : Bytes) → starts_with p (p ++ cs) ≡ true
unfolding starts_with
starts_with-append [] cs = refl
starts_with-append (c ∷ p) cs = ground (arith, starts_with-append p cs)

-- A separator that is in no byte of the first part cuts there.
pub partition-append :
    (separator : ℕ) (p cs : Bytes)
    → All (λ c. eqb c separator ≡ false) p
    → partition separator (p ++ separator ∷ cs) ≡ (p, cs)
unfolding partition
partition-append separator [] cs h = ground arith
partition-append separator (c ∷ p) cs (here, h) =
    rw (partition, here, partition-append separator p cs h) refl

-- A text in which the character does not stand keeps its end.
pub rstrip_absent :
    (character : ℕ) (cs : Bytes) → All (λ c. eqb c character ≡ false) cs → rstrip character cs ≡ cs
unfolding rstrip
rstrip_absent character [] h = refl
rstrip_absent character (c ∷ cs) (here, h) = ground (arith, here, rstrip_absent character cs h)

abbrev longer_first : ℕ → List Bytes → List Bytes
longer_first c [] = (c ∷ []) ∷ []
longer_first c (first ∷ rest) = (c ∷ first) ∷ rest

-- `text.split(separator)`
unfoldable pub split : ℕ → Bytes → List Bytes
split separator [] = [] ∷ []
split separator (c ∷ cs) =
    let rest = split separator cs in if eqb c separator then [] ∷ rest else longer_first c rest

-- `not text.strip()`, for the white space of ASCII
abbrev pub is_blank : Bytes → Bool
is_blank text = all (λ c. eqb c 32 || leb 9 c && leb c 13) text
