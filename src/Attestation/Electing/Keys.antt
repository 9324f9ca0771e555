-- ===== src/Attestation/Electing/Keys.antt =====
-- Two marks that can be read have two keys (src/apex/attestation/markclaims.py).
use Prim.Native.Char.{Char, code}
use apex_fedora.Base.{
  All, Bool, Bool-cases, Bytes, In, List, Option, String, [], ap, arith, codes, contains,
  contains_iff, decimal, decimal_digits, drop, false, if◌then◌else◌, inl, inr, is_decimal_digit,
  none, number_from, number_from-decimal, refl, some, sym, true, ℕ, ◌∙◌, ◌∷◌, ◌≡◌,
}
use apex_fedora.Model.Marks.{VersionMark, unmarked, marked, unreadable}
use apex_fedora.Attestation.Electing.{
  MarkClaim, mark_absent, mark_equals, digit, digits_text, mark_key, key, key_for,
}

-- The claim that a mark is the object of
abbrev pub claim_of : VersionMark → Option MarkClaim
claim_of unmarked = some mark_absent
claim_of (marked version) = some (mark_equals version)
claim_of unreadable = none

code-if :
    (test : Bool) (c d : Char) → code (if test then c else d) ≡ (if test then code c else code d)
code-if true c d = refl
code-if false c d = refl

code-digit : (c : ℕ) → is_decimal_digit c ≡ true → code (digit c) ≡ c
code-digit c h = simp code-if (ground (arith, h))

codes-digits_text :
    (cs : Bytes) → All (λ c. is_decimal_digit c ≡ true) cs → codes (digits_text cs) ≡ cs
codes-digits_text [] h = refl
codes-digits_text (c ∷ cs) (here, h) = rw (code-digit c here, codes-digits_text cs h) refl

first : Bytes → ℕ
first [] = 0
first (c ∷ cs) = c

absent_differs : (n : ℕ) → "absent" ≡ mark_key n → ⊥
unfolding first
absent_differs n h = let letters : 97 ≡ 109 = ap (λ s. first (codes s)) h in omega (arith, letters)

-- Two versions have two keys.
pub key_injective : (c d : MarkClaim) → key c ≡ key d → c ≡ d
unfolding key
key_injective mark_absent mark_absent h = refl
key_injective mark_absent (mark_equals n) h = absurd (absent_differs n h)
key_injective (mark_equals m) mark_absent h = absurd (absent_differs m (sym h))
key_injective (mark_equals m) (mark_equals n) h =
    let texts = ap (λ s. drop 5 (codes s)) h in
    let digits =
      sym (codes-digits_text (decimal m) (decimal_digits m))
      ∙ texts
      ∙ codes-digits_text (decimal n) (decimal_digits n) in
    ap (λ v. mark_equals v)
      (sym (number_from-decimal m) ∙ ap (λ cs. number_from 0 cs) digits ∙ number_from-decimal n)

pub key_for-claim_of :
    (mark : VersionMark) (wanted : MarkClaim)
    → claim_of mark ≡ some wanted
    → key_for mark ≡ some (key wanted)
unfolding key_for
key_for-claim_of unmarked wanted h = ground (arith, h)
key_for-claim_of (marked version) wanted h = ground (arith, h)
key_for-claim_of unreadable wanted h = cc

pub not_contained :
    (name : String) (names : List String) → ¬ In name names → contains name names ≡ false
not_contained name names h = elim (Bool-cases (contains name names)) [
  | inl t ↦ absurd (h ((contains_iff name names).0 t))
  | inr f ↦ f
]
