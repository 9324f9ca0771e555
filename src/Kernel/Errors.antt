-- ===== src/Kernel/Errors.antt =====
-- src/apex/kernel/errors.py: what the code raises, and the results of code that may raise. The subject and
-- the remedy of an error are text for the operator, which no code reads, and are left out.
use apex_fedora.Base.{
  ℕ, Bool, true, false, Option, none, some, List, [], ◌∷◌, ◌≡◌, refl, ◌⊎◌, inl, inr,
}
use apex_fedora.Kernel.Refusals.{RefusalReason}

-- The classes of errors.py; `other_exception` is any exception that is not the project's own.
pub data Raised : Type 0 where
  refusal precondition_unmet : RefusalReason → Raised
  verification_failed port_failure registration_error internal_defect other_exception : Raised

-- `exit_code` of the class; an InternalDefect is no ApexError and has none.
unfoldable pub exit_code : Raised → Option ℕ
exit_code (refusal _) = some 2
exit_code (precondition_unmet _) = some 3
exit_code verification_failed = some 4
exit_code port_failure = some 5
exit_code registration_error = some 6
exit_code internal_defect = none
exit_code other_exception = none

pub data Result {ℓ} (A : Type ℓ) : Type ℓ where
  ok : A → Result A
  raise : Raised → Result A

-- `if test: raise error`
abbrev pub raise_if : Bool → Raised → Result (Unit {0})
raise_if true error = raise error
raise_if false error = ok tt

infixl 5 ◌>>◌
module _ {ℓ κ} {A : Type ℓ} {B : Type κ} where
  infixl 5 ◌>>=◌
  -- What follows runs on what was returned; what was raised passes through.
  abbrev pub ◌>>=◌ : (first : Result A) (next : A → Result B) → Result B
  ok value >>= next = next value
  raise error >>= next = raise error

  -- A bind that returned is undone: its first part returned as well.
  pub >>=-eq-ok :
      (first : Result A) (next : A → Result B) {result : B}
      → (first >>= next) ≡ ok result
      → (value : A) × (first ≡ ok value) × (next value ≡ ok result)
  >>=-eq-ok (ok value) next returned = (value, refl, returned)
  >>=-eq-ok (raise error) next returned = cc

-- `[f(x) for x in xs]` for an `f` that may raise.
abbrev pub traverse {ℓ κ} :
    {A : Type ℓ} {B : Type κ} (f : A → Result B) (xs : List A) → Result (List B)
traverse f [] = ok []
traverse f (x ∷ xs) = f x >>= λ y. traverse f xs >>= λ ys. ok (y ∷ ys)

abbrev pub ◌>>◌ {κ} : {B : Type κ} (first : Result (Unit {0})) (next : Result B) → Result B
first >> next = first >>= λ done. next

-- A result was returned or raised.
pub Result-cases {ℓ} :
    {A : Type ℓ} (r : Result A) → ((a : A) × (r ≡ ok a)) ⊎ ((e : Raised) × (r ≡ raise e))
Result-cases (ok a) = inl (a, refl)
Result-cases (raise e) = inr (e, refl)
