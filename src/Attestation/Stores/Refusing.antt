-- ===== src/Attestation/Stores/Refusing.antt =====
-- Reading a record of the older tools refuses it or returns it, if it is text (src/apex/model/runtimestate.py).
use apex_fedora.Base.{
  Bool, codes, List, Option-cases, String, [], false, if◌then◌else◌, inl, inr, refl, true, ◌==◌,
  ◌∷◌, ◌≡◌,
}
use apex_fedora.Kernel.Refusals.{
  RefusalReason, malformed_digest, malformed_identifier, malformed_verdict,
}
use apex_fedora.Kernel.Errors.{Result, ok, raise, refusal, Raised, traverse, ◌>>=◌}
use apex_fedora.Kernel.Verdicts
use apex_fedora.Kernel.Documents.{JsonValue, object}
use apex_fedora.Kernel.Identifiers.{
  digest, parse_digest, dotted_name, after_colon, before_colon, is_hexadecimal, is_dotted_from,
}
use apex_fedora.Model.Marks.{Loaded, loaded, not_json, not_text}
use apex_fedora.Model.Runtime.{document_of}

-- What is raised is a refusal.
abbrev pub IsRefusal : Raised → Type 0
IsRefusal (refusal reason) = Unit
IsRefusal _ = ⊥

pub data OnlyRefuses {A : Type 0} : Result A → Type 0 where
  returns : {value : A} → OnlyRefuses (ok value)
  refuses : {error : Raised} → IsRefusal error → OnlyRefuses (raise error)

pub OnlyRefuses-bind :
    {A B : Type 0} (first : Result A) (next : A → Result B)
    → OnlyRefuses first
    → ((value : A) → OnlyRefuses (next value))
    → OnlyRefuses (first >>= next)
OnlyRefuses-bind (ok value) next h rest = rest value
OnlyRefuses-bind (raise error) next (refuses h) rest = refuses h

pub OnlyRefuses-if :
    {A : Type 0} (test : Bool) (left right : Result A)
    → OnlyRefuses left
    → OnlyRefuses right
    → OnlyRefuses (if test then left else right)
OnlyRefuses-if true left right h k = h
OnlyRefuses-if false left right h k = k

digest-OnlyRefuses : (value : String) → OnlyRefuses (digest value)
unfolding digest
digest-OnlyRefuses value =
    OnlyRefuses-if (is_hexadecimal 64 value) (ok value) (raise (refusal malformed_digest)) returns
      (refuses tt)

pub parse_digest-OnlyRefuses : (value : String) → OnlyRefuses (parse_digest value)
unfolding parse_digest
parse_digest-OnlyRefuses value = elim (Option-cases (after_colon value)) [
  | inl n ↦ rw (parse_digest, n) (digest-OnlyRefuses value)
  | inr (rest, e) ↦
      rw (parse_digest, e)
        (OnlyRefuses-if (before_colon value == "sha256") _ _ (digest-OnlyRefuses rest) (refuses tt))
]

pub dotted_name-OnlyRefuses : (value : String) → OnlyRefuses (dotted_name value)
unfolding dotted_name
dotted_name-OnlyRefuses value =
    OnlyRefuses-if (is_dotted_from true (codes value)) (ok value)
      (raise (refusal malformed_identifier)) returns (refuses tt)

pub verdict-OnlyRefuses :
    (name : String) (reason : RefusalReason) → OnlyRefuses (Verdicts.parse name reason)
unfolding Verdicts.parse
verdict-OnlyRefuses name reason =
    OnlyRefuses-if (name == Verdicts.stored_name Verdicts.passed) (ok Verdicts.passed) _ returns (
      OnlyRefuses-if (name == Verdicts.stored_name Verdicts.failed) (ok Verdicts.failed) _ returns (
        OnlyRefuses-if (name == Verdicts.stored_name Verdicts.blocked) (ok Verdicts.blocked) _
          returns
          (OnlyRefuses-if (name == Verdicts.stored_name (Verdicts.not_tested reason))
            (ok (Verdicts.not_tested reason)) (raise (refusal malformed_verdict)) returns
            (refuses tt))))

pub traverse-OnlyRefuses :
    {A B : Type 0} (f : A → Result B)
    → ((a : A) → OnlyRefuses (f a))
    → (xs : List A) → OnlyRefuses (traverse f xs)
traverse-OnlyRefuses f h [] = returns
traverse-OnlyRefuses f h (x ∷ xs) =
    OnlyRefuses-bind (f x) (λ y. traverse f xs >>= λ ys. ok (y ∷ ys)) (h x)
      (λ y.
        OnlyRefuses-bind (traverse f xs) (λ ys. ok (y ∷ ys)) (traverse-OnlyRefuses f h xs)
          (λ ys. returns))

pub document_of-OnlyRefuses :
    (found : Loaded) → ¬ (found ≡ not_text) → OnlyRefuses (document_of found)
unfolding document_of
document_of-OnlyRefuses (loaded value) h = go value
  where
    go : (value : JsonValue) → OnlyRefuses (document_of (loaded value))
    go (object document) = returns
    go _ = refuses tt
document_of-OnlyRefuses not_json h = refuses tt
document_of-OnlyRefuses not_text h = absurd (h refl)
