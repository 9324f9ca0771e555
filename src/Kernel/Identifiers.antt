-- ===== src/Kernel/Identifiers.antt =====
-- src/apex/kernel/identifiers.py: identities that are tested when they are made. The classes that only name a use of
-- a digest, of 32 hexadecimal digits or of a dotted name are one function each.
use Prim.Native.Char.{code}
use apex_fedora.Base.{
  Bool, Bytes, Option, String, [], all, codes, eqb, false, if◌then◌else◌, is_decimal_digit, leb,
  length, none, not, some, true, ℕ, ◌&&◌, ◌==◌, ◌||◌, ◌∷◌, ◌≡◌, refl,
}
use apex_fedora.Kernel.Refusals.{malformed_digest, malformed_identifier}
use apex_fedora.Kernel.Errors.{Result, ok, raise, refusal}

-- `[0-9a-f]{n}`, matched against the whole text
abbrev pub is_hexadecimal : ℕ → String → Bool
is_hexadecimal n s =
    eqb (length (codes s)) n && all (λ c. is_decimal_digit c || leb 97 c && leb c 102) (codes s)

abbrev name_character : ℕ → Bool
name_character c = is_decimal_digit c || leb 97 c && leb c 122

-- `[a-z0-9]+(?:[.-][a-z0-9]+)*`, from a place where a part has yet to begin, or has begun
abbrev pub is_dotted_from : (begins : Bool) → Bytes → Bool
is_dotted_from begins [] = not begins
is_dotted_from begins (c ∷ cs) =
    name_character c && is_dotted_from false cs
    || not begins && (eqb c 46 || eqb c 45) && is_dotted_from true cs

-- `Digest(value)`, by its digits
unfoldable pub digest : String → Result String
digest value = if is_hexadecimal 64 value then ok value else raise (refusal malformed_digest)

-- `BuildId(value)`, `RunId(value)`, `Token(value)`
unfoldable pub hex_identifier : String → Result String
hex_identifier value =
    if is_hexadecimal 32 value then ok value else raise (refusal malformed_identifier)

-- `CheckId(value)` and the other dotted names
unfoldable pub dotted_name : String → Result String
dotted_name value =
    if is_dotted_from true (codes value) then ok value else raise (refusal malformed_identifier)

-- The parts of `value.partition(":")`
abbrev pub before_colon : String → String
before_colon String.[] = String.[]
before_colon (String.◌∷◌ c s) =
    let rest = before_colon s in if eqb (code c) 58 then String.[] else String.◌∷◌ c rest

abbrev pub after_colon : String → Option String
after_colon String.[] = none
after_colon (String.◌∷◌ c s) = let rest = after_colon s in if eqb (code c) 58 then some s else rest

-- `Digest.parse`
unfoldable pub parse_digest : String → Result String
unfolding digest
parse_digest value = elim (after_colon value) [
  | none ↦ digest value
  | some remainder ↦
      if before_colon value == "sha256" then digest remainder else raise (refusal malformed_digest)
]

-- A text before a text
abbrev joined : String → String → String
joined String.[] after = after
joined (String.◌∷◌ c s) after = String.◌∷◌ c (joined s after)

-- `str(digest)`
unfoldable pub digest_text : String → String
digest_text value = joined "sha256:" value

-- The digits of a digest come back from its text.
pub parse-digest_text :
    (value : String) → is_hexadecimal 64 value ≡ true → parse_digest (digest_text value) ≡ ok value
unfolding parse_digest digest_text digest
parse-digest_text value h = rw h refl
