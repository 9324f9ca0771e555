-- ===== src/Attestation/Ledger/Parsing.antt =====
-- `_parse` of src/apex/attestation/ledger.py: a line of the chain read back. What its `try` blocks catch gives
-- None there, and `none` here; another exception of `json.loads` passes.
use apex_fedora.Base.{
  Bool, Bytes, List, Option, String, [], if◌then◌else◌, length, ltb, none, some, values, ◌==◌, ◌∷◌,
}
use apex_fedora.Kernel.Refusals.{no_verified_result}
use apex_fedora.Kernel.Errors
use apex_fedora.Kernel.Verdicts
use apex_fedora.Kernel.Claims
use apex_fedora.Kernel.Claims.{
  EnvironmentKind, build, build_container, vm, live_vm, installer_vm, physical, operator, simulated,
  ScopeLimit, physical_hardware, failed_deployment_recovery, secure_boot, upstream_prose_unverified,
  legacy_no_port_proof, legacy_no_candidate_readback, limit_value,
}
use apex_fedora.Attestation.Attesting.{EntryKind, recorded, imported}
use apex_fedora.Attestation.Ledger.{
  ℤ, Event, Json, text, integer, other, array, object, Items, no_items, item, Fields, no_fields,
  field, decoded, not_json, undecodable, Library, Sealed, line_limit, kind_value,
}

infixl 5 ◌>>=◌
abbrev pub ◌>>=◌ : {A B : Type 0} (found : Option A) (next : A → Option B) → Option B
none >>= next = none
some a >>= next = next a

-- `document[name]`
abbrev pub field_of : String → Fields → Option Json
field_of name no_fields = none
field_of name (field key value rest) =
    let later = field_of name rest in if key == name then some value else later

abbrev pub get : String → Json → Option Json
get name (object fields) = field_of name fields
get name (text _) = none
get name (integer _) = none
get name other = none
get name (array _) = none

-- A string, for the constructors that take nothing else.
abbrev pub text_of : Json → Option String
text_of (text s) = some s
text_of (integer _) = none
text_of other = none
text_of (array _) = none
text_of (object _) = none

-- `for item in value`: the keys of an object, and no characters, since no single one is accepted.
abbrev pub list_of : Items → List Json
list_of no_items = []
list_of (item value rest) = value ∷ list_of rest

abbrev pub keys_of : Fields → List Json
keys_of no_fields = []
keys_of (field key value rest) = text key ∷ keys_of rest

abbrev pub iterate : Json → Option (List Json)
iterate (array items) = some (list_of items)
iterate (object fields) = some (keys_of fields)
iterate (text s) = if s == "" then some [] else none
iterate (integer _) = none
iterate other = none

abbrev pub each : {A : Type 0} (read : Json → Option A) (values : List Json) → Option (List A)
each read [] = some []
each read (value ∷ values) = read value >>= λ a. each read values >>= λ more. some (a ∷ more)

-- The member of an enumeration that has this value.
abbrev pub member : {A : Type 0} (value : A → String) (members : List A) (code : String) → Option A
member value [] code = none
member value (m ∷ members) code =
    let later = member value members code in if value m == code then some m else later

abbrev kinds : List EntryKind
kinds = recorded ∷ imported ∷ []

abbrev environments : List EnvironmentKind
environments =
    build ∷ build_container ∷ vm ∷ live_vm ∷ installer_vm ∷ physical ∷ operator ∷ simulated ∷ []

abbrev limits : List ScopeLimit
limits =
    physical_hardware ∷ failed_deployment_recovery ∷ secure_boot ∷ upstream_prose_unverified
    ∷ legacy_no_port_proof ∷ legacy_no_candidate_readback ∷ []

abbrev pub returned : {A : Type 0} → Errors.Result A → Option A
returned (Errors.ok a) = some a
returned (Errors.raise _) = none

-- `Digest(...)`, `CheckId(...)`
abbrev pub accepted : (String → Bool) → String → Option String
accepted accepts s = if accepts s then some s else none

unfoldable pub kind_of : String → Option EntryKind
unfolding kind_value
kind_of code = member kind_value kinds code

unfoldable pub environment_of : String → Option EnvironmentKind
unfolding Claims.value
environment_of code = member Claims.value environments code

unfoldable pub limit_of : String → Option ScopeLimit
unfolding limit_value
limit_of code = member limit_value limits code

module _ (lib : Library) where
  -- The event of a line
  unfoldable pub event_in : Json → Option Event
  unfolding kind_of environment_of limit_of Verdicts.parse
  event_in body = do
    kind ← get "kind" body >>= text_of >>= kind_of
    check ← get "check" body >>= text_of >>= accepted lib.is_check
    verdict ←
        get "verdict" body >>= text_of >>= λ name. returned (Verdicts.parse name no_verified_result)
    environment ← get "environment" body >>= text_of >>= environment_of
    candidate ← get "candidate" body >>= text_of >>= accepted lib.is_digest
    proofs ←
        get "proofs" body >>= iterate >>= each (λ value. text_of value >>= accepted lib.is_digest)
    scope_limits ←
        get "scope_limits" body >>= iterate >>= each (λ value. text_of value >>= limit_of)
    some (record {
      kind = kind;
      check = check;
      verdict = verdict;
      environment = environment;
      candidate = candidate;
      proofs = proofs;
      scope_limits = scope_limits;
    })

  -- What is built behind the sequence
  abbrev pub sealed_in : Json → Json → Event → ℤ → Option Sealed
  sealed_in document body event sequence = do
    stamp ← get "stamp" body
    link ← get "link" document >>= text_of >>= accepted lib.is_digest
    tag ← get "mac" document
    some (record {
      entry = record { sequence = sequence; stamp = lib.str_of stamp; event = event };
      link = link;
      tag = lib.str_of tag;
    })

  unfoldable pub parse_document : Json → Errors.Result (Option Sealed)
  unfolding event_in
  parse_document document = elim (get "entry" document) [
    | none ↦ Errors.ok none
    | some body ↦ elim (event_in body) [
      | none ↦ Errors.ok none
      | some event ↦ elim (get "sequence" body) [
        | none ↦ Errors.ok none
        | some value ↦ elim (lib.int_of value) [
          | Errors.raise e ↦ Errors.raise e
          | Errors.ok none ↦ Errors.ok none
          | Errors.ok (some sequence) ↦ Errors.ok (sealed_in document body event sequence)
        ]
      ]
    ]
  ]

  unfoldable pub parse_line : Bytes → Errors.Result (Option Sealed)
  unfolding parse_document
  parse_line line = if ltb line_limit (length line) then Errors.ok none else elim (lib.loads line) [
    | decoded document ↦ parse_document document
    | not_json ↦ Errors.ok none
    | undecodable ↦ Errors.raise Errors.other_exception
  ]
