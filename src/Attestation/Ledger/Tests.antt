-- ===== src/Attestation/Ledger/Tests.antt =====
-- The theorems on the chain, applied to a chain that grows by its first entry, over a small
-- library that knows one document.
use apex_fedora.Base.{
  Bytes, List, [], ap, arith, length, none, refl, some, subst, sym, true, ◌++◌, ◌∷◌, ◌≡◌, ◌≤◌,
}
use apex_fedora.Kernel.Refusals.{stage_failed}
use apex_fedora.Kernel.Errors.{ok}
use apex_fedora.Kernel.Verdicts
use apex_fedora.Kernel.Verdicts.{not_tested, stored_name}
use apex_fedora.Kernel.Claims
use apex_fedora.Kernel.Claims.{live_vm, physical_hardware, limit_value, require_attestable}
use apex_fedora.Attestation.Attesting.{recorded}
use apex_fedora.Attestation.Ledger.{
  Json, Head, decoded, negsuc, head_ahead_of_chain, Report, kind_value, entry_document, pos, text,
  integer, other, array, object, Library, Event, Sealed, line_document, line_limit, genesis,
  empty_head,
}
use apex_fedora.Attestation.Ledger.Parsing.{
  parse_line, event_in, parse_document, kind_of, environment_of, limit_of,
}
use apex_fedora.Attestation.Ledger.Opening.{stored_head}
use apex_fedora.Attestation.Ledger.Continuing.{append-stored_head}
use apex_fedora.Attestation.Ledger.Torn.{verified-torn}
use apex_fedora.Attestation.Ledger.Chain.{
  head_document, verify_from, line_break, head_break, confirms, Store, link_after, sign, line_of,
  seal_event, append, verified,
}
use apex_fedora.Attestation.Ledger.Reading.{reread_sealed, IsWellFormed, parse_line-line_of}
use apex_fedora.Attestation.Ledger.Appending.{IsChain, Reads, IsIntact, verified-IsChain}
use apex_fedora.Attestation.Ledger.Growing.{new_entry, append-IsIntact}

abbrev event : Event
event = record {
  kind = recorded;
  check = "boots";
  verdict = not_tested stage_failed;
  environment = live_vm;
  candidate = "ab";
  proofs = "cd" ∷ [];
  scope_limits = physical_hardware ∷ [];
}

-- The entry that is sealed behind the empty head.
abbrev first : Sealed
first = record {
  entry = record { sequence = pos 0; stamp = "noon"; event = event };
  link = "digest";
  tag = "code";
}

-- A library whose JSON knows one document
abbrev knowing : Json → Library
knowing document = record {
  encode = λ s. [];
  sha256 = λ b. "digest";
  hmac = λ key b. "code";
  dumps = λ j. 1 ∷ [];
  loads = λ b. decoded document;
  is_ascii = λ s. true;
  stripped = λ b. b;
  spelled = λ cs. "key";
  int_of = λ j. elim j [ integer n ↦ ok (some n) | _ ↦ ok none ];
  str_of = λ j. elim j [ text s ↦ s | integer n ↦ "" | other ↦ "" | array a ↦ "" | object o ↦ "" ];
  is_digest = λ s. true;
  is_check = λ s. true;
}

abbrev lib : Library
lib = knowing (line_document first)

abbrev start : Store
start = record { head = empty_head; lines = []; head_record = none }

first-IsWellFormed : IsWellFormed lib first
first-IsWellFormed = record {
  check = refl;
  candidate = refl;
  proofs = (refl, tt);
  link = refl;
  int_of = λ n. refl;
  str_of = λ s. refl;
}

first_short : length (line_of lib first) ≤ line_limit
unfolding line_of
first_short = omega arith

first_loads : lib.loads (line_of lib first) ≡ decoded (line_document first)
first_loads = refl

parse_line-line_of_example : parse_line lib (line_of lib first) ≡ ok (some (reread_sealed first))
parse_line-line_of_example = parse_line-line_of lib first first-IsWellFormed first_short first_loads

start-IsIntact : IsIntact lib "key" (verified lib "key" [] (some empty_head)) []
unfolding verified
start-IsIntact = (record { entries = 0; first_break = none }, refl, refl)

sealed_first : seal_event lib "key" empty_head "noon" event ≡ first
unfolding seal_event link_after sign
sealed_first = refl

live_attestable : require_attestable live_vm none ≡ ok live_vm
unfolding require_attestable
live_attestable = refl

abbrev only : List Sealed × Report
only = (reread_sealed first ∷ [], record { entries = 1; first_break = none })

only_held : verified lib "key" (line_of lib first ∷ []) none ≡ ok only
unfolding verified verify_from line_break head_break confirms sign link_after parse_line
    parse_document event_in kind_of environment_of limit_of entry_document line_document kind_value
    stored_name Claims.value limit_value Verdicts.parse line_of
only_held = refl

verified-IsChain_example :
    IsChain lib "key" genesis 0 only.0
    × Reads lib "key" (line_of lib first ∷ []) only.0
    × (only.1.first_break ≡ none → length only.0 ≡ length (line_of lib first ∷ []))
verified-IsChain_example = verified-IsChain lib "key" (line_of lib first ∷ []) none only_held

new-IsWellFormed : IsWellFormed lib (new_entry lib "key" "noon" event start)
new-IsWellFormed = subst (IsWellFormed lib) (sym sealed_first) first-IsWellFormed

new_short : length (line_of lib (new_entry lib "key" "noon" event start)) ≤ line_limit
unfolding line_of
new_short = omega arith

new_loads :
    lib.loads (line_of lib (new_entry lib "key" "noon" event start))
    ≡ decoded (line_document (new_entry lib "key" "noon" event start))
new_loads = ap (λ s. decoded (line_document s)) (sym sealed_first)

append-IsIntact_example :
    (after : Store) × (append lib "key" "noon" event start
      ≡ ok (new_entry lib "key" "noon" event start, after))
    × IsIntact lib "key"
        (verified lib "key" after.lines (some after.head))
        ([] ++ reread_sealed (new_entry lib "key" "noon" event start) ∷ [])
append-IsIntact_example =
    append-IsIntact lib "key" "noon" event start live_attestable start-IsIntact new-IsWellFormed
      new_short new_loads refl

first_read : parse_line lib (line_of lib first) ≡ ok (some (reread_sealed first))
first_read = parse_line-line_of lib first first-IsWellFormed first_short first_loads

first_confirmed : confirms lib "key" "digest" "code" ≡ ok true
unfolding confirms sign
first_confirmed = refl

first_linked : (reread_sealed first).link ≡ link_after lib genesis (reread_sealed first).entry
unfolding link_after
first_linked = refl

verified-torn_example :
    (report : Report) × (verified lib "key" ([] ++ line_of lib first ∷ []) (some empty_head)
      ≡ ok ([] ++ reread_sealed first ∷ [], report))
    × (report.first_break ≡ some (record { sequence = negsuc 0; cause = head_ahead_of_chain }))
verified-torn_example =
    verified-torn lib "key" [] (line_of lib first) (reread_sealed first) empty_head start-IsIntact
      first_read refl first_confirmed first_linked

abbrev first_head : Head
first_head = record { sequence = pos 0; link = "digest" }

abbrev head_lib : Library
head_lib = knowing (head_document first_head)

abbrev opened : Store
opened = record { head = first_head; lines = (1 ∷ []) ∷ []; head_record = some (1 ∷ []) }

opened_appended : append head_lib "key" "noon" event start ≡ ok (first, opened)
unfolding append require_attestable seal_event link_after sign line_of
opened_appended = refl

append-stored_head_example :
    (content : Bytes) × (opened.head_record ≡ some content)
    × (stored_head head_lib (some (ok content))
        ≡ ok (some (record { sequence = first.entry.sequence; link = first.link })))
append-stored_head_example =
    append-stored_head head_lib "key" "noon" event start opened_appended
      (record { loads = refl; int_of = refl; str_of = refl; digest = refl })
