-- ===== src/Verification/Tracing/Capturing.antt =====
-- A whole capture of src/apex/verification/fingerprinttrace.py: its lines, its limits and its summary.
use apex_fedora.Base.{
  Bool, Bytes, Dict, List, Option, String, [], false, if◌then◌else◌, is_blank, is_nil, leb, length,
  ltb, none, not, select, some, sorted, split, true, ℕ, ◌&&◌, ◌*◌, ◌+◌, ◌++◌, ◌==◌, ◌∷◌,
}
use apex_fedora.Kernel.Errors.{Result, ok, raise, other_exception}
use apex_fedora.Kernel.Documents.{JsonValue}
use apex_fedora.Verification.Tracing.{
  Bus, replied, claim, failure, Stamped, Trace, empty_trace, already_in_use,
}
use apex_fedora.Verification.Tracing.Handling.{feed}

abbrev pub event_limit : ℕ
event_limit = 2000

abbrev pub error_limit : ℕ
error_limit = 20

abbrev pub trace_line_limit : ℕ
trace_line_limit = 256 * 1024

abbrev pub trace_raw_limit : ℕ
trace_raw_limit = 256 * 1024

abbrev pub malformed : String
malformed = "Malformed monitor event"

abbrev pub size_limit : String
size_limit = "Capture size limit reached"

abbrev pub partial_event : String
partial_event = "Partial final monitor event"

abbrev pub noted : String → Trace → Trace
noted error trace = record trace { errors = trace.errors ++ error ∷ [] }

-- `parse_line`: the reader of JSON may refuse
unfoldable pub parse_line : Bus → Bytes → Result JsonValue
parse_line bus line =
    if ltb trace_line_limit (length line)
    then raise other_exception
    else elim (bus.loads line) [ some message ↦ ok message | none ↦ raise other_exception ]

unfoldable pub feed_line : Bus → Trace → Bytes → Trace × Result (Option Stamped)
unfolding parse_line feed
feed_line bus trace line = elim (parse_line bus line) [
  | raise error ↦ (trace, raise error)
  | ok message ↦ feed bus trace message
]

-- What a line leaves: the trace, the event it gave, and whether the loop goes on.
pub record Step : Type 0 where
  pub trace : Trace
  pub kept : Option Stamped
  pub goes_on : Bool

abbrev pub after_feed : Trace × Result (Option Stamped) → Step
after_feed (trace, raise error) =
    let marked = noted malformed trace in
    record { trace = marked; kept = none; goes_on = not (leb error_limit (length marked.errors)) }
after_feed (trace, ok event) =
    if leb event_limit (length trace.events)
    then record { trace = noted size_limit trace; kept = event; goes_on = false }
    else record { trace = trace; kept = event; goes_on = true }

unfoldable pub consume_line : Bus → Trace → ℕ → Bytes → Step
unfolding feed_line
consume_line bus trace consumed line =
    if is_blank line
    then record { trace = trace; kept = none; goes_on = true }
    else if ltb trace_raw_limit consumed
    then record { trace = noted size_limit trace; kept = none; goes_on = false }
    else after_feed (feed_line bus trace line)

abbrev pub kept_first : Option Stamped → List Stamped → List Stamped
kept_first none events = events
kept_first (some event) events = event ∷ events

-- `_consume`, over the lines of the stream, from the number of bytes that lie before them
unfoldable pub consume : Bus → List Bytes → ℕ → Trace → Trace × List Stamped
unfolding consume_line
consume bus [] consumed trace = (trace, [])
consume bus (line ∷ lines) consumed trace =
    let reached = consumed + length line + 1 in
    let step = consume_line bus trace reached line in
    let rest = consume bus lines reached step.trace in
    if step.goes_on
    then (rest.0, kept_first step.kept rest.1)
    else (step.trace, kept_first step.kept [])

-- `stream.endswith(b"\n")` and `stream.rsplit(b"\n", 1)[-1]`
abbrev pub last_line : List Bytes → Bytes
last_line [] = []
last_line (line ∷ []) = line
last_line (line ∷ next ∷ lines) = last_line (next ∷ lines)

-- `capture`: the trace that its summary is made of, and the events that are written. A last line that is
-- blank is no partial event, whether the stream ends with a line end or not.
unfoldable pub capture : Bus → Bytes → Trace × List Stamped
unfolding split consume
capture bus stream =
    let consumed = consume bus (split 10 stream) 0 empty_trace in
    if is_blank (last_line (split 10 stream))
    then consumed
    else (noted partial_event consumed.0, consumed.1)

abbrev pub is_denial : Stamped → Bool
is_denial made = elim made.event [
  | replied key method device (failure error last was) ↦ error == already_in_use
  | _ ↦ false
]

abbrev pub is_release : Stamped → Bool
is_release made = elim made.event [
  | replied key method device (failure error last was) ↦ false
  | replied key method device _ ↦ method == "Release"
  | _ ↦ false
]

abbrev pub is_late_claim : Stamped → Bool
is_late_claim made = elim made.event [
  | replied key method device (claim previous after) ↦ after
  | _ ↦ false
]

pub record Summary : Type 0 where
  pub observed : Bool
  pub errors : List String
  pub clients : Dict JsonValue
  pub last_observed_owners : Dict (Option String)
  pub disconnected_clients : List String
  pub pending_replies : ℕ
  pub event_count : ℕ
  pub claim_denials : ℕ
  pub successful_releases : ℕ
  pub claims_after_disconnect : ℕ

unfoldable pub summary : Trace → Summary
unfolding sorted
summary trace = record {
  observed = is_nil trace.errors && is_nil trace.pending && not (is_nil trace.events);
  errors = trace.errors;
  clients = trace.clients;
  last_observed_owners = trace.owners;
  disconnected_clients = sorted trace.disconnected;
  pending_replies = length trace.pending;
  event_count = length trace.events;
  claim_denials = length (select is_denial trace.events);
  successful_releases = length (select is_release trace.events);
  claims_after_disconnect = length (select is_late_claim trace.events);
}
