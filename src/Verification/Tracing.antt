-- ===== src/Verification/Tracing.antt =====
-- src/apex/verification/fingerprinttrace.py: the bus messages of fprintd, read one by one into a state of inferred
-- ownership. The process behind a client, `str` of a JSON value and `json.loads` are one bundle of
-- functions; the reading of the monotonic clock, which labels an event, is left out.
pub mod Handling
pub mod Capturing
pub mod Ownership
pub mod Following
pub mod Stepping
pub mod Observing
use apex_fedora.Base.{
  Bool, Bytes, Dict, List, Option, String, [], all, codes, contains, drop, eqb, false, has,
  if◌then◌else◌, insert, is_decimal_digit, is_nil, is_positive, leb, length, lookup, none, not,
  partition, same_integer, some, starts_with, true, ℤ, ◌&&◌, ◌++◌, ◌==◌, ◌>>?◌, ◌||◌, ◌∷◌,
}
use apex_fedora.Kernel.Errors.{Result, ok, raise, other_exception, ◌>>=◌}
use apex_fedora.Kernel.Documents.{
  JsonValue, text, integer, truth, null, other, array, object, Items, no_items, item, Document, get,
  get_or, has_key,
}

abbrev pub service : String
service = "net.reactivated.Fprint"

abbrev pub interface : String
interface = "net.reactivated.Fprint.Device"

abbrev pub bus_name : String
bus_name = "org.freedesktop.DBus"

abbrev pub owner_changed : String
owner_changed = "NameOwnerChanged"

abbrev pub already_in_use : String
already_in_use = "net.reactivated.Fprint.Error.AlreadyInUse"

abbrev pub methods : List String
methods = "Claim" ∷ "Release" ∷ "EnrollStart" ∷ "EnrollStop" ∷ "VerifyStart" ∷ "VerifyStop" ∷ []

abbrev pub status_signals : List String
status_signals = "EnrollStatus" ∷ "VerifyStatus" ∷ []

abbrev pub statuses : List String
statuses =
    "enroll-stage-passed" ∷ "enroll-completed" ∷ "enroll-failed" ∷ "enroll-data-full"
    ∷ "enroll-disconnected" ∷ "enroll-unknown-error" ∷ "enroll-retry-scan"
    ∷ "enroll-swipe-too-short" ∷ "enroll-finger-not-centered" ∷ "enroll-remove-and-retry"
    ∷ "enroll-duplicate" ∷ "verify-match" ∷ "verify-no-match" ∷ "verify-retry-scan"
    ∷ "verify-swipe-too-short" ∷ "verify-finger-not-centered" ∷ "verify-remove-and-retry"
    ∷ "verify-disconnected" ∷ "verify-unknown-error" ∷ []

abbrev digits : Bytes → Bool
digits cs = not (is_nil cs) && all is_decimal_digit cs

abbrev letters : Bytes → Bool
letters cs = not (is_nil cs) && all (λ c. leb 65 c && leb c 90 || leb 97 c && leb c 122) cs

abbrev after_prefix : String → (Bytes → Bool) → String → Bool
after_prefix prefix test s =
    starts_with (codes prefix) (codes s) && test (drop (length (codes prefix)) (codes s))

-- `UNIQUE_NAME`, `DEVICE_PATH` and `ERROR_NAME`, matched against the whole text
unfoldable pub is_unique : String → Bool
unfolding starts_with partition
is_unique = after_prefix ":" (λ cs. digits (partition 46 cs).0 && digits (partition 46 cs).1)

unfoldable pub is_device_path : String → Bool
unfolding starts_with
is_device_path = after_prefix "/net/reactivated/Fprint/Device/" digits

unfoldable pub is_error_name : String → Bool
unfolding starts_with
is_error_name = after_prefix "net.reactivated.Fprint.Error." letters

-- The text of a value, if it is one that a test accepts
abbrev pub text_if : (String → Bool) → JsonValue → Option String
text_if test (text s) = if test s then some s else none
text_if test _ = none

-- `type(value) is int`
abbrev pub int_of : JsonValue → Option ℤ
int_of (integer n) = some n
int_of _ = none

abbrev pub is_text : String → JsonValue → Bool
is_text wanted (text s) = s == wanted
is_text wanted _ = false

-- `value in names`, for a set: a list or an object has no hash
abbrev pub in_set : List String → JsonValue → Result Bool
in_set names (text s) = ok (contains s names)
in_set names (array _) = raise other_exception
in_set names (object _) = raise other_exception
in_set names _ = ok false

pub record Call : Type 0 where
  pub client : String
  pub serial : ℤ

pub record Pending : Type 0 where
  pub method : String
  pub device : String
  pub destination : String

abbrev pub same_call : Call → Call → Bool
same_call c d = c.client == d.client && same_integer c.serial d.serial

-- The three operations on `pending` that are used
unfoldable pub find_call : Call → List (Call × Pending) → Option Pending
find_call c [] = none
find_call c ((d, p) ∷ calls) = if same_call d c then some p else find_call c calls

unfoldable pub put_call : Call → Pending → List (Call × Pending) → List (Call × Pending)
put_call c p [] = (c, p) ∷ []
put_call c p ((d, q) ∷ calls) =
    let rest = put_call c p calls in if same_call d c then (d, p) ∷ calls else (d, q) ∷ rest

unfoldable pub delete_call : Call → List (Call × Pending) → List (Call × Pending)
delete_call c [] = []
delete_call c ((d, q) ∷ calls) =
    let rest = delete_call c calls in if same_call d c then rest else (d, q) ∷ rest

-- What a reply says: no more than that it is OK, who owned the device before a claim, or which error
-- it is and whom it was last seen with.
pub data Outcome : Type 0 where
  plain : Outcome
  claim : (previous_owner : Option String) → (after_previous_disconnect : Bool) → Outcome
  failure :
      (error : String)
      → (last_observed_owner : Option String) → (caller_was_last_owner : Option Bool) → Outcome

pub data Event : Type 0 where
  called : Call → (method device : String) → Event
  replied : Call → (method device : String) → Outcome → Event
  status : (device signal status : String) → (done : Bool) → Event
  client_disconnected : String → Event
  daemon_owner_changed : (old new : String) → Event

pub record Stamped : Type 0 where
  pub event : Event
  pub bus_realtime_us : ℤ

pub record Trace : Type 0 where
  pub clients : Dict JsonValue
  pub pending : List (Call × Pending)
  pub owners : Dict (Option String)
  pub disconnected : List String
  pub events : List Stamped
  pub errors : List String

abbrev pub empty_trace : Trace
empty_trace = record {
  clients = [];
  pending = [];
  owners = [];
  disconnected = [];
  events = [];
  errors = [];
}

pub record Bus : Type 0 where
  pub process_of : Option (String → JsonValue)
  pub str_of : JsonValue → String
  pub loads : Bytes → Option JsonValue

-- `self.owners.get(device)`
unfoldable pub owner_of : Trace → String → Option String
unfolding lookup
owner_of trace device = lookup device trace.owners >>? λ owner. owner

-- A handler leaves the trace as it changed it, beside the event that it returned or what it raised.
abbrev pub Handled : Type 0
Handled = Trace × Result (Option Event)
