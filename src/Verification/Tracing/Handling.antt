-- ===== src/Verification/Tracing/Handling.antt =====
-- How a message changes the trace of src/apex/verification/fingerprinttrace.py.
use apex_fedora.Base.{
  Bool, Option, String, [], contains, false, has, if◌then◌else◌, insert, is_positive, none, not,
  some, true, ℤ, ◌&&◌, ◌++◌, ◌==◌, ◌>>?◌, ◌||◌, ◌∷◌, add,
}
use apex_fedora.Kernel.Errors.{Result, ok, raise, other_exception, ◌>>=◌}
use apex_fedora.Kernel.Documents.{
  JsonValue, text, truth, array, object, no_items, item, Document, get, get_or, has_key, no_fields,
}
use apex_fedora.Verification.Tracing.{
  service, interface, bus_name, owner_changed, methods, status_signals, statuses, is_unique,
  is_device_path, is_error_name, text_if, int_of, is_text, in_set, Call, Pending, find_call,
  put_call, delete_call, Outcome, plain, claim, failure, Event, called, replied, status,
  client_disconnected, daemon_owner_changed, Stamped, Trace, Bus, owner_of, Handled,
}

-- What `_call` reads before it changes anything
pub record Asked : Type 0 where
  pub client : String
  pub method : String
  pub device : String
  pub destination : String

abbrev pub is_destination : String → Bool
is_destination s = s == service || is_unique s

abbrev pub asked_of : Document → Option Asked
asked_of message = text_if (λ s. contains s methods) (get "member" message) >>? λ method.
    text_if is_device_path (get "path" message) >>? λ device.
    text_if is_unique (get "sender" message) >>? λ client.
    text_if is_destination (get "destination" message) >>? λ destination.
    some (record { client = client; method = method; device = device; destination = destination })

unfoldable pub asks : Document → Result (Option Asked)
unfolding is_unique is_device_path
asks message =
    if is_text interface (get "interface" message)
    then (in_set methods (get "member" message) >>= λ known. ok (asked_of message))
    else ok none

-- The client's process is looked up once, when the client is new.
abbrev pub process_of : Bus → String → JsonValue
process_of bus client = elim bus.process_of [
  | some look_up ↦ look_up client
  | none ↦ object (Document.field "status" (text "UNKNOWN") no_fields)
]

unfoldable pub with_client : Bus → String → Trace → Trace
unfolding has insert
with_client bus client trace =
    if has client trace.clients
    then trace
    else record trace { clients = insert client (process_of bus client) trace.clients }

unfoldable pub register : Bus → Trace → Asked → ℤ → Handled
unfolding with_client put_call
register bus trace asked serial =
    let key : Call = record { client = asked.client; serial = serial } in
    let pending : Pending = record {
      method = asked.method;
      device = asked.device;
      destination = asked.destination;
    } in
    (
      record (with_client bus asked.client trace) { pending = put_call key pending trace.pending },
      ok (some (called key asked.method asked.device)),
    )

-- `type(value) is int and value > 0`
abbrev pub positive_of : JsonValue → Option ℤ
positive_of value = int_of value >>? λ n. if is_positive n then some n else none

-- `_call`
unfoldable pub call : Bus → Trace → Document → Handled
unfolding asks register
call bus trace message = elim (asks message) [
  | raise error ↦ (trace, raise error)
  | ok none ↦ (trace, ok none)
  | ok (some asked) ↦ elim (positive_of (get "cookie" message)) [
    | none ↦ (trace, raise other_exception)
    | some serial ↦ register bus trace asked serial
  ]
]

abbrev or_else : String → Option String → String
or_else default none = default
or_else default (some s) = s

-- `_note_error`
unfoldable pub note_error : Trace → Pending → String → JsonValue → Outcome
unfolding owner_of is_error_name
note_error trace pending client name =
    let previous = owner_of trace pending.device in
    let error = or_else "OTHER" (text_if is_error_name name) in
    failure error previous (previous >>? λ owner. some (owner == client))

-- `_note_claim`
unfoldable pub note_claim : Trace → Pending → String → Trace × Outcome
unfolding owner_of insert
note_claim trace pending client =
    let previous = owner_of trace pending.device in
    let after : Bool = elim previous [
      | some owner ↦ contains owner trace.disconnected
      | none ↦ false
    ] in
    (
      record trace { owners = insert pending.device (some client) trace.owners },
      claim previous after,
    )

abbrev pub is_owner : Option String → String → Bool
is_owner none client = false
is_owner (some owner) client = owner == client

-- The reply to a call that was pending, which no longer is
unfoldable pub answer : Trace → Call → Pending → Bool → JsonValue → Trace × Outcome
unfolding note_error note_claim owner_of insert
answer trace key pending is_error name =
    if is_error
    then (trace, note_error trace pending key.client name)
    else if pending.method == "Claim"
    then note_claim trace pending key.client
    else if pending.method == "Release" && is_owner (owner_of trace pending.device) key.client
    then (record trace { owners = insert pending.device none trace.owners }, plain)
    else (trace, plain)

-- What `_reply` reads before it changes anything
abbrev pub answered_of : Trace → Document → Option (Call × Pending × String)
answered_of trace message = text_if is_unique (get "destination" message) >>? λ client.
    int_of (get "reply_cookie" message) >>? λ serial.
    find_call (record { client = client; serial = serial }) trace.pending >>? λ pending.
    text_if is_unique (get "sender" message) >>? λ sender.
    some (record { client = client; serial = serial }, pending, sender)

unfoldable pub settle : Trace → Call → Pending → Bool → JsonValue → Handled
unfolding answer delete_call
settle trace key pending is_error name =
    let waited = record trace { pending = delete_call key trace.pending } in
    let answered = answer waited key pending is_error name in
    (answered.0, ok (some (replied key pending.method pending.device answered.1)))

-- `_reply`
unfoldable pub reply : Trace → Document → Bool → Handled
unfolding is_unique find_call settle
reply trace message is_error = elim (answered_of trace message) [
  | none ↦ (trace, ok none)
  | some (key, pending, sender) ↦
      if is_unique pending.destination && not (sender == pending.destination)
      then (trace, raise other_exception)
      else settle trace key pending is_error (get "error_name" message)
]

-- `payload.get("data", [])` and `payload.get("type")`, where the payload is an object
abbrev pub payload_of : Document → Document
payload_of message = elim (get "payload" message) [ object payload ↦ payload | _ ↦ no_fields ]

abbrev pub content_of : Document → JsonValue
content_of message = get_or (array no_items) "data" (payload_of message)

-- The two items of a status, the second a truth value
abbrev pub status_items : JsonValue → Option (JsonValue × Bool)
status_items (array (item first (item (truth done) no_items))) = some (first, done)
status_items _ = none

-- `_status`
unfoldable pub status_of : Document → String → Result (Option Event)
unfolding is_device_path
status_of message member = elim (text_if is_device_path (get "path" message)) [
  | none ↦ raise other_exception
  | some device ↦
      if not (is_text "sb" (get "type" (payload_of message)))
      then raise other_exception
      else elim (status_items (content_of message)) [
        | none ↦ raise other_exception
        | some (first, done) ↦ ok (
            some (
              status device member (or_else "UNKNOWN" (text_if (λ s. contains s statuses) first))
                done))
      ]
]

-- The three items of a change of owner
abbrev pub change_items : JsonValue → Option (JsonValue × JsonValue × JsonValue)
change_items (array (item name (item old (item new no_items)))) = some (name, old, new)
change_items _ = none

abbrev pub is_name_or_empty : String → Bool
is_name_or_empty s = s == "" || is_unique s

-- The name, the old and the new owner of a change
unfoldable pub change : Trace → (name old new : String) → Handled
unfolding has add is_unique
change trace name old new =
    if has name trace.clients && old == name && new == ""
    then (
      record trace { disconnected = add name trace.disconnected },
      ok (some (client_disconnected name)),
    )
    else if name == service && is_name_or_empty old && is_name_or_empty new
    then (record trace { owners = []; pending = [] }, ok (some (daemon_owner_changed old new)))
    else (trace, ok none)

-- `_owner_change`
unfoldable pub owner_change : Bus → Trace → Document → Handled
unfolding change
owner_change bus trace message =
    if not (is_text "sss" (get "type" (payload_of message)))
    then (trace, raise other_exception)
    else elim (change_items (content_of message)) [
      | none ↦ (trace, raise other_exception)
      | some (name, old, new) ↦ change trace (bus.str_of name) (bus.str_of old) (bus.str_of new)
    ]

abbrev pub name_change : Bus → Trace → Document → Handled
name_change bus trace message =
    let from_bus =
      is_text bus_name (get "sender" message) && is_text bus_name (get "interface" message) in
    if from_bus && is_text owner_changed (get "member" message)
    then owner_change bus trace message
    else (trace, ok none)

-- `_signal`
unfoldable pub signal : Bus → Trace → Document → Handled
unfolding status_of owner_change
signal bus trace message =
    if is_text interface (get "interface" message)
    then elim (in_set status_signals (get "member" message)) [
      | raise error ↦ (trace, raise error)
      | ok false ↦ name_change bus trace message
      | ok true ↦ elim (get "member" message) [
        | text member ↦ (trace, status_of message member)
        | _ ↦ (trace, ok none)
      ]
    ]
    else name_change bus trace message

-- `_stamped`
unfoldable pub stamped : Document → Trace → Event → Trace × Result (Option Stamped)
stamped message trace event = elim (positive_of (get "timestamp-realtime" message)) [
  | none ↦ (trace, raise other_exception)
  | some timestamp ↦
      let made : Stamped = record { event = event; bus_realtime_us = timestamp } in
      (record trace { events = trace.events ++ made ∷ [] }, ok (some made))
]

abbrev pub stamp_result : Document → Handled → Trace × Result (Option Stamped)
stamp_result message (trace, raise error) = (trace, raise error)
stamp_result message (trace, ok none) = (trace, ok none)
stamp_result message (trace, ok (some event)) = stamped message trace event

unfoldable pub handle : Bus → Trace → Document → Handled
unfolding call reply signal
handle bus trace message =
    let kind = get "type" message in
    if is_text "method_call" kind
    then call bus trace message
    else if is_text "method_return" kind || is_text "error" kind
    then reply trace message (is_text "error" kind)
    else if is_text "signal" kind
    then signal bus trace message
    else (trace, ok none)

abbrev pub is_object : JsonValue → Bool
is_object (object _) = true
is_object _ = false

unfoldable pub feed : Bus → Trace → JsonValue → Trace × Result (Option Stamped)
unfolding handle stamped
feed bus trace (object message) =
    if has_key "payload" message && not (is_object (get "payload" message))
    then (trace, raise other_exception)
    else stamp_result message (handle bus trace message)
feed bus trace _ = (trace, raise other_exception)
