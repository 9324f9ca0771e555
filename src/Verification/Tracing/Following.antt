-- ===== src/Verification/Tracing/Following.antt =====
-- Every handler of src/apex/verification/fingerprinttrace.py follows its event: if a view shows the state before,
-- the event makes it the view of the state after.
use apex_fedora.Base.{
  Bool, Bool-cases, Option, Option-cases, String, arith, false, has, if◌then◌else◌, inl, inr,
  lookup, none, not, refl, some, true, ℤ, ◌&&◌, ◌==◌, ◌||◌, ◌≡◌,
}
use apex_fedora.Kernel.Errors.{Result, Result-cases, ok, raise, other_exception}
use apex_fedora.Kernel.Documents.{JsonValue, Document, get, text}
use apex_fedora.Verification.Tracing.{
  Bus, Call, Pending, find_call, delete_call, Event, Trace, owner_of, Handled, is_text, is_unique,
  is_device_path, in_set, status_signals, interface, service, text_if,
}
use apex_fedora.Verification.Tracing.Handling.{
  is_owner, Asked, asks, with_client, register, positive_of, call, note_error, note_claim, answer,
  answered_of, settle, reply, payload_of, content_of, status_of, status_items, change_items,
  is_name_or_empty, change, owner_change, name_change, signal, handle,
}
use apex_fedora.Verification.Tracing.Ownership.{
  View, owner_after, see, Shows, find_call-put_call, find_call-delete_call, owner_of-insert,
}

-- A handler leaves the events and errors; what it returns tells how the state changed.
abbrev pub Told : Trace → Handled → Type 0
Told trace (after, raise error) = Unit
Told trace (after, ok none) = (view : View) → Shows view trace → Shows view after
Told trace (after, ok (some event)) =
    (view : View) → Shows view trace → Shows (see event view) after

abbrev pub Follows : Trace → Handled → Type 0
Follows trace handled =
    (handled.0.errors ≡ trace.errors) × (handled.0.events ≡ trace.events) × Told trace handled

with_client_same :
    (bus : Bus) (client : String) (trace : Trace)
    → ((with_client bus client trace).errors ≡ trace.errors)
      × ((with_client bus client trace).events ≡ trace.events)
      × ((with_client bus client trace).owners ≡ trace.owners)
unfolding with_client
with_client_same bus client trace = ground arith

register-Follows :
    (bus : Bus) (trace : Trace) (asked : Asked) (serial : ℤ)
    → Follows trace (register bus trace asked serial)
unfolding register see owner_of
register-Follows bus trace asked serial =
    let key : Call = record { client = asked.client; serial = serial } in
    let pending : Pending = record {
      method = asked.method;
      device = asked.device;
      destination = asked.destination;
    } in
    let (errors, events, owners) = with_client_same bus asked.client trace in
    (
      errors,
      events,
      λ view shows. record {
        owners = λ device. rw owners (shows.owners device);
        waiting = λ k.
            rw (find_call-put_call key k pending trace.pending) (ground (arith, shows.waiting k));
      },
    )

kept-Follows : (trace : Trace) → Follows trace (trace, ok none)
kept-Follows trace = (refl, refl, λ view shows. shows)

raised-Follows : (trace : Trace) → Follows trace (trace, raise other_exception)
raised-Follows trace = (refl, refl, tt)

call-Follows :
    (bus : Bus) (trace : Trace) (message : Document) → Follows trace (call bus trace message)
unfolding call
call-Follows bus trace message = elim (Result-cases (asks message)) [
  | inr (error, e) ↦ rw (call, e) (refl, refl, tt)
  | inl (found, e) ↦ elim (Option-cases found) [
    | inl n ↦ rw (call, e, n) (kept-Follows trace)
    | inr (asked, s) ↦ elim (Option-cases (positive_of (get "cookie" message))) [
      | inl n ↦ rw (call, e, s, n) (raised-Follows trace)
      | inr (serial, p) ↦ rw (call, e, s, p) (register-Follows bus trace asked serial)
    ]
  ]
]

-- A trace in which one call no longer waits
abbrev waited : Trace → Call → Trace
waited trace key = record trace { pending = delete_call key trace.pending }

settled :
    (trace : Trace) (key : Call) (pending : Pending) (is_error : Bool) (name : JsonValue)
    → let answered = answer (waited trace key) key pending is_error name in
      (answered.0.errors ≡ trace.errors)
      × (answered.0.events ≡ trace.events)
      × (answered.0.pending ≡ delete_call key trace.pending)
unfolding answer note_claim
settled trace key pending is_error name = ground arith

answer_owner :
    (trace : Trace) (key : Call) (pending : Pending) (is_error : Bool) (name : JsonValue)
    (view : View)
    → ((device : String) → owner_of trace device ≡ view.owner device)
    → let answered = answer trace key pending is_error name in
      (d : String)
      → owner_of answered.0 d
        ≡ owner_after key.client pending.method pending.device answered.1 view.owner d
unfolding answer note_claim note_error
answer_owner trace key pending is_error name view shows d =
    let claimed = owner_of-insert trace pending.device d (some key.client) in
    let freed = owner_of-insert trace pending.device d none in
    elim (Bool-cases is_error) [
      | inl t ↦ rw (answer, t) (shows d)
      | inr f ↦ elim (Bool-cases (pending.method == "Claim")) [
        | inl t ↦ rw (answer, f, t) (ground (arith, claimed, shows d))
        | inr g ↦
            elim (Bool-cases (
              pending.method == "Release" && is_owner (owner_of trace pending.device) key.client)) [
                | inl t ↦
                    rw (answer, f, g, t) (ground (arith, freed, shows d, shows pending.device))
                | inr h ↦ rw (answer, f, g, h) (ground (arith, shows d, shows pending.device))
              ]
      ]
    ]

owned_waited :
    (trace : Trace) (key : Call) {view : View}
    → Shows view trace
    → (d : String) → owner_of (waited trace key) d ≡ view.owner d
unfolding owner_of
owned_waited trace key shows d = shows.owners d

settle-Follows :
    (trace : Trace) (key : Call) (pending : Pending) (is_error : Bool) (name : JsonValue)
    → Follows trace (settle trace key pending is_error name)
unfolding settle see
settle-Follows trace key pending is_error name =
    let (errors, events, calls) = settled trace key pending is_error name in
    (
      errors,
      events,
      λ view shows. record {
        owners =
            answer_owner (waited trace key) key pending is_error name view
              (owned_waited trace key shows);
        waiting = λ k.
            rw calls
              (rw (find_call-delete_call key k trace.pending) (ground (arith, shows.waiting k)));
      },
    )

reply-Follows :
    (trace : Trace) (message : Document) (is_error : Bool)
    → Follows trace (reply trace message is_error)
unfolding reply
reply-Follows trace message is_error = elim (Option-cases (answered_of trace message)) [
  | inl n ↦ rw (reply, n) (kept-Follows trace)
  | inr ((key, pending, sender), e) ↦
      elim (Bool-cases (is_unique pending.destination && not (sender == pending.destination))) [
        | inl t ↦ rw (reply, e, t) (raised-Follows trace)
        | inr f ↦
            rw (reply, e, f) (settle-Follows trace key pending is_error (get "error_name" message))
      ]
]

abbrev IsStatus : Result (Option Event) → Type 0
IsStatus (raise error) = Unit
IsStatus (ok none) = ⊥
IsStatus (ok (some event)) = (view : View) → see event view ≡ view

status_of-IsStatus : (message : Document) (member : String) → IsStatus (status_of message member)
unfolding status_of see
status_of-IsStatus message member =
    elim (Option-cases (text_if is_device_path (get "path" message))) [
      | inl n ↦ rw (status_of, n) tt
      | inr (device, d) ↦ elim (Bool-cases (not (is_text "sb" (get "type" (payload_of message))))) [
        | inl t ↦ rw (status_of, d, t) tt
        | inr f ↦ elim (Option-cases (status_items (content_of message))) [
          | inl n ↦ rw (status_of, d, f, n) tt
          | inr ((first, done), e) ↦ rw (status_of, d, f, e) (λ view. refl)
        ]
      ]
    ]

status-Follows :
    (trace : Trace) (message : Document) (member : String)
    → Follows trace (trace, status_of message member)
status-Follows trace message member =
    go (status_of message member) (status_of-IsStatus message member)
  where
    go : (result : Result (Option Event)) → IsStatus result → Follows trace (trace, result)
    go (raise error) h = (refl, refl, tt)
    go (ok none) h = absurd h
    go (ok (some event)) h = (refl, refl, λ view shows. rw (h view) shows)

change-Follows : (trace : Trace) (name old new : String) → Follows trace (change trace name old new)
unfolding change see owner_of find_call lookup
change-Follows trace name old new =
    elim (Bool-cases (has name trace.clients && old == name && new == "")) [
      | inl t ↦
          rw (change, t)
            (refl, refl, λ view shows. record { owners = shows.owners; waiting = shows.waiting })
      | inr f ↦
          elim (Bool-cases (name == service && is_name_or_empty old && is_name_or_empty new)) [
            | inl t ↦
                rw (change, f, t)
                  (
                    refl,
                    refl,
                    λ view shows. record { owners = λ device. refl; waiting = λ key. refl },
                  )
            | inr g ↦ rw (change, f, g) (kept-Follows trace)
          ]
    ]

owner_change-Follows :
    (bus : Bus) (trace : Trace) (message : Document)
    → Follows trace (owner_change bus trace message)
unfolding owner_change
owner_change-Follows bus trace message =
    elim (Bool-cases (not (is_text "sss" (get "type" (payload_of message))))) [
      | inl t ↦ rw (owner_change, t) (raised-Follows trace)
      | inr f ↦ elim (Option-cases (change_items (content_of message))) [
        | inl n ↦ rw (owner_change, f, n) (raised-Follows trace)
        | inr ((name, old, new), e) ↦
            rw (owner_change, f, e)
              (change-Follows trace (bus.str_of name) (bus.str_of old) (bus.str_of new))
      ]
    ]

if-Follows :
    (trace : Trace) (test : Bool) (left right : Handled)
    → Follows trace left
    → Follows trace right
    → Follows trace (if test then left else right)
if-Follows trace true left right h k = h
if-Follows trace false left right h k = k

name_change-Follows :
    (bus : Bus) (trace : Trace) (message : Document) → Follows trace (name_change bus trace message)
name_change-Follows bus trace message =
    if-Follows trace _ (owner_change bus trace message) (trace, ok none)
      (owner_change-Follows bus trace message) (kept-Follows trace)

signal-Follows :
    (bus : Bus) (trace : Trace) (message : Document) → Follows trace (signal bus trace message)
unfolding signal
signal-Follows bus trace message = elim (Bool-cases (is_text interface (get "interface" message))) [
  | inr f ↦ rw (signal, f) (name_change-Follows bus trace message)
  | inl t ↦
      rw (signal, t) (go (in_set status_signals (get "member" message)) (get "member" message))
]
  where
    status_named :
        (member : JsonValue)
        → Follows trace
            (elim member [ text name ↦ (trace, status_of message name) | _ ↦ (trace, ok none) ])
    status_named (text name) = status-Follows trace message name
    status_named _ = kept-Follows trace

    go :
        (known : Result Bool) (member : JsonValue)
        → Follows trace (elim known [
          | raise error ↦ (trace, raise error)
          | ok false ↦ name_change bus trace message
          | ok true ↦ elim member [
            | text name ↦ (trace, status_of message name)
            | _ ↦ (trace, ok none)
          ]
        ])
    go (raise error) member = (refl, refl, tt)
    go (ok false) member = name_change-Follows bus trace message
    go (ok true) member = status_named member

pub handle-Follows :
    (bus : Bus) (trace : Trace) (message : Document) → Follows trace (handle bus trace message)
unfolding handle
handle-Follows bus trace message =
    let kind = get "type" message in
    if-Follows trace (is_text "method_call" kind) _ _ (call-Follows bus trace message) (
      if-Follows trace (is_text "method_return" kind || is_text "error" kind) _ _
        (reply-Follows trace message (is_text "error" kind))
        (if-Follows trace (is_text "signal" kind) _ _ (signal-Follows bus trace message)
          (kept-Follows trace)))
