-- ===== src/Verification/Tracing/Stepping.antt =====
-- What one message and one line leave of the trace of src/apex/verification/fingerprinttrace.py.
use apex_fedora.Base.{
  Bool-cases, Bytes, List, Option, Option-cases, String, [], arith, false, inl, inr, append-nil,
  length, length-append, none, not, refl, some, sym, true, ℕ, ◌&&◌, ◌∷◌, ◌≡◌, ◌++◌, ◌+◌, ap, ◌∙◌,
  ◌≤◌, ◌<◌, leb, ltb, is_blank, subst,
}
use apex_fedora.Kernel.Errors.{Result, Result-cases, ok, raise}
use apex_fedora.Kernel.Documents.{JsonValue, Document, get, object, has_key}
use apex_fedora.Verification.Tracing.{Bus, Event, Stamped, Trace, owner_of, Handled}
use apex_fedora.Verification.Tracing.Handling.{
  positive_of, stamped, stamp_result, handle, is_object, feed,
}
use apex_fedora.Verification.Tracing.Capturing.{
  event_limit, error_limit, malformed, size_limit, noted, parse_line, feed_line, Step, after_feed,
  trace_raw_limit, consume_line, kept_first,
}
use apex_fedora.Verification.Tracing.Ownership.{View, nothing_seen, see, replay, Shows}
use apex_fedora.Verification.Tracing.Following.{Follows, handle-Follows}

-- The state is what the events so far say.
abbrev pub Agrees : Trace → Type 0
Agrees trace = Shows (replay trace.events nothing_seen) trace

replay-append :
    (events : List Stamped) (made : Stamped) (view : View)
    → replay (events ++ made ∷ []) view ≡ see made.event (replay events view)
unfolding replay
replay-append [] made view = refl
replay-append (e ∷ events) made view = replay-append events made (see e.event view)

-- What `feed` leaves of a trace
abbrev Answered : Trace → Trace × Result (Option Stamped) → Type 0
Answered trace (after, raise error) = after.events ≡ trace.events
Answered trace (after, ok none) = (after.events ≡ trace.events) × (Agrees trace → Agrees after)
Answered trace (after, ok (some made)) =
    (after.events ≡ trace.events ++ made ∷ []) × (Agrees trace → Agrees after)

abbrev IsFed : Trace → Trace × Result (Option Stamped) → Type 0
IsFed trace fed = (fed.0.errors ≡ trace.errors) × Answered trace fed

events-Shows :
    {view : View} (trace : Trace) (events : List Stamped)
    → Shows view trace
    → Shows view (record trace { events = events })
unfolding owner_of
events-Shows trace events shows = record { owners = shows.owners; waiting = shows.waiting }

stamped-IsFed :
    (trace after : Trace) (message : Document) (event : Event)
    → Follows trace (after, ok (some event))
    → IsFed trace (stamped message after event)
unfolding stamped
stamped-IsFed trace after message event (errors, events, told) =
    elim (Option-cases (positive_of (get "timestamp-realtime" message))) [
      | inl n ↦ rw (stamped, n) (errors, events)
      | inr (timestamp, e) ↦
          let made : Stamped = record { event = event; bus_realtime_us = timestamp } in
          rw (stamped, e)
            (
              errors,
              (
                ap (λ es. es ++ made ∷ []) events,
                λ agrees.
                    let view = replay trace.events nothing_seen in
                    let same : see event view ≡ replay (after.events ++ made ∷ []) nothing_seen =
                      sym (replay-append trace.events made nothing_seen)
                      ∙ ap (λ es. replay (es ++ made ∷ []) nothing_seen) (sym events) in
                    rw same at (events-Shows after (after.events ++ made ∷ []) (told view agrees)),
              ),
            )
    ]

stamp_result-IsFed :
    (trace : Trace) (message : Document) (handled : Handled)
    → Follows trace handled
    → IsFed trace (stamp_result message handled)
stamp_result-IsFed trace message (after, raise error) (errors, events, told) = (errors, events)
stamp_result-IsFed trace message (after, ok none) (errors, events, told) = (
  errors,
  (
    events,
    λ agrees.
        subst (λ es. Shows (replay es nothing_seen) after) (sym events)
          (told (replay trace.events nothing_seen) agrees),
  ),
)
stamp_result-IsFed trace message (after, ok (some event)) follows =
    stamped-IsFed trace after message event follows

feed-IsFed :
    (bus : Bus) (trace : Trace) (message : JsonValue) → IsFed trace (feed bus trace message)
unfolding feed
feed-IsFed bus trace (object message) =
    elim (Bool-cases (has_key "payload" message && not (is_object (get "payload" message)))) [
      | inl t ↦ rw (feed, t) (refl, refl)
      | inr f ↦
          rw (feed, f)
            (stamp_result-IsFed trace message (handle bus trace message)
              (handle-Follows bus trace message))
    ]
feed-IsFed bus trace _ = (refl, refl)

feed_line-IsFed :
    (bus : Bus) (trace : Trace) (line : Bytes) → IsFed trace (feed_line bus trace line)
unfolding feed_line
feed_line-IsFed bus trace line = elim (Result-cases (parse_line bus line)) [
  | inr (error, e) ↦ rw (feed_line, e) (refl, refl)
  | inl (message, e) ↦ rw (feed_line, e) (feed-IsFed bus trace message)
]

-- Within the limits, so that the loop goes on
abbrev pub IsRunning : Trace → Type 0
IsRunning trace = (length trace.events < event_limit) × (length trace.errors < error_limit)

abbrev pub IsBounded : Trace → Type 0
IsBounded trace = (length trace.events ≤ event_limit) × (length trace.errors ≤ error_limit)

-- What a step of the capture leaves: the events that it kept are those that the trace gained, no error
-- went away, and without a new one the state still agrees.
pub record IsStep (trace : Trace) (step : Step) : Type 0 where
  pub kept : step.trace.events ≡ trace.events ++ kept_first step.kept []
  pub errors : length trace.errors ≤ length step.trace.errors
  pub agrees : length step.trace.errors ≡ length trace.errors → Agrees trace → Agrees step.trace
  pub bounded : IsRunning trace → IsBounded step.trace
  pub runs : IsRunning trace → step.goes_on ≡ true → IsRunning step.trace

pub length-noted :
    (error : String) (trace : Trace) → length (noted error trace).errors ≡ length trace.errors + 1
length-noted error trace = length-append trace.errors (error ∷ [])

gained :
    (trace after : Trace) (event : Option Stamped)
    → Answered trace (after, ok event)
    → (after.events ≡ trace.events ++ kept_first event []) × (Agrees trace → Agrees after)
gained trace after none (events, agrees) = (events ∙ sym (append-nil trace.events), agrees)
gained trace after (some made) answered = answered

length_kept : (event : Option Stamped) → length (kept_first event []) ≤ 1
length_kept none = omega arith
length_kept (some made) = omega arith

after_feed-IsStep :
    (trace : Trace) (fed : Trace × Result (Option Stamped))
    → IsFed trace fed
    → IsStep trace (after_feed fed)
after_feed-IsStep trace (after, raise error) (errors, events) =
    let more = length-noted malformed after in
    let same = ap (λ es. length es) errors in
    let sum = ap (λ es. length es) events in
    record {
      kept = events ∙ sym (append-nil trace.events);
      errors = omega (arith, more, same);
      agrees = λ e. absurd (omega (arith, more, same, e));
      bounded = λ running. (omega (arith, sum, running.0), omega (arith, more, same, running.1));
      runs = λ running e. (omega (arith, sum, running.0), ground (arith, e));
    }
after_feed-IsStep trace (after, ok event) (errors, answered) =
    let (kept, agrees) = gained trace after event answered in
    let same = ap (λ es. length es) errors in
    let sum = ap (λ es. length es) kept ∙ length-append trace.events (kept_first event []) in
    let one = length_kept event in
    let more = length-noted size_limit after in
    elim (Bool-cases (leb event_limit (length after.events))) [
      | inl t ↦ rw t (record {
        kept = kept;
        errors = omega (arith, more, same);
        agrees = λ e. absurd (omega (arith, more, same, e));
        bounded =
            λ running. (omega (arith, sum, one, running.0), omega (arith, more, same, running.1));
        runs = λ running e. cc;
      })
      | inr f ↦ rw f (record {
        kept = kept;
        errors = omega (arith, same);
        agrees = λ e. agrees;
        bounded = λ running. (omega (arith, sum, one, running.0), omega (arith, same, running.1));
        runs = λ running e. (ground (arith, f), omega (arith, same, running.1));
      })
    ]

same-IsStep : (trace : Trace) → IsStep trace (record { trace = trace; kept = none; goes_on = true })
same-IsStep trace = record {
  kept = sym (append-nil trace.events);
  errors = omega arith;
  agrees = λ e agrees. agrees;
  bounded = λ running. (omega (arith, running.0), omega (arith, running.1));
  runs = λ running e. running;
}

limited-IsStep :
    (trace : Trace)
    → IsStep trace (record { trace = noted size_limit trace; kept = none; goes_on = false })
limited-IsStep trace =
    let more = length-noted size_limit trace in
    record {
      kept = sym (append-nil trace.events);
      errors = omega (arith, more);
      agrees = λ e. absurd (omega (arith, more, e));
      bounded = λ running. (omega (arith, running.0), omega (arith, more, running.1));
      runs = λ running e. cc;
    }

pub consume_line-IsStep :
    (bus : Bus) (trace : Trace) (consumed : ℕ) (line : Bytes)
    → IsStep trace (consume_line bus trace consumed line)
unfolding consume_line
consume_line-IsStep bus trace consumed line = elim (Bool-cases (is_blank line)) [
  | inl t ↦ rw (consume_line, t) (same-IsStep trace)
  | inr f ↦ elim (Bool-cases (ltb trace_raw_limit consumed)) [
    | inl t ↦ rw (consume_line, f, t) (limited-IsStep trace)
    | inr g ↦
        rw (consume_line, f, g)
          (after_feed-IsStep trace (feed_line bus trace line) (feed_line-IsFed bus trace line))
  ]
]
