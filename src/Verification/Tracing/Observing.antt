-- ===== src/Verification/Tracing/Observing.antt =====
-- What a whole capture of src/apex/verification/fingerprinttrace.py leaves: its bounds, the events that are written,
-- and the owners that its summary names.
use apex_fedora.Base.{
  Bool-cases, Bytes, List, Option, String, [], arith, false, inl, inr, is_nil, is_some, lookup,
  append_assoc, append-nil, length, none, not, refl, some, sym, true, ℕ, ◌&&◌, ◌>>?◌, ◌∷◌, ◌≡◌,
  ◌++◌, ◌+◌, ap, ◌∙◌, ◌≤◌, is_blank, split, &&_true, subst,
}
use apex_fedora.Verification.Tracing.{
  Bus, Call, Pending, find_call, Stamped, Trace, empty_trace, owner_of,
}
use apex_fedora.Verification.Tracing.Capturing.{
  event_limit, error_limit, partial_event, noted, consume_line, kept_first, consume, last_line,
  capture, summary,
}
use apex_fedora.Verification.Tracing.Ownership.{nothing_seen, replay, Shows}
use apex_fedora.Verification.Tracing.Stepping.{
  Agrees, IsRunning, IsBounded, length-noted, consume_line-IsStep,
}

-- What the loop leaves
record IsConsumed (trace : Trace) (consumed : Trace × List Stamped) : Type 0 where
  kept : consumed.0.events ≡ trace.events ++ consumed.1
  errors : length trace.errors ≤ length consumed.0.errors
  agrees : length consumed.0.errors ≡ length trace.errors → Agrees trace → Agrees consumed.0
  bounded : IsRunning trace → IsBounded consumed.0

kept_first-append :
    (events : List Stamped) (event : Option Stamped) (rest : List Stamped)
    → (events ++ kept_first event []) ++ rest ≡ events ++ kept_first event rest
kept_first-append events none rest = append_assoc events [] rest
kept_first-append events (some made) rest = append_assoc events (made ∷ []) rest

consume-IsConsumed :
    (bus : Bus) (lines : List Bytes) (consumed : ℕ) (trace : Trace)
    → IsConsumed trace (consume bus lines consumed trace)
unfolding consume
consume-IsConsumed bus [] consumed trace = record {
  kept = sym (append-nil trace.events);
  errors = omega arith;
  agrees = λ e agrees. agrees;
  bounded = λ running. (omega (arith, running.0), omega (arith, running.1));
}
consume-IsConsumed bus (line ∷ lines) consumed trace =
    let reached = consumed + length line + 1 in
    let step = consume_line bus trace reached line in
    let is_step = consume_line-IsStep bus trace reached line in
    let rest = consume-IsConsumed bus lines reached step.trace in
    elim (Bool-cases step.goes_on) [
      | inl t ↦
          rw (consume, t)
            (record {
              kept =
                  rest.kept
                  ∙ ap (λ es. es ++ (consume bus lines reached step.trace).1) is_step.kept
                  ∙ kept_first-append trace.events step.kept
                      (consume bus lines reached step.trace).1;
              errors = omega (arith, is_step.errors, rest.errors);
              agrees = λ e agrees.
                  rest.agrees (omega (arith, is_step.errors, rest.errors, e))
                    (is_step.agrees (omega (arith, is_step.errors, rest.errors, e)) agrees);
              bounded = λ running. rest.bounded (is_step.runs running t);
            })
      | inr f ↦
          rw (consume, f)
            (record {
              kept = is_step.kept;
              errors = is_step.errors;
              agrees = is_step.agrees;
              bounded = is_step.bounded;
            })
    ]

start-Agrees : Agrees empty_trace
unfolding replay owner_of find_call lookup
start-Agrees = record { owners = λ device. refl; waiting = λ key. refl }

-- Whatever the stream holds, the capture writes exactly the events that its summary counts, at most the
-- limit of them, and names at most one error more than the limit, that of a partial last line.
pub capture_bounded :
    (bus : Bus) (stream : Bytes)
    → ((capture bus stream).0.events ≡ (capture bus stream).1)
      × (length (capture bus stream).1 ≤ event_limit)
      × (length (capture bus stream).0.errors ≤ error_limit + 1)
unfolding capture
capture_bounded bus stream =
    let done = consume bus (split 10 stream) 0 empty_trace in
    let whole = consume-IsConsumed bus (split 10 stream) 0 empty_trace in
    let (few, rare) = whole.bounded (omega arith, omega arith) in
    let sum = ap (λ es. length es) whole.kept in
    elim (Bool-cases (is_blank (last_line (split 10 stream)))) [
      | inl t ↦ rw (capture, t) (whole.kept, omega (arith, few, sum), omega (arith, rare))
      | inr f ↦
          rw (capture, f)
            (
              whole.kept,
              omega (arith, few, sum),
              omega (arith, rare, length-noted partial_event done.0),
            )
    ]

nil_of : {A : Type 0} (xs : List A) → is_nil xs ≡ true → length xs ≡ 0
nil_of [] h = refl
nil_of (x ∷ xs) h = cc

none_waits :
    (trace : Trace)
    → is_nil trace.pending ≡ true
    → (key : Call) → is_some (find_call key trace.pending) ≡ false
unfolding find_call
none_waits trace h key = go trace.pending h
  where
    go :
        (calls : List (Call × Pending))
        → is_nil calls ≡ true
        → is_some (find_call key calls) ≡ false
    go [] k = refl
    go (c ∷ calls) k = cc

marked : (errors : List String) (error : String) → is_nil (errors ++ error ∷ []) ≡ false
marked [] error = refl
marked (e ∷ errors) error = refl

not_flawless : (trace : Trace) → (summary (noted partial_event trace)).observed ≡ true → ⊥
unfolding summary
not_flawless trace h = cc (rw (summary, marked trace.errors partial_event) at h)

-- If the summary of a capture says OBSERVED, the events that are written determine it: the owners that
-- it names are those that the events alone give, and by those events no call is without its reply.
pub capture_observed :
    (bus : Bus) (stream : Bytes)
    → (summary (capture bus stream).0).observed ≡ true
    → let view = replay (capture bus stream).1 nothing_seen in
      ((device : String)
        → (lookup device (summary (capture bus stream).0).last_observed_owners >>? λ owner. owner)
          ≡ view.owner device)
      × ((key : Call) → view.waits key ≡ false)
unfolding capture summary owner_of
capture_observed bus stream observed =
    let done = consume bus (split 10 stream) 0 empty_trace in
    let whole = consume-IsConsumed bus (split 10 stream) 0 empty_trace in
    elim (Bool-cases (is_blank (last_line (split 10 stream)))) [
      | inl t ↦
          let clean = (rw (capture, t) at observed) in
          let (flawless, rest) =
            &&_true (is_nil done.0.errors && is_nil done.0.pending) (not (is_nil done.0.events))
              clean in
          let (faultless, settled) =
            &&_true (is_nil done.0.errors) (is_nil done.0.pending) flawless in
          let shows =
            subst (λ es. Shows (replay es nothing_seen) done.0) whole.kept
              (whole.agrees (nil_of done.0.errors faultless) start-Agrees) in
          rw (capture, t)
            (shows.owners, λ key. sym (shows.waiting key) ∙ none_waits done.0 settled key)
      | inr f ↦ absurd (not_flawless done.0 (rw (capture, f) at observed))
    ]
