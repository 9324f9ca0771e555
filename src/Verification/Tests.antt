-- ===== src/Verification/Tests.antt =====
-- The theorems on what runs observed (src/apex/verification/), applied at concrete values.
use apex_fedora.Base.{
  Bytes, Option, String, [], eqb, false, if◌then◌else◌, length, lookup, none, pos, refl, some, true,
  ◌+◌, ◌>>?◌, ◌∷◌, ◌≡◌, ◌≤◌,
}
use apex_fedora.Kernel.Documents.{JsonValue, text, integer, object, field, no_fields}
use apex_fedora.Verification.Tracing.{Bus, Call}
use apex_fedora.Verification.Tracing.Capturing.{capture, summary, event_limit, error_limit}
use apex_fedora.Verification.Tracing.Ownership.{replay, nothing_seen}
use apex_fedora.Verification.Tracing.Observing.{capture_bounded, capture_observed}

-- The call of a client and the reply to it, as `busctl` shows them
abbrev claim_call : JsonValue
claim_call = object (
    field "type" (text "method_call") (
      field "interface" (text "net.reactivated.Fprint.Device") (
        field "member" (text "Claim") (
          field "path" (text "/net/reactivated/Fprint/Device/0") (
            field "sender" (text ":1.5") (
              field "destination" (text "net.reactivated.Fprint") (
                field "cookie" (integer (pos 7))
                  (field "timestamp-realtime" (integer (pos 100)) no_fields))))))))

abbrev claim_return : JsonValue
claim_return = object (
    field "type" (text "method_return") (
      field "reply_cookie" (integer (pos 7)) (
        field "destination" (text ":1.5") (
          field "sender" (text ":1.2")
            (field "timestamp-realtime" (integer (pos 101)) no_fields)))))

abbrev shown_as : Bytes → Option JsonValue
shown_as [] = none
shown_as (c ∷ line) =
    if eqb c 49 then some claim_call else if eqb c 50 then some claim_return else none

abbrev bus : Bus
bus = record { process_of = none; str_of = λ value. ""; loads = shown_as }

abbrev stream : Bytes
stream = 49 ∷ 10 ∷ 50 ∷ 10 ∷ []

capture_bounded_example :
    ((capture bus stream).0.events ≡ (capture bus stream).1)
    × (length (capture bus stream).1 ≤ event_limit)
    × (length (capture bus stream).0.errors ≤ error_limit + 1)
capture_bounded_example = capture_bounded bus stream

stream_observed : (summary (capture bus stream).0).observed ≡ true
unfolding capture summary
stream_observed = refl

claimed :
    lookup "/net/reactivated/Fprint/Device/0" (summary (capture bus stream).0).last_observed_owners
    ≡ some (some ":1.5")
unfolding capture summary lookup
claimed = refl

capture_observed_example :
    ((device : String)
      → (lookup device (summary (capture bus stream).0).last_observed_owners >>? λ owner. owner)
        ≡ (replay (capture bus stream).1 nothing_seen).owner device)
    × ((key : Call) → (replay (capture bus stream).1 nothing_seen).waits key ≡ false)
capture_observed_example = capture_observed bus stream stream_observed
