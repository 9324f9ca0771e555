-- ===== src/Verification/Tracing/Ownership.antt =====
-- What the events of a trace say by themselves of src/apex/verification/fingerprinttrace.py: who owns which device,
-- and which calls wait for a reply. The state of the trace is compared with it.
use apex_fedora.Base.{
  Bool, List, Option, String, [], arith, eq_iff, false, if◌then◌else◌, insert, is_some,
  lookup-insert, none, not, refl, same_integer, same_integer_iff, some, true, ℤ, pos, negsuc, ◌&&◌,
  ◌==◌, ◌||◌, ◌∷◌, ◌≡◌, ◌↔◌, &&_true, ==_refl,
}
use apex_fedora.Verification.Tracing.{
  Call, Pending, same_call, find_call, put_call, delete_call, Outcome, plain, claim, failure, Event,
  called, replied, status, client_disconnected, daemon_owner_changed, Stamped, Trace, owner_of,
}
use apex_fedora.Verification.Tracing.Handling.{is_owner}

-- Who owns a device, and whether a call waits
pub record View : Type 0 where
  pub owner : String → Option String
  pub waits : Call → Bool

abbrev pub nothing_seen : View
nothing_seen = record { owner = λ device. none; waits = λ key. false }

abbrev pub owner_after :
    String → String → String → Outcome → (String → Option String) → String → Option String
owner_after client method device (claim previous after) owner d =
    if device == d then some client else owner d
owner_after client method device (failure error last was) owner d = owner d
owner_after client method device plain owner d =
    if method == "Release" && is_owner (owner device) client && device == d then none else owner d

-- An event, on the view: a claim that is OK makes the caller the owner, a release by the owner that is OK
-- frees the device, and when the daemon changes hands nothing is owned and nothing waits.
unfoldable pub see : Event → View → View
see (called key method device) view = record view { waits = λ k. same_call key k || view.waits k }
see (replied key method device outcome) view = record {
  owner = owner_after key.client method device outcome view.owner;
  waits = λ k. not (same_call key k) && view.waits k;
}
see (status device signal shown done) view = view
see (client_disconnected client) view = view
see (daemon_owner_changed old new) view = nothing_seen

unfoldable pub replay : List Stamped → View → View
unfolding see
replay [] view = view
replay (made ∷ events) view = replay events (see made.event view)

-- The state of a trace is what a view says.
pub record Shows (view : View) (trace : Trace) : Type 0 where
  pub owners : (device : String) → owner_of trace device ≡ view.owner device
  pub waiting : (key : Call) → is_some (find_call key trace.pending) ≡ view.waits key

same_call_iff : (c d : Call) → (same_call c d ≡ true) ↔ (c ≡ d)
same_call_iff c d = (
  λ h.
      let both = &&_true (c.client == d.client) (same_integer c.serial d.serial) h in
      let names = (eq_iff c.client d.client).0 both.0 in
      let serials = same_integer_iff c.serial d.serial both.1 in ground (arith, names, serials),
  λ e. rw e (same_self d),
)
  where
    same_integer_refl : (n : ℤ) → same_integer n n ≡ true
    same_integer_refl (pos n) = ground arith
    same_integer_refl (negsuc n) = ground arith

    same_self : (c : Call) → same_call c c ≡ true
    same_self c = rw (==_refl c.client, same_integer_refl c.serial) refl

pub find_call-put_call :
    (k j : Call) (p : Pending) (calls : List (Call × Pending))
    → find_call j (put_call k p calls) ≡ (if same_call k j then some p else find_call j calls)
unfolding find_call put_call
find_call-put_call k j p [] = refl
find_call-put_call k j p ((i, q) ∷ calls) =
    ground (
      arith,
      same_call_iff k j,
      same_call_iff i k,
      same_call_iff i j,
      find_call-put_call k j p calls,
    )

pub find_call-delete_call :
    (k j : Call) (calls : List (Call × Pending))
    → find_call j (delete_call k calls) ≡ (if same_call k j then none else find_call j calls)
unfolding find_call delete_call
find_call-delete_call k j [] = ground arith
find_call-delete_call k j ((i, q) ∷ calls) = ground (
  arith,
  same_call_iff k j,
  same_call_iff i k,
  same_call_iff i j,
  find_call-delete_call k j calls,
)

pub owner_of-insert :
    (trace : Trace) (device d : String) (owner : Option String)
    → owner_of (record trace { owners = insert device owner trace.owners }) d
      ≡ (if device == d then owner else owner_of trace d)
unfolding owner_of
owner_of-insert trace device d owner = rw (lookup-insert device d owner trace.owners) (ground arith)
