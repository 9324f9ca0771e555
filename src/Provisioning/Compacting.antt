-- ===== src/Provisioning/Compacting.antt =====
-- src/apex/provisioning/compacting.py, from the report that is begun to the swap, and the report itself
-- (compactledger.py). What the ports are asked is written down, newest first, and what they answer is a function of that.
pub mod Growing
pub mod Holding
pub mod Guarded
pub mod Tests
use apex_fedora.Base.{
  Bool, Bytes, Dict, List, Option, String, [], all, eqb, false, if◌then◌else◌, insert, lookup, ltb,
  none, not, some, pos, true, ℕ, ◌&&◌, ◌+◌, ◌++◌, ◌==◌, ◌||◌, ◌∷◌,
}
use apex_fedora.Kernel.Refusals.{
  RefusalReason, compaction_input_unsafe, compaction_space_insufficient, compaction_state_changed,
  compaction_validation_failed,
}
use apex_fedora.Kernel.Errors.{Result, ok, raise, refusal, other_exception, Raised}
use apex_fedora.Kernel.Documents.{
  JsonValue, text, integer, array, object, Items, no_items, item, items_of, Document, no_fields,
  field, get, has_key,
}
use apex_fedora.Provisioning.Backing.{CompletedRun, succeeded, is_qcow2, is_truthy}

-- The calls of the image tool
pub data Argv : Type 0 where
  version : Argv
  info_chain info check : String → Argv
  convert compare : String → String → Argv

-- The report: the commands with their exit codes, and the fields that were noted
pub record Report : Type 0 where
  pub commands : List (Argv × ℕ)
  pub notes : Dict JsonValue

-- What the ports are asked for that leaves something behind
pub data Event : Type 0 where
  ran : Argv → ℕ → Event
  saved : Report → Event
  replaced : String → String → Event

-- `FileIdentity`
pub record FileIdentity : Type 0 where
  pub device : ℕ
  pub inode : ℕ
  pub size : ℕ
  pub modified_nanoseconds : ℕ
  pub links : ℕ
  pub allocated : ℕ

-- The ports, the settings, and what the code takes from Python
pub record Host : Type 0 where
  pub run : List Event → Argv → Result CompletedRun
  pub regular_file : List Event → String → Result String
  pub identity : List Event → String → Result FileIdentity
  pub free_space : List Event → Result ℕ
  pub write_report : List Event → Result (Unit {0})
  pub replace : List Event → Result (Unit {0})
  pub is_running : List Event → Bool
  pub sha256 : List Event → String → Result String
  pub parse_document : Bytes → Result JsonValue
  pub decode : Bytes → String
  pub str_of : JsonValue → String
  pub same_value : JsonValue → JsonValue → Bool
  pub minimum_free : ℕ
  pub reserve : ℕ

pub record World : Type 0 where
  pub events : List Event
  pub report : Report

abbrev pub Act : Type 0 → Type 0
Act A = World → Result A × World

abbrev pub after_first : {A B : Type 0} → Result A × World → (A → Act B) → Result B × World
after_first (raise error, w) next = (raise error, w)
after_first (ok a, w) next = next a w

infixl 2 ◌>>=◌
unfoldable pub ◌>>=◌ : {A B : Type 0} (first : Act A) (next : A → Act B) → Act B
(first >>= next) w = after_first (first w) next

unfoldable pub answer : {A : Type 0} → (List Event → Result A) → Act A
answer ask w = (ask w.events, w)

unfoldable pub return_of : {A : Type 0} → A → Act A
return_of a w = (ok a, w)

unfoldable pub raise_of : {A : Type 0} → Raised → Act A
raise_of error w = (raise error, w)

-- A write, which is done if its port does not raise
unfoldable pub writing : (List Event → Result (Unit {0})) → Event → Act (Unit {0})
writing port event w = elim (port w.events) [
  | raise error ↦ (raise error, w)
  | ok done ↦ (ok tt, record w { events = event ∷ w.events })
]

abbrev pub updated : Dict JsonValue → Dict JsonValue → Dict JsonValue
updated [] notes = notes
updated ((key, value) ∷ fields) notes = updated fields (insert key value notes)

abbrev pub object_or_empty : JsonValue → Document
object_or_empty (object document) = document
object_or_empty _ = no_fields

abbrev pub objects : List JsonValue → List Document
objects [] = []
objects (object document ∷ values) = document ∷ objects values
objects (_ ∷ values) = objects values

abbrev pub one_or_many : JsonValue → List JsonValue
one_or_many (array items) = items_of items
one_or_many value = value ∷ []

abbrev pub first_of : List Document → Document
first_of [] = no_fields
first_of (document ∷ documents) = document

-- The tests of `_require_plain` on one item; a mapping that is missing has nothing to lose.
unfoldable pub is_plain : Document → Bool
is_plain document =
    let held = object_or_empty (get "data" (object_or_empty (get "format-specific" document))) in
    not (is_truthy (get "snapshots" document))
    && not (is_truthy (get "dirty-flag" document))
    && not (is_truthy (get "bitmaps" held))
    && not (is_truthy (get "corrupt" held))

abbrev pub same_identity : FileIdentity → FileIdentity → Bool
same_identity a b =
    eqb a.device b.device
    && eqb a.inode b.inode
    && eqb a.size b.size
    && eqb a.modified_nanoseconds b.modified_nanoseconds
    && eqb a.links b.links
    && eqb a.allocated b.allocated

module _ (host : Host) where
  -- `Ledger.save`
  unfoldable pub save : Act (Unit {0})
  unfolding writing
  save w = writing host.write_report (saved w.report) w

  -- `Ledger.note`
  unfoldable pub note : Dict JsonValue → Act (Unit {0})
  unfolding save
  note fields w =
      save (record w { report = record w.report { notes = updated fields w.report.notes } })

  -- `raise ledger.refuse`, of a reason
  unfoldable pub refuse : {A : Type 0} → RefusalReason → String → Act A
  unfolding note
  refuse reason detail = do _ ← note (("error", text detail) ∷ []); raise_of (refusal reason)

  -- `Ledger.command`: recorded and saved before it is judged
  unfoldable pub command : Argv → Act Bytes
  unfolding refuse save
  command argv w = elim (host.run w.events argv) [
    | raise error ↦ (raise error, w)
    | ok completed ↦
        (save >>= λ _.
        if not (succeeded completed)
        then refuse compaction_validation_failed "exited"
        else return_of completed.stdout)
          (record {
            events = ran argv completed.exit_code ∷ w.events;
            report = record w.report {
              commands = w.report.commands ++ (argv, completed.exit_code) ∷ [];
            };
          })
  ]

  -- `_information`
  unfoldable pub information : Bytes → Act (List Document)
  information output = do
    document ← answer (λ events. host.parse_document output)
    return_of (objects (one_or_many document))

  -- `_require_plain`
  unfoldable pub require_plain : List Document → Act (Unit {0})
  unfolding refuse is_plain
  require_plain chain =
      if not (is_qcow2 (get "format" (first_of chain)))
      then refuse compaction_input_unsafe "expected a QCOW2 builder"
      else if all is_plain chain
      then return_of tt
      else refuse compaction_input_unsafe
          "preserve snapshots and bitmaps or repair corruption before compaction"

  -- `_require_standalone`
  unfoldable pub require_standalone : List Document → JsonValue → Act (Unit {0})
  unfolding require_plain refuse
  require_standalone after expected = do
    _ ← require_plain after
    let first = first_of after in
        if is_truthy (get "backing-filename" first)
          || not (host.same_value (get "virtual-size" first) expected)
        then refuse compaction_input_unsafe
            "the copy must stand alone with the same virtual capacity"
        else return_of tt

  -- `[f(x) for x in xs]`
  unfoldable pub each : {A B : Type 0} → (A → Act B) → List A → Act (List B)
  each f [] = return_of []
  each f (x ∷ xs) = f x >>= λ y. each f xs >>= λ ys. return_of (y ∷ ys)

  unfoldable pub path_in : Document → Act String
  path_in document = answer (λ events.
      if has_key "filename" document
      then host.regular_file events (host.str_of (get "filename" document))
      else raise other_exception)

  unfoldable pub identity_of : String → Act FileIdentity
  identity_of path = answer (λ events. host.identity events path)

  -- `{str(path): files.identity(path) for path in paths}`, over those already found
  unfoldable pub identified : List String → Dict FileIdentity → Act (Dict FileIdentity)
  identified [] found = return_of found
  identified (path ∷ paths) found =
      identity_of path >>= λ identity. identified paths (insert path identity found)

  abbrev pub same_at : Dict FileIdentity → Dict FileIdentity → String → Bool
  same_at a b path = elim (lookup path a) [
    | none ↦ false
    | some x ↦ elim (lookup path b) [ none ↦ false | some y ↦ same_identity x y ]
  ]

  -- `_require_unchanged`; the two dictionaries have the keys `paths`
  unfoldable pub require_unchanged : Dict FileIdentity → List String → Act (Unit {0})
  unfolding refuse
  require_unchanged identities paths = do
    current ← identified paths []
    running ← answer (λ events. ok (host.is_running events))
    if running || not (all (same_at current identities) paths)
        then refuse compaction_state_changed
            "a machine started or the builder chain changed during compaction"
        else return_of tt

  -- `_digest`
  unfoldable pub digest : String → Act String
  digest path = answer (λ events. host.sha256 events path)

  unfoldable pub free : Act ℕ
  free = answer (λ events. host.free_space events)

  -- `_projected`
  unfoldable pub projected : String → Act ℕ
  unfolding refuse
  projected source = do
    available ← free
    held ← identity_of source
    if ltb (available + held.allocated) host.minimum_free
        then refuse compaction_space_insufficient
            "Validated copy does not save enough space; original retained"
        else return_of (available + held.allocated)

  abbrev pub number : ℕ → JsonValue
  number n = integer (pos n)

  abbrev pub chain_value : List Document → Items
  chain_value [] = no_items
  chain_value (document ∷ documents) = item (object document) (chain_value documents)

  -- `FileIdentity.document`
  abbrev pub identity_document : FileIdentity → Document
  identity_document identity = field "device" (number identity.device) (
      field "inode" (number identity.inode) (
        field "size" (number identity.size) (
          field "modified_ns" (number identity.modified_nanoseconds) (
            field "links" (number identity.links)
              (field "allocated" (number identity.allocated) no_fields)))))

  abbrev pub identity_value : Dict FileIdentity → Document
  identity_value [] = no_fields
  identity_value ((path, identity) ∷ rest) =
      field path (object (identity_document identity)) (identity_value rest)

  abbrev pub before_value : List Document → Dict FileIdentity → ℕ → JsonValue
  before_value chain identities available = object (
      field "chain" (array (chain_value chain)) (
        field "identity" (object (identity_value identities))
          (field "free" (number available) no_fields)))

  -- `_compact`, up to the digest of the disk: its chain, the paths of that and what they are
  unfoldable pub survey : String → Act (List Document × List String × Dict FileIdentity)
  unfolding command information require_plain note refuse
  survey source = do
    told ← command version
    _ ← note (("version", text (host.decode told)) ∷ [])
    output ← command (info_chain source)
    chain ← information output
    _ ← require_plain chain
    paths ← each path_in chain
    identities ← identified paths []
    available ← free
    _ ← note (("before", before_value chain identities available) ∷ [])
    held ← identity_of source
    room ← free
    _ ←
        (if ltb room (held.allocated + host.reserve)
          then refuse compaction_space_insufficient
              "not enough room for a separate compressed copy and reserve"
          else return_of tt)
    _ ← each (λ path. command (check path)) paths
    hash ← digest source
    _ ← note (("source_sha256", text hash) ∷ [])
    return_of (chain, paths, identities)

  -- From the conversion to the comparison
  unfoldable pub copy_checked : String → String → List Document → Act (List Document)
  unfolding command information require_standalone
  copy_checked source target chain = do
    _ ← command (convert source target)
    output ← command (info target)
    after ← information output
    _ ← require_standalone after (get "virtual-size" (first_of chain))
    _ ← command (check target)
    _ ← command (compare source target)
    return_of after

  -- The digest of the copy and the space that the swap would leave
  unfoldable pub approve : String → String → List Document → Act ℕ
  unfolding projected note
  approve source target after = do
    hash ← digest target
    _ ← note (("after", object (first_of after)) ∷ ("compressed_sha256", text hash) ∷ [])
    available ← projected source
    _ ← note (("projected_free", number available) ∷ [])
    return_of available

  -- What is left before the swap
  unfoldable pub accept : String → String → List Document → List String → Dict FileIdentity → Act ℕ
  unfolding require_unchanged approve
  accept source target after paths identities = do
    _ ← require_unchanged identities paths
    approve source target after

  abbrev pub pending_fields : Dict JsonValue
  pending_fields =
      ("replacement", text "VALIDATED, PENDING ATOMIC REPLACE")
      ∷ ("phase", text "replacing validated builder file")
      ∷ []

  abbrev pub complete_fields : ℕ → Dict JsonValue
  complete_fields available =
      ("replacement", text "COMPLETE")
      ∷ ("free_after", number available)
      ∷ ("status", text "PASS")
      ∷ ("phase", text "complete")
      ∷ []

  -- `_swap`; the space is asked for, and the report is saved, behind the rename
  unfoldable pub swap : String → String → Act (Unit {0})
  unfolding note free writing
  swap source target = do
    _ ← note pending_fields
    _ ← writing host.replace (replaced target source)
    available ← free
    note (complete_fields available)

  -- `_compact`, by the space that it projects
  unfoldable pub compact : String → String → Act ℕ
  unfolding survey copy_checked accept swap
  compact source target = do
    (chain, paths, identities) ← survey source
    after ← copy_checked source target chain
    available ← accept source target after paths identities
    _ ← swap source target
    return_of available
