-- ===== src/Provisioning/Backing.antt =====
-- src/apex/provisioning/backingchain.py: a disk and what it is layered over, walked link by link. What the file system
-- and the image tool answer are functions; the tool may answer otherwise the further the walk has come.
pub mod Layers
pub mod Walking
pub mod Overlaid
use apex_fedora.Base.{
  Bool, Bytes, List, Option, String, [], contains, eqb, if◌then◌else◌, is_nil, length, none, not,
  some, suc, zero, ℕ, ℤ, pos, negsuc, ◌++◌, ◌==◌, ◌∷◌, false, true,
}
use apex_fedora.Kernel.Refusals.{
  path_is_a_symlink, path_outside_runtime_root, path_not_a_regular_file, disk_chain_cycle,
  disk_not_qcow2, disk_not_standalone, disk_overlay_exists,
}
use apex_fedora.Kernel.Errors.{Result, ok, raise, refusal, port_failure, other_exception, ◌>>=◌}
use apex_fedora.Kernel.Documents.{
  JsonValue, text, integer, truth, null, other, array, object, Items, no_items, item, Document,
  no_fields, field, get,
}
use apex_fedora.Model.Marks.{Loaded, loaded, not_json, not_text}

-- `CompletedRun`, as far as the code looks at it; its error output only goes into the cause of a failure.
pub record CompletedRun : Type 0 where
  pub exit_code : ℕ
  pub stdout : Bytes

-- `succeeded`
abbrev pub succeeded : CompletedRun → Bool
succeeded completed = eqb completed.exit_code 0

-- The runtime root as the file system shows it, the image tool, and what the code takes from Python.
-- `beside link name` is `link.path.parent / name`, `info links link` what the tool says of a link after
-- those before it.
pub record Host : Type 0 where
  pub is_symlink : String → Bool
  pub resolve : String → String
  pub is_below : String → Bool
  pub is_file : String → Bool
  pub exists : String → Bool
  pub beside : String → String → String
  pub info : List String → String → Result CompletedRun
  pub loads : Bytes → Loaded
  pub str_of : JsonValue → String

-- `BackingChain`, by its links
pub record BackingChain : Type 0 where
  pub links : List String

-- `links[0]` and `links[-1]`
abbrev pub first_link : List String → Result String
first_link [] = raise other_exception
first_link (link ∷ links) = ok link

abbrev pub last_link : List String → Result String
last_link [] = raise other_exception
last_link (link ∷ []) = ok link
last_link (link ∷ next ∷ links) = last_link (next ∷ links)

unfoldable pub standalone : BackingChain → Bool
standalone chain = eqb (length chain.links) 1

-- `require_standalone`
unfoldable pub require_standalone : BackingChain → Result BackingChain
unfolding standalone
require_standalone chain =
    if not (standalone chain) then raise (refusal disk_not_standalone) else ok chain

-- `if not value`, for a JSON value; a float is taken for one that is not zero
abbrev pub is_truthy : JsonValue → Bool
is_truthy (text s) = not (s == "")
is_truthy (integer (pos zero)) = false
is_truthy (integer _) = true
is_truthy (truth b) = b
is_truthy null = false
is_truthy other = true
is_truthy (array no_items) = false
is_truthy (array _) = true
is_truthy (object no_fields) = false
is_truthy (object _) = true

abbrev pub is_qcow2 : JsonValue → Bool
is_qcow2 (text s) = s == "qcow2"
is_qcow2 _ = false

abbrev pub described : Loaded → Result Document
described (loaded (object document)) = ok document
described (loaded _) = raise port_failure
described not_json = raise port_failure
described not_text = raise other_exception

module _ (host : Host) where
  -- `SafePath.regular_file`
  unfoldable pub regular_file : String → Result String
  regular_file candidate =
      let resolved = host.resolve candidate in
      if host.is_symlink candidate
      then raise (refusal path_is_a_symlink)
      else if not (host.is_below resolved)
      then raise (refusal path_outside_runtime_root)
      else if not (host.is_file resolved)
      then raise (refusal path_not_a_regular_file)
      else ok resolved

  -- `_describe`
  unfoldable pub describe : List String → String → Result Document
  describe links link = host.info links link >>= λ completed.
      if not (succeeded completed)
      then raise port_failure
      else described (host.loads completed.stdout)

  -- What one turn of the loop finds: the links so far, and where the walk goes on, if it does.
  unfoldable pub turn : String → List String → Result (List String × Option String)
  unfolding regular_file describe
  turn current links = regular_file current >>= λ link.
      if contains link links
      then raise (refusal disk_chain_cycle)
      else (describe links link >>= λ description.
          let backing = get "backing-filename" description in
          if not (is_qcow2 (get "format" description))
          then raise (refusal disk_not_qcow2)
          else if not (is_truthy backing)
          then ok (links ++ link ∷ [], none)
          else ok (links ++ link ∷ [], some (host.beside link (host.str_of backing))))

  -- The loop of `inspect`, of which a bounded number of turns is made
  unfoldable pub walk : ℕ → String → List String → Option (Result BackingChain)
  unfolding turn
  walk zero current links = none
  walk (suc more) current links = elim (turn current links) [
    | raise error ↦ some (raise error)
    | ok (walked, none) ↦ some (ok (record { links = walked }))
    | ok (walked, some next) ↦ walk more next walked
  ]

  -- `inspect`, within a number of turns
  abbrev pub inspect : ℕ → String → Option (Result BackingChain)
  inspect turns candidate = walk turns candidate []

-- The making of a layer: what the tool answers, and the host as it is then
abbrev pub Making : Type 0
Making = String → String → Option ℕ → Result CompletedRun × Host

-- `overlay`; the new layer is inspected on the host that the tool has left
unfoldable pub overlay :
    Host → Making → ℕ → BackingChain → String → Option ℕ → Option (Result BackingChain)
unfolding walk
overlay host create turns base into size =
    if host.exists into
    then some (raise (refusal disk_overlay_exists))
    else elim (first_link base.links) [
      | raise error ↦ some (raise error)
      | ok disk ↦
          let (made, after) = create disk into size in
          elim made [
            | raise error ↦ some (raise error)
            | ok created ↦
                if not (succeeded created)
                then some (raise port_failure)
                else inspect after turns into
          ]
    ]
