-- ===== src/Provisioning/Tests.antt =====
-- The theorems on disks (src/apex/provisioning/), applied at concrete values.
use apex_fedora.Base.{
  arith, eq_iff, Bytes, List, String, [], contains, false, if◌then◌else◌, length, none, refl, some,
  zero, ℕ, ◌==◌, ◌<◌, ◌≡◌, ◌∷◌,
}
use apex_fedora.Kernel.Errors.{Result, ok}
use apex_fedora.Kernel.Documents.{Document, JsonValue, text, object, no_fields, field}
use apex_fedora.Model.Marks.{Loaded, loaded}
use apex_fedora.Provisioning.Backing.{
  Host, Making, CompletedRun, BackingChain, walk, turn, regular_file, describe, inspect, overlay,
}
use apex_fedora.Provisioning.Backing.Layers.{IsChain, inspect_iff}
use apex_fedora.Provisioning.Backing.Overlaid.{IsLayered, overlay-links}
use apex_fedora.Provisioning.Backing.Walking.{Covers, inspect_ends}

abbrev files : List String
files = "/r/layer" ∷ "/r/cloud" ∷ []

abbrev answered : List String → String → Result CompletedRun
answered before link =
    ok (record { exit_code = 0; stdout = if link == "/r/cloud" then 0 ∷ [] else 1 ∷ [] })

abbrev spoken : Bytes → Loaded
spoken (zero ∷ _) = loaded (object (field "format" (text "qcow2") no_fields))
spoken _ =
    loaded
      (object (field "format" (text "qcow2") (field "backing-filename" (text "cloud") no_fields)))

abbrev name_in : JsonValue → String
name_in (text s) = s
name_in _ = ""

-- A layer over a cloud image, and nothing else below the root
abbrev host : Host
host = record {
  is_symlink = λ path. false;
  resolve = λ path. path;
  is_below = λ path. contains path files;
  is_file = λ path. contains path files;
  exists = λ path. false;
  beside = λ link name. if name == "cloud" then "/r/cloud" else "";
  info = answered;
  loads = spoken;
  str_of = name_in;
}

abbrev layered_chain : BackingChain
layered_chain = record { links = files }

inspected : inspect host 3 "/r/layer" ≡ some (ok layered_chain)
unfolding walk turn regular_file describe
inspected = refl

-- Before the layer was made
abbrev bare : Host
bare = record host { is_below = λ path. path == "/r/cloud"; is_file = λ path. path == "/r/cloud" }

abbrev making : Making
making disk into size = (ok (record { exit_code = 0; stdout = [] }), host)

cloud-IsChain : IsChain bare [] "/r/cloud" ("/r/cloud" ∷ [])
unfolding walk turn regular_file describe
cloud-IsChain = ((inspect_iff bare 1 "/r/cloud" (record { links = "/r/cloud" ∷ [] })).0 refl).0

abbrev layer_description : Document
layer_description =
    field "format" (text "qcow2") (field "backing-filename" (text "cloud") no_fields)

layer-IsLayered : IsLayered bare host "/r/layer" "/r/cloud"
unfolding regular_file describe
layer-IsLayered = record {
  description = layer_description;
  made = record { regular = refl; fresh = refl; tells = refl; qcow2 = refl };
  named = refl;
  files = λ candidate h. still candidate h;
  told = λ before link apart. refl;
  next = λ link d. refl;
}
  where
    still :
        (candidate : String) {link : String}
        → regular_file bare candidate ≡ ok link
        → regular_file host candidate ≡ ok link
    still candidate h = ground (arith, h, eq_iff "/r/cloud" candidate, eq_iff candidate "/r/cloud")

overlay-links_example :
    overlay bare making 3 (record { links = "/r/cloud" ∷ [] }) "/r/layer" none
    ≡ some (ok layered_chain)
overlay-links_example =
    overlay-links bare host "/r/layer" making 3 (record { links = "/r/cloud" ∷ [] }) none "/r/cloud"
      (record { exit_code = 0; stdout = [] }) refl refl refl refl layer-IsLayered cloud-IsChain refl
      (omega arith)

files-Covers : Covers host files
unfolding Covers
files-Covers path below file = file

inspect_ends_example :
    (result : Result BackingChain) × ((turns : ℕ)
      → length files < turns
      → inspect host turns "/r/layer" ≡ some result)
inspect_ends_example = inspect_ends host files "/r/layer" files-Covers
