-- ===== src/Attestation/Selecting/Tests.antt =====
-- The theorem on the selection of src/apex/attestation/selecting.py, applied at concrete values.
use apex_fedora.Base.{Bytes, String, [], refl, some, zero, ◌∷◌, ◌≡◌, insert}
use apex_fedora.Kernel.Errors.{ok}
use apex_fedora.Kernel.Documents.{JsonValue, text, object, Document, no_fields}
use apex_fedora.Kernel.Identifiers.{digest_text, parse_digest}
use apex_fedora.Model.Marks.{Loaded, loaded}
use apex_fedora.Model.Runtime.{Python}
use apex_fedora.Attestation.Selecting.{
  Files, keep, Shelf, Selected, candidate_document, previous_of, select,
}

abbrev earlier : String
earlier = "1111111111111111111111111111111111111111111111111111111111111111"

abbrev chosen : String
chosen = "2222222222222222222222222222222222222222222222222222222222222222"

abbrev build : String
build = "3333333333333333333333333333333a"

-- A file that begins with a 0 names the earlier candidate, any other the chosen one.
abbrev spoken : Bytes → Loaded
spoken (zero ∷ _) = loaded (object (candidate_document earlier build no_fields))
spoken _ = loaded (object (candidate_document chosen build no_fields))

abbrev named : JsonValue → String
named (text s) = s
named _ = ""

abbrev python : Python
python = record { loads = spoken; str_of = named }

abbrev canonical : Document → Bytes
canonical document = 1 ∷ []

-- Files that are read and written without a fault
abbrev files : Files
files = record {
  read_bytes = ok;
  make_directory = λ run. ok tt;
  copy = λ run. ok tt;
  write_atomic = λ content. ok tt;
}

abbrev shelf : Shelf
shelf = record { candidate = some (0 ∷ []); archives = [] }

abbrev selected : Selected
selected = record { digest = chosen; build = build; previous = some earlier; archived = some "run" }

abbrev after : Shelf
after = record { candidate = some (1 ∷ 10 ∷ []); archives = ("run", 0 ∷ []) ∷ [] }

selects : select python canonical files chosen build no_fields "run" shelf ≡ (ok selected, after)
unfolding select keep previous_of parse_digest digest_text insert
selects = refl
