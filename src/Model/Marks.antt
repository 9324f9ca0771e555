-- ===== src/Model/Marks.antt =====
-- src/apex/model/storemark.py: which version of the store is on disk. The reader of JSON may find that bytes are
-- no JSON, which the code catches, or no text at all, which is an error of another class.
pub mod Honest
use apex_fedora.Base.{Bool, Bytes, if◌then◌else◌, ltb, not, pos, ℕ}
use apex_fedora.Kernel.Refusals.{malformed_store_mark}
use apex_fedora.Kernel.Errors.{Result, ok, raise, refusal, other_exception}
use apex_fedora.Kernel.Documents.{JsonValue, integer, object, get, get_or}

-- What `json.loads` does with bytes
pub data Loaded : Type 0 where
  loaded : JsonValue → Loaded
  not_json not_text : Loaded

abbrev pub mark_byte_limit : ℕ
mark_byte_limit = 4096

abbrev pub first_version : ℕ
first_version = 1

abbrev pub second_version : ℕ
second_version = 2

pub data VersionMark : Type 0 where
  unmarked : VersionMark
  marked : ℕ → VersionMark
  unreadable : VersionMark

-- `Marked(version)`
unfoldable pub mark_of : ℕ → Result VersionMark
mark_of version =
    if ltb version first_version then raise (refusal malformed_store_mark) else ok (marked version)

abbrev pub version_or_unreadable : JsonValue → VersionMark
version_or_unreadable (integer (pos version)) =
    if ltb version first_version then unreadable else marked version
version_or_unreadable _ = unreadable

-- `_version_of`; the key `version` is read where `schema` is not there
unfoldable pub version_of : JsonValue → VersionMark
version_of (object document) =
    version_or_unreadable (get_or (get "version" document) "schema" document)
version_of _ = unreadable

-- What the file system answers about the mark
pub record MarkFile : Type 0 where
  pub is_symlink : Bool
  pub exists : Bool
  pub is_file : Bool
  pub size : ℕ
  pub content : Bytes

abbrev pub decoded_mark : Loaded → Result VersionMark
decoded_mark (loaded document) = ok (version_of document)
decoded_mark not_json = ok unreadable
decoded_mark not_text = raise other_exception

unfoldable pub read_mark : (Bytes → Loaded) → MarkFile → Result VersionMark
unfolding version_of
read_mark loads file =
    if file.is_symlink
    then ok unreadable
    else if not file.exists
    then ok unmarked
    else if not file.is_file
    then ok unreadable
    else if ltb mark_byte_limit file.size
    then ok unreadable
    else decoded_mark (loads file.content)
