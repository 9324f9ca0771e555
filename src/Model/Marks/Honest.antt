-- ===== src/Model/Marks/Honest.antt =====
-- What each answer of `read_mark` says of the file (src/apex/model/storemark.py).
use apex_fedora.Base.{
  Bool, Bool-cases, Bytes, arith, false, inl, inr, ltb, negsuc, pos, refl, true, ℕ, ◌≡◌, ◌≤◌, ◌⊎◌,
}
use apex_fedora.Kernel.Errors.{Result, ok, raise, other_exception}
use apex_fedora.Kernel.Documents.{JsonValue, integer, object, get, get_or}
use apex_fedora.Model.Marks.{
  Loaded, loaded, not_json, not_text, mark_byte_limit, first_version, VersionMark, unmarked, marked,
  unreadable, version_or_unreadable, version_of, MarkFile, decoded_mark, read_mark,
}

-- A regular file of a bounded size
abbrev pub IsRegular : MarkFile → Type 0
IsRegular file =
    (file.is_symlink ≡ false)
    × (file.exists ≡ true)
    × (file.is_file ≡ true)
    × (file.size ≤ mark_byte_limit)

-- The version that a document names, under `schema` or else under `version`
abbrev pub Names : JsonValue → ℕ → Type 0
Names (object document) version =
    (get_or (get "version" document) "schema" document ≡ integer (pos version))
    × (first_version ≤ version)
Names _ version = ⊥

-- What an answer says
abbrev pub IsHonest : (Bytes → Loaded) → MarkFile → Result VersionMark → Type 0
IsHonest loads file (ok unmarked) = (file.is_symlink ≡ false) × (file.exists ≡ false)
IsHonest loads file (ok (marked version)) =
    IsRegular file × (value : JsonValue) × (loads file.content ≡ loaded value) × Names value version
IsHonest loads file (ok unreadable) = (file.is_symlink ≡ true) ⊎ (file.exists ≡ true)
IsHonest loads file (raise error) =
    IsRegular file × (loads file.content ≡ not_text) × (error ≡ other_exception)

IsHonest-decoded :
    (loads : Bytes → Loaded) (file : MarkFile)
    → IsRegular file
    → IsHonest loads file (decoded_mark (loads file.content))
unfolding version_of
IsHonest-decoded loads file regular = go (loads file.content) refl
  where
    named :
        (found document_value : JsonValue)
        → (loads file.content ≡ loaded document_value)
        → ((version : ℕ)
            → found ≡ integer (pos version)
            → first_version ≤ version
            → Names document_value version)
        → IsHonest loads file (ok (version_or_unreadable found))
    named (integer (pos version)) value e names = elim (Bool-cases (ltb version first_version)) [
      | inl t ↦ rw t (inr regular.1)
      | inr f ↦ rw f (regular, value, e, names version refl (ground arith))
    ]
    named (integer (negsuc n)) value e names = inr regular.1
    named _ value e names = inr regular.1

    go : (found : Loaded) → loads file.content ≡ found → IsHonest loads file (decoded_mark found)
    go (loaded (object document)) e =
        named (get_or (get "version" document) "schema" document) (object document) e
          (λ version same low. (same, low))
    go (loaded _) e = inr regular.1
    go not_json e = inr regular.1
    go not_text e = (regular, e, refl)

abbrev file_of : (is_symlink exists is_file : Bool) → ℕ → Bytes → MarkFile
file_of is_symlink exists is_file size content = record {
  is_symlink = is_symlink;
  exists = exists;
  is_file = is_file;
  size = size;
  content = content;
}

each_file-IsHonest :
    (loads : Bytes → Loaded) (is_symlink exists is_file : Bool) (size : ℕ) (content : Bytes)
    → let file = file_of is_symlink exists is_file size content in
      IsHonest loads file (read_mark loads file)
unfolding read_mark
each_file-IsHonest loads true exists is_file size content = inl refl
each_file-IsHonest loads false false is_file size content = (refl, refl)
each_file-IsHonest loads false true false size content = inr refl
each_file-IsHonest loads false true true size content =
    elim (Bool-cases (ltb mark_byte_limit size)) [
      | inl t ↦ rw (read_mark, t) (inr refl)
      | inr f ↦
          rw (read_mark, f)
            (IsHonest-decoded loads (file_of false true true size content)
              (refl, refl, refl, ground (arith, f)))
    ]

-- Reading the mark answers that there is none only where no file is, and a version only where a regular
-- file of a bounded size names it, from the first one on; whatever else lies there is unreadable, so that
-- damage is never taken for the oldest version. It raises only where such a file is no text.
pub read_mark-IsHonest :
    (loads : Bytes → Loaded) (file : MarkFile) → IsHonest loads file (read_mark loads file)
read_mark-IsHonest loads file =
    each_file-IsHonest loads file.is_symlink file.exists file.is_file file.size file.content
