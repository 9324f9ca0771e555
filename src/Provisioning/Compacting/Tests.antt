-- ===== src/Provisioning/Compacting/Tests.antt =====
-- The theorem on the compaction of src/apex/provisioning/compacting.py, applied at concrete values.
use apex_fedora.Base.{lookup, insert, String, [], pos, refl, true, false, ◌≡◌}
use apex_fedora.Kernel.Errors.{ok}
use apex_fedora.Kernel.Documents.{JsonValue, text, integer, object, Document, no_fields, field}
use apex_fedora.Provisioning.Compacting.{
  Host, World, ◌>>=◌, note, command, answer, return_of, each, identified, free, identity_of, digest,
  path_in, information, require_plain, require_standalone, require_unchanged, is_plain, projected,
  survey, copy_checked, approve, accept, swap, save, writing, compact,
}
use apex_fedora.Provisioning.Compacting.Guarded.{IsGuarded, compact-IsGuarded}

abbrev disk_document : Document
disk_document =
    field "filename" (text "disk")
      (field "format" (text "qcow2") (field "virtual-size" (integer (pos 10)) no_fields))

abbrev name_in : JsonValue → String
name_in (text s) = s
name_in _ = ""

-- Every call succeeds, and nothing changes.
abbrev host : Host
host = record {
  run = λ events argv. ok (record { exit_code = 0; stdout = [] });
  regular_file = λ events path. ok path;
  identity = λ events path. ok (record {
    device = 1;
    inode = 2;
    size = 30;
    modified_nanoseconds = 4;
    links = 1;
    allocated = 20;
  });
  free_space = λ events. ok 50;
  write_report = λ events. ok tt;
  replace = λ events. ok tt;
  is_running = λ events. false;
  sha256 = λ events path. ok "hash";
  parse_document = λ output. ok (object disk_document);
  decode = λ output. "";
  str_of = name_in;
  same_value = λ a b. true;
  minimum_free = 60;
  reserve = 10;
}

abbrev start : World
start = record { events = []; report = record { commands = []; notes = [] } }

compacted : (compact host "disk" "copy" start).0 ≡ ok 70
unfolding compact survey copy_checked approve accept swap save writing note command answer return_of
    each identified free identity_of digest path_in information require_plain require_standalone
    require_unchanged is_plain projected ◌>>=◌ lookup insert
compacted = refl

compact-IsGuarded_example : IsGuarded host "disk" "copy" start (compact host "disk" "copy" start)
compact-IsGuarded_example = compact-IsGuarded host "disk" "copy" start
