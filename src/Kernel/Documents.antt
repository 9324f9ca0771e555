-- ===== src/Kernel/Documents.antt =====
-- src/apex/kernel/encoding.py: the JSON values that documents are made of. A float is `other`: no document that
-- is modelled reads one.
use apex_fedora.Base.{Bool, List, String, [], false, if◌then◌else◌, true, ℤ, ◌==◌, ◌∷◌}

mutual
  pub data JsonValue : Type 0 where
    text : String → JsonValue
    integer : ℤ → JsonValue
    truth : Bool → JsonValue
    null other : JsonValue
    array : Items → JsonValue
    object : Document → JsonValue

  pub data Items : Type 0 where
    no_items : Items
    item : JsonValue → Items → Items

  pub data Document : Type 0 where
    no_fields : Document
    field : String → JsonValue → Document → Document

-- `document.get(key)`, and with a default
abbrev pub get_or : JsonValue → String → Document → JsonValue
get_or default key no_fields = default
get_or default key (field k value fields) =
    let rest = get_or default key fields in if k == key then value else rest

abbrev pub get : String → Document → JsonValue
get = get_or null

-- `key in document`
abbrev pub has_key : String → Document → Bool
has_key key no_fields = false
has_key key (field k value fields) =
    let rest = has_key key fields in if k == key then true else rest

abbrev pub items_of : Items → List JsonValue
items_of no_items = []
items_of (item value rest) = value ∷ items_of rest
