-- ===== src/Attestation/Selecting/Kept.antt =====
-- What is selected is what src/apex/model/runtimestate.py reads, and the candidate before it is kept.
use apex_fedora.Base.{◌⊎◌, Bytes, String, if◌then◌else◌, lookup, none, some, true, ◌==◌, ◌≡◌, ◌&&◌}
use apex_fedora.Kernel.Errors.{Result, ok, raise}
use apex_fedora.Kernel.Documents.{JsonValue, text, object, Document, get_or}
use apex_fedora.Model.Marks.{loaded}
use apex_fedora.Model.Runtime.{Python, read_candidate}
use apex_fedora.Attestation.Selecting.{
  Files, Shelf, Selected, candidate_document, is_another, previous_of, written,
}

module _ (python : Python) (canonical : Document → Bytes) (files : Files) where
  -- What was rendered is loaded as a document with the same fields, in whatever order.
  pub record IsJson (digest build : String) (verification : Document) : Type 0 where
    pub back : Document
    pub loads :
        python.loads (written python canonical files digest build verification)
        ≡ loaded (object back)
    pub fields :
        (default : JsonValue) (key : String)
        → get_or default key back
          ≡ get_or default key (candidate_document digest build verification)
    pub texts : (s : String) → python.str_of (text s) ≡ s

  -- A selection from a shelf: what is under test then, what it says was before, and what is kept of that.
  -- One that raises leaves what is under test, and at most the archive of the run is new.
  abbrev pub IsSelection :
      String → String → Document → String → Shelf → Result Selected → Shelf → Type 0
  IsSelection digest build verification run shelf (raise error) after =
      (after.candidate ≡ shelf.candidate)
      × ((name : String)
          → (lookup name after.archives ≡ lookup name shelf.archives)
            ⊎ (((run == name) ≡ true) × (lookup name after.archives ≡ shelf.candidate)))
  IsSelection digest build verification run shelf (ok selected) after =
      (content : Bytes) × (after.candidate ≡ some content)
      × (read_candidate python content
          ≡ ok (record { digest = digest; build = build; verification = verification }))
      × (previous_of python canonical files shelf.candidate ≡ ok selected.previous)
      × (selected.archived ≡ (if is_another selected.previous digest then some run else none))
      × ((name : String)
          → lookup name after.archives ≡ (
              if is_another selected.previous digest && run == name
              then shelf.candidate
              else lookup name shelf.archives))
