-- ===== src/Provisioning/Backing/Overlaid.antt =====
-- A layer that `overlay` of src/apex/provisioning/backingchain.py makes stands over the chain of its base.
use apex_fedora.Base.{
  ap, List, Option, String, [], arith, contains, eq_iff, false, length, some, true, ℕ, ◌==◌, ◌<◌,
  ◌≡◌, ◌∷◌, ◌++◌, ◌∙◌,
}
use apex_fedora.Kernel.Errors.{ok}
use apex_fedora.Kernel.Documents.{Document}
use apex_fedora.Provisioning.Backing.{
  Host, Making, CompletedRun, succeeded, BackingChain, first_link, regular_file, describe, inspect,
  overlay,
}
use apex_fedora.Provisioning.Backing.Layers.{
  IsLink, IsChain, standing, layered, next_of, inspect_iff,
}

module _ (host after : Host) (into : String) where
  -- What `qemu-img create -b disk into` leaves: a regular file that the tool describes as qcow2 over the
  -- disk, and every other file as it was.
  pub record IsLayered (disk : String) : Type 0 where
    pub description : Document
    pub made : IsLink after [] into into description
    pub named : next_of after into description ≡ some disk
    pub files :
        (candidate : String) {link : String}
        → regular_file host candidate ≡ ok link
        → regular_file after candidate ≡ ok link
    pub told :
        (before : List String) (link : String)
        → (into == link) ≡ false
        → describe after (into ∷ before) link ≡ describe host before link
    pub next : (link : String) (d : Document) → next_of after link d ≡ next_of host link d

  IsLink-after :
      {disk : String} (before : List String) (candidate link : String) (description : Document)
      → IsLayered disk
      → (into == link) ≡ false
      → IsLink host before candidate link description
      → IsLink after (into ∷ before) candidate link description
  IsLink-after before candidate link description made apart is_link = record {
    regular = made.files candidate is_link.regular;
    fresh = ground (arith, is_link.fresh, apart);
    tells = made.told before link apart ∙ is_link.tells;
    qcow2 = is_link.qcow2;
  }

  IsChain-after :
      {disk : String} (before : List String) (candidate : String) (links : List String)
      → IsLayered disk
      → contains into links ≡ false
      → IsChain host before candidate links
      → IsChain after (into ∷ before) candidate links
  IsChain-after _ _ _ made apart (standing before candidate link description is_link n) =
      standing (into ∷ before) candidate link description
        (IsLink-after before candidate link description made
          (ground (arith, apart, eq_iff into link, eq_iff link into)) is_link)
        (made.next link description ∙ n)
  IsChain-after _ _ _ made apart
        (layered before candidate link description next links is_link n rest) =
      layered (into ∷ before) candidate link description next links
        (IsLink-after before candidate link description made
          (ground (arith, apart, eq_iff into link, eq_iff link into)) is_link)
        (made.next link description ∙ n)
        (IsChain-after (before ++ link ∷ []) next links made (ground (arith, apart)) rest)

  -- Over a base whose chain is known, at a path that is free and none of its links: where the tool succeeds
  -- and leaves what it documents, the layer that is made is a chain of that path and the links of the base,
  -- in any number of turns that is larger than theirs.
  pub overlay-links :
      (create : Making) (turns : ℕ) (base : BackingChain) (size : Option ℕ) (disk : String)
      (created : CompletedRun)
      → host.exists into ≡ false
      → first_link base.links ≡ ok disk
      → create disk into size ≡ (ok created, after)
      → succeeded created ≡ true
      → IsLayered disk
      → IsChain host [] disk base.links
      → contains into base.links ≡ false
      → length base.links < turns
      → overlay host create turns base into size ≡ some (ok (record { links = into ∷ base.links }))
  unfolding overlay
  overlay-links create turns base size disk created free first does succeeds made chain apart many =
      let whole : IsChain after [] into (into ∷ base.links) =
        layered [] into into made.description disk base.links made.made made.named
          (IsChain-after [] disk base.links made apart chain) in
      rw (overlay, free, first, does, succeeds)
        (ap (λ h. inspect h turns into) (ap (λ r. r.1) does)
          ∙ (inspect_iff after turns into (record { links = into ∷ base.links })).1
              (whole, omega (arith, many)))
