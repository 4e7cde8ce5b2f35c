-- ===== src/Controllers/Uevent/Identity.antt =====
-- Whichever controller is made for a device, it is that of the device which `uevent` describes.
use yagc.Common.{
  ℕ, Bool, true, false, ◌≡◌, refl, ◌∙◌, Option, none, some, List, ◌∷◌, ◌++◌, Result, ok, err, Error,
  ◌⊎◌, inl, inr, Result-cases, if◌then◌else◌, ◌||◌, ◌==◌,
}
use yagc.Common.Entries.{lookup}
use yagc.Common.Text.{Text, codes}
use yagc.Common.Text.Laws.{text_eq, has_char, split_once-join}
use yagc.Controllers.Uevent.{parse_uevent, build_id, colon, CommonControllerInfo}
use yagc.Controllers.Uevent.Roundtrip.{print_uevent, IsPrintable, parse_uevent-print_uevent}
use yagc.Controllers.Uevent.Init.{
  System, pci_info_of, id_entry, common_info, or_fallback, with_library, controller_for,
  init_controller,
}

-- What the entries of `uevent` say about a device, with the two ids that are written in two halves.
pub record Describes (l : List (Text × Text)) (driver slot vendor model subvendor submodel : Text)
    : Type 0 where
  pub driver_entry : lookup l (codes "DRIVER") ≡ some driver
  pub slot_entry : lookup l (codes "PCI_SLOT_NAME") ≡ some slot
  pub id_line : lookup l (codes "PCI_ID") ≡ some (vendor ++ colon ∷ model)
  pub subsystem_line : lookup l (codes "PCI_SUBSYS_ID") ≡ some (subvendor ++ colon ∷ submodel)
  pub one_colon : has_char colon vendor ≡ false
  pub one_subsystem_colon : has_char colon subvendor ≡ false

id_entry-split :
    (l : List (Text × Text)) (key left right : Text)
    → lookup l key ≡ some (left ++ colon ∷ right)
    → has_char colon left ≡ false
    → id_entry l key ≡ some (left, right)
unfolding id_entry
id_entry-split l key left right h plain = rw (h, id_entry) (split_once-join colon left right plain)

-- The parser keeps what is described.
parsed-Describes :
    (l : List (Text × Text)) (driver slot vendor model subvendor submodel : Text)
    → IsPrintable l
    → Describes l driver slot vendor model subvendor submodel
    → Describes (parse_uevent (print_uevent l)) driver slot vendor model subvendor submodel
parsed-Describes l driver slot vendor model subvendor submodel printable d = record {
  driver_entry = parse_uevent-print_uevent l (codes "DRIVER") printable ∙ d.driver_entry;
  slot_entry = parse_uevent-print_uevent l (codes "PCI_SLOT_NAME") printable ∙ d.slot_entry;
  id_line = parse_uevent-print_uevent l (codes "PCI_ID") printable ∙ d.id_line;
  subsystem_line = parse_uevent-print_uevent l (codes "PCI_SUBSYS_ID") printable ∙ d.subsystem_line;
  one_colon = d.one_colon;
  one_subsystem_colon = d.one_subsystem_colon;
}

module _ (S : System) where
  -- What is made for a description keeps it, and nothing is made only if the fallback fails.
  record IsMadeFor (info : CommonControllerInfo) (r : Result S.Controller) : Type 0 where
    pub is_made :
        ((c : S.Controller) × (r ≡ ok c) × (S.controller_info c ≡ info))
        ⊎ ((e : Error) × (r ≡ err e) × (S.new_amd info none ≡ err e))

  made_fallback : (info : CommonControllerInfo) → IsMadeFor info (S.new_amd info none)
  made_fallback info = record {
    is_made = elim (Result-cases (S.new_amd info none)) [
      | inl (c, made) ↦ inl (c, made, S.new_amd-info info none c made)
      | inr (e, failed) ↦ inr (e, failed, failed)
    ];
  }

  made_or_fallback :
      (info : CommonControllerInfo) (r : Result S.Controller)
      → ((c : S.Controller) → r ≡ ok c → S.controller_info c ≡ info)
      → IsMadeFor info (or_fallback S info r)
  unfolding or_fallback
  made_or_fallback info (ok c) keeps = record { is_made = inl (c, refl, keeps c refl) }
  made_or_fallback info (err e) keeps = made_fallback info

  made_with_library :
      (library : Option S.Library) (make : S.Library → Result S.Controller)
      (info : CommonControllerInfo)
      → ((x : S.Library) (c : S.Controller) → make x ≡ ok c → S.controller_info c ≡ info)
      → IsMadeFor info (with_library S library make info)
  unfolding with_library
  made_with_library none make info keeps = made_fallback info
  made_with_library (some x) make info keeps = made_or_fallback info (make x) (keeps x)

  choose :
      (test : Bool) (info : CommonControllerInfo) {a b : Result S.Controller}
      → IsMadeFor info a
      → IsMadeFor info b
      → IsMadeFor info (if test then a else b)
  choose true info left right = left
  choose false info left right = right

  controller_for-IsMadeFor : (info : CommonControllerInfo) → IsMadeFor info (controller_for S info)
  unfolding controller_for
  controller_for-IsMadeFor info =
      choose (info.driver == codes "amdgpu" || info.driver == codes "radeon") info
        (made_or_fallback info (S.new_amd info S.amd_drm) (S.new_amd-info info S.amd_drm))
        (choose (info.driver == codes "i915" || info.driver == codes "xe") info
          (made_with_library S.intel_drm (S.new_intel info) info (S.new_intel-info info))
          (choose (info.driver == codes "nvidia") info
            (made_with_library S.nvml (S.new_nvidia info) info (S.new_nvidia-info info))
            (made_fallback info)))

  abbrev pub described :
      (path driver slot vendor model subvendor submodel : Text) → ℕ → CommonControllerInfo
  described path driver slot vendor model subvendor submodel number = record {
    sysfs_path = path;
    pci_info = pci_info_of S number (vendor, model) (some (subvendor, submodel));
    pci_slot_name = slot;
    driver = driver;
  }

  common_info-described :
      (path : Text) (entries : List (Text × Text))
      (driver slot vendor model subvendor submodel : Text) (number : ℕ)
      → Describes entries driver slot vendor model subvendor submodel
      → S.from_hex vendor ≡ some number
      → common_info S path entries
        ≡ ok (described path driver slot vendor model subvendor submodel number)
  unfolding common_info
  common_info-described path entries driver slot vendor model subvendor submodel number d readable =
      let ids = id_entry-split entries (codes "PCI_ID") vendor model d.id_line d.one_colon in
      let subsystem =
        id_entry-split entries (codes "PCI_SUBSYS_ID") subvendor submodel d.subsystem_line
          d.one_subsystem_colon in
      rw (d.driver_entry, d.slot_entry, ids, readable, subsystem, common_info)

  init_controller-parsed :
      (path : Text) (l : List (Text × Text)) (info : CommonControllerInfo)
      → S.read_uevent path ≡ ok (print_uevent l)
      → common_info S path (parse_uevent (print_uevent l)) ≡ ok info
      → init_controller S path ≡ controller_for S info
  unfolding init_controller controller_for
  init_controller-parsed path l info file common = rw (file, init_controller) (rw (common) refl)

  -- For a device whose `uevent` has the entries and a readable vendor, and whichever constructors
  -- fail: a controller is made, and it has the path, the driver and the id of that device, whichever
  -- vendor's controller it is; or the AMD controller without its library, the last resort for every
  -- device, cannot be made either, and its error is the one returned.
  pub init_controller-identity :
      (path : Text) (l : List (Text × Text)) (driver slot vendor model subvendor submodel : Text)
      (number : ℕ)
      → S.read_uevent path ≡ ok (print_uevent l)
      → IsPrintable l
      → Describes l driver slot vendor model subvendor submodel
      → S.from_hex vendor ≡ some number
      → ((c : S.Controller) × (init_controller S path ≡ ok c)
          × ((S.controller_info c).sysfs_path ≡ path)
          × ((S.controller_info c).driver ≡ driver)
          × (build_id (S.controller_info c)
              ≡ vendor
                ++ codes ":"
                ++ model
                ++ codes "-"
                ++ subvendor
                ++ codes ":"
                ++ submodel
                ++ codes "-"
                ++ slot))
        ⊎ ((e : Error) × (init_controller S path ≡ err e)
            × (S.new_amd (described path driver slot vendor model subvendor submodel number) none
                ≡ err e))
  unfolding build_id pci_info_of
  init_controller-identity path l driver slot vendor model subvendor submodel number file printable
        d readable =
      let entries = parse_uevent (print_uevent l) in
      let parsed : Describes entries driver slot vendor model subvendor submodel =
        parsed-Describes l driver slot vendor model subvendor submodel printable d in
      let info = described path driver slot vendor model subvendor submodel number in
      let reached : init_controller S path ≡ controller_for S info =
        init_controller-parsed path l info file (
          common_info-described path entries driver slot vendor model subvendor submodel number
            parsed readable) in
      elim (controller_for-IsMadeFor info).is_made [
        | inl (c, made, keeps) ↦
            inl (c, reached ∙ made, rw (keeps) refl, rw (keeps) refl, rw (keeps) refl)
        | inr (e, failed, resort) ↦ inr (e, reached ∙ failed, resort)
      ]
