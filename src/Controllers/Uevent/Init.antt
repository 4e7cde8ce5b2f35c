-- ===== src/Controllers/Uevent/Init.antt =====
-- `init_controller` of lact-daemon/src/server/gpu_controller.rs.
use yagc.Common.{
  ℕ, ◌≡◌, Option, none, some, List, [], Result, ok, err, entry_missing, invalid_number,
  if◌then◌else◌, ◌||◌, ◌==◌, unwrap_or,
}
use mathlib.Core.Option
use yagc.Common.Entries.{lookup}
use yagc.Common.Text.{Text, codes, split_once}
use yagc.Common.Text.Laws.{text_eq}
use yagc.Controllers.Uevent.{parse_uevent, colon, GpuPciInfo, CommonControllerInfo}

-- What the function is given: the file `uevent` of a path, the database of PCI names with the parser
-- of hexadecimal numbers, the libraries that could be loaded, and the constructors of the
-- controllers, each of which makes a controller for what it is told.
pub record System : Type 1 where
  pub read_uevent : Text → Result Text
  pub from_hex : Text → Option ℕ
  pub vendor_name : ℕ → Option Text
  pub device_name : ℕ → ℕ → Option Text
  pub subsystem_names : ℕ → ℕ → ℕ → ℕ → Option Text × Option Text
  pub Library : Type 0
  pub amd_drm : Option Library
  pub intel_drm : Option Library
  pub nvml : Option Library
  pub Controller : Type 0
  pub controller_info : Controller → CommonControllerInfo
  pub new_amd : CommonControllerInfo → Option Library → Result Controller
  pub new_intel : CommonControllerInfo → Library → Result Controller
  pub new_nvidia : CommonControllerInfo → Library → Result Controller
  pub new_amd-info :
      (info : CommonControllerInfo) (drm : Option Library) (c : Controller)
      → new_amd info drm ≡ ok c
      → controller_info c ≡ info
  pub new_intel-info :
      (info : CommonControllerInfo) (drm : Library) (c : Controller)
      → new_intel info drm ≡ ok c
      → controller_info c ≡ info
  pub new_nvidia-info :
      (info : CommonControllerInfo) (library : Library) (c : Controller)
      → new_nvidia info library ≡ ok c
      → controller_info c ≡ info

-- `and_then(|id_line| id_line.split_once(':'))`
unfoldable pub id_entry : List (Text × Text) → Text → Option (Text × Text)
id_entry entries key = elim (lookup entries key) [
  | none ↦ none
  | some id_line ↦ split_once colon id_line
]

module _ (S : System) where
  -- The names of the subsystem, if all four numbers can be read.
  unfoldable pub subsystem_info : Text → Text → Option (Text × Text) → Option Text × Option Text
  subsystem_info vendor_id device_id none = (none, none)
  subsystem_info vendor_id device_id (some (subsys_vendor_id, subsys_device_id)) =
      elim (S.from_hex vendor_id) [
        | none ↦ (none, none)
        | some vendor ↦ elim (S.from_hex device_id) [
          | none ↦ (none, none)
          | some device ↦ elim (S.from_hex subsys_vendor_id) [
            | none ↦ (none, none)
            | some subsys_vendor ↦ elim (S.from_hex subsys_device_id) [
              | none ↦ (none, none)
              | some subsys_device ↦ S.subsystem_names vendor device subsys_vendor subsys_device
            ]
          ]
        ]
      ]

  -- A model is only named where its vendor is known.
  unfoldable pub model_of : ℕ → Text → Option Text
  model_of vendor device_id = elim (S.vendor_name vendor) [
    | none ↦ none
    | some name ↦ elim (S.from_hex device_id) [
      | none ↦ none
      | some device ↦ S.device_name vendor device
    ]
  ]

  unfoldable pub pci_info_of : ℕ → Text × Text → Option (Text × Text) → GpuPciInfo
  unfolding subsystem_info model_of
  pci_info_of vendor (vendor_id, device_id) subsystem_entry =
      let (subvendor_name, subdevice_name) = subsystem_info vendor_id device_id subsystem_entry in
      record {
        device_pci_info = record {
          vendor_id = vendor_id;
          vendor = S.vendor_name vendor;
          model_id = device_id;
          model = model_of vendor device_id;
        };
        subsystem_pci_info = record {
          vendor_id = unwrap_or (Option.map (λ ids. ids.0) subsystem_entry) [];
          vendor = subvendor_name;
          model_id = unwrap_or (Option.map (λ ids. ids.1) subsystem_entry) [];
          model = subdevice_name;
        };
      }

  unfoldable pub common_info : Text → List (Text × Text) → Result CommonControllerInfo
  unfolding id_entry pci_info_of
  common_info path entries = elim (lookup entries (codes "DRIVER")) [
    | none ↦ err entry_missing
    | some driver ↦ elim (lookup entries (codes "PCI_SLOT_NAME")) [
      | none ↦ err entry_missing
      | some pci_slot_name ↦ elim (id_entry entries (codes "PCI_ID")) [
        | none ↦ err entry_missing
        | some ids ↦ elim (S.from_hex ids.0) [
          | none ↦ err invalid_number
          | some vendor ↦ ok (record {
            sysfs_path = path;
            pci_info = pci_info_of vendor ids (id_entry entries (codes "PCI_SUBSYS_ID"));
            pci_slot_name = pci_slot_name;
            driver = driver;
          })
        ]
      ]
    ]
  ]

  -- The AMD controller without its library is the fallback for every device.
  unfoldable pub or_fallback : CommonControllerInfo → Result S.Controller → Result S.Controller
  or_fallback info (ok controller) = ok controller
  or_fallback info (err e) = S.new_amd info none

  unfoldable pub with_library :
      Option S.Library
      → (S.Library → Result S.Controller)
      → CommonControllerInfo
      → Result S.Controller
  unfolding or_fallback
  with_library none make info = S.new_amd info none
  with_library (some library) make info = or_fallback info (make library)

  unfoldable pub controller_for : CommonControllerInfo → Result S.Controller
  unfolding with_library
  controller_for info =
      if info.driver == codes "amdgpu" || info.driver == codes "radeon"
      then or_fallback info (S.new_amd info S.amd_drm)
      else (if info.driver == codes "i915" || info.driver == codes "xe"
          then with_library S.intel_drm (S.new_intel info) info
          else (if info.driver == codes "nvidia"
              then with_library S.nvml (S.new_nvidia info) info
              else S.new_amd info none))

  unfoldable pub init_controller : Text → Result S.Controller
  unfolding common_info controller_for parse_uevent
  init_controller path = elim (S.read_uevent path) [
    | err e ↦ err e
    | ok contents ↦ elim (common_info path (parse_uevent contents)) [
      | err e ↦ err e
      | ok info ↦ controller_for info
    ]
  ]
