-- ===== src/Controllers/Uevent.antt =====
-- `parse_uevent`, `build_id` and `init_controller` of lact-daemon/src/server/gpu_controller.rs: what
-- the file `uevent` says about a device, and which controller is made for it.
pub mod Identity
pub mod Init
pub mod Roundtrip
use yagc.Common.{ℕ, Option, none, some, List, [], ◌∷◌, ◌++◌, if◌then◌else◌}
use yagc.Common.Entries.{insert, lookup}
use yagc.Common.Text.{Text, codes, lines, split_once}
use yagc.Common.Text.Laws.{text_eq}

abbrev pub equals_sign : ℕ
equals_sign = 61

abbrev pub colon : ℕ
colon = 58

-- The entries of the lines, in their order; a later one with the same key replaces an earlier one.
unfoldable pub collect : List (Text × Text) → List Text → List (Text × Text)
unfolding split_once
collect entries [] = entries
collect entries (line ∷ rest) = elim (split_once equals_sign line) [
  | none ↦ collect entries rest
  | some (key, value) ↦ collect (insert entries key value) rest
]

unfoldable pub parse_uevent : Text → List (Text × Text)
unfolding collect lines
parse_uevent contents = collect [] (lines contents)

-- `lact_schema::{PciInfo, GpuPciInfo}`, of which the names from the database are kept as they are
pub record PciInfo : Type 0 where
  pub vendor_id : Text
  pub vendor : Option Text
  pub model_id : Text
  pub model : Option Text

pub record GpuPciInfo : Type 0 where
  pub device_pci_info : PciInfo
  pub subsystem_pci_info : PciInfo

pub record CommonControllerInfo : Type 0 where
  pub sysfs_path : Text
  pub pci_info : GpuPciInfo
  pub pci_slot_name : Text
  pub driver : Text

unfoldable pub build_id : CommonControllerInfo → Text
build_id info =
    let device = info.pci_info.device_pci_info in
    let subsystem = info.pci_info.subsystem_pci_info in
    device.vendor_id
    ++ codes ":"
    ++ device.model_id
    ++ codes "-"
    ++ subsystem.vendor_id
    ++ codes ":"
    ++ subsystem.model_id
    ++ codes "-"
    ++ info.pci_slot_name
