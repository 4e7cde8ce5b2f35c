-- ===== src/Examples/Devices.antt =====
-- A device whose `uevent` is read, and the controller that is made for it.
use yagc.Common.{
  ◌≡◌, ◌⊎◌, refl, ℕ, zero, suc, ◌+◌, ◌≤◌, true, false, Option, none, some, List, [], ◌∷◌, ◌++◌, ok,
  err, Error, controller_failed, arith, Result, if◌then◌else◌, ◌==◌,
}
use yagc.Common.Entries.{lookup}
use yagc.Common.Text.{Text, codes}
use yagc.Common.Text.Laws.{text_eq}
use yagc.Controllers.Uevent.{CommonControllerInfo, build_id, parse_uevent}
use yagc.Controllers.Uevent.Roundtrip.{
  print_uevent, IsPrintable, none_printed, one_printed, parse_uevent-print_uevent,
}
use yagc.Controllers.Uevent.Init.{System, init_controller}
use yagc.Controllers.Discovery.{Found, load_controllers, should_retry, find_controllers, is_card}
use yagc.Controllers.Discovery.Loaded.{
  first_listed, later_listed, IsKeyed, load_controllers-IsKeyed,
}
use yagc.Controllers.Discovery.Attempts.{Loads, IsComplete, Covers, find_controllers-IsComplete}
use yagc.Controllers.Uevent.Identity.{Describes, described, init_controller-identity}

abbrev entries : List (Text × Text)
entries =
    (codes "DRIVER", codes "nvidia")
    ∷ (codes "PCI_ID", codes "10DE:2704")
    ∷ (codes "PCI_SUBSYS_ID", codes "1462:5110")
    ∷ (codes "PCI_SLOT_NAME", codes "0000:09:00.0")
    ∷ []

entries-IsPrintable : IsPrintable entries
unfolding yagc.Common.Text.Laws.has_char yagc.Common.Text.Laws.is_line lookup
    yagc.Common.Text.text_beq
entries-IsPrintable = one_printed refl refl refl (
    one_printed refl refl refl
      (one_printed refl refl refl (one_printed refl refl refl none_printed)))

parse_uevent-print_uevent_example :
    lookup (parse_uevent (print_uevent entries)) (codes "PCI_ID") ≡ lookup entries (codes "PCI_ID")
parse_uevent-print_uevent_example =
    parse_uevent-print_uevent entries (codes "PCI_ID") entries-IsPrintable

ok_same : (info c : CommonControllerInfo) → ok info ≡ ok c → c ≡ info
ok_same info c h = cc

failed_made : (info c : CommonControllerInfo) → err controller_failed ≡ ok c → c ≡ info
failed_made info c h = absurd (ground (arith, h))

-- NVML can be loaded, but the controller for it cannot be made.
abbrev broken : System
broken = record {
  read_uevent = λ path. ok (print_uevent entries);
  from_hex = λ digits. some 4318;
  vendor_name = λ vendor. none;
  device_name = λ vendor device. none;
  subsystem_names = λ vendor device subvendor subdevice. (none, none);
  Library = ℕ;
  amd_drm = none;
  intel_drm = none;
  nvml = some 1;
  Controller = CommonControllerInfo;
  controller_info = λ c. c;
  new_amd = λ info drm. ok info;
  new_intel = λ info drm. ok info;
  new_nvidia = λ info library. err controller_failed;
  new_amd-info = λ info drm c h. ok_same info c h;
  new_intel-info = λ info drm c h. ok_same info c h;
  new_nvidia-info = λ info library c h. failed_made info c h;
}

entries-Describes :
    Describes entries
      (codes "nvidia")
      (codes "0000:09:00.0")
      (codes "10DE")
      (codes "2704")
      (codes "1462")
      (codes "5110")
unfolding yagc.Common.Text.Laws.has_char lookup yagc.Common.Text.text_beq
entries-Describes = record {
  driver_entry = refl;
  slot_entry = refl;
  id_line = refl;
  subsystem_line = refl;
  one_colon = refl;
  one_subsystem_colon = refl;
}

init_controller-identity_example :
    ((c : CommonControllerInfo) × (init_controller broken (codes "/sys/class/drm/card1/device")
        ≡ ok c)
      × (c.sysfs_path ≡ codes "/sys/class/drm/card1/device")
      × (c.driver ≡ codes "nvidia")
      × (build_id c ≡ codes "10DE:2704-1462:5110-0000:09:00.0"))
    ⊎ ((e : Error) × (init_controller broken (codes "/sys/class/drm/card1/device") ≡ err e)
        × (ok (
              described broken
                (codes "/sys/class/drm/card1/device")
                (codes "nvidia")
                (codes "0000:09:00.0")
                (codes "10DE")
                (codes "2704")
                (codes "1462")
                (codes "5110")
                4318)
            ≡ err e))
init_controller-identity_example =
    init_controller-identity broken (codes "/sys/class/drm/card1/device") entries (codes "nvidia")
      (codes "0000:09:00.0") (codes "10DE") (codes "2704") (codes "1462") (codes "5110") 4318 refl
      entries-IsPrintable entries-Describes refl

-- The card and one of its connectors.
abbrev cards : List (Result Text)
cards = ok (codes "card1-DP-1") ∷ ok (codes "card1") ∷ []

abbrev in_sysfs : Text → Text
in_sysfs name = name

abbrev made : CommonControllerInfo
made = record {
  sysfs_path = codes "card1";
  pci_info = record {
    device_pci_info = record {
      vendor_id = codes "10DE";
      vendor = none;
      model_id = codes "2704";
      model = none;
    };
    subsystem_pci_info = record {
      vendor_id = codes "1462";
      vendor = none;
      model_id = codes "5110";
      model = none;
    };
  };
  pci_slot_name = codes "0000:09:00.0";
  driver = codes "nvidia";
}

made_for_card : init_controller broken (codes "card1") ≡ ok made
unfolding init_controller lookup print_uevent yagc.Common.Entries.insert yagc.Common.Text.text_beq
made_for_card = refl

cards_loaded : load_controllers broken in_sysfs (ok cards) ≡ ok ((build_id made, made) ∷ [])
unfolding load_controllers lookup print_uevent yagc.Common.Entries.insert yagc.Common.Text.text_beq
cards_loaded = refl

load_controllers-IsKeyed_example :
    IsKeyed broken in_sysfs ((build_id made, made) ∷ [])
    × (same : CommonControllerInfo) × (lookup ((build_id made, made) ∷ []) (build_id made)
        ≡ some same)
    × (build_id same ≡ build_id made)
unfolding is_card
load_controllers-IsKeyed_example =
    load_controllers-IsKeyed broken in_sysfs cards ((build_id made, made) ∷ []) (codes "card1") made
      cards_loaded (later_listed first_listed) refl made_for_card

-- The first attempt finds nothing.
abbrev booting : ℕ → Found
booting zero = record { cards = ok []; devices = [] }
booting (suc zero) = record { cards = ok []; devices = [] }
booting (suc (suc n)) = record {
  cards = ok cards;
  devices = (codes "0000:09:00.0", codes "DRIVER=amdgpu") ∷ [];
}

nothing_loaded : load_controllers broken in_sysfs (ok []) ≡ ok []
unfolding load_controllers
nothing_loaded = refl

booting-Loads : (i : ℕ) → Loads broken in_sysfs booting i
booting-Loads zero = record { loads = ([], nothing_loaded) }
booting-Loads (suc zero) = record { loads = ([], nothing_loaded) }
booting-Loads (suc (suc n)) = record { loads = ((build_id made, made) ∷ [], cards_loaded) }

booted : IsComplete broken in_sysfs booting 2 ((build_id made, made) ∷ [])
unfolding should_retry yagc.Common.Text.text_beq
booted = record { loaded_then = cards_loaded; complete = refl }

find_controllers-IsComplete_example :
    (j : ℕ) × (result : List (Text × CommonControllerInfo)) × (j ≤ 1)
    × (find_controllers broken in_sysfs booting ≡ ok result)
    × IsComplete broken in_sysfs booting (1 + j) result
    × Covers broken in_sysfs booting (booting (1 + j)).devices result
find_controllers-IsComplete_example =
    find_controllers-IsComplete broken in_sysfs booting 1 ((build_id made, made) ∷ []) (omega arith)
      (λ j h. booting-Loads (1 + j)) booted
