-- ===== src/Controllers/Discovery.antt =====
-- How the GPUs are found: `load_controllers` of lact-daemon/src/server/handler.rs, and the attempts
-- of `Handler::with_base_path`, since sysfs may not be complete yet when the daemon starts.
pub mod Attempts
pub mod Loaded
use yagc.Common.{
  ℕ, zero, suc, Bool, true, false, ◌≡◌, Option, none, some, List, [], ◌∷◌, ◌++◌, ◌||◌, ◌&&◌, not,
  ◌==◌, is_empty, Result, ok, err, Error, if◌then◌else◌,
}
use yagc.Common.Entries.{insert}
use yagc.Common.Text.{Text, codes, starts_with, contains}
use yagc.Common.Text.Laws.{text_eq}
use yagc.Controllers.Uevent.{build_id, CommonControllerInfo}
use yagc.Controllers.Uevent.Init.{System, init_controller}

-- `card0` and the like, but not the connectors `card0-DP-1`
unfoldable pub is_card : Text → Bool
unfolding starts_with contains
is_card name = starts_with (codes "card") name && not (contains (codes "-") name)

-- `CONTROLLERS_LOAD_RETRY_ATTEMPTS`
abbrev pub controllers_load_retry_attempts : ℕ
controllers_load_retry_attempts = 5

-- What an attempt finds: the directory of the cards, and the readable devices of the PCI bus.
pub record Found : Type 0 where
  pub cards : Result (List (Result Text))
  pub devices : List (Text × Text)

module _ (S : System) where
  -- A controller that cannot be made is logged; a `BTreeMap` has each id once.
  unfoldable pub add_controller :
      Result S.Controller → List (Text × S.Controller) → List (Text × S.Controller)
  unfolding build_id
  add_controller (err e) controllers = controllers
  add_controller (ok controller) controllers =
      insert controllers (build_id (S.controller_info controller)) controller

  -- The entries of the directory, of which one may be unreadable or have a name that is no text.
  -- The path of a device comes from the name of its card.
  unfoldable pub load_entries :
      (Text → Text)
      → List (Result Text)
      → List (Text × S.Controller)
      → Result (List (Text × S.Controller))
  unfolding is_card add_controller init_controller
  load_entries device_path [] controllers = ok controllers
  load_entries device_path (err e ∷ rest) controllers = err e
  load_entries device_path (ok name ∷ rest) controllers = load_entries device_path rest (
      if is_card name
      then add_controller (init_controller S (device_path name)) controllers
      else controllers)

  unfoldable pub load_controllers :
      (Text → Text) → Result (List (Result Text)) → Result (List (Text × S.Controller))
  unfolding load_entries
  load_controllers device_path (err e) = err e
  load_controllers device_path (ok entries) = load_entries device_path entries []

  -- Whether a device of the PCI bus has a controller.
  unfoldable pub has_slot : Text → List (Text × S.Controller) → Bool
  has_slot slot_name [] = false
  has_slot slot_name ((id, controller) ∷ rest) =
      (S.controller_info controller).pci_slot_name == slot_name || has_slot slot_name rest

  -- The devices are the names of their slots with what their `uevent` says, without NUL characters.
  unfoldable pub misses_device : List (Text × Text) → List (Text × S.Controller) → Bool
  unfolding contains has_slot
  misses_device [] controllers = false
  misses_device ((slot_name, uevent) ∷ rest) controllers =
      ((contains (codes "amdgpu") uevent || contains (codes "radeon") uevent)
        && not (has_slot slot_name controllers))
      || misses_device rest controllers

  unfoldable pub should_retry : List (Text × Text) → List (Text × S.Controller) → Bool
  unfolding misses_device
  should_retry devices controllers = misses_device devices controllers || is_empty controllers

  -- So many attempts, from a number on; the last one is taken as it is.
  unfoldable pub attempts :
      (Text → Text)
      → (ℕ → Found)
      → ℕ
      → ℕ
      → List (Text × S.Controller)
      → Result (List (Text × S.Controller))
  unfolding load_controllers should_retry
  attempts device_path found i zero controllers = ok controllers
  attempts device_path found i (suc n) controllers =
      elim (load_controllers device_path (found i).cards) [
        | err e ↦ err e
        | ok loaded ↦
            let later = attempts device_path found (suc i) n loaded in
            if should_retry (found i).devices loaded then later else ok loaded
      ]

  unfoldable pub find_controllers :
      (Text → Text) → (ℕ → Found) → Result (List (Text × S.Controller))
  unfolding attempts
  find_controllers device_path found =
      attempts device_path found 1 controllers_load_retry_attempts []
