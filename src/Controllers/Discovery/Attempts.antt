-- ===== src/Controllers/Discovery/Attempts.antt =====
-- The attempts to find the GPUs end with a complete set as soon as there is one.
use yagc.Common.{
  ℕ, zero, suc, ◌+◌, ◌≤◌, ◌<◌, false, ◌≡◌, refl, ◌∙◌, List, [], ◌∷◌, ◌||◌, true, is_empty, ok,
  if◌then◌else◌, Bool-cases, inl, inr, arith,
}
use yagc.Common.Text.{Text, codes, contains}
use yagc.Controllers.Uevent.Init.{System}
use yagc.Controllers.Discovery.{
  Found, load_controllers, has_slot, misses_device, should_retry, attempts, find_controllers,
  controllers_load_retry_attempts,
}

add_zero : (i : ℕ) → i + 0 ≡ i
add_zero i = omega arith

add_suc : (i j : ℕ) → i + suc j ≡ suc i + j
add_suc i j = omega arith

pub data IsDevice (slot_name uevent : Text) : List (Text × Text) → Type 0 where
  first_device :
      {rest : List (Text × Text)} → IsDevice slot_name uevent ((slot_name, uevent) ∷ rest)
  later_device :
      {device : Text × Text} {rest : List (Text × Text)}
      → IsDevice slot_name uevent rest
      → IsDevice slot_name uevent (device ∷ rest)

module _ (S : System) (device_path : Text → Text) (found : ℕ → Found) where
  -- An attempt that loads some controllers, and one after which no device is missing.
  pub record Loads (i : ℕ) : Type 0 where
    pub loads :
        (loaded : List (Text × S.Controller)) × (load_controllers S device_path (found i).cards
          ≡ ok loaded)

  pub record IsComplete (i : ℕ) (loaded : List (Text × S.Controller)) : Type 0 where
    pub loaded_then : load_controllers S device_path (found i).cards ≡ ok loaded
    pub complete : should_retry S (found i).devices loaded ≡ false

  attempts-suc :
      (i n : ℕ) (before loaded : List (Text × S.Controller))
      → load_controllers S device_path (found i).cards ≡ ok loaded
      → attempts S device_path found i (suc n) before ≡ (
          if should_retry S (found i).devices loaded
          then attempts S device_path found (suc i) n loaded
          else ok loaded)
  unfolding attempts
  attempts-suc i n before loaded h = rw (h, attempts) refl

  attempts-IsComplete :
      (n k i : ℕ) (before : List (Text × S.Controller)) {last : List (Text × S.Controller)}
      → k < n
      → ((j : ℕ) → j ≤ k → Loads (i + j))
      → IsComplete (i + k) last
      → (j : ℕ) × (result : List (Text × S.Controller)) × (j ≤ k)
        × (attempts S device_path found i n before ≡ ok result)
        × IsComplete (i + j) result
  attempts-IsComplete zero k i before less loads last = absurd (omega arith)
  attempts-IsComplete (suc n) zero i before {last} less loads ready =
      let now : IsComplete i last = rw (add_zero i) at ready in
      (
        0,
        last,
        omega arith,
        attempts-suc i n before last now.loaded_then ∙ rw (now.complete) refl,
        rw (add_zero i) now,
      )
  attempts-IsComplete (suc n) (suc k) i before {last} less loads ready =
      let (loaded, here) = (rw (add_zero i) at (loads 0 (omega arith))).loads in
      elim (Bool-cases (should_retry S (found i).devices loaded)) [
        | inl again ↦
            let (j, result, early, ended, complete) =
              attempts-IsComplete n k (suc i) loaded (omega arith)
                (λ j h. rw (← add_suc i j) (loads (suc j) (omega arith)))
                (rw (add_suc i k) at ready) in
            (
              suc j,
              result,
              omega arith,
              attempts-suc i n before loaded here ∙ rw (again) ended,
              rw (add_suc i j) complete,
            )
        | inr complete ↦ (
          0,
          loaded,
          omega arith,
          attempts-suc i n before loaded here ∙ rw (complete) refl,
          rw (add_zero i) (record { loaded_then = here; complete = complete }),
        )
      ]

  -- Some controller was made, and one for each device of the bus that names the driver of AMD cards.
  pub record Covers (devices : List (Text × Text)) (loaded : List (Text × S.Controller))
      : Type 0 where
    pub some_made : is_empty loaded ≡ false
    pub amd_made :
        (slot_name uevent : Text)
        → IsDevice slot_name uevent devices
        → (contains (codes "amdgpu") uevent || contains (codes "radeon") uevent) ≡ true
        → has_slot S slot_name loaded ≡ true

  misses_device-false :
      (devices : List (Text × Text)) (loaded : List (Text × S.Controller)) (slot_name uevent : Text)
      → misses_device S devices loaded ≡ false
      → IsDevice slot_name uevent devices
      → (contains (codes "amdgpu") uevent || contains (codes "radeon") uevent) ≡ true
      → has_slot S slot_name loaded ≡ true
  unfolding misses_device
  misses_device-false [] loaded slot_name uevent h there amd = elim there [ ]
  misses_device-false (_ ∷ rest) loaded slot_name uevent h first_device amd = ground (arith, h, amd)
  misses_device-false (_ ∷ rest) loaded slot_name uevent h (later_device there) amd =
      misses_device-false rest loaded slot_name uevent (ground (arith, h)) there amd

  IsComplete-Covers :
      (i : ℕ) (loaded : List (Text × S.Controller))
      → IsComplete i loaded
      → Covers (found i).devices loaded
  unfolding should_retry
  IsComplete-Covers i loaded c = record {
    some_made = ground (arith, c.complete);
    amd_made = λ slot_name uevent there amd.
        misses_device-false (found i).devices loaded slot_name uevent (ground (arith, c.complete))
          there amd;
  }

  -- If at one of the five attempts the cards can be read as at those before it, and there is no
  -- reason to retry after it, the daemon ends up with the controllers of an attempt, at the latest
  -- of that one, at which some controller was made, and one for every device of the PCI bus whose
  -- `uevent` names the driver amdgpu or radeon. Devices with other drivers are not looked for.
  pub find_controllers-IsComplete :
      (k : ℕ) (last : List (Text × S.Controller))
      → k < controllers_load_retry_attempts
      → ((j : ℕ) → j ≤ k → Loads (1 + j))
      → IsComplete (1 + k) last
      → (j : ℕ) × (result : List (Text × S.Controller)) × (j ≤ k)
        × (find_controllers S device_path found ≡ ok result)
        × IsComplete (1 + j) result
        × Covers (found (1 + j)).devices result
  unfolding find_controllers
  find_controllers-IsComplete k last less loads ready =
      let (j, result, early, ended, complete) =
        attempts-IsComplete controllers_load_retry_attempts k 1 [] less loads ready in
      (j, result, early, ended, complete, IsComplete-Covers (1 + j) result complete)
