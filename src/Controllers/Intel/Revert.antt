-- ===== src/Controllers/Intel/Revert.antt =====
-- What `apply_config` of intel.rs leaves behind when the settings from before are applied again.
use yagc.Common.{
  ℕ, ℤ, pos, ◌≡◌, refl, Option, none, some, ok, err, arith, Option-cases, Result-cases, inl, inr,
  file_missing,
}
use yagc.Common.Exec.{◌>>◌}
use yagc.Common.Triples.{Preserves, bind-Preserves}
use yagc.Common.Text.{Text, codes}
use yagc.Crates.{Crates}
use yagc.Config.{F64, Gpu}
use yagc.Controllers.Intel.{
  FileSystem, IntelGpuController, FrequencyType, min_freq, max_freq, freq_path, find_name,
  hwmon_file, write_file, read_freq, write_freq, write_hwmon_file,
}
use yagc.Controllers.Intel.Clocks.{set_freq, write_power_cap, apply_config}
use yagc.Controllers.Intel.Files.{KeepsFiles, Reads, write_file-takes, write_file-Reads}

module _ (W : FileSystem) (L : KeepsFiles W) where
  write_freq-at :
      (freq : FrequencyType) (clock : ℤ) (s : IntelGpuController W) {path : W.FilePath}
      → freq_path W s freq ≡ some path
      → write_freq W freq clock s ≡ write_file W path (W.print_i32 clock) s
  unfolding write_freq
  write_freq-at freq clock s at = rw (at, write_freq) refl

  write_freq-fails :
      (freq : FrequencyType) (clock : ℤ) (s : IntelGpuController W)
      → freq_path W s freq ≡ none
      → write_freq W freq clock s ≡ (err file_missing, s)
  unfolding write_freq
  write_freq-fails freq clock s at = rw (at, write_freq) refl

  set_min-Reads :
      (path : W.FilePath) (read : Option ℕ) (clock : Option ℤ)
      → Preserves (Reads W L path read) (set_freq W min_freq clock)
  unfolding set_freq
  set_min-Reads path read none s r = r
  set_min-Reads path read (some clock) s r = elim (Option-cases (freq_path W s min_freq)) [
    | inl missing ↦ rw (write_freq-fails min_freq clock s missing) r
    | inr (other, there) ↦
        rw (write_freq-at min_freq clock s there)
          (write_file-Reads W L path other read (W.print_i32 clock) s (r.not_min other there) r)
  ]

  write_hwmon_file-fails :
      (file_prefix file_suffix contents : Text) (s : IntelGpuController W)
      → hwmon_file W file_prefix file_suffix s ≡ none
      → write_hwmon_file W file_prefix file_suffix contents s ≡ (err file_missing, s)
  unfolding write_hwmon_file
  write_hwmon_file-fails file_prefix file_suffix contents s missing =
      rw (missing, write_hwmon_file) refl

  write_hwmon_file-at :
      (file_prefix file_suffix contents : Text) (s : IntelGpuController W) {path : W.FilePath}
      → hwmon_file W file_prefix file_suffix s ≡ some path
      → write_hwmon_file W file_prefix file_suffix contents s ≡ write_file W path contents s
  unfolding write_hwmon_file
  write_hwmon_file-at file_prefix file_suffix contents s there = rw (there, write_hwmon_file) refl

  -- A file of the monitor is in its directory.
  hwmon_file-in :
      (file_prefix file_suffix : Text) (s : IntelGpuController W) (path : W.FilePath)
      → hwmon_file W file_prefix file_suffix s ≡ some path
      → (hwmon_path : W.FilePath) × (name : Text) × (s.hwmon_path ≡ some hwmon_path)
        × (W.join hwmon_path name ≡ path)
  unfolding hwmon_file
  hwmon_file-in file_prefix file_suffix s path h = elim (Option-cases s.hwmon_path) [
    | inl missing ↦ absurd (ground (arith, rw (missing, hwmon_file) at h))
    | inr (hwmon_path, there) ↦ elim (Result-cases (W.list_directory hwmon_path s.disk)) [
      | inr (e, failed) ↦ absurd (ground (arith, rw (there, failed, hwmon_file) at h))
      | inl (names, listed) ↦ elim (Option-cases (find_name file_prefix file_suffix names)) [
        | inl unknown ↦ absurd (ground (arith, rw (there, listed, unknown, hwmon_file) at h))
        | inr (name, found) ↦
            (hwmon_path, name, there, ground (arith, rw (there, listed, found, hwmon_file) at h))
      ]
    ]
  ]

  write_power_cap-Reads :
      (path : W.FilePath) (clock : Option ℕ) (power_cap : Option F64)
      → Preserves (Reads W L path clock) (write_power_cap W power_cap)
  unfolding write_power_cap
  write_power_cap-Reads path clock none s r = r
  write_power_cap-Reads path clock (some power_cap) s r =
      let limit = W.print_u64 (W.microwatts power_cap) in
      elim (Option-cases (hwmon_file W (codes "power") (codes "_max") s)) [
        | inl missing ↦ rw (write_hwmon_file-fails (codes "power") (codes "_max") limit s missing) r
        | inr (other, there) ↦
            let (hwmon_path, name, at, inside) =
              hwmon_file-in (codes "power") (codes "_max") s other there in
            rw (write_hwmon_file-at (codes "power") (codes "_max") limit s there) (
              write_file-Reads W L path other clock limit s
                (rw (inside) at (r.not_hwmon hwmon_path name at)) r)
      ]

  -- The minimal frequency and the power limit.
  the_rest-Reads :
      (path : W.FilePath) (clock : Option ℕ) (low : Option ℤ) (power_cap : Option F64)
      → Preserves (Reads W L path clock) (set_freq W min_freq low >> write_power_cap W power_cap)
  the_rest-Reads path clock low power_cap =
      bind-Preserves (Reads W L path clock) (set_freq W min_freq low)
        (λ _. write_power_cap W power_cap) (set_min-Reads path clock low)
        (λ _. write_power_cap-Reads path clock power_cap)

  -- Settings without a maximal clock leave it as it is, whatever else they have, and also if they
  -- cannot be applied.
  apply_config-keeps_max :
      (X : Crates) (config : Gpu X) (path : W.FilePath) (clock : Option ℕ)
      (s : IntelGpuController W)
      → config.clocks_configuration.max_core_clock ≡ none
      → Reads W L path clock s
      → Reads W L path clock (apply_config X W config s).1
  unfolding apply_config
  apply_config-keeps_max X config path clock s unset r =
      rw (unset, set_freq)
        (the_rest-Reads path clock config.clocks_configuration.min_core_clock config.power_cap s r)

  apply_config-sets_max :
      (X : Crates) (config : Gpu X) (path : W.FilePath) (before : Option ℕ) (n : ℕ)
      (s : IntelGpuController W)
      → config.clocks_configuration.max_core_clock ≡ some (pos n)
      → Reads W L path before s
      → (apply_config X W config s).0 ≡ ok tt
      → Reads W L path (some (L.rounded path n)) (apply_config X W config s).1
  unfolding apply_config
  apply_config-sets_max X config path before n s set r done =
      let wrote = write_freq-at max_freq (pos n) s r.at in
      let rest =
        the_rest-Reads path (some (L.rounded path n)) config.clocks_configuration.min_core_clock
          config.power_cap in
      elim (Result-cases (write_file W path (W.print_i32 (pos n)) s).0) [
        | inl (u, good) ↦
            rw (set, set_freq, wrote, good)
              (rest (write_file W path (W.print_i32 (pos n)) s).1
                (write_file-takes W L path before n s r good))
        | inr (e, failed) ↦
            absurd (ground (arith, failed, rw (set, set_freq, wrote, failed) at done))
      ]

  read_freq-Reads :
      (path : W.FilePath) (clock : Option ℕ) (s : IntelGpuController W)
      → Reads W L path clock s
      → read_freq W max_freq s ≡ clock
  unfolding read_freq
  read_freq-Reads path clock s r = rw (r.at, read_freq) r.reads

  -- When settings with a maximal clock were applied, and then settings from before without one, as
  -- for a change that is not confirmed, the GPU still has the maximal clock that the driver made of
  -- the one asked for, whatever the two say about the minimal clock and the power limit, and whether
  -- the second call succeeds or not. The file of the maximal frequency is none of the others that
  -- are written.
  pub apply_config-reverted :
      (X : Crates) (changed previous : Gpu X) (path : W.FilePath) (before : Option ℕ) (n : ℕ)
      (s : IntelGpuController W)
      → changed.clocks_configuration.max_core_clock ≡ some (pos n)
      → previous.clocks_configuration.max_core_clock ≡ none
      → Reads W L path before s
      → (apply_config X W changed s).0 ≡ ok tt
      → read_freq W max_freq (apply_config X W previous (apply_config X W changed s).1).1
        ≡ some (L.rounded path n)
  apply_config-reverted X changed previous path before n s set unset r done =
      read_freq-Reads path (some (L.rounded path n))
        (apply_config X W previous (apply_config X W changed s).1).1
        (apply_config-keeps_max X previous path (some (L.rounded path n))
          (apply_config X W changed s).1 unset
          (apply_config-sets_max X changed path before n s set r done))
