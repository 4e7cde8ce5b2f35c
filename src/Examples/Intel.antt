-- ===== src/Examples/Intel.antt =====
-- An Intel card whose files are a maximal frequency and an energy counter.
use yagc.Common.{
  ap, ◌∙◌, ◌≢◌, ◌==◌, ◌++◌, ◌<◌, ◌+◌, eq_self, test-eq-false, if◌then◌else◌, arith, ◌≡◌, refl, ◌↔◌,
  ℕ, ℤ, pos, negsuc, true, false, Option, none, some, List, [], ◌∷◌, ok,
}
use yagc.Common.Text.{Text, codes, text_beq}
use yagc.Common.Text.Laws.{text_eq}
use yagc.FanCurve.{panic}
use yagc.Config.{Gpu, default_gpu, default_clocks}
use yagc.Controllers.Intel.{
  FileSystem, IntelGpuController, i915, xe, freq_path, read_file, min_freq, max_freq, read_freq,
  read_hwmon_file,
}
use yagc.Controllers.Intel.Clocks.{apply_config}
use yagc.Controllers.Intel.Files.{KeepsFiles, Reads}
use yagc.Controllers.Intel.Revert.{apply_config-reverted}
use yagc.Controllers.Intel.Energy.{get_power_usage, get_power_usage_panics_iff}
use yagc.Controllers.Intel.Memory.{IntelVramInfo, I915Region, get_vram_info}
use yagc.Examples.{crates}

-- A text is a number in one digit of a large base, and more that is not read.
abbrev read_number : Text → Option ℕ
read_number (n ∷ rest) = some n
read_number _ = none

abbrev write_number : ℤ → Text
write_number (pos n) = n ∷ []
write_number (negsuc n) = n ∷ n ∷ []

-- Each path is a file, to which a line is written.
abbrev files : FileSystem
files = record {
  FilePath = Text;
  join = λ path name. path ++ (47 ∷ name);
  Disk = Text → Text;
  exists = λ path d. true;
  read_to_string = λ path d. ok (d path);
  write = λ path contents d. (ok tt, λ q. if path == q then contents ++ (10 ∷ []) else d q);
  list_directory = λ path d. ok (codes "energy1_input" ∷ []);
  parse_u64 = read_number;
  print_i32 = write_number;
  print_u64 = λ n. n ∷ [];
  microwatts = λ watts. watts;
}

written : (path contents old : Text) → (if path == path then contents else old) ≡ contents
written path contents old = rw (eq_self path) refl

not_written :
    (path other contents old : Text)
    → other ≢ path
    → (if other == path then contents else old) ≡ old
not_written path other contents old differs = rw (test-eq-false other path differs) refl

abbrev files-KeepsFiles : KeepsFiles files
files-KeepsFiles = record {
  rounded = λ path n. n;
  holds = λ path n d h w. (n ∷ 10 ∷ [], ap ok (written path (n ∷ 10 ∷ []) (d path)), refl);
  stays = λ path other contents d. refl;
  apart = λ path other contents d differs.
      ap ok (not_written path other (contents ++ (10 ∷ [])) (d path) differs);
}

abbrev card : IntelGpuController files
card = record {
  driver_type = xe;
  card_path = [];
  tile_gts = codes "gt0" ∷ [];
  hwmon_path = some (codes "hwmon0");
  disk = λ path. 900 ∷ 10 ∷ [];
  last_energy_value = some (5000900000, 700);
}

abbrev slower : Gpu crates
slower = record (default_gpu crates) {
  clocks_configuration = record (default_clocks crates) { max_core_clock = some (pos 600) };
}

slower_applied : (apply_config crates files slower card).0 ≡ ok tt
unfolding apply_config
slower_applied = refl

abbrev highest : Text
highest = codes "gt0/freq0/max_freq"

not_lowest : (other : Text) → freq_path files card min_freq ≡ some other → other ≢ highest
unfolding freq_path text_beq
not_lowest other h e =
    let same : codes "gt0/freq0/min_freq" ≡ highest = ground (arith, h, e) in
    absurd (ground (arith, (text_eq.test_iff (codes "gt0/freq0/min_freq") highest).1 same))

not_monitor : (name : Text) → (codes "hwmon0" ++ (47 ∷ name)) ≢ highest
unfolding text_beq
not_monitor name e =
    absurd (ground (arith, (text_eq.test_iff (codes "hwmon0" ++ (47 ∷ name)) highest).1 e))

monitor : (path : Text) → some (codes "hwmon0") ≡ some path → codes "hwmon0" ≡ path
monitor path h = ground (arith, h)

card-Reads : Reads files files-KeepsFiles highest (some 900) card
unfolding freq_path read_file
card-Reads = record {
  at = refl;
  not_min = not_lowest;
  not_hwmon = λ hwmon_path name h e.
      not_monitor name (ap (λ path. path ++ (47 ∷ name)) (monitor hwmon_path h) ∙ e);
  reads = refl;
}

-- The settings from before have a minimal clock.
abbrev before_that : Gpu crates
before_that = record (default_gpu crates) {
  clocks_configuration = record (default_clocks crates) { min_core_clock = some (pos 300) };
}

apply_config-reverted_example :
    read_freq files max_freq
      (apply_config crates files before_that (apply_config crates files slower card).1).1
    ≡ some 600
apply_config-reverted_example =
    apply_config-reverted files files-KeepsFiles crates slower before_that highest (some 900) 600
      card refl refl card-Reads slower_applied

-- Another reading a fifth of a millisecond later.
get_power_usage_panics_iff_example : ((get_power_usage files 5001100000 card).0 ≡ panic) ↔ (
    (read_hwmon_file files (codes "power") (codes "_input") card ≡ none)
    × (energy : ℕ) × (read_hwmon_file files (codes "energy") (codes "_input") card ≡ some energy)
    × (last_timestamp : ℕ) × (last_energy : ℕ) × (card.last_energy_value
        ≡ some (last_timestamp, last_energy))
    × (5001100000 < last_timestamp + 1000000))
get_power_usage_panics_iff_example = get_power_usage_panics_iff files 5001100000 card (omega arith)

-- Memory of the machine and of the card, a part of which the processor reaches.
abbrev regions : List I915Region
regions =
    record {
      memory_class = 0;
      probed_size = 64;
      unallocated_size = 1;
      probed_cpu_visible_size = 64;
      unallocated_cpu_visible_size = 1;
    }
    ∷ record {
      memory_class = 1;
      probed_size = 16;
      unallocated_size = 10;
      probed_cpu_visible_size = 8;
      unallocated_cpu_visible_size = 5;
    }
    ∷ []

abbrev reported : IntelVramInfo
reported = record {
  total = 16;
  used = 6;
  cpu_accessible_used = 3;
  cpu_accessible_total = 8;
  resizeable_bar = some false;
}

vram_reported : get_vram_info 1 1 (some regions) none i915 ≡ reported
unfolding get_vram_info
vram_reported = refl
