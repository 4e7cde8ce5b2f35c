-- ===== src/Controllers/Intel/Files.antt =====
-- What the files of sysfs are relied on for, and what a write leaves in them, for `write_file` and
-- `read_file` of intel.rs.
use yagc.Common.{ℕ, pos, true, ◌≡◌, ◌≢◌, refl, ◌∙◌, Option, some, ok, arith, Bool-cases, inl, inr}
use yagc.Common.Text.{Text}
use yagc.Controllers.Intel.{
  FileSystem, IntelGpuController, FrequencyType, min_freq, max_freq, freq_path, read_file,
  write_file,
}

-- What sysfs does with a number that is written to the file of a frequency: the file stays there,
-- and then has a text, maybe with more white space, that is read as the number that the driver makes
-- of it, which may be a rounded one. Writing to one file does not change what is read from another.
pub record KeepsFiles (W : FileSystem) : Type 0 where
  pub rounded : W.FilePath → ℕ → ℕ
  pub holds :
      (path : W.FilePath) (n : ℕ) (d : W.Disk)
      → W.exists path d ≡ true
      → (W.write path (W.print_i32 (pos n)) d).0 ≡ ok tt
      → (contents : Text) × (W.read_to_string path (W.write path (W.print_i32 (pos n)) d).1
          ≡ ok contents)
        × (W.parse_u64 contents ≡ some (rounded path n))
  pub stays :
      (path other : W.FilePath) (contents : Text) (d : W.Disk)
      → W.exists path (W.write other contents d).1 ≡ W.exists path d
  pub apart :
      (path other : W.FilePath) (contents : Text) (d : W.Disk)
      → other ≢ path
      → W.read_to_string path (W.write other contents d).1 ≡ W.read_to_string path d

module _ (W : FileSystem) (L : KeepsFiles W) where
  -- The file of the maximal frequency is that one, no other file that `apply_config` writes is the
  -- same, and a frequency is read from it.
  pub record Reads (path : W.FilePath) (clock : Option ℕ) (s : IntelGpuController W) : Type 0 where
    pub at : freq_path W s max_freq ≡ some path
    pub not_min : (other : W.FilePath) → freq_path W s min_freq ≡ some other → other ≢ path
    pub not_hwmon :
        (hwmon_path : W.FilePath) (name : Text)
        → s.hwmon_path ≡ some hwmon_path
        → W.join hwmon_path name ≢ path
    pub reads : read_file W path s ≡ clock

  freq_path-disk :
      (freq : FrequencyType) (s : IntelGpuController W) (d : W.Disk)
      → freq_path W (record s { disk = d }) freq ≡ freq_path W s freq
  unfolding freq_path
  freq_path-disk freq s d = refl

  -- Another content of the disk in which the file reads so.
  Reads-disk :
      (path : W.FilePath) (before after : Option ℕ) (s : IntelGpuController W) (d : W.Disk)
      → Reads path before s
      → read_file W path (record s { disk = d }) ≡ after
      → Reads path after (record s { disk = d })
  Reads-disk path before after s d r now = record {
    at = freq_path-disk max_freq s d ∙ r.at;
    not_min = λ other h. r.not_min other (rw (freq_path-disk min_freq s d) at h);
    not_hwmon = r.not_hwmon;
    reads = now;
  }

  -- A write to the file itself.
  pub write_file-takes :
      (path : W.FilePath) (before : Option ℕ) (n : ℕ) (s : IntelGpuController W)
      → Reads path before s
      → (write_file W path (W.print_i32 (pos n)) s).0 ≡ ok tt
      → Reads path (some (L.rounded path n)) (write_file W path (W.print_i32 (pos n)) s).1
  unfolding write_file read_file
  write_file-takes path before n s r done = elim (Bool-cases (W.exists path s.disk)) [
    | inl there ↦
        let written = rw (there) at done in
        let (contents, text, number) = L.holds path n s.disk there written in
        rw (there) (
          Reads-disk path before (some (L.rounded path n)) s
            (W.write path (W.print_i32 (pos n)) s.disk).1 r
            (rw (L.stays path path (W.print_i32 (pos n)) s.disk, there, text) number))
    | inr missing ↦ absurd (ground (arith, missing, done))
  ]

  -- A write to another file, whether it succeeds or not.
  pub write_file-Reads :
      (path other : W.FilePath) (clock : Option ℕ) (contents : Text) (s : IntelGpuController W)
      → other ≢ path
      → Reads path clock s
      → Reads path clock (write_file W other contents s).1
  unfolding write_file read_file
  write_file-Reads path other clock contents s differs r =
      elim (Bool-cases (W.exists other s.disk)) [
        | inl there ↦ rw (there) (
            Reads-disk path clock clock s (W.write other contents s.disk).1 r (
              rw (L.stays path other contents s.disk, L.apart path other contents s.disk differs)
                r.reads))
        | inr missing ↦ rw (missing) r
      ]
