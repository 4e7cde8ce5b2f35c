-- ===== src/Config/Migration/Effect.antt =====
-- What the migration does to each GPU of the configuration and of each profile.
use yagc.Common.{
  ◌≡◌, refl, ℕ, zero, suc, ◌+◌, ◌<◌, ◌^◌, Bool, true, false, Option, none, some, String, string_eq,
  arith, if◌then◌else◌,
}
use mathlib.Core.Option
use text.Mathlib.Text.{starts_with}
use yagc.Crates.{Crates}
use yagc.Crates.Maps.{get-update_values}
use yagc.Config.{ClocksConfiguration, Gpu, Profile, Config}
use yagc.Config.Migration.{
  vendor_nvidia, finished, clear_memory_clocks, clear_max_clocks, migrate_gpu, migrate_gpus,
  migrate_loop, migrate_versions,
}

module _ (X : Crates) where
  -- The settings of an Nvidia card that mean something else since the version in question.
  abbrev pub outdated_cleared : ℕ → ClocksConfiguration X → ClocksConfiguration X
  outdated_cleared zero clocks = record clocks {
    max_core_clock = none;
    max_memory_clock = none;
    min_memory_clock = none;
  }
  outdated_cleared (suc zero) clocks = record clocks {
    max_core_clock = none;
    max_memory_clock = none;
  }
  outdated_cleared (suc (suc v)) clocks = clocks

  abbrev pub migrated_gpu : ℕ → String → Gpu X → Gpu X
  migrated_gpu v id gpu =
      if starts_with id vendor_nvidia
      then record gpu { clocks_configuration = outdated_cleared v gpu.clocks_configuration }
      else gpu

  abbrev pub final_version : ℕ → ℕ
  final_version zero = 2
  final_version (suc zero) = 2
  final_version v = v

  -- Every GPU, by itself, in a map of them.
  abbrev pub GpusMigrated : ℕ → X.IndexMap String (Gpu X) → X.IndexMap String (Gpu X) → Type 0
  GpusMigrated v m n = (id : String) → X.get n id ≡ Option.map (migrated_gpu v id) (X.get m id)

  abbrev pub ProfileMigrated : ℕ → Option (Profile X) → Option (Profile X) → Type 0
  ProfileMigrated v (some p) (some q) = GpusMigrated v p.gpus q.gpus × (q.rule ≡ p.rule)
  ProfileMigrated v none none = ◌≡◌ {A = Bool} true true
  ProfileMigrated v _ _ = ◌≡◌ {A = Bool} true false

  -- The configuration `d` is `c`, migrated from `c.version`.
  pub record IsMigrated (c d : Config X) : Type 0 where
    pub version : d.version ≡ final_version c.version
    pub gpus : GpusMigrated c.version c.gpus d.gpus
    pub profiles :
        (name : String) → ProfileMigrated c.version (X.get c.profiles name) (X.get d.profiles name)
    pub others : record d { version = c.version; gpus = c.gpus; profiles = c.profiles } ≡ c

  -- The rounds that a version asks for.
  abbrev rounds : ℕ → Config X → Config X
  rounds zero c =
      record (migrate_gpus X (clear_max_clocks X)
        (record (migrate_gpus X (clear_memory_clocks X) c) { version = 1 })) { version = 2 }
  rounds (suc zero) c = record (migrate_gpus X (clear_max_clocks X) c) { version = 2 }
  rounds (suc (suc v)) c = c

  migrate_versions-rounds :
      (v : ℕ) (c : Config X)
      → c.version ≡ v
      → v + 1 < 2 ^ 64
      → migrate_versions X c ≡ finished (rounds v c)
  unfolding migrate_versions
  migrate_versions-rounds zero c e h = rw (e, migrate_loop)
  migrate_versions-rounds (suc zero) c e h = rw (e, migrate_loop)
  migrate_versions-rounds (suc (suc v)) c e h = ground arith

  abbrev first_round : X.IndexMap String (Gpu X) → X.IndexMap String (Gpu X)
  first_round m = X.update_values (migrate_gpu X (clear_memory_clocks X)) m

  abbrev second_round : X.IndexMap String (Gpu X) → X.IndexMap String (Gpu X)
  second_round m = X.update_values (migrate_gpu X (clear_max_clocks X)) m

  both_rounds-GpusMigrated :
      (m : X.IndexMap String (Gpu X)) → GpusMigrated 0 m (second_round (first_round m))
  unfolding migrate_gpu clear_memory_clocks clear_max_clocks
  both_rounds-GpusMigrated m id = ground (
    arith,
    get-update_values X (migrate_gpu X (clear_max_clocks X)) (first_round m) id,
    get-update_values X (migrate_gpu X (clear_memory_clocks X)) m id,
  )

  second_round-GpusMigrated : (m : X.IndexMap String (Gpu X)) → GpusMigrated 1 m (second_round m)
  unfolding migrate_gpu clear_max_clocks
  second_round-GpusMigrated m id =
      ground (arith, get-update_values X (migrate_gpu X (clear_max_clocks X)) m id)

  no_round-GpusMigrated : (v : ℕ) (m : X.IndexMap String (Gpu X)) → GpusMigrated (suc (suc v)) m m
  no_round-GpusMigrated v m id = ground arith

  rounds-gpus : (v : ℕ) (c : Config X) → GpusMigrated v c.gpus (rounds v c).gpus
  unfolding migrate_gpus
  rounds-gpus zero c = both_rounds-GpusMigrated c.gpus
  rounds-gpus (suc zero) c = second_round-GpusMigrated c.gpus
  rounds-gpus (suc (suc v)) c = no_round-GpusMigrated v c.gpus

  abbrev on_gpus : (X.IndexMap String (Gpu X) → X.IndexMap String (Gpu X)) → Profile X → Profile X
  on_gpus f p = record p { gpus = f p.gpus }

  ProfileMigrated-map :
      (v : ℕ) (f : X.IndexMap String (Gpu X) → X.IndexMap String (Gpu X)) (o : Option (Profile X))
      → ((m : X.IndexMap String (Gpu X)) → GpusMigrated v m (f m))
      → ProfileMigrated v o (Option.map (on_gpus f) o)
  ProfileMigrated-map v f none h = refl
  ProfileMigrated-map v f (some p) h = (h p.gpus, refl)

  profiles_round :
      (f : X.IndexMap String (Gpu X) → X.IndexMap String (Gpu X))
      (m : X.IndexMap String (Profile X)) (name : String)
      → X.get (X.update_values (λ _. on_gpus f) m) name ≡ Option.map (on_gpus f) (X.get m name)
  profiles_round f m name = get-update_values X (λ _. on_gpus f) m name

  Option-map-map :
      (f g : X.IndexMap String (Gpu X) → X.IndexMap String (Gpu X)) (o : Option (Profile X))
      → Option.map (on_gpus f) (Option.map (on_gpus g) o) ≡ Option.map (on_gpus (λ m. f (g m))) o
  Option-map-map f g none = refl
  Option-map-map f g (some p) = refl

  rounds-profiles :
      (v : ℕ) (c : Config X) (name : String)
      → ProfileMigrated v (X.get c.profiles name) (X.get (rounds v c).profiles name)
  unfolding migrate_gpus
  rounds-profiles zero c name =
      rw
        (
          profiles_round second_round _ name,
          profiles_round first_round c.profiles name,
          Option-map-map second_round first_round (X.get c.profiles name),
        )
        (ProfileMigrated-map 0 (λ m. second_round (first_round m)) (X.get c.profiles name)
          both_rounds-GpusMigrated)
  rounds-profiles (suc zero) c name =
      rw (profiles_round second_round c.profiles name)
        (ProfileMigrated-map 1 second_round (X.get c.profiles name) second_round-GpusMigrated)
  rounds-profiles (suc (suc v)) c name =
      elim (X.get c.profiles name) as (λ o. ProfileMigrated (suc (suc v)) o o) [
        | none ↦ refl
        | some p ↦ (no_round-GpusMigrated v p.gpus, refl)
      ]

  rounds-version : (v : ℕ) (c : Config X) → c.version ≡ v → (rounds v c).version ≡ final_version v
  rounds-version zero c e = refl
  rounds-version (suc zero) c e = refl
  rounds-version (suc (suc v)) c e = e

  rounds-others :
      (v : ℕ) (c : Config X)
      → c.version ≡ v
      → record (rounds v c) { version = c.version; gpus = c.gpus; profiles = c.profiles } ≡ c
  unfolding migrate_gpus
  rounds-others zero c e = refl
  rounds-others (suc zero) c e = refl
  rounds-others (suc (suc v)) c e = refl

  -- From any version but the last that a `u64` holds, the migration ends, and of every GPU of the
  -- configuration and of every profile it clears exactly the outdated settings: from version 0 an
  -- Nvidia card's maximal core clock and both memory clocks, from version 1 its two maximal clocks.
  -- Other cards, all other settings, and configurations of a later version are left as they were.
  pub migrate_versions-IsMigrated :
      (c : Config X)
      → c.version + 1 < 2 ^ 64
      → (d : Config X) × (migrate_versions X c ≡ finished d) × IsMigrated c d
  unfolding migrate_gpus
  migrate_versions-IsMigrated c h = (
    rounds c.version c,
    migrate_versions-rounds c.version c refl h,
    record {
      version = rounds-version c.version c refl;
      gpus = rounds-gpus c.version c;
      profiles = rounds-profiles c.version c;
      others = rounds-others c.version c refl;
    },
  )
