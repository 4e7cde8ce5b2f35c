-- ===== src/Config/Profiles.antt =====
-- The profiles of the configuration: `Config::gpus`, `gpus_mut`, `profile`, `default_profile` and
-- `clear` of lact-daemon/src/config.rs.
pub mod Active
use yagc.Common.{
  Option, none, some, String, string_eq, Result, ok, err, ok_or, Error, profile_not_found,
}
use yagc.Crates.{Crates}
use yagc.Config.{Gpu, Profile, Config}

module _ (X : Crates) where
  unfoldable pub profile : Config X → String → Result (Profile X)
  profile c name = ok_or (X.get c.profiles name) (profile_not_found name)

  unfoldable pub gpus_of : Config X → Option String → Result (X.IndexMap String (Gpu X))
  gpus_of c none = ok c.gpus
  gpus_of c (some name) = elim (X.get c.profiles name) [
    | none ↦ err (profile_not_found name)
    | some p ↦ ok p.gpus
  ]

  -- The GPUs of the current profile.
  unfoldable pub gpus : Config X → Result (X.IndexMap String (Gpu X))
  unfolding gpus_of
  gpus c = gpus_of c c.current_profile

  unfoldable pub with_gpus_of :
      Config X → Option String → X.IndexMap String (Gpu X) → Result (Config X)
  with_gpus_of c none m = ok (record c { gpus = m })
  with_gpus_of c (some name) m = elim (X.get c.profiles name) [
    | none ↦ err (profile_not_found name)
    | some p ↦ ok (record c { profiles = X.set_entry c.profiles name (record p { gpus = m }) })
  ]

  -- A write through `gpus_mut`: the GPUs of the current profile are replaced by `m`.
  unfoldable pub with_gpus : Config X → X.IndexMap String (Gpu X) → Result (Config X)
  unfolding with_gpus_of
  with_gpus c m = with_gpus_of c c.current_profile m

  unfoldable pub default_profile : Config X → Profile X
  default_profile c = record { gpus = c.gpus; rule = none }

  unfoldable pub clear : Config X → Config X
  clear c = record c { gpus = X.new; profiles = X.new; current_profile = none }
