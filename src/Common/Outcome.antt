-- ===== src/Common/Outcome.antt =====
-- `anyhow::Result`: a value, or an error. Of the error messages the model keeps the reason, not
-- the text, and `Context` lines around them are left out.
use Prim.Native.String.{String}
use mathlib.Core.Path.{◌≡◌, refl}
use mathlib.Core.Logic.{◌⊎◌, inl, inr}
use mathlib.Core.Option.{Option, none, some}

pub data Error : Type 0 where
  -- "Could not find profile", "Profile … not found"
  profile_not_found : String → Error
  profile_exists : String → Error
  index_out_of_bounds : Error
  unconfirmed_change_pending : Error
  no_pending_changes : Error
  could_not_confirm : Error
  controller_not_found : String → Error
  -- an error that a GPU controller returns
  controller_failed : Error
  -- the configuration could not be written
  save_failed : Error
  watcher_inactive : Error
  speed_out_of_range : Error
  percentage_out_of_range : Error
  -- "The GPU only supports … curve points, given …"
  wrong_number_of_points : Error
  curve_not_modifiable : Error
  -- what the controllers for the vendors' GPUs refuse
  invalid_pstate : Error
  no_fans : Error
  no_fan_settings : Error
  empty_fan_curve : Error
  manual_level_required : Error
  no_monitor : Error
  no_temperature : Error
  file_missing : Error
  -- "… entry missing in 'uevent'", and a number that cannot be parsed
  entry_missing : Error
  invalid_number : Error

pub data Result {ℓ} (A : Type ℓ) : Type ℓ where
  ok : A → Result A
  err : Error → Result A

-- `Option::with_context`.
abbrev pub ok_or {ℓ} : {A : Type ℓ} → Option A → Error → Result A
ok_or none e = err e
ok_or (some a) e = ok a

pub Result-cases {ℓ} :
    {A : Type ℓ} (r : Result A)
    → ((value : A) × (r ≡ ok value)) ⊎ ((reason : Error) × (r ≡ err reason))
Result-cases (ok value) = inl (value, refl)
Result-cases (err reason) = inr (reason, refl)
