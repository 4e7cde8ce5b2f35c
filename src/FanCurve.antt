-- ===== src/FanCurve.antt =====
-- lact-daemon/src/server/gpu_controller/fan_control.rs: the speed of a fan at a temperature, and a
-- curve for the GPU's own fan control. The arithmetic of `f32` is a parameter, of which the laws are
-- what IEEE 754 and the casts of the language say; values are bit patterns, as in the configuration.
pub mod Pwm
pub mod Pmfw
pub mod Task
use yagc.Common.{
  ℕ, ◌≤◌, ◌≡◌, ℤ, ◌<ℤ◌, ◌-ℤ◌, wrap_i32, Bool, true, false, Option, none, some, List, [], ◌∷◌, map,
  nat_beq, ltb, length, not, if◌then◌else◌, Result, ok, err, percentage_out_of_range,
  wrong_number_of_points, curve_not_modifiable,
}
use yagc.Config.{F32, FanCurveMap, in_unit_range_f32}

pub record Floats : Type 0 where
  pub gt : F32 → F32 → Bool
  pub lt : F32 → F32 → Bool
  pub le : F32 → F32 → Bool
  pub add : F32 → F32 → F32
  pub sub : F32 → F32 → F32
  pub mul : F32 → F32 → F32
  pub div : F32 → F32 → F32
  pub abs : F32 → F32
  -- the casts `as f32`, of an `i32`, a `u8` and a `u64`
  pub of_i32 : ℤ → F32
  pub of_u8 : ℕ → F32
  pub of_u64 : ℕ → F32
  -- the casts `as i32` and `as u8`, which saturate
  pub to_i32 : F32 → ℤ
  pub to_u8 : F32 → ℕ
  pub to_u8_bound : (x : F32) → to_u8 x ≤ 255
  pub to_u8-le : (x y : F32) → le x y ≡ true → to_u8 x ≤ to_u8 y
  pub to_u8-of_u8 : (n : ℕ) → n ≤ 255 → to_u8 (of_u8 n) ≡ n
  -- a product with a ratio between 0 and 1 is not larger
  pub mul_ratio :
      (n : ℕ) (r : F32) → in_unit_range_f32 r ≡ true → le (mul (of_u8 n) r) (of_u8 n) ≡ true

-- `amdgpu_sysfs::hw_mon::Temperature`
pub record Temperature : Type 0 where
  pub current : Option F32
  pub crit : Option F32

-- `amdgpu_sysfs::gpu_handle::fan_control::FanCurve`, with the ends of the two ranges
pub record PmfwRanges : Type 0 where
  pub temperature_start : ℤ
  pub temperature_end : ℤ
  pub speed_start : ℕ
  pub speed_end : ℕ

pub record PmfwCurve : Type 0 where
  pub points : List (ℤ × ℕ)
  pub allowed_ranges : Option PmfwRanges

-- How a call ends that may panic.
pub data Outcome {ℓ} (A : Type ℓ) : Type ℓ where
  value : A → Outcome A
  panic : Outcome A

unfoldable pub validate : FanCurveMap → Result (Unit {0})
unfolding in_unit_range_f32
validate [] = ok tt
validate ((temp, percentage) ∷ points) =
    if not (in_unit_range_f32 percentage) then err percentage_out_of_range else validate points

-- `range(..t).next_back()`
unfoldable pub maybe_lower : ℤ → FanCurveMap → Option (ℤ × F32)
maybe_lower t [] = none
maybe_lower t ((temp, speed) ∷ points) =
    let rest = maybe_lower t points in
    if temp <ℤ t then elim rest [ some p ↦ some p | none ↦ some (temp, speed) ] else rest

-- `range(t..).next()`
unfoldable pub maybe_higher : ℤ → FanCurveMap → Option (ℤ × F32)
maybe_higher t [] = none
maybe_higher t ((temp, speed) ∷ points) =
    let rest = maybe_higher t points in if temp <ℤ t then rest else some (temp, speed)

module _ (F : Floats) where
  unfoldable pub interpolate : ℤ → ℤ × F32 → ℤ × F32 → F32
  interpolate current (lower_temp, lower_speed) (higher_temp, higher_speed) =
      let speed_ratio =
        F.div (F.of_i32 (wrap_i32 (current -ℤ lower_temp)))
          (F.of_i32 (wrap_i32 (higher_temp -ℤ lower_temp))) in
      F.add lower_speed (F.mul (F.sub higher_speed lower_speed) speed_ratio)

  unfoldable pub between : ℤ → Option (ℤ × F32) → Option (ℤ × F32) → Outcome F32
  unfolding interpolate
  between current (some lower) (some higher) = value (interpolate current lower higher)
  between current (some (lower_temp, lower_speed)) none = value lower_speed
  between current none (some (higher_temp, higher_speed)) = value higher_speed
  between current none none = panic

  unfoldable pub is_critical : F32 → Option F32 → Bool
  is_critical current none = false
  is_critical current (some crit) = F.gt current crit

  -- The last line, where there is a percentage.
  abbrev pub to_pwm : Outcome F32 → Outcome ℕ
  to_pwm (value percentage) = value (F.to_u8 (F.mul (F.of_u8 255) percentage))
  to_pwm panic = panic

  unfoldable pub pwm_at_temp : FanCurveMap → Temperature → Outcome ℕ
  unfolding is_critical between maybe_lower maybe_higher
  pwm_at_temp points temp = elim temp.current [
    | none ↦ panic
    | some reading ↦
        if is_critical reading temp.crit
        then value 255
        else (let current = F.to_i32 reading in
            to_pwm (between current (maybe_lower current points) (maybe_higher current points)))
  ]

  -- One point of the new curve.
  unfoldable pub pmfw_point : PmfwRanges → ℤ × F32 → ℤ × ℕ
  pmfw_point ranges (temp, ratio) =
      let custom_pwm = F.to_u8 (F.mul (F.of_u8 ranges.speed_end) ratio) in
      (temp, if ltb ranges.speed_start custom_pwm then custom_pwm else ranges.speed_start)

  unfoldable pub into_pmfw_curve : FanCurveMap → PmfwCurve → Result PmfwCurve
  unfolding pmfw_point
  into_pmfw_curve points current =
      if not (nat_beq (length current.points) (length points))
      then err wrong_number_of_points
      else elim current.allowed_ranges [
        | none ↦ err curve_not_modifiable
        | some ranges ↦
            ok (record { points = map (pmfw_point ranges) points; allowed_ranges = some ranges })
      ]
