-- ===== src/Examples/Fans.antt =====
-- Fan curves and the tasks that follow them, over a coarse arithmetic.
use yagc.Common.{
  ◌≡◌, ◌≤◌, ◌↔◌, refl, ℕ, ◌+◌, ◌-◌, ◌/◌, ℤ, pos, negsuc, wrap_i32, true, false, none, some, List,
  [], ◌∷◌, ltb, leb, ok, arith, if◌then◌else◌,
}
use yagc.Config.{FanCurveMap, FanControlSettings, default_fan_control_settings, in_unit_range_f32}
use yagc.FanCurve.{
  Floats, PmfwRanges, PmfwCurve, value, validate, is_critical, pwm_at_temp, into_pmfw_curve,
}
use yagc.FanCurve.Pwm.{walk, pwm_at_temp-walk}
use yagc.FanCurve.Pmfw.{Follows, into_pmfw_curve-Follows}
use yagc.FanCurve.Task.{
  new_loop, selected, panicked, run_loop, AmdReading, amd_round, NvidiaReading, nvidia_fan_speed,
  nvidia_round,
}
use yagc.FanCurve.Task.Spacing.{IsSpaced, Ends, amd_run-IsSpaced, nvidia_fan_speed_percentage_iff}
use yagc.FanCurve.Task.Survival.{
  is_panicked, All, HasTemperature, amd_run_survives, nvidia_round-empty_curve,
}

abbrev smaller : ℕ → ℕ → ℕ
smaller a b = if ltb a b then a else b

abbrev natural : ℤ → ℕ
natural (pos n) = n
natural (negsuc n) = 0

pub smaller_bound : (x : ℕ) → smaller 255 x ≤ 255
smaller_bound x = ground arith

pub smaller-leb : (x y : ℕ) → leb x y ≡ true → smaller 255 x ≤ smaller 255 y
smaller-leb x y h = ground arith

pub smaller_small : (n : ℕ) → n ≤ 255 → smaller 255 n ≡ n
smaller_small n h = ground arith

pub leb-smaller : (n r : ℕ) → leb (smaller n r) n ≡ true
leb-smaller n r = ground arith

-- Bit patterns read as whole numbers, and a product that is the smaller factor.
abbrev pub coarse : Floats
coarse = record {
  gt = λ a b. ltb b a;
  lt = ltb;
  le = leb;
  add = λ a b. a + b;
  sub = λ a b. a - b;
  mul = smaller;
  div = λ a b. a / b;
  abs = λ a. a;
  of_i32 = natural;
  of_u8 = λ n. n;
  of_u64 = λ n. n;
  to_i32 = pos;
  to_u8 = smaller 255;
  to_u8_bound = smaller_bound;
  to_u8-le = smaller-leb;
  to_u8-of_u8 = smaller_small;
  mul_ratio = λ n r h. leb-smaller n r;
}

abbrev two_points : FanCurveMap
two_points = (pos 40, 0x3E4CCCCD) ∷ (pos 80, 0x3F800000) ∷ []

pwm_at_temp-walk_example :
    pwm_at_temp coarse two_points (record { current = some 60; crit = some 90 })
    ≡ value (
        if is_critical coarse 60 (some 90)
        then 255
        else smaller 255
            (smaller 255 (walk coarse (pos 60) (pos 40, 0x3E4CCCCD) ((pos 80, 0x3F800000) ∷ []))))
pwm_at_temp-walk_example =
    pwm_at_temp-walk coarse (pos 40) 0x3E4CCCCD ((pos 80, 0x3F800000) ∷ []) 60 (some 90) refl

abbrev ranges : PmfwRanges
ranges = record {
  temperature_start = pos 15;
  temperature_end = pos 90;
  speed_start = 20;
  speed_end = 100;
}

abbrev current_curve : PmfwCurve
current_curve = record { points = (pos 0, 0) ∷ (pos 0, 0) ∷ []; allowed_ranges = some ranges }

two_points_valid : validate two_points ≡ ok tt
unfolding validate in_unit_range_f32
two_points_valid = refl

into_pmfw_curve-Follows_example :
    (new : PmfwCurve) × (into_pmfw_curve coarse two_points current_curve ≡ ok new)
    × (new.allowed_ranges ≡ some ranges)
    × Follows 20 100 two_points new.points
into_pmfw_curve-Follows_example =
    into_pmfw_curve-Follows coarse two_points current_curve ranges two_points_valid refl refl
      (omega arith) (omega arith)

abbrev slow_down : FanControlSettings
slow_down = record default_fan_control_settings { spindown_delay_ms = some 5000 }

abbrev amd_readings : List AmdReading
amd_readings =
    record {
      now = 500;
      temps = ("edge", record { current = some 70; crit = none }) ∷ [];
      accepted = true;
    }
    ∷ record {
      now = 1000;
      temps = ("edge", record { current = some 50; crit = none }) ∷ [];
      accepted = true;
    }
    ∷ []

amd_run-IsSpaced_example :
    Ends
      (IsSpaced 5000)
      (run_loop (amd_round coarse two_points slow_down) amd_readings (new_loop 0 0))
amd_run-IsSpaced_example = amd_run-IsSpaced coarse two_points slow_down amd_readings 0 0

amd_readings_HaveTemperature : All (HasTemperature slow_down) amd_readings
unfolding All selected
amd_readings_HaveTemperature = ((70, none, refl), ((50, none, refl), refl))

amd_run_survives_example :
    is_panicked (run_loop (amd_round coarse two_points slow_down) amd_readings (new_loop 0 0))
    ≡ false
amd_run_survives_example =
    amd_run_survives coarse (pos 40) 0x3E4CCCCD ((pos 80, 0x3F800000) ∷ []) slow_down amd_readings
      (new_loop 0 0) amd_readings_HaveTemperature

abbrev hot : NvidiaReading
hot = record { now = 500; temperature = some 70 }

nvidia_round-empty_curve_example :
    (validate [] ≡ ok tt) × (nvidia_round coarse [] slow_down hot (new_loop (pos 0) 0) ≡ panicked)
unfolding wrap_i32
nvidia_round-empty_curve_example =
    nvidia_round-empty_curve coarse slow_down hot (new_loop (pos 0) 0) 70 refl refl

nvidia_fan_speed_percentage_iff_example : (nvidia_fan_speed 255 ≤ 100) ↔ (255 ≤ 252)
nvidia_fan_speed_percentage_iff_example = nvidia_fan_speed_percentage_iff 255
