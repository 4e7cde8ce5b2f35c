-- ===== src/Handler/Settings/Effects.antt =====
-- What the requests about one GPU's settings make of its configuration.
use yagc.Common.{
  ◌≡◌, refl, ℕ, Bool, true, false, Option, none, some, List, arith, Result, ok, err, if◌then◌else◌,
  is_empty, Option-cases, Result-cases, Bool-cases, inl, inr, string_eq, unwrap_or,
}
use yagc.Crates.{Crates}
use yagc.Crates.Maps.{get-set_entry, get-shift_remove}
use yagc.Config.{
  F64, in_unit_range_f32, in_unit_range_f64, FanControlMode, static, curve, FanCurveMap,
  FanControlSettings, default_fan_control_settings, default_fan_curve, default_fan_static_speed,
  Gpu,
}
use yagc.FanCurve.{validate}
use yagc.Handler.{Env}
use yagc.Handler.Settings.{
  FanOptions, is_out_of_range, static_settings, or_else, checked_curve, curve_settings,
  fan_settings, with_power_states,
}

-- The speed and the curve pass the checks of the requests.
pub record IsValid (s : FanControlSettings) : Type 0 where
  pub speed : in_unit_range_f64 s.static_speed ≡ true
  pub points : validate s.curve_points ≡ ok tt

default_fan_control_settings-IsValid : IsValid default_fan_control_settings
unfolding in_unit_range_f64 in_unit_range_f32 validate
default_fan_control_settings-IsValid = record { speed = refl; points = refl }

-- Of settings that there may be.
abbrev pub AreValid : Option FanControlSettings → Type 0
AreValid none = ◌≡◌ {A = Bool} true true
AreValid (some s) = IsValid s

static_speed-valid :
    (speed : Option F64) (old : F64)
    → is_out_of_range speed ≡ false
    → in_unit_range_f64 old ≡ true
    → in_unit_range_f64 (unwrap_or speed old) ≡ true
unfolding is_out_of_range
static_speed-valid none old inside v = v
static_speed-valid (some speed) old inside v = ground arith

static_settings-IsValid :
    (opts : FanOptions) (existing : Option FanControlSettings) {s : FanControlSettings}
    → AreValid existing
    → static_settings opts existing ≡ ok s
    → IsValid s
unfolding static_settings
static_settings-IsValid opts none {s = s} v h =
    let d = default_fan_control_settings-IsValid in
    elim (Bool-cases (is_out_of_range opts.static_speed)) [
      | inl outside ↦ absurd (ground arith)
      | inr inside ↦ record {
        speed =
            ground
              (arith, static_speed-valid opts.static_speed default_fan_static_speed inside d.speed);
        points = ground (arith, d.points);
      }
    ]
static_settings-IsValid opts (some old) {s = s} v h =
    elim (Bool-cases (is_out_of_range opts.static_speed)) [
      | inl outside ↦ absurd (ground arith)
      | inr inside ↦ record {
        speed =
            ground (arith, static_speed-valid opts.static_speed old.static_speed inside v.speed);
        points = ground (arith, v.points);
      }
    ]

checked_curve-IsValid :
    (points : FanCurveMap) (settings : FanControlSettings) {s : FanControlSettings}
    → in_unit_range_f64 settings.static_speed ≡ true
    → checked_curve points settings (validate points) ≡ ok s
    → IsValid s
unfolding checked_curve
checked_curve-IsValid points settings {s = s} v h = elim (Result-cases (validate points)) [
  | inl (u, valid) ↦ record { speed = ground (arith, valid); points = ground (arith, valid) }
  | inr (e, invalid) ↦ absurd (ground (arith, invalid))
]

curve_settings-IsValid :
    (opts : FanOptions) (existing : Option FanControlSettings) {s : FanControlSettings}
    → AreValid existing
    → curve_settings opts existing ≡ ok s
    → IsValid s
unfolding curve_settings
curve_settings-IsValid opts none v h =
    checked_curve-IsValid (unwrap_or opts.curve_points default_fan_curve)
      (record default_fan_control_settings {
        mode = curve;
        change_threshold = opts.change_threshold;
        spindown_delay_ms = opts.spindown_delay_ms;
      })
      default_fan_control_settings-IsValid.speed h
curve_settings-IsValid opts (some old) v h = elim (Option-cases opts.curve_points) [
  | inl unchanged ↦ record { speed = ground (arith, v.speed); points = ground (arith, v.points) }
  | inr (points, given) ↦
      checked_curve-IsValid points
        (record old {
          mode = curve;
          change_threshold = or_else opts.change_threshold old.change_threshold;
          spindown_delay_ms = or_else opts.spindown_delay_ms old.spindown_delay_ms;
        })
        v.speed (rw (given, curve_settings) at h)
]

made_by :
    (r : Result FanControlSettings) (t : FanControlSettings)
    → (elim r [ ok s ↦ ok (some s) | err e ↦ err e ]) ≡ ok (some t)
    → r ≡ ok t
made_by (ok s) t h = ground arith
made_by (err e) t h = absurd (ground arith)

-- Whatever a request asks for, the fan settings that it makes from valid ones, or from none, are
-- valid: the static speed and every speed of the curve are ratios between 0 and 1.
pub fan_settings-AreValid :
    (opts : FanOptions) (mode : Option FanControlMode) (existing made : Option FanControlSettings)
    → AreValid existing
    → fan_settings opts mode existing ≡ ok made
    → AreValid made
unfolding fan_settings
fan_settings-AreValid opts mode existing none v h = refl
fan_settings-AreValid opts none existing (some t) v h = absurd (ground arith)
fan_settings-AreValid opts (some static) existing (some t) v h =
    static_settings-IsValid opts existing v (made_by (static_settings opts existing) t h)
fan_settings-AreValid opts (some curve) existing (some t) v h =
    curve_settings-IsValid opts existing v (made_by (curve_settings opts existing) t h)

module _ (X : Crates) (E : Env X) where
  -- Restricting the states of one kind sets those of that kind, where an empty list lifts the
  -- restriction, and leaves those of the other kinds.
  pub get-with_power_states :
      (kind other : X.PowerLevelKind) (states : List ℕ) (gpu : Gpu X)
      → X.get ⦃e = X.kind_eq⦄ (with_power_states X E kind states gpu).power_states other ≡ (
          if X.kind_eq.test kind other
          then (if is_empty states then none else some states)
          else X.get ⦃e = X.kind_eq⦄ gpu.power_states other)
  unfolding with_power_states
  get-with_power_states kind other states gpu = elim (Bool-cases (is_empty states)) [
    | inl empty ↦ rw (empty) (get-shift_remove X ⦃e = X.kind_eq⦄ gpu.power_states kind other)
    | inr given ↦ rw (given) (get-set_entry X ⦃e = X.kind_eq⦄ gpu.power_states kind other states)
  ]
