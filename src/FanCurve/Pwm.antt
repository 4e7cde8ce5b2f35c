-- ===== src/FanCurve/Pwm.antt =====
-- The speed of a fan against a walk along its curve.
use yagc.Common.{
  ◌≡◌, refl, ℤ, ◌<ℤ◌, Bool, true, false, Option, none, some, [], ◌∷◌, arith, not, ◌&&◌,
  if◌then◌else◌, ◌↔◌, Bool-cases,
}
use yagc.Config.{F32, FanCurveMap}
use yagc.FanCurve.{
  Floats, value, panic, maybe_lower, maybe_higher, interpolate, between, is_critical, pwm_at_temp,
}

-- The temperatures of a `BTreeMap` ascend.
abbrev pub is_ascending : FanCurveMap → Bool
is_ascending [] = true
is_ascending ((t, s) ∷ []) = true
is_ascending ((t, s) ∷ (u, r) ∷ points) = t <ℤ u && is_ascending ((u, r) ∷ points)

not_below : (a b t : ℤ) → (a <ℤ b) ≡ true → (a <ℤ t) ≡ false → (b <ℤ t) ≡ false
not_below a b t h k = ground arith

first_step :
    (temp u : ℤ) (speed r : F32) (points : FanCurveMap)
    → is_ascending ((temp, speed) ∷ (u, r) ∷ points) ≡ true
    → (temp <ℤ u) ≡ true
first_step temp u speed r points a = ground arith

other_steps :
    (temp u : ℤ) (speed r : F32) (points : FanCurveMap)
    → is_ascending ((temp, speed) ∷ (u, r) ∷ points) ≡ true
    → is_ascending ((u, r) ∷ points) ≡ true
other_steps temp u speed r points a = ground (arith, Bool-cases (temp <ℤ u))

maybe_lower-none :
    (t temp : ℤ) (speed : F32) (points : FanCurveMap)
    → is_ascending ((temp, speed) ∷ points) ≡ true
    → (temp <ℤ t) ≡ false
    → maybe_lower t points ≡ none
unfolding maybe_lower
maybe_lower-none t temp speed [] a h = refl
maybe_lower-none t temp speed ((u, r) ∷ points) a h =
    let later = not_below temp u t (first_step temp u speed r points a) h in
    rw (later) (maybe_lower-none t u r points (other_steps temp u speed r points a) later)

module _ (F : Floats) where
  -- The speed on the curve that starts at a point: that of the first point up to it, between two
  -- points the line through them, and that of the last point after it.
  unfoldable pub walk : ℤ → ℤ × F32 → FanCurveMap → F32
  walk t (temp, speed) [] = speed
  walk t (temp, speed) ((next_temp, next_speed) ∷ points) =
      let rest = walk t (next_temp, next_speed) points in
      if not (temp <ℤ t)
      then speed
      else if not (next_temp <ℤ t)
      then interpolate F t (temp, speed) (next_temp, next_speed)
      else rest

  between-walk :
      (t temp : ℤ) (speed : F32) (points : FanCurveMap)
      → is_ascending ((temp, speed) ∷ points) ≡ true
      → between F t
          (maybe_lower t ((temp, speed) ∷ points))
          (maybe_higher t ((temp, speed) ∷ points))
        ≡ value (walk t (temp, speed) points)
  unfolding between maybe_lower maybe_higher walk
  between-walk t temp speed [] a = ground arith
  between-walk t temp speed ((u, r) ∷ points) a = ground (
    arith,
    between-walk t u r points (other_steps temp u speed r points a),
    not_below temp u t (first_step temp u speed r points a),
    maybe_lower-none t u r points (other_steps temp u speed r points a),
  )

  -- On a curve with a point, whose temperatures ascend, a reading always yields a speed: the
  -- highest one above the critical temperature, and otherwise that of the walk along the curve.
  pub pwm_at_temp-walk :
      (t : ℤ) (s : F32) (points : FanCurveMap) (reading : F32) (crit : Option F32)
      → is_ascending ((t, s) ∷ points) ≡ true
      → pwm_at_temp F ((t, s) ∷ points) (record { current = some reading; crit = crit })
        ≡ value (
            if is_critical F reading crit
            then 255
            else F.to_u8 (F.mul (F.of_u8 255) (walk (F.to_i32 reading) (t, s) points)))
  unfolding pwm_at_temp
  pwm_at_temp-walk t s points reading crit a =
      rw (between-walk (F.to_i32 reading) t s points a) (ground arith)

  -- Whatever the curve, a reading makes the computation panic exactly if the curve is empty and
  -- the temperature is not critical.
  pub pwm_at_temp_panics_iff :
      (points : FanCurveMap) (reading : F32) (crit : Option F32)
      → (pwm_at_temp F points (record { current = some reading; crit = crit }) ≡ panic)
        ↔ ((points ≡ []) × (is_critical F reading crit ≡ false))
  unfolding pwm_at_temp between maybe_lower maybe_higher
  pwm_at_temp_panics_iff [] reading crit = ground arith
  pwm_at_temp_panics_iff ((t, s) ∷ points) reading crit = ground arith
