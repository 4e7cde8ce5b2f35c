-- ===== src/FanCurve/Pmfw.antt =====
-- The curve that is given to the GPU's own fan control.
use yagc.Common.{
  ℕ, ◌≤◌, ◌≡◌, refl, sym, ℤ, Bool, true, false, some, List, [], ◌∷◌, map, length, arith, ok,
}
use yagc.Config.{F32, FanCurveMap, in_unit_range_f32}
use yagc.FanCurve.{Floats, PmfwRanges, PmfwCurve, validate, pmfw_point, into_pmfw_curve}

-- The points have the temperatures of a curve, and speeds within a range.
unfoldable pub Follows : ℕ → ℕ → FanCurveMap → List (ℤ × ℕ) → Type 0
Follows low high [] [] = ◌≡◌ {A = Bool} true true
Follows low high ((t, r) ∷ curve) ((u, pwm) ∷ points) =
    (t ≡ u) × (low ≤ pwm) × (pwm ≤ high) × Follows low high curve points
Follows low high _ _ = ◌≡◌ {A = Bool} true false

validate_parts :
    (t : ℤ) (r : F32) (curve : FanCurveMap)
    → validate ((t, r) ∷ curve) ≡ ok tt
    → (in_unit_range_f32 r ≡ true) × (validate curve ≡ ok tt)
unfolding validate
validate_parts t r curve v = ground arith

module _ (F : Floats) where
  pmfw_point_bounds :
      (ranges : PmfwRanges) (temp : ℤ) (ratio : F32)
      → ranges.speed_start ≤ ranges.speed_end
      → ranges.speed_end ≤ 255
      → in_unit_range_f32 ratio ≡ true
      → ((pmfw_point F ranges (temp, ratio)).0 ≡ temp)
        × (ranges.speed_start ≤ (pmfw_point F ranges (temp, ratio)).1)
        × ((pmfw_point F ranges (temp, ratio)).1 ≤ ranges.speed_end)
  unfolding pmfw_point
  pmfw_point_bounds ranges temp ratio ordered small valid = ground (
    arith,
    F.to_u8-le (F.mul (F.of_u8 ranges.speed_end) ratio) (F.of_u8 ranges.speed_end)
        (F.mul_ratio ranges.speed_end ratio valid),
    F.to_u8-of_u8 ranges.speed_end small,
  )

  map-Follows :
      (ranges : PmfwRanges) (curve : FanCurveMap)
      → ranges.speed_start ≤ ranges.speed_end
      → ranges.speed_end ≤ 255
      → validate curve ≡ ok tt
      → Follows ranges.speed_start ranges.speed_end curve (map (pmfw_point F ranges) curve)
  unfolding Follows
  map-Follows ranges [] ordered small v = refl
  map-Follows ranges ((t, r) ∷ curve) ordered small v =
      let (valid, rest) = validate_parts t r curve v in
      let (same, low, high) = pmfw_point_bounds ranges t r ordered small valid in
      (sym same, low, high, map-Follows ranges curve ordered small rest)

  -- Given a valid curve with as many points as the GPU's, and allowed ranges that are in order, the
  -- conversion succeeds, keeps the ranges and the temperatures of the curve, and every speed is
  -- within the allowed range.
  pub into_pmfw_curve-Follows :
      (points : FanCurveMap) (current : PmfwCurve) (ranges : PmfwRanges)
      → validate points ≡ ok tt
      → length current.points ≡ length points
      → current.allowed_ranges ≡ some ranges
      → ranges.speed_start ≤ ranges.speed_end
      → ranges.speed_end ≤ 255
      → (new : PmfwCurve) × (into_pmfw_curve F points current ≡ ok new)
        × (new.allowed_ranges ≡ some ranges)
        × Follows ranges.speed_start ranges.speed_end points new.points
  unfolding into_pmfw_curve
  into_pmfw_curve-Follows points current ranges v same allowed ordered small = (
    record { points = map (pmfw_point F ranges) points; allowed_ranges = some ranges },
    rw (same, allowed, into_pmfw_curve) (ground arith),
    refl,
    map-Follows ranges points ordered small v,
  )
