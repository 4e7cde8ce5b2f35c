-- ===== src/FanCurve/Task/Survival.antt =====
-- The tasks do not panic while there is a temperature to read and a point on the curve.
use yagc.Common.{
  ℕ, ◌≡◌, refl, ℤ, pos, ◌<ℤ◌, ◌-ℤ◌, abs, wrap_i32, Bool, true, false, Option, some, List, [], ◌∷◌,
  arith, ok, unwrap_or, Bool-cases, inl, inr,
}
use yagc.Config.{F32, FanCurveMap, FanControlSettings}
use yagc.FanCurve.{Floats, Outcome, value, panic, pwm_at_temp, is_critical, validate}
use yagc.FanCurve.Pwm.{pwm_at_temp_panics_iff}
use yagc.FanCurve.Task.{
  FanLoop, Round, running, stopped, panicked, is_delayed, decided, follow, then_run, run_loop,
  AmdReading, selected, amd_set_fan, amd_round, NvidiaReading, nvidia_round,
}

abbrev pub is_panicked : {T : Type 0} → Round T → Bool
is_panicked panicked = true
is_panicked _ = false

unfoldable pub All : {R : Type 0} → (R → Type 0) → List R → Type 0
All Good [] = ◌≡◌ {A = Bool} true true
All Good (r ∷ rs) = Good r × All Good rs

module _ {T R : Type 0} (round : R → FanLoop T → Round T) (Good : R → Type 0)
    (survives : (r : R) (l : FanLoop T) → Good r → is_panicked (round r l) ≡ false) where
  then_run-survives :
      (next : FanLoop T → Round T)
      → ((l : FanLoop T) → is_panicked (next l) ≡ false)
      → (o : Round T) → is_panicked o ≡ false
      → is_panicked (then_run round next o) ≡ false
  then_run-survives next k (running l) q = k l
  then_run-survives next k (stopped l) q = q
  then_run-survives next k panicked q = q

  run_loop-survives :
      (rs : List R) (l : FanLoop T) → All Good rs → is_panicked (run_loop round rs l) ≡ false
  unfolding All run_loop
  run_loop-survives [] l g = refl
  run_loop-survives (r ∷ rs) l (g, gs) =
      then_run-survives (run_loop round rs) (λ m. run_loop-survives rs m gs) (round r l)
        (survives r l g)

follow-survives :
    {T : Type 0} (settings : FanControlSettings) (now : ℕ) (current_temp : T) (o : Outcome ℕ)
    (set_fans : FanLoop T → Round T) (l : FanLoop T)
    → (o ≡ panic → ◌≡◌ {A = Bool} true false)
    → ((m : FanLoop T) → is_panicked (set_fans m) ≡ false)
    → is_panicked (follow settings now current_temp o set_fans l) ≡ false
unfolding follow
follow-survives settings now current_temp panic set_fans l safe k = safe refl
follow-survives settings now current_temp (value n) set_fans l safe k =
    elim (Bool-cases
      (is_delayed l.last_pwm l.previous_timestamp n now (unwrap_or settings.spindown_delay_ms 0))) [
        | inl late ↦ rw (late) refl
        | inr on_time ↦ rw (on_time) (k (decided now n current_temp l))
      ]

amd_set_fan-survives :
    (accepted : Bool) (l : FanLoop F32) → is_panicked (amd_set_fan accepted l) ≡ false
unfolding amd_set_fan
amd_set_fan-survives accepted l = ground arith

-- The sensor that the settings name, or the only one, has a temperature.
abbrev pub HasTemperature : FanControlSettings → AmdReading → Type 0
HasTemperature settings r =
    (reading : F32) × (crit : Option F32) × (selected settings.temperature_key r.temps
      ≡ some (record { current = some reading; crit = crit }))

module _ (F : Floats) (t : ℤ) (s : F32) (points : FanCurveMap) where
  has_speed :
      (reading : F32) (crit : Option F32)
      → pwm_at_temp F ((t, s) ∷ points) (record { current = some reading; crit = crit }) ≡ panic
      → ◌≡◌ {A = Bool} true false
  has_speed reading crit h =
      let (empty, low) = (pwm_at_temp_panics_iff F ((t, s) ∷ points) reading crit).0 h in
      absurd (ground arith)

  amd_round-survives :
      (settings : FanControlSettings) (r : AmdReading) (l : FanLoop F32)
      → HasTemperature settings r
      → is_panicked (amd_round F ((t, s) ∷ points) settings r l) ≡ false
  unfolding amd_round
  amd_round-survives settings r l (reading, crit, found) =
      elim (Bool-cases (
        F.lt (F.abs (F.sub l.last_temp reading))
          (F.of_u64 (unwrap_or settings.change_threshold 0)))) [
            | inl steady ↦ rw (found, amd_round, steady) refl
            | inr moved ↦
                rw (found, amd_round, moved)
                  (follow-survives settings r.now reading
                    (pwm_at_temp F ((t, s) ∷ points)
                      (record { current = some reading; crit = crit }))
                    (amd_set_fan r.accepted) l (has_speed reading crit)
                    (amd_set_fan-survives r.accepted))
          ]

  -- On a curve with a point, the task for AMD never panics as long as each round finds the
  -- temperature of the sensor that the settings name, or of the only sensor.
  pub amd_run_survives :
      (settings : FanControlSettings) (rs : List AmdReading) (l : FanLoop F32)
      → All (HasTemperature settings) rs
      → is_panicked (run_loop (amd_round F ((t, s) ∷ points) settings) rs l) ≡ false
  amd_run_survives settings =
      run_loop-survives (amd_round F ((t, s) ∷ points) settings) (HasTemperature settings)
        (amd_round-survives settings)

-- An empty curve passes `validate`, and with it the task for Nvidia panics at the first round in
-- which the temperature is not within the change threshold of the last one.
pub nvidia_round-empty_curve :
    (F : Floats) (settings : FanControlSettings) (r : NvidiaReading) (l : FanLoop ℤ)
    (temperature : ℕ)
    → r.temperature ≡ some temperature
    → (wrap_i32 (abs (wrap_i32 (l.last_temp -ℤ wrap_i32 (pos temperature))))
        <ℤ wrap_i32 (pos (unwrap_or settings.change_threshold 0)))
      ≡ false
    → (validate [] ≡ ok tt) × (nvidia_round F [] settings r l ≡ panicked)
unfolding validate nvidia_round pwm_at_temp is_critical follow
nvidia_round-empty_curve F settings r l temperature read moved =
    (refl, rw (read, nvidia_round, moved) refl)
