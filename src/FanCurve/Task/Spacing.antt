-- ===== src/FanCurve/Task/Spacing.antt =====
-- When the tasks slow the fans down.
use yagc.Common.{
  ℕ, ◌≤◌, ◌<◌, ◌-◌, ◌≡◌, ◌↔◌, refl, ℤ, pos, ◌<ℤ◌, ◌-ℤ◌, abs, wrap_i32, Bool, true, false, Option,
  none, some, List, [], ◌∷◌, arith, unwrap_or, Bool-cases, Option-cases, inl, inr,
}
use yagc.Config.{F32, FanCurveMap, FanControlSettings}
use yagc.FanCurve.{
  Floats, Temperature, Outcome, value, panic, pwm_at_temp, to_pwm, between, maybe_lower,
  maybe_higher,
}
use yagc.FanCurve.Task.{
  FanLoop, Round, running, stopped, panicked, new_loop, is_delayed, decided, follow, then_run,
  run_loop, AmdReading, selected, amd_set_fan, amd_round, NvidiaReading, nvidia_fan_speed,
  nvidia_round,
}

-- Each decision that slows the fans down comes at least so long after the one before it.
unfoldable pub AreSpaced : ℕ → List (ℕ × ℕ) → Type 0
AreSpaced delay [] = ◌≡◌ {A = Bool} true true
AreSpaced delay ((now, pwm) ∷ []) = pwm ≤ 255
AreSpaced delay ((now, pwm) ∷ (before, previous) ∷ rest) =
    (pwm ≤ 255)
    × (pwm < previous → delay ≤ now - before)
    × AreSpaced delay ((before, previous) ∷ rest)

-- The variables hold the latest decision.
unfoldable pub IsLatest : Option ℕ → ℕ → List (ℕ × ℕ) → Type 0
IsLatest none timestamp decisions = decisions ≡ []
IsLatest (some pwm) timestamp [] = ◌≡◌ {A = Bool} true false
IsLatest (some pwm) timestamp ((before, previous) ∷ rest) = (pwm ≡ previous) × (timestamp ≡ before)

pub record IsSpaced {T : Type 0} (delay : ℕ) (l : FanLoop T) : Type 0 where
  pub spaced : AreSpaced delay l.decisions
  pub latest : IsLatest l.last_pwm l.previous_timestamp l.decisions

-- A property of the variables, when the loop goes on or has ended.
unfoldable pub Ends : {T : Type 0} → (FanLoop T → Type 0) → Round T → Type 0
Ends P (running l) = P l
Ends P (stopped l) = P l
Ends P panicked = ◌≡◌ {A = Bool} true true

module _ {T R : Type 0} (round : R → FanLoop T → Round T) (P : FanLoop T → Type 0) where
  then_run-Ends :
      (next : FanLoop T → Round T)
      → ((l : FanLoop T) → P l → Ends P (next l))
      → (o : Round T) → Ends P o
      → Ends P (then_run round next o)
  unfolding Ends
  then_run-Ends next k (running l) q = k l q
  then_run-Ends next k (stopped l) q = q
  then_run-Ends next k panicked q = refl

  run_loop-Ends :
      ((r : R) (l : FanLoop T) → P l → Ends P (round r l))
      → (rs : List R) (l : FanLoop T) → P l
      → Ends P (run_loop round rs l)
  unfolding Ends run_loop
  run_loop-Ends keeps [] l p = p
  run_loop-Ends keeps (r ∷ rs) l p =
      then_run-Ends (run_loop round rs) (run_loop-Ends keeps rs) (round r l) (keeps r l p)

AreSpaced-cons :
    (delay now pwm timestamp : ℕ) (last : Option ℕ) (decisions : List (ℕ × ℕ))
    → pwm ≤ 255
    → is_delayed last timestamp pwm now delay ≡ false
    → IsLatest last timestamp decisions
    → AreSpaced delay decisions
    → AreSpaced delay ((now, pwm) ∷ decisions)
unfolding AreSpaced IsLatest is_delayed
AreSpaced-cons delay now pwm timestamp none [] small on_time latest s = small
AreSpaced-cons delay now pwm timestamp none (d ∷ ds) small on_time latest s = absurd (ground arith)
AreSpaced-cons delay now pwm timestamp (some p) [] small on_time latest s = absurd (ground arith)
AreSpaced-cons delay now pwm timestamp (some p) ((before, previous) ∷ ds) small on_time latest s =
    (small, (λ slower. ground (arith, latest)), s)

module _ {T : Type 0} where
  decided-IsSpaced :
      (delay now target_pwm : ℕ) (current_temp : T) (l : FanLoop T)
      → target_pwm ≤ 255
      → is_delayed l.last_pwm l.previous_timestamp target_pwm now delay ≡ false
      → IsSpaced delay l
      → IsSpaced delay (decided now target_pwm current_temp l)
  unfolding IsLatest
  decided-IsSpaced delay now target_pwm current_temp l small on_time s = record {
    spaced =
        AreSpaced-cons delay now target_pwm l.previous_timestamp l.last_pwm l.decisions small
          on_time s.latest s.spaced;
    latest = (refl, refl);
  }

  follow-IsSpaced :
      (settings : FanControlSettings) (now : ℕ) (current_temp : T) (o : Outcome ℕ)
      (set_fans : FanLoop T → Round T) (l : FanLoop T)
      → let delay = unwrap_or settings.spindown_delay_ms 0 in
        ((n : ℕ) → o ≡ value n → n ≤ 255)
        → ((m : FanLoop T) → IsSpaced delay m → Ends (IsSpaced delay) (set_fans m))
        → IsSpaced delay l
        → Ends (IsSpaced delay) (follow settings now current_temp o set_fans l)
  unfolding Ends follow
  follow-IsSpaced settings now current_temp panic set_fans l small k s = refl
  follow-IsSpaced settings now current_temp (value target_pwm) set_fans l small k s =
      let delay = unwrap_or settings.spindown_delay_ms 0 in
      elim (Bool-cases (is_delayed l.last_pwm l.previous_timestamp target_pwm now delay)) [
        | inl late ↦ rw (late) s
        | inr on_time ↦ rw (on_time) (
            k (decided now target_pwm current_temp l) (
              decided-IsSpaced delay now target_pwm current_temp l (small target_pwm refl) on_time
                s))
      ]

module _ (F : Floats) where
  to_pwm_bound : (o : Outcome F32) (n : ℕ) → to_pwm F o ≡ value n → n ≤ 255
  to_pwm_bound (value p) n h = ground (arith, F.to_u8_bound (F.mul (F.of_u8 255) p))
  to_pwm_bound panic n h = absurd (ground arith)

  pwm_at_temp_bound :
      (curve : FanCurveMap) (temp : Temperature) (n : ℕ)
      → pwm_at_temp F curve temp ≡ value n
      → n ≤ 255
  unfolding pwm_at_temp
  pwm_at_temp_bound curve temp n h = elim (Option-cases temp.current) [
    | inl missing ↦ absurd (ground arith)
    | inr (reading, e) ↦
        let current = F.to_i32 reading in
        ground (
          arith,
          to_pwm_bound (between F current (maybe_lower current curve) (maybe_higher current curve))
              n,
        )
  ]

  amd_set_fan-IsSpaced :
      (delay : ℕ) (accepted : Bool) (l : FanLoop F32)
      → IsSpaced delay l
      → Ends (IsSpaced delay) (amd_set_fan accepted l)
  unfolding Ends amd_set_fan
  amd_set_fan-IsSpaced delay accepted l s = elim (Bool-cases accepted) [
    | inl set ↦ rw (set) (record { spaced = s.spaced; latest = s.latest })
    | inr failed ↦ elim (Bool-cases l.control_available) [
      | inl was ↦ rw (failed, was) (record { spaced = s.spaced; latest = s.latest })
      | inr never ↦ rw (failed, never) (record { spaced = s.spaced; latest = s.latest })
    ]
  ]

  amd_round-IsSpaced :
      (curve : FanCurveMap) (settings : FanControlSettings) (r : AmdReading) (l : FanLoop F32)
      → IsSpaced (unwrap_or settings.spindown_delay_ms 0) l
      → Ends (IsSpaced (unwrap_or settings.spindown_delay_ms 0)) (amd_round F curve settings r l)
  unfolding Ends amd_round
  amd_round-IsSpaced curve settings r l s =
      elim (Option-cases (selected settings.temperature_key r.temps)) [
        | inl missing ↦ rw (missing, amd_round) refl
        | inr (temp, found) ↦ elim (Option-cases temp.current) [
          | inl missing ↦ rw (found, amd_round, missing) refl
          | inr (current_temp, reading) ↦
              elim (Bool-cases (
                F.lt (F.abs (F.sub l.last_temp current_temp))
                  (F.of_u64 (unwrap_or settings.change_threshold 0)))) [
                    | inl steady ↦ rw (found, amd_round, reading, steady) s
                    | inr moved ↦
                        rw (found, amd_round, reading, moved)
                          (follow-IsSpaced settings r.now current_temp (pwm_at_temp F curve temp)
                            (amd_set_fan r.accepted) l (pwm_at_temp_bound curve temp)
                            (amd_set_fan-IsSpaced (unwrap_or settings.spindown_delay_ms 0)
                              r.accepted)
                            s)
                  ]
        ]
      ]

  nvidia_round-IsSpaced :
      (curve : FanCurveMap) (settings : FanControlSettings) (r : NvidiaReading) (l : FanLoop ℤ)
      → IsSpaced (unwrap_or settings.spindown_delay_ms 0) l
      → Ends (IsSpaced (unwrap_or settings.spindown_delay_ms 0)) (nvidia_round F curve settings r l)
  unfolding Ends nvidia_round
  nvidia_round-IsSpaced curve settings r l s = elim (Option-cases r.temperature) [
    | inl missing ↦ rw (missing, nvidia_round) refl
    | inr (temperature, reading) ↦
        let temp = wrap_i32 (pos temperature) in
        let read : Temperature = record { current = some (F.of_i32 temp); crit = none } in
        elim (Bool-cases (
          wrap_i32 (abs (wrap_i32 (l.last_temp -ℤ temp)))
          <ℤ wrap_i32 (pos (unwrap_or settings.change_threshold 0)))) [
            | inl steady ↦ rw (reading, nvidia_round, steady) s
            | inr moved ↦
                rw (reading, nvidia_round, moved)
                  (follow-IsSpaced settings r.now temp (pwm_at_temp F curve read) running l
                    (pwm_at_temp_bound curve read) (λ m k. k) s)
          ]
  ]

  -- However the temperature moves and whatever the driver answers, after any number of rounds in
  -- which the task for AMD has not panicked, every speed that it decided on is at most 255, and
  -- every one that is lower than the one before it came at least the spindown delay after that.
  pub amd_run-IsSpaced :
      (curve : FanCurveMap) (settings : FanControlSettings) (rs : List AmdReading) (start : ℕ)
      (zero_temp : F32)
      → Ends
          (IsSpaced (unwrap_or settings.spindown_delay_ms 0))
          (run_loop (amd_round F curve settings) rs (new_loop zero_temp start))
  unfolding AreSpaced IsLatest
  amd_run-IsSpaced curve settings rs start zero_temp =
      run_loop-Ends (amd_round F curve settings) (IsSpaced (unwrap_or settings.spindown_delay_ms 0))
        (amd_round-IsSpaced curve settings) rs (new_loop zero_temp start)
        (record { spaced = refl; latest = refl })

  -- After any number of rounds in which the task for Nvidia has not panicked, every speed that it
  -- decided on is at most 255, and every one that is lower than the one before it came at least the
  -- spindown delay after that.
  pub nvidia_run-IsSpaced :
      (curve : FanCurveMap) (settings : FanControlSettings) (rs : List NvidiaReading) (start : ℕ)
      → Ends
          (IsSpaced (unwrap_or settings.spindown_delay_ms 0))
          (run_loop (nvidia_round F curve settings) rs (new_loop (pos 0) start))
  unfolding AreSpaced IsLatest
  nvidia_run-IsSpaced curve settings rs start =
      run_loop-Ends (nvidia_round F curve settings)
        (IsSpaced (unwrap_or settings.spindown_delay_ms 0)) (nvidia_round-IsSpaced curve settings)
        rs (new_loop (pos 0) start) (record { spaced = refl; latest = refl })

-- The percentage that the task for Nvidia sends to the fans is one, at most 100, exactly for speeds
-- up to 252: the highest speeds of a curve ask for more than 100 %.
pub nvidia_fan_speed_percentage_iff : (pwm : ℕ) → (nvidia_fan_speed pwm ≤ 100) ↔ (pwm ≤ 252)
unfolding nvidia_fan_speed
nvidia_fan_speed_percentage_iff pwm = omega arith
