-- ===== src/FanCurve/Task.antt =====
-- The tasks that follow a fan curve where the GPU cannot do it: `start_curve_fan_control_task` of
-- lact-daemon/src/server/gpu_controller/amd.rs and of nvidia.rs, one round of their loops as a
-- function. What the driver answers in a round is its input; times are in milliseconds.
pub mod Spacing
pub mod Survival
use yagc.Common.{
  ℕ, suc, zero, ◌+◌, ◌-◌, ◌*◌, ◌/◌, ℤ, pos, ◌<ℤ◌, ◌-ℤ◌, abs, wrap_i32, Bool, true, false, Option,
  none, some, List, [], ◌∷◌, String, string_eq, length, nat_beq, ltb, ◌&&◌, if◌then◌else◌,
  unwrap_or,
}
use yagc.Common.Entries.{lookup}
use yagc.Config.{F32, FanCurveMap, FanControlSettings}
use yagc.FanCurve.{Floats, Temperature, Outcome, value, panic, pwm_at_temp}

-- The variables of a loop over temperatures of a type.
pub record FanLoop (T : Type 0) : Type 0 where
  pub last_pwm : Option ℕ
  pub previous_timestamp : ℕ
  pub last_temp : T
  -- if the fan speed was able to be set at least once
  pub control_available : Bool
  -- when which speed was decided, the latest first
  pub decisions : List (ℕ × ℕ)

-- How a round ends: with the next one to come, by `break`, or by a panic.
pub data Round (T : Type 0) : Type 0 where
  running stopped : FanLoop T → Round T
  panicked : Round T

-- The variables after `let mut control_available = false`; the temperature at first is 0.
abbrev pub new_loop : {T : Type 0} → T → ℕ → FanLoop T
new_loop zero_temp now = record {
  last_pwm = none;
  previous_timestamp = now;
  last_temp = zero_temp;
  control_available = false;
  decisions = [];
}

-- `target_pwm < previous_pwm && diff < spindown_delay`; a difference of instants stops at 0.
unfoldable pub is_delayed : Option ℕ → ℕ → ℕ → ℕ → ℕ → Bool
is_delayed none timestamp target_pwm now delay = false
is_delayed (some previous_pwm) timestamp target_pwm now delay =
    ltb target_pwm previous_pwm && ltb (now - timestamp) delay

abbrev pub decided : {T : Type 0} → ℕ → ℕ → T → FanLoop T → FanLoop T
decided now target_pwm current_temp l = record l {
  last_pwm = some target_pwm;
  previous_timestamp = now;
  last_temp = current_temp;
  decisions = (now, target_pwm) ∷ l.decisions;
}

-- From the computation of the speed to the decision.
unfoldable pub follow :
    {T : Type 0}
    → FanControlSettings
    → ℕ
    → T
    → Outcome ℕ
    → (FanLoop T → Round T)
    → FanLoop T
    → Round T
unfolding is_delayed
follow settings now current_temp panic set_fans l = panicked
follow settings now current_temp (value target_pwm) set_fans l =
    if is_delayed l.last_pwm l.previous_timestamp target_pwm now
      (unwrap_or settings.spindown_delay_ms 0)
    then running l
    else set_fans (decided now target_pwm current_temp l)

module _ {T R : Type 0} (round : R → FanLoop T → Round T) where
  abbrev pub then_run : (FanLoop T → Round T) → Round T → Round T
  then_run next (running l) = next l
  then_run next (stopped l) = stopped l
  then_run next panicked = panicked

  -- The loop, until `stop_fan_control` notifies the task after so many rounds.
  unfoldable pub run_loop : List R → FanLoop T → Round T
  run_loop [] l = stopped l
  run_loop (r ∷ rs) l = then_run (run_loop rs) (round r l)

-- What a round of the task for AMD finds.
pub record AmdReading : Type 0 where
  pub now : ℕ
  pub temps : List (String × Temperature)
  -- whether `set_fan_pwm` succeeds
  pub accepted : Bool

-- The only temperature, or the one with the key.
unfoldable pub selected : String → List (String × Temperature) → Option Temperature
selected key ((name, temp) ∷ []) = some temp
selected key temps = lookup temps key

unfoldable pub amd_set_fan : Bool → FanLoop F32 → Round F32
amd_set_fan accepted l =
    if accepted
    then running (record l { control_available = true })
    else if l.control_available
    then running l
    else stopped l

-- What a round of the task for Nvidia finds.
pub record NvidiaReading : Type 0 where
  pub now : ℕ
  -- a `u32`; `none` is a read error
  pub temperature : Option ℕ

-- `(f64::from(target_pwm) / 2.5) as u32`: no quotient of a `u8` rounds up to a whole number.
unfoldable pub nvidia_fan_speed : ℕ → ℕ
nvidia_fan_speed target_pwm = 2 * target_pwm / 5

module _ (F : Floats) where
  unfoldable pub amd_round : FanCurveMap → FanControlSettings → AmdReading → FanLoop F32 → Round F32
  unfolding selected follow amd_set_fan
  amd_round curve settings r l = elim (selected settings.temperature_key r.temps) [
    | none ↦ panicked
    | some temp ↦ elim temp.current [
      | none ↦ panicked
      | some current_temp ↦
          if F.lt (F.abs (F.sub l.last_temp current_temp))
            (F.of_u64 (unwrap_or settings.change_threshold 0))
          then running l
          else follow settings r.now current_temp (pwm_at_temp F curve temp)
              (amd_set_fan r.accepted) l
    ]
  ]

  -- An error of a fan ends the loop over the fans, and not the task.
  unfoldable pub nvidia_round :
      FanCurveMap → FanControlSettings → NvidiaReading → FanLoop ℤ → Round ℤ
  unfolding follow
  nvidia_round curve settings r l = elim r.temperature [
    | none ↦ panicked
    | some temperature ↦
        let current_temp = wrap_i32 (pos temperature) in
        if wrap_i32 (abs (wrap_i32 (l.last_temp -ℤ current_temp)))
          <ℤ wrap_i32 (pos (unwrap_or settings.change_threshold 0))
        then running l
        else follow settings r.now current_temp
            (pwm_at_temp F curve (record { current = some (F.of_i32 current_temp); crit = none }))
            running l
  ]
