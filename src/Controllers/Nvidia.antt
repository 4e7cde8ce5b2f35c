-- ===== src/Controllers/Nvidia.antt =====
-- lact-daemon/src/server/gpu_controller/nvidia.rs: how a configuration is applied through NVML, and
-- the offsets that the controller remembers, since the driver may not report them.
pub mod Apply
pub mod Forget
pub mod Leads
pub mod Offsets
pub mod Reset
pub mod Tracked
pub mod Unmoved
use yagc.Common.{
  ℕ, zero, suc, ℤ, pos, Bool, true, false, ◌≡◌, Option, none, some, is_some, List, [], ◌∷◌, ◌||◌,
  not, ◌==◌, Eq, nat_eq, int_eq, Result, ok, err, Error, if◌then◌else◌, nat_beq, invalid_pstate,
  no_fans, no_fan_settings, ◌↔◌,
}
use yagc.Common.Exec.{Exec, pure, raise, lift, gets, modify, ◌>>=◌, ◌>>◌}
use yagc.Common.Entries
use yagc.Crates.{Crates}
use yagc.Config.{F64, FanCurveMap, FanControlSettings, FanControlMode, static, curve, Gpu}

-- `nvml_wrapper::enum_wrappers::device::Clock`, as far as it is used
pub data Clock : Type 0 where
  graphics memory : Clock

unfoldable pub same_clock : Clock → Clock → Bool
same_clock graphics graphics = true
same_clock memory memory = true
same_clock _ _ = false

-- NVML, for one device. What a call returns may depend on the driver's state, and a call that sets
-- something may change it. `offset` is the clock offset that is in force; the driver need not tell
-- it. A float is scaled and cut to a whole number by the two last operations.
pub record Nvml : Type 1 where
  pub Pstate : Type 0
  pub pstate_eq : Eq Pstate
  -- `PerformanceState::try_from`, and the number of a state
  pub pstate_of : ℕ → Option Pstate
  pub number : Pstate → ℕ
  pub pstate_of_iff : (n : ℕ) (p : Pstate) → (pstate_of n ≡ some p) ↔ (n ≡ number p)
  pub Driver : Type 0
  pub power_management_limit : Driver → Result ℕ
  pub power_management_limit_default : Driver → Result ℕ
  pub set_power_management_limit : ℕ → Exec Driver (Unit {0})
  pub supported_performance_states : Driver → Result (List Pstate)
  pub clock_offset : Clock → Pstate → Driver → Result ℤ
  pub set_clock_offset : Clock → Pstate → ℤ → Exec Driver (Unit {0})
  pub temperature : Driver → Result ℕ
  pub num_fans : Driver → Result ℕ
  pub set_fan_speed : ℕ → ℕ → Exec Driver (Unit {0})
  -- the end of the task that follows a curve, once it is notified: what it still does, and an error
  -- if it panicked
  pub join_task : FanCurveMap × FanControlSettings → Exec Driver (Unit {0})
  pub set_default_fan_speed : ℕ → Exec Driver (Unit {0})
  pub milliwatts : F64 → ℕ
  pub percent : F64 → ℕ

-- `is_some_and(|offset| *offset != 0)`
unfoldable pub is_nonzero : Option ℤ → Bool
is_nonzero none = false
is_nonzero (some offset) = not (offset == pos 0)

module _ (X : Crates) (N : Nvml) where
  open N use {Pstate, Driver}

  pub record NvidiaGpuController : Type 0 where
    pub driver : Driver
    -- the task that follows a curve
    pub fan_control_handle : Option (FanCurveMap × FanControlSettings)
    -- of each clock; a clock without entries and one that is missing are the same
    pub last_applied_offsets : Clock → List (Pstate × ℤ)

  abbrev pub Action : Type 0 → Type 0
  Action A = Exec NvidiaGpuController A

  -- A call that may change the driver's state.
  abbrev pub call : {A : Type 0} → Exec Driver A → Action A
  call m s = let (r, d) = m s.driver in (r, record s { driver = d })

  -- A call that only reads.
  abbrev pub ask : {A : Type 0} → (Driver → Result A) → Action A
  ask f s = (f s.driver, s)

  unfoldable pub remember : Clock → Pstate → ℤ → NvidiaGpuController → NvidiaGpuController
  unfolding same_clock
  remember c p offset s = record s {
    last_applied_offsets = λ k.
        if same_clock k c
        then Entries.insert ⦃e = N.pstate_eq⦄ (s.last_applied_offsets k) p offset
        else s.last_applied_offsets k;
  }

  unfoldable pub forget : Clock → Pstate → NvidiaGpuController → NvidiaGpuController
  unfolding same_clock
  forget c p s = record s {
    last_applied_offsets = λ k.
        if same_clock k c
        then Entries.remove ⦃e = N.pstate_eq⦄ (s.last_applied_offsets k) p
        else s.last_applied_offsets k;
  }

  -- The offset is reset if the driver reports one, or if one was applied.
  unfoldable pub reset_reported : Clock → Pstate → Result ℤ → Action (Unit {0})
  unfolding is_nonzero
  reset_reported c p (err e) s = (ok tt, s)
  reset_reported c p (ok reported) s =
      if not (reported == pos 0)
        || is_nonzero (Entries.lookup ⦃e = N.pstate_eq⦄ (s.last_applied_offsets c) p)
      then call (N.set_clock_offset c p (pos 0)) s
      else (ok tt, s)

  unfoldable pub reset_offset : Clock → Pstate → Action (Unit {0})
  unfolding reset_reported forget
  reset_offset c p s = (do reset_reported c p (N.clock_offset c p s.driver); modify (forget c p)) s

  unfoldable pub reset_pstates : List Pstate → Action (Unit {0})
  unfolding reset_offset
  reset_pstates [] = pure tt
  reset_pstates (p ∷ ps) = do reset_offset graphics p; reset_offset memory p; reset_pstates ps

  unfoldable pub cleanup_supported : Result (List Pstate) → Action (Unit {0})
  unfolding reset_pstates
  cleanup_supported (ok pstates) = reset_pstates pstates
  cleanup_supported (err e) = pure tt

  unfoldable pub cleanup_clocks : Action (Unit {0})
  unfolding cleanup_supported
  cleanup_clocks s = cleanup_supported (N.supported_performance_states s.driver) s

  -- One round of the loops over the configured offsets.
  unfoldable pub apply_offset : Clock → Option Pstate → ℤ → Action (Unit {0})
  unfolding remember
  apply_offset c none offset = raise invalid_pstate
  apply_offset c (some p) offset = do
    call (N.set_clock_offset c p offset)
    modify (remember c p offset)

  unfoldable pub apply_offsets : Clock → List (ℕ × ℤ) → Action (Unit {0})
  unfolding apply_offset
  apply_offsets c [] = pure tt
  apply_offsets c ((n, offset) ∷ rest) = do
    apply_offset c (N.pstate_of n) offset
    apply_offsets c rest

  unfoldable pub set_limit : ℕ → ℕ → Action (Unit {0})
  set_limit current_cap cap =
      if not (nat_beq current_cap cap) then call (N.set_power_management_limit cap) else pure tt

  -- Without a configured limit the default one is restored, if both can be read.
  unfoldable pub restore_limit : Result ℕ → Result ℕ → Action (Unit {0})
  unfolding set_limit
  restore_limit (ok current_cap) (ok default_cap) = set_limit current_cap default_cap
  restore_limit _ _ = pure tt

  unfoldable pub apply_power_cap : Option F64 → Action (Unit {0})
  unfolding set_limit restore_limit
  apply_power_cap (some power_cap) s =
      (do
        current_cap ← ask N.power_management_limit
        set_limit current_cap (N.milliwatts power_cap))
        s
  apply_power_cap none s =
      restore_limit (N.power_management_limit s.driver) (N.power_management_limit_default s.driver)
        s

  -- The fans from number `i` on, so many of them; an error matters only if a task was stopped.
  unfoldable pub reset_fans : Bool → ℕ → ℕ → Action (Unit {0})
  reset_fans fail_on_error i zero s = (ok tt, s)
  reset_fans fail_on_error i (suc n) s =
      let rest = reset_fans fail_on_error (suc i) n in
      let (r, d) = N.set_default_fan_speed i s.driver in
      let t = record s { driver = d } in
      elim r [ ok _ ↦ rest t | err e ↦ if fail_on_error then (err e, t) else rest t ]

  unfoldable pub await_task : Option (FanCurveMap × FanControlSettings) → Action (Unit {0})
  await_task none = pure tt
  await_task (some task) = call (N.join_task task)

  unfoldable pub stop_fan_control : Action (Unit {0})
  unfolding await_task reset_fans
  stop_fan_control = do
    task ← gets (λ s. s.fan_control_handle)
    modify (λ s. record s { fan_control_handle = none })
    await_task task
    fan_count ← ask N.num_fans
    reset_fans (is_some task) 0 fan_count

  unfoldable pub set_fans : ℕ → ℕ → ℕ → Action (Unit {0})
  set_fans speed i zero = pure tt
  set_fans speed i (suc n) = do call (N.set_fan_speed i speed); set_fans speed (suc i) n

  unfoldable pub start_curve_fan_control_task : FanCurveMap → FanControlSettings → Action (Unit {0})
  unfolding stop_fan_control
  start_curve_fan_control_task points settings = do
    stop_fan_control
    ask N.temperature
    fan_count ← ask N.num_fans
    if nat_beq fan_count 0 then raise no_fans else pure tt
    modify (λ s. record s { fan_control_handle = some (points, settings) })

  unfoldable pub control_fans : FanControlMode → FanControlSettings → Action (Unit {0})
  unfolding stop_fan_control set_fans start_curve_fan_control_task
  control_fans static settings = do
    stop_fan_control
    fan_count ← ask N.num_fans
    set_fans (N.percent settings.static_speed) 0 fan_count
  control_fans curve settings = start_curve_fan_control_task settings.curve_points settings

  unfoldable pub apply_fan_control : Bool → Option FanControlSettings → Action (Unit {0})
  unfolding control_fans
  apply_fan_control false settings = stop_fan_control
  apply_fan_control true none = raise no_fan_settings
  apply_fan_control true (some settings) = control_fans settings.mode settings

  unfoldable pub apply_config : Gpu X → Action (Unit {0})
  unfolding apply_power_cap cleanup_clocks apply_offsets apply_fan_control
  apply_config config = do
    apply_power_cap config.power_cap
    cleanup_clocks
    apply_offsets graphics (X.iter config.clocks_configuration.gpu_clock_offsets)
    apply_offsets memory (X.iter config.clocks_configuration.mem_clock_offsets)
    apply_fan_control config.fan_control_enabled config.fan_control_settings
