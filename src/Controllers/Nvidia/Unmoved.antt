-- ===== src/Controllers/Nvidia/Unmoved.antt =====
-- What a configuration does besides its clock offsets: the power limit and the fans, which leave
-- the offsets as they are.
use yagc.Common.{
  ℕ, zero, suc, Bool, true, false, refl, ◌∙◌, Option, none, some, not, Result, ok, err,
  if◌then◌else◌, nat_beq, no_fans, no_fan_settings, Bool-cases, Result-cases, inl, inr, is_some,
}
use yagc.Common.Exec.{Exec, pure, raise, ◌>>=◌, ◌>>◌, gets, modify}
use yagc.Crates.{Crates}
use yagc.Config.{F64, FanCurveMap, FanControlSettings, FanControlMode, static, curve}
use yagc.Controllers.Nvidia.{
  Nvml, NvidiaGpuController, call, ask, set_limit, restore_limit, apply_power_cap, reset_fans,
  await_task, stop_fan_control, set_fans, start_curve_fan_control_task, control_fans,
  apply_fan_control,
}
use yagc.Controllers.Nvidia.Tracked.{KeepsOffsets, SameOffsets}

module _ (X : Crates) (N : Nvml) (L : KeepsOffsets N) where
  -- A method that leaves the offsets as they are.
  pub record Unmoved {A : Type 0} (m : Exec (NvidiaGpuController X N) A) : Type 0 where
    pub unmoved : (s : NvidiaGpuController X N) → SameOffsets X N L s (m s).1

  SameOffsets-refl : (s : NvidiaGpuController X N) → SameOffsets X N L s s
  SameOffsets-refl s = record { in_force = λ k q. refl; remembered = refl }

  SameOffsets-trans :
      (s t u : NvidiaGpuController X N)
      → SameOffsets X N L s t
      → SameOffsets X N L t u
      → SameOffsets X N L s u
  SameOffsets-trans s t u a b = record {
    in_force = λ k q. b.in_force k q ∙ a.in_force k q;
    remembered = b.remembered ∙ a.remembered;
  }

  Unmoved-bind :
      {A B : Type 0} (m : Exec (NvidiaGpuController X N) A)
      (next : A → Exec (NvidiaGpuController X N) B)
      → Unmoved m
      → ((a : A) → Unmoved (next a))
      → Unmoved (m >>= next)
  Unmoved-bind m next first later = record {
    unmoved = λ s. elim (Result-cases (m s).0) [
      | inl (a, done) ↦ rw (done) (
          SameOffsets-trans s (m s).1 (next a (m s).1).1 (first.unmoved s)
            ((later a).unmoved (m s).1))
      | inr (e, failed) ↦ rw (failed) (first.unmoved s)
    ];
  }

  -- What does not change the state at all.
  Unmoved-still :
      {A : Type 0} (r : NvidiaGpuController X N → Result A) → Unmoved {A = A} (λ s. (r s, s))
  Unmoved-still r = record { unmoved = SameOffsets-refl }

  Unmoved-limit : (n : ℕ) → Unmoved (call X N (N.set_power_management_limit n))
  Unmoved-limit n = record {
    unmoved = λ s. record { in_force = L.limit_keeps n s.driver; remembered = refl };
  }

  set_limit-Unmoved : (now cap : ℕ) → Unmoved (set_limit X N now cap)
  unfolding set_limit
  set_limit-Unmoved now cap = elim (Bool-cases (not (nat_beq now cap))) [
    | inl differs ↦ rw (differs) (Unmoved-limit cap)
    | inr same ↦ rw (same) (Unmoved-still (λ _. ok tt))
  ]

  restore_limit-Unmoved : (now default : Result ℕ) → Unmoved (restore_limit X N now default)
  unfolding restore_limit
  restore_limit-Unmoved (ok now) (ok default) = set_limit-Unmoved now default
  restore_limit-Unmoved (ok now) (err e) = Unmoved-still (λ _. ok tt)
  restore_limit-Unmoved (err e) _ = Unmoved-still (λ _. ok tt)

  pub apply_power_cap-Unmoved : (power_cap : Option F64) → Unmoved (apply_power_cap X N power_cap)
  unfolding apply_power_cap
  apply_power_cap-Unmoved (some power_cap) =
      Unmoved-bind (ask X N N.power_management_limit)
        (λ now. set_limit X N now (N.milliwatts power_cap))
        (Unmoved-still (λ s. N.power_management_limit s.driver))
        (λ now. set_limit-Unmoved now (N.milliwatts power_cap))
  apply_power_cap-Unmoved none = record {
    unmoved = λ s.
        (restore_limit-Unmoved (N.power_management_limit s.driver)
            (N.power_management_limit_default s.driver)).unmoved
          s;
  }

  reset_fans-Unmoved : (fail_on_error : Bool) (i n : ℕ) → Unmoved (reset_fans X N fail_on_error i n)
  unfolding reset_fans
  reset_fans-Unmoved fail_on_error i zero = Unmoved-still (λ _. ok tt)
  reset_fans-Unmoved fail_on_error i (suc n) = record {
    unmoved = λ s.
        let t : NvidiaGpuController X N = record s {
          driver = (N.set_default_fan_speed i s.driver).1;
        } in
        let here : SameOffsets X N L s t = record {
          in_force = L.default_fan_keeps i s.driver;
          remembered = refl;
        } in
        let later =
          SameOffsets-trans s t (reset_fans X N fail_on_error (suc i) n t).1 here
            ((reset_fans-Unmoved fail_on_error (suc i) n).unmoved t) in
        elim (Result-cases (N.set_default_fan_speed i s.driver).0) [
          | inl (u, done) ↦ rw (done, reset_fans) later
          | inr (e, failed) ↦
              rw (failed, reset_fans)
                (elim fail_on_error
                  as (λ x.
                    SameOffsets X N L s
                      (if x then (err e, t) else reset_fans X N fail_on_error (suc i) n t).1) [
                        | true ↦ here
                        | false ↦ later
                      ])
        ];
  }

  await_task-Unmoved :
      (running : Option (FanCurveMap × FanControlSettings)) → Unmoved (await_task X N running)
  unfolding await_task
  await_task-Unmoved none = Unmoved-still (λ _. ok tt)
  await_task-Unmoved (some task) = record {
    unmoved = λ s. record { in_force = L.join_keeps task s.driver; remembered = refl };
  }

  stop_fan_control-Unmoved : Unmoved (stop_fan_control X N)
  unfolding stop_fan_control
  stop_fan_control-Unmoved =
      Unmoved-bind (gets (λ s. s.fan_control_handle)) _
        (Unmoved-still (λ s. ok s.fan_control_handle))
        λ running.
          Unmoved-bind (modify (λ s. record s { fan_control_handle = none })) _
            (record { unmoved = λ s. record { in_force = λ k q. refl; remembered = refl } })
            λ _. Unmoved-bind (await_task X N running) _ (await_task-Unmoved running) λ _.
              Unmoved-bind (ask X N N.num_fans) _ (Unmoved-still (λ s. N.num_fans s.driver))
                (λ n. reset_fans-Unmoved (is_some running) 0 n)

  set_fans-Unmoved : (speed i n : ℕ) → Unmoved (set_fans X N speed i n)
  unfolding set_fans
  set_fans-Unmoved speed i zero = Unmoved-still (λ _. ok tt)
  set_fans-Unmoved speed i (suc n) =
      Unmoved-bind (call X N (N.set_fan_speed i speed)) (λ _. set_fans X N speed (suc i) n)
        (record {
          unmoved = λ s. record { in_force = L.fan_keeps i speed s.driver; remembered = refl };
        })
        (λ _. set_fans-Unmoved speed (suc i) n)

  start_curve_fan_control_task-Unmoved :
      (points : FanCurveMap) (settings : FanControlSettings)
      → Unmoved (start_curve_fan_control_task X N points settings)
  unfolding start_curve_fan_control_task
  start_curve_fan_control_task-Unmoved points settings =
      Unmoved-bind (stop_fan_control X N)
        (λ _.
          ask X N N.temperature
          >> (ask X N N.num_fans >>= λ n.
              (if nat_beq n 0 then raise no_fans else pure tt)
              >> modify (λ s. record s { fan_control_handle = some (points, settings) })))
        stop_fan_control-Unmoved
        (λ _.
          Unmoved-bind (ask X N N.temperature) _ (Unmoved-still (λ s. N.temperature s.driver)) λ _.
            Unmoved-bind (ask X N N.num_fans) _ (Unmoved-still (λ s. N.num_fans s.driver)) λ n.
              Unmoved-bind (if nat_beq n 0 then raise no_fans else pure tt)
                (λ _. modify (λ s. record s { fan_control_handle = some (points, settings) }))
                (record {
                  unmoved = λ s. elim (Bool-cases (nat_beq n 0)) [
                    | inl without ↦ rw (without) (SameOffsets-refl s)
                    | inr fans ↦ rw (fans) (SameOffsets-refl s)
                  ];
                })
                (λ _. record {
                  unmoved = λ s. record { in_force = λ k q. refl; remembered = refl };
                }))

  control_fans-Unmoved :
      (mode : FanControlMode) (settings : FanControlSettings)
      → Unmoved (control_fans X N mode settings)
  unfolding control_fans
  control_fans-Unmoved static settings =
      Unmoved-bind (stop_fan_control X N)
        (λ _. ask X N N.num_fans >>= λ n. set_fans X N (N.percent settings.static_speed) 0 n)
        stop_fan_control-Unmoved
        (λ _.
          Unmoved-bind (ask X N N.num_fans)
            (λ n. set_fans X N (N.percent settings.static_speed) 0 n)
            (Unmoved-still (λ s. N.num_fans s.driver))
            (λ n. set_fans-Unmoved (N.percent settings.static_speed) 0 n))
  control_fans-Unmoved curve settings =
      start_curve_fan_control_task-Unmoved settings.curve_points settings

  pub apply_fan_control-Unmoved :
      (enabled : Bool) (settings : Option FanControlSettings)
      → Unmoved (apply_fan_control X N enabled settings)
  unfolding apply_fan_control
  apply_fan_control-Unmoved false settings = stop_fan_control-Unmoved
  apply_fan_control-Unmoved true none = Unmoved-still (λ _. err no_fan_settings)
  apply_fan_control-Unmoved true (some settings) = control_fans-Unmoved settings.mode settings
