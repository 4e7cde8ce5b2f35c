-- ===== src/Controllers/Nvidia/Tracked.antt =====
-- The offsets that the controller remembers are those in force: what that means, what the driver is
-- relied on for it, and how a reset keeps it.
use yagc.Common.{
  ℕ, ℤ, pos, true, false, ◌≡◌, refl, ◌∙◌, none, some, List, ◌&&◌, nat_eq, int_eq, ok, err, Error,
  ◌⊎◌, if◌then◌else◌, arith, Bool, Bool-cases, inl, inr,
}
use yagc.Common.Entries.{lookup}
use yagc.Common.Entries.Laws.{lookup-insert, lookup-remove}
use yagc.Common.Members.{member}
use yagc.Crates.{Crates}
use yagc.Config.{FanCurveMap, FanControlSettings}
use yagc.Controllers.Nvidia.{
  Clock, graphics, memory, same_clock, Nvml, NvidiaGpuController, remember, forget,
}

-- What the driver does about offsets: setting an offset changes that one, or nothing if it fails;
-- nothing else changes an offset. There may be clocks and states about which the driver always
-- answers: it lists the state and reports some offset, which need not be the one in force. About the
-- others a question may fail, now and then or always.
pub record KeepsOffsets (N : Nvml) : Type 0 where
  pub offset : N.Driver → Clock → N.Pstate → ℤ
  pub answered : Clock → N.Pstate → Bool
  pub lists :
      (c : Clock) (p : N.Pstate) (d : N.Driver)
      → answered c p ≡ true
      → (ps : List N.Pstate) × (N.supported_performance_states d ≡ ok ps)
        × (member ⦃e = N.pstate_eq⦄ ps p ≡ true)
  pub reports :
      (c : Clock) (p : N.Pstate) (d : N.Driver)
      → answered c p ≡ true
      → (v : ℤ) × (N.clock_offset c p d ≡ ok v)
  pub sets :
      (c k : Clock) (p q : N.Pstate) (v : ℤ) (d : N.Driver)
      → (N.set_clock_offset c p v d).0 ≡ ok tt
      → offset (N.set_clock_offset c p v d).1 k q
        ≡ (if same_clock k c && N.pstate_eq.test p q then v else offset d k q)
  pub fails :
      (c k : Clock) (p q : N.Pstate) (v : ℤ) (d : N.Driver) {e : Error}
      → (N.set_clock_offset c p v d).0 ≡ err e
      → offset (N.set_clock_offset c p v d).1 k q ≡ offset d k q
  pub limit_keeps :
      (n : ℕ) (d : N.Driver) (k : Clock) (q : N.Pstate)
      → offset (N.set_power_management_limit n d).1 k q ≡ offset d k q
  pub fan_keeps :
      (i n : ℕ) (d : N.Driver) (k : Clock) (q : N.Pstate)
      → offset (N.set_fan_speed i n d).1 k q ≡ offset d k q
  pub join_keeps :
      (task : FanCurveMap × FanControlSettings) (d : N.Driver) (k : Clock) (q : N.Pstate)
      → offset (N.join_task task d).1 k q ≡ offset d k q
  pub default_fan_keeps :
      (i : ℕ) (d : N.Driver) (k : Clock) (q : N.Pstate)
      → offset (N.set_default_fan_speed i d).1 k q ≡ offset d k q

pub same_clock_sound : (k c : Clock) → same_clock k c ≡ true → k ≡ c
unfolding same_clock
same_clock_sound graphics graphics h = refl
same_clock_sound memory memory h = refl
same_clock_sound graphics memory h = cc
same_clock_sound memory graphics h = cc

module _ (X : Crates) (N : Nvml) (L : KeepsOffsets N) where
  -- Each remembered offset is the one in force. Where none is remembered and the driver always
  -- answers, it is zero.
  pub record IsTracked (s : NvidiaGpuController X N) : Type 0 where
    pub remembered :
        (k : Clock) (q : N.Pstate) (v : ℤ)
        → lookup ⦃e = N.pstate_eq⦄ (s.last_applied_offsets k) q ≡ some v
        → L.offset s.driver k q ≡ v
    pub others :
        (k : Clock) (q : N.Pstate)
        → L.answered k q ≡ true
        → lookup ⦃e = N.pstate_eq⦄ (s.last_applied_offsets k) q ≡ none
        → L.offset s.driver k q ≡ pos 0

  -- An offset is zero, or as it was, which it is not where it was reset for certain.
  abbrev pub IsLeft : Bool → ℤ → ℤ → Type 0
  IsLeft certain before after = (after ≡ pos 0) ⊎ ((certain ≡ false) × (after ≡ before))

  pub lookup-forget :
      (c k : Clock) (p q : N.Pstate) (s : NvidiaGpuController X N)
      → lookup ⦃e = N.pstate_eq⦄ ((forget X N c p s).last_applied_offsets k) q ≡ (
          if same_clock k c && N.pstate_eq.test p q
          then none
          else lookup ⦃e = N.pstate_eq⦄ (s.last_applied_offsets k) q)
  unfolding forget
  lookup-forget c k p q s =
      ground (arith, lookup-remove ⦃e = N.pstate_eq⦄ (s.last_applied_offsets k) p q)

  pub lookup-remember :
      (c k : Clock) (p q : N.Pstate) (v : ℤ) (s : NvidiaGpuController X N)
      → lookup ⦃e = N.pstate_eq⦄ ((remember X N c p v s).last_applied_offsets k) q ≡ (
          if same_clock k c && N.pstate_eq.test p q
          then some v
          else lookup ⦃e = N.pstate_eq⦄ (s.last_applied_offsets k) q)
  unfolding remember
  lookup-remember c k p q v s =
      ground (arith, lookup-insert ⦃e = N.pstate_eq⦄ (s.last_applied_offsets k) p q v)

  pub driver-forget :
      (c : Clock) (p : N.Pstate) (s : NvidiaGpuController X N) (k : Clock) (q : N.Pstate)
      → L.offset (forget X N c p s).driver k q ≡ L.offset s.driver k q
  unfolding forget
  driver-forget c p s k q = refl

  -- Two states with the same offsets, in the driver and remembered.
  pub record SameOffsets (s t : NvidiaGpuController X N) : Type 0 where
    pub in_force : (k : Clock) (q : N.Pstate) → L.offset t.driver k q ≡ L.offset s.driver k q
    pub remembered : t.last_applied_offsets ≡ s.last_applied_offsets

  pub SameOffsets-IsTracked :
      (s t : NvidiaGpuController X N) → SameOffsets s t → IsTracked s → IsTracked t
  SameOffsets-IsTracked s t same tracked = record {
    remembered =
        λ k q v h. same.in_force k q ∙ tracked.remembered k q v (rw (same.remembered) at h);
    others = λ k q a h. same.in_force k q ∙ tracked.others k q a (rw (same.remembered) at h);
  }

  driver-remember :
      (c : Clock) (p : N.Pstate) (v : ℤ) (s : NvidiaGpuController X N) (k : Clock) (q : N.Pstate)
      → L.offset (remember X N c p v s).driver k q ≡ L.offset s.driver k q
  unfolding remember
  driver-remember c p v s k q = refl

  -- An offset was set in the driver and is remembered then.
  pub remember-Leads :
      (c : Clock) (p : N.Pstate) (v : ℤ) (s : NvidiaGpuController X N)
      → IsTracked s
      → (N.set_clock_offset c p v s.driver).0 ≡ ok tt
      → IsTracked (remember X N c p v (record s { driver = (N.set_clock_offset c p v s.driver).1 }))
        × ((k : Clock) (q : N.Pstate)
            → L.offset
                (remember X N c p v
                  (record s { driver = (N.set_clock_offset c p v s.driver).1 })).driver
                k
                q
              ≡ (if same_clock k c && N.pstate_eq.test p q then v else L.offset s.driver k q))
  remember-Leads c p v s tracked done =
      let t : NvidiaGpuController X N = record s {
        driver = (N.set_clock_offset c p v s.driver).1;
      } in
      let at : (k : Clock) (q : N.Pstate)
          → L.offset (remember X N c p v t).driver k q
            ≡ (if same_clock k c && N.pstate_eq.test p q then v else L.offset s.driver k q) =
        λ k q. driver-remember c p v t k q ∙ L.sets c k p q v s.driver done in
      (
        record {
          remembered = λ k q w h. elim (Bool-cases (same_clock k c && N.pstate_eq.test p q)) [
            | inl this ↦
                let now = rw (lookup-remember c k p q v t, this) at h in
                at k q ∙ rw (this) (ground (arith, now))
            | inr other ↦
                let there = rw (lookup-remember c k p q v t, other) at h in
                at k q ∙ rw (other) (tracked.remembered k q w there)
          ];
          others = λ k q a h. elim (Bool-cases (same_clock k c && N.pstate_eq.test p q)) [
            | inl this ↦ absurd (ground (arith, this, h, lookup-remember c k p q v t))
            | inr other ↦
                let there = rw (lookup-remember c k p q v t, other) at h in
                at k q ∙ rw (other) (tracked.others k q a there)
          ];
        },
        at,
      )
