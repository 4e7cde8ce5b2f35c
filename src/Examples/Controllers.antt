-- ===== src/Examples/Controllers.antt =====
-- Controllers of GPUs, on concrete devices.
use yagc.Common.{
  ◌≡◌, refl, ◌↔◌, ℕ, Bool, true, false, none, some, List, [], ◌∷◌, ℤ, pos, negsuc, nat_eq, ok, err,
  Error, controller_failed, if◌then◌else◌, arith, ◌==◌, ◌&&◌, nat_beq, Bool-cases, inl, inr,
  unwrap_or,
}
use yagc.Common.Exec.{Exec}
use yagc.Common.Members.{member}
use yagc.Common.Entries.{lookup}
use yagc.Config.{Gpu, default_gpu, default_clocks}
use yagc.Controllers.Nvidia.{
  Clock, graphics, memory, same_clock, Nvml, NvidiaGpuController, apply_config,
}
use yagc.Controllers.Nvidia.Tracked.{KeepsOffsets, IsTracked, IsLeft}
use yagc.Controllers.Nvidia.Apply.{IsDistinct, none_listed, one_more}
use yagc.Controllers.Nvidia.Offsets.{apply_config-IsTracked, apply_config-offsets, configured_in}
use yagc.Examples.{crates}

-- A card with the states 0 and 2, whose driver holds offsets, does not tell those of the graphics
-- clock, and does not answer about the memory's.
abbrev offers : ℕ → Bool
offers p = member (0 ∷ 2 ∷ []) p

abbrev store : Clock → ℕ → ℤ → Exec (Clock → ℕ → ℤ) (Unit {0})
store c p v d =
    if offers p
    then (ok tt, λ k q. if same_clock k c && nat_beq p q then v else d k q)
    else (err controller_failed, d)

some_iff : (n p : ℕ) → (some n ≡ some p) ↔ (n ≡ p)
some_iff n p = ground arith

abbrev silent : Nvml
silent = record {
  Pstate = ℕ;
  pstate_eq = nat_eq;
  pstate_of = some;
  number = λ p. p;
  pstate_of_iff = some_iff;
  Driver = Clock → ℕ → ℤ;
  power_management_limit = λ d. ok 200000;
  power_management_limit_default = λ d. ok 200000;
  set_power_management_limit = λ limit d. (ok tt, d);
  supported_performance_states = λ d. ok (0 ∷ 2 ∷ []);
  clock_offset = λ c p d. if same_clock c graphics then ok (pos 0) else err controller_failed;
  set_clock_offset = store;
  temperature = λ d. ok 40;
  num_fans = λ d. ok 1;
  set_fan_speed = λ i speed d. (ok tt, d);
  join_task = λ task d. (ok tt, d);
  set_default_fan_speed = λ i d. (ok tt, d);
  milliwatts = λ watts. watts;
  percent = λ ratio. ratio;
}

store-offers :
    (c : Clock) (p : ℕ) (v : ℤ) (d : Clock → ℕ → ℤ) → (store c p v d).0 ≡ ok tt → offers p ≡ true
store-offers c p v d h = elim (Bool-cases (offers p)) [
  | inl there ↦ there
  | inr missing ↦ absurd (ground (arith, missing, h))
]

graphics-offers : (c : Clock) (p : ℕ) → (same_clock c graphics && offers p) ≡ true → offers p ≡ true
graphics-offers c p h = ground (arith, h)

graphics-reports :
    (c : Clock) (p : ℕ)
    → (same_clock c graphics && offers p) ≡ true
    → silent.clock_offset c p (λ k q. pos 0) ≡ ok (pos 0)
graphics-reports c p h = ground (arith, h)

abbrev silent-KeepsOffsets : KeepsOffsets silent
silent-KeepsOffsets = record {
  offset = λ d. d;
  answered = λ c p. same_clock c graphics && offers p;
  lists = λ c p d h. (0 ∷ 2 ∷ [], refl, graphics-offers c p h);
  reports = λ c p d h. (pos 0, graphics-reports c p h);
  sets = λ c k p q v d h. rw (store-offers c p v d h) refl;
  fails = λ c k p q v d h. elim (Bool-cases (offers p)) [
    | inl there ↦ absurd (ground (arith, there, h))
    | inr missing ↦ rw (missing) refl
  ];
  limit_keeps = λ n d k q. refl;
  fan_keeps = λ i n d k q. refl;
  join_keeps = λ task d k q. refl;
  default_fan_keeps = λ i d k q. refl;
}

-- An offset of 100 was applied to the graphics clock in state 0.
abbrev boosted : NvidiaGpuController crates silent
boosted = record {
  driver = λ k q. if same_clock k graphics && nat_beq 0 q then pos 100 else pos 0;
  fan_control_handle = none;
  last_applied_offsets = λ k. if same_clock k graphics then (0, pos 100) ∷ [] else [];
}

boosted_remembers :
    (k : Clock) (q : ℕ) (v : ℤ)
    → lookup (boosted.last_applied_offsets k) q ≡ some v
    → boosted.driver k q ≡ v
unfolding same_clock lookup
boosted_remembers graphics q v h = ground (arith, h)
boosted_remembers memory q v h = ground (arith, h)

boosted_others :
    (k : Clock) (q : ℕ)
    → lookup (boosted.last_applied_offsets k) q ≡ none
    → boosted.driver k q ≡ pos 0
unfolding same_clock lookup
boosted_others graphics q h = ground (arith, h)
boosted_others memory q h = refl

boosted-IsTracked : IsTracked crates silent silent-KeepsOffsets boosted
boosted-IsTracked = record { remembered = boosted_remembers; others = λ k q a. boosted_others k q }

-- Now the memory is to run faster in state 2, and slower in state 0.
abbrev other_offsets : Gpu crates
other_offsets = record (default_gpu crates) {
  clocks_configuration = record (default_clocks crates) {
    mem_clock_offsets = (2, pos 500) ∷ (0, negsuc 49) ∷ [];
  };
}

distinct : IsDistinct ((2, pos 500) ∷ (0, negsuc 49) ∷ [])
unfolding lookup
distinct = one_more refl (one_more refl none_listed)

apply_config-IsTracked_example :
    IsTracked crates silent silent-KeepsOffsets (apply_config crates silent other_offsets boosted).1
apply_config-IsTracked_example =
    apply_config-IsTracked crates silent silent-KeepsOffsets other_offsets boosted boosted-IsTracked
      none_listed distinct

applied : (apply_config crates silent other_offsets boosted).0 ≡ ok tt
unfolding apply_config lookup member yagc.Common.Entries.remove
applied = refl

apply_config-offsets_example :
    (left : ℤ) × IsLeft crates silent silent-KeepsOffsets true (boosted.driver graphics 0) left
    × ((apply_config crates silent other_offsets boosted).1.driver graphics 0
        ≡ unwrap_or (configured_in crates silent other_offsets graphics 0) left)
unfolding same_clock member
apply_config-offsets_example =
    apply_config-offsets crates silent silent-KeepsOffsets other_offsets boosted boosted-IsTracked
      none_listed distinct applied graphics 0
