-- ===== src/Examples.antt =====
-- A concrete daemon, on which the theorems are applied: maps and sets as lists, GPUs that log what
-- is sent to them and refuse a power cap of zero, and a file that keeps what was written.
mod Amd
mod Client
mod Controllers
mod Devices
mod Edits
mod Fans
mod Intel
mod Profiles
mod Reload
mod Settings
use yagc.Common.{
  ◌≡◌, refl, ◌↔◌, ℕ, suc, Bool, true, false, Option, none, some, List, [], ◌∷◌, String, Eq, ◌==◌, ℤ,
  pos, nat_eq, string_eq, int_eq, Result, ok, err, Error, controller_failed, is_empty,
  if◌then◌else◌, arith, eq_self,
}
use yagc.Common.Exec.{Exec}
use yagc.Common.Entries.{lookup, insert, remove, index_of, map_values, swap}
use yagc.Common.Members.{member, add, discard, member-nil, member-add, member-discard}
use yagc.Crates.{Crates}
use yagc.Config.{Gpu, default_gpu, Profile, Config, default_config, F64}
use yagc.Handler.{Env, Handler}

pub is_empty_iff :
    {A : Type 0} ⦃e : Eq A⦄ (s : List A) → (is_empty s ≡ true) ↔ ((a : A) → member s a ≡ false)
unfolding member
is_empty_iff [] = (λ _ a. refl, λ _. refl)
is_empty_iff (x ∷ s) = (λ h. absurd (ground arith), λ h. absurd (ground (arith, h x, eq_self x)))

abbrev pub crates : Crates
crates = record {
  IndexMap = λ K V. List (K × V);
  iter = λ m. m;
  new = [];
  get = lookup;
  set_entry = insert;
  shift_remove = remove;
  get_index_of = index_of;
  swap_indices = swap;
  update_values = map_values;
  iter-new = refl;
  get-iter = λ m k. refl;
  iter-set_entry = λ m k v. refl;
  iter-shift_remove = λ m k. refl;
  get_index_of-iter = λ m k. refl;
  iter-swap_indices = λ m i j. refl;
  iter-update_values = λ f m. refl;
  IndexSet = List;
  new_set = [];
  is_empty_set = is_empty;
  contains = member;
  insert_member = add;
  remove_member = discard;
  contains-new_set = member-nil;
  is_empty_set_iff = is_empty_iff;
  contains-insert_member = member-add;
  contains-remove_member = member-discard;
  PerformanceLevel = ℕ;
  manual = 3;
  level_eq = nat_eq;
  PowerLevelKind = ℕ;
  kind_eq = nat_eq;
}

-- What was sent to which GPU, the latest first.
pub data Call : Type 0 where
  applied : String → Gpu crates → Call
  cleaned was_reset : String → Call

abbrev pub refuses_zero : Option F64 → Result (Unit {0})
refuses_zero none = ok tt
refuses_zero (some cap_value) = if cap_value == 0 then err controller_failed else ok tt

abbrev pub env : Env crates
env = record {
  Hardware = List Call;
  apply_config = λ id gpu calls. (refuses_zero gpu.power_cap, applied id gpu ∷ calls);
  cleanup_clocks = λ id calls. (ok tt, cleaned id ∷ calls);
  reset_pmfw_settings = λ id calls. was_reset id ∷ calls;
  Disk = List (Config crates);
  write_config = λ c disk. (ok tt, c ∷ disk);
}

abbrev pub quiet : Profile crates
quiet = record {
  gpus = ("gpu0", record (default_gpu crates) { power_cap = some 70 }) ∷ [];
  rule = none;
}

abbrev pub loud : Profile crates
loud = record { gpus = []; rule = none }

abbrev pub two_profiles : Config crates
two_profiles = record (default_config crates) { profiles = ("quiet", quiet) ∷ ("loud", loud) ∷ [] }

-- One GPU, two profiles, and no change pending.
abbrev pub start : Handler crates env
start = record {
  config = two_profiles;
  gpu_controllers = "gpu0" ∷ [];
  confirm_config_tx = none;
  tasks = [];
  next_channel = 0;
  profile_watcher_tx = none;
  next_watcher = 0;
  watcher_commands = [];
  profile_watcher_state = none;
  hardware = [];
  disk = [];
}
