-- ===== src/Handler/Requests/Invariants.antt =====
-- What holds after any sequence of requests and of pending changes that end: the current profile
-- exists, and at most one change waits for a confirmation, the one whose sender the handler holds.
use yagc.Common.{◌≡◌, ℕ, Bool, true, Option, String, string_eq, arith}
use yagc.Common.Triples.{Preserves}
use yagc.Crates.{Crates}
use yagc.Config.{Gpu}
use yagc.Rules.{ProfileRule}
use yagc.Handler.{Env, Handler, Action}
use yagc.Handler.Edit.{edit_gpu_config}
use yagc.Handler.Edit.Outcomes.{edit_gpu_config-OnlyPending}
use yagc.Handler.Edit.Pending.{IsPending, KeepsTasks, edit_gpu_config-IsPending}
use yagc.Handler.Switch
use yagc.Handler.Switch.Active.{
  has_current, create_profile-has_current, delete_profile-has_current, set_profile-has_current,
  set_profile_rule-has_current, move_profile-has_current, reset_config-has_current,
}

module _ (X : Crates) (E : Env X) where
  pub record IsSound (h : Handler X E) : Type 0 where
    pub pending : IsPending X E h
    pub current : has_current X E h.config ≡ true

  pub KeepsTasks-IsPending :
      (h h' : Handler X E) → KeepsTasks X E h h' → IsPending X E h → IsPending X E h'
  KeepsTasks-IsPending h h' k p = record {
    one = λ ch. rw (k.tasks, k.tx) (p.one ch);
    fresh = λ ch. rw (k.tasks, k.next_channel) (p.fresh ch);
    controlled = λ ch. rw (k.tasks, k.controllers) (p.controlled ch);
  }

  pub edit_gpu_config-IsSound :
      (id : String) (f : Gpu X → Gpu X) → Preserves IsSound (edit_gpu_config X E id f)
  edit_gpu_config-IsSound id f h s = record {
    pending = edit_gpu_config-IsPending X E id f h s.pending;
    current = rw (edit_gpu_config-OnlyPending X E id f h).config s.current;
  }

  -- An operation on profiles touches no task.
  pub profile_op-IsSound :
      {A : Type 0} (m : Action X E A)
      → ((h : Handler X E) → KeepsTasks X E h (m h).1)
      → ((h : Handler X E)
          → has_current X E h.config ≡ true
          → has_current X E (m h).1.config ≡ true)
      → Preserves IsSound m
  profile_op-IsSound m k c h s = record {
    pending = KeepsTasks-IsPending h (m h).1 (k h) s.pending;
    current = c h s.current;
  }

  pub set_profile-IsSound :
      (name : Option String) (auto_switch : Bool)
      → Preserves IsSound (Switch.set_profile X E name auto_switch)
  unfolding Switch.set_profile
  set_profile-IsSound name auto_switch =
      profile_op-IsSound (Switch.set_profile X E name auto_switch) (λ h. ground arith)
        (set_profile-has_current X E name auto_switch)

  pub create_profile-IsSound :
      (name : String) (base : Switch.ProfileBase)
      → Preserves IsSound (Switch.create_profile X E name base)
  unfolding Switch.create_profile
  create_profile-IsSound name base =
      profile_op-IsSound (Switch.create_profile X E name base) (λ h. ground arith)
        (create_profile-has_current X E name base)

  pub delete_profile-IsSound : (name : String) → Preserves IsSound (Switch.delete_profile X E name)
  unfolding Switch.delete_profile
  delete_profile-IsSound name =
      profile_op-IsSound (Switch.delete_profile X E name) (λ h. ground arith)
        (delete_profile-has_current X E name)

  pub move_profile-IsSound :
      (name : String) (new_position : ℕ)
      → Preserves IsSound (Switch.move_profile X E name new_position)
  unfolding Switch.move_profile
  move_profile-IsSound name new_position =
      profile_op-IsSound (Switch.move_profile X E name new_position) (λ h. ground arith)
        (move_profile-has_current X E name new_position)

  pub set_profile_rule-IsSound :
      (name : String) (rule : Option ProfileRule)
      → Preserves IsSound (Switch.set_profile_rule X E name rule)
  unfolding Switch.set_profile_rule
  set_profile_rule-IsSound name rule =
      profile_op-IsSound (Switch.set_profile_rule X E name rule) (λ h. ground arith)
        (set_profile_rule-has_current X E name rule)

  pub reset_config-IsSound : Preserves IsSound (Switch.reset_config X E)
  unfolding Switch.reset_config
  reset_config-IsSound =
      profile_op-IsSound (Switch.reset_config X E) (λ h. ground arith)
        (λ h _. reset_config-has_current X E h)
