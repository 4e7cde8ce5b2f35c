-- ===== src/Handler/Requests/Stores.antt =====
-- The operations that store one GPU's settings keep the daemon's state sound: the end of a pending
-- change, and the entry that a request about fans makes.
use yagc.Common.{
  ◌≡◌, ℕ, true, inl, inr, String, string_eq, nat_eq, unwrap_or, ok, arith, Option-cases,
  Result-cases,
}
use yagc.Common.Entries
use yagc.Common.Entries.{lookup}
use yagc.Common.Triples.{Preserves}
use yagc.Crates.{Crates}
use yagc.Config.{Gpu, default_gpu, Config}
use yagc.Config.Profiles.{gpus, with_gpus, with_gpus_of}
use yagc.Handler.{Env, Handler, ConfirmCommand}
use yagc.Handler.Edit.{
  edit_gpu_config, wake_task, Wake, resolve_task, finish_task, set_confirm_tx, store_config,
  revert_config, confirm_config,
}
use yagc.Handler.Edit
use yagc.Handler.Edit.Pending.{confirm_pending_config-IsPending, wake_task-IsPending}
use yagc.Handler.Settings
use yagc.Handler.Settings.{FanOptions}
use yagc.Handler.Switch.Active.{has_current, is_profile-set_entry}
use yagc.Handler.Requests.Invariants.{IsSound, profile_op-IsSound}

module _ (X : Crates) (E : Env X) where
  with_gpus-has_current :
      (c d : Config X) (m : X.IndexMap String (Gpu X))
      → with_gpus X c m ≡ ok d
      → has_current X E c ≡ true
      → has_current X E d ≡ true
  unfolding with_gpus with_gpus_of
  with_gpus-has_current c d m e v = elim (Option-cases c.current_profile) [
    | inl default ↦ ground arith
    | inr (name, ec) ↦ elim (Option-cases (X.get c.profiles name)) [
      | inl gone ↦ absurd (ground arith)
      | inr (p, there) ↦ ground (
        arith,
        is_profile-set_entry X E c.profiles name (record p { gpus = m }) c.current_profile,
      )
    ]
  ]

  store_config-has_current :
      (id : String) (new_config : Gpu X) (h : Handler X E)
      → has_current X E h.config ≡ true
      → has_current X E (store_config X E id new_config h).config ≡ true
  unfolding store_config
  store_config-has_current id new_config h v = elim (Result-cases (gpus X h.config)) [
    | inl (m, e) ↦ elim (Result-cases (with_gpus X h.config (X.set_entry m id new_config))) [
      | inl (d, ed) ↦ rw (e, ed, store_config) (with_gpus-has_current h.config d _ ed v)
      | inr (x, ed) ↦ rw (e, ed, store_config) v
    ]
    | inr (x, e) ↦ rw (e, store_config) v
  ]

  wake_task-has_current :
      (ch : ℕ) (wake : Wake) (h : Handler X E)
      → has_current X E h.config ≡ true
      → has_current X E (wake_task X E ch wake h).config ≡ true
  unfolding wake_task
  wake_task-has_current ch wake h v = elim (Option-cases (lookup h.tasks ch)) [
    | inl gone ↦ rw (gone, wake_task) v
    | inr (t, there) ↦ ground (
      arith,
      store_config-has_current t.id t.new_config (record h { tasks = Entries.remove h.tasks ch }),
    )
  ]

  pub wake_task-IsSound :
      (ch : ℕ) (wake : Wake) (h : Handler X E)
      → IsSound X E h
      → IsSound X E (wake_task X E ch wake h)
  wake_task-IsSound ch wake h s = record {
    pending = wake_task-IsPending X E ch wake h s.pending;
    current = wake_task-has_current ch wake h s.current;
  }

  pub confirm_pending_config-IsSound :
      (command : ConfirmCommand) → Preserves (IsSound X E) (Edit.confirm_pending_config X E command)
  unfolding Edit.confirm_pending_config
  confirm_pending_config-IsSound command h s = record {
    pending = confirm_pending_config-IsPending X E command h s.pending;
    current = ground (arith, s.current);
  }

  entry_or_default-has_current :
      (id : String) (h : Handler X E)
      → has_current X E h.config ≡ true
      → has_current X E (Settings.entry_or_default X E id h).1.config ≡ true
  unfolding Settings.entry_or_default
  entry_or_default-has_current id h v = elim (Result-cases (gpus X h.config)) [
    | inl (m, e) ↦
        let n = X.set_entry m id (unwrap_or (X.get m id) (default_gpu X)) in
        elim (Result-cases (with_gpus X h.config n)) [
          | inl (d, ed) ↦
              rw (Settings.entry_or_default, e, ed) (with_gpus-has_current h.config d n ed v)
          | inr (x, ed) ↦ rw (Settings.entry_or_default, e, ed) v
        ]
    | inr (x, e) ↦ rw (Settings.entry_or_default, e) v
  ]

  pub entry_or_default-IsSound :
      (id : String) → Preserves (IsSound X E) (Settings.entry_or_default X E id)
  unfolding Settings.entry_or_default
  entry_or_default-IsSound id =
      profile_op-IsSound X E (Settings.entry_or_default X E id) (λ h. ground arith)
        (entry_or_default-has_current id)
