-- ===== src/Handler/Edit/Outcomes.antt =====
-- What an edit of a GPU's configuration changes, on every branch.
use yagc.Common.{
  ◌≡◌, ℕ, suc, true, none, some, ◌⊎◌, inl, inr, String, string_eq, nat_eq, ok, err, Error, arith,
  is_some, unwrap_or, Bool-cases, Result-cases, not, ◌||◌,
}
use yagc.Common.Entries
use yagc.Common.Entries.{lookup}
use yagc.Common.Members.{member}
use yagc.Crates.{Crates}
use yagc.Config.{Gpu, default_gpu}
use yagc.Config.Profiles.{gpus}
use yagc.Handler.{Env, waiting, Handler}
use yagc.Handler.Edit.{edit_gpu_config}

module _ (X : Crates) (E : Env X) where
  -- Two states that differ at most in the hardware and in the changes that wait for a confirmation.
  pub record OnlyPending (h h' : Handler X E) : Type 0 where
    pub config : h'.config ≡ h.config
    pub disk : h'.disk ≡ h.disk
    pub gpu_controllers : h'.gpu_controllers ≡ h.gpu_controllers
    pub profile_watcher_tx : h'.profile_watcher_tx ≡ h.profile_watcher_tx
    pub watcher_commands : h'.watcher_commands ≡ h.watcher_commands
    pub profile_watcher_state : h'.profile_watcher_state ≡ h.profile_watcher_state

  -- Whatever its result, an edit leaves the configuration, its file, the list of GPUs, and the
  -- watcher with its state as they were.
  pub edit_gpu_config-OnlyPending :
      (id : String) (f : Gpu X → Gpu X) (h : Handler X E)
      → OnlyPending h (edit_gpu_config X E id f h).1
  unfolding edit_gpu_config
  edit_gpu_config-OnlyPending id f h = ground arith

  -- What the hardware does when an edit's settings are sent.
  abbrev pub applied : String → Gpu X → E.Hardware → E.Hardware
  applied id gpu hw = (E.apply_config id gpu hw).1

  -- An edit that fails changes nothing, or it changes only the GPU, which got the new settings and,
  -- as they failed with the error that the edit returns, then the previous ones.
  pub edit_gpu_config-err :
      (id : String) (f : Gpu X → Gpu X) (h : Handler X E) {e : Error}
      → (edit_gpu_config X E id f h).0 ≡ err e
      → ((edit_gpu_config X E id f h).1 ≡ h)
        ⊎ ((m : X.IndexMap String (Gpu X)) × (gpus X h.config ≡ ok m)
            × ((E.apply_config id (f (unwrap_or (X.get m id) (default_gpu X))) h.hardware).0
                ≡ err e)
            × ((edit_gpu_config X E id f h).1 ≡ record h {
              hardware =
                  applied id
                    (unwrap_or (X.get m id) (default_gpu X))
                    (applied id (f (unwrap_or (X.get m id) (default_gpu X))) h.hardware);
            }))
  unfolding edit_gpu_config
  edit_gpu_config-err id f h e = elim (Result-cases (gpus X h.config)) [
    | inl (m, em) ↦
        elim (Bool-cases (is_some h.confirm_config_tx || not (member h.gpu_controllers id))) [
          | inl refused ↦ inl (ground arith)
          | inr sent ↦ inr (m, em, ground arith, ground arith)
        ]
    | inr (x, ex) ↦ inl (ground arith)
  ]

  -- An edit that succeeds answers with the time for confirming it.
  pub edit_gpu_config-ok :
      (id : String) (f : Gpu X → Gpu X) (h : Handler X E) {timer : ℕ}
      → (edit_gpu_config X E id f h).0 ≡ ok timer
      → (m : X.IndexMap String (Gpu X)) × (gpus X h.config ≡ ok m)
        × (member h.gpu_controllers id ≡ true)
        × (h.confirm_config_tx ≡ none)
        × (timer ≡ h.config.apply_settings_timer)
        × ((edit_gpu_config X E id f h).1 ≡ record h {
          hardware = applied id (f (unwrap_or (X.get m id) (default_gpu X))) h.hardware;
          confirm_config_tx = some h.next_channel;
          next_channel = suc h.next_channel;
          tasks = Entries.insert h.tasks h.next_channel (record {
            id = id;
            previous_config = unwrap_or (X.get m id) (default_gpu X);
            new_config = f (unwrap_or (X.get m id) (default_gpu X));
            apply_timer = h.config.apply_settings_timer;
            signal = waiting;
          });
        })
  unfolding edit_gpu_config
  edit_gpu_config-ok id f h e = elim (Result-cases (gpus X h.config)) [
    | inl (m, em) ↦ (m, em, ground arith, ground arith, ground arith, ground arith)
    | inr (x, ex) ↦ absurd (ground arith)
  ]
