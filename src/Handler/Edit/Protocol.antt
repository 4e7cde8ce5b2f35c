-- ===== src/Handler/Edit/Protocol.antt =====
-- An edit from its request to its end: confirmed, reverted, or timed out.
use yagc.Common.{
  ◌≡◌, refl, ℕ, suc, true, none, some, inl, inr, String, string_eq, nat_eq, ok, err, arith, is_some,
  unwrap_or, if◌then◌else◌, Option-cases, eq_self, ap, ◌∙◌, no_pending_changes,
}
use yagc.Common.Entries
use yagc.Common.Entries.{lookup}
use yagc.Common.Members.{member}
use yagc.Crates.{Crates}
use yagc.Config.{Gpu, default_gpu, Config}
use yagc.Config.Profiles.{gpus}
use yagc.Config.Profiles.Active.{IsWritten, with_gpus-IsWritten}
use yagc.Handler.{ConfirmCommand, confirm, revert, Env, waiting, sent, ConfirmTask, Handler}
use yagc.Handler.Edit.{
  edit_gpu_config, wake_task, timer, channel, confirm_pending_config, store_config, revert_config,
  confirm_config,
}
use yagc.Handler.Edit.Outcomes.{applied, edit_gpu_config-ok}
use yagc.Handler.Edit.Pending.{IsPending}
use yagc.Handler.Edit.Tasks.{found, wake_timer, wake_told, told, set_confirm_tx-ClearsSender}

module _ (X : Crates) (E : Env X) where
  -- Where the task of a pending change waits on its channel, a command about it reaches that task:
  -- it is accepted exactly if a change is pending, and refused as such otherwise.
  pub confirm_pending_config_accepted :
      (h : Handler X E) (command : ConfirmCommand)
      → IsPending X E h
      → (confirm_pending_config X E command h).0
        ≡ (if is_some h.confirm_config_tx then ok tt else err no_pending_changes)
  unfolding confirm_pending_config
  confirm_pending_config_accepted h command p = elim (Option-cases h.confirm_config_tx) [
    | inl idle ↦ ground arith
    | inr (tx, e) ↦ ground (arith, p.one tx, eq_self tx)
  ]

  -- How a pending change ends without a confirmation.
  pub data Ending : Type 0 where
    times_out user_reverts : Ending

  unfoldable pub ended : Ending → ℕ → Handler X E → Handler X E
  ended times_out ch h = wake_task X E ch timer h
  ended user_reverts ch h = wake_task X E ch channel (confirm_pending_config X E revert h).1

  ended-reverts :
      (ending : Ending) (h : Handler X E) (ch : ℕ) (t : ConfirmTask X)
      → h.confirm_config_tx ≡ some ch
      → lookup h.tasks ch ≡ some t
      → member h.gpu_controllers t.id ≡ true
      → ((ended ending ch h).config ≡ h.config)
        × ((ended ending ch h).disk ≡ h.disk)
        × ((ended ending ch h).hardware ≡ applied X E t.id t.previous_config h.hardware)
        × ((ended ending ch h).confirm_config_tx ≡ none)
  unfolding ended revert_config
  ended-reverts times_out h ch t tx there has =
      let c =
        set_confirm_tx-ClearsSender X E
          (revert_config X E t (record h { tasks = Entries.remove h.tasks ch })) in
      rw (wake_timer X E h ch t there has) (c.config, c.disk, c.hardware, c.tx)
  ended-reverts user_reverts h ch t tx there has =
      let t' : ConfirmTask X = record t { signal = sent revert } in
      let h' : Handler X E = record h {
        confirm_config_tx = none;
        tasks = Entries.insert h.tasks ch t';
      } in
      let c =
        set_confirm_tx-ClearsSender X E
          (revert_config X E t' (record h' { tasks = Entries.remove h'.tasks ch })) in
      rw
        (
          told X E h ch t revert tx there,
          wake_told X E h' ch t' (found X E h ch t') has revert refl,
        )
        (c.config, c.disk, c.hardware, c.tx)

  abbrev pub previous : String → X.IndexMap String (Gpu X) → Gpu X
  previous id m = unwrap_or (X.get m id) (default_gpu X)

  -- The task that an accepted edit leaves, and the state after it.
  abbrev pub pending_task :
      String → (Gpu X → Gpu X) → X.IndexMap String (Gpu X) → Handler X E → ConfirmTask X
  pending_task id f m h = record {
    id = id;
    previous_config = previous id m;
    new_config = f (previous id m);
    apply_timer = h.config.apply_settings_timer;
    signal = waiting;
  }

  abbrev pub after_edit :
      String → (Gpu X → Gpu X) → X.IndexMap String (Gpu X) → Handler X E → Handler X E
  after_edit id f m h = record h {
    hardware = applied X E id (f (previous id m)) h.hardware;
    confirm_config_tx = some h.next_channel;
    next_channel = suc h.next_channel;
    tasks = Entries.insert h.tasks h.next_channel (pending_task id f m h);
  }

  -- An accepted edit whose time runs out, or that the user reverts: the GPU first got the new
  -- settings and then the previous ones, the configuration and its file are untouched, and the
  -- next edit is accepted again.
  pub edit_gpu_config-ended :
      (id : String) (f : Gpu X → Gpu X) (h : Handler X E) {time : ℕ} (ending : Ending)
      → (edit_gpu_config X E id f h).0 ≡ ok time
      → let h' = ended ending h.next_channel (edit_gpu_config X E id f h).1 in
        (m : X.IndexMap String (Gpu X)) × (gpus X h.config ≡ ok m)
        × (h'.config ≡ h.config)
        × (h'.disk ≡ h.disk)
        × (h'.hardware
            ≡ applied X E id (previous id m) (applied X E id (f (previous id m)) h.hardware))
        × (h'.confirm_config_tx ≡ none)
  edit_gpu_config-ended id f h ending good =
      let (m, em, has, idle, et, e) = edit_gpu_config-ok X E id f h good in
      let h₁ = (edit_gpu_config X E id f h).1 in
      let (config, disk, hardware, tx) =
        ended-reverts ending h₁ h.next_channel (pending_task id f m h)
          (ap (λ s. s.confirm_config_tx) e)
          (ap (λ s. lookup s.tasks h.next_channel) e
            ∙ found X E h h.next_channel (pending_task id f m h))
          (ap (λ s. member s.gpu_controllers id) e ∙ has) in
      (
        m,
        em,
        config ∙ ap (λ s. s.config) e,
        disk ∙ ap (λ s. s.disk) e,
        hardware ∙ ap (λ s. applied X E id (previous id m) s.hardware) e,
        tx,
      )

  -- `confirm_config` when the current profile can be read.
  confirm_config-stores :
      (t : ConfirmTask X) (h : Handler X E) {m : X.IndexMap String (Gpu X)}
      → gpus X h.config ≡ ok m
      → (d : Config X) × IsWritten X h.config d h.config.current_profile
          (X.set_entry m t.id t.new_config)
        × ((confirm_config X E t h).config ≡ d)
        × ((confirm_config X E t h).disk ≡ (E.write_config d h.disk).1)
        × ((confirm_config X E t h).hardware ≡ h.hardware)
  unfolding confirm_config
  confirm_config-stores t h {m} e =
      let (d, written, w) = with_gpus-IsWritten X h.config (X.set_entry m t.id t.new_config) e in
      (
        d,
        w,
        rw (e, written, store_config),
        rw (e, written, store_config),
        rw (e, written, store_config),
      )

  pub confirm-settles :
      (h : Handler X E) (ch : ℕ) (t : ConfirmTask X) {m : X.IndexMap String (Gpu X)}
      → h.confirm_config_tx ≡ some ch
      → lookup h.tasks ch ≡ some t
      → member h.gpu_controllers t.id ≡ true
      → gpus X h.config ≡ ok m
      → let h' = wake_task X E ch channel (confirm_pending_config X E confirm h).1 in
        IsWritten X h.config h'.config h.config.current_profile (X.set_entry m t.id t.new_config)
        × (h'.disk ≡ (E.write_config h'.config h.disk).1)
        × (h'.hardware ≡ h.hardware)
        × (h'.confirm_config_tx ≡ none)
  confirm-settles h ch t tx there has em =
      let t' : ConfirmTask X = record t { signal = sent confirm } in
      let h₁ : Handler X E = record h {
        confirm_config_tx = none;
        tasks = Entries.insert h.tasks ch t';
      } in
      let h₂ : Handler X E = record h₁ { tasks = Entries.remove h₁.tasks ch } in
      let c = set_confirm_tx-ClearsSender X E (confirm_config X E t' h₂) in
      let (d, w, config, disk, hardware) = confirm_config-stores t' h₂ em in
      rw
        (
          told X E h ch t confirm tx there,
          wake_told X E h₁ ch t' (found X E h ch t') has confirm refl,
        )
        (rw (c.config, config) w, rw (c.disk, c.config, config) disk, c.hardware ∙ hardware, c.tx)

  -- An accepted edit that the user confirms: the GPU got the new settings once, they are now those
  -- of the current profile's GPU, nothing else in the configuration changed, no other GPU, profile
  -- or rule, it was written to its file, and the next edit is accepted again.
  pub edit_gpu_config-confirmed :
      (id : String) (f : Gpu X → Gpu X) (h : Handler X E) {time : ℕ}
      → (edit_gpu_config X E id f h).0 ≡ ok time
      → let ch = h.next_channel in
        let h' =
          wake_task X E ch channel
            (confirm_pending_config X E confirm (edit_gpu_config X E id f h).1).1 in
        (m : X.IndexMap String (Gpu X)) × (gpus X h.config ≡ ok m)
        × IsWritten X h.config h'.config h.config.current_profile
            (X.set_entry m id (f (previous id m)))
        × (h'.disk ≡ (E.write_config h'.config h.disk).1)
        × (h'.hardware ≡ applied X E id (f (previous id m)) h.hardware)
        × (h'.confirm_config_tx ≡ none)
  edit_gpu_config-confirmed id f h good =
      let (m, em, has, idle, et, e) = edit_gpu_config-ok X E id f h good in
      let t = pending_task id f m h in
      let (w, disk, hardware, tx) =
        confirm-settles (after_edit id f m h) h.next_channel t refl (found X E h h.next_channel t)
          has em in
      rw e (m, em, w, disk, hardware, tx)
