-- ===== src/Handler/Edit/Pending.antt =====
-- The pending change and the tasks that wait: at most one change waits for a confirmation, and it
-- is the one whose sender the handler holds.
use yagc.Common.{
  ◌≡◌, refl, ℕ, ◌<◌, Bool, true, false, Option, none, some, inl, inr, String, ◌==◌, string_eq,
  nat_eq, arith, is_some, unwrap_or, if◌then◌else◌, Option-cases, Result-cases, ap, ◌∙◌,
}
use yagc.Common.Entries
use yagc.Common.Entries.{lookup}
use yagc.Common.Entries.Laws.{lookup-insert, lookup-remove}
use yagc.Common.Members.{member}
use yagc.Crates.{Crates}
use yagc.Config.{Gpu, default_gpu}
use yagc.Handler.{ConfirmCommand, Env, Signal, waiting, sent, dropped, ConfirmTask, Handler}
use yagc.Handler.Edit.{
  edit_gpu_config, set_confirm_tx, wake_task, Wake, resolve_task, finish_task,
  confirm_pending_config, on_drop,
}
use yagc.Handler.Edit.Outcomes.{edit_gpu_config-err, edit_gpu_config-ok}

abbrev pub is_waiting : Signal → Bool
is_waiting waiting = true
is_waiting dropped = false
is_waiting (sent command) = false

module _ (X : Crates) (E : Env X) where
  abbrev pub task_at : Handler X E → ℕ → Option (ConfirmTask X)
  task_at h ch = lookup h.tasks ch

  -- The task on a channel still waits for a command.
  abbrev pub waits : Option (ConfirmTask X) → Bool
  waits none = false
  waits (some t) = is_waiting t.signal

  abbrev pub is_tx : Option ℕ → ℕ → Bool
  is_tx none ch = false
  is_tx (some tx) ch = tx == ch

  abbrev pub HasController : Handler X E → Option (ConfirmTask X) → Type 0
  HasController h none = ◌≡◌ {A = Bool} true true
  HasController h (some t) = member h.gpu_controllers t.id ≡ true

  pub record IsPending (h : Handler X E) : Type 0 where
    -- A task waits for a command exactly if the handler holds the sender of its channel.
    pub one : (ch : ℕ) → waits (task_at h ch) ≡ is_tx h.confirm_config_tx ch
    -- The channels in use are below the next one.
    pub fresh : (ch : ℕ) → is_some (task_at h ch) ≡ true → ch < h.next_channel
    -- The GPU of each waiting task has a controller.
    pub controlled : (ch : ℕ) → HasController h (task_at h ch)

  abbrev new_task :
      Handler X E → X.IndexMap String (Gpu X) → String → (Gpu X → Gpu X) → ConfirmTask X
  new_task h m id f = record {
    id = id;
    previous_config = unwrap_or (X.get m id) (default_gpu X);
    new_config = f (unwrap_or (X.get m id) (default_gpu X));
    apply_timer = h.config.apply_settings_timer;
    signal = waiting;
  }

  inserted :
      (h : Handler X E) (m : X.IndexMap String (Gpu X)) (id : String) (f : Gpu X → Gpu X) (ch : ℕ)
      → lookup (Entries.insert h.tasks h.next_channel (new_task h m id f)) ch
        ≡ (if h.next_channel == ch then some (new_task h m id f) else lookup h.tasks ch)
  inserted h m id f ch = lookup-insert h.tasks h.next_channel ch (new_task h m id f)

  pub edit_gpu_config-IsPending :
      (id : String) (f : Gpu X → Gpu X) (h : Handler X E)
      → IsPending h
      → IsPending (edit_gpu_config X E id f h).1
  edit_gpu_config-IsPending id f h p = elim (Result-cases (edit_gpu_config X E id f h).0) [
    | inl (time, good) ↦
        let (m, em, has, idle, et, e) = edit_gpu_config-ok X E id f h good in
        rw e (record {
          one = λ ch. ground (arith, p.one ch, p.fresh ch, inserted h m id f ch);
          fresh = λ ch inside. ground (arith, p.fresh ch, inserted h m id f ch);
          controlled = λ ch. ground (arith, p.controlled ch, inserted h m id f ch);
        })
    | inr (x, bad) ↦ elim (edit_gpu_config-err X E id f h bad) [
      | inl e ↦ rw e p
      | inr (m, em, ea, e) ↦
          rw e (record { one = p.one; fresh = p.fresh; controlled = p.controlled })
    ]
  ]

  pub confirm_pending_config-IsPending :
      (command : ConfirmCommand) (h : Handler X E)
      → IsPending h
      → IsPending (confirm_pending_config X E command h).1
  unfolding confirm_pending_config
  confirm_pending_config-IsPending command h p = elim (Option-cases h.confirm_config_tx) [
    | inl idle ↦ rw (idle, confirm_pending_config) p
    | inr (tx, e) ↦ elim (Option-cases (lookup h.tasks tx)) [
      | inl gone ↦ absurd (ground (arith, p.one tx))
      | inr (t, there) ↦
          rw (e, there, confirm_pending_config)
            (record {
              one = λ ch. ground (
                arith,
                p.one ch,
                p.one tx,
                lookup-insert h.tasks tx ch (record t { signal = sent command }),
              );
              fresh = λ ch inside. ground (
                arith,
                p.fresh ch,
                p.fresh tx,
                lookup-insert h.tasks tx ch (record t { signal = sent command }),
              );
              controlled = λ ch. ground (
                arith,
                p.controlled ch,
                p.controlled tx,
                lookup-insert h.tasks tx ch (record t { signal = sent command }),
              );
            })
    ]
  ]

  -- What a task does before it ends touches no task and no sender.
  pub record KeepsTasks (h h' : Handler X E) : Type 0 where
    pub tasks : h'.tasks ≡ h.tasks
    pub tx : h'.confirm_config_tx ≡ h.confirm_config_tx
    pub next_channel : h'.next_channel ≡ h.next_channel
    pub controllers : h'.gpu_controllers ≡ h.gpu_controllers

  abbrev DoneKeeps : Handler X E → Option (Handler X E) → Type 0
  DoneKeeps h none = ◌≡◌ {A = Bool} true true
  DoneKeeps h (some done) = KeepsTasks h done

  resolve_task-KeepsTasks :
      (wake : Wake) (t : ConfirmTask X) (h : Handler X E)
      → DoneKeeps h (resolve_task X E wake t.signal t h)
  unfolding resolve_task
  resolve_task-KeepsTasks wake t h = ground arith

  set_confirm_tx-IsPending :
      (h : Handler X E)
      → ((ch : ℕ) → waits (task_at h ch) ≡ true → is_tx h.confirm_config_tx ch ≡ true)
      → ((ch : ℕ) → is_some (task_at h ch) ≡ true → ch < h.next_channel)
      → ((ch : ℕ) → HasController h (task_at h ch))
      → IsPending (set_confirm_tx X E none h)
  unfolding set_confirm_tx
  set_confirm_tx-IsPending h one fresh controlled = elim (Option-cases h.confirm_config_tx) [
    | inl idle ↦
        rw (idle, set_confirm_tx)
          (record { one = λ ch. ground (arith, one ch); fresh = fresh; controlled = controlled })
    | inr (tx, e) ↦ elim (Option-cases (lookup h.tasks tx)) [
      | inl gone ↦
          rw (e, gone, set_confirm_tx)
            (record { one = λ ch. ground (arith, one ch); fresh = fresh; controlled = controlled })
      | inr (t, there) ↦
          let changed =
            λ (ch : ℕ). lookup-insert h.tasks tx ch (record t { signal = on_drop t.signal }) in
          rw (e, there, set_confirm_tx)
            (record {
              one = λ ch. ground (arith, one ch, changed ch);
              fresh = λ ch inside. ground (arith, fresh ch, fresh tx, changed ch);
              controlled = λ ch. ground (arith, controlled ch, controlled tx, changed ch);
            })
    ]
  ]

  finish_task-IsPending :
      (h ended : Handler X E) (ch : ℕ) (o : Option (Handler X E))
      → IsPending h
      → ended ≡ record h { tasks = Entries.remove h.tasks ch }
      → DoneKeeps ended o
      → IsPending (finish_task X E h o)
  unfolding finish_task
  finish_task-IsPending h ended ch none p e k = p
  finish_task-IsPending h ended ch (some done) p e k =
      let same : done.tasks ≡ Entries.remove h.tasks ch = k.tasks ∙ ap (λ s. s.tasks) e in
      let tx : done.confirm_config_tx ≡ h.confirm_config_tx =
        k.tx ∙ ap (λ s. s.confirm_config_tx) e in
      let next : done.next_channel ≡ h.next_channel = k.next_channel ∙ ap (λ s. s.next_channel) e in
      let ids : done.gpu_controllers ≡ h.gpu_controllers =
        k.controllers ∙ ap (λ s. s.gpu_controllers) e in
      set_confirm_tx-IsPending done (λ c w. ground (arith, p.one c, lookup-remove h.tasks ch c))
        (λ c inside. ground (arith, p.fresh c, lookup-remove h.tasks ch c))
        (λ c. rw (same, ids) (ground (arith, p.controlled c, lookup-remove h.tasks ch c)))

  pub wake_task-IsPending :
      (ch : ℕ) (wake : Wake) (h : Handler X E) → IsPending h → IsPending (wake_task X E ch wake h)
  unfolding wake_task
  wake_task-IsPending ch wake h p = elim (Option-cases (lookup h.tasks ch)) [
    | inl gone ↦ rw (gone, wake_task) p
    | inr (t, there) ↦
        rw (there, wake_task, has_controller h ch t there (p.controlled ch))
          (finish_task-IsPending h _ ch _ p refl
            (resolve_task-KeepsTasks wake t (record h { tasks = Entries.remove h.tasks ch })))
  ]
    where
      has_controller :
          (h : Handler X E) (ch : ℕ) (t : ConfirmTask X)
          → lookup h.tasks ch ≡ some t
          → HasController h (task_at h ch)
          → member h.gpu_controllers t.id ≡ true
      has_controller h ch t there c = ground arith
