-- ===== src/Handler/Edit/Race.antt =====
-- Two interleavings that go wrong: a new edit between a confirmation and the end of its task, and a
-- change of profile while an edit waits for its confirmation.
use yagc.Common.{
  ◌≡◌, refl, ℕ, true, none, some, string_eq, nat_eq, ◌≢◌, err, arith, eq_self, ◌∙◌,
  no_pending_changes,
}
use yagc.Common.Entries.{lookup}
use yagc.Common.Entries.Laws.{lookup-insert, lookup-remove}
use yagc.Common.Members.{member}
use yagc.Crates.{Crates}
use yagc.Handler.{ConfirmCommand, confirm, Env, waiting, sent, dropped, ConfirmTask, Handler}
use yagc.Handler.Edit.{set_confirm_tx, wake_task, channel, confirm_pending_config, on_drop}
use yagc.Handler.Edit.Outcomes.{applied}
use yagc.Handler.Edit.Tasks.{settle, unlisted, settle-KeepsTasks, wake_told}

module _ (X : Crates) (E : Env X) where
  set_confirm_tx-drops :
      (h : Handler X E) (new : ℕ) (u : ConfirmTask X)
      → h.confirm_config_tx ≡ some new
      → lookup h.tasks new ≡ some u
      → (lookup (set_confirm_tx X E none h).tasks new
          ≡ some (record u { signal = on_drop u.signal }))
        × ((set_confirm_tx X E none h).confirm_config_tx ≡ none)
        × ((set_confirm_tx X E none h).gpu_controllers ≡ h.gpu_controllers)
  unfolding set_confirm_tx
  set_confirm_tx-drops h new u tx newer =
      rw (tx, newer, set_confirm_tx)
        (
          rw (lookup-insert h.tasks new new (record u { signal = on_drop u.signal }), eq_self new),
          refl,
          refl,
        )

  wake_dropped :
      (h : Handler X E) (ch : ℕ) (u : ConfirmTask X)
      → lookup h.tasks ch ≡ some (record u { signal = dropped })
      → member h.gpu_controllers u.id ≡ true
      → (wake_task X E ch channel h).hardware ≡ applied X E u.id u.previous_config h.hardware
  unfolding wake_task set_confirm_tx
  wake_dropped h ch u there has = rw (there, wake_task, has) (ground arith)

  -- A task that has its command ends while a newer change waits: that change's sender is dropped.
  -- The user can no longer confirm it, and when its task runs it sends the previous settings to
  -- the GPU, though nobody asked for that and its time has not run out.
  pub wake_task-drops_newer :
      (h : Handler X E) (old new : ℕ) (t u : ConfirmTask X) (command : ConfirmCommand)
      → old ≢ new
      → lookup h.tasks old ≡ some t
      → t.signal ≡ sent command
      → member h.gpu_controllers t.id ≡ true
      → h.confirm_config_tx ≡ some new
      → lookup h.tasks new ≡ some u
      → u.signal ≡ waiting
      → member h.gpu_controllers u.id ≡ true
      → let h' = wake_task X E old channel h in
        ((confirm_pending_config X E confirm h').0 ≡ err no_pending_changes)
        × ((wake_task X E new channel h').hardware ≡ applied X E u.id u.previous_config h'.hardware)
  unfolding confirm_pending_config
  wake_task-drops_newer h old new t u command ne there told has tx newer waits has_u =
      let done = settle X E command t (unlisted X E h old t there has) in
      let k = settle-KeepsTasks X E command t (unlisted X E h old t there has) in
      let inside : lookup done.tasks new ≡ some u =
        rw k.tasks (ground (arith, lookup-remove h.tasks old new, nat_eq.test_iff old new)) in
      let (listed, idle, ids) = set_confirm_tx-drops done new u (k.tx ∙ tx) inside in
      rw (wake_told X E h old t there has command told) (
        rw (idle, confirm_pending_config),
        wake_dropped (set_confirm_tx X E none done) new u (rw waits at listed)
            (rw (ids, k.controllers) has_u),
      )
