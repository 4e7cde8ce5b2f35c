-- ===== src/Handler/Edit/Tasks.antt =====
-- What a task that waits for a confirmation does when it is woken, with the command that it got.
use yagc.Common.{◌≡◌, ℕ, true, none, some, string_eq, nat_eq, arith, eq_self}
use yagc.Common.Entries
use yagc.Common.Entries.{lookup}
use yagc.Common.Entries.Laws.{lookup-insert}
use yagc.Common.Members.{member}
use yagc.Crates.{Crates}
use yagc.Handler.{ConfirmCommand, confirm, revert, Env, sent, ConfirmTask, Handler}
use yagc.Handler.Edit.{
  set_confirm_tx, wake_task, timer, channel, resolve_task, confirm_pending_config, revert_config,
  confirm_config,
}
use yagc.Handler.Edit.Pending.{KeepsTasks}

module _ (X : Crates) (E : Env X) where
  pub found :
      (h : Handler X E) (ch : ℕ) (t : ConfirmTask X)
      → lookup (Entries.insert h.tasks ch t) ch ≡ some t
  found h ch t = rw (lookup-insert h.tasks ch ch t, eq_self ch)

  -- The task's work once a command has arrived.
  abbrev pub settle : ConfirmCommand → ConfirmTask X → Handler X E → Handler X E
  settle confirm t h = confirm_config X E t h
  settle revert t h = revert_config X E t h

  module _ (h : Handler X E) (ch : ℕ) (t : ConfirmTask X) (there : lookup h.tasks ch ≡ some t)
      (has : member h.gpu_controllers t.id ≡ true) where
    abbrev pub unlisted : Handler X E
    unlisted = record h { tasks = Entries.remove h.tasks ch }

    pub wake_timer :
        wake_task X E ch timer h ≡ set_confirm_tx X E none (revert_config X E t unlisted)
    unfolding wake_task
    wake_timer = rw (there, wake_task, has)

    pub wake_told :
        (command : ConfirmCommand)
        → t.signal ≡ sent command
        → wake_task X E ch channel h ≡ set_confirm_tx X E none (settle command t unlisted)
    unfolding wake_task
    wake_told confirm told = rw (there, wake_task, has, told, resolve_task)
    wake_told revert told = rw (there, wake_task, has, told, resolve_task)

  pub settle-KeepsTasks :
      (command : ConfirmCommand) (t : ConfirmTask X) (h : Handler X E)
      → KeepsTasks X E h (settle command t h)
  unfolding confirm_config revert_config
  settle-KeepsTasks confirm t h = ground arith
  settle-KeepsTasks revert t h = ground arith

  pub told :
      (h : Handler X E) (ch : ℕ) (t : ConfirmTask X) (command : ConfirmCommand)
      → h.confirm_config_tx ≡ some ch
      → lookup h.tasks ch ≡ some t
      → (confirm_pending_config X E command h).1 ≡ record h {
        confirm_config_tx = none;
        tasks = Entries.insert h.tasks ch (record t { signal = sent command });
      }
  unfolding confirm_pending_config
  told h ch t command tx there = rw (tx, there, confirm_pending_config)

  -- The sender's fields aside, clearing it changes nothing but the tasks.
  pub record ClearsSender (h h' : Handler X E) : Type 0 where
    pub config : h'.config ≡ h.config
    pub hardware : h'.hardware ≡ h.hardware
    pub disk : h'.disk ≡ h.disk
    pub tx : h'.confirm_config_tx ≡ none

  pub set_confirm_tx-ClearsSender : (h : Handler X E) → ClearsSender h (set_confirm_tx X E none h)
  unfolding set_confirm_tx
  set_confirm_tx-ClearsSender h = ground arith
