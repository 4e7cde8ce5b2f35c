-- ===== src/Handler/Switch/Midway.antt =====
-- A change of profile between an edit and its confirmation.
use yagc.Common.{
  ◌≡◌, sym, ◌∙◌, ap, ℕ, false, Option, some, inl, inr, String, string_eq, nat_eq, ok, arith,
  Option-cases, eq_self,
}
use yagc.Common.Entries.{lookup}
use yagc.Common.Members.{member}
use yagc.Crates.{Crates}
use yagc.Config.{Gpu, Config, Profile}
use yagc.Config.Profiles.{gpus, gpus_of}
use yagc.Config.Profiles.Active.{same_profile}
use yagc.Handler.{confirm, Env, Handler}
use yagc.Handler.Edit.{edit_gpu_config, wake_task, channel, confirm_pending_config}
use yagc.Handler.Edit.Outcomes.{edit_gpu_config-ok}
use yagc.Handler.Edit.Pending.{KeepsTasks}
use yagc.Handler.Edit.Protocol.{confirm-settles, pending_task, previous}
use yagc.Handler.Edit.Tasks.{found}
use yagc.Handler.Switch.{set_current_profile}

module _ (X : Crates) (E : Env X) where
  set_current_profile-KeepsTasks :
      (name : Option String) (h : Handler X E) → KeepsTasks X E h (set_current_profile X E name h).1
  unfolding set_current_profile
  set_current_profile-KeepsTasks name h = ground arith

  set_current_profile-config :
      (name : String) (h : Handler X E)
      → (set_current_profile X E (some name) h).0 ≡ ok tt
      → (p : Profile X) × (X.get h.config.profiles name ≡ some p)
        × ((set_current_profile X E (some name) h).1.config
            ≡ record h.config { current_profile = some name })
  unfolding set_current_profile
  set_current_profile-config name h e = elim (Option-cases (X.get h.config.profiles name)) [
    | inl gone ↦ absurd (ground arith)
    | inr (p, there) ↦ (p, there, ground arith)
  ]

  -- If the profile is switched while an edit waits, and the edit is then confirmed, the settings
  -- are stored in the profile that was switched to, as settings of the same GPU there. The profile
  -- for which they were made keeps its old settings.
  pub confirmed_after_switch :
      (id name : String) (f : Gpu X → Gpu X) (h : Handler X E) {time : ℕ}
      → (edit_gpu_config X E id f h).0 ≡ ok time
      → (set_current_profile X E (some name) (edit_gpu_config X E id f h).1).0 ≡ ok tt
      → same_profile (some name) h.config.current_profile ≡ false
      → let h₂ = (set_current_profile X E (some name) (edit_gpu_config X E id f h).1).1 in
        let h' = wake_task X E h.next_channel channel (confirm_pending_config X E confirm h₂).1 in
        (m : X.IndexMap String (Gpu X)) × (n : X.IndexMap String (Gpu X)) × (gpus X h.config ≡ ok m)
        × (gpus_of X h.config (some name) ≡ ok n)
        × (gpus_of X h'.config (some name) ≡ ok (X.set_entry n id (f (previous X E id m))))
        × (gpus X h.config ≡ gpus_of X h'.config h.config.current_profile)
  unfolding gpus gpus_of
  confirmed_after_switch id name f h good switched other =
      let (m, em, has, idle, et, e) = edit_gpu_config-ok X E id f h good in
      let t = pending_task X E id f m h in
      let h₁ = (edit_gpu_config X E id f h).1 in
      let h₂ = (set_current_profile X E (some name) h₁).1 in
      let k = set_current_profile-KeepsTasks (some name) h₁ in
      let (p, there, ec) = set_current_profile-config name h₁ switched in
      let same : h₁.config ≡ h.config = ap (λ s. s.config) e in
      let there' : X.get h.config.profiles name ≡ some p =
        ap (λ c. X.get c.profiles name) (sym same) ∙ there in
      let ec' : h₂.config ≡ record h.config { current_profile = some name } =
        ec ∙ ap (λ (c : Config X). record c { current_profile = some name }) same in
      let current : h₂.config.current_profile ≡ some name =
        ap (λ (c : Config X). c.current_profile) ec' in
      let (w, disk, hardware, tx) =
        confirm-settles X E h₂ h.next_channel t {m = p.gpus}
          (k.tx ∙ ap (λ s. s.confirm_config_tx) e)
          (ap (λ l. lookup l h.next_channel) k.tasks
            ∙ ap (λ s. lookup s.tasks h.next_channel) e
            ∙ found X E h h.next_channel t)
          (ap (λ l. member l id) k.controllers ∙ ap (λ s. member s.gpu_controllers id) e ∙ has)
          (ap (λ c. gpus X c) ec' ∙ rw (there', gpus_of)) in
      (
        m,
        p.gpus,
        em,
        rw (there', gpus_of),
        w.reads (some name) ∙ rw (current, eq_self name),
        sym (w.reads h.config.current_profile ∙ rw (current, other, ec')),
      )
