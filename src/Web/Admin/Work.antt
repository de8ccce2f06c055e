-- ===== src/Web/Admin/Work.antt =====
-- routes/admin.py: the settings after `work` of `settings_post`.
use prv_apt_mirror.Prelude.{◌≡◌, refl, ◌∙◌, Text, not, Option, none, some, if_elim, if◌then◌else◌}
use prv_apt_mirror.Exec.{
  Error, Result, ok, err, runtime_error, raise, pure, continue, caught, ◌>>◌, message,
}
use prv_apt_mirror.Config.{Config}
use prv_apt_mirror.Db.Keys.{
  AppSetting, public_url, suite, codename, component, architectures, origin, label, max_upload_mb,
  max_upload_files, session_days, Settings, app, settings_pending, zero_text, one_text,
}
use prv_apt_mirror.World.{World, Io}
use prv_apt_mirror.Settings.{
  app_setting_values, save_app_config, load_app_config, repository_settings_changed,
}
use prv_apt_mirror.Publish.{PublishResult, publish_unlocked, set_key}
use prv_apt_mirror.Publish.Kept.{publish_unlocked-KeptAt}
use prv_apt_mirror.SourceSync.Import.{Env}
use prv_apt_mirror.Web.Admin.{
  save, publish_candidate, recovered, roll_back, work_from, settings_work, or_failed,
}

saved_value :
    (cfg : Config) (s : Settings) (name : AppSetting)
    → save_app_config cfg s (app name) ≡ some (app_setting_values cfg name)
unfolding save_app_config
saved_value cfg s public_url = refl
saved_value cfg s suite = refl
saved_value cfg s codename = refl
saved_value cfg s component = refl
saved_value cfg s architectures = refl
saved_value cfg s origin = refl
saved_value cfg s label = refl
saved_value cfg s max_upload_mb = refl
saved_value cfg s max_upload_files = refl
saved_value cfg s session_days = refl

-- Every setting of the page is the one of the configuration, or as before.
abbrev pub AreSaved : Config → World → Type 0
AreSaved cfg w = (name : AppSetting) → w.settings (app name) ≡ some (app_setting_values cfg name)

abbrev pub AreKept : World → World → Type 0
AreKept w w' = (name : AppSetting) → w'.settings (app name) ≡ w.settings (app name)

-- How saving the settings ends: without an error and with all of them stored, or with an error and
-- none of them changed.
abbrev pub Worked : Config → World → Result (Option Text) × World → Type 0
Worked candidate w (ok none, w') = AreSaved candidate w'
Worked candidate w (ok (some m), w') = AreKept w w'
Worked candidate w (err e, w') = AreKept w w'

module _ (env : Env) (candidate before : Config) (w : World) where
  recovered-AreKept :
      (m : Text) (r : Result PublishResult) (v : World)
      → AreKept w v
      → Worked candidate w (recovered m r v)
  recovered-AreKept m (err e) v k = k
  recovered-AreKept m (ok res) v k =
      if_elim (λ (io : Io (Option Text)). Worked candidate w (io v)) (not res.is_ok) _ _ (λ _. k)
        (λ _. k)

  roll_back-AreKept :
      (e : Error) (v : World) → AreKept w v → Worked candidate w (roll_back env before e v)
  unfolding roll_back
  roll_back-AreKept e v k =
      recovered-AreKept (message e) _ _
        (λ name. publish_unlocked-KeptAt name env.host env.os env.gpg before env.now v ∙ k name)

  tried-Worked :
      (v : World)
      → AreKept w v
      → Worked candidate w (
          caught
            (publish_candidate env candidate v).0
            (roll_back env before)
            (publish_candidate env candidate v).1)
  unfolding publish_candidate
  tried-Worked v k =
      go (publish_unlocked env.host env.os env.gpg candidate env.now v)
        (λ name. publish_unlocked-KeptAt name env.host env.os env.gpg candidate env.now v ∙ k name)
    where
      next : PublishResult → Io (Option Text)
      next result =
          if not result.is_ok
          then raise (runtime_error (or_failed result.error))
          else (save candidate >> set_key settings_pending zero_text >> pure none)

      go :
          (p : Result PublishResult × World)
          → AreKept w p.1
          → Worked candidate w
              (caught (continue p.0 next p.1).0 (roll_back env before) (continue p.0 next p.1).1)
      go (err e, u) kept = roll_back-AreKept e u kept
      go (ok res, u) kept =
          if_elim
            (λ (io : Io (Option Text)).
              Worked candidate w (caught (io u).0 (roll_back env before) (io u).1))
            (not res.is_ok) _ _ (λ _. roll_back-AreKept _ u kept)
            (λ _. saved_value candidate u.settings)

  work_from-Worked : Worked candidate w (work_from env candidate before w)
  work_from-Worked =
      if_elim (λ (io : Io (Option Text)). Worked candidate w (io w))
        (not (repository_settings_changed before candidate)) _ _
        (λ _. saved_value candidate w.settings)
        (λ _. tried-Worked (set_key settings_pending one_text w).1 (λ name. refl))

-- Saving the settings ends without an error, and then each setting of the page is stored with
-- its new value; or it ends with an error or raises, and then no setting of the page has
-- changed, whatever call of the publishes fails.
pub settings_work-Worked :
    (env : Env) (candidate : Config) (w : World)
    → Worked candidate w (settings_work env candidate w)
unfolding settings_work
settings_work-Worked env candidate w = go (load_app_config env.host env.cfg w.db.settings)
  where
    go : (r : Result Config) → Worked candidate w (continue r (work_from env candidate) w)
    go (ok before) = work_from-Worked env candidate before w
    go (err e) = λ name. refl
