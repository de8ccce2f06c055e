-- ===== src/Settings/Reload.antt =====
-- settings.py: `load_app_config` reads back what `save_app_config` has stored.
use prv_apt_mirror.Prelude.{◌≡◌, refl, ap, ◌∙◌, subst, Text, codes}
use mathlib.Core.Path.{fun_ext}
use prv_apt_mirror.Results.{bind-inv, ok-injective}
use prv_apt_mirror.Exec.{ok}
use prv_apt_mirror.Host.{Host}
use prv_apt_mirror.Config.{Config}
use prv_apt_mirror.Db.Keys.{
  AppSetting, public_url, suite, codename, component, architectures, origin, label, max_upload_mb,
  max_upload_files, session_days, Settings,
}
use prv_apt_mirror.Settings.{
  app_setting_values, bounded_int, repo_name, display_text, checked_url, checked_archs,
  validate_startup, config_from_app_values, load_app_config, save_app_config, stored_values,
}
use prv_apt_mirror.Settings.Bounds.{IsValid, config_from_app_values-IsValid}
use prv_apt_mirror.Settings.RoundTrip.{
  bounded_int_again, repo_name_again, display_text_again, checked_url_again, checked_archs_again,
}

-- Each stored value is that of the configuration.
stored_saved :
    (base cfg : Config) (s : Settings) (name : AppSetting)
    → stored_values base (save_app_config cfg s) name ≡ app_setting_values cfg name
unfolding save_app_config
stored_saved base cfg s public_url = refl
stored_saved base cfg s suite = refl
stored_saved base cfg s codename = refl
stored_saved base cfg s component = refl
stored_saved base cfg s architectures = refl
stored_saved base cfg s origin = refl
stored_saved base cfg s label = refl
stored_saved base cfg s max_upload_mb = refl
stored_saved base cfg s max_upload_files = refl
stored_saved base cfg s session_days = refl

-- The settings of the page from one configuration, all else from the other.
abbrev merged : Config → Config → Config
merged base cfg = record base {
  public_url = cfg.public_url;
  suite = cfg.suite;
  codename = cfg.codename;
  component = cfg.component;
  architectures = cfg.architectures;
  origin = cfg.origin;
  label = cfg.label;
  max_upload_mb = cfg.max_upload_mb;
  max_upload_files = cfg.max_upload_files;
  session_days = cfg.session_days;
}

-- What each part of `config_from_app_values` returns.
record IsRead (h : Host) (base : Config) (values : AppSetting → Text) (cfg : Config) : Type 0 where
  url : checked_url h (values public_url) ≡ ok cfg.public_url
  archs : checked_archs h (values architectures) ≡ ok cfg.architectures
  suite' : repo_name (codes "Suite") (values suite) ≡ ok cfg.suite
  codename' : repo_name (codes "Codename") (values codename) ≡ ok cfg.codename
  component' : repo_name (codes "Component") (values component) ≡ ok cfg.component
  origin' : display_text (codes "Origin") (values origin) ≡ ok cfg.origin
  label' : display_text (codes "Label") (values label) ≡ ok cfg.label
  mb : bounded_int h (codes "单次上传上限") (values max_upload_mb) 1 10240 ≡ ok cfg.max_upload_mb
  files : bounded_int h (codes "单次文件数") (values max_upload_files) 1 100 ≡ ok cfg.max_upload_files
  days : bounded_int h (codes "会话有效期") (values session_days) 1 365 ≡ ok cfg.session_days
  started : validate_startup h cfg ≡ ok tt
  same : merged base cfg ≡ cfg

module _ (h : Host) (base : Config) (values : AppSetting → Text) (cfg : Config) where
  config_from_app_values-IsRead :
      config_from_app_values h base values ≡ ok cfg → IsRead h base values cfg
  unfolding config_from_app_values
  config_from_app_values-IsRead e =
      let (_, url, e1) = bind-inv (checked_url h (values public_url)) _ e in
      let (_, archs, e2) = bind-inv (checked_archs h (values architectures)) _ e1 in
      let (_, s, e3) = bind-inv (repo_name (codes "Suite") (values suite)) _ e2 in
      let (_, c, e4) = bind-inv (repo_name (codes "Codename") (values codename)) _ e3 in
      let (_, m, e5) = bind-inv (repo_name (codes "Component") (values component)) _ e4 in
      let (_, o, e6) = bind-inv (display_text (codes "Origin") (values origin)) _ e5 in
      let (_, l, e7) = bind-inv (display_text (codes "Label") (values label)) _ e6 in
      let (_, mb, e8) =
        bind-inv (bounded_int h (codes "单次上传上限") (values max_upload_mb) 1 10240) _ e7 in
      let (_, files, e9) =
        bind-inv (bounded_int h (codes "单次文件数") (values max_upload_files) 1 100) _ e8 in
      let (_, days, e10) =
        bind-inv (bounded_int h (codes "会话有效期") (values session_days) 1 365) _ e9 in
      let (_, started, e11) = bind-inv (validate_startup h _) _ e10 in
      subst (IsRead h base values) (ok-injective e11) (record {
        url = url;
        archs = archs;
        suite' = s;
        codename' = c;
        component' = m;
        origin' = o;
        label' = l;
        mb = mb;
        files = files;
        days = days;
        started = started;
        same = refl;
      })

  IsRead-returns : IsRead h base values cfg → config_from_app_values h base values ≡ ok cfg
  unfolding config_from_app_values
  IsRead-returns r =
      rw
        (
          r.url, r.archs, r.suite', r.codename', r.component', r.origin', r.label', r.mb, r.files,
          r.days, r.same, r.started,
        )
        refl

module _ (h : Host) (base : Config) (values : AppSetting → Text) (cfg : Config) where
  IsRead-again : IsValid cfg → IsRead h base values cfg → IsRead h base (app_setting_values cfg) cfg
  unfolding app_setting_values
  IsRead-again valid r = record {
    url = checked_url_again h (values public_url) cfg.public_url r.url;
    archs = checked_archs_again h cfg.architectures valid.distinct valid.names valid.count;
    suite' = repo_name_again (codes "Suite") (values suite) cfg.suite r.suite';
    codename' = repo_name_again (codes "Codename") (values codename) cfg.codename r.codename';
    component' = repo_name_again (codes "Component") (values component) cfg.component r.component';
    origin' = display_text_again (codes "Origin") (values origin) cfg.origin r.origin';
    label' = display_text_again (codes "Label") (values label) cfg.label r.label';
    mb = bounded_int_again h (codes "单次上传上限") (values max_upload_mb) 1 10240 cfg.max_upload_mb r.mb;
    files =
        bounded_int_again h (codes "单次文件数") (values max_upload_files) 1 100 cfg.max_upload_files
          r.files;
    days = bounded_int_again h (codes "会话有效期") (values session_days) 1 365 cfg.session_days r.days;
    started = r.started;
    same = r.same;
  }

  -- A configuration that `config_from_app_values` returned for some values is what
  -- `load_app_config` returns, over the same base, after `save_app_config` has stored it over
  -- any settings.
  pub load_app_config-save :
      (s : Settings)
      → config_from_app_values h base values ≡ ok cfg
      → load_app_config h base (save_app_config cfg s) ≡ ok cfg
  unfolding load_app_config
  load_app_config-save s e =
      ap (config_from_app_values h base) (fun_ext (stored_saved base cfg s))
      ∙ IsRead-returns h base (app_setting_values cfg) cfg (
          IsRead-again (config_from_app_values-IsValid h base values cfg e)
            (config_from_app_values-IsRead h base values cfg e))
