-- ===== src/Settings/Tests.antt =====
-- The settings of a concrete configuration.
use prv_apt_mirror.Prelude.{◌≡◌, refl, decimal, ascii_digits, parse_int, lower, strip, rstrip_char}
use prv_apt_mirror.Exec.{ok}
use prv_apt_mirror.Samples.{plain_host, sample_config, key_only}
use prv_apt_mirror.Settings.{
  app_setting_values, bounded_int, checked_archs, checked_url, config_from_app_values, display_text,
  repo_name, validate_startup, load_app_config, save_app_config,
}
use prv_apt_mirror.Settings.Bounds.{IsValid, config_from_app_values-IsValid}
use prv_apt_mirror.Settings.Reload.{load_app_config-save}

config_from_app_values-IsValid_example : IsValid sample_config
unfolding config_from_app_values checked_url rstrip_char strip app_setting_values checked_archs
    lower repo_name display_text bounded_int ascii_digits parse_int decimal validate_startup
config_from_app_values-IsValid_example =
    config_from_app_values-IsValid plain_host sample_config (app_setting_values sample_config)
      sample_config refl

load_app_config-save_example :
    load_app_config plain_host sample_config (save_app_config sample_config key_only)
    ≡ ok sample_config
unfolding config_from_app_values checked_url rstrip_char strip app_setting_values checked_archs
    lower repo_name display_text bounded_int ascii_digits parse_int decimal validate_startup
load_app_config-save_example =
    load_app_config-save plain_host sample_config (app_setting_values sample_config) sample_config
      key_only refl
