-- ===== src/Config.antt =====
-- config.py: the configuration that the repository's code reads. Paths are not values here: each
-- directory below `data_dir` is a field of the state (Files.antt).
use prv_apt_mirror.Prelude.{ℕ, ◌*◌, Text, Bool, Option, List}

pub record Config : Type 0 where
  pub secret_key : Text
  pub admin_user : Text
  pub admin_password : Option Text
  pub public_url : Text
  pub admin_origins : List Text
  pub cookie_secure : Text
  pub origin_check : Bool
  pub insecure_no_auth : Bool
  pub max_upload_mb : ℕ
  pub max_upload_files : ℕ
  pub suite : Text
  pub codename : Text
  pub component : Text
  pub architectures : List Text
  pub origin : Text
  pub label : Text
  pub session_days : ℕ

abbrev pub max_upload_bytes : Config → ℕ
max_upload_bytes cfg = cfg.max_upload_mb * 1024 * 1024
