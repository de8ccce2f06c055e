-- ===== src/Db/Keys.antt =====
-- The table `settings` of db.py, and the keys that the program uses.
use prv_apt_mirror.Prelude.{
  Text, codes, text_eq, Bool, true, false, Option, none, some, if◌then◌else◌,
}

-- The names of `APP_SETTING_NAMES` in settings.py.
pub data AppSetting : Type 0 where
  public_url suite codename component architectures origin label : AppSetting
  max_upload_mb max_upload_files session_days : AppSetting

abbrev pub app_setting_eq : AppSetting → AppSetting → Bool
app_setting_eq public_url public_url = true
app_setting_eq suite suite = true
app_setting_eq codename codename = true
app_setting_eq component component = true
app_setting_eq architectures architectures = true
app_setting_eq origin origin = true
app_setting_eq label label = true
app_setting_eq max_upload_mb max_upload_mb = true
app_setting_eq max_upload_files max_upload_files = true
app_setting_eq session_days session_days = true
app_setting_eq _ _ = false

-- The keys: "publish_dirty", "gpg_fingerprint", `SETTINGS_PENDING_KEY`, and "app." with a name.
pub data Key : Type 0 where
  publish_dirty gpg_fingerprint settings_pending : Key
  app : AppSetting → Key

abbrev pub key_eq : Key → Key → Bool
key_eq publish_dirty publish_dirty = true
key_eq gpg_fingerprint gpg_fingerprint = true
key_eq settings_pending settings_pending = true
key_eq (app a) (app b) = app_setting_eq a b
key_eq _ _ = false

abbrev pub Settings : Type 0
Settings = Key → Option Text

-- `get_setting(conn, key, default)` with a default
abbrev pub get_setting_or : Settings → Key → Text → Text
get_setting_or s k default = elim (s k) [ none ↦ default | some v ↦ v ]

abbrev pub set_setting : Key → Text → Settings → Settings
set_setting k v s j = if key_eq k j then some v else s j

abbrev pub zero_text : Text
zero_text = codes "0"

abbrev pub one_text : Text
one_text = codes "1"

-- `get_setting(conn, key, "0") == "1"`
abbrev pub is_set : Settings → Key → Bool
is_set s k = text_eq (get_setting_or s k zero_text) one_text
