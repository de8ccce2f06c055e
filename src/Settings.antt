-- ===== src/Settings.antt =====
-- settings.py and the validation of config.py: the settings that the web page changes, as they are
-- stored, checked and read back.
pub mod Bounds
pub mod RoundTrip
pub mod Reload
mod Tests
use prv_apt_mirror.Prelude.{
  ℕ, Text, codes, Bool, true, false, ◌&&◌, ◌||◌, not, List, [], ◌∷◌, ◌++◌, Option, none, some,
  text_eq, if◌then◌else◌, any, all, length, leb, ltb, ◌==◌, strip, rstrip_char, lower, parse_int,
  ascii_digits, natural, negative, decimal, join, split, is_empty, is_digit, is_some, has_char,
}
use prv_apt_mirror.Results.{◌>>=◌, ◌>>◌}
use prv_apt_mirror.Exec.{Error, Result, ok, err, validation_error, runtime_error}
use prv_apt_mirror.Host.{Host, Url}
use prv_apt_mirror.Config.{Config}
use prv_apt_mirror.Db.Keys.{
  AppSetting, public_url, suite, codename, component, architectures, origin, label, max_upload_mb,
  max_upload_files, session_days, Key, app, settings_pending, Settings, set_setting, zero_text,
}

abbrev pub reject_if : Bool → Error → Result (Unit {0})
reject_if true e = err e
reject_if false e = ok tt

-- `app_setting_values(cfg)`
unfoldable pub app_setting_values : Config → AppSetting → Text
app_setting_values cfg public_url = cfg.public_url
app_setting_values cfg suite = cfg.suite
app_setting_values cfg codename = cfg.codename
app_setting_values cfg component = cfg.component
app_setting_values cfg architectures = join (codes ",") cfg.architectures
app_setting_values cfg origin = cfg.origin
app_setting_values cfg label = cfg.label
app_setting_values cfg max_upload_mb = decimal cfg.max_upload_mb
app_setting_values cfg max_upload_files = decimal cfg.max_upload_files
app_setting_values cfg session_days = decimal cfg.session_days

abbrev bounds_error : Text → ℕ → ℕ → Error
bounds_error name minimum maximum =
    validation_error
      (name ++ codes " 必须在 " ++ decimal minimum ++ codes " 到 " ++ decimal maximum ++ codes " 之间")

unfoldable pub bounded_int : Host → Text → Text → ℕ → ℕ → Result ℕ
bounded_int h name raw minimum maximum = elim (parse_int (ascii_digits h.wide_digit raw)) [
  | none ↦ err (validation_error (name ++ codes " 必须是整数"))
  | some number ↦ elim number [
    | negative ↦ err (bounds_error name minimum maximum)
    | natural value ↦
        if leb minimum value && leb value maximum
        then ok value
        else err (bounds_error name minimum maximum)
  ]
]

abbrev pub is_upper : ℕ → Bool
is_upper c = leb b'A' c && leb c b'Z'

abbrev pub is_lower : ℕ → Bool
is_lower c = leb b'a' c && leb c b'z'

abbrev pub is_name_start : ℕ → Bool
is_name_start c = is_upper c || is_lower c || is_digit c

abbrev pub is_name_char : ℕ → Bool
is_name_char c = is_name_start c || c == b'.' || c == b'_' || c == b'+' || c == b'-'

-- `_REPO_NAME.fullmatch(value)`
abbrev pub matches_repo_name : Text → Bool
matches_repo_name [] = false
matches_repo_name (c ∷ s) = is_name_start c && all is_name_char s && leb (length s) 63

-- `_ARCH.fullmatch(arch)`
abbrev pub matches_arch : Text → Bool
matches_arch [] = false
matches_arch (c ∷ s) =
    (is_lower c || is_digit c)
    && all (λ d. is_lower d || is_digit d || d == b'-') s
    && leb (length s) 31

abbrev pub is_url_char : ℕ → Bool
is_url_char c = is_name_start c || has_char c (codes ":/._~%+[]-")

unfoldable pub repo_name : Text → Text → Result Text
repo_name name raw =
    if matches_repo_name (strip raw)
    then ok (strip raw)
    else err (validation_error (name ++ codes " 只能包含字母、数字、点、加号、减号和下划线，最长 64 个字符"))

unfoldable pub display_text : Text → Text → Result Text
display_text name raw =
    if is_empty (strip raw) || ltb 100 (length (strip raw)) || any (λ c. ltb c 32) (strip raw)
    then err (validation_error (name ++ codes " 必须是 1 到 100 个字符的单行文本"))
    else ok (strip raw)

abbrev url_is_refused : Url → Text → Bool
url_is_refused parsed url =
    not (text_eq parsed.scheme (codes "http") || text_eq parsed.scheme (codes "https"))
    || is_empty parsed.netloc
    || (elim parsed.hostname [ none ↦ true | some x ↦ is_empty x ])
    || is_some parsed.username
    || is_some parsed.password
    || not (is_empty parsed.query)
    || not (is_empty parsed.fragment)
    || any (λ c. leb c 32 || c == 127) url
    || not (all is_url_char url && not (is_empty url))

-- the value that `public_url` is given
unfoldable pub checked_url : Host → Text → Result Text
checked_url h raw = do
  let url = rstrip_char b'/' (strip raw)
  reject_if (not (h.urlparse url).has_valid_port) (validation_error (codes "公开 URL 的端口无效"))
  reject_if (url_is_refused (h.urlparse url) url)
      (validation_error (codes "公开 URL 必须是无账号、查询参数和片段的 http(s) 地址"))
  reject_if (ltb 2048 (length url)) (validation_error (codes "公开 URL 过长"))
  ok url

abbrev pub has_text : Text → List Text → Bool
has_text a = any (λ b. text_eq a b)

-- the loop over `values["architectures"].split(",")`
unfoldable pub collect_archs : Host → List Text → List Text → Result (List Text)
collect_archs h [] archs = ok archs
collect_archs h (item ∷ items) archs =
    let arch = lower h.wide_lower (strip item) in
    let rest =
      collect_archs h items
        (if is_empty arch || has_text arch archs then archs else archs ++ arch ∷ []) in
    if not (is_empty arch) && not (matches_arch arch)
    then err (validation_error (codes "无效架构名称：" ++ arch))
    else rest

abbrev pub no_archs : Error
no_archs = validation_error (codes "至少需要配置一个架构")

abbrev pub many_archs : Error
many_archs = validation_error (codes "最多配置 16 个架构")

unfoldable pub checked_archs : Host → Text → Result (List Text)
unfolding collect_archs
checked_archs h raw = do
  archs ← collect_archs h (split b',' raw) []
  reject_if (length archs == 0) no_archs
  reject_if (ltb 16 (length archs)) many_archs
  ok archs

-- `is_loopback_host` of config.py
abbrev pub is_loopback_host : Host → Option Text → Bool
is_loopback_host h none = false
is_loopback_host h (some host) =
    not (is_empty host)
    && (text_eq (lower h.wide_lower host) (codes "localhost")
        || text_eq (lower h.wide_lower host) (codes "localhost.")
        || h.is_loopback_ip host)

-- `validate_startup` of config.py
unfoldable pub validate_startup : Host → Config → Result (Unit {0})
validate_startup h cfg = do
  reject_if (cfg.insecure_no_auth && not (is_loopback_host h (h.urlparse cfg.public_url).hostname))
      (runtime_error (
        codes
          "PRVAPT_INSECURE_NO_AUTH=1 is only allowed when PRVAPT_PUBLIC_URL points at a loopback host"))
  reject_if
      (not (
        text_eq cfg.cookie_secure (codes "auto")
        || text_eq cfg.cookie_secure (codes "true")
        || text_eq cfg.cookie_secure (codes "false")))
      (runtime_error (codes "PRVAPT_COOKIE_SECURE must be auto, true, or false"))

unfoldable pub config_from_app_values : Host → Config → (AppSetting → Text) → Result Config
config_from_app_values h base values = do
  url ← checked_url h (values public_url)
  archs ← checked_archs h (values architectures)
  suite' ← repo_name (codes "Suite") (values suite)
  codename' ← repo_name (codes "Codename") (values codename)
  component' ← repo_name (codes "Component") (values component)
  origin' ← display_text (codes "Origin") (values origin)
  label' ← display_text (codes "Label") (values label)
  mb ← bounded_int h (codes "单次上传上限") (values max_upload_mb) 1 10240
  files ← bounded_int h (codes "单次文件数") (values max_upload_files) 1 100
  days ← bounded_int h (codes "会话有效期") (values session_days) 1 365
  let cfg = record base {
    public_url = url;
    suite = suite';
    codename = codename';
    component = component';
    architectures = archs;
    origin = origin';
    label = label';
    max_upload_mb = mb;
    max_upload_files = files;
    session_days = days;
  }
  validate_startup h cfg
  ok cfg

-- `values` of `load_app_config`: a stored value goes before that of `base`
abbrev pub stored_values : Config → Settings → AppSetting → Text
stored_values base settings name = elim (settings (app name)) [
  | none ↦ app_setting_values base name
  | some value ↦ value
]

unfoldable pub load_app_config : Host → Config → Settings → Result Config
load_app_config h base settings = config_from_app_values h base (stored_values base settings)

abbrev pub app_setting_names : List AppSetting
app_setting_names =
    public_url ∷ suite ∷ codename ∷ component ∷ architectures ∷ origin ∷ label ∷ max_upload_mb
    ∷ max_upload_files ∷ session_days ∷ []

-- `save_app_config`
abbrev save_each : Config → List AppSetting → Settings → Settings
save_each cfg [] s = s
save_each cfg (name ∷ names) s =
    save_each cfg names (set_setting (app name) (app_setting_values cfg name) s)

unfoldable pub save_app_config : Config → Settings → Settings
save_app_config cfg = save_each cfg app_setting_names

-- `INSERT OR IGNORE INTO settings`
abbrev pub seed_setting : Key → Text → Settings → Settings
seed_setting k v s = if is_some (s k) then s else set_setting k v s

abbrev seed_each : Config → List AppSetting → Settings → Settings
seed_each cfg [] s = s
seed_each cfg (name ∷ names) s =
    seed_each cfg names (seed_setting (app name) (app_setting_values cfg name) s)

unfoldable pub ensure_app_settings : Config → Settings → Settings
ensure_app_settings cfg s =
    seed_setting settings_pending zero_text (seed_each cfg app_setting_names s)

-- `REPOSITORY_SETTING_NAMES`
abbrev pub repository_setting_names : List AppSetting
repository_setting_names = suite ∷ codename ∷ component ∷ architectures ∷ origin ∷ label ∷ []

unfoldable pub repository_settings_changed : Config → Config → Bool
repository_settings_changed before after =
    any (λ name. not (text_eq (app_setting_values before name) (app_setting_values after name)))
      repository_setting_names
