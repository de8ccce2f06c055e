-- ===== src/Web/Admin.antt =====
-- routes/admin.py: the handlers of the settings, the packages, the password and the session.
pub mod Work
use prv_apt_mirror.Prelude.{
  ℕ, Text, codes, Bool, true, false, ◌&&◌, ◌||◌, not, [], ◌∷◌, ◌++◌, Option, none, some,
  if◌then◌else◌, decimal, text_eq, length, ltb, strip,
}
use prv_apt_mirror.Exec.{
  Error, validation_error, runtime_error, message, Result, ok, err, pure, raise, lift, modify,
  ◌>>=◌, ◌>>◌, try_except,
}
use prv_apt_mirror.Config.{Config}
use prv_apt_mirror.Db.Keys.{
  AppSetting, public_url, suite, codename, component, architectures, origin, label, max_upload_mb,
  max_upload_files, session_days, settings_pending, zero_text, one_text,
}
use prv_apt_mirror.Db.Packages.{PackageRow, get_package}
use prv_apt_mirror.World.{Io, on_db}
use prv_apt_mirror.Settings.{
  config_from_app_values, load_app_config, save_app_config, repository_settings_changed,
}
use prv_apt_mirror.Publish.{PublishResult, publish_unlocked, set_key}
use prv_apt_mirror.Publish.Commits.{publish, delete_commit}
use prv_apt_mirror.Auth.{
  User, create_session, change_password, delete_session, is_locked, record_attempt, authenticate,
  hash_session_token,
}
use prv_apt_mirror.SourceSync.Import.{Env}
use prv_apt_mirror.Web.{Request, client_ip, session_token, verify_csrf}
use prv_apt_mirror.Web.Site.{
  Server, Reply, redirect, shown, signed_in, Web, on_world, on_accounts, form_text, guarded,
  csrf_first, password_first, csrf_only, current_user, csrf_expected, to_login,
}

-- `save_app_config(conn, candidate)`
abbrev pub save : Config → Io (Unit {0})
save candidate = on_db (λ d. record d { settings = save_app_config candidate d.settings })

abbrev or_failed : Option Text → Text
or_failed (some (c ∷ s)) = c ∷ s
or_failed _ = codes "索引重建失败"

abbrev or_none_text : Option Text → Text
or_none_text none = codes "None"
or_none_text (some t) = t

-- the body of the `try` of `work`
unfoldable pub publish_candidate : Env → Config → Io (Option Text)
publish_candidate env candidate = do
  result ← publish_unlocked env.host env.os env.gpg candidate env.now
  if not result.is_ok
      then raise (runtime_error (or_failed result.error))
      else (save candidate >> set_key settings_pending zero_text >> pure none)

abbrev pub recovered : Text → Result PublishResult → Io (Option Text)
recovered m (err e) = pure (some (m ++ codes "；旧配置索引恢复也失败：" ++ message e))
recovered m (ok result) =
    if not result.is_ok
    then pure (some (m ++ codes "；旧配置索引恢复也失败：" ++ or_none_text result.error))
    else (set_key settings_pending zero_text >> pure (some (m ++ codes "；设置已回滚")))

-- its `except Exception`, which publishes the settings of before again
unfoldable pub roll_back : Env → Config → Error → Io (Option Text)
roll_back env before e w =
    let (r, w') = publish_unlocked env.host env.os env.gpg before env.now w in
    recovered (message e) r w'

-- `work` of `settings_post`, with what `load_app_config` gives
abbrev pub work_from : Env → Config → Config → Io (Option Text)
work_from env candidate before =
    if not (repository_settings_changed before candidate)
    then save candidate >> pure none
    else set_key settings_pending one_text
      >> try_except (publish_candidate env candidate) (roll_back env before)

unfoldable pub settings_work : Env → Config → Io (Option Text)
settings_work env candidate w =
    (lift (load_app_config env.host env.cfg w.db.settings) >>= work_from env candidate) w

abbrev settings_key : AppSetting → Text
settings_key public_url = codes "public_url"
settings_key suite = codes "suite"
settings_key codename = codes "codename"
settings_key component = codes "component"
settings_key architectures = codes "architectures"
settings_key origin = codes "origin"
settings_key label = codes "label"
settings_key max_upload_mb = codes "max_upload_mb"
settings_key max_upload_files = codes "max_upload_files"
settings_key session_days = codes "session_days"

abbrev settings_reply : Config → Option Text → Web Reply
settings_reply candidate none s =
    (ok (redirect 303 (codes "/admin/settings?saved=1")), record s { cfg = candidate })
settings_reply candidate (some m) s = (ok (shown 500 m), s)

abbrev settings_candidate : Server → Request → Result Config → Web Reply
settings_candidate srv request (err (validation_error m)) s = (ok (shown 400 m), s)
settings_candidate srv request (err (runtime_error m)) s = (ok (shown 400 m), s)
settings_candidate srv request (err e) s = (err e, s)
settings_candidate srv request (ok candidate) s =
    if repository_settings_changed s.cfg candidate
      && not (text_eq (form_text request (codes "confirm_repository_change")) (codes "yes"))
    then (ok (shown 400 (codes "仓库元数据发生变化，请勾选确认后再保存")), s)
    else (on_world (settings_work srv.env candidate) >>= settings_reply candidate) s

abbrev settings_body : Server → Request → User → Web Reply
settings_body srv request user = settings_candidate srv request (
    config_from_app_values srv.env.host srv.env.cfg (λ name. form_text request (settings_key name)))

-- `settings_post`
unfoldable pub settings_post : Server → Request → Web Reply
settings_post srv request = guarded csrf_first srv request (settings_body srv request)

abbrev publish_reply : Text → PublishResult → Reply
publish_reply path result =
    redirect 303 (path ++ (if result.is_ok then codes "?ok=1" else codes "?err=publish"))

abbrev publish_body : Server → User → Web Reply
publish_body srv user s =
    (on_world (publish srv.env.host srv.env.os srv.env.gpg s.cfg srv.env.now) >>= λ result.
    pure (publish_reply (codes "/admin/") result))
      s

-- `publish_now`
unfoldable pub publish_now : Server → Request → Web Reply
publish_now srv request = guarded password_first srv request (publish_body srv)

abbrev deleted_reply : PublishResult → Reply
deleted_reply result = redirect 303 (
    if result.is_ok then codes "/admin/packages?deleted=1" else codes "/admin/packages?err=publish")

abbrev delete_package_row : Server → Request → ℕ → Option PackageRow → Web Reply
delete_package_row srv request package_id none s = (ok (shown 404 (codes "not found")), s)
delete_package_row srv request package_id (some row) s =
    if not (text_eq (strip (form_text request (codes "confirm_name"))) row.name)
    then (
      ok (redirect 303 (codes "/admin/packages/" ++ decimal package_id ++ codes "?err=confirm")),
      s,
    )
    else (on_world (delete_commit srv.env.host srv.env.os srv.env.gpg s.cfg srv.env.now package_id)
          >>= λ result. pure (deleted_reply result))
        s

abbrev delete_package_body : Server → Request → ℕ → User → Web Reply
delete_package_body srv request package_id user s =
    delete_package_row srv request package_id (get_package s.world.db.packages package_id) s

-- `delete_package`
unfoldable pub delete_package : Server → Request → ℕ → Web Reply
delete_package srv request package_id =
    guarded password_first srv request (delete_package_body srv request package_id)

-- A new session for the user, with its cookies.
abbrev start_session : Server → Request → User → Text → Web Reply
start_session srv request user path s =
    let token = srv.fresh_token s.accounts in
    (on_accounts (
          create_session srv.env.host token user s.cfg.session_days
            (some (client_ip srv.is_trusted request)) request.user_agent srv.env.now)
        >> pure (
            signed_in path token (
              session_token srv.env.host s.cfg.secret_key (hash_session_token srv.env.host token))))
      s

abbrev password_body : Server → Request → User → Web Reply
password_body srv request user =
    let new = form_text request (codes "new_password") in
    if ltb (length new) 10 || not (text_eq new (form_text request (codes "new_password2")))
    then pure (shown 400 (codes "两次输入须一致且至少 10 个字符"))
    else on_accounts (change_password srv.hasher user new)
      >> modify (λ s. record s { has_bootstrap = false })
      >> start_session srv request user (codes "/admin/")

-- `password_post`
unfoldable pub password_post : Server → Request → Web Reply
password_post srv request = guarded csrf_only srv request (password_body srv request)

-- What `current_user` leaves of the accounts, and the token that the form of anybody must have.
abbrev expected_token : Server → Request → Config → Option User → Text
expected_token srv request cfg none = elim request.csrf_cookie [ none ↦ [] | some t ↦ t ]
expected_token srv request cfg (some user) = csrf_expected srv.env.host cfg request

abbrev logout_checked : Server → Request → Result Bool → Web Reply
logout_checked srv request (err e) s = (err e, s)
logout_checked srv request (ok false) s = (ok to_login, s)
logout_checked srv request (ok true) s =
    (on_accounts (delete_session srv.env.host request.session_cookie) >> pure to_login) s

-- `logout`
unfoldable pub logout : Server → Request → Web Reply
logout srv request s =
    let (user, accounts) = current_user srv request s.cfg s.accounts in
    logout_checked srv request
      (verify_csrf srv.env.host s.cfg request (form_text request (codes "csrf_token"))
        (expected_token srv request s.cfg user))
      (record s { accounts = accounts })

abbrev login_path : User → Text
login_path user = if user.must_change_password then codes "/admin/password" else codes "/admin/"

abbrev login_known : Server → Request → Text → Text → Option User → Web Reply
login_known srv request ip username none =
    on_accounts (record_attempt ip (some username) false srv.env.now)
    >> pure (shown 401 (codes "用户名或密码错误"))
login_known srv request ip username (some user) =
    on_accounts (record_attempt ip (some username) true srv.env.now)
    >> start_session srv request user (login_path user)

abbrev login_from : Server → Request → Text → Text → Web Reply
login_from srv request ip username s =
    if is_locked ip srv.env.now s.accounts
    then (ok (shown 429 (codes "登录失败次数过多，请 15 分钟后再试")), s)
    else login_known srv request ip username
        (authenticate srv.hasher username (form_text request (codes "password")) s.accounts) s

abbrev login_checked : Server → Request → Result Bool → Web Reply
login_checked srv request (err e) s = (err e, s)
login_checked srv request (ok false) s = (ok (shown 400 (codes "CSRF 校验失败，请刷新后重试")), s)
login_checked srv request (ok true) s =
    login_from srv request (client_ip srv.is_trusted request)
      (strip (form_text request (codes "username"))) s

-- `login_post`
unfoldable pub login_post : Server → Request → Web Reply
login_post srv request s =
    login_checked srv request
      (verify_csrf srv.env.host s.cfg request (form_text request (codes "csrf_token"))
        (elim request.csrf_cookie [ none ↦ [] | some t ↦ t ]))
      s
