-- ===== src/Web/Site.antt =====
-- routes/admin.py: the state that the handlers share, the user of a request, and the guards of the handlers
-- that change something.
use prv_apt_mirror.Prelude.{
  ℕ, Text, codes, Bool, true, false, List, [], ◌∷◌, Option, none, some, if◌then◌else◌, ltb, lookup,
}
use prv_apt_mirror.Exec.{Exec, Result, ok, err, modify}
use prv_apt_mirror.Host.{Host}
use prv_apt_mirror.Config.{Config}
use prv_apt_mirror.Db.Sources.{SourceRow}
use prv_apt_mirror.Auth.{Accounts, Hasher, User, load_session_user, hash_session_token}
use prv_apt_mirror.World.{World, Io}
use prv_apt_mirror.SourceSync.Import.{Env}
use prv_apt_mirror.Web.{Request, verify_csrf, session_token}

-- The state of the program: the tables and files, the accounts, `app.state.cfg`, and whether the file
-- with the first password is there.
pub record Site : Type 0 where
  pub world : World
  pub accounts : Accounts
  pub cfg : Config
  pub has_bootstrap : Bool

-- What the handlers are called with: the environment, whose settings are `app.state.base_cfg`, argon2,
-- what `secrets` gives, and which texts are addresses of trusted proxies.
pub record Server : Type 0 where
  pub env : Env
  pub hasher : Hasher
  pub fresh_token : Accounts → Text
  pub is_trusted : Text → Bool

-- An answer: a redirection, a page or a text with its status and message, or the redirection that
-- sets the cookies of a session and of its form token.
pub data Reply : Type 0 where
  redirect : ℕ → Text → Reply
  shown : ℕ → Text → Reply
  signed_in : Text → Text → Text → Reply

abbrev pub Web : Type 0 → Type 0
Web A = Exec Site A

abbrev pub on_world : {A : Type 0} → Io A → Web A
on_world m s = let (r, w) = m s.world in (r, record s { world = w })

abbrev pub on_accounts : (Accounts → Accounts) → Web (Unit {0})
on_accounts f = modify (λ s. record s { accounts = f s.accounts })

-- a function of sources.py on its table
abbrev pub on_sources : {A : Type 0} → Exec (List SourceRow) A → Web A
on_sources m s =
    let (r, rows) = m s.world.db.package_sources in
    (r, record s { world = record s.world { db = record s.world.db { package_sources = rows } } })

-- `request.form`, with the default of the parameter
abbrev pub form_or : Request → Text → Text → Text
form_or request key default = elim (lookup key request.form) [ none ↦ default | some v ↦ v ]

abbrev pub form_text : Request → Text → Text
form_text request key = form_or request key []

-- `SELECT * FROM users ORDER BY id LIMIT 1`
unfoldable pub first_user : List User → Option User
first_user [] = none
first_user (u ∷ us) = elim (first_user us) [
  | none ↦ some u
  | some v ↦ if ltb v.id u.id then some v else some u
]

abbrev pub signed_in_user : Server → Request → Accounts → Option User × Accounts
signed_in_user srv request a = load_session_user srv.env.host request.session_cookie srv.env.now a

abbrev pub user_without_auth : Server → Request → Accounts → Option User → Option User × Accounts
user_without_auth srv request a (some u) = (some u, a)
user_without_auth srv request a none = signed_in_user srv request a

-- `current_user`
unfoldable pub current_user : Server → Request → Config → Accounts → Option User × Accounts
current_user srv request cfg a =
    if cfg.insecure_no_auth
    then user_without_auth srv request a (first_user a.users)
    else signed_in_user srv request a

abbrev or_blank : Option Text → Text
or_blank none = []
or_blank (some t) = t

-- `_csrf_expected` for a user
unfoldable pub csrf_expected : Host → Config → Request → Text
csrf_expected h cfg request =
    session_token h cfg.secret_key (hash_session_token h (or_blank request.session_cookie))

abbrev pub csrf_check : Server → Config → Request → Result Bool
csrf_check srv cfg request =
    verify_csrf srv.env.host cfg request (form_text request (codes "csrf_token"))
      (csrf_expected srv.env.host cfg request)

abbrev pub to_login : Reply
to_login = redirect 303 (codes "/admin/login")

abbrev pub to_password : Reply
to_password = redirect 303 (codes "/admin/password")

abbrev pub csrf_failed : Reply
csrf_failed = shown 403 (codes "CSRF 校验失败")

-- The two tests between the user and the body of a handler, which stand in either order; the page
-- of the password has only the first.
pub data Order : Type 0 where
  csrf_first password_first csrf_only : Order

abbrev after_csrf : Web Reply → Result Bool → Web Reply
after_csrf body (err e) s = (err e, s)
after_csrf body (ok false) s = (ok csrf_failed, s)
after_csrf body (ok true) s = body s

abbrev after_password : Web Reply → Bool → Web Reply
after_password body true s = (ok to_password, s)
after_password body false s = body s

abbrev pub checked_body : Order → User → Result Bool → Web Reply → Web Reply
checked_body csrf_first user check body =
    after_csrf (after_password body user.must_change_password) check
checked_body password_first user check body =
    after_password (after_csrf body check) user.must_change_password
checked_body csrf_only user check body = after_csrf body check

abbrev pub for_user : Order → Server → Request → (User → Web Reply) → Option User → Web Reply
for_user order srv request body none s = (ok to_login, s)
for_user order srv request body (some user) s =
    checked_body order user (csrf_check srv s.cfg request) (body user) s

-- The beginning of each handler: the user, and the tests in their order.
unfoldable pub guarded : Order → Server → Request → (User → Web Reply) → Web Reply
guarded order srv request body s =
    let (user, accounts) = current_user srv request s.cfg s.accounts in
    for_user order srv request body user (record s { accounts = accounts })
