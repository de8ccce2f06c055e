-- ===== src/Web/Guards.antt =====
-- routes/admin.py: a request that changes the repository, its settings or the users is one of a user,
-- by a form of the page.
use prv_apt_mirror.Prelude.{
  ℕ, ◌≡◌, ◌≢◌, refl, Text, Bool, true, false, Option, none, some, inl, inr, ◌⊎◌, if_elim, ltb, ◌≤◌,
  List, map, Bool-cases, codes, sym, ◌∙◌, arith, if◌then◌else◌,
}
use mathlib.Core.Bool.{false≢true}
use prv_apt_mirror.Exec.{Result, ok, err}
use prv_apt_mirror.Auth.{
  Accounts, User, Session, load_session_user, use_session, joined, find_session, hash_session_token,
  find_user, drop_session, touch,
}
use prv_apt_mirror.Host.{Host}
use prv_apt_mirror.Prelude.{[], ◌∷◌}
use prv_apt_mirror.Web.{Request}
use prv_apt_mirror.Web.Csrf.{IsVerified, verify_csrf_outcomes}
use mathlib.Core.Option.{some-injective}
use prv_apt_mirror.Web.Site.{
  Site, Server, Reply, Web, current_user, first_user, user_without_auth, csrf_check, csrf_expected,
  form_text, signed_in_user, Order, csrf_first, password_first, csrf_only, checked_body, for_user,
  guarded,
}
use prv_apt_mirror.Web.Sources.{source_create, source_update, source_sync_now, source_delete}
use prv_apt_mirror.Web.Admin.{settings_post, publish_now, delete_package, password_post}

-- The handlers that change the repository, its settings or the users.
pub data Route : Type 0 where
  creates_source saves_settings publishes sets_password : Route
  updates_source syncs_source deletes_source deletes_package : ℕ → Route

abbrev pub handle : Route → Server → Request → Web Reply
handle creates_source srv request = source_create srv request
handle saves_settings srv request = settings_post srv request
handle publishes srv request = publish_now srv request
handle sets_password srv request = password_post srv request
handle (updates_source i) srv request = source_update srv request i
handle (syncs_source i) srv request = source_sync_now srv request i
handle (deletes_source i) srv request = source_delete srv request i
handle (deletes_package i) srv request = delete_package srv request i

-- Only a user may do this whose first password is changed.
abbrev pub needs_password : Order → Bool
needs_password csrf_only = false
needs_password _ = true

abbrev pub order_of : Route → Order
order_of publishes = password_first
order_of (deletes_package i) = password_first
order_of sets_password = csrf_only
order_of _ = csrf_first

none≢some : (u : User) → none ≢ some u
none≢some u = λ e. cc

-- Who acts: the user of a session that has not expired, whose token is the cookie; or, where the
-- settings switch the logins off, the first user.
pub data ActsAs (srv : Server) (request : Request) (s : Site) (user : User) : Type 0 where
  by_session :
      (c : ℕ) (t : Text) (session : Session)
      → request.session_cookie ≡ some (c ∷ t)
      → find_session (hash_session_token srv.env.host (c ∷ t)) s.accounts.sessions ≡ some session
      → find_user session.user_id s.accounts.users ≡ some user
      → srv.env.now ≤ session.expires_at
      → ActsAs srv request s user
  without_login :
      s.cfg.insecure_no_auth ≡ true
      → first_user s.accounts.users ≡ some user
      → ActsAs srv request s user

-- The request is one of a user, made by the page.
pub record IsEntitled (order : Order) (srv : Server) (request : Request) (s : Site) : Type 0 where
  pub user : User
  pub acts : ActsAs srv request s user
  pub own_form :
      IsVerified srv.env.host s.cfg request
        (form_text request (codes "csrf_token"))
        (csrf_expected srv.env.host s.cfg request)
  pub password : needs_password order ≡ true → user.must_change_password ≡ false

-- What looking for the user does to the sessions: nothing, or it drops one, or it notes that one
-- was used.
pub data Seen (now : ℕ) (a : List Session) : List Session → Type 0 where
  same : Seen now a a
  dropped : (sid : Text) → Seen now a (drop_session sid a)
  touched : (sid : Text) → Seen now a (map (touch now sid) a)

-- Nothing changed but one session at most.
pub record IsUntouched (now : ℕ) (s t : Site) : Type 0 where
  pub world : t.world ≡ s.world
  pub cfg : t.cfg ≡ s.cfg
  pub users : t.accounts.users ≡ s.accounts.users
  pub login_attempts : t.accounts.login_attempts ≡ s.accounts.login_attempts
  pub sessions : Seen now s.accounts.sessions t.accounts.sessions
  pub has_bootstrap : t.has_bootstrap ≡ s.has_bootstrap

-- The accounts after the user was looked for.
pub record IsLooked (now : ℕ) (a b : Accounts) : Type 0 where
  pub users : b.users ≡ a.users
  pub login_attempts : b.login_attempts ≡ a.login_attempts
  pub sessions : Seen now a.sessions b.sessions

IsLooked-same : (now : ℕ) (a : Accounts) → IsLooked now a a
IsLooked-same now a = record { users = refl; login_attempts = refl; sessions = same }

use_session-IsLooked :
    (now : ℕ) (sid : Text) (o : Option (Session × User)) (a : Accounts)
    → IsLooked now a (use_session now sid o a).1
use_session-IsLooked now sid none a = IsLooked-same now a
use_session-IsLooked now sid (some (s, u)) a =
    if_elim (λ (p : Option User × Accounts). IsLooked now a p.1) (ltb s.expires_at now) _ _
      (λ _. record { users = refl; login_attempts = refl; sessions = dropped sid })
      (λ _. record { users = refl; login_attempts = refl; sessions = touched sid })

load-IsLooked :
    (h : Host) (token : Option Text) (now : ℕ) (a : Accounts)
    → IsLooked now a (load_session_user h token now a).1
unfolding load_session_user
load-IsLooked h none now a = IsLooked-same now a
load-IsLooked h (some []) now a = IsLooked-same now a
load-IsLooked h (some (c ∷ t)) now a =
    use_session-IsLooked now _
      (joined (find_session (hash_session_token h (c ∷ t)) a.sessions) a.users) a

pub current_user-IsLooked :
    (srv : Server) (request : Request) (s : Site)
    → IsLooked srv.env.now s.accounts (current_user srv request s.cfg s.accounts).1
unfolding current_user
current_user-IsLooked srv request s =
    if_elim (λ (p : Option User × Accounts). IsLooked srv.env.now s.accounts p.1)
      s.cfg.insecure_no_auth _ _ (λ _. without (first_user s.accounts.users))
      (λ _. load-IsLooked srv.env.host request.session_cookie srv.env.now s.accounts)
  where
    without :
        (o : Option User)
        → IsLooked srv.env.now s.accounts (user_without_auth srv request s.accounts o).1
    without (some u) = IsLooked-same srv.env.now s.accounts
    without none = load-IsLooked srv.env.host request.session_cookie srv.env.now s.accounts

module _ (srv : Server) (request : Request) (s : Site) where
  used_session :
      (c : ℕ) (t : Text) (session : Option Session) (user : User)
      → request.session_cookie ≡ some (c ∷ t)
      → find_session (hash_session_token srv.env.host (c ∷ t)) s.accounts.sessions ≡ session
      → (use_session srv.env.now
          (hash_session_token srv.env.host (c ∷ t))
          (joined session s.accounts.users)
          s.accounts).0
        ≡ some user
      → ActsAs srv request s user
  used_session c t none user cookie found e = cc
  used_session c t (some session) user cookie found e =
      joined_user (find_user session.user_id s.accounts.users) refl e
    where
      joined_user :
          (o : Option User)
          → find_user session.user_id s.accounts.users ≡ o
          → (use_session srv.env.now
              (hash_session_token srv.env.host (c ∷ t))
              (elim o [ none ↦ none | some u ↦ some (session, u) ])
              s.accounts).0
            ≡ some user
          → ActsAs srv request s user
      joined_user none f e = cc
      joined_user (some u) f e = elim (Bool-cases (ltb session.expires_at srv.env.now)) [
        | inl expired ↦ absurd (none≢some user (sym (rw expired refl) ∙ e))
        | inr valid ↦
            let same_user : u ≡ user = some-injective u user (sym (rw valid refl) ∙ e) in
            by_session c t session cookie found (rw (← same_user) f) (ground (arith, valid))
      ]

  signed_in-ActsAs :
      (cookie : Option Text) (user : User)
      → request.session_cookie ≡ cookie
      → (load_session_user srv.env.host cookie srv.env.now s.accounts).0 ≡ some user
      → ActsAs srv request s user
  unfolding load_session_user
  signed_in-ActsAs none user k e = cc
  signed_in-ActsAs (some []) user k e = cc
  signed_in-ActsAs (some (c ∷ t)) user k e =
      used_session c t (find_session (hash_session_token srv.env.host (c ∷ t)) s.accounts.sessions)
        user k refl e

  pub current_user-ActsAs :
      (user : User)
      → (current_user srv request s.cfg s.accounts).0 ≡ some user
      → ActsAs srv request s user
  unfolding current_user
  current_user-ActsAs user e = go s.cfg.insecure_no_auth refl e
    where
      without :
          (o : Option User)
          → s.cfg.insecure_no_auth ≡ true
          → first_user s.accounts.users ≡ o
          → (user_without_auth srv request s.accounts o).0 ≡ some user
          → ActsAs srv request s user
      without none off f e = signed_in-ActsAs request.session_cookie user refl e
      without (some u) off f e = without_login off (f ∙ e)

      go :
          (b : Bool)
          → s.cfg.insecure_no_auth ≡ b
          → (if b
              then user_without_auth srv request s.accounts (first_user s.accounts.users)
              else signed_in_user srv request s.accounts).0
            ≡ some user
          → ActsAs srv request s user
      go true off e = without (first_user s.accounts.users) off refl e
      go false on e = signed_in-ActsAs request.session_cookie user refl e

  pub looked-IsUntouched :
      IsUntouched srv.env.now s
        (record s { accounts = (current_user srv request s.cfg s.accounts).1 })
  looked-IsUntouched =
      let looked = current_user-IsLooked srv request s in
      record {
        world = refl;
        cfg = refl;
        users = looked.users;
        login_attempts = looked.login_attempts;
        sessions = looked.sessions;
        has_bootstrap = refl;
      }

module _ (srv : Server) (request : Request) (body : User → Web Reply) (s : Site) where
  verified :
      csrf_check srv s.cfg request ≡ ok true
      → IsVerified srv.env.host s.cfg request
          (form_text request (codes "csrf_token"))
          (csrf_expected srv.env.host s.cfg request)
  verified = (verify_csrf_outcomes srv.env.host s.cfg request _ _).0.0

  checked-IsGuarded :
      (order : Order) (user : User) (check : Result Bool) (first : Bool)
      → (current_user srv request s.cfg s.accounts).0 ≡ some user
      → csrf_check srv s.cfg request ≡ check
      → user.must_change_password ≡ first
      → IsUntouched srv.env.now s
          (checked_body order user check
            (body user)
            (record s { accounts = (current_user srv request s.cfg s.accounts).1 })).1
        ⊎ IsEntitled order srv request s
  checked-IsGuarded csrf_first user (err e) first u c m = inl (looked-IsUntouched srv request s)
  checked-IsGuarded csrf_first user (ok false) first u c m = inl (looked-IsUntouched srv request s)
  checked-IsGuarded csrf_first user (ok true) true u c m =
      inl (rw m (looked-IsUntouched srv request s))
  checked-IsGuarded csrf_first user (ok true) false u c m = inr (record {
    user = user;
    acts = current_user-ActsAs srv request s user u;
    own_form = verified c;
    password = λ _. m;
  })
  checked-IsGuarded password_first user check true u c m =
      inl (rw m (looked-IsUntouched srv request s))
  checked-IsGuarded password_first user (err e) false u c m =
      inl (rw m (looked-IsUntouched srv request s))
  checked-IsGuarded password_first user (ok false) false u c m =
      inl (rw m (looked-IsUntouched srv request s))
  checked-IsGuarded password_first user (ok true) false u c m = inr (record {
    user = user;
    acts = current_user-ActsAs srv request s user u;
    own_form = verified c;
    password = λ _. m;
  })
  checked-IsGuarded csrf_only user (err e) first u c m = inl (looked-IsUntouched srv request s)
  checked-IsGuarded csrf_only user (ok false) first u c m = inl (looked-IsUntouched srv request s)
  checked-IsGuarded csrf_only user (ok true) first u c m = inr (record {
    user = user;
    acts = current_user-ActsAs srv request s user u;
    own_form = verified c;
    password = λ e. absurd (false≢true e);
  })

  guarded_outcomes :
      (order : Order)
      → IsUntouched srv.env.now s (guarded order srv request body s).1
        ⊎ IsEntitled order srv request s
  unfolding guarded
  guarded_outcomes order = go (current_user srv request s.cfg s.accounts).0 refl
    where
      go :
          (o : Option User)
          → (current_user srv request s.cfg s.accounts).0 ≡ o
          → IsUntouched srv.env.now s
              (for_user order srv request body o
                (record s { accounts = (current_user srv request s.cfg s.accounts).1 })).1
            ⊎ IsEntitled order srv request s
      go none e = inl (looked-IsUntouched srv request s)
      go (some user) e =
          checked-IsGuarded order user (csrf_check srv s.cfg request) user.must_change_password e
            refl refl

module _ (srv : Server) (request : Request) (s : Site) where
  -- A request to a handler that changes the repository, its settings or the users leaves the
  -- tables of packages, runs, settings and sources, the files, the settings in force, the users
  -- and the failed logins as they were, and of the sessions it drops or touches one at most. Or
  -- it is of a user: of the session in its cookie, which has not expired, or of the first user
  -- where the settings switch the logins off. Then its origin is allowed, its form token is the
  -- expected one and not empty, and, but for the page of the password, the first password of the
  -- user is changed.
  pub handle_outcomes :
      (r : Route)
      → IsUntouched srv.env.now s (handle r srv request s).1 ⊎ IsEntitled (order_of r) srv request s
  unfolding source_create settings_post publish_now password_post source_update source_sync_now
      source_delete delete_package
  handle_outcomes creates_source = guarded_outcomes srv request _ s csrf_first
  handle_outcomes saves_settings = guarded_outcomes srv request _ s csrf_first
  handle_outcomes publishes = guarded_outcomes srv request _ s password_first
  handle_outcomes sets_password = guarded_outcomes srv request _ s csrf_only
  handle_outcomes (updates_source i) = guarded_outcomes srv request _ s csrf_first
  handle_outcomes (syncs_source i) = guarded_outcomes srv request _ s csrf_first
  handle_outcomes (deletes_source i) = guarded_outcomes srv request _ s csrf_first
  handle_outcomes (deletes_package i) = guarded_outcomes srv request _ s password_first
