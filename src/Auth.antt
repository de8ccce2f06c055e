-- ===== src/Auth.antt =====
-- auth.py and ratelimit.py: the accounts, the sessions of the web page and the limit on logins, with
-- the three tables of db.py that they use. Times are seconds since the epoch.
pub mod Sessions
mod Tests
use prv_apt_mirror.Prelude.{
  ℕ, ◌+◌, ◌*◌, ◌-◌, Text, Bool, false, ◌&&◌, not, List, [], ◌∷◌, ◌++◌, map, Option, none, some,
  filter, length, take, text_eq, if◌then◌else◌, ltb, leb, ◌==◌, is_empty,
}
use prv_apt_mirror.Host.{Host}
use prv_apt_mirror.Sources.Table.{fold}

-- `User` of models.py, a row of the table `users`
pub record User : Type 0 where
  pub id : ℕ
  pub username : Text
  pub password_hash : Text
  pub must_change_password : Bool
  pub created_at : ℕ
  pub last_login_at : Option ℕ

pub record Session : Type 0 where
  pub id : Text
  pub user_id : ℕ
  pub created_at : ℕ
  pub expires_at : ℕ
  pub last_seen_at : ℕ
  pub ip : Option Text
  pub user_agent : Text

pub record Attempt : Type 0 where
  pub ip : Text
  pub username : Option Text
  pub is_success : Bool
  pub at : ℕ

pub record Accounts : Type 0 where
  pub users : List User
  pub sessions : List Session
  pub login_attempts : List Attempt

-- argon2: `HASHER.hash`, and `HASHER.verify`, false where it raises
pub record Hasher : Type 0 where
  pub hash : Text → Text
  pub verify : Text → Text → Bool

abbrev pub hash_session_token : Host → Text → Text
hash_session_token h token = h.sha256_hex (h.encode token)

abbrev pub seen_login : ℕ → ℕ → User → User
seen_login now i u = if u.id == i then record u { last_login_at = some now } else u

abbrev pub agent_text : Option Text → Text
agent_text none = []
agent_text (some t) = take 256 t

abbrev pub new_session : Host → Text → User → ℕ → Option Text → Option Text → ℕ → Session
new_session h token user days ip user_agent now = record {
  id = hash_session_token h token;
  user_id = user.id;
  created_at = now;
  expires_at = now + days * 86400;
  last_seen_at = now;
  ip = ip;
  user_agent = agent_text user_agent;
}

-- `create_session`, with the token that `secrets` gives
unfoldable pub create_session :
    Host → Text → User → ℕ → Option Text → Option Text → ℕ → Accounts → Accounts
create_session h token user days ip user_agent now a = record a {
  sessions = a.sessions ++ new_session h token user days ip user_agent now ∷ [];
  users = map (seen_login now user.id) a.users;
}

unfoldable pub find_user : ℕ → List User → Option User
find_user i [] = none
find_user i (u ∷ us) = if u.id == i then some u else find_user i us

unfoldable pub find_session : Text → List Session → Option Session
find_session sid [] = none
find_session sid (s ∷ ss) = if text_eq s.id sid then some s else find_session sid ss

-- `DELETE FROM sessions WHERE id = ?`
abbrev pub drop_session : Text → List Session → List Session
drop_session sid = filter (λ s. not (text_eq s.id sid))

abbrev pub touch : ℕ → Text → Session → Session
touch now sid s = if text_eq s.id sid then record s { last_seen_at = now } else s

-- the session and its user, as the join finds them
abbrev pub joined : Option Session → List User → Option (Session × User)
joined none users = none
joined (some s) users = elim (find_user s.user_id users) [ none ↦ none | some u ↦ some (s, u) ]

abbrev pub use_session : ℕ → Text → Option (Session × User) → Accounts → Option User × Accounts
use_session now sid none a = (none, a)
use_session now sid (some (s, u)) a =
    if ltb s.expires_at now
    then (none, record a { sessions = drop_session sid a.sessions })
    else (some u, record a { sessions = map (touch now sid) a.sessions })

abbrev pub load_by_id : ℕ → Text → Accounts → Option User × Accounts
load_by_id now sid a = use_session now sid (joined (find_session sid a.sessions) a.users) a

-- `load_session_user`
unfoldable pub load_session_user : Host → Option Text → ℕ → Accounts → Option User × Accounts
load_session_user h none now a = (none, a)
load_session_user h (some token) now a =
    if is_empty token then (none, a) else load_by_id now (hash_session_token h token) a

unfoldable pub delete_session : Host → Option Text → Accounts → Accounts
delete_session h none a = a
delete_session h (some token) a =
    if is_empty token
    then a
    else record a { sessions = drop_session (hash_session_token h token) a.sessions }

unfoldable pub delete_user_sessions : ℕ → Accounts → Accounts
delete_user_sessions i a = record a { sessions = filter (λ s. not (s.user_id == i)) a.sessions }

abbrev pub with_password : Text → ℕ → User → User
with_password new_hash i u =
    if u.id == i then record u { password_hash = new_hash; must_change_password = false } else u

-- `change_password`
unfoldable pub change_password : Hasher → User → Text → Accounts → Accounts
unfolding delete_user_sessions
change_password hasher user new_password a =
    delete_user_sessions user.id
      (record a { users = map (with_password (hasher.hash new_password) user.id) a.users })

-- `username = ? COLLATE NOCASE`
unfoldable pub get_user_by_username : Text → List User → Option User
get_user_by_username name [] = none
get_user_by_username name (u ∷ us) =
    if text_eq (fold u.username) (fold name) then some u else get_user_by_username name us

abbrev pub verified : Hasher → Text → Option User → Option User
verified hasher password none = none
verified hasher password (some u) = if hasher.verify u.password_hash password then some u else none

-- `authenticate`; for an unknown name the hash of a fixed password is checked, for the time it takes.
unfoldable pub authenticate : Hasher → Text → Text → Accounts → Option User
authenticate hasher username password a =
    verified hasher password (get_user_by_username username a.users)

-- ratelimit.py
abbrev pub window_s : ℕ
window_s = 15 * 60

abbrev pub max_failures : ℕ
max_failures = 5

-- a failed login from the address, in the window
abbrev pub counts : Text → ℕ → Attempt → Bool
counts ip now t = text_eq t.ip ip && not t.is_success && leb (now - window_s) t.at

unfoldable pub is_locked : Text → ℕ → Accounts → Bool
is_locked ip now a = leb max_failures (length (filter (counts ip now) a.login_attempts))

unfoldable pub record_attempt : Text → Option Text → Bool → ℕ → Accounts → Accounts
record_attempt ip username success now a = record a {
  login_attempts =
      a.login_attempts
      ++ record { ip = ip; username = username; is_success = success; at = now } ∷ [];
}
