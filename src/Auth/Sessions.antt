-- ===== src/Auth/Sessions.antt =====
-- auth.py: which sessions are good, and for how long.
use prv_apt_mirror.Prelude.{
  ℕ, ◌+◌, ◌*◌, ◌≤◌, ◌≡◌, refl, Text, Bool, true, false, not, List, [], ◌∷◌, ◌++◌, map, Option, none,
  some, arith, filter, text_eq_refl, is_empty, All, ltb, if◌then◌else◌, ◌==◌,
}
use prv_apt_mirror.Host.{Host}
use prv_apt_mirror.Auth.{
  User, Session, Accounts, Hasher, hash_session_token, new_session, create_session, change_password,
  delete_user_sessions, load_session_user, find_session, find_user, joined, load_by_id, use_session,
  with_password, seen_login,
}

-- Every session that is left belongs to another user.
abbrev pub NoneOf : ℕ → List Session → Type 0
NoneOf i = All (λ s. (s.user_id == i) ≡ false)

filter-NoneOf : (i : ℕ) (ss : List Session) → NoneOf i (filter (λ s. not (s.user_id == i)) ss)
filter-NoneOf i [] = tt
filter-NoneOf i (s ∷ ss) = ground (arith, filter-NoneOf i ss)

find_user-id : (i : ℕ) (us : List User) (u : User) → find_user i us ≡ some u → u.id ≡ i
unfolding find_user
find_user-id i [] u e = cc
find_user-id i (v ∷ us) u e = ground (arith, find_user-id i us u)

find_session-NoneOf :
    (i : ℕ) (sid : Text) (ss : List Session) (s : Session)
    → NoneOf i ss
    → find_session sid ss ≡ some s
    → (s.user_id == i) ≡ false
unfolding find_session
find_session-NoneOf i sid [] s h e = cc
find_session-NoneOf i sid (t ∷ ss) s h e = ground (arith, h.0, find_session-NoneOf i sid ss s h.1)

joined-other :
    (i : ℕ) (o : Option Session) (us : List User) (s : Session) (u : User)
    → ((t : Session) → o ≡ some t → (t.user_id == i) ≡ false)
    → joined o us ≡ some (s, u)
    → (u.id == i) ≡ false
joined-other i none us s u h e = cc
joined-other i (some t) us s u h e = ground (arith, h t refl, find_user-id t.user_id us u)

used :
    (now : ℕ) (sid : Text) (o : Option (Session × User)) (a : Accounts) (u : User)
    → (use_session now sid o a).0 ≡ some u
    → (s : Session) × (o ≡ some (s, u)) × (now ≤ s.expires_at)
used now sid none a u e = cc
used now sid (some (s, v)) a u e = (s, ground arith, ground arith)

loaded-other :
    (i now : ℕ) (sid : Text) (a : Accounts) (u : User)
    → NoneOf i a.sessions
    → (load_by_id now sid a).0 ≡ some u
    → (u.id == i) ≡ false
loaded-other i now sid a u h e =
    let (s, found, _) = used now sid (joined (find_session sid a.sessions) a.users) a u e in
    joined-other i (find_session sid a.sessions) a.users s u
      (λ t here. find_session-NoneOf i sid a.sessions t h here) found

-- After a change of a password no token gives the user whose password was changed.
pub change_password_logs_out :
    (h : Host) (hasher : Hasher) (user u : User) (new_password : Text) (token : Option Text)
    (now : ℕ) (a : Accounts)
    → (load_session_user h token now (change_password hasher user new_password a)).0 ≡ some u
    → (u.id == user.id) ≡ false
unfolding load_session_user change_password delete_user_sessions
change_password_logs_out h hasher user u new_password none now a e = cc
change_password_logs_out h hasher user u new_password (some token) now a e =
    either (is_empty token) e
  where
    changed : Accounts
    changed = record a {
      users = map (with_password (hasher.hash new_password) user.id) a.users;
      sessions = filter (λ s. not (s.user_id == user.id)) a.sessions;
    }

    either :
        (b : Bool)
        → (if b then (none, changed) else load_by_id now (hash_session_token h token) changed).0
          ≡ some u
        → (u.id == user.id) ≡ false
    either true e = cc
    either false e =
        loaded-other user.id now (hash_session_token h token) changed u
          (filter-NoneOf user.id a.sessions) e

find_session-append :
    (sid : Text) (ss : List Session) (s : Session)
    → find_session sid ss ≡ none
    → s.id ≡ sid
    → find_session sid (ss ++ s ∷ []) ≡ some s
unfolding find_session
find_session-append sid [] s out e = ground (arith, e, text_eq_refl sid)
find_session-append sid (t ∷ ss) s out e = ground (arith, find_session-append sid ss s)

find_user-map :
    (f : User → User) (i : ℕ) (us : List User) (u : User)
    → ((v : User) → (f v).id ≡ v.id)
    → find_user i us ≡ some u
    → find_user i (map f us) ≡ some (f u)
unfolding find_user
find_user-map f i [] u keeps e = cc
find_user-map f i (v ∷ us) u keeps e = ground (arith, keeps v, find_user-map f i us u keeps)

load_by_id-found :
    (later : ℕ) (sid : Text) (s : Session) (u : User) (a : Accounts)
    → find_session sid a.sessions ≡ some s
    → find_user s.user_id a.users ≡ some u
    → (load_by_id later sid a).0 ≡ (if ltb s.expires_at later then none else some u)
load_by_id-found later sid s u a here known = ground arith

seen_login-id : (now i : ℕ) (v : User) → (seen_login now i v).id ≡ v.id
seen_login-id now i v = ground arith

-- The token of a new session, if it is not empty and its hash is new, gives the user of the
-- session until the days of the session have passed, and nobody after that.
pub create_session_lasts :
    (h : Host) (token : Text) (user : User) (days now later : ℕ) (ip agent : Option Text)
    (a : Accounts)
    → is_empty token ≡ false
    → find_session (hash_session_token h token) a.sessions ≡ none
    → find_user user.id a.users ≡ some user
    → (load_session_user h (some token) later (create_session h token user days ip agent now a)).0
      ≡ (if ltb (now + days * 86400) later then none else some (seen_login now user.id user))
unfolding load_session_user create_session
create_session_lasts h token user days now later ip agent a full fresh known =
    let sid = hash_session_token h token in
    rw full (
      load_by_id-found later sid (new_session h token user days ip agent now)
        (seen_login now user.id user) (create_session h token user days ip agent now a)
        (find_session-append sid a.sessions (new_session h token user days ip agent now) fresh refl)
        (find_user-map (seen_login now user.id) user.id a.users user (seen_login-id now user.id)
          known))
