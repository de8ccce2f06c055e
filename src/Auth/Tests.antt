-- ===== src/Auth/Tests.antt =====
-- Sessions of two accounts.
use prv_apt_mirror.Auth.{find_user}
use prv_apt_mirror.Auth.{change_password}
use prv_apt_mirror.Auth.{find_session}
use prv_apt_mirror.Prelude.{
  ◌+◌, ◌*◌, ◌≡◌, refl, codes, false, none, some, [], ◌∷◌, ◌==◌, ltb, if◌then◌else◌, text_eq,
}
use prv_apt_mirror.Samples.{plain_host}
use prv_apt_mirror.Auth.{User, Accounts, Hasher, create_session, load_session_user, seen_login}
use prv_apt_mirror.Auth.Sessions.{change_password_logs_out, create_session_lasts}

abbrev admin : User
admin = record {
  id = 1;
  username = codes "admin";
  password_hash = codes "h";
  must_change_password = false;
  created_at = 1;
  last_login_at = none;
}

abbrev guest : User
guest = record admin { id = 2; username = codes "guest" }

abbrev accounts : Accounts
accounts = record { users = admin ∷ guest ∷ []; sessions = []; login_attempts = [] }

abbrev plain_hasher : Hasher
plain_hasher = record { hash = λ t. t; verify = text_eq }

abbrev guest_online : Accounts
guest_online = record accounts {
  sessions =
      record {
        id = codes "t";
        user_id = 2;
        created_at = 1;
        expires_at = 99;
        last_seen_at = 1;
        ip = none;
        user_agent = [];
      }
      ∷ [];
}

change_password_logs_out_example : (guest.id == admin.id) ≡ false
unfolding load_session_user find_session change_password find_user
change_password_logs_out_example =
    change_password_logs_out plain_host plain_hasher admin guest (codes "p") (some (codes "t")) 5
      guest_online refl

create_session_lasts_example :
    (load_session_user plain_host
      (some (codes "t"))
      9
      (create_session plain_host (codes "t") admin 7 none none 5 accounts)).0
    ≡ (if ltb (5 + 7 * 86400) 9 then none else some (seen_login 5 1 admin))
unfolding find_session find_user
create_session_lasts_example =
    create_session_lasts plain_host (codes "t") admin 7 5 9 none none accounts refl refl refl
