-- ===== src/Samples/Site.antt =====
-- A client, a server, a request and a site for the tests.
use prv_apt_mirror.Prelude.{ℕ, ◌*◌, codes, [], ◌∷◌, none, some, true, false, text_eq}
use prv_apt_mirror.Exec.{ok}
use prv_apt_mirror.Host.{array, no_items}
use prv_apt_mirror.Db.Sources.{SourceRow, direct_url, never}
use prv_apt_mirror.Auth.{User, Accounts, Hasher}
use prv_apt_mirror.Samples.{plain_host, no_faults, signer, sample_config, one_upload}
use prv_apt_mirror.SourceSync.Download.{Response, Page, Net}
use prv_apt_mirror.SourceSync.Import.{Env}
use prv_apt_mirror.SourceSync.Execute.{Turn}
use prv_apt_mirror.Web.{Request}
use prv_apt_mirror.Web.Site.{Site, Server}

abbrev pub idle_source : SourceRow
idle_source = record {
  id = 1;
  name = codes "s";
  kind = direct_url;
  location = codes "https://example.org/a.deb";
  asset_pattern = codes ".*";
  interval_minutes = 60;
  release_limit = 1;
  include_prereleases = false;
  enabled = true;
  token_encrypted = none;
  created_at = 1;
  updated_at = 1;
  next_check_at = 5;
  last_checked_at = none;
  last_status = never;
  last_error = none;
  consecutive_failures = 0;
  http_etag = none;
  http_last_modified = none;
}

abbrev answer : Response
answer = record {
  url = codes "u";
  status_code = 200;
  refused = none;
  content_length = none;
  content_type = none;
  content_disposition = none;
  etag = none;
  last_modified = none;
  chunks = codes "!<ar" ∷ codes "ch>\nx" ∷ [];
  broken = none;
}

abbrev no_page : Page
no_page = record { refused = none; json = ok (array no_items); length = 0; tags = [] }

abbrev pub small_net : Net
small_net = record {
  get = λ url etag last. ok answer;
  stream = λ url. ok answer;
  is_request_error = λ e. true;
  page = λ url. ok no_page;
  free = λ w. 2 * 1024 * 1024 * 1024;
  fresh_name = λ w. codes "new";
  inode = λ w. 7;
  hex = λ t. t;
}

abbrev pub sample_env : Env
sample_env = record {
  host = plain_host;
  os = no_faults;
  gpg = signer;
  cfg = sample_config;
  net = small_net;
  now = 5;
  class_name = λ e. codes "Exception";
}

abbrev pub sample_turn : ℕ → Turn
sample_turn n = record { env = sample_env; ended = 9 }

-- The hash of a password is the password.
abbrev open_hasher : Hasher
open_hasher = record { hash = λ t. t; verify = text_eq }

abbrev pub admin : User
admin = record {
  id = 1;
  username = codes "admin";
  password_hash = codes "p";
  must_change_password = false;
  created_at = 1;
  last_login_at = none;
}

abbrev admin_accounts : Accounts
admin_accounts = record {
  users = admin ∷ [];
  sessions =
      record {
        id = codes "t";
        user_id = 1;
        created_at = 1;
        expires_at = 9;
        last_seen_at = 1;
        ip = none;
        user_agent = [];
      }
      ∷ [];
  login_attempts = [];
}

abbrev pub sample_server : Server
sample_server = record {
  env = sample_env;
  hasher = open_hasher;
  fresh_token = λ a. codes "u";
  is_trusted = λ t. false;
}

-- Every text is its own form token.
abbrev pub sample_request : Request
sample_request = record {
  origin = none;
  referer = none;
  real_ip = none;
  forwarded_proto = none;
  user_agent = none;
  session_cookie = some (codes "t");
  csrf_cookie = none;
  client = none;
  scheme = codes "http";
  form = (codes "csrf_token", codes "t") ∷ [];
}

abbrev pub sample_site : Site
sample_site = record {
  world = one_upload;
  accounts = admin_accounts;
  cfg = sample_config;
  has_bootstrap = true;
}
