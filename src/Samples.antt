-- ===== src/Samples.antt =====
-- Concrete parameters, configurations and states for the tests.
pub mod Site
use prv_apt_mirror.Prelude.{Text, codes, [], ◌∷◌, Option, none, some, true, false, text_lt}
use prv_apt_mirror.Host.{Host, Url}
use prv_apt_mirror.Config.{Config}
use prv_apt_mirror.Db.{Db}
use prv_apt_mirror.Db.Packages.{PackageRow, active}
use prv_apt_mirror.Db.Keys.{publish_dirty, gpg_fingerprint, Settings}
use prv_apt_mirror.Files.{File, Files}
use prv_apt_mirror.Storage.{ParsedDeb}
use prv_apt_mirror.World.{World, Faults}

abbrev local_url : Url
local_url = record {
  scheme = codes "http";
  netloc = codes "localhost";
  path = codes "/";
  query = [];
  fragment = [];
  hostname = some (codes "localhost");
  username = none;
  password = none;
  has_valid_port = true;
}

-- Every text is its own digest and its own encoding.
abbrev pub plain_host : Host
plain_host = record {
  encode = λ t. t;
  md5_hex = λ t. t;
  sha1_hex = λ t. t;
  sha256_hex = λ t. t;
  gzip = λ t. t;
  json_dumps = λ d. [];
  json_loads = λ t. [];
  version_lt = text_lt;
  wide_lower = λ c. c ∷ [];
  wide_digit = λ c. 63;
  urlparse = λ t. local_url;
  is_loopback_ip = λ t. false;
  decode = λ t. some t;
  decompress = λ c t. some (t, true);
  tar_members = λ t. none;
  is_version = λ t. true;
  repr = λ t. t;
  sha256_digest = λ t. t;
  b64 = λ t. t;
  fernet_encrypt = λ k t. t;
  fernet_decrypt = λ k t. some t;
  re_error = λ p. none;
  re_search = λ p t. true;
  url_join = λ base href. href;
  unquote = λ t. t;
  json_str = λ v. [];
  re_group = λ p t. none;
  path_name = λ t. t;
  hmac_hex = λ k t. t;
  quote = λ t. t;
}

abbrev pub no_faults : Faults
no_faults c = none

abbrev pub signer : Text → Option Text
signer f = none

abbrev pub sample_config : Config
sample_config = record {
  secret_key = codes "k";
  admin_user = codes "admin";
  admin_password = none;
  public_url = codes "http://localhost";
  admin_origins = [];
  cookie_secure = codes "auto";
  origin_check = false;
  insecure_no_auth = false;
  max_upload_mb = 512;
  max_upload_files = 20;
  suite = codes "stable";
  codename = codes "stable";
  component = codes "main";
  architectures = codes "amd64" ∷ codes "all" ∷ [];
  origin = codes "o";
  label = codes "l";
  session_days = 7;
}

abbrev pub foo_deb : ParsedDeb
foo_deb = record {
  name = codes "foo";
  version = codes "1";
  architecture = codes "all";
  control = [];
  size = 3;
  md5 = codes "d";
  sha1 = codes "d";
  sha256 = codes "d";
  warnings = [];
}

abbrev pub foo_row : PackageRow
foo_row = record {
  id = 1;
  name = codes "foo";
  version = codes "1";
  architecture = codes "all";
  component = codes "main";
  filename = codes "pool/main/f/foo/foo_1_all.deb";
  size = 3;
  md5 = codes "d";
  sha1 = codes "d";
  sha256 = codes "d";
  control_json = [];
  state = active;
  uploaded_at = 1;
  uploaded_by = none;
}

abbrev pub blob : File
blob = record { inode = 9; content = codes "d"; is_symlink = false }

abbrev pub key_only : Settings
key_only gpg_fingerprint = some (codes "ABCD")
key_only publish_dirty = some (codes "0")
key_only _ = none

abbrev pub no_rows : Db
no_rows = record {
  packages = [];
  publish_runs = [];
  settings = key_only;
  package_sources = [];
  source_runs = [];
  source_artifacts = [];
}

abbrev pub no_files : Files
no_files = record {
  repo = [];
  incoming = (codes "up", blob) ∷ [];
  quarantine = [];
  live = none;
  next = none;
  fresh_inode = 1;
}

-- One package and its file, nothing published yet.
abbrev pub one_package : World
one_package = record {
  db = record no_rows { packages = foo_row ∷ [] };
  files = record no_files { repo = (foo_row.filename, blob) ∷ [] };
}

-- An upload waits, and the repository is empty.
abbrev pub one_upload : World
one_upload = record { db = no_rows; files = no_files }
