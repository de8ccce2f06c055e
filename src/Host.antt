-- ===== src/Host.antt =====
-- What the program takes from libraries outside the repository, as parameters of the model:
-- hashlib, gzip, the UTF-8 codec, json, re, urllib, ipaddress, cryptography, the Unicode tables and the
-- version order of python-debian.
use prv_apt_mirror.Prelude.{ℕ, Text, Bool, Option, List, Dict}

-- What `urllib.parse.urlparse` returns: `hostname`, `username` and `password` may be None, and
-- reading `port` may raise ValueError.
pub record Url : Type 0 where
  pub scheme : Text
  pub netloc : Text
  pub path : Text
  pub query : Text
  pub fragment : Text
  pub hostname : Option Text
  pub username : Option Text
  pub password : Option Text
  pub has_valid_port : Bool

-- The decoders of zstandard, gzip, lzma and bz2.
pub data Codec : Type 0 where
  zst gz xz bz2 : Codec

-- A member of a tar archive: `content` is none where `extractfile` returns None.
pub record TarMember : Type 0 where
  pub name : Text
  pub is_file : Bool
  pub size : ℕ
  pub content : Option Text

-- What `json.loads` returns; a float comes with whether it is zero, and its `str`.
mutual
  pub data Json : Type 0 where
    null : Json
    boolean : Bool → Json
    natural : ℕ → Json
    -- minus the number and one
    minus : ℕ → Json
    float : Bool → Text → Json
    text : Text → Json
    array : Items → Json
    object : Fields → Json

  pub data Items : Type 0 where
    no_items : Items
    item : Json → Items → Items

  pub data Fields : Type 0 where
    no_fields : Fields
    field : Text → Json → Fields → Fields

-- A tag that html.parser finds, with its attributes.
pub record Tag : Type 0 where
  pub name : Text
  pub attrs : List (Text × Option Text)

pub record Host : Type 0 where
  pub encode : Text → Text
  pub md5_hex : Text → Text
  pub sha1_hex : Text → Text
  pub sha256_hex : Text → Text
  pub gzip : Text → Text
  pub json_dumps : Dict Text → Text
  pub json_loads : Text → Dict Text
  -- `Version(a) < Version(b)`
  pub version_lt : Text → Text → Bool
  -- `c.lower()` for a character outside ASCII
  pub wide_lower : ℕ → Text
  -- what `int` reads in place of a character beyond ASCII: the digit of a decimal digit of any
  -- script, else a character that is no digit
  pub wide_digit : ℕ → ℕ
  pub urlparse : Text → Url
  -- `ip_address(host).is_loopback`, false if `host` is no address
  pub is_loopback_ip : Text → Bool
  -- `raw.decode("utf-8")`, none where it raises
  pub decode : Text → Option Text
  -- what reading at most the limit and one byte gives, and whether the stream has ended there;
  -- none where the decoder raises
  pub decompress : Codec → Text → Option (Text × Bool)
  -- the members of a tar archive, none where tarfile raises
  pub tar_members : Text → Option (List TarMember)
  -- whether `Version(text)` accepts the text
  pub is_version : Text → Bool
  pub repr : Text → Text
  -- `sha256(raw).digest()` and `base64.urlsafe_b64encode`
  pub sha256_digest : Text → Text
  pub b64 : Text → Text
  -- `Fernet(key).encrypt(raw)`, and `decrypt`, none where it raises
  pub fernet_encrypt : Text → Text → Text
  pub fernet_decrypt : Text → Text → Option Text
  -- what `re.compile(pattern, re.IGNORECASE)` raises, and whether the pattern is found in a text
  pub re_error : Text → Option Text
  pub re_search : Text → Text → Bool
  pub url_join : Text → Text → Text
  pub unquote : Text → Text
  -- `str(value)` for a value that is no text and no natural number
  pub json_str : Json → Text
  -- `re.search(pattern, text, re.IGNORECASE)`: its first group
  pub re_group : Text → Text → Option Text
  -- `Path(path).name`
  pub path_name : Text → Text
  -- `hmac.new(key, message, sha256).hexdigest()`
  pub hmac_hex : Text → Text → Text
  -- `urllib.parse.quote(text, safe="")`
  pub quote : Text → Text
