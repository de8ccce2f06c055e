-- ===== src/Files/Tree.antt =====
-- An index tree: what `rebuild_dists`, `prepare_by_hash` and `sign_release` write below `dists`.
-- The rows of a Packages file are kept, and Indexer.antt says which text they make.
use prv_apt_mirror.Prelude.{ℕ, Text, Dict, Option, List}
use prv_apt_mirror.Db.Packages.{PackageRow}

-- A file by-hash/SHA256/<digest> of the index directory `dir`.
pub record HashFile : Type 0 where
  pub dir : Text
  pub digest : Text
  pub content : Text
  pub mtime : ℕ

-- .by-hash-history.json: the last digests of each index
abbrev pub History : Type 0
History = Dict (List Text)

pub record Dists : Type 0 where
  pub inode : ℕ
  pub suite : Text
  pub codename : Text
  pub component : Text
  pub origin : Text
  pub label : Text
  -- the rows of binary-<arch>/Packages
  pub by_arch : Dict (List PackageRow)
  pub by_hash : List HashFile
  pub history : Option History
  -- the key that InRelease is signed with
  pub signed_by : Option Text
