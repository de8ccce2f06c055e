-- ===== src/Files.antt =====
-- The files below `data_dir` that the program keeps: the packages of the repository and the
-- uploads, by path, and the two index trees `dists` and `dists.next`, which are replaced whole.
-- Directories and permissions are not kept.
pub mod Tree
use prv_apt_mirror.Prelude.{ℕ, Text, Bool, Dict, Option}
use Tree.{Dists}

pub record File : Type 0 where
  pub inode : ℕ
  pub content : Text
  pub is_symlink : Bool

pub record Files : Type 0 where
  -- by the path below `repo_dir`
  pub repo : Dict File
  -- by the name in `incoming_dir`
  pub incoming : Dict File
  -- by the name in `quarantine`
  pub quarantine : Dict File
  pub live : Option Dists
  pub next : Option Dists
  -- the inode of the next directory that is made
  pub fresh_inode : ℕ
