-- ===== src/Db/Runs.antt =====
-- The table `publish_runs` of db.py; the last row stands first.
use prv_apt_mirror.Prelude.{
  ℕ, Text, Bool, true, false, Option, none, some, List, [], ◌∷◌, ◌==◌, if◌then◌else◌,
}

-- `publish_runs.status`
pub data RunStatus : Type 0 where
  running success failed : RunStatus

abbrev pub is_success : Option RunStatus → Bool
is_success (some success) = true
is_success _ = false

pub record PublishRun : Type 0 where
  pub id : ℕ
  pub started_at : ℕ
  pub finished_at : Option ℕ
  pub status : RunStatus
  pub package_count : Option ℕ
  pub error : Option Text

-- `UPDATE publish_runs SET ... WHERE id = ?`
unfoldable pub update_run : ℕ → (PublishRun → PublishRun) → List PublishRun → List PublishRun
update_run i f [] = []
update_run i f (r ∷ rs) = (if r.id == i then f r else r) ∷ update_run i f rs

-- `SELECT status FROM publish_runs ORDER BY id DESC LIMIT 1`
abbrev pub last_publish_status : List PublishRun → Option RunStatus
last_publish_status [] = none
last_publish_status (r ∷ rs) = some r.status
