-- ===== src/Db/Sources.antt =====
-- The tables `package_sources`, `source_runs` and `source_artifacts` of db.py, and `SourceRow` of
-- models.py.
use prv_apt_mirror.Prelude.{
  ℕ, ℤ, Text, Bool, true, false, ◌&&◌, List, [], ◌∷◌, Option, none, some, ◌==◌, text_eq,
  if◌then◌else◌,
}

-- `package_sources.kind`, which its CHECK keeps to these two
pub data Kind : Type 0 where
  github_release direct_url : Kind

-- `package_sources.last_status`
pub data SourceStatus : Type 0 where
  never queued running success error : SourceStatus

abbrev pub is_running : SourceStatus → Bool
is_running running = true
is_running _ = false

abbrev pub is_queued : SourceStatus → Bool
is_queued queued = true
is_queued _ = false

pub record SourceRow : Type 0 where
  pub id : ℕ
  pub name : Text
  pub kind : Kind
  pub location : Text
  pub asset_pattern : Text
  pub interval_minutes : ℕ
  pub release_limit : ℕ
  pub include_prereleases : Bool
  pub enabled : Bool
  pub token_encrypted : Option Text
  pub created_at : ℕ
  pub updated_at : ℕ
  pub next_check_at : ℕ
  pub last_checked_at : Option ℕ
  pub last_status : SourceStatus
  pub last_error : Option Text
  pub consecutive_failures : ℕ
  pub http_etag : Option Text
  pub http_last_modified : Option Text

pub record SourceRun : Type 0 where
  pub id : ℕ
  pub source_id : ℕ
  pub started_at : ℕ
  pub finished_at : Option ℕ
  pub status : SourceStatus
  pub discovered : ℕ
  pub downloaded : ℕ
  pub imported : ℕ
  pub skipped : ℕ
  pub error : Option Text

-- `source_artifacts.status`
pub data ArtifactStatus : Type 0 where
  pending imported skipped rejected conflict failed : ArtifactStatus

pub record Artifact : Type 0 where
  pub id : ℕ
  pub source_id : ℕ
  pub external_id : Text
  pub filename : Text
  pub remote_url : Text
  pub size : Option ℤ
  pub sha256 : Option Text
  pub package_id : Option ℕ
  pub status : ArtifactStatus
  pub first_seen_at : ℕ
  pub finished_at : Option ℕ
  pub error : Option Text

-- `UPDATE package_sources SET ... WHERE id = ?`
unfoldable pub update_source_row : ℕ → (SourceRow → SourceRow) → List SourceRow → List SourceRow
update_source_row i f [] = []
update_source_row i f (s ∷ ss) = (if s.id == i then f s else s) ∷ update_source_row i f ss

-- `SELECT * FROM package_sources WHERE id = ?`
unfoldable pub get_source : List SourceRow → ℕ → Option SourceRow
get_source [] i = none
get_source (s ∷ ss) i = if s.id == i then some s else get_source ss i

unfoldable pub update_source_run : ℕ → (SourceRun → SourceRun) → List SourceRun → List SourceRun
update_source_run i f [] = []
update_source_run i f (r ∷ rs) = (if r.id == i then f r else r) ∷ update_source_run i f rs

abbrev pub is_artifact : ℕ → Text → Artifact → Bool
is_artifact source_id external_id a = a.source_id == source_id && text_eq a.external_id external_id

-- `_artifact_row` of source_sync.py
unfoldable pub artifact_row : List Artifact → ℕ → Text → Option Artifact
artifact_row [] source_id external_id = none
artifact_row (a ∷ as') source_id external_id =
    if is_artifact source_id external_id a then some a else artifact_row as' source_id external_id

unfoldable pub update_artifact : ℕ → (Artifact → Artifact) → List Artifact → List Artifact
update_artifact i f [] = []
update_artifact i f (a ∷ as') = (if a.id == i then f a else a) ∷ update_artifact i f as'
