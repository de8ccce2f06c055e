-- ===== src/SourceSync/Import.antt =====
-- source_sync.py: the artifacts of a source, from the remote file to the package that it becomes.
pub mod Artifacts
use prv_apt_mirror.Prelude.{
  ℕ, ℤ, pos, negsuc, ◌+◌, Text, codes, Bool, true, false, ◌&&◌, not, List, [], ◌∷◌, ◌++◌, Option,
  none, some, lookup, if◌then◌else◌, length, take, ltb, text_eq, next_id, strip, ◌==◌,
}
use prv_apt_mirror.Exec.{
  Error, value_error, deb_parse_error, disk_full, validation_error, other_error, message, Result,
  ok, err, pure, raise, gets, lift, ◌>>=◌, ◌>>◌, try_except,
}
use prv_apt_mirror.Host.{Host}
use prv_apt_mirror.Config.{Config, max_upload_bytes}
use prv_apt_mirror.Db.Packages.{PackageRow, get_package_nva}
use prv_apt_mirror.Db.Sources.{
  SourceRow, is_queued, Artifact, ArtifactStatus, pending, imported, skipped, rejected, conflict,
  failed, artifact_row, update_artifact,
}
use prv_apt_mirror.Storage.{ParsedDeb}
use prv_apt_mirror.Publish.{PublishResult, Signer}
use prv_apt_mirror.Publish.Commits.{UploadResult, uploaded, duplicated, upload_commit}
use prv_apt_mirror.World.{World, Io, Faults, on_db}
use prv_apt_mirror.Debparse.Deb.{parse_deb}
use prv_apt_mirror.SourceSync.{SyncStats}
use prv_apt_mirror.SourceSync.Download.{Net, download, unlink_incoming, over_limit}

pub record RemoteAsset : Type 0 where
  pub external_id : Text
  pub filename : Text
  pub url : Text
  pub size : Option ℤ

-- What the functions are called with: the libraries, the failing calls, the signer, the settings,
-- the client, the time, and the name of an exception's class.
pub record Env : Type 0 where
  pub host : Host
  pub os : Faults
  pub gpg : Signer
  pub cfg : Config
  pub net : Net
  pub now : ℕ
  pub class_name : Error → Text

abbrev or_class : Env → Error → Text → Text
or_class env e [] = env.class_name e
or_class env e (c ∷ s) = c ∷ s

-- `_safe_error`
abbrev pub safe_error : Env → Error → Text
safe_error env e = take 2000 (or_class env e (strip (message e)))

-- `FINAL_ARTIFACT_STATUSES`
abbrev pub is_final : ArtifactStatus → Bool
is_final imported = true
is_final skipped = true
is_final rejected = true
is_final conflict = true
is_final _ = false

abbrev pub is_retryable : ArtifactStatus → Bool
is_retryable rejected = true
is_retryable conflict = true
is_retryable _ = false

abbrev pub is_settled : SourceRow → Artifact → Bool
is_settled source a =
    is_final a.status && not (is_queued source.last_status && is_retryable a.status)

abbrev pub new_artifact : ℕ → ℕ → RemoteAsset → ℕ → Artifact
new_artifact i source_id asset now = record {
  id = i;
  source_id = source_id;
  external_id = asset.external_id;
  filename = asset.filename;
  remote_url = asset.url;
  size = asset.size;
  sha256 = none;
  package_id = none;
  status = pending;
  first_seen_at = now;
  finished_at = none;
  error = none;
}

abbrev pub restart_artifact : RemoteAsset → Artifact → Artifact
restart_artifact asset a = record a {
  filename = asset.filename;
  remote_url = asset.url;
  size = asset.size;
  status = pending;
  finished_at = none;
  error = none;
}

-- The row of the asset: a settled one stays as it is, another is inserted or begins again.
abbrev pub begin_with :
    ℕ
    → SourceRow
    → RemoteAsset
    → Option Artifact
    → List Artifact
    → (ℕ × Option ArtifactStatus) × List Artifact
begin_with now source asset none rows =
    let i = next_id (λ a. a.id) rows in ((i, none), rows ++ new_artifact i source.id asset now ∷ [])
begin_with now source asset (some a) rows =
    if is_settled source a
    then ((a.id, some a.status), rows)
    else ((a.id, none), update_artifact a.id (restart_artifact asset) rows)

-- `_begin_artifact`
unfoldable pub begin_artifact :
    ℕ → SourceRow → RemoteAsset → List Artifact → (ℕ × Option ArtifactStatus) × List Artifact
begin_artifact now source asset rows =
    begin_with now source asset (artifact_row rows source.id asset.external_id) rows

-- `COALESCE(?, old)`
abbrev coalesce {ℓ} : {A : Type ℓ} → Option A → Option A → Option A
coalesce none old = old
coalesce (some a) old = some a

abbrev size_of : Option ParsedDeb → Option ℤ
size_of none = none
size_of (some p) = some (pos p.size)

abbrev digest_of : Option ParsedDeb → Option Text
digest_of none = none
digest_of (some p) = some p.sha256

abbrev pub finished_artifact :
    ℕ → ArtifactStatus → Option ParsedDeb → Option ℕ → Option Text → Artifact → Artifact
finished_artifact now status parsed package_id error a = record a {
  status = status;
  size = coalesce (size_of parsed) a.size;
  sha256 = coalesce (digest_of parsed) a.sha256;
  package_id = package_id;
  finished_at = some now;
  error = error;
}

-- `_finish_artifact`
unfoldable pub finish_artifact :
    ℕ
    → ℕ
    → ArtifactStatus
    → Option ParsedDeb
    → Option ℕ
    → Option Text
    → List Artifact
    → List Artifact
finish_artifact now i status parsed package_id error =
    update_artifact i (finished_artifact now status parsed package_id error)

abbrev pub on_artifacts : (List Artifact → List Artifact) → Io (Unit {0})
on_artifacts f = on_db (λ d. record d { source_artifacts = f d.source_artifacts })

-- The loop's variables: what waits for the commit, the errors and the counts.
pub record Batch : Type 0 where
  pub pending : List (ParsedDeb × Text)
  pub metadata : List (ℕ × ParsedDeb)
  pub errors : List Text
  pub stats : SyncStats

abbrev pub skip_one : SyncStats → SyncStats
skip_one s = record s { skipped = s.skipped + 1 }

-- DebParseError, ValueError (and its subclass for settings) and DiskFullError
abbrev pub is_refusal : Error → Bool
is_refusal (deb_parse_error m) = true
is_refusal (value_error m) = true
is_refusal (validation_error m) = true
is_refusal (disk_full m) = true
is_refusal _ = false

abbrev too_big : Config → Option ℤ → Bool
too_big cfg none = false
too_big cfg (some (pos n)) = ltb (max_upload_bytes cfg) n
too_big cfg (some (negsuc n)) = false

abbrev content_of : Text → World → Text
content_of name w = elim (lookup name w.incoming) [ none ↦ [] | some f ↦ f.content ]

-- `parse_deb(incoming, allowed_archs=cfg.architectures)`
abbrev pub parse_incoming : Env → Text → Io ParsedDeb
parse_incoming env name w =
    lift (parse_deb env.host (some env.cfg.architectures) name (content_of name w)) w

-- `assert incoming is not None`
abbrev asserted : Option Text → Io Text
asserted none = raise (other_error [])
asserted (some name) = pure name

-- The download of one asset, which the handlers of the loop leave without its file. The result
-- says whether the download was counted before the error.
abbrev pub fetched : Env → Text → Io (Text × Result ParsedDeb)
fetched env url = do
  answer ← download env.net env.os env.cfg url none none
  name ← asserted answer.0
  parsed ←
      try_except (parse_incoming env name >>= λ p. pure (ok p))
        (λ e. unlink_incoming name >> pure (err e))
  pure (name, parsed)

abbrev pub fetch_asset : Env → RemoteAsset → Io (Text × Result ParsedDeb)
fetch_asset env asset =
    if too_big env.cfg asset.size then raise over_limit else fetched env asset.url

abbrev pub count_download : Batch → Batch
count_download b = record b { stats = record b.stats { downloaded = b.stats.downloaded + 1 } }

-- the two handlers of the loop
abbrev pub failed_asset : Env → RemoteAsset → ℕ → Error → Batch → Io Batch
failed_asset env asset i e b =
    let text = safe_error env e in
    on_artifacts
      (finish_artifact env.now i (if is_refusal e then rejected else failed) none none (some text))
    >> pure (record b {
      errors = b.errors ++ (asset.filename ++ codes ": " ++ text) ∷ [];
      stats = if is_refusal e then skip_one b.stats else b.stats;
    })

abbrev pub fetched_asset : Env → RemoteAsset → ℕ → Batch → Text → Result ParsedDeb → Io Batch
fetched_asset env asset i b name (ok parsed) = pure (record b {
  pending = b.pending ++ (parsed, name) ∷ [];
  metadata = b.metadata ++ (i, parsed) ∷ [];
})
fetched_asset env asset i b name (err e) = failed_asset env asset i e b

abbrev pub after_fetch : Env → RemoteAsset → ℕ → Batch → Result (Text × Result ParsedDeb) → Io Batch
after_fetch env asset i b (ok (name, parsed)) =
    fetched_asset env asset i (count_download b) name parsed
after_fetch env asset i b (err e) = failed_asset env asset i e b

abbrev pub pending_asset : Env → RemoteAsset → ℕ → Batch → Io Batch
pending_asset env asset i b w =
    let (r, w') = fetch_asset env asset w in after_fetch env asset i b r w'

abbrev pub begun_asset : Env → RemoteAsset → Batch → ℕ × Option ArtifactStatus → Io Batch
begun_asset env asset b (i, some status) = pure (record b { stats = skip_one b.stats })
begun_asset env asset b (i, none) = pending_asset env asset i b

-- `_begin_artifact` on the database
abbrev pub begin : Env → SourceRow → RemoteAsset → Io (ℕ × Option ArtifactStatus)
begin env source asset w =
    let (r, rows) = begin_artifact env.now source asset w.source_artifacts in
    (ok r, record w { db = record w.db { source_artifacts = rows } })

-- one turn of the loop over the assets
unfoldable pub process_asset : Env → SourceRow → Batch → RemoteAsset → Io Batch
process_asset env source b asset = begin env source asset >>= begun_asset env asset b

unfoldable pub process_each : Env → SourceRow → List RemoteAsset → Batch → Io Batch
process_each env source [] b = pure b
process_each env source (a ∷ as') b = process_asset env source b a >>= process_each env source as'

abbrev pub other_bytes : Text
other_bytes = codes "相同 Package、Version 和 Architecture 已存在，但文件摘要不同"

abbrev pub is_same_package : Option PackageRow → ParsedDeb → Bool
is_same_package none parsed = false
is_same_package (some row) parsed = text_eq row.sha256 parsed.sha256

abbrev row_id : Option PackageRow → Option ℕ
row_id none = none
row_id (some row) = some row.id

-- What is written for one result of `upload_commit`: the error, if there is one, and the counts.
abbrev pub settle_artifact :
    Env → ℕ → ParsedDeb → UploadResult → SyncStats → Io (Option Text × SyncStats)
settle_artifact env i parsed (uploaded place p) stats =
    on_artifacts (finish_artifact env.now i imported (some parsed) (some place.row_id) none)
    >> pure (none, record stats { imported = stats.imported + 1 })
settle_artifact env i parsed (duplicated n v a) stats = do
  existing ← gets (λ w. get_package_nva w.packages parsed.name parsed.version parsed.architecture)
  if is_same_package existing parsed
      then (on_artifacts (finish_artifact env.now i skipped (some parsed) (row_id existing) none)
          >> pure (none, skip_one stats))
      else (on_artifacts (finish_artifact env.now i conflict (some parsed) none (some other_bytes))
          >> pure (some other_bytes, skip_one stats))

abbrev named_error : ParsedDeb → Option Text → List Text
named_error parsed none = []
named_error parsed (some m) = (parsed.name ++ codes ": " ++ m) ∷ []

-- `zip(results, metadata, strict=True)`
unfoldable pub settle_each : Env → List UploadResult → List (ℕ × ParsedDeb) → Batch → Io Batch
settle_each env [] [] b = pure b
settle_each env [] (m ∷ ms) b =
    raise (value_error (codes "zip() argument 2 is longer than argument 1"))
settle_each env (r ∷ rs) [] b =
    raise (value_error (codes "zip() argument 2 is shorter than argument 1"))
settle_each env (r ∷ rs) ((i, parsed) ∷ ms) b = do
  done ← settle_artifact env i parsed r b.stats
  settle_each env rs ms
      (record b { errors = b.errors ++ named_error parsed done.0; stats = done.1 })

abbrev pub publish_failed : Option Text → Text
publish_failed none = codes "软件包已导入，但仓库索引发布失败：None"
publish_failed (some e) = codes "软件包已导入，但仓库索引发布失败：" ++ e

abbrev pub publish_errors : Option PublishResult → List Text
publish_errors none = []
publish_errors (some r) = if r.is_ok then [] else publish_failed r.error ∷ []

abbrev pub commit_pending : Env → Batch → Io Batch
commit_pending env b = do
  done ← upload_commit env.host env.os env.gpg env.cfg b.pending none env.now
  b' ← settle_each env done.0 b.metadata b
  pure (record b' { errors = b'.errors ++ publish_errors done.1 })

abbrev no_pending : Batch → Bool
no_pending b = length b.pending == 0

-- `_process_assets`
unfoldable pub process_assets : Env → SourceRow → List RemoteAsset → SyncStats → Io Batch
process_assets env source assets stats = do
  b ← process_each env source assets (record {
    pending = [];
    metadata = [];
    errors = [];
    stats = record stats { discovered = stats.discovered + length assets };
  })
  if no_pending b then pure b else commit_pending env b
