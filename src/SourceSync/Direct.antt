-- ===== src/SourceSync/Direct.antt =====
-- source_sync.py: a check of a source that is one file.
use prv_apt_mirror.Prelude.{
  ℕ, ◌+◌, pos, Text, codes, List, [], ◌∷◌, ◌++◌, take, Option, none, some, if◌then◌else◌, strip,
}
use prv_apt_mirror.Exec.{other_error, Result, ok, err, pure, raise, ◌>>=◌, ◌>>◌}
use prv_apt_mirror.Host.{Host}
use prv_apt_mirror.Db.Sources.{SourceRow, ArtifactStatus, update_source_row}
use prv_apt_mirror.Storage.{ParsedDeb}
use prv_apt_mirror.Publish.{PublishResult}
use prv_apt_mirror.Publish.Commits.{UploadResult, upload_commit}
use prv_apt_mirror.World.{Io, on_db}
use prv_apt_mirror.SourceSync.{SyncStats}
use prv_apt_mirror.SourceSync.Download.{Response, download, unlink_incoming}
use prv_apt_mirror.SourceSync.Import.{
  Env, RemoteAsset, begin, is_refusal, parse_incoming, publish_errors, safe_error, settle_artifact,
  skip_one,
}

abbrev or_blank : Option Text → Text
or_blank none = []
or_blank (some t) = t

abbrev disposition_pattern : Text
disposition_pattern = codes "filename\\*?=(?:UTF-8''|\")?([^\";]+)"

abbrev response_name : Host → Response → Option Text → Text
response_name h r (some group) = h.unquote (strip group)
response_name h r none = h.unquote (h.path_name (h.urlparse r.url).path)

abbrev or_download : Text → Text
or_download [] = codes "download.deb"
or_download (c ∷ s) = c ∷ s

-- `_filename_from_response`; the address of a response is never false, so the other is not used.
unfoldable pub filename_from_response : Host → Response → Text
filename_from_response h r = take 500 (
    or_download
      (response_name h r (h.re_group disposition_pattern (or_blank r.content_disposition))))

-- the errors and the counts of a check
abbrev pub Counted : Type 0
Counted = List Text × SyncStats

abbrev first_result : List UploadResult → Io UploadResult
first_result [] = raise (other_error (codes "list index out of range"))
first_result (r ∷ rs) = pure r

abbrev direct_errors : Option Text → Option PublishResult → List Text
direct_errors (some m) published = m ∷ []
direct_errors none published = publish_errors published

-- `_process_prepared_direct`
unfoldable pub process_prepared_direct : Env → ℕ → ParsedDeb → Text → SyncStats → Io Counted
process_prepared_direct env i parsed name stats = do
  committed ← upload_commit env.host env.os env.gpg env.cfg ((parsed, name) ∷ []) none env.now
  result ← first_result committed.0
  settled ← settle_artifact env i parsed result stats
  pure (direct_errors settled.0 committed.1, settled.1)

abbrev direct_asset : Env → SourceRow → Response → ParsedDeb → RemoteAsset
direct_asset env source r parsed = record {
  external_id = codes "direct:" ++ parsed.sha256;
  filename = filename_from_response env.host r;
  url = source.location;
  size = some (pos parsed.size);
}

abbrev with_validators : Response → SourceRow → SourceRow
with_validators r s = record s { http_etag = r.etag; http_last_modified = r.last_modified }

-- `UPDATE package_sources SET http_etag = ?, http_last_modified = ? WHERE id = ?`
abbrev store_validators : SourceRow → Response → Io (Unit {0})
store_validators source r = on_db λ d. record d {
  package_sources = update_source_row source.id (with_validators r) d.package_sources;
}

abbrev validated : SourceRow → Response → Counted → Io Counted
validated source r ([], stats) = store_validators source r >> pure ([], stats)
validated source r (m ∷ ms, stats) = pure (m ∷ ms, stats)

-- An artifact that is settled needs no package.
abbrev begun_direct : Env → ParsedDeb → Text → SyncStats → ℕ × Option ArtifactStatus → Io Counted
begun_direct env parsed name stats (i, some status) =
    unlink_incoming name >> pure ([], skip_one stats)
begun_direct env parsed name stats (i, none) = process_prepared_direct env i parsed name stats

-- what follows the download
unfoldable pub import_direct : Env → SourceRow → Text → Response → SyncStats → Io Counted
import_direct env source name r stats = do
  parsed ← parse_incoming env name
  begun ← begin env source (direct_asset env source r parsed)
  counted ← begun_direct env parsed name stats begun
  validated source r counted

abbrev count_direct : SyncStats → SyncStats
count_direct s = record s { discovered = s.discovered + 1; downloaded = s.downloaded + 1 }

-- The two handlers. No count changes between the download and what raises after it.
abbrev refused_direct : Env → SyncStats → Result Counted → Io Counted
refused_direct env stats (ok counted) = pure counted
refused_direct env stats (err e) =
    if is_refusal e then pure (safe_error env e ∷ [], stats) else raise e

abbrev cleared_direct : Env → Text → SyncStats → Result Counted → Io Counted
cleared_direct env name stats (ok counted) = pure counted
cleared_direct env name stats (err e) = unlink_incoming name >> refused_direct env stats (err e)

abbrev fetched_direct : Env → SourceRow → SyncStats → Result (Option Text × Response) → Io Counted
fetched_direct env source stats (err e) w = refused_direct env stats (err e) w
fetched_direct env source stats (ok (none, r)) w = pure ([], stats) w
fetched_direct env source stats (ok (some name, r)) w =
    let (result, w') = import_direct env source name r (count_direct stats) w in
    cleared_direct env name (count_direct stats) result w'

-- `if source.http_etag`
abbrev non_empty : Option Text → Option Text
non_empty (some (c ∷ s)) = some (c ∷ s)
non_empty _ = none

-- `_sync_direct`
unfoldable pub sync_direct : Env → SourceRow → SyncStats → Io Counted
sync_direct env source stats w =
    let (result, w') =
      download env.net env.os env.cfg source.location (non_empty source.http_etag)
        (non_empty source.http_last_modified) w in
    fetched_direct env source stats result w'
