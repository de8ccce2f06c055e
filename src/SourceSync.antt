-- ===== src/SourceSync.antt =====
-- source_sync.py: the life of a source between two checks. A check claims the source, runs, and
-- finishes it; a restart marks what it finds running as failed.
pub mod Schedule
pub mod Claims
pub mod Download
pub mod Import
pub mod Listings
pub mod Directory
pub mod Direct
pub mod Execute
pub mod Life
pub mod Phases
mod Tests
mod Examples
use prv_apt_mirror.Prelude.{
  ℕ, ◌+◌, ◌*◌, ◌-◌, ◌^◌, min, Text, codes, Bool, true, false, ◌&&◌, ◌||◌, not, List, [], ◌∷◌, ◌++◌,
  map, Option, none, some, if◌then◌else◌, leb, ltb, ◌==◌, next_id, is_empty,
}
use prv_apt_mirror.Db.{Db}
use prv_apt_mirror.Db.Sources.{
  SourceRow, SourceRun, SourceStatus, queued, running, success, error, is_running,
  update_source_row, get_source, update_source_run,
}

pub record SyncStats : Type 0 where
  pub discovered : ℕ
  pub downloaded : ℕ
  pub imported : ℕ
  pub skipped : ℕ

abbrev pub no_stats : SyncStats
no_stats = record { discovered = 0; downloaded = 0; imported = 0; skipped = 0 }

abbrev pub interrupted : Text
interrupted = codes "应用重启，任务已中断"

abbrev pub interrupt_run : ℕ → SourceRun → SourceRun
interrupt_run now r =
    if is_running r.status
    then record r { finished_at = some now; status = error; error = some interrupted }
    else r

abbrev pub interrupt_source : ℕ → SourceRow → SourceRow
interrupt_source now s =
    if is_running s.last_status
    then record s { last_status = error; last_error = some interrupted; next_check_at = now }
    else s

-- `recover_interrupted_source_runs`
unfoldable pub recover_interrupted_source_runs : ℕ → Db → Db
recover_interrupted_source_runs now d = record d {
  source_runs = map (interrupt_run now) d.source_runs;
  package_sources = map (interrupt_source now) d.package_sources;
}

-- `enabled = 1 AND last_status != 'running'`
abbrev pub is_claimable : SourceRow → Bool
is_claimable s = s.enabled && not (is_running s.last_status)

-- `... AND next_check_at <= ?`
abbrev pub is_due : ℕ → SourceRow → Bool
is_due now s = is_claimable s && leb s.next_check_at now

-- `ORDER BY next_check_at, id LIMIT 1`
abbrev pub earlier : SourceRow → SourceRow → Bool
earlier s t =
    ltb s.next_check_at t.next_check_at || s.next_check_at == t.next_check_at && ltb s.id t.id

abbrev pub pick : SourceRow → Option SourceRow → Option SourceRow
pick s none = some s
pick s (some t) = if earlier t s then some t else some s

unfoldable pub first_due : ℕ → List SourceRow → Option SourceRow
first_due now [] = none
first_due now (s ∷ ss) = let rest = first_due now ss in if is_due now s then pick s rest else rest

unfoldable pub claimable_by_id : ℕ → List SourceRow → Option SourceRow
claimable_by_id i [] = none
claimable_by_id i (s ∷ ss) = if s.id == i && is_claimable s then some s else claimable_by_id i ss

abbrev pub candidate : ℕ → Option ℕ → List SourceRow → Option SourceRow
candidate now none ss = first_due now ss
candidate now (some i) ss = claimable_by_id i ss

abbrev pub mark_running : SourceRow → SourceRow
mark_running s = record s { last_status = running; last_error = none }

abbrev pub new_run : ℕ → ℕ → ℕ → SourceRun
new_run i source_id now = record {
  id = i;
  source_id = source_id;
  started_at = now;
  finished_at = none;
  status = running;
  discovered = 0;
  downloaded = 0;
  imported = 0;
  skipped = 0;
  error = none;
}

abbrev pub claimed : ℕ → SourceRow → Db → Db
claimed now s d = record d {
  package_sources = update_source_row s.id mark_running d.package_sources;
  source_runs = d.source_runs ++ new_run (next_id (λ r. r.id) d.source_runs) s.id now ∷ [];
}

-- `_claim_source`; the row that it returns is the one before the update.
abbrev pub claim_candidate : ℕ → Option SourceRow → Db → Option (SourceRow × ℕ) × Db
claim_candidate now none d = (none, d)
claim_candidate now (some s) d = (some (s, next_id (λ r. r.id) d.source_runs), claimed now s d)

unfoldable pub claim_source : ℕ → Option ℕ → Db → Option (SourceRow × ℕ) × Db
claim_source now source_id d = claim_candidate now (candidate now source_id d.package_sources) d

-- `min(interval_minutes * 60, 60 * (2 ** min(failures - 1, 8)))`
unfoldable pub retry_seconds : ℕ → ℕ → ℕ
retry_seconds interval_minutes failures =
    min (interval_minutes * 60) (60 * 2 ^ min (failures - 1) 8)

-- `if error`: an empty text counts as no error
abbrev pub is_error : Option Text → Bool
is_error none = false
is_error (some e) = not (is_empty e)

abbrev pub failures_after : Option Text → SourceRow → ℕ
failures_after e s = if is_error e then s.consecutive_failures + 1 else 0

abbrev pub wait_after : Option Text → SourceRow → ℕ
wait_after e s =
    if is_error e
    then retry_seconds s.interval_minutes (s.consecutive_failures + 1)
    else s.interval_minutes * 60

abbrev pub status_after : Option Text → SourceStatus
status_after e = if is_error e then error else success

abbrev pub finish_row : ℕ → Option Text → SourceRow → SourceRow → SourceRow
finish_row now e current s = record s {
  last_checked_at = some now;
  last_status = status_after e;
  last_error = e;
  consecutive_failures = failures_after e current;
  next_check_at = now + wait_after e current;
}

abbrev pub finish_source_run : ℕ → SyncStats → Option Text → SourceRun → SourceRun
finish_source_run now stats e r = record r {
  finished_at = some now;
  status = status_after e;
  discovered = stats.discovered;
  downloaded = stats.downloaded;
  imported = stats.imported;
  skipped = stats.skipped;
  error = e;
}

abbrev pub finish_found : ℕ → ℕ → ℕ → SyncStats → Option Text → Option SourceRow → Db → Db
finish_found now source_id run_id stats e none d = d
finish_found now source_id run_id stats e (some current) d = record d {
  source_runs = update_source_run run_id (finish_source_run now stats e) d.source_runs;
  package_sources = update_source_row source_id (finish_row now e current) d.package_sources;
}

-- `_finish_source`; a source that was deleted meanwhile is left alone.
unfoldable pub finish_source : ℕ → ℕ → ℕ → SyncStats → Option Text → Db → Db
finish_source now source_id run_id stats e d =
    finish_found now source_id run_id stats e (get_source d.package_sources source_id) d

abbrev pub queue_row : ℕ → SourceRow → SourceRow
queue_row now s = record s { next_check_at = now; last_status = queued }

-- `queue_source` of sources.py, and whether a row was changed
unfoldable pub queue_source : ℕ → ℕ → List SourceRow → List SourceRow × Bool
queue_source now i [] = ([], false)
queue_source now i (s ∷ ss) =
    let (rest, any_row) = queue_source now i ss in
    if s.id == i && is_claimable s then (queue_row now s ∷ rest, true) else (s ∷ rest, any_row)
