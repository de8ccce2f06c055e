-- ===== src/SourceSync/Execute.antt =====
-- source_sync.py: one check of a source from its claim to its end, and the checks that are due.
pub mod Frees
use prv_apt_mirror.Prelude.{
  ℕ, suc, zero, Text, codes, Bool, true, false, not, List, [], ◌∷◌, ◌++◌, take, Option, none, some,
  if◌then◌else◌, join, has_suffix,
}
use prv_apt_mirror.Exec.{Result, ok, err, pure, lift, ◌>>=◌, ◌>>◌}
use prv_apt_mirror.Db.Sources.{SourceRow, Kind, github_release, direct_url}
use prv_apt_mirror.Publish.{PublishResult}
use prv_apt_mirror.Publish.Commits.{retry_pending_publish}
use prv_apt_mirror.Settings.{load_app_config}
use prv_apt_mirror.Sources.{decrypt_token}
use prv_apt_mirror.World.{World, Io}
use prv_apt_mirror.SourceSync.{SyncStats, no_stats, claim_source, finish_source}
use prv_apt_mirror.SourceSync.Import.{Env, Batch, process_assets, safe_error}
use prv_apt_mirror.SourceSync.Listings.{github_assets}
use prv_apt_mirror.SourceSync.Directory.{http_directory_assets}
use prv_apt_mirror.SourceSync.Direct.{Counted, sync_direct}

abbrev counted : Batch → Counted
counted b = (b.errors, b.stats)

-- the check of either kind, with the settings that are stored
unfoldable pub sync_kind : Env → SourceRow → Kind → Io Counted
sync_kind env source github_release = do
  assets ← lift (github_assets env.host env.net source)
  b ← process_assets env source assets no_stats
  pure (counted b)
sync_kind env source direct_url =
    if has_suffix (env.host.urlparse source.location).path (codes "/")
    then (do
      assets ← lift (http_directory_assets env.host env.net source)
      b ← process_assets env source assets no_stats
      pure (counted b))
    else sync_direct env source no_stats

-- `"; ".join(errors)[:2000] or None`
abbrev text_or_none : Text → Option Text
text_or_none [] = none
text_or_none (c ∷ s) = some (c ∷ s)

abbrev joined_errors : List Text → Option Text
joined_errors errors = text_or_none (take 2000 (join (codes "; ") errors))

abbrev or_none_text : Option Text → Text
or_none_text none = codes "None"
or_none_text (some t) = t

abbrev is_failure : Option PublishResult → Bool
is_failure none = false
is_failure (some r) = not r.is_ok

abbrev failure_text : Option PublishResult → Text
failure_text none = []
failure_text (some r) = codes "仓库索引重试发布失败：" ++ or_none_text r.error

abbrev pub Checked : Type 0
Checked = SyncStats × Option Text

-- what follows a publish that was due and has not failed
abbrev execute_kind : Env → SourceRow → Io Checked
execute_kind env source = do
  cfg ← (λ w. lift (load_app_config env.host env.cfg w.settings) w)
  done ← sync_kind (record env { cfg = cfg }) source source.kind
  pure (done.1, joined_errors done.0)

-- `_execute_source`, where the settings of `env` are those of the environment
unfoldable pub execute_source : Env → SourceRow → Io Checked
execute_source env source = do
  recovery ← retry_pending_publish env.host env.os env.gpg env.cfg env.now
  if is_failure recovery
      then pure (no_stats, some (failure_text recovery))
      else execute_kind env source

-- The body of the inner `try`. The token goes into the headers of the client, which is `env.net`.
abbrev pub check_body : Env → SourceRow → Io Checked
check_body env source =
    lift (decrypt_token env.host env.cfg source.token_encrypted) >> execute_source env source

-- What a check that raised counts for.
abbrev pub checked_result : Env → Result Checked → Checked
checked_result env (ok done) = done
checked_result env (err e) = (no_stats, some (safe_error env e))

-- `_finish_source`
abbrev pub finish : ℕ → SourceRow → ℕ → Checked → World → World
finish ended source run (stats, error) w = record w {
  db = finish_source ended source.id run stats error w.db;
}

abbrev pub sync_claimed : Env → ℕ → Option (SourceRow × ℕ) → Io Bool
sync_claimed env ended none w = pure false w
sync_claimed env ended (some (source, run)) w =
    let (result, w') = check_body env source w in
    (ok true, finish ended source run (checked_result env result) w')

-- `sync_source_once`, which ends at the time `ended`
unfoldable pub sync_source_once : Env → ℕ → Option ℕ → Io Bool
sync_source_once env ended source_id w =
    let (found, d) = claim_source env.now source_id w.db in
    sync_claimed env ended found (record w { db = d })

-- What the code meets at each turn of a loop: the time, the faults, the client, and the time of the
-- turn's end.
pub record Turn : Type 0 where
  pub env : Env
  pub ended : ℕ

-- The loop of `run_due_sources`: how many turns are left, the number of the turn, and the result.
abbrev pub counted_turn : (ℕ → Io ℕ) → ℕ → Bool → Io ℕ
counted_turn go count true = go (suc count)
counted_turn go count false = pure count

unfoldable pub due_turns : (ℕ → Turn) → ℕ → ℕ → Io ℕ
due_turns turn zero count = pure count
due_turns turn (suc left) count = do
  is_done ← sync_source_once (turn count).env (turn count).ended none
  counted_turn (due_turns turn left) count is_done

-- a publish that is due, when no source was
abbrev pub retry_if_idle : Env → ℕ → Io ℕ
retry_if_idle env zero = retry_pending_publish env.host env.os env.gpg env.cfg env.now >> pure zero
retry_if_idle env (suc n) = pure (suc n)

-- `run_due_sources`
unfoldable pub run_due_sources : (ℕ → Turn) → ℕ → Io ℕ
run_due_sources turn max_sources = do
  count ← due_turns turn max_sources zero
  retry_if_idle (turn count).env count
