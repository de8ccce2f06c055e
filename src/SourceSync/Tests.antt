-- ===== src/SourceSync/Tests.antt =====
-- Sources, their claims and a download, at concrete values.
use prv_apt_mirror.Db.Sources.{get_source}
use prv_apt_mirror.Prelude.{
  ◌+◌, ◌*◌, ◌≤◌, ◌≡◌, refl, max_id, codes, none, some, [], ◌∷◌, All, arith, Text, Dict,
}
use prv_apt_mirror.Db.{Db}
use prv_apt_mirror.Db.Sources.{running}
use prv_apt_mirror.Samples.{plain_host, no_rows, no_faults, sample_config, one_upload}
use prv_apt_mirror.Samples.Site.{idle_source, small_net, sample_env, sample_turn}
use prv_apt_mirror.SourceSync.{
  first_due, claim_source, recover_interrupted_source_runs, retry_seconds, no_stats,
}
use prv_apt_mirror.SourceSync.Claims.{
  FirstOf, row_of, IsIdle, Rescheduled, claim_source-FirstOf, claim_source_excludes, recover-IsIdle,
  finish_source-reschedules,
}
use prv_apt_mirror.SourceSync.Schedule.{retry_seconds_backoff}
use prv_apt_mirror.SourceSync.Download.{download}
use prv_apt_mirror.SourceSync.Download.Limits.{Downloaded, download-Downloaded}
use prv_apt_mirror.SourceSync.Import.{RemoteAsset, begin_artifact}
use prv_apt_mirror.SourceSync.Import.Artifacts.{Begun, begin_artifact-Begun}
use prv_apt_mirror.Config.{max_upload_bytes}
use prv_apt_mirror.World.{World}
use prv_apt_mirror.Sources.Table.{create_source}
use prv_apt_mirror.Sources.Table.Names.{AreNamed}
use prv_apt_mirror.SourceSync.Execute.{sync_source_once, due_turns}
use prv_apt_mirror.SourceSync.Execute.Frees.{
  Freed, Drained, sync_source_once-Freed, due_turns-Drained,
}
use prv_apt_mirror.SourceSync.Phases.{phase_at, Run}
use prv_apt_mirror.SourceSync.Phases.Refines.{actions_of, Steps-Run}
use prv_apt_mirror.SourceSync.Life.{
  Steps, with_sources, creates, claims, done, next, Steps-AreNamed,
}

abbrev with_source : Db
with_source = record no_rows { package_sources = idle_source ∷ [] }

abbrev while_running : Db
while_running = record no_rows {
  package_sources = record idle_source { last_status = running } ∷ [];
}

retry_seconds_backoff_example :
    (60 ≤ retry_seconds 60 3)
    × (retry_seconds 60 3 ≤ 60 * 60)
    × (retry_seconds 60 3 ≤ retry_seconds 60 (3 + 1))
    × (retry_seconds 60 (3 + 1) ≤ 2 * retry_seconds 60 3)
retry_seconds_backoff_example = retry_seconds_backoff 60 3 (omega arith) (omega arith)

claim_source-FirstOf_example :
    FirstOf 9 with_source.package_sources (row_of (claim_source 9 none with_source).0)
claim_source-FirstOf_example = claim_source-FirstOf 9 with_source

claim_source_excludes_example :
    (claim_source 10 (some 1) (claim_source 9 none with_source).1).0 ≡ none
unfolding claim_source first_due max_id
claim_source_excludes_example = claim_source_excludes 9 10 none with_source idle_source 1 refl

recover-IsIdle_example :
    All (λ r. IsIdle r.status) (recover_interrupted_source_runs 9 while_running).source_runs
    × All
        (λ s. IsIdle s.last_status)
        (recover_interrupted_source_runs 9 while_running).package_sources
recover-IsIdle_example = recover-IsIdle 9 while_running

finish_source-reschedules_example :
    Rescheduled 9 1 20 no_stats
      (some (codes "e"))
      while_running
      1
      (record idle_source { last_status = running })
unfolding get_source
finish_source-reschedules_example =
    finish_source-reschedules 9 1 20 no_stats (some (codes "e")) while_running 1
      (record idle_source { last_status = running }) refl

download-Downloaded_example :
    Downloaded
      (max_upload_bytes sample_config)
      (download small_net no_faults sample_config (codes "u") none none one_upload)
download-Downloaded_example =
    download-Downloaded small_net no_faults sample_config (codes "u") none none one_upload

abbrev asset : RemoteAsset
asset = record {
  external_id = codes "7";
  filename = codes "a.deb";
  url = codes "https://example.org/a.deb";
  size = none;
}

begin_artifact-Begun_example : Begun idle_source asset [] (begin_artifact 9 idle_source asset [])
begin_artifact-Begun_example = begin_artifact-Begun 9 idle_source asset []

abbrev while_due : World
while_due = record one_upload { db = with_source }

sync_source_once-Freed_example :
    Freed while_due (some idle_source) (sync_source_once sample_env 9 none while_due)
unfolding first_due
sync_source_once-Freed_example = sync_source_once-Freed sample_env 9 none while_due

due_turns-Drained_example : Drained sample_turn 10 0 (due_turns sample_turn 10 0 while_due)
due_turns-Drained_example = due_turns-Drained sample_turn 10 0 while_due

abbrev source_form : Dict Text
source_form =
    (codes "name", codes "Tools")
    ∷ (codes "kind", codes "direct_url")
    ∷ (codes "location", codes "http://localhost/")
    ∷ []

abbrev after_create : Db
after_create =
    with_sources
      (create_source plain_host sample_config 3 source_form [] with_source.package_sources).1
      with_source

abbrev after_claim : Db
after_claim = (claim_source 5 none after_create).1

Steps-AreNamed_example : AreNamed after_claim.package_sources
unfolding max_id
Steps-AreNamed_example =
    Steps-AreNamed plain_host sample_config with_source after_claim
      (next with_source after_create after_claim (creates 3 source_form [] with_source)
        (next after_create after_claim after_claim (claims 5 none after_create) (done after_claim)))
      (tt, tt)

abbrev one_run : Steps plain_host sample_config with_source after_claim
one_run =
    next with_source after_create after_claim (creates 3 source_form [] with_source)
      (next after_create after_claim after_claim (claims 5 none after_create) (done after_claim))

Steps-Run_example :
    Run
      (actions_of plain_host sample_config with_source after_claim one_run)
      (phase_at with_source.package_sources)
      (phase_at after_claim.package_sources)
Steps-Run_example = Steps-Run plain_host sample_config with_source after_claim one_run (tt, tt)
