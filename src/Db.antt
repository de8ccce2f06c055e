-- ===== src/Db.antt =====
-- db.py and models.py: the tables of data.sqlite, a list of rows to a table, and the queries on
-- them. A new row goes to the end, but for a run of a publish, which goes to the front. A time is
-- the number of seconds since the epoch: the program stores the fixed-width text of it, which
-- SQLite compares in the order of the times.
pub mod Packages
pub mod Runs
pub mod Keys
pub mod Sources
use prv_apt_mirror.Prelude.{ℕ, Bool, not, List, map, filter, any, none, some, ◌==◌, if◌then◌else◌}
use Packages.{PackageRow, delete_package}
use Runs.{PublishRun}
use Keys.{Settings}
use Sources.{SourceRow, SourceRun, Artifact}

pub record Db : Type 0 where
  pub packages : List PackageRow
  pub publish_runs : List PublishRun
  pub settings : Settings
  pub package_sources : List SourceRow
  pub source_runs : List SourceRun
  pub source_artifacts : List Artifact

-- `ON DELETE SET NULL` of `source_artifacts.package_id`
abbrev forget_package : ℕ → Artifact → Artifact
forget_package i a = record a {
  package_id = elim a.package_id [ none ↦ none | some j ↦ if j == i then none else some j ];
}

-- `DELETE FROM packages WHERE id = ?`
unfoldable pub remove_package : ℕ → Db → Db
remove_package i d = record d {
  packages = delete_package i d.packages;
  source_artifacts = map (forget_package i) d.source_artifacts;
}

-- `DELETE FROM package_sources WHERE id = ?`, with `ON DELETE CASCADE`, and whether a row went
unfoldable pub delete_source : ℕ → Db → Db × Bool
delete_source i d = (
  record d {
    package_sources = filter (λ s. not (s.id == i)) d.package_sources;
    source_runs = filter (λ r. not (r.source_id == i)) d.source_runs;
    source_artifacts = filter (λ a. not (a.source_id == i)) d.source_artifacts;
  },
  any (λ s. s.id == i) d.package_sources,
)
