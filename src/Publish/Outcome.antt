-- ===== src/Publish/Outcome.antt =====
-- publish.py: what a run of `publish_unlocked` leaves, for every way to fail.
use prv_apt_mirror.Prelude.{
  ℕ, ◌≡◌, refl, ◌⊎◌, inl, inr, true, false, List, ◌∷◌, ◌∙◌, Option, none, some, arith, ==_refl,
  length, next_id, ap,
}
use prv_apt_mirror.Exec.{Result, ok, err, Error, continue, caught}
use prv_apt_mirror.Host.{Host}
use prv_apt_mirror.Config.{Config}
use prv_apt_mirror.Db.Packages.{PackageRow, active, with_state}
use prv_apt_mirror.Db.Runs.{PublishRun, success, failed, last_publish_status, update_run}
use prv_apt_mirror.Db.Keys.{publish_dirty, gpg_fingerprint, is_set}
use prv_apt_mirror.Files.Tree.{Dists}
use prv_apt_mirror.Indexer.{rebuild_dists}
use prv_apt_mirror.ByHash.{prepare_by_hash}
use prv_apt_mirror.World.{World, Faults}
use prv_apt_mirror.Publish.{
  Signer, PublishResult, quarantine_missing, build, swap_in, complete, record_success, attempt,
  start_run, give_up, publish_unlocked, present_rows,
}

files-quarantine_missing : (w : World) → (quarantine_missing w).files ≡ w.files
unfolding quarantine_missing
files-quarantine_missing w = refl

runs-quarantine_missing : (w : World) → (quarantine_missing w).publish_runs ≡ w.publish_runs
unfolding quarantine_missing
runs-quarantine_missing w = refl

fingerprint-quarantine_missing :
    (w : World) → (quarantine_missing w).settings gpg_fingerprint ≡ w.settings gpg_fingerprint
unfolding quarantine_missing
fingerprint-quarantine_missing w = ground arith

-- What the swap leaves behind when it returns or raises.
abbrev Swapped : Dists → World → Result (Unit {0}) × World → Type 0
Swapped staged w (ok _, w') = (w'.live ≡ some staged) × (w'.next ≡ none)
Swapped staged w (err _, w') = (w'.live ≡ w.live) ⊎ (w'.live ≡ some staged)

swap_in-Swapped :
    (os : Faults) (staged : Dists) (w : World) → Swapped staged w (swap_in os staged w)
unfolding swap_in
swap_in-Swapped os staged w = ground arith

swap_in-runs :
    (os : Faults) (staged : Dists) (w : World)
    → (swap_in os staged w).1.publish_runs ≡ w.publish_runs
unfolding swap_in
swap_in-runs os staged w = ground arith

-- The rows that a run publishes: active, and with their file in the pool.
abbrev pub published_rows : World → List PackageRow
published_rows w = present_rows w.files (with_state active (quarantine_missing w).packages)

-- The tree `d` lists those rows for the configuration, and is signed with the key of the settings.
pub record IsComplete (cfg : Config) (w : World) (d : Dists) : Type 0 where
  pub rows : d.by_arch ≡ (rebuild_dists (published_rows w) cfg d.inode).1.by_arch
  pub suite : d.suite ≡ cfg.suite
  pub component : d.component ≡ cfg.component
  pub signature : d.signed_by ≡ w.settings gpg_fingerprint

pub record Unhashed (s d : Dists) : Type 0 where
  pub by_arch : d.by_arch ≡ s.by_arch
  pub suite : d.suite ≡ s.suite
  pub component : d.component ≡ s.component
  pub inode : d.inode ≡ s.inode

prepare_by_hash-Unhashed :
    (h : Host) (s : Dists) (live : Option Dists) (now : ℕ) (d : Dists)
    → prepare_by_hash h s live now ≡ ok d
    → Unhashed s d
unfolding prepare_by_hash
prepare_by_hash-Unhashed h s live now d e = ground arith

prepare_cases :
    (h : Host) (s : Dists) (live : Option Dists) (now : ℕ)
    → ((e : Error) × (prepare_by_hash h s live now ≡ err e))
      ⊎ ((d : Dists) × (prepare_by_hash h s live now ≡ ok d) × Unhashed s d)
prepare_cases h s live now = go (prepare_by_hash h s live now) refl
  where
    go :
        (r : Result Dists)
        → prepare_by_hash h s live now ≡ r
        → ((e : Error) × (prepare_by_hash h s live now ≡ err e))
          ⊎ ((d : Dists) × (prepare_by_hash h s live now ≡ ok d) × Unhashed s d)
    go (ok d) e = inr (d, e, prepare_by_hash-Unhashed h s live now d e)
    go (err x) e = inl (x, e)

rebuild_dists-cfg :
    (rows : List PackageRow) (cfg : Config) (i : ℕ)
    → ((rebuild_dists rows cfg i).1.suite ≡ cfg.suite)
      × ((rebuild_dists rows cfg i).1.component ≡ cfg.component)
      × ((rebuild_dists rows cfg i).1.inode ≡ i)
unfolding rebuild_dists
rebuild_dists-cfg rows cfg i = (refl, refl, refl)

abbrev Parts : Type 0
Parts = List PackageRow × List PackageRow × Dists

abbrev Built : Config → World → Result Parts → Type 0
Built cfg w (ok (rows, skipped, d)) = (rows ≡ published_rows w) × IsComplete cfg w d
Built cfg w (err e) = Unit

module _ (h : Host) (os : Faults) (gpg : Signer) (cfg : Config) (now : ℕ) (w : World) where
  build-runs : (build h os gpg cfg now w).1.publish_runs ≡ w.publish_runs
  unfolding build
  build-runs = ground (arith, runs-quarantine_missing w)

  build-live : (build h os gpg cfg now w).1.live ≡ w.live
  unfolding build
  build-live = ground (arith, files-quarantine_missing w)

  build-Built : Built cfg w (build h os gpg cfg now w).0
  unfolding build
  build-Built = ground (
    arith,
    files-quarantine_missing w,
    fingerprint-quarantine_missing w,
    prepare_cases h (rebuild_dists (published_rows w) cfg (quarantine_missing w).fresh_inode).1
        (quarantine_missing w).live now,
    rebuild_dists-cfg (published_rows w) cfg (quarantine_missing w).fresh_inode,
  )

-- What stands under `dists` after a run: the tree of before, or a complete new one.
abbrev pub OldOrComplete : Config → World → World → Type 0
OldOrComplete cfg w w' =
    (w'.live ≡ w.live) ⊎ ((d : Dists) × (w'.live ≡ some d) × IsComplete cfg w d)

-- A run that succeeded.
pub record Succeeded (cfg : Config) (w w' : World) (res : PublishResult) : Type 0 where
  pub is_ok : res.is_ok ≡ true
  pub count : res.package_count ≡ length (published_rows w)
  pub status : last_publish_status w'.publish_runs ≡ some success
  pub clean : is_set w'.settings publish_dirty ≡ false
  pub tree : (d : Dists) × (w'.live ≡ some d) × IsComplete cfg w d
  pub next : w'.next ≡ none

-- A run that failed.
pub record Failed (cfg : Config) (w w' : World) (res : PublishResult) : Type 0 where
  pub is_ok : res.is_ok ≡ false
  pub status : last_publish_status w'.publish_runs ≡ some failed
  pub dirty : is_set w'.settings publish_dirty ≡ true
  pub tree : OldOrComplete cfg w w'

abbrev Attempted : Config → World → ℕ → Result PublishResult × World → Type 0
Attempted cfg w i (ok res, w') =
    (res.is_ok ≡ true)
    × (res.package_count ≡ length (published_rows w))
    × (is_set w'.settings publish_dirty ≡ false)
    × ((d : Dists) × (w'.live ≡ some d) × IsComplete cfg w d)
    × (w'.next ≡ none)
    × (last_publish_status w'.publish_runs ≡ some success)
Attempted cfg w i (err e, w') = (w'.publish_runs ≡ w.publish_runs) × OldOrComplete cfg w w'

-- The run that `publish_unlocked` has begun is the last one.
abbrev HeadIs : ℕ → World → Type 0
HeadIs i w = (r : PublishRun) × (rs : List PublishRun) × (w.publish_runs ≡ r ∷ rs) × (r.id ≡ i)

last-update_run :
    (i : ℕ) (f : PublishRun → PublishRun) (w : World)
    → HeadIs i w
    → (r : PublishRun) × (last_publish_status (update_run i f w.publish_runs) ≡ some (f r).status)
unfolding update_run
last-update_run i f w (r, rs, e, same) = (r, rw (e, same, ==_refl))

module _ (os : Faults) (cfg : Config) (now i : ℕ) (w : World) where
  complete-Attempted :
      (rows skipped : List PackageRow) (d : Dists) (w' : World)
      → HeadIs i w'
      → w'.publish_runs ≡ w.publish_runs
      → w'.live ≡ w.live
      → rows ≡ published_rows w
      → IsComplete cfg w d
      → Attempted cfg w i (complete os now i (rows, skipped, d) w')
  unfolding complete
  complete-Attempted rows skipped d w' (r, rs, e, same) runs live listed c =
      go (swap_in os d w') (swap_in-Swapped os d w') (swap_in-runs os d w')
    where
      go :
          (s : Result (Unit {0}) × World)
          → Swapped d w' s
          → s.1.publish_runs ≡ w'.publish_runs
          → Attempted cfg w i (continue s.0 (λ _. record_success now i rows skipped) s.1)
      go (ok x, v) (put, gone) same_runs = (
        refl,
        ap length listed,
        refl,
        (d, put, c),
        gone,
        (last-update_run i _ v (r, rs, same_runs ∙ e, same)).1,
      )
      go (err x, v) old same_runs = (same_runs ∙ runs, ground arith)

module _ (h : Host) (os : Faults) (gpg : Signer) (cfg : Config) (now i : ℕ) (w : World) where
  attempt-Attempted : HeadIs i w → Attempted cfg w i (attempt h os gpg cfg now i w)
  unfolding attempt
  attempt-Attempted (r, rs, e, same) =
      go (build h os gpg cfg now w) (build-runs h os gpg cfg now w) (build-live h os gpg cfg now w)
        (build-Built h os gpg cfg now w)
    where
      go :
          (b : Result Parts × World)
          → b.1.publish_runs ≡ w.publish_runs
          → b.1.live ≡ w.live
          → Built cfg w b.0
          → Attempted cfg w i (continue b.0 (complete os now i) b.1)
      go (ok (rows, skipped, d), w') runs live (listed, c) =
          complete-Attempted os cfg now i w rows skipped d w' (r, rs, runs ∙ e, same) runs live
            listed c
      go (err x, w') runs live b = (runs, inl live)

abbrev started : ℕ → World → World
started now w = record w { db = start_run now w.db }

published_rows-started : (now : ℕ) (w : World) → published_rows (started now w) ≡ published_rows w
unfolding quarantine_missing
published_rows-started now w = refl

-- From the state in which the run begins to the one before it.
IsComplete-started :
    (now : ℕ) (cfg : Config) (w : World) (d : Dists)
    → IsComplete cfg (started now w) d
    → IsComplete cfg w d
IsComplete-started now cfg w d c = record {
  rows = rw (← published_rows-started now w) c.rows;
  suite = c.suite;
  component = c.component;
  signature = c.signature;
}

abbrev pub Outcome : Config → World → Result PublishResult × World → Type 0
Outcome cfg w (r, w') =
    (res : PublishResult) × (r ≡ ok res) × (Succeeded cfg w w' res ⊎ Failed cfg w w' res)

module _ (h : Host) (os : Faults) (gpg : Signer) (cfg : Config) (now : ℕ) (w : World) where
  -- Whatever call fails, a run of a publish returns a result. A run that succeeds leaves a
  -- complete and signed tree of the published rows under `dists`, no `dists.next`, the status
  -- "success" and a clean flag. A run that fails leaves the status "failed", the dirty flag, and
  -- under `dists` the tree of before or a complete and signed new one.
  pub publish_unlocked-Outcome : Outcome cfg w (publish_unlocked h os gpg cfg now w)
  unfolding publish_unlocked give_up
  publish_unlocked-Outcome = go (attempt h os gpg cfg now i (started now w)) tried
    where
      i : ℕ
      i = next_id (λ r. r.id) w.publish_runs

      tried : Attempted cfg (started now w) i (attempt h os gpg cfg now i (started now w))
      tried = attempt-Attempted h os gpg cfg now i (started now w) (_, w.publish_runs, refl, refl)

      tree_before : (w' : World) → OldOrComplete cfg (started now w) w' → OldOrComplete cfg w w'
      tree_before w' (inl e) = inl e
      tree_before w' (inr (d, e, c)) = inr (d, e, IsComplete-started now cfg w d c)

      go :
          (a : Result PublishResult × World)
          → Attempted cfg (started now w) i a
          → Outcome cfg w (caught a.0 (give_up now i) a.1)
      go (ok res, v) (is_ok, count, clean, (d, put, c), gone, status) = (
        res,
        refl,
        inl (record {
          is_ok = is_ok;
          count = count ∙ ap length (published_rows-started now w);
          status = status;
          clean = clean;
          tree = (d, put, IsComplete-started now cfg w d c);
          next = gone;
        }),
      )
      go (err e, v) (runs, old) = (
        _,
        refl,
        inr (record {
          is_ok = refl;
          status = (last-update_run i _ v (_, w.publish_runs, runs, refl)).1;
          dirty = refl;
          tree = tree_before v old;
        }),
      )
