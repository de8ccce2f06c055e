-- ===== src/Publish/Deletes.antt =====
-- publish.py: what `delete_commit` does with the package's row and its file.
use prv_apt_mirror.Prelude.{
  ℕ, ◌≡◌, refl, ap, subst, sym, Text, ◌⊎◌, inl, inr, Bool, true, false, List, [], ◌∷◌, Option, none,
  some, arith, remove, All, ◌==◌, ◌∙◌, if◌then◌else◌, next_id,
}
use prv_apt_mirror.Exec.{Result, ok, err, continue, caught}
use prv_apt_mirror.Host.{Host}
use prv_apt_mirror.Config.{Config}
use prv_apt_mirror.Db.Packages.{
  PackageRow, active, pending_delete, missing, state_eq, with_state, set_state, get_package,
  update_package,
}
use prv_apt_mirror.Db.Keys.{publish_dirty, set_setting, one_text}
use prv_apt_mirror.Files.{Files}
use prv_apt_mirror.Files.Tree.{Dists}
use prv_apt_mirror.Indexer.{rebuild_dists}
use prv_apt_mirror.World.{World, Faults, unlink_blob}
use prv_apt_mirror.Publish.{
  Signer, PublishResult, publish_unlocked, quarantine_missing, mark_missing, has_blob, present_rows,
  build, swap_in, complete, attempt, give_up, start_run,
}
use prv_apt_mirror.Publish.Commits.{
  delete_commit, delete_found, delete_row, after_publish, unlinked, unlink,
}
use prv_apt_mirror.Publish.Outcome.{published_rows, Outcome, Succeeded, publish_unlocked-Outcome}

-- No row with the id is active.
abbrev Inactive : ℕ → List PackageRow → Type 0
Inactive i = All (λ r. (r.id == i) ≡ true → state_eq r.state active ≡ false)

set_state-Inactive : (i : ℕ) (rows : List PackageRow) → Inactive i (set_state pending_delete i rows)
unfolding update_package
set_state-Inactive i [] = tt
set_state-Inactive i (r ∷ rows) = (ground arith, set_state-Inactive i rows)

set_missing-Inactive :
    (i j : ℕ) (rows : List PackageRow) → Inactive i rows → Inactive i (set_state missing j rows)
unfolding update_package
set_missing-Inactive i j [] h = tt
set_missing-Inactive i j (r ∷ rows) h = (ground (arith, h.0), set_missing-Inactive i j rows h.1)

mark_missing-Inactive :
    (i : ℕ) (fs : Files) (gone rows : List PackageRow)
    → Inactive i rows
    → Inactive i (mark_missing fs gone rows).0
unfolding mark_missing
mark_missing-Inactive i fs [] rows h = h
mark_missing-Inactive i fs (r ∷ gone) rows h =
    mark_missing-Inactive i fs gone (if has_blob fs r then rows else set_state missing r.id rows)
      (if_Inactive (has_blob fs r))
  where
    if_Inactive : (b : Bool) → Inactive i (if b then rows else set_state missing r.id rows)
    if_Inactive true = h
    if_Inactive false = set_missing-Inactive i r.id rows h

quarantine_missing-Inactive :
    (i : ℕ) (w : World) → Inactive i w.packages → Inactive i (quarantine_missing w).packages
unfolding quarantine_missing
quarantine_missing-Inactive i w h =
    mark_missing-Inactive i w.files (with_state active w.packages) w.packages h

present_rows-without :
    (i : ℕ) (fs : Files) (rows : List PackageRow)
    → Inactive i rows
    → All (λ r. (r.id == i) ≡ false) (present_rows fs (with_state active rows))
present_rows-without i fs [] h = tt
present_rows-without i fs (r ∷ rows) h = ground (arith, h.0, present_rows-without i fs rows h.1)

published_rows-without :
    (i : ℕ) (w : World) → Inactive i w.packages → All (λ r. (r.id == i) ≡ false) (published_rows w)
published_rows-without i w h =
    present_rows-without i w.files (quarantine_missing w).packages
      (quarantine_missing-Inactive i w h)

-- A run of a publish leaves the packages' files alone.
repo-quarantine_missing : (w : World) → (quarantine_missing w).repo ≡ w.repo
unfolding quarantine_missing
repo-quarantine_missing w = refl

repo-swap_in : (os : Faults) (d : Dists) (w : World) → (swap_in os d w).1.repo ≡ w.repo
unfolding swap_in
repo-swap_in os d w = ground arith

module _ (h : Host) (os : Faults) (gpg : Signer) (cfg : Config) (now : ℕ) where
  repo-build : (w : World) → (build h os gpg cfg now w).1.repo ≡ w.repo
  unfolding build
  repo-build w = ground (arith, repo-quarantine_missing w)

  repo-complete :
      (i : ℕ) (parts : List PackageRow × List PackageRow × Dists) (w : World)
      → (complete os now i parts w).1.repo ≡ w.repo
  unfolding complete
  repo-complete i (rows, skipped, d) w = ground (arith, repo-swap_in os d w)

  repo-attempt : (i : ℕ) (w : World) → (attempt h os gpg cfg now i w).1.repo ≡ w.repo
  unfolding attempt
  repo-attempt i w = go (build h os gpg cfg now w) (repo-build w)
    where
      go :
          (b : Result (List PackageRow × List PackageRow × Dists) × World)
          → b.1.repo ≡ w.repo
          → (continue b.0 (complete os now i) b.1).1.repo ≡ w.repo
      go (ok parts, v) same = repo-complete i parts v ∙ same
      go (err e, v) same = same

  repo-publish_unlocked : (w : World) → (publish_unlocked h os gpg cfg now w).1.repo ≡ w.repo
  unfolding publish_unlocked give_up
  repo-publish_unlocked w = go (attempt h os gpg cfg now i started) (repo-attempt i started)
    where
      i : ℕ
      i = next_id (λ r. r.id) w.publish_runs

      started : World
      started = record w { db = start_run now w.db }

      go :
          (a : Result PublishResult × World)
          → a.1.repo ≡ w.repo
          → (caught a.0 (give_up now i) a.1).1.repo ≡ w.repo
      go (ok res, v) same = same
      go (err e, v) same = same

-- The tree under `dists` lists rows for the configuration, none of them with the id.
pub record IsUnlisted (cfg : Config) (i : ℕ) (found : Option Dists) : Type 0 where
  pub tree : Dists
  pub rows : List PackageRow
  pub live : found ≡ some tree
  pub lists : tree.by_arch ≡ (rebuild_dists rows cfg tree.inode).1.by_arch
  pub without : All (λ r. (r.id == i) ≡ false) rows

-- How a deletion ends: published and unlinked, published with the file still there, or kept.
abbrev pub Deleted : Config → PackageRow → World → Result PublishResult × World → Type 0
Deleted cfg row w (err e, w') = (w'.repo ≡ w.repo) × IsUnlisted cfg row.id w'.live
Deleted cfg row w (ok res, w') =
    ((res.is_ok ≡ false) × (w'.repo ≡ w.repo))
    ⊎ ((res.is_ok ≡ true) × (w'.repo ≡ remove row.filename w.repo) × IsUnlisted cfg row.id w'.live)

-- the state in which a deletion publishes
abbrev marked : PackageRow → World → World
marked row w = record w {
  db = record w.db {
    packages = set_state pending_delete row.id w.packages;
    settings = set_setting publish_dirty one_text w.settings;
  };
}

module _ (h : Host) (os : Faults) (gpg : Signer) (cfg : Config) (now : ℕ) (row : PackageRow)
    (w : World) where
  unlisted :
      (res : PublishResult) (v : World)
      → Succeeded cfg (marked row w) v res
      → IsUnlisted cfg row.id v.live
  unlisted res v s =
      let (d, live, c) = s.tree in
      record {
        tree = d;
        rows = published_rows (marked row w);
        live = live;
        lists = c.rows;
        without =
            published_rows-without row.id (marked row w) (set_state-Inactive row.id w.packages);
      }

  after_failure :
      (res : PublishResult) (v : World)
      → v.repo ≡ w.repo
      → res.is_ok ≡ false
      → Deleted cfg row w (after_publish os row res v)
  after_failure res v same bad = rw bad (inl (refl, same))

  after_success :
      (res : PublishResult) (v : World)
      → v.repo ≡ w.repo
      → res.is_ok ≡ true
      → IsUnlisted cfg row.id v.live
      → Deleted cfg row w (after_publish os row res v)
  unfolding unlink
  after_success res v same good u =
      rw good (go (record res { is_ok = true }) refl (os (unlink_blob row.filename)))
    where
      go :
          (answer : PublishResult)
          → answer.is_ok ≡ true
          → (o : Option Text) → Deleted cfg row w (unlinked o row answer v)
      go answer fine none = inr (fine, ap (remove row.filename) same, u)
      go answer fine (some m) = (same, u)

  delete_row-Deleted : Deleted cfg row w (delete_row h os gpg cfg now row w)
  unfolding delete_row unlink
  delete_row-Deleted =
      go (publish_unlocked h os gpg cfg now (marked row w))
        (repo-publish_unlocked h os gpg cfg now (marked row w))
        (publish_unlocked-Outcome h os gpg cfg now (marked row w))
    where
      go :
          (a : Result PublishResult × World)
          → a.1.repo ≡ w.repo
          → Outcome cfg (marked row w) a
          → Deleted cfg row w (continue a.0 (after_publish os row) a.1)
      go (r, v) same (res, e, inr f) = rw e (after_failure res v same f.is_ok)
      go (r, v) same (res, e, inl s) = rw e (after_success res v same s.is_ok (unlisted res v s))

-- A deletion of a package that the database has ends in one of three ways. The publish fails,
-- and the packages' files are as before; or it succeeds, the tree under `dists` lists rows none
-- of which has the id of the package, and its file is removed; or the tree is such a one, the
-- unlink of the file raises, and the files are as before. So no file is removed while the tree
-- still lists its package.
pub delete_commit-Deleted :
    (h : Host) (os : Faults) (gpg : Signer) (cfg : Config) (now i : ℕ) (row : PackageRow)
    (w : World)
    → get_package w.packages i ≡ some row
    → Deleted cfg row w (delete_commit h os gpg cfg now i w)
unfolding delete_commit
delete_commit-Deleted h os gpg cfg now i row w e =
    subst (λ o. Deleted cfg row w (delete_found h os gpg cfg now o w)) (sym e)
      (delete_row-Deleted h os gpg cfg now row w)
