-- ===== src/Publish/Kept.antt =====
-- publish.py: a run of a publish leaves the settings of the web page alone.
use prv_apt_mirror.Prelude.{ℕ, ◌≡◌, ◌∙◌, List, arith, next_id}
use prv_apt_mirror.Exec.{Result, ok, err, continue, caught}
use prv_apt_mirror.Host.{Host}
use prv_apt_mirror.Config.{Config}
use prv_apt_mirror.Db.Packages.{PackageRow}
use prv_apt_mirror.Db.Keys.{AppSetting, app}
use prv_apt_mirror.Files.Tree.{Dists}
use prv_apt_mirror.World.{World, Faults}
use prv_apt_mirror.Publish.{
  Signer, PublishResult, quarantine_missing, build, swap_in, complete, record_success, attempt,
  start_run, give_up, publish_unlocked,
}

-- The setting of the page is as before.
abbrev pub KeptAt : AppSetting → World → World → Type 0
KeptAt name w w' = w'.settings (app name) ≡ w.settings (app name)

module _ (name : AppSetting) where
  quarantine_missing-KeptAt : (w : World) → KeptAt name w (quarantine_missing w)
  unfolding quarantine_missing
  quarantine_missing-KeptAt w = ground arith

  build-KeptAt :
      (h : Host) (os : Faults) (gpg : Signer) (cfg : Config) (now : ℕ) (w : World)
      → KeptAt name w (build h os gpg cfg now w).1
  unfolding build
  build-KeptAt h os gpg cfg now w = ground (arith, quarantine_missing-KeptAt w)

  swap_in-KeptAt : (os : Faults) (d : Dists) (w : World) → KeptAt name w (swap_in os d w).1
  unfolding swap_in
  swap_in-KeptAt os d w = ground arith

  module _ (os : Faults) (now i : ℕ) (rows skipped : List PackageRow) (d : Dists) (w : World) where
    complete-KeptAt : KeptAt name w (complete os now i (rows, skipped, d) w).1
    unfolding complete
    complete-KeptAt = go (swap_in os d w) (swap_in-KeptAt os d w)
      where
        go :
            (s : Result (Unit {0}) × World)
            → KeptAt name w s.1
            → KeptAt name w (continue s.0 (λ _. record_success now i rows skipped) s.1).1
        go (ok x, v) k = k
        go (err x, v) k = k

  module _ (h : Host) (os : Faults) (gpg : Signer) (cfg : Config) (now : ℕ) where
    attempt-KeptAt : (i : ℕ) (w : World) → KeptAt name w (attempt h os gpg cfg now i w).1
    unfolding attempt
    attempt-KeptAt i w = go (build h os gpg cfg now w) (build-KeptAt h os gpg cfg now w)
      where
        go :
            (b : Result (List PackageRow × List PackageRow × Dists) × World)
            → KeptAt name w b.1
            → KeptAt name w (continue b.0 (complete os now i) b.1).1
        go (ok (rows, skipped, d), v) k = complete-KeptAt os now i rows skipped d v ∙ k
        go (err x, v) k = k

    pub publish_unlocked-KeptAt :
        (w : World) → KeptAt name w (publish_unlocked h os gpg cfg now w).1
    unfolding publish_unlocked give_up
    publish_unlocked-KeptAt w = go (attempt h os gpg cfg now i v) (attempt-KeptAt i v)
      where
        i : ℕ
        i = next_id (λ r. r.id) w.publish_runs

        v : World
        v = record w { db = start_run now w.db }

        go :
            (a : Result PublishResult × World)
            → KeptAt name w a.1
            → KeptAt name w (caught a.0 (give_up now i) a.1).1
        go (ok res, u) k = k
        go (err e, u) k = k
