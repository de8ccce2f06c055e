-- ===== src/Publish/Tests.antt =====
-- Runs of publish.py, and its theorems at a concrete repository.

use prv_apt_mirror.Db.Packages.{get_package}
use prv_apt_mirror.Prelude.{refl}
use prv_apt_mirror.Samples.{plain_host, no_faults, signer, sample_config, one_package, foo_row}
use prv_apt_mirror.Publish.Commits.{delete_commit}
use prv_apt_mirror.Publish.Deletes.{Deleted, delete_commit-Deleted}
use prv_apt_mirror.Publish.{publish_unlocked}
use prv_apt_mirror.Publish.Outcome.{Outcome, publish_unlocked-Outcome}

publish_unlocked-Outcome_example :
    Outcome sample_config one_package
      (publish_unlocked plain_host no_faults signer sample_config 5 one_package)
publish_unlocked-Outcome_example =
    publish_unlocked-Outcome plain_host no_faults signer sample_config 5 one_package

delete_commit-Deleted_example :
    Deleted sample_config foo_row one_package
      (delete_commit plain_host no_faults signer sample_config 5 1 one_package)
unfolding get_package
delete_commit-Deleted_example =
    delete_commit-Deleted plain_host no_faults signer sample_config 5 1 foo_row one_package refl
