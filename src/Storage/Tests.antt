-- ===== src/Storage/Tests.antt =====
-- Uploads at a concrete repository.
use prv_apt_mirror.Prelude.{codes, none, some, refl, true}
use prv_apt_mirror.Storage.Expired.{Folder, SweptOr, gc_incoming, gc_incoming-SweptOr, max_age_s}
use prv_apt_mirror.Samples.{plain_host, no_faults, sample_config, foo_deb, one_upload}
use prv_apt_mirror.World.{Faults, sync_file}
use prv_apt_mirror.Storage.{exclusive_link_or_revive, pool_relative}
use prv_apt_mirror.Storage.Accepts.{Listed, exclusive_link_or_revive-Listed}
use prv_apt_mirror.Storage.Uploads.{Undone, exclusive_link_or_revive-Undone}

-- The disk fails when the package is written out.
abbrev bad_disk : Faults
bad_disk (sync_file p) = some (codes "EIO")
bad_disk _ = none

exclusive_link_or_revive-Undone_example : Undone one_upload (
    exclusive_link_or_revive plain_host bad_disk sample_config foo_deb
      (codes "up")
      none
      5
      one_upload)
exclusive_link_or_revive-Undone_example =
    exclusive_link_or_revive-Undone plain_host bad_disk sample_config foo_deb none 5
      (record { exists = refl; stat = refl; unlink = refl }) (codes "up") one_upload refl

exclusive_link_or_revive-Listed_example :
    Listed foo_deb (pool_relative foo_deb sample_config.component) (
      exclusive_link_or_revive plain_host no_faults sample_config foo_deb
        (codes "up")
        none
        5
        one_upload)
exclusive_link_or_revive-Listed_example =
    exclusive_link_or_revive-Listed plain_host no_faults sample_config foo_deb (codes "up") none 5
      one_upload

-- Each path changed at the time 5.
abbrev old_folder : Folder
old_folder = record {
  is_dir = true;
  is_dir_error = none;
  iterdir_error = none;
  mtime = λ p. some 5;
  unlink = λ p. none;
}

gc_incoming-SweptOr_example :
    SweptOr old_folder max_age_s 100000 none true none one_upload
      (gc_incoming old_folder max_age_s 100000 one_upload)
gc_incoming-SweptOr_example = gc_incoming-SweptOr old_folder max_age_s 100000 one_upload
