-- ===== src/Maintenance/Tests.antt =====
-- The check of a backup at a concrete repository.
use prv_apt_mirror.Prelude.{All}
use prv_apt_mirror.Samples.{plain_host, no_faults, one_package}
use prv_apt_mirror.Maintenance.{check_package_files}
use prv_apt_mirror.Maintenance.Files.{IsBacked, Judged, check_package_files-Judged}

check_package_files-Judged_example :
    Judged no_faults
      (All (IsBacked plain_host one_package) one_package.packages)
      one_package
      (check_package_files plain_host no_faults one_package)
check_package_files-Judged_example = check_package_files-Judged plain_host no_faults one_package
