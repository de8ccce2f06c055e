-- ===== src/ByHash/Tests.antt =====
-- by-hash directories at a concrete repository.
use prv_apt_mirror.ByHash.{keep_current}
use prv_apt_mirror.Prelude.{lookup}
use prv_apt_mirror.Prelude.{insert}
use prv_apt_mirror.ByHash.{indexes}
use prv_apt_mirror.ByHash.{keep_all}
use prv_apt_mirror.Prelude.{refl, none, [], ◌∷◌}
use prv_apt_mirror.Exec.{Result, ok, err}
use prv_apt_mirror.Files.Tree.{Dists}
use prv_apt_mirror.Samples.{plain_host, sample_config, foo_row}
use prv_apt_mirror.Indexer.{rebuild_dists}
use prv_apt_mirror.ByHash.{prepare_by_hash}
use prv_apt_mirror.ByHash.Retention.{IsServed, prepare_by_hash-IsServed}

abbrev staged : Dists
staged = (rebuild_dists (foo_row ∷ []) sample_config 1).1

abbrev result_or : Dists → Result Dists → Dists
result_or d (ok r) = r
result_or d (err e) = d

abbrev hashed : Dists
hashed = result_or staged (prepare_by_hash plain_host staged none 5)

prepare_by_hash-IsServed_example : IsServed plain_host staged none 5 hashed
unfolding prepare_by_hash keep_all indexes rebuild_dists insert lookup keep_current
prepare_by_hash-IsServed_example = prepare_by_hash-IsServed plain_host staged none 5 hashed refl
