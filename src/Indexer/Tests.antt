-- ===== src/Indexer/Tests.antt =====
-- The selection of rows at a concrete repository.
use prv_apt_mirror.Prelude.{◌≡◌, refl, codes, some, [], ◌∷◌, lookup, filter}
use prv_apt_mirror.Samples.{sample_config, foo_row}
use prv_apt_mirror.Indexer.{rebuild_dists}
use prv_apt_mirror.Indexer.Select.{is_listed, rebuild_dists-lists}

rebuild_dists-lists_example :
    lookup (codes "amd64") (rebuild_dists (foo_row ∷ []) sample_config 1).1.by_arch
    ≡ some (filter (is_listed (codes "amd64")) (foo_row ∷ []))
rebuild_dists-lists_example =
    rebuild_dists-lists (foo_row ∷ []) sample_config 1 (codes "amd64") (refl, (refl, tt)) refl
