-- ===== src/SourceSync/Life.antt =====
-- sources.py and source_sync.py: what the page and the checks do to the table of sources, as steps.
use prv_apt_mirror.Prelude.{
  ℕ, ◌≡◌, refl, Text, Bool, true, not, List, [], ◌∷◌, map, filter, Option, none, some, arith, All,
  if_elim, ◌==◌, Dict,
}
use prv_apt_mirror.Host.{Host}
use prv_apt_mirror.Config.{Config}
use prv_apt_mirror.Db.{Db, delete_source}
use prv_apt_mirror.Db.Sources.{SourceRow, get_source, update_source_row}
use prv_apt_mirror.Sources.Table.{create_source, update_source}
use prv_apt_mirror.Sources.Table.Names.{
  identity, Identity, is_apart, AreNamed, create_source-AreNamed, update_source-AreNamed,
}
use prv_apt_mirror.SourceSync.{
  SyncStats, recover_interrupted_source_runs, interrupt_source, claim_source, claim_candidate,
  candidate, mark_running, finish_source, finish_found, finish_row, queue_source,
}

abbrev pub with_sources : List SourceRow → Db → Db
with_sources rows d = record d { package_sources = rows }

-- One operation of the page or of a check, with any arguments and at any time.
pub data Step (h : Host) (cfg : Config) : Db → Db → Type 0 where
  creates :
      (now : ℕ) (values : Dict Text) (token : Text) (d : Db)
      → Step h cfg d (with_sources (create_source h cfg now values token d.package_sources).1 d)
  updates :
      (now source_id : ℕ) (values : Dict Text) (token : Text) (clear : Bool) (d : Db)
      → Step h cfg d (
          with_sources (update_source h cfg now source_id values token clear d.package_sources).1 d)
  deletes : (source_id : ℕ) (d : Db) → Step h cfg d (delete_source source_id d).0
  queues :
      (now source_id : ℕ) (d : Db)
      → Step h cfg d (with_sources (queue_source now source_id d.package_sources).0 d)
  claims : (now : ℕ) (source_id : Option ℕ) (d : Db) → Step h cfg d (claim_source now source_id d).1
  finishes :
      (now source_id run_id : ℕ) (stats : SyncStats) (e : Option Text) (d : Db)
      → Step h cfg d (finish_source now source_id run_id stats e d)
  recovers : (now : ℕ) (d : Db) → Step h cfg d (recover_interrupted_source_runs now d)

-- Any number of steps.
pub data Steps (h : Host) (cfg : Config) : Db → Db → Type 0 where
  done : (d : Db) → Steps h cfg d d
  next : (a b c : Db) → Step h cfg a b → Steps h cfg b c → Steps h cfg a c

map-updated :
    (i : ℕ) (f : SourceRow → SourceRow) (rows : List SourceRow)
    → ((s : SourceRow) → identity (f s) ≡ identity s)
    → map identity (update_source_row i f rows) ≡ map identity rows
unfolding update_source_row
map-updated i f [] keeps = refl
map-updated i f (r ∷ rows) keeps =
    let first = keeps r in let rest = map-updated i f rows keeps in ground arith

map-interrupted :
    (now : ℕ) (rows : List SourceRow)
    → map identity (map (interrupt_source now) rows) ≡ map identity rows
map-interrupted now [] = refl
map-interrupted now (r ∷ rows) = ground (arith, map-interrupted now rows)

map-queued :
    (now i : ℕ) (rows : List SourceRow)
    → map identity (queue_source now i rows).0 ≡ map identity rows
unfolding queue_source
map-queued now i [] = refl
map-queued now i (r ∷ rows) = ground (arith, map-queued now i rows)

filter-Apart :
    (k : Identity) (i : ℕ) (rows : List SourceRow)
    → All (λ l. is_apart k l ≡ true) (map identity rows)
    → All (λ l. is_apart k l ≡ true) (map identity (filter (λ s. not (s.id == i)) rows))
filter-Apart k i [] h = tt
filter-Apart k i (r ∷ rows) h =
    if_elim (λ rs. All (λ l. is_apart k l ≡ true) (map identity rs)) (not (r.id == i)) _ _
      (λ _. (h.0, filter-Apart k i rows h.1)) (λ _. filter-Apart k i rows h.1)

filter-AreNamed :
    (i : ℕ) (rows : List SourceRow) → AreNamed rows → AreNamed (filter (λ s. not (s.id == i)) rows)
filter-AreNamed i [] h = tt
filter-AreNamed i (r ∷ rows) h =
    if_elim AreNamed (not (r.id == i)) _ _
      (λ _. (filter-Apart (identity r) i rows h.0, filter-AreNamed i rows h.1))
      (λ _. filter-AreNamed i rows h.1)

claimed-AreNamed :
    (now : ℕ) (o : Option SourceRow) (d : Db)
    → AreNamed d.package_sources
    → AreNamed (claim_candidate now o d).1.package_sources
claimed-AreNamed now none d h = h
claimed-AreNamed now (some s) d h =
    rw (map-updated s.id mark_running d.package_sources (λ t. refl)) h

finished-AreNamed :
    (now source_id run_id : ℕ) (stats : SyncStats) (e : Option Text) (o : Option SourceRow) (d : Db)
    → AreNamed d.package_sources
    → AreNamed (finish_found now source_id run_id stats e o d).package_sources
finished-AreNamed now source_id run_id stats e none d h = h
finished-AreNamed now source_id run_id stats e (some current) d h =
    rw (map-updated source_id (finish_row now e current) d.package_sources (λ t. refl)) h

module _ (h : Host) (cfg : Config) where
  pub Step-AreNamed :
      (a b : Db) → Step h cfg a b → AreNamed a.package_sources → AreNamed b.package_sources
  unfolding delete_source claim_source finish_source recover_interrupted_source_runs
  Step-AreNamed _ _ (creates now values token d) named =
      create_source-AreNamed h cfg now values token d.package_sources named
  Step-AreNamed _ _ (updates now i values token clear d) named =
      update_source-AreNamed h cfg now i values token clear d.package_sources named
  Step-AreNamed _ _ (deletes i d) named = filter-AreNamed i d.package_sources named
  Step-AreNamed _ _ (queues now i d) named = rw (map-queued now i d.package_sources) named
  Step-AreNamed _ _ (claims now o d) named =
      claimed-AreNamed now (candidate now o d.package_sources) d named
  Step-AreNamed _ _ (finishes now i run_id stats e d) named =
      finished-AreNamed now i run_id stats e (get_source d.package_sources i) d named
  Step-AreNamed _ _ (recovers now d) named = rw (map-interrupted now d.package_sources) named

  -- Any number of creations, updates, deletions, queueings, claims, ends of checks and
  -- recoveries after restarts keep the table of sources without two rows that share an id or a
  -- name, where the case of ASCII letters does not count.
  pub Steps-AreNamed :
      (a b : Db) → Steps h cfg a b → AreNamed a.package_sources → AreNamed b.package_sources
  Steps-AreNamed _ _ (done d) named = named
  Steps-AreNamed _ _ (next a b c step steps) named =
      Steps-AreNamed b c steps (Step-AreNamed a b step named)
