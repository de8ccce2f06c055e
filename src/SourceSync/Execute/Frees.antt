-- ===== src/SourceSync/Execute/Frees.antt =====
-- source_sync.py: a check frees the source that it claimed, however it ends, and the loop over the due
-- sources ends.
use prv_apt_mirror.Prelude.{
  ℕ, suc, zero, ◌+◌, ◌≤◌, ◌<◌, ◌≡◌, refl, Text, Bool, true, false, List, [], ◌∷◌, All, Option, none,
  some, arith,
}
use prv_apt_mirror.Exec.{Result, ok, continue}
use prv_apt_mirror.Db.{Db}
use prv_apt_mirror.Db.Sources.{SourceRow, get_source, update_source_row}
use prv_apt_mirror.World.{World}
use prv_apt_mirror.SourceSync.{
  SyncStats, claim_source, claim_candidate, candidate, finish_source, finish_found, finish_row,
  is_due, first_due,
}
use prv_apt_mirror.SourceSync.Claims.{IsIdle, FirstOf, first_due-FirstOf}
use prv_apt_mirror.SourceSync.Import.{Env}
use prv_apt_mirror.SourceSync.Execute.{
  Turn, sync_source_once, sync_claimed, due_turns, counted_turn,
}

-- Every source with this id is free.
abbrev pub IdleAt : ℕ → List SourceRow → Type 0
IdleAt i = All (λ s. s.id ≡ i → IsIdle s.last_status)

no_row-IdleAt : (i : ℕ) (rows : List SourceRow) → get_source rows i ≡ none → IdleAt i rows
unfolding get_source
no_row-IdleAt i [] e = tt
no_row-IdleAt i (r ∷ rows) e = (ground arith, no_row-IdleAt i rows (ground arith))

finished-IdleAt :
    (now i : ℕ) (e : Option Text) (s : SourceRow) (rows : List SourceRow)
    → IdleAt i (update_source_row i (finish_row now e s) rows)
unfolding update_source_row
finished-IdleAt now i e s [] = tt
finished-IdleAt now i e s (r ∷ rows) = (ground arith, finished-IdleAt now i e s rows)

finish_source-IdleAt :
    (now i run : ℕ) (stats : SyncStats) (e : Option Text) (d : Db)
    → IdleAt i (finish_source now i run stats e d).package_sources
unfolding finish_source
finish_source-IdleAt now i run stats e d = go (get_source d.package_sources i) refl
  where
    go :
        (o : Option SourceRow)
        → get_source d.package_sources i ≡ o
        → IdleAt i (finish_found now i run stats e o d).package_sources
    go none none_found = no_row-IdleAt i d.package_sources none_found
    go (some s) found = finished-IdleAt now i e s d.package_sources

-- How a check ends: nothing could be claimed and nothing changed, or the claimed source is free.
abbrev pub Freed : World → Option SourceRow → Result Bool × World → Type 0
Freed w none p = p ≡ (ok false, w)
Freed w (some s) p = (p.0 ≡ ok true) × IdleAt s.id p.1.db.package_sources

-- A check raises nothing, whatever its client, its files and its publishes do. If no source
-- could be claimed it returns false and the state is as before; else it returns true, and no
-- source with the id of the claimed one is running.
pub sync_source_once-Freed :
    (env : Env) (ended : ℕ) (source_id : Option ℕ) (w : World)
    → Freed w
        (candidate env.now source_id w.db.package_sources)
        (sync_source_once env ended source_id w)
unfolding sync_source_once claim_source
sync_source_once-Freed env ended source_id w = go (candidate env.now source_id w.db.package_sources)
  where
    go :
        (o : Option SourceRow)
        → Freed w o (
            sync_claimed env ended
              (claim_candidate env.now o w.db).0
              (record w { db = (claim_candidate env.now o w.db).1 }))
    go none = refl
    go (some s) = (refl, finish_source-IdleAt ended s.id _ _ _ _)

-- How the loop over the due sources ends: it has taken at most `left` more of them, and if it took
-- fewer, then no source is due at the time of its last turn.
pub record Drained (turn : ℕ → Turn) (left count : ℕ) (p : Result ℕ × World) : Type 0 where
  pub taken : ℕ
  pub returns : p.0 ≡ ok taken
  pub bounded : taken ≤ count + left
  pub idle :
      taken < count + left → All (λ s. is_due (turn taken).env.now s ≡ false) p.1.db.package_sources

module _ (turn : ℕ → Turn) where
  later-Drained :
      (left count : ℕ) (p : Result ℕ × World)
      → Drained turn left (suc count) p
      → Drained turn (suc left) count p
  later-Drained left count p d = record {
    taken = d.taken;
    returns = d.returns;
    bounded = omega (arith, d.bounded);
    idle = λ less. d.idle (omega arith);
  }

  -- The loop over the due sources raises nothing and takes at most as many sources as it may; if
  -- it took fewer, then no source is due at the time of its last turn.
  pub due_turns-Drained :
      (left count : ℕ) (w : World) → Drained turn left count (due_turns turn left count w)
  unfolding due_turns
  due_turns-Drained zero count w = record {
    taken = count;
    returns = refl;
    bounded = omega arith;
    idle = λ less. absurd (omega arith);
  }
  due_turns-Drained (suc left) count w =
      go (first_due (turn count).env.now w.db.package_sources)
        (sync_source_once (turn count).env (turn count).ended none w)
        (first_due-FirstOf (turn count).env.now w.db.package_sources)
        (sync_source_once-Freed (turn count).env (turn count).ended none w)
        (due_turns-Drained left (suc count))
    where
      go :
          (o : Option SourceRow) (p : Result Bool × World)
          → FirstOf (turn count).env.now w.db.package_sources o
          → Freed w o p
          → ((w' : World) → Drained turn left (suc count) (due_turns turn left (suc count) w'))
          → Drained turn
              (suc left)
              count
              (continue p.0 (counted_turn (due_turns turn left) count) p.1)
      go none p first freed rest =
          rw freed
            (record { taken = count; returns = refl; bounded = omega arith; idle = λ less. first })
      go (some s) p first freed rest = rw freed.0 (later-Drained left count _ (rest p.1))
