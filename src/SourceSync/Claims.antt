-- ===== src/SourceSync/Claims.antt =====
-- Which source a check claims, and that no source is checked twice at a time.
use prv_apt_mirror.Prelude.{
  ℕ, ◌+◌, ◌-◌, ◌*◌, ◌^◌, suc, min, ◌⊎◌, ◌≡◌, refl, sym, ap, Text, ◌&&◌, leb, ◌∙◌, inl, inr, true,
  false, List, [], ◌∷◌, map, Option, none, some, arith, All, All-map, Bool-cases,
}
use mathlib.Core.Bool.{false≢true}
use prv_apt_mirror.Db.{Db}
use prv_apt_mirror.Db.Sources.{
  SourceRow, SourceRun, SourceStatus, success, error, is_running, update_source_row, get_source,
}
use prv_apt_mirror.SourceSync.{
  recover_interrupted_source_runs, is_due, earlier, pick, first_due, claimable_by_id, claim_source,
  candidate, mark_running, finish_source, SyncStats, claim_candidate, interrupt_run,
  interrupt_source, finish_row, retry_seconds,
}

-- `t` comes no later than `s` in the order of the query.
abbrev NotLater : SourceRow → SourceRow → Type 0
NotLater s t = earlier t s ≡ false

-- What the query of a check without an id returns: no due source is earlier.
pub record IsFirst (now : ℕ) (ss : List SourceRow) (s : SourceRow) : Type 0 where
  pub due : is_due now s ≡ true
  pub first : All (λ t. is_due now t ≡ true → earlier t s ≡ false) ss

abbrev pub FirstOf : ℕ → List SourceRow → Option SourceRow → Type 0
FirstOf now ss none = All (λ t. is_due now t ≡ false) ss
FirstOf now ss (some s) = IsFirst now ss s

earlier_trans :
    (a b c : SourceRow) → earlier a b ≡ false → earlier b c ≡ false → earlier a c ≡ false
earlier_trans a b c h k = ground arith

earlier_irrefl : (a : SourceRow) → earlier a a ≡ false
earlier_irrefl a = ground arith

earlier_asymm : (a b : SourceRow) → earlier a b ≡ true → earlier b a ≡ false
earlier_asymm a b h = ground arith

FirstOf-pick :
    (now : ℕ) (s : SourceRow) (ss : List SourceRow) (rest : Option SourceRow)
    → is_due now s ≡ true
    → FirstOf now ss rest
    → FirstOf now (s ∷ ss) (pick s rest)
FirstOf-pick now s ss none d h = record {
  due = d;
  first = (
    λ _. earlier_irrefl s,
    All-map (λ t no_t yes_t. absurd (false≢true (sym no_t ∙ yes_t))) ss h,
  );
}
FirstOf-pick now s ss (some t) d h = elim (Bool-cases (earlier t s)) [
  | inl before ↦
      rw (before, FirstOf)
        (record { due = h.due; first = (λ _. earlier_asymm t s before, h.first) })
  | inr after ↦
      rw (after, FirstOf)
        (record {
          due = d;
          first = (
            λ _. earlier_irrefl s,
            All-map (λ u f e. earlier_trans u t s (f e) after) ss h.first,
          );
        })
]

FirstOf-skip :
    (now : ℕ) (s : SourceRow) (ss : List SourceRow) (rest : Option SourceRow)
    → is_due now s ≡ false
    → FirstOf now ss rest
    → FirstOf now (s ∷ ss) rest
FirstOf-skip now s ss none d h = (d, h)
FirstOf-skip now s ss (some t) d h = record {
  due = h.due;
  first = (λ e. absurd (false≢true (sym d ∙ e)), h.first);
}

pub first_due-FirstOf : (now : ℕ) (ss : List SourceRow) → FirstOf now ss (first_due now ss)
unfolding first_due
first_due-FirstOf now [] = tt
first_due-FirstOf now (s ∷ ss) = elim (Bool-cases (is_due now s)) [
  | inl due ↦ rw due (FirstOf-pick now s ss (first_due now ss) due (first_due-FirstOf now ss))
  | inr early ↦ rw early (FirstOf-skip now s ss (first_due now ss) early (first_due-FirstOf now ss))
]

abbrev id_of : Option (SourceRow × ℕ) → ℕ
id_of none = 0
id_of (some (s, i)) = s.id

abbrev pub row_of : Option (SourceRow × ℕ) → Option SourceRow
row_of none = none
row_of (some (s, i)) = some s

row_of-claim :
    (now : ℕ) (source_id : Option ℕ) (d : Db)
    → row_of (claim_source now source_id d).0 ≡ candidate now source_id d.package_sources
unfolding claim_source
row_of-claim now source_id d = ground arith

-- A check without an id claims a due source that no due source precedes in the order of
-- (next_check_at, id), and it claims none only if no source is due.
pub claim_source-FirstOf :
    (now : ℕ) (d : Db) → FirstOf now d.package_sources (row_of (claim_source now none d).0)
claim_source-FirstOf now d = rw row_of-claim (first_due-FirstOf now d.package_sources)

-- Every source with this id is running.
abbrev pub RunningAt : ℕ → List SourceRow → Type 0
RunningAt i = All (λ s. s.id ≡ i → is_running s.last_status ≡ true)

mark_running-RunningAt :
    (i : ℕ) (ss : List SourceRow) → RunningAt i (update_source_row i mark_running ss)
unfolding update_source_row
mark_running-RunningAt i [] = tt
mark_running-RunningAt i (s ∷ ss) = (ground arith, mark_running-RunningAt i ss)

RunningAt-refuses : (i : ℕ) (ss : List SourceRow) → RunningAt i ss → claimable_by_id i ss ≡ none
unfolding claimable_by_id
RunningAt-refuses i [] h = refl
RunningAt-refuses i (s ∷ ss) h = ground (arith, RunningAt-refuses i ss h.1)

-- Once a source is claimed, the next claim by its id gets nothing.
pub claim_source_excludes :
    (now later : ℕ) (source_id : Option ℕ) (d : Db) (s : SourceRow) (run : ℕ)
    → (claim_source now source_id d).0 ≡ some (s, run)
    → (claim_source later (some s.id) (claim_source now source_id d).1).0 ≡ none
unfolding claim_source
claim_source_excludes now later source_id d s run e =
    go (candidate now source_id d.package_sources) e
  where
    go :
        (o : Option SourceRow)
        → (claim_candidate now o d).0 ≡ some (s, run)
        → (claim_candidate later
            (claimable_by_id s.id (claim_candidate now o d).1.package_sources)
            (claim_candidate now o d).1).0
          ≡ none
    go none e = cc
    go (some t) e =
        let same : t.id ≡ s.id = ap id_of e in
        rw (← same)
          (rw (RunningAt-refuses t.id _ (mark_running-RunningAt t.id d.package_sources)) refl)

abbrev pub IsIdle : SourceStatus → Type 0
IsIdle st = is_running st ≡ false

recovered_runs :
    (now : ℕ) (rs : List SourceRun) → All (λ r. IsIdle r.status) (map (interrupt_run now) rs)
recovered_runs now [] = tt
recovered_runs now (r ∷ rs) = (ground arith, recovered_runs now rs)

recovered_sources :
    (now : ℕ) (ss : List SourceRow)
    → All (λ s. IsIdle s.last_status) (map (interrupt_source now) ss)
recovered_sources now [] = tt
recovered_sources now (s ∷ ss) = (ground arith, recovered_sources now ss)

-- After the recovery at a start no run and no source is running.
pub recover-IsIdle :
    (now : ℕ) (d : Db)
    → All (λ r. IsIdle r.status) (recover_interrupted_source_runs now d).source_runs
      × All (λ s. IsIdle s.last_status) (recover_interrupted_source_runs now d).package_sources
unfolding recover_interrupted_source_runs
recover-IsIdle now d = (recovered_runs now d.source_runs, recovered_sources now d.package_sources)

get_source-update :
    (ss : List SourceRow) (i : ℕ) (f : SourceRow → SourceRow) (s : SourceRow)
    → ((t : SourceRow) → (f t).id ≡ t.id)
    → get_source ss i ≡ some s
    → get_source (update_source_row i f ss) i ≡ some (f s)
unfolding get_source update_source_row
get_source-update [] i f s keeps e = cc
get_source-update (t ∷ ss) i f s keeps e = ground (arith, keeps t, get_source-update ss i f s keeps)

-- What the end of a check writes: how it went, how often it has failed in a row, and when it is
-- checked again.
pub data Ended (now : ℕ) (s row : SourceRow) : Option Text → Type 0 where
  succeeded :
      (e : Option Text)
      → (e ≡ none) ⊎ (e ≡ some [])
      → row.last_status ≡ success
      → row.consecutive_failures ≡ 0
      → row.next_check_at ≡ now + s.interval_minutes * 60
      → Ended now s row e
  failed :
      (c : ℕ) (text : Text)
      → row.last_status ≡ error
      → row.consecutive_failures ≡ suc s.consecutive_failures
      → row.next_check_at
        ≡ now + min (s.interval_minutes * 60) (60 * 2 ^ min s.consecutive_failures 8)
      → Ended now s row (some (c ∷ text))

-- The source after a check that has finished.
pub record Rescheduled (now run later : ℕ) (stats : SyncStats) (e : Option Text) (d : Db) (i : ℕ)
    (s : SourceRow) : Type 0 where
  pub row : SourceRow
  pub found : get_source (finish_source now i run stats e d).package_sources i ≡ some row
  pub free : is_running row.last_status ≡ false
  pub ended : Ended now s row e
  pub due : is_due later row ≡ (s.enabled && leb row.next_check_at later)

finish_row-Ended :
    (now : ℕ) (e : Option Text) (s : SourceRow) → Ended now s (finish_row now e s s) e
unfolding retry_seconds
finish_row-Ended now none s = succeeded none (inl refl) refl refl refl
finish_row-Ended now (some []) s = succeeded (some []) (inr refl) refl refl refl
finish_row-Ended now (some (c ∷ text)) s =
    let before : s.consecutive_failures + 1 - 1 ≡ s.consecutive_failures = omega arith in
    failed c text refl (omega arith) (rw before refl)

module _ (now run later : ℕ) (stats : SyncStats) (e : Option Text) (d : Db) (i : ℕ) where
  -- A check that finishes frees its source, enabled or not. After no error, or an empty one, its
  -- status is success, its failures are zero and the next check is its interval later. After an
  -- error its status is error, its failures are one more, and the next check is 60 seconds times
  -- two to the power of the failures before, at most eight, later, but at most its interval. It
  -- is due again exactly from then on, if it is enabled.
  pub finish_source-reschedules :
      (s : SourceRow)
      → get_source d.package_sources i ≡ some s
      → Rescheduled now run later stats e d i s
  unfolding finish_source
  finish_source-reschedules s found = record {
    row = finish_row now e s s;
    found =
        rw found (get_source-update d.package_sources i (finish_row now e s) s (λ t. refl) found);
    free = ground arith;
    ended = finish_row-Ended now e s;
    due = ground arith;
  }
