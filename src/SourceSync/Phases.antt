-- ===== src/SourceSync/Phases.antt =====
-- sources.py and source_sync.py: the table of sources refines a table of phases, one for each id.
pub mod Refines
use prv_apt_mirror.Prelude.{
  ℕ, ◌≡◌, ◌≤◌, suc, is_some, refl, Bool, true, false, not, List, [], ◌∷◌, ◌++◌, map, filter, Option,
  none, some, arith, All, if◌then◌else◌, ◌==◌,
}
use prv_apt_mirror.Db.Sources.{
  SourceRow, SourceStatus, queued, running, get_source, update_source_row,
}
use prv_apt_mirror.SourceSync.{interrupt_source, queue_source, queue_row, is_claimable}

-- What a source does: nothing, wait for a check that was asked for, or be checked.
pub data Phase : Type 0 where
  idle waiting busy : Phase

abbrev pub phase_of : SourceStatus → Phase
phase_of queued = waiting
phase_of running = busy
phase_of _ = idle

abbrev pub row_phase : Option SourceRow → Option Phase
row_phase none = none
row_phase (some s) = some (phase_of s.last_status)

-- The phase of the source with the id, if there is one.
abbrev pub phase_at : List SourceRow → ℕ → Option Phase
phase_at rows i = row_phase (get_source rows i)

-- there is a source, and it is not being checked
abbrev pub is_free : Option Phase → Bool
is_free (some idle) = true
is_free (some waiting) = true
is_free _ = false

-- what a restart makes of a phase
abbrev pub calmed : Option Phase → Option Phase
calmed (some busy) = some idle
calmed p = p

abbrev Others : ℕ → (ℕ → Option Phase) → (ℕ → Option Phase) → Type 0
Others i a b = (j : ℕ) → (i == j) ≡ false → b j ≡ a j

-- What the abstract machine may be told to do: nothing, to add, drop, ask for, begin or end one
-- source, or to restart.
pub data Action : Type 0 where
  rest restart : Action
  add drop ask begin end : ℕ → Action

-- The abstract machine. Only a source that is not there is added, and only a free one is asked for
-- or begun.
pub data Move (a b : ℕ → Option Phase) : Action → Type 0 where
  stays : ((j : ℕ) → b j ≡ a j) → Move a b rest
  appears : (i : ℕ) → a i ≡ none → b i ≡ some idle → Others i a b → Move a b (add i)
  leaves : (i : ℕ) → b i ≡ none → Others i a b → Move a b (drop i)
  asked : (i : ℕ) → is_free (a i) ≡ true → b i ≡ some waiting → Others i a b → Move a b (ask i)
  begun : (i : ℕ) → is_free (a i) ≡ true → b i ≡ some busy → Others i a b → Move a b (begin i)
  ended : (i : ℕ) → is_some (a i) ≡ true → b i ≡ some idle → Others i a b → Move a b (end i)
  restarted : ((j : ℕ) → b j ≡ calmed (a j)) → Move a b restart

abbrev pub mapped : (SourceRow → SourceRow) → Option SourceRow → Option SourceRow
mapped f none = none
mapped f (some s) = some (f s)

pub get_source-update :
    (rows : List SourceRow) (i j : ℕ) (f : SourceRow → SourceRow)
    → ((s : SourceRow) → (f s).id ≡ s.id)
    → get_source (update_source_row i f rows) j
      ≡ (if i == j then mapped f (get_source rows j) else get_source rows j)
unfolding get_source update_source_row
get_source-update [] i j f keeps = ground arith
get_source-update (r ∷ rows) i j f keeps =
    ground (arith, keeps r, get_source-update rows i j f keeps)

pub phase_at-update :
    (rows : List SourceRow) (i j : ℕ) (f : SourceRow → SourceRow)
    → ((s : SourceRow) → (f s).id ≡ s.id)
    → ((s : SourceRow) → (f s).last_status ≡ s.last_status)
    → phase_at (update_source_row i f rows) j ≡ phase_at rows j
unfolding get_source update_source_row
phase_at-update [] i j f keeps same = refl
phase_at-update (r ∷ rows) i j f keeps same =
    ground (arith, keeps r, same r, phase_at-update rows i j f keeps same)

pub get_source-append :
    (rows : List SourceRow) (s : SourceRow) (j : ℕ)
    → get_source (rows ++ s ∷ []) j
      ≡ (elim (get_source rows j) [ none ↦ if s.id == j then some s else none | some t ↦ some t ])
unfolding get_source
get_source-append [] s j = refl
get_source-append (r ∷ rows) s j = ground (arith, get_source-append rows s j)

pub get_source_fresh :
    (rows : List SourceRow) (i : ℕ) → All (λ r. suc r.id ≤ i) rows → get_source rows i ≡ none
unfolding get_source
get_source_fresh [] i h = refl
get_source_fresh (r ∷ rows) i h = ground (arith, h.0, get_source_fresh rows i h.1)

pub get_source-filter :
    (rows : List SourceRow) (i j : ℕ)
    → get_source (filter (λ s. not (s.id == i)) rows) j
      ≡ (if i == j then none else get_source rows j)
unfolding get_source
get_source-filter [] i j = ground arith
get_source-filter (r ∷ rows) i j = ground (arith, get_source-filter rows i j)

abbrev pub asked_row : ℕ → SourceRow → SourceRow
asked_row now s = if is_claimable s then queue_row now s else s

pub get_source-queue :
    (rows : List SourceRow) (now i j : ℕ)
    → get_source (queue_source now i rows).0 j
      ≡ (if i == j then mapped (asked_row now) (get_source rows j) else get_source rows j)
unfolding get_source queue_source
get_source-queue [] now i j = ground arith
get_source-queue (r ∷ rows) now i j = ground (arith, get_source-queue rows now i j)

pub phase_at-interrupt :
    (rows : List SourceRow) (now j : ℕ)
    → phase_at (map (interrupt_source now) rows) j ≡ calmed (phase_at rows j)
unfolding get_source
phase_at-interrupt [] now j = refl
phase_at-interrupt (r ∷ rows) now j = ground (arith, phase_at-interrupt rows now j)

-- The moves that some actions make, one after the other.
pub data Run : List Action → (ℕ → Option Phase) → (ℕ → Option Phase) → Type 0 where
  over : (a : ℕ → Option Phase) → Run [] a a
  further :
      (x : Action) (xs : List Action) (a b c : ℕ → Option Phase)
      → Move a b x
      → Run xs b c
      → Run (x ∷ xs) a c
