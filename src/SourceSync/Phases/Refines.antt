-- ===== src/SourceSync/Phases/Refines.antt =====
-- sources.py and source_sync.py: each operation on the table of sources is a move of the phases.
use prv_apt_mirror.Prelude.{
  ℕ, ◌≡◌, refl, sym, ap, ◌∙◌, Text, Bool, true, false, ◌&&◌, List, [], ◌∷◌, ◌++◌, map, Option, none,
  some, arith, All, All-map, if_elim, if◌then◌else◌, ◌==◌, ==_refl, Dict, next_id, All-le-max_id,
  subst, ◌⊎◌, inl, inr, Bool-cases, ==_iff,
}
use mathlib.Core.Bool.{false≢true}
use mathlib.Core.Option.{some-injective}
use prv_apt_mirror.Exec.{Result, ok, err}
use prv_apt_mirror.Host.{Host}
use prv_apt_mirror.Config.{Config}
use prv_apt_mirror.Db.{Db, delete_source}
use prv_apt_mirror.Db.Sources.{SourceRow, get_source}
use prv_apt_mirror.Sources.{Clean, validate_source_values}
use prv_apt_mirror.Sources.Table.{
  insert_source, create_clean, create_source, store_update, update_clean, update_found,
  update_source, updated_source, new_source, is_taken, read_back,
}
use prv_apt_mirror.Sources.Table.Names.{identity, Identity, is_apart, AreNamed}
use prv_apt_mirror.SourceSync.{
  SyncStats, recover_interrupted_source_runs, claim_source, claim_candidate, is_due, pick, earlier,
  first_due, claimable_by_id, candidate, mark_running, finish_source, finish_found, finish_row,
  queue_source, is_claimable,
}
use prv_apt_mirror.SourceSync.Life.{
  Step, Steps, done, next, Step-AreNamed, creates, updates, deletes, queues, claims, finishes,
  recovers,
}
use prv_apt_mirror.SourceSync.Phases.{
  phase_at, row_phase, Action, rest, restart, add, drop, ask, begin, end, Move, Run, over, further,
  stays, appears, leaves, asked, begun, ended, restarted, mapped, get_source-update,
  phase_at-update, get_source-append, get_source_fresh, get_source-filter, get_source-queue,
  phase_at-interrupt, asked_row,
}

-- What a query for a source to claim returns stands in the table, and is free.
abbrev IsFound : List SourceRow → Option SourceRow → Type 0
IsFound rows none = Unit
IsFound rows (some s) = (get_source rows s.id ≡ some s) × (is_claimable s ≡ true)

first_or_later :
    (b : Bool) (r t : SourceRow) (o : Option SourceRow)
    → (if b then some r else o) ≡ some t
    → (r ≡ t) ⊎ (o ≡ some t)
first_or_later true r t o e = inl cc
first_or_later false r t o e = inr e

apart_found :
    (k : Identity) (rows : List SourceRow) (j : ℕ) (t : SourceRow)
    → All (λ l. is_apart k l ≡ true) (map identity rows)
    → get_source rows j ≡ some t
    → is_apart k (identity t) ≡ true
unfolding get_source
apart_found k [] j t far e = cc
apart_found k (r ∷ rows) j t far e = elim (first_or_later (r.id == j) r t (get_source rows j) e) [
  | inl same ↦ subst (λ u. is_apart k (identity u) ≡ true) same far.0
  | inr later ↦ apart_found k rows j t far.1 later
]

IsFound-cons :
    (r : SourceRow) (rows : List SourceRow) (o : Option SourceRow)
    → All (λ l. is_apart (identity r) l ≡ true) (map identity rows)
    → IsFound rows o
    → IsFound (r ∷ rows) o
unfolding get_source
IsFound-cons r rows none far f = tt
IsFound-cons r rows (some s) far f =
    let apart = apart_found (identity r) rows s.id s far f.0 in (ground (arith, f.0), f.1)

IsFound-first :
    (r : SourceRow) (rows : List SourceRow) → is_claimable r ≡ true → IsFound (r ∷ rows) (some r)
unfolding get_source
IsFound-first r rows h = (rw (==_refl r.id) refl, h)

IsFound-pick :
    (r : SourceRow) (rows : List SourceRow) (o : Option SourceRow)
    → is_claimable r ≡ true
    → IsFound (r ∷ rows) o
    → IsFound (r ∷ rows) (pick r o)
IsFound-pick r rows none h f = IsFound-first r rows h
IsFound-pick r rows (some t) h f =
    if_elim (IsFound (r ∷ rows)) (earlier t r) _ _ (λ _. f) (λ _. IsFound-first r rows h)

first_due-IsFound :
    (now : ℕ) (rows : List SourceRow) → AreNamed rows → IsFound rows (first_due now rows)
unfolding first_due
first_due-IsFound now [] named = tt
first_due-IsFound now (r ∷ rows) named =
    let rest =
      IsFound-cons r rows (first_due now rows) named.0 (first_due-IsFound now rows named.1) in
    if_elim (IsFound (r ∷ rows)) (is_due now r) _ _
      (λ due. IsFound-pick r rows (first_due now rows) (ground arith) rest) (λ _. rest)

claimable-IsFound :
    (i : ℕ) (rows : List SourceRow) → AreNamed rows → IsFound rows (claimable_by_id i rows)
unfolding claimable_by_id
claimable-IsFound i [] named = tt
claimable-IsFound i (r ∷ rows) named =
    if_elim (IsFound (r ∷ rows)) (r.id == i && is_claimable r) _ _
      (λ here. IsFound-first r rows (ground arith))
      (λ _. IsFound-cons r rows (claimable_by_id i rows) named.0 (claimable-IsFound i rows named.1))

candidate-IsFound :
    (now : ℕ) (o : Option ℕ) (rows : List SourceRow)
    → AreNamed rows
    → IsFound rows (candidate now o rows)
candidate-IsFound now none rows named = first_due-IsFound now rows named
candidate-IsFound now (some i) rows named = claimable-IsFound i rows named

-- The phases move from one table to the other as the action says.
abbrev Moves : List SourceRow → Action → List SourceRow → Type 0
Moves rows x rows' = Move (phase_at rows) (phase_at rows') x

unmoved : (rows : List SourceRow) → Moves rows rest rows
unmoved rows = stays (λ j. refl)

-- What an operation does, by what it returns.
abbrev pub created_action : Result SourceRow → Action
created_action (ok s) = add s.id
created_action (err e) = rest

abbrev pub claimed_action : Option (SourceRow × ℕ) → Action
claimed_action none = rest
claimed_action (some (s, run)) = begin s.id

insert_source-Moves :
    (now : ℕ) (clean : Clean) (token : Option Text) (rows : List SourceRow)
    → Moves rows
        (created_action (insert_source now clean token rows).0)
        (insert_source now clean token rows).1
insert_source-Moves now clean token rows =
    if_elim (λ (p : Result SourceRow × List SourceRow). Moves rows (created_action p.0) p.1)
      (is_taken i clean.name rows) _ _ (λ _. unmoved rows)
      λ _. subst (Move (phase_at rows) (phase_at (rows ++ new ∷ []))) (sym returned) (
        appears i (ap row_phase fresh) (rw (get_source-append rows new i, fresh, ==_refl i) refl)
          (λ j other.
            ap row_phase (get_source-append rows new j) ∙ beyond j other (get_source rows j)))
  where
    i : ℕ
    i = next_id (λ s. s.id) rows

    new : SourceRow
    new = new_source i now clean token

    fresh : get_source rows i ≡ none
    fresh =
        get_source_fresh rows i
          (All-map (λ r le. omega arith) rows (All-le-max_id (λ s. s.id) rows))

    returned : created_action (read_back (get_source (rows ++ new ∷ []) i)) ≡ add i
    returned = rw (get_source-append rows new i, fresh, ==_refl i) refl

    beyond :
        (j : ℕ)
        → (i == j) ≡ false
        → (o : Option SourceRow)
        → row_phase (elim o [ none ↦ if i == j then some new else none | some t ↦ some t ])
          ≡ row_phase o
    beyond j other none = rw other refl
    beyond j other (some t) = refl

store_update-Moves :
    (i now : ℕ) (clean : Clean) (token : Option Text) (rows : List SourceRow)
    → Moves rows rest (store_update i now clean token rows).1
store_update-Moves i now clean token rows =
    if_elim (λ (p : Result SourceRow × List SourceRow). Moves rows rest p.1)
      (is_taken i clean.name rows) _ _ (λ _. unmoved rows)
      (λ _.
        stays
          (λ j. phase_at-update rows i j (updated_source now clean token) (λ s. refl) (λ s. refl)))

module _ (h : Host) (cfg : Config) (now : ℕ) (values : Dict Text) (token : Text) where
  create_source-Moves :
      (rows : List SourceRow)
      → Moves rows
          (created_action (create_source h cfg now values token rows).0)
          (create_source h cfg now values token rows).1
  unfolding create_source
  create_source-Moves rows = go (validate_source_values h values)
    where
      go :
          (r : Result Clean)
          → Moves rows
              (created_action (create_clean h cfg now token r rows).0)
              (create_clean h cfg now token r rows).1
      go (ok clean) = insert_source-Moves now clean _ rows
      go (err e) = unmoved rows

  update_source-Moves :
      (i : ℕ) (clear : Bool) (rows : List SourceRow)
      → Moves rows rest (update_source h cfg now i values token clear rows).1
  unfolding update_source
  update_source-Moves i clear rows = found (get_source rows i)
    where
      checked :
          (current : SourceRow) (r : Result Clean)
          → Moves rows rest (update_clean h cfg now token clear current r rows).1
      checked current (ok clean) = store_update-Moves current.id now clean _ rows
      checked current (err e) = unmoved rows

      found :
          (o : Option SourceRow)
          → Moves rows rest (update_found h cfg now values token clear o rows).1
      found none = unmoved rows
      found (some current) = checked current (validate_source_values h values)

delete_source-Moves :
    (i : ℕ) (d : Db) → Moves d.package_sources (drop i) (delete_source i d).0.package_sources
unfolding delete_source
delete_source-Moves i d =
    leaves i (ap row_phase (get_source-filter d.package_sources i i) ∙ rw (==_refl i) refl)
      (λ j other. ap row_phase (get_source-filter d.package_sources i j) ∙ rw other refl)

abbrev pub queued_action : ℕ → Bool → Action
queued_action i true = ask i
queued_action i false = rest

get_source-id :
    (rows : List SourceRow) (i : ℕ) (s : SourceRow) → get_source rows i ≡ some s → s.id ≡ i
unfolding get_source
get_source-id [] i s e = cc
get_source-id (r ∷ rows) i s e = elim (Bool-cases (r.id == i)) [
  | inl same ↦
      let first : r ≡ s = some-injective r s (sym (rw same refl) ∙ e) in
      ap (λ t. t.id) (sym first) ∙ (==_iff r.id i).0 same
  | inr other ↦ get_source-id rows i s (sym (rw other refl) ∙ e)
]

-- What the answer of `queue_source` says.
queued_found :
    (rows : List SourceRow) (now i : ℕ)
    → AreNamed rows
    → (queue_source now i rows).1 ≡ true
    → (s : SourceRow) × (get_source rows i ≡ some s) × (is_claimable s ≡ true)
unfolding queue_source get_source
queued_found [] now i named e = absurd (false≢true e)
queued_found (r ∷ rows) now i named e = elim (Bool-cases (r.id == i)) [
  | inl same ↦ elim (Bool-cases (is_claimable r)) [
    | inl free ↦ (r, rw same refl, free)
    | inr held ↦
        let (s, found, free) = queued_found rows now i named.1 (ground (arith, same, held)) in
        let apart = apart_found (identity r) rows i s named.0 found in
        let id = get_source-id rows i s found in ground (arith, apart, id, same)
  ]
  | inr other ↦
      let (s, found, free) = queued_found rows now i named.1 (ground (arith, other)) in
      (s, rw other found, free)
]

untouched :
    (rows : List SourceRow) (now i j : ℕ)
    → (queue_source now i rows).1 ≡ false
    → phase_at (queue_source now i rows).0 j ≡ phase_at rows j
unfolding queue_source get_source
untouched [] now i j e = refl
untouched (r ∷ rows) now i j e = ground (arith, untouched rows now i j)

queue_source-Moves :
    (now i : ℕ) (rows : List SourceRow)
    → AreNamed rows
    → Moves rows (queued_action i (queue_source now i rows).1) (queue_source now i rows).0
queue_source-Moves now i rows named = any_row (queue_source now i rows).1 refl
  where
    others : (j : ℕ) → (i == j) ≡ false → phase_at (queue_source now i rows).0 j ≡ phase_at rows j
    others j other = ap row_phase (get_source-queue rows now i j) ∙ rw other refl

    here :
        (o : Option SourceRow)
        → get_source rows i ≡ o
        → phase_at (queue_source now i rows).0 i ≡ row_phase (mapped (asked_row now) o)
    here o e = ap row_phase (get_source-queue rows now i i) ∙ rw (==_refl i, e) refl

    all_others :
        phase_at (queue_source now i rows).0 i ≡ phase_at rows i
        → Moves rows rest (queue_source now i rows).0
    all_others same = stays (λ j. elim (Bool-cases (i == j)) [
      | inl e ↦
          subst (λ k. phase_at (queue_source now i rows).0 k ≡ phase_at rows k) ((==_iff i j).0 e)
            same
      | inr e ↦ others j e
    ])

    any_row :
        (b : Bool)
        → (queue_source now i rows).1 ≡ b
        → Moves rows (queued_action i b) (queue_source now i rows).0
    any_row true e =
        let (s, found, free) = queued_found rows now i named e in
        asked i (rw found (ground (arith, free))) (here (some s) found ∙ rw free refl) others
    any_row false e = all_others (untouched rows now i i e)

claim_candidate-Moves :
    (now : ℕ) (o : Option SourceRow) (d : Db)
    → IsFound d.package_sources o
    → Moves d.package_sources
        (claimed_action (claim_candidate now o d).0)
        (claim_candidate now o d).1.package_sources
claim_candidate-Moves now none d f = unmoved d.package_sources
claim_candidate-Moves now (some s) d f =
    begun s.id (rw f.0 (ground (arith, f.1)))
      (ap row_phase (get_source-update d.package_sources s.id s.id mark_running (λ t. refl))
        ∙ rw (==_refl s.id, f.0) refl)
      (λ j other.
        ap row_phase (get_source-update d.package_sources s.id j mark_running (λ t. refl))
        ∙ rw other refl)

-- The end of a check, by whether the source is still there.
abbrev pub ended_action : ℕ → Option SourceRow → Action
ended_action i none = rest
ended_action i (some s) = end i

finish_source-Moves :
    (now i run : ℕ) (stats : SyncStats) (e : Option Text) (d : Db)
    → Moves d.package_sources
        (ended_action i (get_source d.package_sources i))
        (finish_source now i run stats e d).package_sources
unfolding finish_source
finish_source-Moves now i run stats e d = go (get_source d.package_sources i) refl
  where
    go :
        (o : Option SourceRow)
        → get_source d.package_sources i ≡ o
        → Moves d.package_sources
            (ended_action i o)
            (finish_found now i run stats e o d).package_sources
    go none found = unmoved d.package_sources
    go (some s) found =
        ended i (rw found refl)
          (ap row_phase (get_source-update d.package_sources i i (finish_row now e s) (λ t. refl))
            ∙ rw (==_refl i, found) (ground arith))
          (λ j other.
            ap row_phase (get_source-update d.package_sources i j (finish_row now e s) (λ t. refl))
            ∙ rw other refl)

module _ (h : Host) (cfg : Config) where
  -- The action of each operation.
  unfoldable pub action_of : (a b : Db) → Step h cfg a b → Action
  action_of _ _ (creates now values token d) =
      created_action (create_source h cfg now values token d.package_sources).0
  action_of _ _ (updates now i values token clear d) = rest
  action_of _ _ (deletes i d) = drop i
  action_of _ _ (queues now i d) = queued_action i (queue_source now i d.package_sources).1
  action_of _ _ (claims now o d) = claimed_action (claim_source now o d).0
  action_of _ _ (finishes now i run stats e d) = ended_action i (get_source d.package_sources i)
  action_of _ _ (recovers now d) = restart

  unfoldable pub actions_of : (a b : Db) → Steps h cfg a b → List Action
  actions_of _ _ (done d) = []
  actions_of _ _ (next a b c step steps) = action_of a b step ∷ actions_of b c steps

  Step-Move :
      (a b : Db)
      → (step : Step h cfg a b) → AreNamed a.package_sources
      → Move (phase_at a.package_sources) (phase_at b.package_sources) (action_of a b step)
  unfolding action_of claim_source recover_interrupted_source_runs
  Step-Move _ _ (creates now values token d) named =
      create_source-Moves h cfg now values token d.package_sources
  Step-Move _ _ (updates now i values token clear d) named =
      update_source-Moves h cfg now values token i clear d.package_sources
  Step-Move _ _ (deletes i d) named = delete_source-Moves i d
  Step-Move _ _ (queues now i d) named = queue_source-Moves now i d.package_sources named
  Step-Move _ _ (claims now o d) named =
      claim_candidate-Moves now (candidate now o d.package_sources) d
        (candidate-IsFound now o d.package_sources named)
  Step-Move _ _ (finishes now i run stats e d) named = finish_source-Moves now i run stats e d
  Step-Move _ _ (recovers now d) named = restarted (phase_at-interrupt d.package_sources now)

  -- From a table of sources without two rows that share an id or a name, any number of
  -- creations, updates, deletions, queueings, claims, ends of checks and recoveries makes, one
  -- by one, the moves of the abstract machine on phases that their answers name. A creation that
  -- returns a source adds it, idle; a deletion drops its source; a queueing that finds a row
  -- makes a source wait that is there and not being checked; a claim that returns a source
  -- begins one that is there and not being checked; the end of a check of a source that is there
  -- makes it idle; a recovery makes each source idle that is being checked; and nothing else
  -- moves.
  pub Steps-Run :
      (a b : Db) (steps : Steps h cfg a b)
      → AreNamed a.package_sources
      → Run (actions_of a b steps) (phase_at a.package_sources) (phase_at b.package_sources)
  unfolding actions_of
  Steps-Run _ _ (done d) named = over (phase_at d.package_sources)
  Steps-Run _ _ (next a b c step steps) named =
      further (action_of a b step) (actions_of b c steps) (phase_at a.package_sources)
        (phase_at b.package_sources) (phase_at c.package_sources) (Step-Move a b step named)
        (Steps-Run b c steps (Step-AreNamed h cfg a b step named))
