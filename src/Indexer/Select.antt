-- ===== src/Indexer/Select.antt =====
-- indexer.py: which rows `rebuild_dists` lists for an architecture.
use prv_apt_mirror.Prelude.{
  ℕ, ◌≡◌, refl, sym, ◌∙◌, ap, Text, Bool, true, false, not, ◌&&◌, ◌||◌, List, [], ◌∷◌, ◌++◌, some,
  subst, arith, any, filter, if◌then◌else◌, Dict, lookup, lookup-insert, text_eq, text_eq_iff,
  text_eq_refl, Bool-cases, inl, inr,
}
use prv_apt_mirror.Config.{Config}
use mathlib.Core.List.{append-nil, append_assoc}
use prv_apt_mirror.Db.Packages.{PackageRow, active, state_eq}
use prv_apt_mirror.Indexer.{
  all_text, empty_by_arch, append_at, append_each, select_row, select_rows, rebuild_dists, rows_at,
  Selection,
}

abbrev pub has_arch : Text → List Text → Bool
has_arch a = any (λ b. text_eq a b)

-- Each architecture stands once.
abbrev pub Distinct : List Text → Type 0
Distinct [] = Unit
Distinct (a ∷ archs) = (has_arch a archs ≡ false) × Distinct archs

-- A row belongs to the index of an architecture: it is active, and for it or for all.
abbrev pub is_listed : Text → PackageRow → Bool
is_listed a r =
    state_eq r.state active && (text_eq r.architecture a || text_eq r.architecture all_text)

abbrev add_if : Bool → List PackageRow → PackageRow → List PackageRow
add_if b rows r = if b then rows ++ r ∷ [] else rows

lookup-append_at :
    (a b : Text) (r : PackageRow) (m : Dict (List PackageRow))
    → lookup b (append_at a r m)
      ≡ (if text_eq a b then some (rows_at a m ++ r ∷ []) else lookup b m)
unfolding append_at
lookup-append_at a b r m = lookup-insert a b (rows_at a m ++ r ∷ []) m

lookup-append_each_other :
    (b : Text) (archs : List Text) (r : PackageRow) (m : Dict (List PackageRow))
    → has_arch b archs ≡ false
    → lookup b (append_each archs r m) ≡ lookup b m
unfolding append_each
lookup-append_each_other b [] r m out = refl
lookup-append_each_other b (a ∷ archs) r m out = ground (
  arith,
  text_eq_iff a b,
  text_eq_iff b a,
  lookup-append_at a b r m,
  lookup-append_each_other b archs r m,
  lookup-append_each_other b archs r (append_at a r m),
)

lookup-append_each_head :
    (a : Text) (archs : List Text) (r : PackageRow) (m : Dict (List PackageRow))
    (rows : List PackageRow)
    → has_arch a archs ≡ false
    → lookup a m ≡ some rows
    → lookup a (append_each (a ∷ archs) r m) ≡ some (add_if (not (text_eq a all_text)) rows r)
unfolding append_each
lookup-append_each_head a archs r m rows out e = ground (
  arith,
  text_eq_refl a,
  lookup-append_at a a r m,
  lookup-append_each_other a archs r m out,
  lookup-append_each_other a archs r (append_at a r m) out,
)

lookup-append_each :
    (b : Text) (archs : List Text) (r : PackageRow) (m : Dict (List PackageRow))
    (rows : List PackageRow)
    → Distinct archs
    → lookup b m ≡ some rows
    → lookup b (append_each archs r m)
      ≡ some (add_if (has_arch b archs && not (text_eq b all_text)) rows r)
unfolding append_each
lookup-append_each b [] r m rows d e = e
lookup-append_each b (a ∷ archs) r m rows d e = elim (Bool-cases (text_eq b a)) [
  | inl same ↦
      rw (same, (text_eq_iff b a).0 same)
        (lookup-append_each_head a archs r m rows d.0 (rw (← (text_eq_iff b a).0 same) e))
  | inr differ ↦
      let at : lookup b (append_at a r m) ≡ some rows =
        ground (arith, text_eq_iff a b, text_eq_iff b a, lookup-append_at a b r m) in
      ground (
        arith,
        lookup-append_each b archs r m rows d.1 e,
        lookup-append_each b archs r (append_at a r m) rows d.1 at,
      )
]

-- The rows of every architecture, as a function.
abbrev Holds : List Text → (Text → List PackageRow) → Dict (List PackageRow) → Type 0
Holds archs prev m = (b : Text) → has_arch b archs ≡ true → lookup b m ≡ some (prev b)

abbrev grown : PackageRow → (Text → List PackageRow) → Text → List PackageRow
grown r prev b = add_if (is_listed b r) (prev b) r

has_arch_same :
    (a b : Text) (archs : List Text)
    → text_eq a b ≡ true
    → has_arch b archs ≡ true
    → has_arch a archs ≡ true
has_arch_same a b archs e h = rw ((text_eq_iff a b).0 e) h

-- the index of the packages for all architectures
select_row_all :
    (archs : List Text) (d : Distinct archs) (rows : List PackageRow)
    → (r : PackageRow) (m : Dict (List PackageRow)) (skipped : List PackageRow)
    → lookup all_text m ≡ some rows
    → lookup all_text (select_row archs r (m, skipped)).0
      ≡ some (add_if (is_listed all_text r) rows r)
unfolding select_row
select_row_all archs d rows r m skipped e = ground (
  arith,
  text_eq_iff r.architecture all_text,
  text_eq_refl all_text,
  lookup-append_at r.architecture all_text r m,
  lookup-append_at all_text all_text r m,
  lookup-append_each all_text archs r m rows d e,
  lookup-append_each all_text archs r (append_at all_text r m) (rows ++ r ∷ []) d,
)

module _ (archs : List Text) (d : Distinct archs) (prev : Text → List PackageRow) where
  select_row-Holds :
      (r : PackageRow) (m : Dict (List PackageRow)) (skipped : List PackageRow)
      → Holds archs prev m
      → Holds archs (grown r prev) (select_row archs r (m, skipped)).0
  unfolding select_row
  select_row-Holds r m skipped h b known = elim (Bool-cases (text_eq b all_text)) [
    | inl every ↦
        let same : b ≡ all_text = (text_eq_iff b all_text).0 every in
        rw same (
          select_row_all archs d (prev all_text) r m skipped
            (h all_text (subst (λ t. has_arch t archs ≡ true) same known)))
    | inr single ↦ ground (
      arith,
      h b known,
      text_eq_iff r.architecture b,
      text_eq_iff r.architecture all_text,
      text_eq_iff b all_text,
      has_arch_same r.architecture b archs,
      lookup-append_at r.architecture b r m,
      lookup-append_at all_text b r m,
      lookup-append_each b archs r m (prev b) d (h b known),
      lookup-append_each b archs r (append_at all_text r m) (prev b) d,
    )
  ]

grow_append :
    (c : Bool) (prev : List PackageRow) (r : PackageRow) (rest : List PackageRow)
    → add_if c prev r ++ rest ≡ prev ++ (if c then r ∷ rest else rest)
grow_append true prev r rest = append_assoc prev (r ∷ []) rest
grow_append false prev r rest = refl

module _ (archs : List Text) (d : Distinct archs) where
  select_rows-Holds :
      (rows : List PackageRow) (prev : Text → List PackageRow) (s : Selection)
      → Holds archs prev s.0
      → Holds archs (λ b. prev b ++ filter (is_listed b) rows) (select_rows archs rows s).0
  unfolding select_rows
  select_rows-Holds [] prev s h b known = h b known ∙ ap some (sym (append-nil (prev b)))
  select_rows-Holds (r ∷ rows) prev (m, skipped) h b known =
      select_rows-Holds rows (grown r prev) (select_row archs r (m, skipped))
        (select_row-Holds archs d prev r m skipped h) b known
      ∙ ap some (grow_append (is_listed b r) (prev b) r (filter (is_listed b) rows))

lookup-empty_by_arch :
    (archs : List Text) (b : Text)
    → has_arch b archs ≡ true
    → lookup b (empty_by_arch archs) ≡ some []
unfolding empty_by_arch
lookup-empty_by_arch [] b known = cc
lookup-empty_by_arch (a ∷ archs) b known = ground (
  arith,
  text_eq_iff a b,
  text_eq_iff b a,
  lookup-insert a b [] (empty_by_arch archs),
  lookup-empty_by_arch archs b,
)

select_rows-lists :
    (archs : List Text) (rows : List PackageRow) (a : Text)
    → Distinct archs
    → has_arch a archs ≡ true
    → lookup a (select_rows archs rows (empty_by_arch archs, [])).0
      ≡ some (filter (is_listed a) rows)
select_rows-lists archs rows a d known =
    select_rows-Holds archs d rows (λ b. []) (empty_by_arch archs, []) (lookup-empty_by_arch archs)
      a known

-- With architectures that are all different, the rows that `rebuild_dists` chooses for each of
-- them, which the rendering of its index sorts later, are exactly the active rows that are for
-- it or for all architectures, in the order in which they were given.
pub rebuild_dists-lists :
    (packages : List PackageRow) (cfg : Config) (inode : ℕ) (a : Text)
    → Distinct cfg.architectures
    → has_arch a cfg.architectures ≡ true
    → lookup a (rebuild_dists packages cfg inode).1.by_arch ≡ some (filter (is_listed a) packages)
unfolding rebuild_dists
rebuild_dists-lists packages cfg inode a d known =
    select_rows-lists cfg.architectures packages a d known
