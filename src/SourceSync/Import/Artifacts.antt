-- ===== src/SourceSync/Import/Artifacts.antt =====
-- source_sync.py: the row of an artifact when its import begins.
use prv_apt_mirror.Prelude.{
  ℕ, ◌≡◌, ◌≢◌, sym, ◌∙◌, subst, not, refl, Text, Bool, true, false, List, [], ◌∷◌, ◌++◌, Option,
  none, some, arith, ==_refl, text_eq_refl, ◌&&◌, next_id, if◌then◌else◌,
}
use mathlib.Core.Option.{some-injective}
use prv_apt_mirror.Db.Sources.{
  SourceRow, SourceStatus, never, queued, running, success, error, Artifact, ArtifactStatus,
  pending, imported, skipped, rejected, conflict, failed, is_artifact, is_queued, artifact_row,
  update_artifact,
}
use prv_apt_mirror.SourceSync.Import.{
  RemoteAsset, begin_artifact, begin_with, is_final, is_retryable, is_settled, new_artifact,
  restart_artifact,
}

artifact_row-update :
    (i : ℕ) (e : Text) (f : Artifact → Artifact) (rows : List Artifact) (a : Artifact)
    → ((b : Artifact) → ((f b).source_id ≡ b.source_id) × ((f b).external_id ≡ b.external_id))
    → artifact_row rows i e ≡ some a
    → artifact_row (update_artifact a.id f rows) i e ≡ some (f a)
unfolding artifact_row update_artifact
artifact_row-update i e f [] a keeps h = cc
artifact_row-update i e f (b ∷ rows) a keeps h =
    ground (arith, ==_refl a.id, keeps b, artifact_row-update i e f rows a keeps)

artifact_row-append :
    (i : ℕ) (e : Text) (rows : List Artifact) (n : Artifact)
    → artifact_row rows i e ≡ none
    → is_artifact i e n ≡ true
    → artifact_row (rows ++ n ∷ []) i e ≡ some n
unfolding artifact_row
artifact_row-append i e [] n out own = ground arith
artifact_row-append i e (b ∷ rows) n out own = ground (arith, artifact_row-append i e rows n)

-- With which status a row may begin again: never once it is imported or skipped, and after a
-- refusal or a conflict only when a check was asked for.
abbrev pub MayBegin : SourceStatus → ArtifactStatus → Type 0
MayBegin st imported = ⊥
MayBegin st skipped = ⊥
MayBegin st rejected = st ≡ queued
MayBegin st conflict = st ≡ queued
MayBegin st _ = Unit

queued_only : (st : SourceStatus) → is_queued st ≡ true → st ≡ queued
queued_only never e = cc
queued_only queued e = refl
queued_only running e = cc
queued_only success e = cc
queued_only error e = cc

may_begin :
    (st : SourceStatus) (a : ArtifactStatus)
    → (is_final a && not (is_queued st && is_retryable a)) ≡ false
    → MayBegin st a
may_begin st pending e = tt
may_begin st failed e = tt
may_begin st imported e = ground arith
may_begin st skipped e = ground arith
may_begin st rejected e = queued_only st (ground arith)
may_begin st conflict e = queued_only st (ground arith)

waits : (st : SourceStatus) → not (is_queued st && true) ≡ true → st ≢ queued
waits never e = λ q. cc
waits queued e = λ q. cc
waits running e = λ q. cc
waits success e = λ q. cc
waits error e = λ q. cc

may_not_begin :
    (st : SourceStatus) (a : ArtifactStatus)
    → (is_final a && not (is_queued st && is_retryable a)) ≡ true
    → ¬ MayBegin st a
may_not_begin st pending e = λ m. cc
may_not_begin st failed e = λ m. cc
may_not_begin st imported e = λ m. m
may_not_begin st skipped e = λ m. m
may_not_begin st rejected e = waits st e
may_not_begin st conflict e = waits st e

-- The row of the asset begins: it is pending, under the id that is returned, for this address. If
-- there was a row before, it has this id, and its status allowed to begin again.
pub record IsPending (source : SourceRow) (asset : RemoteAsset) (i : ℕ)
    (before after : List Artifact) : Type 0 where
  pub row : Artifact
  pub found : artifact_row after source.id asset.external_id ≡ some row
  pub id : row.id ≡ i
  pub status : row.status ≡ pending
  pub remote_url : row.remote_url ≡ asset.url
  pub old :
      (a : Artifact)
      → artifact_row before source.id asset.external_id ≡ some a
      → (a.id ≡ i) × MayBegin source.last_status a.status

-- The row of the asset is left: it has an outcome with which it does not begin again.
pub record IsLeft (source : SourceRow) (asset : RemoteAsset) (i : ℕ) (st : ArtifactStatus)
    (before after : List Artifact) : Type 0 where
  pub row : Artifact
  pub found : artifact_row before source.id asset.external_id ≡ some row
  pub id : row.id ≡ i
  pub status : row.status ≡ st
  pub settled : ¬ MayBegin source.last_status st
  pub same : after ≡ before

abbrev pub Begun :
    SourceRow → RemoteAsset → List Artifact → (ℕ × Option ArtifactStatus) × List Artifact → Type 0
Begun source asset before ((i, none), after) = IsPending source asset i before after
Begun source asset before ((i, some st), after) = IsLeft source asset i st before after

module _ (now : ℕ) (source : SourceRow) (asset : RemoteAsset) (rows : List Artifact) where
  found-Begun :
      (a : Artifact) (b : Bool)
      → artifact_row rows source.id asset.external_id ≡ some a
      → is_settled source a ≡ b
      → Begun source asset rows (
          if b
          then ((a.id, some a.status), rows)
          else ((a.id, none), update_artifact a.id (restart_artifact asset) rows))
  found-Begun a true e s = record {
    row = a;
    found = e;
    id = refl;
    status = refl;
    settled = may_not_begin source.last_status a.status s;
    same = refl;
  }
  found-Begun a false e s = record {
    row = restart_artifact asset a;
    found =
        artifact_row-update source.id asset.external_id (restart_artifact asset) rows a
          (λ b. (refl, refl)) e;
    id = refl;
    status = refl;
    remote_url = refl;
    old = λ b f.
        subst (λ c. (c.id ≡ a.id) × MayBegin source.last_status c.status)
          (some-injective a b (sym e ∙ f)) (refl, may_begin source.last_status a.status s);
  }

  begin_with-Begun :
      (o : Option Artifact)
      → artifact_row rows source.id asset.external_id ≡ o
      → Begun source asset rows (begin_with now source asset o rows)
  begin_with-Begun none e =
      let n = new_artifact (next_id (λ a. a.id) rows) source.id asset now in
      record {
        row = n;
        found =
            artifact_row-append source.id asset.external_id rows n e
              (ground (arith, ==_refl source.id, text_eq_refl asset.external_id));
        id = refl;
        status = refl;
        remote_url = refl;
        old = λ a f. cc;
      }
  begin_with-Begun (some a) e = found-Begun a (is_settled source a) e refl

  -- Beginning the import of an asset leaves its row pending, under the id that is returned and
  -- with the address of the asset. The row is new, or it has the id of the row before, which was
  -- neither imported nor skipped, and was refused or in conflict only if a check was asked for.
  -- Or all rows are left as they were, and then the row of the asset is imported or skipped, or
  -- it is refused or in conflict and no check was asked for.
  pub begin_artifact-Begun : Begun source asset rows (begin_artifact now source asset rows)
  unfolding begin_artifact
  begin_artifact-Begun = begin_with-Begun (artifact_row rows source.id asset.external_id) refl
