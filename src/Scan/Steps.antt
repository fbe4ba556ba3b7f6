-- ===== src/Scan/Steps.antt =====
-- A scan as a sequence of directories with the records that were read of them, reconciled one
-- after the other and then swept.
use loku.Base.{
  Option, none, some, List, [], ◌∷◌, ◌≡◌, ◌≢◌, refl, sym, ap, ◌∙◌, arith, All, inl, inr,
  Option-cases,
}
use loku.Base.Text.{Text, text_eq_iff}
use loku.Base.Int.{ℤ}
use loku.Base.Paths.Texts.{parent_text}
use loku.Index.Table.{Key, key_eq_iff, key_eq_refl, lookup, unless, IsUnique, key-lookup}
use loku.Index.Record.{Row, VideoRecord, row_key, record_key, excluded, on_conflict}
use loku.Index.Database.{Database}
use loku.Index.Writes.{reconcile_tx, in_directory}
use loku.Index.Writes.Reconcile.{
  stored, row_after, AreFrom, lookup-reconcile, reconcile-IsUnique, record_of_lookup,
}

pub record Step : Type 0 where
  pub parent : Text
  pub records : List VideoRecord

unfoldable pub reconcile_steps : Text → ℤ → List Step → Database → Database
reconcile_steps library generation [] db = db
reconcile_steps library generation (s ∷ steps) db =
    reconcile_steps library generation steps
      (reconcile_tx library s.parent s.records generation db).1

-- The record of a key among the steps.
unfoldable pub seen : Key → List Step → Option VideoRecord
seen k [] = none
seen k (s ∷ steps) = elim (lookup record_key k s.records) [ none ↦ seen k steps | some r ↦ some r ]

pub seen_here :
    (k : Key) (s : Step) (steps : List Step) (r : VideoRecord)
    → lookup record_key k s.records ≡ some r
    → seen k (s ∷ steps) ≡ some r
unfolding seen
seen_here k s steps r h = ground arith

pub seen_later :
    (k : Key) (s : Step) (steps : List Step)
    → lookup record_key k s.records ≡ none
    → seen k (s ∷ steps) ≡ seen k steps
unfolding seen
seen_later k s steps h = ground arith

-- Each step has the records of one directory, no two of one path, and their paths are below it.
abbrev pub IsStep : Text → Step → Type 0
IsStep library s =
    AreFrom library s.parent s.records
    × IsUnique record_key s.records
    × All (λ r. r.parent ≡ parent_text r.rel_path) s.records

-- No two steps are of one directory.
abbrev pub AreSteps : Text → List Step → Type 0
AreSteps library [] = Unit
AreSteps library (s ∷ steps) =
    IsStep library s × All (λ (t : Step). s.parent ≢ t.parent) steps × AreSteps library steps

pub All-lookup :
    {R : Type 0} (key : R → Key) (P : R → Type 0) (k : Key) (t : List R) (r : R)
    → All P t
    → lookup key k t ≡ some r
    → P r
unfolding lookup
All-lookup key P k [] r h e = cc
All-lookup key P k (s ∷ t) r h e = ground (arith, All-lookup key P k t r)

pub reconcile_steps-IsUnique :
    (library : Text) (generation : ℤ) (steps : List Step) (db : Database)
    → IsUnique row_key db.videos
    → IsUnique row_key (reconcile_steps library generation steps db).videos
unfolding reconcile_steps
reconcile_steps-IsUnique library generation [] db u = u
reconcile_steps-IsUnique library generation (s ∷ steps) db u =
    reconcile_steps-IsUnique library generation steps _
      (reconcile-IsUnique library s.parent s.records generation db u)

-- The directory of a record's path is that of the step that has it.
pub found-parent :
    (library : Text) (s : Step) (k : Key) (r : VideoRecord)
    → IsStep library s
    → lookup record_key k s.records ≡ some r
    → (s.parent ≡ parent_text k.name) × (r.parent ≡ parent_text k.name) × (r.library ≡ library)
found-parent library s k r (from, distinct, placed) found =
    let (in_library, in_parent) = record_of_lookup library s.parent k s.records r from found in
    let at =
      All-lookup record_key (λ r. r.parent ≡ parent_text r.rel_path) k s.records r placed found
      ∙ ap (λ (j : Key). parent_text j.name) (key-lookup record_key k s.records r found) in
    (sym in_parent ∙ at, at, in_library)

pub found-library :
    (library : Text) (s : Step) (k : Key) (r : VideoRecord)
    → IsStep library s
    → lookup record_key k s.records ≡ some r
    → r.library ≡ library
found-library library s k r h found = let (_, _, e) = found-parent library s k r h found in e

pub seen-parent :
    (library : Text) (steps : List Step) (k : Key) (r : VideoRecord)
    → AreSteps library steps
    → seen k steps ≡ some r
    → r.parent ≡ parent_text k.name
unfolding seen
seen-parent library [] k r h e = cc
seen-parent library (s ∷ steps) k r (h, apart, hs) e =
    elim (Option-cases (lookup record_key k s.records)) [
      | inl none_here ↦ seen-parent library steps k r hs (ground arith)
      | inr (x, here) ↦
          let (_, at, _) = found-parent library s k x h here in
          let same : some x ≡ some r = sym (seen_here k s steps x here) ∙ e in ground (arith, at)
    ]

pub reconcile_steps-meta :
    (library : Text) (generation : ℤ) (steps : List Step) (db : Database)
    → (reconcile_steps library generation steps db).meta ≡ db.meta
unfolding reconcile_steps reconcile_tx
reconcile_steps-meta library generation [] db = refl
reconcile_steps-meta library generation (s ∷ steps) db =
    reconcile_steps-meta library generation steps
      (reconcile_tx library s.parent s.records generation db).1

-- What every row that can be looked up is, every row is.
pub All-of_lookup :
    {R : Type 0} (key : R → Key) (P : R → Type 0) (t : List R)
    → IsUnique key t
    → ((k : Key) (r : R) → lookup key k t ≡ some r → P r)
    → All P t
unfolding lookup
All-of_lookup key P [] u h = tt
All-of_lookup key P (r ∷ t) u h = (
  h (key r) r (rw (key_eq_refl (key r)) refl),
  All-of_lookup key P t u.1 (λ k s found. h k s (ground (arith, key_eq_iff (key r) k))),
)

-- The row at a key is of the directory that the key's path names.
abbrev pub IsPlacedAt : Key → Option Row → Type 0
IsPlacedAt k old = (row : Row) → old ≡ some row → row.parent ≡ parent_text k.name

module _ (library : Text) (generation : ℤ) (k : Key) where
  abbrev pub row_at : Database → Option Row
  row_at db = lookup row_key k db.videos

  pub stored-IsPlacedAt :
      (old : Option Row) (r : VideoRecord)
      → r.parent ≡ parent_text k.name
      → IsPlacedAt k (some (stored old r generation))
  unfolding excluded on_conflict
  stored-IsPlacedAt none r h row e = ground arith
  stored-IsPlacedAt (some x) r h row e = ground arith

  unless-other :
      (parent : Text) (old : Option Row)
      → IsPlacedAt k old
      → parent ≢ parent_text k.name
      → unless row_key (in_directory library parent) old ≡ old
  unless-other parent none placed other = refl
  unless-other parent (some row) placed other =
      ground (arith, text_eq_iff row.parent parent, placed row refl)

  pub row_of_step :
      (s : Step) (db : Database)
      → IsStep library s
      → IsUnique row_key db.videos
      → row_at (reconcile_tx library s.parent s.records generation db).1
        ≡ row_after
            (lookup record_key k s.records)
            generation
            (row_at db)
            (unless row_key (in_directory library s.parent) (row_at db))
  row_of_step s db (from, distinct, placed) u =
      lookup-reconcile library s.parent s.records generation db k from distinct u

  -- A step whose directory is not that of the key's path leaves the row.
  pub other_step :
      (s : Step) (db : Database)
      → IsStep library s
      → IsUnique row_key db.videos
      → IsPlacedAt k (row_at db)
      → s.parent ≢ parent_text k.name
      → row_at (reconcile_tx library s.parent s.records generation db).1 ≡ row_at db
  other_step s db h u placed other =
      row_of_step s db h u ∙ (elim (Option-cases (lookup record_key k s.records)) [
        | inl absent ↦ rw absent (unless-other s.parent (row_at db) placed other)
        | inr (r, here) ↦ absurd (other (found-parent library s k r h here).0)
      ])

  pub other_steps :
      (steps : List Step) (db : Database)
      → AreSteps library steps
      → IsUnique row_key db.videos
      → IsPlacedAt k (row_at db)
      → All (λ (s : Step). s.parent ≢ parent_text k.name) steps
      → row_at (reconcile_steps library generation steps db) ≡ row_at db
  unfolding reconcile_steps
  other_steps [] db h u placed others = refl
  other_steps (s ∷ steps) db (h, apart, hs) u placed (other, others) =
      let same = other_step s db h u placed other in
      other_steps steps (reconcile_tx library s.parent s.records generation db).1 hs
        (reconcile-IsUnique library s.parent s.records generation db u)
        (λ row e. placed row (sym same ∙ e)) others
      ∙ same
