-- ===== src/Scan/Refines.antt =====
-- What the reconciled steps of a scan and its sweep leave of each row.
use loku.Base.{
  Bool, true, false, Option, none, some, List, [], ◌∷◌, ◌≡◌, ◌≢◌, refl, sym, ap, ◌∙◌, arith, All,
  ◌⊎◌, inl, inr, map_option, Option-cases, Bool-cases,
}
use mathlib.Core.Path.{subst}
use loku.Base.Every.{All-imp}
use loku.Base.Text.{Text, text_eq, text_eq_iff}
use loku.Base.Int.{ℤ}
use loku.Base.Paths.Texts.{parent_text}
use loku.Index.Table.{Key, lookup, unless, IsUnique, key-lookup}
use loku.Index.Record.{Row, VideoRecord, row_key, record_key, excluded, on_conflict}
use loku.Index.Database.{Database}
use loku.Index.Writes.{reconcile_tx, predates, in_directory}
use loku.Index.Writes.Reconcile.{stored, row_after, reconcile-IsUnique}
use loku.Scan.Steps.{
  Step, IsStep, AreSteps, IsPlacedAt, seen_here, seen_later, reconcile_steps, seen, found-parent,
  found-library, row_at, row_of_step, other_step, other_steps, stored-IsPlacedAt,
}

-- A step of another directory has no record of the key.
pub seen_of_others :
    (library : Text) (k : Key) (steps : List Step)
    → AreSteps library steps
    → All (λ (s : Step). s.parent ≢ parent_text k.name) steps
    → seen k steps ≡ none
unfolding seen
seen_of_others library k [] h others = refl
seen_of_others library k (s ∷ steps) (h, apart, hs) (other, others) =
    elim (Option-cases (lookup record_key k s.records)) [
      | inl absent ↦ seen_later k s steps absent ∙ seen_of_others library k steps hs others
      | inr (r, here) ↦ absurd (other (found-parent library s k r h here).0)
    ]

module _ (library : Text) (generation : ℤ) (k : Key) where
  -- What a key's row may be after some steps: its record's, and otherwise as it was, or gone.
  abbrev Outcome : Option Row → Option VideoRecord → Option Row → Type 0
  Outcome old none now = (now ≡ none) ⊎ (now ≡ old)
  Outcome old (some r) now = now ≡ some (stored old r generation)

  at_rest :
      (s : Step) (steps : List Step)
      → s.parent ≡ parent_text k.name
      → All (λ (t : Step). s.parent ≢ t.parent) steps
      → All (λ (t : Step). t.parent ≢ parent_text k.name) steps
  at_rest s steps e apart = All-imp _ _ (λ t other e'. other (e ∙ sym e')) steps apart

  unless_cases :
      (p : Row → Bool) (old : Option Row)
      → (unless row_key p old ≡ none) ⊎ (unless row_key p old ≡ old)
  unless_cases p none = inl refl
  unless_cases p (some row) = ground arith

  placed_unless :
      (p : Row → Bool) (old now : Option Row)
      → now ≡ unless row_key p old
      → IsPlacedAt k old
      → IsPlacedAt k now
  placed_unless p none now e placed row h = cc
  placed_unless p (some x) now e placed row h = ground (arith, placed row)

  -- The step that has the record: no later one touches the row.
  outcome_here :
      (s : Step) (steps : List Step) (db : Database) (r : VideoRecord)
      → AreSteps library (s ∷ steps)
      → IsUnique row_key db.videos
      → lookup record_key k s.records ≡ some r
      → row_at library generation k (
          reconcile_steps library generation steps
            (reconcile_tx library s.parent s.records generation db).1)
        ≡ some (stored (row_at library generation k db) r generation)
  outcome_here s steps db r (h, apart, hs) u here =
      let (above, placed, _) = found-parent library s k r h here in
      let now =
        row_of_step library generation k s db h u
        ∙ ap
            (λ found.
              row_after found generation (row_at library generation k db)
                (unless row_key (in_directory library s.parent) (row_at library generation k db)))
            here in
      other_steps library generation k steps _ hs
        (reconcile-IsUnique library s.parent s.records generation db u)
        (λ row e.
          stored-IsPlacedAt library generation k (row_at library generation k db) r placed row
            (sym now ∙ e))
        (at_rest s steps above apart)
      ∙ now

  -- The steps after one that has no record of the key, in its directory.
  outcome_gone :
      (s : Step) (steps : List Step) (db : Database)
      → AreSteps library (s ∷ steps)
      → IsUnique row_key db.videos
      → IsPlacedAt k (row_at library generation k db)
      → lookup record_key k s.records ≡ none
      → s.parent ≡ parent_text k.name
      → Outcome (row_at library generation k db) (seen k steps) (
          row_at library generation k (
            reconcile_steps library generation steps
              (reconcile_tx library s.parent s.records generation db).1))
  outcome_gone s steps db (h, apart, hs) u placed absent above =
      let others = at_rest s steps above apart in
      let now =
        row_of_step library generation k s db h u
        ∙ ap
            (λ found.
              row_after found generation (row_at library generation k db)
                (unless row_key (in_directory library s.parent) (row_at library generation k db)))
            absent in
      rw
        (
          seen_of_others library k steps hs others,
          other_steps library generation k steps
              (reconcile_tx library s.parent s.records generation db).1 hs
              (reconcile-IsUnique library s.parent s.records generation db u)
              (placed_unless (in_directory library s.parent) (row_at library generation k db) _ now
                placed)
              others,
          now,
        )
        (unless_cases (in_directory library s.parent) (row_at library generation k db))

  pub outcome_of_steps :
      (steps : List Step) (db : Database)
      → AreSteps library steps
      → IsUnique row_key db.videos
      → IsPlacedAt k (row_at library generation k db)
      → Outcome
          (row_at library generation k db)
          (seen k steps)
          (row_at library generation k (reconcile_steps library generation steps db))
  unfolding reconcile_steps seen
  outcome_of_steps [] db h u placed = inr refl
  outcome_of_steps (s ∷ steps) db (h, apart, hs) u placed =
      elim (Option-cases (lookup record_key k s.records)) [
        | inr (r, here) ↦
            rw (seen_here k s steps r here) (outcome_here s steps db r (h, apart, hs) u here)
        | inl absent ↦
            rw (seen_later k s steps absent)
              (elim (Bool-cases (text_eq s.parent (parent_text k.name))) [
                | inl e ↦
                    outcome_gone s steps db (h, apart, hs) u placed absent
                      ((text_eq_iff s.parent (parent_text k.name)).0 e)
                | inr e ↦
                    let same =
                      other_step library generation k s db h u placed
                        (λ e'. ground (arith, text_eq_iff s.parent (parent_text k.name))) in
                    subst
                      (λ old. Outcome old (seen k steps) (
                        row_at library generation k (
                          reconcile_steps library generation steps
                            (reconcile_tx library s.parent s.records generation db).1)))
                      same
                      (outcome_of_steps steps
                        (reconcile_tx library s.parent s.records generation db).1 hs
                        (reconcile-IsUnique library s.parent s.records generation db u)
                        (λ row e''. placed row (sym same ∙ e'')))
              ])
      ]

  unless_foreign :
      (parent : Text) (old : Option Row)
      → ((row : Row) → old ≡ some row → row_key row ≡ k)
      → k.library ≢ library
      → unless row_key (in_directory library parent) old ≡ old
  unless_foreign parent none keyed foreign = refl
  unless_foreign parent (some row) keyed foreign =
      ground (arith, text_eq_iff row.library library, keyed row refl)

  in_library :
      (s : Step) (r : VideoRecord)
      → IsStep library s
      → lookup record_key k s.records ≡ some r
      → k.library ≡ library
  in_library s r h here =
      sym (ap (λ (j : Key). j.library) (key-lookup record_key k s.records r here))
      ∙ found-library library s k r h here

  -- The row of a key of another library is as it was.
  pub foreign_steps :
      (steps : List Step) (db : Database)
      → AreSteps library steps
      → IsUnique row_key db.videos
      → k.library ≢ library
      → row_at library generation k (reconcile_steps library generation steps db)
        ≡ row_at library generation k db
  unfolding reconcile_steps
  foreign_steps [] db h u foreign = refl
  foreign_steps (s ∷ steps) db (h, apart, hs) u foreign =
      foreign_steps steps (reconcile_tx library s.parent s.records generation db).1 hs
        (reconcile-IsUnique library s.parent s.records generation db u) foreign
      ∙ row_of_step library generation k s db h u
      ∙ (elim (Option-cases (lookup record_key k s.records)) [
        | inl absent ↦ rw absent (
            unless_foreign s.parent (row_at library generation k db)
              (λ row e. key-lookup row_key k db.videos row e) foreign)
        | inr (r, here) ↦ absurd (foreign (in_library s r h here))
      ])

  pub foreign_sweep :
      (old : Option Row)
      → ((row : Row) → old ≡ some row → row_key row ≡ k)
      → k.library ≢ library
      → unless row_key (predates library generation) old ≡ old
  foreign_sweep none keyed foreign = refl
  foreign_sweep (some row) keyed foreign =
      ground (arith, text_eq_iff row.library library, keyed row refl)

  stored-last_seen :
      (old : Option Row) (r : VideoRecord) → (stored old r generation).last_seen ≡ generation
  unfolding excluded on_conflict
  stored-last_seen none r = refl
  stored-last_seen (some row) r = refl

  fresh : (row : Row) → row.last_seen ≡ generation → predates library generation row ≡ false
  fresh row e = rw e (ground arith)

  -- The sweep takes what no step had, where its stamp is older.
  pub swept :
      (old now : Option Row) (found : Option VideoRecord)
      → Outcome old found now
      → ((row : Row) → old ≡ some row → predates library generation row ≡ true)
      → unless row_key (predates library generation) now
        ≡ map_option (λ r. stored old r generation) found
  swept old now (some r) e stale =
      rw (e, fresh (stored old r generation) (stored-last_seen old r)) refl
  swept old now none (inl e) stale = rw e refl
  swept none now none (inr e) stale = rw e refl
  swept (some row) now none (inr e) stale = rw (e, stale row refl) refl
