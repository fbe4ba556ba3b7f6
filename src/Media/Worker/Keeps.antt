-- ===== src/Media/Worker/Keeps.antt =====
-- What a job keeps of every row: all of it but the paths of its compat copy and its thumbnail.
use loku.Base.{Bool, true, false, Option, none, some, ◌≡◌, refl, ap, ◌∙◌, map_option, if◌then◌else◌}
use loku.Base.Text.{Text}
use loku.Index.Table.{Key, key_eq, lookup}
use loku.Index.Record.{Row, VideoRecord, row_key, record_key}
use loku.Index.Database.{Database}
use loku.Index.Writes.{record_failure_tx}
use loku.Media.Compat.{CompatPlan}
use loku.Media.Worker.{Runner, JobError}
use loku.Media.Worker.Progress.{lookup-compat_after, lookup-thumb_after}
use loku.Media.Worker.Outcomes.{
  Effect, compat_failed, compat_alone, compat_and_thumb, compat_no_thumb, thumb_made, thumb_failed,
  thumb_there, failure_after, compat_after, thumb_after,
}

-- A row without the paths of its sidecars.
abbrev pub bare : Row → Row
bare row = record row { compat_rel_path = none; thumb_rel_path = none }

abbrev pub bare_at : Key → Database → Option Row
bare_at k db = map_option bare (lookup row_key k db.videos)

bare_update :
    (f : Row → Row) (b : Bool) (old : Option Row)
    → ((row : Row) → bare (f row) ≡ bare row)
    → map_option bare (if b then map_option f old else old) ≡ map_option bare old
bare_update f false old same = refl
bare_update f true none same = refl
bare_update f true (some row) same = ap some (same row)

module _ (runner : Runner) (r : VideoRecord) (k : Key) where
  bare-compat_after :
      (compat : Text) (db : Database) → bare_at k (compat_after r compat db) ≡ bare_at k db
  bare-compat_after compat db =
      ap (map_option bare) (lookup-compat_after r compat db k)
      ∙ bare_update (λ row. record row { compat_rel_path = some compat }) (key_eq (record_key r) k)
          (lookup row_key k db.videos) (λ row. refl)

  bare-thumb_after :
      (thumb : Text) (db : Database) → bare_at k (thumb_after r thumb db) ≡ bare_at k db
  bare-thumb_after thumb db =
      ap (map_option bare) (lookup-thumb_after r thumb db k)
      ∙ bare_update (λ row. record row { thumb_rel_path = some thumb }) (key_eq (record_key r) k)
          (lookup row_key k db.videos) (λ row. refl)

  bare-failure_after :
      (error : JobError) (db : Database)
      → bare_at k (failure_after runner r error db) ≡ bare_at k db
  unfolding record_failure_tx
  bare-failure_after error db = refl

  pub bare-Effect :
      (plan : Option CompatPlan) (db db' : Database)
      → Effect runner r db db' plan
      → bare_at k db' ≡ bare_at k db
  bare-Effect plan db db' (compat_failed error e) = ap (bare_at k) e ∙ bare-failure_after error db
  bare-Effect plan db db' (compat_alone compat e) = ap (bare_at k) e ∙ bare-compat_after compat db
  bare-Effect plan db db' (compat_and_thumb compat thumb e) =
      ap (bare_at k) e
      ∙ bare-thumb_after thumb (compat_after r compat db)
      ∙ bare-compat_after compat db
  bare-Effect plan db db' (compat_no_thumb compat error e) =
      ap (bare_at k) e
      ∙ bare-failure_after error (compat_after r compat db)
      ∙ bare-compat_after compat db
  bare-Effect plan db db' (thumb_made thumb e) = ap (bare_at k) e ∙ bare-thumb_after thumb db
  bare-Effect plan db db' (thumb_failed error e) = ap (bare_at k) e ∙ bare-failure_after error db
  bare-Effect plan db db' (thumb_there h e) = ap (bare_at k) e
