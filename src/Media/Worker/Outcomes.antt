-- ===== src/Media/Worker/Outcomes.antt =====
-- What a job may do to the tables: a compat copy or a thumbnail noted, a failure recorded.
use mathlib.Core.Path.{subst}
use loku.Base.{Option, none, some, ◌≡◌, ◌≢◌, refl, sym}
use loku.Base.Text.{Text}
use loku.Index.Table.{IsUnique, update-IsUnique}
use loku.Index.Record.{VideoRecord, row_key, record_key}
use loku.Index.Database.{Database}
use loku.Index.Writes.{set_compat_tx, set_thumb_tx, record_failure_tx}
use loku.Media.Compat.{CompatPlan}
use loku.Media.Worker.{Runner, JobError, error_text}

abbrev pub failure_after : Runner → VideoRecord → JobError → Database → Database
failure_after runner r error db =
    (record_failure_tx r.library r.rel_path r.size r.mtime (error_text error) runner.now db).1

abbrev pub compat_after : VideoRecord → Text → Database → Database
compat_after r compat db = (set_compat_tx r.library r.rel_path compat db).1

abbrev pub thumb_after : VideoRecord → Text → Database → Database
thumb_after r thumb db = (set_thumb_tx r.library r.rel_path thumb db).1

-- What a job may do to the tables.
pub data Effect (runner : Runner) (r : VideoRecord) (db db' : Database)
    : Option CompatPlan → Type 0 where
  compat_failed :
      {plan : CompatPlan} (error : JobError)
      → db' ≡ failure_after runner r error db
      → Effect runner r db db' (some plan)
  compat_alone :
      {plan : CompatPlan} (compat : Text)
      → db' ≡ compat_after r compat db
      → Effect runner r db db' (some plan)
  compat_and_thumb :
      {plan : CompatPlan} (compat thumb : Text)
      → db' ≡ thumb_after r thumb (compat_after r compat db)
      → Effect runner r db db' (some plan)
  compat_no_thumb :
      {plan : CompatPlan} (compat : Text) (error : JobError)
      → db' ≡ failure_after runner r error (compat_after r compat db)
      → Effect runner r db db' (some plan)
  thumb_made : (thumb : Text) → db' ≡ thumb_after r thumb db → Effect runner r db db' none
  thumb_failed :
      (error : JobError) → db' ≡ failure_after runner r error db → Effect runner r db db' none
  thumb_there : r.thumb_rel_path ≢ none → db' ≡ db → Effect runner r db db' none

-- The rows keep their keys apart.
abbrev KeysApart : Database → Type 0
KeysApart db = IsUnique row_key db.videos

compat_apart_keys :
    (r : VideoRecord) (compat : Text) (db : Database)
    → KeysApart db
    → KeysApart (compat_after r compat db)
unfolding set_compat_tx
compat_apart_keys r compat db u = update-IsUnique row_key _ (λ row. refl) (record_key r) db.videos u

thumb_apart_keys :
    (r : VideoRecord) (thumb : Text) (db : Database)
    → KeysApart db
    → KeysApart (thumb_after r thumb db)
unfolding set_thumb_tx
thumb_apart_keys r thumb db u = update-IsUnique row_key _ (λ row. refl) (record_key r) db.videos u

failure_apart_keys :
    (runner : Runner) (r : VideoRecord) (error : JobError) (db : Database)
    → KeysApart db
    → KeysApart (failure_after runner r error db)
unfolding record_failure_tx
failure_apart_keys runner r error db u = u

-- A job gives no two rows one key.
pub Effect-IsUnique :
    (runner : Runner) (r : VideoRecord) (plan : Option CompatPlan) (db db' : Database)
    → Effect runner r db db' plan
    → KeysApart db
    → KeysApart db'
Effect-IsUnique runner r plan db db' (compat_failed error e) u =
    subst KeysApart (sym e) (failure_apart_keys runner r error db u)
Effect-IsUnique runner r plan db db' (compat_alone compat e) u =
    subst KeysApart (sym e) (compat_apart_keys r compat db u)
Effect-IsUnique runner r plan db db' (compat_and_thumb compat thumb e) u =
    subst KeysApart (sym e) (thumb_apart_keys r thumb _ (compat_apart_keys r compat db u))
Effect-IsUnique runner r plan db db' (compat_no_thumb compat error e) u =
    subst KeysApart (sym e) (failure_apart_keys runner r error _ (compat_apart_keys r compat db u))
Effect-IsUnique runner r plan db db' (thumb_made thumb e) u =
    subst KeysApart (sym e) (thumb_apart_keys r thumb db u)
Effect-IsUnique runner r plan db db' (thumb_failed error e) u =
    subst KeysApart (sym e) (failure_apart_keys runner r error db u)
Effect-IsUnique runner r plan db db' (thumb_there h e) u = subst KeysApart (sym e) u
