-- ===== src/Media/Worker/Progress.antt =====
-- A job that the worker takes is settled: whatever ffmpeg and the file system answer, the same
-- video is not taken again while its content is the same, and no other video's turn changes.
use mathlib.Core.Path.{ap₂}
use loku.Base.{
  Bool, false, not, ◌&&◌, ◌==◌, Option, none, some, ◌≡◌, refl, ap, sym, ◌∙◌, arith, map_option,
  and_then, if◌then◌else◌, is_none, is_some,
}
use loku.Base.Text.{Text}
use loku.Index.Table.{Key, key_eq, key_eq_refl, lookup, lookup-update, lookup-upsert-replace}
use loku.Index.Record.{Row, VideoRecord, row_key, record_key, record_from_row}
use loku.Index.Database.{Database, FailureRow, failure_key}
use loku.Index.Writes.{set_compat_tx, set_thumb_tx, record_failure_tx}
use loku.Media.Compat.{CompatPlan}
use loku.Media.Worker.{Runner, JobError, work_of, error_text}
use loku.Media.Worker.Outcomes.{
  Effect, compat_failed, compat_alone, compat_and_thumb, compat_no_thumb, thumb_made, thumb_failed,
  thumb_there, failure_after, compat_after, thumb_after,
}

-- The failure that is recorded for the row's present content.
abbrev pub current : Row → Option FailureRow → Option FailureRow
current row f = and_then f λ failure.
    if (failure.size == row.size) && (failure.mtime == row.mtime) then some failure else none

abbrev pub error_of : Option FailureRow → Option Text
error_of = map_option (λ f. f.error)

-- The row is a candidate and needs work.
unfoldable pub slot_job : Option Row → Option FailureRow → Bool
slot_job none f = false
slot_job (some row) f =
    is_none row.compat_rel_path
    && not (is_none row.codec_source)
    && is_none (current row f)
    && is_some (work_of (record_from_row row (error_of (current row f))))

-- The worker would take the video of the key.
abbrev pub is_job : Database → Key → Bool
is_job db k = slot_job (lookup row_key k db.videos) (lookup failure_key k db.derivation_failures)

pub lookup-compat_after :
    (r : VideoRecord) (compat : Text) (db : Database) (k : Key)
    → lookup row_key k (compat_after r compat db).videos ≡ (
        if key_eq (record_key r) k
        then map_option
            (λ (row : Row). record row { compat_rel_path = some compat })
            (lookup row_key k db.videos)
        else lookup row_key k db.videos)
unfolding set_compat_tx
lookup-compat_after r compat db k = lookup-update row_key _ (λ row. refl) (record_key r) k db.videos

pub lookup-thumb_after :
    (r : VideoRecord) (thumb : Text) (db : Database) (k : Key)
    → lookup row_key k (thumb_after r thumb db).videos ≡ (
        if key_eq (record_key r) k
        then map_option
            (λ (row : Row). record row { thumb_rel_path = some thumb })
            (lookup row_key k db.videos)
        else lookup row_key k db.videos)
unfolding set_thumb_tx
lookup-thumb_after r thumb db k = lookup-update row_key _ (λ row. refl) (record_key r) k db.videos

-- The row that a failure makes.
abbrev failure_row : Runner → VideoRecord → JobError → FailureRow
failure_row runner r error = record {
  library = r.library;
  rel_path = r.rel_path;
  size = r.size;
  mtime = r.mtime;
  error = error_text error;
  failed_at = runner.now;
}

lookup-failure_after :
    (runner : Runner) (r : VideoRecord) (error : JobError) (db : Database) (k : Key)
    → lookup failure_key k (failure_after runner r error db).derivation_failures ≡ (
        if key_eq (record_key r) k
        then some (failure_row runner r error)
        else lookup failure_key k db.derivation_failures)
unfolding record_failure_tx
lookup-failure_after runner r error db k =
    lookup-upsert-replace failure_key k (failure_row runner r error) db.derivation_failures

module _ (runner : Runner) (r : VideoRecord) (db : Database) (k : Key) where
  compat_slot :
      (compat : Text)
      → is_job (compat_after r compat db) k
        ≡ slot_job
            (if key_eq (record_key r) k
              then map_option
                  (λ (row : Row). record row { compat_rel_path = some compat })
                  (lookup row_key k db.videos)
              else lookup row_key k db.videos)
            (lookup failure_key k db.derivation_failures)
  compat_slot compat =
      ap₂ slot_job (lookup-compat_after r compat db k) (unfold set_compat_tx in refl)

  thumb_slot :
      (thumb : Text)
      → is_job (thumb_after r thumb db) k
        ≡ slot_job
            (if key_eq (record_key r) k
              then map_option
                  (λ (row : Row). record row { thumb_rel_path = some thumb })
                  (lookup row_key k db.videos)
              else lookup row_key k db.videos)
            (lookup failure_key k db.derivation_failures)
  thumb_slot thumb = ap₂ slot_job (lookup-thumb_after r thumb db k) (unfold set_thumb_tx in refl)

  failure_slot :
      (error : JobError)
      → is_job (failure_after runner r error db) k
        ≡ slot_job (lookup row_key k db.videos) (
            if key_eq (record_key r) k
            then some (failure_row runner r error)
            else lookup failure_key k db.derivation_failures)
  failure_slot error =
      ap₂ slot_job (unfold record_failure_tx in refl) (lookup-failure_after runner r error db k)

  module _ (apart : key_eq (record_key r) k ≡ false) where
    compat_apart : (compat : Text) → is_job (compat_after r compat db) k ≡ is_job db k
    compat_apart compat = compat_slot compat ∙ rw apart

    thumb_apart : (thumb : Text) → is_job (thumb_after r thumb db) k ≡ is_job db k
    thumb_apart thumb = thumb_slot thumb ∙ rw apart

    failure_apart : (error : JobError) → is_job (failure_after runner r error db) k ≡ is_job db k
    failure_apart error = failure_slot error ∙ rw apart

-- No job changes the turn of another video.
pub other_turn :
    (runner : Runner) (r : VideoRecord) (plan : Option CompatPlan) (db db' : Database) (k : Key)
    → Effect runner r db db' plan
    → key_eq (record_key r) k ≡ false
    → is_job db' k ≡ is_job db k
other_turn runner r plan db db' k (compat_failed error e) apart =
    ap (λ d. is_job d k) e ∙ failure_apart runner r db k apart error
other_turn runner r plan db db' k (compat_alone compat e) apart =
    ap (λ d. is_job d k) e ∙ compat_apart runner r db k apart compat
other_turn runner r plan db db' k (compat_and_thumb compat thumb e) apart =
    ap (λ d. is_job d k) e
    ∙ thumb_apart runner r (compat_after r compat db) k apart thumb
    ∙ compat_apart runner r db k apart compat
other_turn runner r plan db db' k (compat_no_thumb compat error e) apart =
    ap (λ d. is_job d k) e
    ∙ failure_apart runner r (compat_after r compat db) k apart error
    ∙ compat_apart runner r db k apart compat
other_turn runner r plan db db' k (thumb_made thumb e) apart =
    ap (λ d. is_job d k) e ∙ thumb_apart runner r db k apart thumb
other_turn runner r plan db db' k (thumb_failed error e) apart =
    ap (λ d. is_job d k) e ∙ failure_apart runner r db k apart error
other_turn runner r plan db db' k (thumb_there h e) apart = ap (λ d. is_job d k) e

-- A row with a compat copy is no job.
settled_by_compat :
    (row : Option Row) (f : Option FailureRow) (compat : Text)
    → slot_job (map_option (λ (x : Row). record x { compat_rel_path = some compat }) row) f ≡ false
unfolding slot_job
settled_by_compat none f compat = refl
settled_by_compat (some row) f compat = refl

-- A row with a failure for its content is no job.
settled_by_failure :
    (row : Row) (f : FailureRow)
    → f.size ≡ row.size
    → f.mtime ≡ row.mtime
    → slot_job (some row) (some f) ≡ false
unfolding slot_job
settled_by_failure row f size mtime = ground arith

-- A row that needs a thumbnail alone is no job once it has one.
settled_by_thumb :
    (row : Row) (f : Option FailureRow) (error : Option Text) (thumb : Text)
    → work_of (record_from_row row error) ≡ some none
    → slot_job (some (record row { thumb_rel_path = some thumb })) f ≡ false
unfolding slot_job work_of record_from_row
settled_by_thumb row f error thumb h = ground arith

thumb_missing : (r : VideoRecord) → work_of r ≡ some none → r.thumb_rel_path ≡ none
unfolding work_of
thumb_missing r h = ground arith

settled_failure :
    (runner : Runner) (r : VideoRecord) (db : Database) (row : Row) (error : Option Text)
    (job_error : JobError)
    → lookup row_key (record_key r) db.videos ≡ some row
    → record_from_row row error ≡ r
    → is_job (failure_after runner r job_error db) (record_key r) ≡ false
settled_failure runner r db row error job_error there same =
    failure_slot runner r db (record_key r) job_error
    ∙ rw (key_eq_refl (record_key r), there)
        (settled_by_failure row (failure_row runner r job_error)
          (unfold record_from_row in ap (λ (x : VideoRecord). x.size) (sym same))
          (unfold record_from_row in ap (λ (x : VideoRecord). x.mtime) (sym same)))

-- What the job's own video becomes.
pub settled :
    (runner : Runner) (r : VideoRecord) (plan : Option CompatPlan) (db db' : Database) (row : Row)
    (error : Option Text)
    → Effect runner r db db' plan
    → lookup row_key (record_key r) db.videos ≡ some row
    → record_from_row row error ≡ r
    → work_of r ≡ some plan
    → is_job db' (record_key r) ≡ false
settled runner r plan db db' row error (compat_failed job_error e) there same work =
    ap (λ d. is_job d (record_key r)) e ∙ settled_failure runner r db row error job_error there same
settled runner r plan db db' row error (compat_alone compat e) there same work =
    ap (λ d. is_job d (record_key r)) e
    ∙ compat_slot runner r db (record_key r) compat
    ∙ rw (key_eq_refl (record_key r)) (settled_by_compat _ _ compat)
settled runner r plan db db' row error (compat_and_thumb compat thumb e) there same work =
    ap (λ d. is_job d (record_key r)) e
    ∙ thumb_slot runner r (compat_after r compat db) (record_key r) thumb
    ∙ rw (lookup-compat_after r compat db (record_key r), key_eq_refl (record_key r), there)
        (unfold slot_job in refl)
settled runner r plan db db' row error (compat_no_thumb compat job_error e) there same work =
    ap (λ d. is_job d (record_key r)) e
    ∙ failure_slot runner r (compat_after r compat db) (record_key r) job_error
    ∙ rw (lookup-compat_after r compat db (record_key r), key_eq_refl (record_key r), there)
        (unfold slot_job in refl)
settled runner r plan db db' row error (thumb_made thumb e) there same work =
    ap (λ d. is_job d (record_key r)) e
    ∙ thumb_slot runner r db (record_key r) thumb
    ∙ rw (key_eq_refl (record_key r), there) (settled_by_thumb row _ error thumb (rw same work))
settled runner r plan db db' row error (thumb_failed job_error e) there same work =
    ap (λ d. is_job d (record_key r)) e ∙ settled_failure runner r db row error job_error there same
settled runner r plan db db' row error (thumb_there h e) there same work =
    absurd (h (thumb_missing r work))
