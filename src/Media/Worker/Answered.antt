-- ===== src/Media/Worker/Answered.antt =====
-- How what a job writes follows from the answers of ffmpeg and of the file system.
use mathlib.Core.Path.{subst}
use loku.Base.{suc, Option, none, some, [], ◌≡◌, refl, sym, ap, if◌then◌else◌, is_none, unwrap_or}
use loku.Base.Text.{Text, codes}
use loku.Base.Paths.{FilePath, parent, join_text, sidecar_path}
use loku.Base.Paths.Texts.{file_name-child}
use loku.Index.Record.{VideoRecord}
use loku.Index.Database.{Index, Result}
use loku.Index.Writes.{set_compat, set_compat_tx, set_thumb_tx}
use loku.Index.Reliable.{IsReliable, call-ok}
use loku.Media.Compat.{CompatPlan}
use loku.Media.Ffmpeg.{DeriveError}
use loku.Media.Worker.{
  Runner, World, Job, Outcome, JobError, done, broke, sibling_rel, sibling_paths, file_name_of,
  renamed, finalize, derive_compat, extract_thumbnail, thumbnail_done, run_thumbnail, compat_done,
  run_plan, run_job,
}
use loku.Media.Worker.Disk.{Files, rename}
use loku.Media.Worker.Effects.{failure_ran}
use loku.Media.Worker.Outcomes.{compat_after}
use loku.Media.Worker.Answers.{
  sibling_rel-IsBeside, error_of, compat_error, thumb_error, sidecar_name, ThumbAnswered, there,
  made, failed, Answered, no_copy, copied, thumb_alone,
}

abbrev outcome_of : Text → Option JobError → Outcome
outcome_of name none = done name
outcome_of name (some error) = broke error

finalize-error :
    (runner : Runner) (source : FilePath) (suffix : Text) (answer : Option DeriveError × Files)
    → let (part, dest) = sibling_paths source suffix in
      (finalize runner part dest answer).0
      ≡ outcome_of
          (sidecar_name source suffix)
          (error_of dest answer.0 (rename (runner.rename_refused part dest) part dest answer.1).0)
unfolding finalize sibling_paths file_name_of
finalize-error runner source suffix (some error, files) = refl
finalize-error runner source suffix (none, files) =
    let (part, dest) = sibling_paths source suffix in
    moved (rename (runner.rename_refused part dest) part dest files)
  where
    moved :
        (answer : Option Text × Files)
        → let dest = (sibling_paths source suffix).1 in
          (renamed dest answer).0
          ≡ outcome_of (sidecar_name source suffix) (error_of dest none answer.0)
    moved (some reason, files') = refl
    moved (none, files') =
        unfold sidecar_path in
        ap (λ o. done (unwrap_or o []))
          (file_name-child (unwrap_or (parent source) []) (sidecar_name source suffix))

derive_compat-error :
    (runner : Runner) (source : FilePath) (plan : CompatPlan) (files : Files)
    → (derive_compat runner source plan files).0
      ≡ outcome_of
          (sidecar_name source (codes ".compat.mp4"))
          (compat_error runner source plan files)
unfolding derive_compat
derive_compat-error runner source plan files = finalize-error runner source (codes ".compat.mp4") _

extract_thumbnail-error :
    (runner : Runner) (source : FilePath) (r : VideoRecord) (files : Files)
    → (extract_thumbnail runner source r.duration_secs files).0
      ≡ outcome_of (sidecar_name source (codes ".jpg")) (thumb_error runner source r files)
unfolding extract_thumbnail
extract_thumbnail-error runner source r files = finalize-error runner source (codes ".jpg") _

module _ (runner : Runner) (source : FilePath) (r : VideoRecord) (w : World)
    (reliable : IsReliable w.index) where
  thumbnail_done-Answered :
      (error : Option JobError) (files' : Files)
      → r.thumb_rel_path ≡ none
      → thumb_error runner source r w.files ≡ error
      → ThumbAnswered runner source r w.files w.index.db
          (thumbnail_done runner r
            (outcome_of (sidecar_name source (codes ".jpg")) error, files')
            w).index.db
  unfolding thumbnail_done
  thumbnail_done-Answered none files' missing ended =
      let name = sidecar_name source (codes ".jpg") in
      let path = sibling_rel r.rel_path name in
      made path missing ended (sibling_rel-IsBeside r.rel_path name) (
        ap (λ (x : Result (Unit {0}) × Index). x.1.db)
          (call-ok _ (set_thumb_tx r.library r.rel_path path) w.index reliable))
  thumbnail_done-Answered (some error) files' missing ended =
      failed error missing ended
        (failure_ran runner r error (record w { files = files' }) reliable).0

  run_thumbnail-Answered :
      ThumbAnswered runner source r w.files w.index.db (run_thumbnail runner source r w).index.db
  unfolding run_thumbnail
  run_thumbnail-Answered = go r.thumb_rel_path refl
    where
      go :
          (o : Option Text)
          → r.thumb_rel_path ≡ o
          → ThumbAnswered runner source r w.files w.index.db
              (if is_none o
                then thumbnail_done runner r
                    (extract_thumbnail runner source r.duration_secs w.files)
                    w
                else w).index.db
      go (some path) e = there (λ absent. cc) refl
      go none e =
          let files' = (extract_thumbnail runner source r.duration_secs w.files).1 in
          subst
            (λ outcome.
              ThumbAnswered runner source r w.files w.index.db
                (thumbnail_done runner r (outcome, files') w).index.db)
            (sym (extract_thumbnail-error runner source r w.files))
            (thumbnail_done-Answered (thumb_error runner source r w.files) files' e refl)

module _ (runner : Runner) (source : FilePath) (r : VideoRecord) (plan : CompatPlan) (w : World)
    (reliable : IsReliable w.index) where
  -- The state between the two halves of a job.
  abbrev copied_world : Text → World
  copied_world path = record w {
    files = (derive_compat runner source plan w.files).1;
    index = (set_compat r.library r.rel_path path w.index).1;
  }

  copied_rows :
      (path : Text)
      → (set_compat r.library r.rel_path path w.index).1
        ≡ record w.index { db = compat_after r path w.index.db; calls = suc w.index.calls }
  copied_rows path =
      ap (λ (x : Result (Unit {0}) × Index). x.1)
        (call-ok (codes "recording a compat copy") (set_compat_tx r.library r.rel_path path) w.index
          reliable)

  compat_done-Answered :
      (error : Option JobError)
      → compat_error runner source plan w.files ≡ error
      → Answered runner source r w.files w.index.db
          (compat_done runner source r
            (
              outcome_of (sidecar_name source (codes ".compat.mp4")) error,
              (derive_compat runner source plan w.files).1,
            )
            w).index.db
          (some plan)
  unfolding compat_done
  compat_done-Answered (some error) ended =
      no_copy error ended
        (failure_ran runner r error
          (record w { files = (derive_compat runner source plan w.files).1 }) reliable).0
  compat_done-Answered none ended =
      let name = sidecar_name source (codes ".compat.mp4") in
      let path = sibling_rel r.rel_path name in
      let same = copied_rows path in
      let reliable' = subst IsReliable (sym same) reliable in
      copied path ended (sibling_rel-IsBeside r.rel_path name) (
        subst
          (λ db.
            ThumbAnswered runner source r (derive_compat runner source plan w.files).1 db
              (run_thumbnail runner source r (copied_world path)).index.db)
          (ap (λ (x : Index). x.db) same)
          (run_thumbnail-Answered runner source r (copied_world path) reliable'))

-- On a connection that does not fail, what a job writes follows from the answers: where ffmpeg fails
-- at the copy, or its output cannot be moved into place, that error is recorded and the thumbnail
-- is left; otherwise the copy is noted under its name in the video's directory. Then, or where no
-- copy is planned, a missing thumbnail is noted or its error recorded in the same way, and a
-- thumbnail that is there leaves the tables as they are.
pub run_job-Answered :
    (runner : Runner) (job : Job) (w : World)
    → IsReliable w.index
    → Answered runner
        (join_text job.library.path job.record'.rel_path)
        job.record'
        w.files
        w.index.db
        (run_job runner job w).index.db
        job.plan
unfolding run_job run_plan
run_job-Answered runner job w reliable = go job.plan
  where
    go :
        (plan : Option CompatPlan)
        → Answered runner
            (join_text job.library.path job.record'.rel_path)
            job.record'
            w.files
            w.index.db
            (run_plan runner
              (join_text job.library.path job.record'.rel_path)
              job.record'
              plan
              w).index.db
            plan
    go none = thumb_alone (
        run_thumbnail-Answered runner (join_text job.library.path job.record'.rel_path) job.record'
          w reliable)
    go (some plan) =
        let source = join_text job.library.path job.record'.rel_path in
        subst
          (λ outcome.
            Answered runner source job.record' w.files w.index.db
              (compat_done runner source job.record'
                (outcome, (derive_compat runner source plan w.files).1) w).index.db
              (some plan))
          (sym (derive_compat-error runner source plan w.files))
          (compat_done-Answered runner source job.record' plan w reliable
            (compat_error runner source plan w.files) refl)
