-- ===== src/Media/Worker/Effects.antt =====
-- The effects that a job of the worker may have on the tables.
use loku.Base.{
  Bool, true, false, Option, none, some, ◌≡◌, ◌≢◌, refl, ap, ◌∙◌, if◌then◌else◌, is_none, inl, inr,
  ◌⊎◌,
}
use loku.Base.Text.{Text}
use loku.Base.Paths.{FilePath, join_text}
use loku.Index.Record.{VideoRecord}
use loku.Index.Database.{Index, Result}
use loku.Index.Writes.{set_compat_tx, set_thumb_tx, record_failure_tx}
use loku.Media.Compat.{CompatPlan}
use loku.Index.Reliable.{IsReliable, call-ok}
use loku.Media.Worker.{
  Runner, World, Job, Outcome, JobError, done, broke, error_text, sibling_rel, record_failure,
  thumbnail_done, run_thumbnail, compat_done, run_plan, run_job, extract_thumbnail,
}
use loku.Media.Worker.Disk.{Files}
use loku.Media.Worker.Outcomes.{
  Effect, compat_failed, compat_alone, compat_and_thumb, compat_no_thumb, thumb_made, thumb_failed,
  thumb_there, failure_after, compat_after, thumb_after,
}

-- The connection fails as before, and its tables are as the effect says.
abbrev Ran : Runner → VideoRecord → Option CompatPlan → World → World → Type 0
Ran runner r plan w w' =
    Effect runner r w.index.db w'.index.db plan × (w'.index.fails ≡ w.index.fails)

pub failure_ran :
    (runner : Runner) (r : VideoRecord) (error : JobError) (w : World)
    → IsReliable w.index
    → ((record_failure runner r error w).index.db ≡ failure_after runner r error w.index.db)
      × ((record_failure runner r error w).index.fails ≡ w.index.fails)
unfolding record_failure
failure_ran runner r error w reliable =
    rw
      (call-ok _
        (record_failure_tx r.library r.rel_path r.size r.mtime (error_text error) runner.now)
        w.index reliable)
      (refl, refl)

-- A thumbnail job made the thumbnail or recorded why not.
abbrev ThumbRan : Runner → VideoRecord → World → World → Type 0
ThumbRan runner r w w' =
    (((thumb : Text) × (w'.index.db ≡ thumb_after r thumb w.index.db))
      ⊎ ((error : JobError) × (w'.index.db ≡ failure_after runner r error w.index.db)))
    × (w'.index.fails ≡ w.index.fails)

thumbnail_ran :
    (runner : Runner) (r : VideoRecord) (outcome : Outcome × Files) (w : World)
    → IsReliable w.index
    → ThumbRan runner r w (thumbnail_done runner r outcome w)
unfolding thumbnail_done
thumbnail_ran runner r (done name, files) w reliable =
    rw
      (call-ok _ (set_thumb_tx r.library r.rel_path (sibling_rel r.rel_path name)) w.index reliable)
      (inl (sibling_rel r.rel_path name, refl), refl)
thumbnail_ran runner r (broke error, files) w reliable =
    let (e, fails) = failure_ran runner r error (record w { files = files }) reliable in
    (inr (error, e), fails)

thumb_present : (r : VideoRecord) → is_none r.thumb_rel_path ≡ false → r.thumb_rel_path ≢ none
thumb_present r h absent = cc (ap is_none absent, h)

run_thumbnail_ran :
    (runner : Runner) (source : FilePath) (r : VideoRecord) (w : World)
    → IsReliable w.index
    → ThumbRan runner r w (run_thumbnail runner source r w)
      ⊎ ((r.thumb_rel_path ≢ none) × (run_thumbnail runner source r w ≡ w))
unfolding run_thumbnail
run_thumbnail_ran runner source r w reliable = go (is_none r.thumb_rel_path) refl
  where
    go :
        (b : Bool)
        → is_none r.thumb_rel_path ≡ b
        → ThumbRan runner r w (
            if b
            then thumbnail_done runner r (extract_thumbnail runner source r.duration_secs w.files) w
            else w)
          ⊎ ((r.thumb_rel_path ≢ none)
              × ((if b
                    then thumbnail_done runner r
                        (extract_thumbnail runner source r.duration_secs w.files)
                        w
                    else w)
                  ≡ w))
    go true e = inl (thumbnail_ran runner r _ w reliable)
    go false e = inr (thumb_present r e, refl)

thumbnail_job-Ran :
    (runner : Runner) (source : FilePath) (r : VideoRecord) (w : World)
    → IsReliable w.index
    → Ran runner r none w (run_thumbnail runner source r w)
thumbnail_job-Ran runner source r w reliable = elim (run_thumbnail_ran runner source r w reliable) [
  | inl (inl (thumb, e), fails) ↦ (thumb_made thumb e, fails)
  | inl (inr (error, e), fails) ↦ (thumb_failed error e, fails)
  | inr (there, same) ↦ (
    thumb_there there (ap (λ (x : World). x.index.db) same),
    ap (λ (x : World). x.index.fails) same,
  )
]

-- The state between the two halves of a job.
after_compat-Ran :
    (runner : Runner) (source : FilePath) (r : VideoRecord) (plan : CompatPlan) (compat : Text)
    (w mid : World)
    → mid.index.db ≡ compat_after r compat w.index.db
    → mid.index.fails ≡ w.index.fails
    → IsReliable w.index
    → Ran runner r (some plan) w (run_thumbnail runner source r mid)
after_compat-Ran runner source r plan compat w mid e fails reliable =
    elim (run_thumbnail_ran runner source r mid (λ n. ap (λ f. f n) fails ∙ reliable n)) [
      | inl (inl (thumb, e'), fails') ↦
          (compat_and_thumb compat thumb (e' ∙ ap (thumb_after r thumb) e), fails' ∙ fails)
      | inl (inr (error, e'), fails') ↦
          (compat_no_thumb compat error (e' ∙ ap (failure_after runner r error) e), fails' ∙ fails)
      | inr (there, same) ↦ (
        compat_alone compat (ap (λ (x : World). x.index.db) same ∙ e),
        ap (λ (x : World). x.index.fails) same ∙ fails,
      )
    ]

compat_done-Ran :
    (runner : Runner) (source : FilePath) (r : VideoRecord) (plan : CompatPlan)
    (outcome : Outcome × Files) (w : World)
    → IsReliable w.index
    → Ran runner r (some plan) w (compat_done runner source r outcome w)
unfolding compat_done
compat_done-Ran runner source r plan (done name, files) w reliable =
    let e =
      call-ok _ (set_compat_tx r.library r.rel_path (sibling_rel r.rel_path name)) w.index
        reliable in
    after_compat-Ran runner source r plan (sibling_rel r.rel_path name) w _
      (ap (λ (x : Result (Unit {0}) × Index). x.1.db) e)
      (ap (λ (x : Result (Unit {0}) × Index). x.1.fails) e) reliable
compat_done-Ran runner source r plan (broke error, files) w reliable =
    let (e, fails) = failure_ran runner r error (record w { files = files }) reliable in
    (compat_failed error e, fails)

-- A job has one of the effects, whatever ffmpeg and the file system answer.
pub run_job-Effect :
    (runner : Runner) (job : Job) (w : World)
    → IsReliable w.index
    → Effect runner job.record' w.index.db (run_job runner job w).index.db job.plan
      × ((run_job runner job w).index.fails ≡ w.index.fails)
unfolding run_job run_plan
run_job-Effect runner job w reliable = go job.plan
  where
    go :
        (plan : Option CompatPlan)
        → Ran runner job.record' plan w
            (run_plan runner (join_text job.library.path job.record'.rel_path) job.record' plan w)
    go none = thumbnail_job-Ran runner _ job.record' w reliable
    go (some plan) = compat_done-Ran runner _ job.record' plan _ w reliable
