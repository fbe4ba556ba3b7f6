-- ===== src/Media/Worker/Answers.antt =====
-- What the answers of ffmpeg and of the file system ask a job to write.
use loku.Base.{false, Option, none, some, [], ◌++◌, ◌≡◌, ◌≢◌, refl, ◌⊎◌, inl, inr, unwrap_or}
use loku.Base.Text.{Text, codes, rsplit, contains_char}
use loku.Base.Text.Parts.{rsplit_sound}
use loku.Base.Text.Rsplit.{Lacks, rsplit-Lacks}
use loku.Base.Paths.{FilePath, file_stem, absolute_text}
use loku.Index.Record.{VideoRecord}
use loku.Index.Database.{Database}
use loku.Media.Compat.{CompatPlan}
use loku.Media.Ffmpeg.{DeriveError}
use loku.Media.Worker.{
  Runner, JobError, derive, finalize_rename, sibling_rel, sibling_paths, at_secs, remove_stale_part,
  derive_compat,
}
use loku.Media.Worker.Disk.{Files, rename}
use loku.Media.Worker.Outcomes.{failure_after, compat_after, thumb_after}

-- A name in the directory of a path.
abbrev pub IsBeside : Text → Text → Text → Type 0
IsBeside rel_path name path =
    ((contains_char rel_path b'/' ≡ false) × (path ≡ name))
    ⊎ ((dir : Text) × (base : Text) × (contains_char base b'/' ≡ false)
        × (rel_path ≡ dir ++ (codes "/" ++ base))
        × (path ≡ dir ++ (codes "/" ++ name)))

pub sibling_rel-IsBeside :
    (rel_path name : Text) → IsBeside rel_path name (sibling_rel rel_path name)
unfolding sibling_rel
sibling_rel-IsBeside rel_path name =
    go (rsplit (codes "/") rel_path) refl (rsplit-Lacks b'/' rel_path)
  where
    go :
        (o : Option (Text × Text))
        → rsplit (codes "/") rel_path ≡ o
        → Lacks b'/' rel_path o
        → IsBeside rel_path name
            (elim o [ none ↦ name | some (dir, _) ↦ dir ++ (codes "/" ++ name) ])
    go none e lacks = inl (lacks, refl)
    go (some (dir, base)) e lacks =
        inr (dir, base, lacks, rsplit_sound (codes "/") rel_path dir base e, refl)

-- The error of ffmpeg, or else that of moving its output into place.
abbrev pub error_of : FilePath → Option DeriveError → Option Text → Option JobError
error_of dest (some error) refused = some (derive error)
error_of dest none (some reason) = some (finalize_rename (absolute_text dest) reason)
error_of dest none none = none

-- How a run of ffmpeg ends that writes to the path with .part behind it, once a stale file there is
-- removed: with an error, or with the file in place.
abbrev pub error_in :
    Runner
    → FilePath
    → Text
    → (FilePath → Files → Option DeriveError × Files)
    → Files
    → Option JobError
error_in runner source suffix ffmpeg files =
    let (part, dest) = sibling_paths source suffix in
    let answer = ffmpeg part (remove_stale_part runner part files) in
    error_of dest answer.0 (rename (runner.rename_refused part dest) part dest answer.1).0

abbrev pub compat_error : Runner → FilePath → CompatPlan → Files → Option JobError
compat_error runner source plan files =
    error_in runner source (codes ".compat.mp4") (λ part. runner.derive_compat source part plan)
      files

abbrev pub thumb_error : Runner → FilePath → VideoRecord → Files → Option JobError
thumb_error runner source r files =
    error_in runner source (codes ".jpg")
      (λ part. runner.extract_thumbnail source part (at_secs runner r.duration_secs)) files

abbrev pub sidecar_name : FilePath → Text → Text
sidecar_name source suffix = unwrap_or (file_stem source) [] ++ suffix

-- What the thumbnail's half of a job makes of the tables.
pub data ThumbAnswered (runner : Runner) (source : FilePath) (r : VideoRecord) (files : Files)
    (db db' : Database) : Type 0 where
  there : r.thumb_rel_path ≢ none → db' ≡ db → ThumbAnswered runner source r files db db'
  made :
      (path : Text)
      → r.thumb_rel_path ≡ none
      → thumb_error runner source r files ≡ none
      → IsBeside r.rel_path (sidecar_name source (codes ".jpg")) path
      → db' ≡ thumb_after r path db
      → ThumbAnswered runner source r files db db'
  failed :
      (error : JobError)
      → r.thumb_rel_path ≡ none
      → thumb_error runner source r files ≡ some error
      → db' ≡ failure_after runner r error db
      → ThumbAnswered runner source r files db db'

-- What a job for a record makes of the tables.
pub data Answered (runner : Runner) (source : FilePath) (r : VideoRecord) (files : Files)
    (db db' : Database) : Option CompatPlan → Type 0 where
  no_copy :
      {plan : CompatPlan} (error : JobError)
      → compat_error runner source plan files ≡ some error
      → db' ≡ failure_after runner r error db
      → Answered runner source r files db db' (some plan)
  copied :
      {plan : CompatPlan} (path : Text)
      → compat_error runner source plan files ≡ none
      → IsBeside r.rel_path (sidecar_name source (codes ".compat.mp4")) path
      → ThumbAnswered runner source r
          (derive_compat runner source plan files).1
          (compat_after r path db)
          db'
      → Answered runner source r files db db' (some plan)
  thumb_alone :
      ThumbAnswered runner source r files db db' → Answered runner source r files db db' none
