-- ===== src/Media/Worker.antt =====
-- crates/server/src/media/worker.rs: the serial worker that derives compat copies and thumbnails.
-- The runner of ffmpeg and the operations on files that may be refused are a parameter.
pub mod Disk
pub mod Outcomes
pub mod Progress
pub mod Effects
pub mod Answers
pub mod Answered
pub mod Keeps
pub mod Due
pub mod Rounds
pub mod Ends
pub mod Settles
use loku.Base.{
  Bool, true, false, not, ◌==◌, Option, none, some, List, [], ◌∷◌, ◌++◌, if◌then◌else◌, keep, map,
  find_map, is_some, is_none, unwrap_or, map_option, fold,
}
use loku.Base.Text.{Text, codes, text_eq, rsplit}
use loku.Base.Int.{nat_to_string}
use loku.Base.{ℕ, zero, suc}
use loku.Base.Paths.{FilePath, parent, file_stem, file_name, join_text, sidecar_path, absolute_text}
use loku.Library.{Library, LibraryKind}
use loku.Index.Record.{VideoRecord, F64}
use loku.Index.Database.{Index, Result, ok, err}
use loku.Index.Writes.{set_compat, set_thumb, record_derivation_failure}
use loku.Index.Reads.{derivation_candidates}
use loku.Media.Compat.{
  CompatPlan, CompatInputs, DerivationDecision, not_needed, produce, unplannable, decide,
}
use loku.Media.Ffmpeg.{DeriveError, ffmpeg_spawn, ffmpeg_timeout, ffmpeg_exit}
use loku.Media.Worker.Disk.{Files, remove_file, rename}

pub record ActiveDerivation : Type 0 where
  pub library : Text
  pub rel_path : Text

pub data JobError : Type 0 where
  derive : DeriveError → JobError
  finalize_rename : Text → Text → JobError

-- The text of an error, by the formats of its declaration.
unfoldable pub error_text : JobError → Text
error_text (derive (ffmpeg_spawn path source)) =
    codes "Failed to spawn ffmpeg for '" ++ (path ++ (codes "': " ++ source))
error_text (derive (ffmpeg_timeout path secs)) =
    codes "ffmpeg timed out after "
    ++ (nat_to_string secs ++ (codes "s deriving from '" ++ (path ++ codes "'")))
error_text (derive (ffmpeg_exit path status stderr_tail)) =
    codes "ffmpeg failed on '"
    ++ (path ++ (codes "' (" ++ (status ++ (codes "): " ++ stderr_tail))))
error_text (finalize_rename path source) =
    codes "Failed to move finished derivation into place at '" ++ (path ++ (codes "': " ++ source))

-- What the worker has no hand in: ffmpeg, which writes to the path that it is given and may leave
-- a part of its output, the answers of the file system, the clock, and the arithmetic of f64.
pub record Runner : Type 0 where
  pub derive_compat : FilePath → FilePath → CompatPlan → Files → Option DeriveError × Files
  pub extract_thumbnail : FilePath → FilePath → F64 → Files → Option DeriveError × Files
  pub remove_refused : FilePath → Bool
  pub rename_refused : FilePath → FilePath → Option Text
  pub now : ℕ
  -- (d * 0.1).max(1.0), and 1.0
  pub tenth_or_one : F64 → F64
  pub one : F64

-- What the worker changes.
pub record World : Type 0 where
  pub index : Index
  pub files : Files
  pub status : Option ActiveDerivation

pub data Outcome : Type 0 where
  done : Text → Outcome
  broke : JobError → Outcome

unfoldable pub file_name_of : FilePath → Text
file_name_of path = unwrap_or (file_name path) []

-- The staging path and the final path of a sidecar.
unfoldable pub sibling_paths : FilePath → Text → FilePath × FilePath
sibling_paths source suffix =
    let dir = unwrap_or (parent source) [] in
    let stem = unwrap_or (file_stem source) [] in
    (sidecar_path dir stem (suffix ++ codes ".part"), sidecar_path dir stem suffix)

unfoldable pub sibling_rel : Text → Text → Text
sibling_rel rel_path sibling_name = elim (rsplit (codes "/") rel_path) [
  | none ↦ sibling_name
  | some (dir, _) ↦ dir ++ (codes "/" ++ sibling_name)
]

-- A refusal is only logged.
unfoldable pub remove_stale_part : Runner → FilePath → Files → Files
remove_stale_part runner part files =
    if runner.remove_refused part then files else remove_file part files

abbrev pub renamed : FilePath → Option Text × Files → Outcome × Files
renamed dest (none, files) = (done (file_name_of dest), files)
renamed dest (some source, files) = (broke (finalize_rename (absolute_text dest) source), files)

-- Moving the finished file into place.
unfoldable pub finalize :
    Runner → FilePath → FilePath → Option DeriveError × Files → Outcome × Files
finalize runner part dest (some error, files) = (broke (derive error), files)
finalize runner part dest (none, files) =
    renamed dest (rename (runner.rename_refused part dest) part dest files)

unfoldable pub derive_compat : Runner → FilePath → CompatPlan → Files → Outcome × Files
derive_compat runner source plan files =
    let (part, dest) = sibling_paths source (codes ".compat.mp4") in
    finalize runner part dest
      (runner.derive_compat source part plan (remove_stale_part runner part files))

abbrev pub at_secs : Runner → Option F64 → F64
at_secs runner none = runner.one
at_secs runner (some d) = runner.tenth_or_one d

unfoldable pub extract_thumbnail : Runner → FilePath → Option F64 → Files → Outcome × Files
extract_thumbnail runner source duration_secs files =
    let (part, dest) = sibling_paths source (codes ".jpg") in
    finalize runner part dest (
      runner.extract_thumbnail source part (at_secs runner duration_secs)
        (remove_stale_part runner part files))

-- The decision reads the codec facts of the record.
abbrev pub inputs_of : VideoRecord → CompatInputs
inputs_of r = record {
  container = r.container;
  vcodec = r.vcodec;
  vprofile = r.vprofile;
  acodec = r.acodec;
  field_order = r.field_order;
  has_compat = is_some r.compat_rel_path;
}

-- The work that a record needs: a compat copy by a plan, or a thumbnail alone.
unfoldable pub work_of : VideoRecord → Option (Option CompatPlan)
work_of r = elim (decide (inputs_of r)) [
  | produce plan ↦ some (some plan)
  | not_needed ↦ if is_none r.thumb_rel_path then some none else none
  | unplannable ↦ none
]

pub record Job : Type 0 where
  pub library : Library
  pub record' : VideoRecord
  pub plan : Option CompatPlan

abbrev pub is_discs : Library → Bool
is_discs l = elim l.kind [ LibraryKind.discs ↦ true | LibraryKind.downloads ↦ false ]

-- Disc rips first.
unfoldable pub ordered_libraries : List Library → List Library
ordered_libraries libraries = keep is_discs libraries ++ keep (λ l. not (is_discs l)) libraries

unfoldable pub job_in : List VideoRecord → Library → Option Job
job_in candidates library =
    find_map
      (λ r. map_option (λ plan. record { library = library; record' = r; plan = plan }) (work_of r))
      (keep (λ r. text_eq r.library library.name) candidates)

unfoldable pub select_job : List Library → List VideoRecord → Option Job
select_job libraries candidates = find_map (job_in candidates) (ordered_libraries libraries)

-- A write whose error is only logged.
abbrev pub logged {ℓ} : {A : Type ℓ} → Result A × Index → Index
logged (result, index) = index

unfoldable pub record_failure : Runner → VideoRecord → JobError → World → World
record_failure runner r error w = record w {
  index = logged (
      record_derivation_failure r.library r.rel_path r.size r.mtime (error_text error) runner.now
        w.index);
}

unfoldable pub thumbnail_done : Runner → VideoRecord → Outcome × Files → World → World
thumbnail_done runner r (done name, files) w = record w {
  files = files;
  index = logged (set_thumb r.library r.rel_path (sibling_rel r.rel_path name) w.index);
}
thumbnail_done runner r (broke error, files) w =
    record_failure runner r error (record w { files = files })

-- The second half of a job: the thumbnail that is missing.
unfoldable pub run_thumbnail : Runner → FilePath → VideoRecord → World → World
run_thumbnail runner source r w =
    if is_none r.thumb_rel_path
    then thumbnail_done runner r (extract_thumbnail runner source r.duration_secs w.files) w
    else w

unfoldable pub compat_done : Runner → FilePath → VideoRecord → Outcome × Files → World → World
compat_done runner source r (done name, files) w = run_thumbnail runner source r (record w {
  files = files;
  index = logged (set_compat r.library r.rel_path (sibling_rel r.rel_path name) w.index);
})
compat_done runner source r (broke error, files) w =
    record_failure runner r error (record w { files = files })

unfoldable pub run_plan : Runner → FilePath → VideoRecord → Option CompatPlan → World → World
run_plan runner source r none w = run_thumbnail runner source r w
run_plan runner source r (some plan) w =
    compat_done runner source r (derive_compat runner source plan w.files) w

unfoldable pub run_job : Runner → Job → World → World
run_job runner job w =
    run_plan runner (join_text job.library.path job.record'.rel_path) job.record' job.plan w

abbrev pub set_status : Option ActiveDerivation → World → World
set_status status w = record w { status = status }

unfoldable pub take_job : Runner → Option Job → World → Bool × World
take_job runner none w = (false, w)
take_job runner (some job) w =
    let active : ActiveDerivation = record {
      library = job.record'.library;
      rel_path = job.record'.rel_path;
    } in
    (true, set_status none (run_job runner job (set_status (some active) w)))

unfoldable pub with_candidates :
    List Library → Runner → Result (List VideoRecord) × Index → World → Bool × World
with_candidates libraries runner (err e, index) w = (false, record w { index = index })
with_candidates libraries runner (ok candidates, index) w =
    take_job runner (select_job libraries candidates) (record w { index = index })

unfoldable pub process_next : List Library → Runner → World → Bool × World
process_next libraries runner w = with_candidates libraries runner (derivation_candidates w.index) w

-- `spawn`: the worker goes on while a job was attempted, for so many rounds at most.
unfoldable pub process_all : ℕ → List Library → Runner → World → Bool × World
process_all zero libraries runner w = (true, w)
process_all (suc n) libraries runner w =
    let (worked, w') = process_next libraries runner w in
    let rest = process_all n libraries runner w' in if worked then rest else (false, w')
