-- ===== src/Tests/Passes.antt =====
-- The theorems on the probe pass and on the worker, over a library of two files.
use loku.Base.{arith, ℕ, true, false, Option, none, some, List, [], ◌∷◌, ◌≡◌, refl, map_option}
use loku.Base.Text.{Text, codes}
use loku.Base.Paths.{FilePath, join_text}
use loku.Index.Table.{lookup, IsUnique}
use loku.Index.Record.{VideoRecord, row_key, F64}
use loku.Media.Compat.{AudioAction, CompatPlan, transcode}
use loku.Media.Ffmpeg.{ffmpeg_exit}
use loku.Media.Probe.{ProbeAnswer, found, probe_pending}
use loku.Index.Reliable.{IsReliable}
use loku.Media.Probe.Pass.{lookup-probe_pending, pass_row}
use loku.Media.Worker.{Runner, World, Job, process_next, process_all, run_job}
use loku.Media.Worker.Answers.{Answered}
use loku.Media.Worker.Answered.{run_job-Answered}
use loku.Media.Worker.Ends.{IsDone, process_all_ends}
use loku.Media.Worker.Rounds.{RoundOrIdle, process_next_lem}
use loku.Base.{inl}
use loku.Index.Record.{Row}
use loku.Index.Database.{failure_key}
use loku.Media.Worker.Progress.{is_job}
use loku.Media.Worker.Settles.{wants_copy, is_seen_to, process_all_settles}
use loku.Tests.Fixtures.{scanned, discs, film_row, two_videos, film_probe, connection}

pub connection-IsReliable : IsReliable connection
connection-IsReliable n = refl

pub two_keys-IsUnique : IsUnique row_key two_videos.videos
unfolding lookup loku.Index.Table.key_eq loku.Base.Text.text_eq loku.Index.Record.excluded
two_keys-IsUnique = (refl, (refl, tt))

-- Every file is an interlaced DVD title.
abbrev prober : FilePath → ProbeAnswer
prober path = found film_probe

lookup-probe_pending_example :
    lookup row_key (row_key film_row) (probe_pending (discs ∷ []) prober connection).1.db.videos
    ≡ map_option
        (pass_row (discs ∷ []) prober two_videos)
        (lookup row_key (row_key film_row) two_videos.videos)
lookup-probe_pending_example =
    lookup-probe_pending (discs ∷ []) prober connection (row_key film_row) connection-IsReliable
      two_keys-IsUnique

-- It writes what it is told to, and fails on thumbnails.
abbrev pub runner : Runner
runner = record {
  derive_compat = λ source part plan files. (none, part ∷ files);
  extract_thumbnail =
      λ source part at files. (some (ffmpeg_exit (codes "film.mkv") (codes "1") []), files);
  remove_refused = λ path. false;
  rename_refused = λ from to. none;
  now = 2000;
  tenth_or_one = λ d. d;
  one = 1;
}

abbrev world : World
world = record { index = connection; files = []; status = none }

abbrev pub film_plan : CompatPlan
film_plan = record { video = transcode true; audio = AudioAction.transcode }

abbrev film_job : Job
film_job = record { library = discs; record' = scanned (codes "film.mkv"); plan = some film_plan }

run_job-Answered_example :
    Answered runner
      (join_text discs.path (codes "set/film.mkv"))
      (scanned (codes "film.mkv"))
      []
      two_videos
      (run_job runner film_job world).index.db
      (some film_plan)
run_job-Answered_example = run_job-Answered runner film_job world connection-IsReliable

process_next_lem_example : RoundOrIdle (discs ∷ []) world (process_next (discs ∷ []) runner world)
process_next_lem_example =
    process_next_lem (discs ∷ []) runner world connection-IsReliable two_keys-IsUnique

process_all_ends_example : IsDone (discs ∷ []) (process_all 3 (discs ∷ []) runner world)
process_all_ends_example =
    process_all_ends (discs ∷ []) runner 3 world connection-IsReliable two_keys-IsUnique
      (omega arith)

-- The film with the facts of a DVD title.
abbrev probed_film : Row
probed_film = record film_row {
  codec_source = some (codes "ffprobe");
  vcodec = some (codes "mpeg2video");
  acodec = some (codes "ac3");
}

abbrev probed_world : World
probed_world = record world {
  index = record connection { db = record two_videos { videos = probed_film ∷ [] } };
}

probed_film_there :
    lookup row_key (row_key film_row) probed_world.index.db.videos ≡ some probed_film
unfolding lookup loku.Index.Table.key_eq loku.Base.Text.text_eq loku.Index.Record.excluded
probed_film_there = refl

probed_film_due : is_job probed_world.index.db (row_key film_row) ≡ true
unfolding loku.Media.Worker.Progress.slot_job lookup loku.Index.Table.key_eq loku.Base.Text.text_eq
    loku.Index.Record.excluded loku.Media.Worker.work_of loku.Media.Compat.decide
    loku.Index.Record.record_from_row
probed_film_due = refl

process_all_settles_example :
    let db = (process_all 2 (discs ∷ []) runner probed_world).1.index.db in
    (new : Row) × (lookup row_key (row_key film_row) db.videos ≡ some new)
    × (is_seen_to
          (wants_copy probed_film)
          new
          (lookup failure_key (row_key film_row) db.derivation_failures)
        ≡ true)
unfolding lookup loku.Index.Record.excluded
process_all_settles_example =
    process_all_settles (discs ∷ []) runner 2 probed_world discs (row_key film_row) probed_film
      connection-IsReliable (refl, tt) (omega arith) (inl refl) refl probed_film_there
      probed_film_due
