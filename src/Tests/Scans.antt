-- ===== src/Tests/Scans.antt =====
-- The theorems on scans, over a directory of two videos on the disk.
use loku.Base.{
  ℕ, Bool, true, false, not, Option, none, some, List, [], ◌∷◌, ◌++◌, ◌≡◌, refl, arith, All,
  if◌then◌else◌,
}
use loku.Base.Text.{Text, codes, text_eq, to_ascii_lowercase}
use loku.Base.Int.{pos}
use loku.Base.Paths.{FilePath, path_eq}
use loku.Base.Disk.{Disk}
use loku.Index.Table.{Key, lookup, IsUnique}
use loku.Index.Record.{row_key}
use loku.Index.Database.{Index}
use loku.Index.Writes.{scan_generation, stored_generation}
use loku.Scan.{ScanStats, done, scan_all}
use loku.Scan.Records.{Scanner, walk_directories}
use loku.Scan.Loop.{IsTree}
use loku.Base.{inl, inr, length, ◌==◌, ◌&&◌}
use loku.Scan.Records.{is_master_video, build_record, video_paths}
use loku.Scan.Whole.{on_disk}
use loku.Scan.Files.{on_disk-file}
use loku.Scan.Libraries.{AreReady, row_after_all}
use loku.Scan.Complete.{IsCurrent, lookup-scan_all, scan_all-IsCurrent}
use loku.Media.Sidecars.{Json, find_compat}
use loku.Media.Worker.{Outcome, derive_compat, sibling_rel}
use loku.Media.Worker.Disk.{Files, exists}
use loku.Scan.Finds.{find_compat-derive_compat}
use loku.Tests.Fixtures.{discs, film_row, two_videos, connection}
use loku.Tests.Passes.{connection-IsReliable, two_keys-IsUnique, runner, film_plan}
use loku.Tests.Sidecars.{no_xml}

abbrev library_root : FilePath
library_root = codes "srv" ∷ []

abbrev set_dir : FilePath
set_dir = codes "srv" ∷ codes "set" ∷ []

abbrev pub video_disk : Disk
video_disk = record {
  exists = λ path. true;
  is_file = λ path. not (path_eq path set_dir);
  is_dir = path_eq set_dir;
  canonicalize = λ path. some library_root;
  metadata = λ path. some (record { len = 800; modified = some (some 1500) });
  read_dir = λ path.
      if path_eq path set_dir
      then some (some (codes "film.mkv") ∷ none ∷ some (codes "film.compat.mp4") ∷ [])
      else some (some (codes "set") ∷ []);
  walk = λ path. some (library_root, true) ∷ some (set_dir, true) ∷ none ∷ [];
  read_lossy = λ path. none;
  read_to_string = λ path. none;
}

-- No text is JSON.
abbrev no_json : Json
no_json = record {
  Value = Text;
  from_str = λ text. none;
  get = λ key value. none;
  as_str = λ value. none;
  as_f64 = λ value. none;
  as_u64 = λ value. none;
}

abbrev pub scanner : Scanner
scanner = record {
  disk = video_disk;
  xml = no_xml;
  json = no_json;
  to_lowercase = to_ascii_lowercase;
  minutes_secs = λ minutes. minutes;
}

abbrev after_one_scan : Index
after_one_scan = record connection {
  db = record two_videos { meta = record { name = scan_generation; value = codes "1" } ∷ [] };
}

disk-IsTree : IsTree video_disk library_root
unfolding walk_directories path_eq text_eq
disk-IsTree = (
  (
    ([], refl, tt, (((refl, refl), tt), (tt, tt))),
    (
      (
        codes "set" ∷ [],
        refl,
        ((refl, refl), tt),
        (((refl, refl), ((refl, refl), tt)), (((λ e. cc), tt), (tt, tt))),
      ),
      tt,
    ),
  ),
  (((λ e. cc), tt), (tt, tt)),
)

rows-IsCurrent : All (IsCurrent (pos 1)) two_videos.videos
unfolding loku.Index.Record.excluded loku.Base.Paths.Texts.parent_text loku.Base.Text.rsplit
    loku.Base.Text.strip_prefix
rows-IsCurrent = ((refl, refl), ((refl, refl), tt))

first_generation : stored_generation after_one_scan.db ≡ pos 1
unfolding stored_generation lookup loku.Index.Table.key_eq text_eq loku.Base.Int.parse_signed
    loku.Base.Int.scan_number loku.Base.Int.scan_digits
first_generation = refl

libraries-AreReady : AreReady scanner (discs ∷ [])
libraries-AreReady = ((library_root, refl, disk-IsTree), tt, tt)

abbrev film_path : FilePath
film_path = codes "srv" ∷ codes "set" ∷ codes "film.mkv" ∷ []

abbrev copy_there : Files
copy_there = (codes "srv" ∷ codes "set" ∷ codes "film.compat.mp4" ∷ []) ∷ []

abbrev copied_disk : Disk
copied_disk = record video_disk { exists = λ path. exists path copy_there }

copy_derived :
    derive_compat runner film_path film_plan []
    ≡ (Outcome.done (codes "film.compat.mp4"), copy_there)
unfolding derive_compat loku.Media.Worker.finalize loku.Media.Worker.Disk.rename exists path_eq
    loku.Media.Worker.sibling_paths loku.Base.Paths.sidecar_path loku.Base.Paths.parent text_eq
    loku.Base.Paths.file_stem loku.Base.Paths.file_name loku.Base.Paths.stem_and_extension
    loku.Base.Text.rsplit loku.Media.Worker.file_name_of loku.Media.Worker.Disk.remove_file
    loku.Media.Worker.remove_stale_part
copy_derived = refl

lookup-scan_all_example :
    ((stats : ScanStats) × ((scan_all scanner 3000 (discs ∷ []) after_one_scan).0 ≡ done stats))
    × (lookup row_key
          (row_key film_row)
          (scan_all scanner 3000 (discs ∷ []) after_one_scan).1.db.videos
        ≡ row_after_all scanner
            (discs ∷ [])
            (pos 2)
            (row_key film_row)
            (lookup row_key (row_key film_row) two_videos.videos))
lookup-scan_all_example =
    lookup-scan_all scanner 3000 (discs ∷ []) after_one_scan (row_key film_row) 1 libraries-AreReady
      connection-IsReliable two_keys-IsUnique rows-IsCurrent first_generation (omega arith)

scan_all-IsCurrent_example :
    IsUnique row_key (scan_all scanner 3000 (discs ∷ []) after_one_scan).1.db.videos
    × All (IsCurrent (pos 2)) (scan_all scanner 3000 (discs ∷ []) after_one_scan).1.db.videos
    × (stored_generation (scan_all scanner 3000 (discs ∷ []) after_one_scan).1.db ≡ pos 2)
scan_all-IsCurrent_example =
    scan_all-IsCurrent scanner 3000 (discs ∷ []) after_one_scan 1 libraries-AreReady
      connection-IsReliable two_keys-IsUnique rows-IsCurrent first_generation (omega arith)

find_compat-derive_compat_example :
    find_compat copied_disk set_dir (codes "film") library_root ≡ some (codes "set/film.compat.mp4")
unfolding loku.Base.Paths.file_stem loku.Base.Paths.file_name loku.Base.Paths.stem_and_extension
    loku.Base.Text.rsplit loku.Base.Text.strip_prefix loku.Base.Text.join sibling_rel
find_compat-derive_compat_example =
    find_compat-derive_compat runner copied_disk film_plan [] copy_there library_root
      (codes "set" ∷ []) (codes "film.mkv") (codes "film.compat.mp4") (refl, refl) (λ p. refl)
      copy_derived

on_disk-file_example :
    on_disk scanner discs (record { library = codes "discs"; name = codes "set/film.mkv" }) ≡ (
      if video_disk.is_file film_path && is_master_video scanner film_path
      then build_record scanner discs library_root film_path (
          length (
            video_paths scanner set_dir
              (some (codes "film.mkv") ∷ none ∷ some (codes "film.compat.mp4") ∷ []))
          == 1)
      else none)
unfolding path_eq text_eq walk_directories loku.Base.Text.join
on_disk-file_example =
    on_disk-file scanner discs library_root (codes "set" ∷ [])
      (some (codes "film.mkv") ∷ none ∷ some (codes "film.compat.mp4") ∷ []) (codes "film.mkv") refl
      disk-IsTree ((refl, refl), tt) (inr (inl refl)) refl
      (((refl, refl), ((refl, refl), tt)), (((λ e. cc), tt), (tt, tt))) (inl refl)

-- The film is the only video, since the copy is none.
only_video :
    video_paths scanner set_dir
      (some (codes "film.mkv") ∷ none ∷ some (codes "film.compat.mp4") ∷ [])
    ≡ film_path ∷ []
unfolding video_paths path_eq text_eq is_master_video loku.Base.Paths.extension
    loku.Base.Paths.file_name loku.Base.Paths.stem_and_extension loku.Base.Text.rsplit
    loku.Base.Text.ascii_lower loku.Base.Paths.file_stem loku.Base.Text.strip_suffix
only_video = refl
