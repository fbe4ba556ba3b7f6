-- ===== src/Scan/Records.antt =====
-- crates/server/src/index/scan.rs: what is read of one directory, the records of its master videos.
use loku.Base.{
  ℕ, min, Bool, not, ◌&&◌, ◌||◌, ◌==◌, leb, Option, none, some, List, [], ◌∷◌, if◌then◌else◌,
  length, any, keep, map, filter_map, find_map, and_then, map_option, unwrap_or, or, is_some,
  is_some_and,
}
use loku.Base.Text.{Text, codes, text_eq, strip_suffix}
use loku.Base.Int.{ℤ, i64_max}
use loku.Base.Paths.{
  FilePath, parent, file_name, file_stem, extension, path_strip_prefix, child, relative_text,
  absolute_text,
}
use loku.Base.Disk.{Disk, Metadata}
use loku.Library.{Library, LibraryKind}
use loku.Rip.{RipName, parse_rip_name, display_title}
use loku.Nfo.Documents.{Nfo, movie, episode, tv_show, reference}
use loku.Nfo.Parse.{Xml, ok, err, parse_nfo, nfo_candidates}
use loku.Media.Sidecars.{
  Json, InfoJson, video_extensions, find_compat, find_thumbnail, read_info_json,
}
use loku.Index.Record.{F64, VideoRecord, TitleSource, CodecSource}

-- What the scanner asks of the file system and of other packages. The file system does not change
-- while the scanner looks at it.
pub record Scanner : Type 1 where
  pub disk : Disk
  pub xml : Xml
  pub json : Json
  -- `s.to_lowercase()`, after Unicode's tables.
  pub to_lowercase : Text → Text
  -- `f64::from(minutes) * 60.0`
  pub minutes_secs : ℕ → F64

-- The path below the root, or all of it.
unfoldable pub relative_of : FilePath → FilePath → Text
relative_of path root = elim (path_strip_prefix path root) [
  | none ↦ absolute_text path
  | some rel ↦ relative_text rel
]

-- Every directory that the walk can read, the root included.
unfoldable pub walk_directories : Disk → FilePath → List FilePath
walk_directories disk root =
    filter_map (λ entry. and_then entry λ (path, is_dir). if is_dir then some path else none)
      (disk.walk root)

-- The extension in lower case, or no text.
abbrev pub container_of : Scanner → FilePath → Text
container_of scanner path = scanner.to_lowercase (unwrap_or (extension path) [])

unfoldable pub is_master_video : Scanner → FilePath → Bool
is_master_video scanner path =
    any (λ ext. text_eq ext (container_of scanner path)) video_extensions
    && is_some_and (file_stem path) (λ stem. not (is_some (strip_suffix stem (codes ".compat"))))

pub record NfoFacts : Type 0 where
  pub title : Option Text
  pub year : Option ℤ
  pub genres : List Text
  pub description : Option Text
  pub runtime_secs : Option F64

abbrev pub no_facts : NfoFacts
no_facts = record {
  title = none;
  year = none;
  genres = [];
  description = none;
  runtime_secs = none;
}

unfoldable pub nfo_facts : (ℕ → F64) → Nfo → NfoFacts
nfo_facts minutes_secs (movie m) = record {
  title = m.title;
  year = m.year;
  genres = m.genres;
  description = m.plot;
  runtime_secs = map_option minutes_secs m.runtime;
}
nfo_facts minutes_secs (episode e) = record {
  title = e.title;
  year = none;
  genres = [];
  description = e.plot;
  runtime_secs = map_option minutes_secs e.runtime;
}
nfo_facts minutes_secs (tv_show s) = record {
  title = s.title;
  year = s.year;
  genres = s.genres;
  description = s.plot;
  runtime_secs = none;
}
nfo_facts minutes_secs (reference r) = no_facts

-- The sidecar at a path, if it can be read and parsed.
unfoldable pub nfo_at : Scanner → FilePath → Option Nfo
nfo_at scanner path =
    and_then (scanner.disk.read_lossy path)
      λ text. elim (parse_nfo scanner.xml text) [ ok nfo ↦ some nfo | err error ↦ none ]

-- The candidates that are looked at: the first one always, the others if the folder's may be.
abbrev pub allowed : Bool → List FilePath → List FilePath
allowed allow_folder_nfo [] = []
allowed allow_folder_nfo (path ∷ paths) = path ∷ keep (λ p. allow_folder_nfo) paths

unfoldable pub read_nfo : Scanner → FilePath → Bool → Option Nfo
read_nfo scanner video_path allow_folder_nfo =
    find_map (nfo_at scanner) (allowed allow_folder_nfo (nfo_candidates video_path))

-- The modification time, 0 where there is none.
unfoldable pub mtime_secs : Metadata → ℕ
mtime_secs metadata =
    unwrap_or (map_option (λ secs. min secs i64_max) (and_then metadata.modified λ time. time)) 0

-- The NFO's title, or that of the info.json, or one made of the rip's name.
unfoldable pub titled : NfoFacts → InfoJson → Option RipName → Option (Text × TitleSource)
titled facts info rip_name = or (map_option (λ t. (t, TitleSource.nfo)) facts.title) (
    or (map_option (λ t. (t, TitleSource.info_json)) info.title)
      (map_option (λ (r : RipName). (display_title r.prefix, TitleSource.rip_name)) rip_name))

-- The rip's name, in a library of discs.
unfoldable pub rip_name_in : LibraryKind → Text → Option RipName
rip_name_in LibraryKind.discs name = some (parse_rip_name name)
rip_name_in LibraryKind.downloads name = none

unfoldable pub record_of :
    Scanner → Library → FilePath → FilePath → Bool → Metadata → Text → Text → VideoRecord
record_of scanner library root path allow_folder_nfo metadata name stem =
    let dir = unwrap_or (parent path) [] in
    let info = read_info_json scanner.disk scanner.json dir stem in
    let facts =
      unwrap_or
        (map_option (nfo_facts scanner.minutes_secs) (read_nfo scanner path allow_folder_nfo))
        no_facts in
    let rip_name = rip_name_in library.kind name in
    let title = titled facts info rip_name in
    record {
      library = library.name;
      rel_path = relative_of path root;
      parent = relative_of dir root;
      file_name = name;
      size = min metadata.len i64_max;
      mtime = mtime_secs metadata;
      title = map_option (λ t. t.0) title;
      title_source = map_option (λ t. t.1) title;
      duration_secs = or info.duration_secs facts.runtime_secs;
      upload_date = info.upload_date;
      year = facts.year;
      description = or facts.description info.description;
      channel = info.channel;
      channel_url = info.channel_url;
      webpage_url = info.webpage_url;
      view_count = and_then info.view_count λ count. if leb count i64_max then some count else none;
      genres = facts.genres;
      container = container_of scanner path;
      vcodec = info.vcodec;
      acodec = info.acodec;
      vprofile = none;
      field_order = none;
      codec_source =
          if is_some info.vcodec || is_some info.acodec then some CodecSource.info_json else none;
      thumb_rel_path = find_thumbnail scanner.disk dir stem root;
      compat_rel_path = find_compat scanner.disk dir stem root;
      disc_set = map_option (λ (r : RipName). r.prefix) rip_name;
      disc_title_index = and_then rip_name λ (r : RipName). r.title_index;
      derivation_error = none;
    }

-- A file that cannot be looked at, or has no name, has no record.
unfoldable pub build_record : Scanner → Library → FilePath → FilePath → Bool → Option VideoRecord
build_record scanner library root path allow_folder_nfo =
    and_then (scanner.disk.metadata path) λ metadata. and_then (file_name path) λ name.
      and_then (file_stem path)
        λ stem. some (record_of scanner library root path allow_folder_nfo metadata name stem)

-- The master videos directly inside a directory whose entries are these.
unfoldable pub video_paths : Scanner → FilePath → List (Option Text) → List FilePath
video_paths scanner dir entries =
    keep (λ path. scanner.disk.is_file path && is_master_video scanner path)
      (map (child dir) (filter_map (λ entry. entry) entries))

-- The folder's NFO counts for a lone video only.
unfoldable pub collect_directory : Scanner → Library → FilePath → FilePath → List VideoRecord
collect_directory scanner library root dir = elim (scanner.disk.read_dir dir) [
  | none ↦ []
  | some entries ↦
      let paths = video_paths scanner dir entries in
      let allow_folder_nfo = length paths == 1 in
      filter_map (λ path. build_record scanner library root path allow_folder_nfo) paths
]
