-- ===== src/Index/Writes.antt =====
-- The writing queries of `impl Index` in crates/server/src/index/store.rs. Each is the closure that
-- runs on the tables, and the method that hands it to the connection.
pub mod Reconcile
pub mod Sweep
pub mod Probe
pub mod Generation
use loku.Base.{
  ℕ, ◌-◌, Bool, true, not, ◌&&◌, ◌||◌, ◌==◌, Option, none, some, List, [], ◌∷◌, if◌then◌else◌,
  length, any, map, fold, and_then, map_option, unwrap_or,
}
use loku.Base.Text.{Text, codes, text_eq}
use loku.Base.Int.{ℤ, pos, ltb_ℤ, i64_suc, to_string, parse_i64, nat_to_string}
use loku.Index.Table.{Key, lookup, upsert, delete, update, replace}
use loku.Index.Record.{
  Row, VideoRecord, ProbeCandidate, ProbeResult, row_key, excluded, on_conflict,
  codec_source_as_str, CodecSource,
}
use loku.Index.Database.{
  Database, Index, Result, ProbeRow, OverrideRow, FailureRow, MetaRow, probe_key, override_key,
  failure_key, meta_key, call,
}
use loku.Index.Like.{Like, tree_pattern}
use loku.Base.{or}

-- meta (key, value)
unfoldable pub set_meta : Text → Text → Database → Database
set_meta name value db = record db {
  meta = upsert meta_key (replace meta_key) (record { name = name; value = value }) db.meta;
}

abbrev pub scan_generation : Text
scan_generation = codes "scan_generation"

-- A missing row and a value that is no number both count as zero.
unfoldable pub stored_generation : Database → ℤ
stored_generation db =
    unwrap_or
      (and_then (lookup meta_key (record { library = []; name = scan_generation }) db.meta)
        λ row. parse_i64 row.value)
      (pos 0)

unfoldable pub next_generation_tx : Database → ℤ × Database
next_generation_tx db =
    let next = i64_suc (stored_generation db) in
    (next, set_meta scan_generation (to_string next) db)

-- The upserts of one directory.
unfoldable pub upsert_all : List VideoRecord → ℤ → List Row → List Row
upsert_all records generation videos =
    fold (λ t r. upsert row_key on_conflict (excluded r generation) t) videos records

abbrev pub in_directory : Text → Text → Row → Bool
in_directory library parent row = text_eq row.library library && text_eq row.parent parent

-- rel_path NOT IN (…)
abbrev pub not_in : List Text → Row → Bool
not_in seen row = not (any (λ path. text_eq row.rel_path path) seen)

-- The DELETE has no NOT IN clause where nothing was seen.
unfoldable pub vanished_from : Text → Text → List Text → Row → Bool
vanished_from library parent [] row = in_directory library parent row
vanished_from library parent (path ∷ seen) row =
    in_directory library parent row && not_in (path ∷ seen) row

unfoldable pub reconcile_tx : Text → Text → List VideoRecord → ℤ → Database → Unit {0} × Database
reconcile_tx library parent records generation db = (
  tt,
  record db {
    videos =
        delete row_key (vanished_from library parent (map (λ r. r.rel_path) records))
          (upsert_all records generation db.videos);
  },
)

-- How many rows a DELETE took.
abbrev pub affected : List Row → List Row → ℕ
affected before after = length before - length after

abbrev pub predates : Text → ℤ → Row → Bool
predates library generation row = text_eq row.library library && ltb_ℤ row.last_seen generation

unfoldable pub remove_unseen_tx : Text → ℤ → Database → ℕ × Database
remove_unseen_tx library generation db =
    let videos = delete row_key (predates library generation) db.videos in
    (affected db.videos videos, record db { videos = videos })

abbrev pub in_tree : Like → Text → Text → Row → Bool
in_tree l library dir_rel row =
    text_eq row.library library
    && (text_eq row.parent dir_rel || l.like (tree_pattern dir_rel) row.parent)

unfoldable pub remove_tree_tx : Like → Text → Text → Database → ℕ × Database
remove_tree_tx l library dir_rel db =
    let videos = delete row_key (in_tree l library dir_rel) db.videos in
    (affected db.videos videos, record db { videos = videos })

abbrev pub candidate_key : ProbeCandidate → Key
candidate_key c = record { library = c.library; name = c.rel_path }

abbrev pub probe_row : ProbeCandidate → ProbeResult → ProbeRow
probe_row c probe = record {
  library = c.library;
  rel_path = c.rel_path;
  size = c.size;
  mtime = c.mtime;
  probe = probe;
}

-- UPDATE videos SET … in `record_probe`
unfoldable pub apply_probe : ProbeResult → Row → Row
apply_probe probe row = record row {
  vcodec = probe.vcodec;
  acodec = probe.acodec;
  vprofile = probe.vprofile;
  field_order = probe.field_order;
  duration_secs = or row.duration_secs probe.duration_secs;
  codec_source = some (codes "ffprobe");
}

unfoldable pub record_probe_tx : ProbeCandidate → ProbeResult → Database → Unit {0} × Database
record_probe_tx c probe db = (
  tt,
  record db {
    probe_cache = upsert probe_key (replace probe_key) (probe_row c probe) db.probe_cache;
    videos = update row_key (apply_probe probe) (candidate_key c) db.videos;
  },
)

unfoldable pub record_failure_tx : Text → Text → ℕ → ℕ → Text → ℕ → Database → Unit {0} × Database
record_failure_tx library rel_path size mtime error now db = (
  tt,
  record db {
    derivation_failures =
        upsert failure_key (replace failure_key)
          (record {
            library = library;
            rel_path = rel_path;
            size = size;
            mtime = mtime;
            error = error;
            failed_at = now;
          })
          db.derivation_failures;
  },
)

unfoldable pub set_main_title_tx : Text → Text → Text → Database → Unit {0} × Database
set_main_title_tx library disc_set main_rel_path db = (
  tt,
  record db {
    disc_set_overrides =
        upsert override_key (replace override_key)
          (record { library = library; disc_set = disc_set; main_rel_path = main_rel_path })
          db.disc_set_overrides;
  },
)

unfoldable pub set_compat_tx : Text → Text → Text → Database → Unit {0} × Database
set_compat_tx library rel_path compat db = (
  tt,
  record db {
    videos =
        update row_key (λ row. record row { compat_rel_path = some compat })
          (record { library = library; name = rel_path }) db.videos;
  },
)

unfoldable pub set_thumb_tx : Text → Text → Text → Database → Unit {0} × Database
set_thumb_tx library rel_path thumb db = (
  tt,
  record db {
    videos =
        update row_key (λ row. record row { thumb_rel_path = some thumb })
          (record { library = library; name = rel_path }) db.videos;
  },
)

unfoldable pub mark_scan_complete_tx : ℕ → Database → Unit {0} × Database
mark_scan_complete_tx now db = (tt, set_meta (codes "last_scan_completed") (nat_to_string now) db)

-- The methods: each runs its closure under the context that its errors name.
abbrev pub next_generation : Index → Result ℤ × Index
next_generation = call (codes "advancing the scan generation") next_generation_tx

abbrev pub reconcile_directory :
    Text → Text → List VideoRecord → ℤ → Index → Result (Unit {0}) × Index
reconcile_directory library parent records generation =
    call (codes "reconciling a library directory") (reconcile_tx library parent records generation)

abbrev pub remove_unseen : Text → ℤ → Index → Result ℕ × Index
remove_unseen library generation =
    call (codes "sweeping vanished files") (remove_unseen_tx library generation)

abbrev pub remove_tree : Like → Text → Text → Index → Result ℕ × Index
remove_tree l library dir_rel =
    call (codes "removing a vanished directory tree") (remove_tree_tx l library dir_rel)

abbrev pub record_probe : ProbeCandidate → ProbeResult → Index → Result (Unit {0}) × Index
record_probe c probe = call (codes "recording a probe result") (record_probe_tx c probe)

abbrev pub record_derivation_failure :
    Text → Text → ℕ → ℕ → Text → ℕ → Index → Result (Unit {0}) × Index
record_derivation_failure library rel_path size mtime error now =
    call (codes "recording a derivation failure")
      (record_failure_tx library rel_path size mtime error now)

abbrev pub set_main_title : Text → Text → Text → Index → Result (Unit {0}) × Index
set_main_title library disc_set main_rel_path =
    call (codes "recording a main-title pick") (set_main_title_tx library disc_set main_rel_path)

abbrev pub set_compat : Text → Text → Text → Index → Result (Unit {0}) × Index
set_compat library rel_path compat =
    call (codes "recording a compat copy") (set_compat_tx library rel_path compat)

abbrev pub set_thumb : Text → Text → Text → Index → Result (Unit {0}) × Index
set_thumb library rel_path thumb =
    call (codes "recording a thumbnail") (set_thumb_tx library rel_path thumb)

abbrev pub mark_scan_complete : ℕ → Index → Result (Unit {0}) × Index
mark_scan_complete now = call (codes "recording scan completion") (mark_scan_complete_tx now)
