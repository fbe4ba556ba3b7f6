-- ===== src/Index/Reads.antt =====
-- The reading queries of `impl Index` in crates/server/src/index/store.rs.
pub mod Queries
use loku.Base.{
  ℕ, Bool, true, false, not, ◌&&◌, ◌||◌, ◌==◌, ◌-◌, Option, none, some, List, [], ◌∷◌, ◌++◌,
  if◌then◌else◌, length, any, map, keep, filter_map, and_then, map_option, is_none, zero, suc,
}
use loku.Base.Text.{Text, codes, text_eq, is_empty, strip_prefix, split, is_whitespace, join}
use loku.Base.Order.{text_le, sort}
use loku.Base.Int.{ℤ}
use loku.Index.Table.{Key, lookup}
use loku.Index.Record.{Row, VideoRecord, ProbeCandidate, ProbeResult, row_key, record_from_row}
use loku.Index.Database.{
  Database, Index, Result, ProbeRow, OverrideRow, FailureRow, probe_key, failure_key, call,
}
use loku.Index.Writes.{candidate_key, stored_generation}
use loku.Index.Like.{Like, prefix_pattern, replace_char}

-- A query that writes nothing.
abbrev pub reading {ℓ} : {A : Type ℓ} → (Database → A) → Database → A × Database
reading query db = (query db, db)

-- ORDER BY library, rel_path
unfoldable pub row_le : Row → Row → Bool
row_le a b =
    if text_eq a.library b.library
    then text_le a.rel_path b.rel_path
    else text_le a.library b.library

abbrev pub candidate_of : Row → ProbeCandidate
candidate_of row = record {
  library = row.library;
  rel_path = row.rel_path;
  size = row.size;
  mtime = row.mtime;
}

unfoldable pub needing_probe : Database → List ProbeCandidate
needing_probe db = map candidate_of (sort row_le (keep (λ row. is_none row.codec_source) db.videos))

unfoldable pub cached : ProbeCandidate → Database → Option ProbeResult
cached c db =
    and_then (lookup probe_key (candidate_key c) db.probe_cache)
      λ row. if (row.size == c.size) && (row.mtime == c.mtime) then some row.probe else none

-- FAILURE_JOIN: the failure that is recorded for the content of the row.
unfoldable pub failure_of : Database → Row → Option FailureRow
failure_of db row =
    and_then (lookup failure_key (row_key row) db.derivation_failures)
      λ f. if (f.size == row.size) && (f.mtime == row.mtime) then some f else none

-- RECORD_COLUMNS of a row and of the failure that is joined to it.
abbrev pub joined : Database → Row → VideoRecord
joined db row = record_from_row row (map_option (λ (f : FailureRow). f.error) (failure_of db row))

unfoldable pub is_candidate : Database → Row → Bool
is_candidate db row =
    is_none row.compat_rel_path && not (is_none row.codec_source) && is_none (failure_of db row)

unfoldable pub candidates : Database → List VideoRecord
candidates db = map (joined db) (sort row_le (keep (is_candidate db) db.videos))

pub record BrowseData : Type 0 where
  pub videos : List VideoRecord
  pub subdirectories : List Text
  pub overrides : List (Text × Text)

abbrev pub file_name_le : Row → Row → Bool
file_name_le a b = text_le a.file_name b.file_name

-- `rest.split('/').next()`
abbrev pub first_part : List Text → Option Text
first_part [] = none
first_part (p ∷ ps) = some p

-- The immediate child of the browse path that a parent directory lies in.
unfoldable pub child_of : Text → Text → Option Text
child_of prefix parent =
    and_then (strip_prefix parent prefix) λ rest. first_part (split (λ c. c == b'/') rest)

-- `Vec::dedup`: of equal neighbours the first.
unfoldable pub dedup : List Text → List Text
dedup [] = []
dedup (p ∷ []) = p ∷ []
dedup (p ∷ q ∷ ps) = let rest = dedup (q ∷ ps) in if text_eq p q then rest else p ∷ rest

abbrev pub browse_prefix : Text → Text
browse_prefix [] = []
browse_prefix (c ∷ path) = (c ∷ path) ++ b'/' ∷ []

-- SELECT DISTINCT parent …, as the set of its rows: the sort makes their order irrelevant.
unfoldable pub deeper_parents : Like → Text → Text → List Row → List Text
deeper_parents l library prefix rows =
    map (λ row. row.parent)
      (keep
        (λ row.
          text_eq row.library library
          && not (is_empty row.parent)
          && l.like (prefix_pattern prefix) row.parent)
        rows)

unfoldable pub subdirectories_of : Like → Text → Text → Database → List Text
subdirectories_of l library path db =
    let prefix = browse_prefix path in
    dedup (sort text_le (filter_map (child_of prefix) (deeper_parents l library prefix db.videos)))

unfoldable pub browse : Like → Text → Text → Database → BrowseData
browse l library path db = record {
  videos = map (joined db) (
      sort file_name_le
        (keep (λ row. text_eq row.library library && text_eq row.parent path) db.videos));
  subdirectories = subdirectories_of l library path db;
  overrides =
      map (λ o. (o.disc_set, o.main_rel_path))
        (keep (λ o. text_eq o.library library) db.disc_set_overrides);
}

abbrev pub video_key : Text → Text → Key
video_key library rel_path = record { library = library; name = rel_path }

unfoldable pub find_video : Text → Text → Database → Option VideoRecord
find_video library rel_path db =
    map_option (joined db) (lookup row_key (video_key library rel_path) db.videos)

-- ?1 IS NULL OR library = ?1
abbrev pub in_scope : Option Text → Row → Bool
in_scope none row = true
in_scope (some library) row = text_eq row.library library

unfoldable pub count_videos : Option Text → Database → ℕ
count_videos library db = length (keep (in_scope library) db.videos)

-- The methods.
abbrev pub current_generation : Index → Result ℤ × Index
current_generation = call (codes "reading the scan generation") (reading stored_generation)

abbrev pub videos_needing_probe : Index → Result (List ProbeCandidate) × Index
videos_needing_probe = call (codes "listing videos needing a probe") (reading needing_probe)

abbrev pub cached_probe : ProbeCandidate → Index → Result (Option ProbeResult) × Index
cached_probe c = call (codes "consulting the probe cache") (reading (cached c))

abbrev pub derivation_candidates : Index → Result (List VideoRecord) × Index
derivation_candidates = call (codes "listing derivation candidates") (reading candidates)

abbrev pub browse_directory : Like → Text → Text → Index → Result BrowseData × Index
browse_directory l library path =
    call (codes "listing a library directory") (reading (browse l library path))

abbrev pub video : Text → Text → Index → Result (Option VideoRecord) × Index
video library rel_path = call (codes "looking up a video") (reading (find_video library rel_path))

abbrev pub video_count : Option Text → Index → Result ℕ × Index
video_count library = call (codes "counting indexed videos") (reading (count_videos library))

-- `fts_query`: one token as a quoted phrase-prefix.
unfoldable pub quote_token : Text → Text
quote_token token = b'"' ∷ (replace_char b'"' (codes "\"\"") token ++ codes "\"*")

abbrev pub split_whitespace : Text → List Text
split_whitespace s = keep (λ p. not (is_empty p)) (split is_whitespace s)

abbrev pub joined_tokens : List Text → Option Text
joined_tokens [] = none
joined_tokens (t ∷ ts) = some (join (codes " ") (t ∷ ts))

unfoldable pub fts_query : Text → Option Text
fts_query user_input = joined_tokens (map quote_token (split_whitespace user_input))
