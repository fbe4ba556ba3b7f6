-- ===== src/Tests/Fixtures.antt =====
-- The rows, records and libraries of the tests.
use loku.Base.{false, none, some, [], ◌∷◌, ◌++◌}
use loku.Base.Text.{Text, codes}
use loku.Base.Int.{pos}
use loku.Library.{Library, LibraryKind}
use loku.Index.Record.{VideoRecord, Row, ProbeCandidate, ProbeResult, excluded}
use loku.Index.Database.{Database, Index}

-- A scanned file of the directory discs/set, without codec facts.
abbrev pub scanned : Text → VideoRecord
scanned file_name = record {
  library = codes "discs";
  rel_path = codes "set/" ++ file_name;
  parent = codes "set";
  file_name = file_name;
  size = 700;
  mtime = 1000;
  title = none;
  title_source = none;
  duration_secs = none;
  upload_date = none;
  year = none;
  description = none;
  channel = none;
  channel_url = none;
  webpage_url = none;
  view_count = none;
  genres = [];
  container = codes "mkv";
  vcodec = none;
  acodec = none;
  vprofile = none;
  field_order = none;
  codec_source = none;
  thumb_rel_path = none;
  compat_rel_path = none;
  disc_set = some (codes "set");
  disc_title_index = none;
  derivation_error = none;
}

abbrev pub film_row : Row
film_row = excluded (scanned (codes "film.mkv")) (pos 1)

abbrev pub extra_row : Row
extra_row = excluded (scanned (codes "extra.mkv")) (pos 1)

abbrev pub two_videos : Database
two_videos = record {
  videos = film_row ∷ extra_row ∷ [];
  probe_cache = [];
  disc_set_overrides = [];
  derivation_failures = [];
  meta = [];
}

abbrev pub film_candidate : ProbeCandidate
film_candidate = record {
  library = codes "discs";
  rel_path = codes "set/film.mkv";
  size = 700;
  mtime = 1000;
}

abbrev pub film_probe : ProbeResult
film_probe = record {
  vcodec = some (codes "mpeg2video");
  acodec = some (codes "ac3");
  vprofile = none;
  field_order = some (codes "tt");
  duration_secs = none;
  width = none;
  height = none;
}

abbrev pub discs : Library
discs = record {
  name = codes "discs";
  path = codes "" ∷ codes "srv" ∷ [];
  kind = LibraryKind.discs;
}

-- A connection whose queries do not fail.
abbrev pub connection : Index
connection = record { db = two_videos; calls = 0; fails = λ _. false }
