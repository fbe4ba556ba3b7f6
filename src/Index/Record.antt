-- ===== src/Index/Record.antt =====
-- The records of crates/server/src/index/store.rs, the rows of the videos table, and the probe
-- result of crates/server/src/media/ffmpeg.rs.
use loku.Base.{
  ℕ, ◌&&◌, ◌==◌, Bool, Option, none, some, List, if◌then◌else◌, is_some, map_option, and_then, ◌≡◌,
  arith,
}
use loku.Base.Text.{Text, codes, text_eq}
use loku.Base.Int.{ℤ}
use loku.Index.Table.{Key}

-- An f64, as the bit pattern of its IEEE 754 binary64 form. The index only carries it about.
abbrev pub F64 : Type 0
F64 = ℕ

pub data TitleSource : Type 0 where
  nfo info_json rip_name : TitleSource

unfoldable pub title_source_as_str : TitleSource → Text
title_source_as_str TitleSource.nfo = codes "nfo"
title_source_as_str TitleSource.info_json = codes "info_json"
title_source_as_str TitleSource.rip_name = codes "rip_name"

unfoldable pub title_source_parse : Text → Option TitleSource
title_source_parse value =
    if text_eq value (codes "nfo")
    then some TitleSource.nfo
    else if text_eq value (codes "info_json")
    then some TitleSource.info_json
    else if text_eq value (codes "rip_name")
    then some TitleSource.rip_name
    else none

pub data CodecSource : Type 0 where
  info_json ffprobe : CodecSource

unfoldable pub codec_source_as_str : CodecSource → Text
codec_source_as_str CodecSource.info_json = codes "info_json"
codec_source_as_str CodecSource.ffprobe = codes "ffprobe"

unfoldable pub codec_source_parse : Text → Option CodecSource
codec_source_parse value =
    if text_eq value (codes "info_json")
    then some CodecSource.info_json
    else if text_eq value (codes "ffprobe")
    then some CodecSource.ffprobe
    else none

pub record VideoRecord : Type 0 where
  pub library : Text
  pub rel_path : Text
  pub parent : Text
  pub file_name : Text
  pub size : ℕ
  pub mtime : ℕ
  pub title : Option Text
  pub title_source : Option TitleSource
  pub duration_secs : Option F64
  pub upload_date : Option Text
  pub year : Option ℤ
  pub description : Option Text
  pub channel : Option Text
  pub channel_url : Option Text
  pub webpage_url : Option Text
  pub view_count : Option ℕ
  pub genres : List Text
  pub container : Text
  pub vcodec : Option Text
  pub acodec : Option Text
  pub vprofile : Option Text
  pub field_order : Option Text
  pub codec_source : Option CodecSource
  pub thumb_rel_path : Option Text
  pub compat_rel_path : Option Text
  pub disc_set : Option Text
  pub disc_title_index : Option ℕ
  pub derivation_error : Option Text

-- A row of the videos table. The column genres holds the list as JSON text, which is read back as
-- it was written.
pub record Row : Type 0 where
  pub library : Text
  pub rel_path : Text
  pub parent : Text
  pub file_name : Text
  pub size : ℕ
  pub mtime : ℕ
  pub title : Option Text
  pub title_source : Option Text
  pub duration_secs : Option F64
  pub upload_date : Option Text
  pub year : Option ℤ
  pub description : Option Text
  pub channel : Option Text
  pub channel_url : Option Text
  pub webpage_url : Option Text
  pub view_count : Option ℕ
  pub genres : List Text
  pub container : Text
  pub vcodec : Option Text
  pub acodec : Option Text
  pub vprofile : Option Text
  pub field_order : Option Text
  pub codec_source : Option Text
  pub thumb_rel_path : Option Text
  pub compat_rel_path : Option Text
  pub disc_set : Option Text
  pub disc_title_index : Option ℕ
  pub last_seen : ℤ

abbrev pub row_key : Row → Key
row_key r = record { library = r.library; name = r.rel_path }

abbrev pub record_key : VideoRecord → Key
record_key r = record { library = r.library; name = r.rel_path }

-- The VALUES of the upsert: a scanned record under its scan's generation.
unfoldable pub excluded : VideoRecord → ℤ → Row
excluded r generation = record {
  library = r.library;
  rel_path = r.rel_path;
  parent = r.parent;
  file_name = r.file_name;
  size = r.size;
  mtime = r.mtime;
  title = r.title;
  title_source = map_option title_source_as_str r.title_source;
  duration_secs = r.duration_secs;
  upload_date = r.upload_date;
  year = r.year;
  description = r.description;
  channel = r.channel;
  channel_url = r.channel_url;
  webpage_url = r.webpage_url;
  view_count = r.view_count;
  genres = r.genres;
  container = r.container;
  vcodec = r.vcodec;
  acodec = r.acodec;
  vprofile = r.vprofile;
  field_order = r.field_order;
  codec_source = map_option codec_source_as_str r.codec_source;
  thumb_rel_path = r.thumb_rel_path;
  compat_rel_path = r.compat_rel_path;
  disc_set = r.disc_set;
  disc_title_index = r.disc_title_index;
  last_seen = generation;
}

-- The file behind the row has the content that the new row describes.
abbrev pub same_content : Row → Row → Bool
same_content old new = (new.size == old.size) && (new.mtime == old.mtime)

-- CASE WHEN `given` THEN `new` WHEN `unchanged` THEN `old` ELSE NULL END
abbrev pub case_rule {ℓ} : {A : Type ℓ} → Bool → Bool → Option A → Option A → Option A
case_rule given unchanged new old = if given then new else if unchanged then old else none

-- ON CONFLICT (library, rel_path) DO UPDATE SET …: every other column is the new row's.
unfoldable pub on_conflict : Row → Row → Row
on_conflict old new =
    let given = is_some new.codec_source in
    let unchanged = same_content old new in
    record new {
      library = old.library;
      rel_path = old.rel_path;
      duration_secs =
          case_rule (is_some new.duration_secs) unchanged new.duration_secs old.duration_secs;
      vcodec = case_rule given unchanged new.vcodec old.vcodec;
      acodec = case_rule given unchanged new.acodec old.acodec;
      vprofile = case_rule given unchanged new.vprofile old.vprofile;
      field_order = case_rule given unchanged new.field_order old.field_order;
      codec_source = case_rule given unchanged new.codec_source old.codec_source;
    }

-- A row with the error of the failure that is joined to it.
unfoldable pub record_from_row : Row → Option Text → VideoRecord
record_from_row r error = record {
  library = r.library;
  rel_path = r.rel_path;
  parent = r.parent;
  file_name = r.file_name;
  size = r.size;
  mtime = r.mtime;
  title = r.title;
  title_source = and_then r.title_source title_source_parse;
  duration_secs = r.duration_secs;
  upload_date = r.upload_date;
  year = r.year;
  description = r.description;
  channel = r.channel;
  channel_url = r.channel_url;
  webpage_url = r.webpage_url;
  view_count = r.view_count;
  genres = r.genres;
  container = r.container;
  vcodec = r.vcodec;
  acodec = r.acodec;
  vprofile = r.vprofile;
  field_order = r.field_order;
  codec_source = and_then r.codec_source codec_source_parse;
  thumb_rel_path = r.thumb_rel_path;
  compat_rel_path = r.compat_rel_path;
  disc_set = r.disc_set;
  disc_title_index = r.disc_title_index;
  derivation_error = error;
}

pub record ProbeCandidate : Type 0 where
  pub library : Text
  pub rel_path : Text
  pub size : ℕ
  pub mtime : ℕ

pub record ProbeResult : Type 0 where
  pub vcodec : Option Text
  pub acodec : Option Text
  pub vprofile : Option Text
  pub field_order : Option Text
  pub duration_secs : Option F64
  pub width : Option ℤ
  pub height : Option ℤ

-- What is scanned without an error is read back as it was, from a row that is new to the table.
pub record_from_row-excluded :
    (r : VideoRecord) (generation : ℤ)
    → record_from_row (excluded r generation) r.derivation_error ≡ r
unfolding record_from_row excluded title_source_parse title_source_as_str codec_source_parse
    codec_source_as_str text_eq
record_from_row-excluded r generation = ground arith
