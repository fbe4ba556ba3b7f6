-- ===== src/Media/Sidecars.antt =====
-- crates/server/src/media/sidecars.rs: the files that stand beside a video. serde_json is a
-- parameter.
use loku.Base.{
  ℕ, Option, none, some, List, [], ◌∷◌, ◌++◌, if◌then◌else◌, and_then, map_option, find_map,
}
use loku.Base.Text.{Text, codes, text_eq}
use loku.Base.Paths.{FilePath, path_strip_prefix, relative_text, sidecar_path}
use loku.Base.Disk.{Disk}
use loku.Index.Record.{F64}

abbrev pub video_extensions : List Text
video_extensions = codes "mp4" ∷ codes "mkv" ∷ codes "webm" ∷ codes "avi" ∷ codes "mov" ∷ []

abbrev pub thumb_extensions : List Text
thumb_extensions = codes "jpg" ∷ codes "webp" ∷ codes "png" ∷ []

-- A sidecar that is there, by its path in the library.
unfoldable pub served : Disk → FilePath → FilePath → Option Text
served disk canonical_root path =
    if disk.exists path
    then map_option relative_text (path_strip_prefix path canonical_root)
    else none

unfoldable pub find_compat : Disk → FilePath → Text → FilePath → Option Text
find_compat disk dir stem canonical_root =
    served disk canonical_root (sidecar_path dir stem (codes ".compat.mp4"))

unfoldable pub find_thumbnail : Disk → FilePath → Text → FilePath → Option Text
find_thumbnail disk dir stem canonical_root =
    find_map (λ ext. served disk canonical_root (sidecar_path dir stem (codes "." ++ ext)))
      thumb_extensions

-- What is asked of serde_json: its values, and what they hold.
pub record Json : Type 1 where
  pub Value : Type 0
  pub from_str : Text → Option Value
  pub get : Text → Value → Option Value
  pub as_str : Value → Option Text
  pub as_f64 : Value → Option F64
  pub as_u64 : Value → Option ℕ

pub record InfoJson : Type 0 where
  pub title : Option Text
  pub duration_secs : Option F64
  pub upload_date : Option Text
  pub description : Option Text
  pub channel : Option Text
  pub channel_url : Option Text
  pub webpage_url : Option Text
  pub view_count : Option ℕ
  pub vcodec : Option Text
  pub acodec : Option Text

abbrev pub no_info : InfoJson
no_info = record {
  title = none;
  duration_secs = none;
  upload_date = none;
  description = none;
  channel = none;
  channel_url = none;
  webpage_url = none;
  view_count = none;
  vcodec = none;
  acodec = none;
}

unfoldable pub str_field : (j : Json) → j.Value → Text → Option Text
str_field j json key = and_then (j.get key json) j.as_str

-- The name none stands for an absent track.
unfoldable pub codec_field : (j : Json) → j.Value → Text → Option Text
codec_field j json key =
    and_then (str_field j json key) λ v. if text_eq v (codes "none") then none else some v

unfoldable pub info_of_json : (j : Json) → j.Value → InfoJson
info_of_json j json = record {
  title = str_field j json (codes "title");
  duration_secs = and_then (j.get (codes "duration") json) j.as_f64;
  upload_date = str_field j json (codes "upload_date");
  description = str_field j json (codes "description");
  channel = str_field j json (codes "channel");
  channel_url = str_field j json (codes "channel_url");
  webpage_url = str_field j json (codes "webpage_url");
  view_count = and_then (j.get (codes "view_count") json) j.as_u64;
  vcodec = codec_field j json (codes "vcodec");
  acodec = codec_field j json (codes "acodec");
}

-- A file that is missing, cannot be read or is no JSON gives no facts.
unfoldable pub read_info_json : Disk → Json → FilePath → Text → InfoJson
read_info_json disk j dir stem =
    elim (and_then (disk.read_to_string (sidecar_path dir stem (codes ".info.json"))) j.from_str) [
      | none ↦ no_info
      | some json ↦ info_of_json j json
    ]
