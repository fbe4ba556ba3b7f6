-- ===== src/Media/Ffmpeg.antt =====
-- crates/server/src/media/ffmpeg.rs: the errors, the facts taken from ffprobe's report, the
-- arguments of ffmpeg, and the tail of its error output.
pub mod Report
use loku.Base.{
  ℕ, Bool, true, false, not, ◌&&◌, ◌||◌, ◌==◌, Option, none, some, List, [], ◌∷◌, ◌++◌,
  if◌then◌else◌, find, is_some_and, and_then, map_option, unwrap_or, length, leb, ◌-◌, zero, suc,
}
use loku.Base.Text.{Text, codes, text_eq}
use loku.Base.Int.{ℤ, pos, negsuc}
use loku.Index.Record.{F64, ProbeResult}
use loku.Media.Compat.{VideoAction, AudioAction, CompatPlan}

pub data ProbeError : Type 0 where
  ffprobe_spawn : Text → Text → ProbeError
  ffprobe_timeout : Text → ℕ → ProbeError
  ffprobe_exit : Text → Text → Text → ProbeError
  ffprobe_output_parse : Text → Text → ProbeError

-- The failure is a fact about the file, and not of the moment.
unfoldable pub is_definitive : ProbeError → Bool
is_definitive (ffprobe_spawn path source) = false
is_definitive (ffprobe_timeout path timeout_secs) = false
is_definitive (ffprobe_exit path status stderr_tail) = true
is_definitive (ffprobe_output_parse path source) = true

pub data DeriveError : Type 0 where
  ffmpeg_spawn : Text → Text → DeriveError
  ffmpeg_timeout : Text → ℕ → DeriveError
  ffmpeg_exit : Text → Text → Text → DeriveError

pub record FfprobeStream : Type 0 where
  pub codec_type : Option Text
  pub codec_name : Option Text
  pub profile : Option Text
  pub field_order : Option Text
  pub width : Option ℤ
  pub height : Option ℤ
  -- disposition.attached_pic, where there is a disposition
  pub attached_pic : Option (Option ℤ)

pub record FfprobeOutput : Type 0 where
  pub streams : List FfprobeStream
  -- format.duration, where there is a format
  pub duration : Option (Option Text)

abbrev pub no_facts : ProbeResult
no_facts = record {
  vcodec = none;
  acodec = none;
  vprofile = none;
  field_order = none;
  duration_secs = none;
  width = none;
  height = none;
}

abbrev pub is_zero : ℤ → Bool
is_zero (pos n) = n == 0
is_zero (negsuc n) = false

abbrev pub flatten {ℓ} : {A : Type ℓ} → Option (Option A) → Option A
flatten none = none
flatten (some o) = o

abbrev pub has_type : Text → FfprobeStream → Bool
has_type kind s = is_some_and s.codec_type λ t. text_eq t kind

-- A video stream that is no attached picture.
unfoldable pub is_real_video : FfprobeStream → Bool
is_real_video s = has_type (codes "video") s && is_zero (unwrap_or (flatten s.attached_pic) (pos 0))

-- `ProbeResult::from`, with the parser of f64 as a parameter.
unfoldable pub probe_result_from : (Text → Option F64) → FfprobeOutput → ProbeResult
probe_result_from parse_f64 output =
    let video = find is_real_video output.streams in
    let audio = find (has_type (codes "audio")) output.streams in
    record {
      vcodec = and_then video (λ s. s.codec_name);
      acodec = and_then audio (λ s. s.codec_name);
      vprofile = and_then video (λ s. s.profile);
      field_order = and_then video (λ s. s.field_order);
      duration_secs = and_then (flatten output.duration) parse_f64;
      width = and_then video (λ s. s.width);
      height = and_then video (λ s. s.height);
    }

abbrev pub video_args : VideoAction → List Text
video_args VideoAction.copy = codes "-c:v" ∷ codes "copy" ∷ []
video_args (VideoAction.transcode deinterlace) =
    (if deinterlace then codes "-vf" ∷ codes "bwdif" ∷ [] else [])
    ++ (codes "-c:v"
        ∷ codes "libx264"
        ∷ codes "-preset"
        ∷ codes "medium"
        ∷ codes "-crf"
        ∷ codes "20"
        ∷ [])

abbrev pub audio_args : AudioAction → List Text
audio_args AudioAction.copy = codes "-c:a" ∷ codes "copy" ∷ []
audio_args AudioAction.transcode = codes "-c:a" ∷ codes "aac" ∷ codes "-b:a" ∷ codes "192k" ∷ []

-- The arguments of ffmpeg for a compat copy.
unfoldable pub derive_args : Text → Text → CompatPlan → List Text
derive_args source dest plan =
    (codes "-loglevel" ∷ codes "error" ∷ codes "-y" ∷ codes "-i" ∷ source ∷ [])
    ++ (video_args plan.video
        ++ (audio_args plan.audio
            ++ (codes "-map"
                ∷ codes "0:v:0"
                ∷ codes "-map"
                ∷ codes "0:a:0?"
                ∷ codes "-sn"
                ∷ codes "-dn"
                ∷ codes "-movflags"
                ∷ codes "+faststart"
                ∷ dest
                ∷ [])))

abbrev pub tail_chars : ℕ
tail_chars = 500

-- The end of the text from the character that `n` characters are behind, if there is one:
-- `char_indices().rev().nth(n)` and `text[idx..]`.
unfoldable pub nth_back : ℕ → Text → Option Text
nth_back n [] = none
nth_back n (c ∷ s) = elim (nth_back n s) [
  | some end ↦ some end
  | none ↦ if length s == n then some (c ∷ s) else none
]

unfoldable pub tail : Text → Text
tail text = unwrap_or (nth_back (tail_chars - 1) text) text
