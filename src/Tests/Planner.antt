-- ===== src/Tests/Planner.antt =====
-- The theorems on the planner, on native sources and on ffmpeg's reports, at videos of a library.
use loku.Base.{
  ℕ, true, false, Option, none, some, List, [], ◌∷◌, ◌++◌, ◌≡◌, ◌≢◌, ◌⊎◌, inl, inr, refl, arith,
  and_then, All, length, min,
}
use loku.Base.Text.{Text, codes, text_eq, starts_with, contains, contains_char, split}
use loku.Base.Int.{ℤ, pos}
use loku.Index.Record.{F64}
use loku.Media.Compat.{
  CompatInputs, AudioAction, CompatPlan, transcode, decide, not_needed, produce,
  profile_is_browser_safe, lowered_profile_is_safe, is_interlaced, interlaced_order, video_safe,
  audio_safe, is_h264, is_aac, rfc_profile_is_unsafe,
}
use loku.Media.Compat.Verdict.{decide-derived, derived}
use loku.Media.Codecs.{native_source_type}
use loku.Media.Codecs.Hint.{not_needed_has_source}
use loku.Media.Ffmpeg.{FfprobeStream, tail, tail_chars}
use loku.Media.Ffmpeg.Report.{tail_lem}

-- The video of a DVD: interlaced MPEG-2 with AC-3 sound.
abbrev dvd : CompatInputs
dvd = record {
  container = codes "mkv";
  vcodec = some (codes "mpeg2video");
  vprofile = some (codes "Main");
  acodec = some (codes "ac3");
  field_order = some (codes "tt");
  has_compat = false;
}

-- An MP4 file of one codec, with AAC sound.
abbrev mp4_of : Text → CompatInputs
mp4_of vcodec = record {
  container = codes "mp4";
  vcodec = some vcodec;
  vprofile = none;
  acodec = some (codes "aac");
  field_order = none;
  has_compat = false;
}

abbrev dvd_plan : CompatPlan
dvd_plan = record { video = transcode true; audio = AudioAction.transcode }

dvd_plan_test : decide dvd ≡ produce dvd_plan
unfolding decide text_eq video_safe audio_safe is_h264 is_aac starts_with is_interlaced
    interlaced_order
dvd_plan_test = refl

decide-derived_example : decide (derived dvd dvd_plan (some (codes "High"))) ≡ not_needed
unfolding profile_is_browser_safe lowered_profile_is_safe contains loku.Base.Text.ascii_lower
decide-derived_example = decide-derived dvd dvd_plan (some (codes "High")) refl dvd_plan_test

mp4_test : decide (mp4_of (codes "h264")) ≡ not_needed
unfolding decide text_eq video_safe is_h264 rfc_profile_is_unsafe split profile_is_browser_safe
    audio_safe is_aac
mp4_test = refl

not_needed_has_source_example :
    ((mp4_of (codes "h264")).has_compat ≡ true)
    ⊎ (native_source_type (codes "mp4") (some (codes "h264")) (some (codes "aac")) ≢ none)
not_needed_has_source_example =
    not_needed_has_source (mp4_of (codes "h264")) (codes "h264") refl (inr (inl refl)) mp4_test

abbrev stream_of : Text → Text → Option (Option ℤ) → FfprobeStream
stream_of codec_type codec_name attached_pic = record {
  codec_type = some codec_type;
  codec_name = some codec_name;
  profile = none;
  field_order = none;
  width = none;
  height = none;
  attached_pic = attached_pic;
}

abbrev cover : FfprobeStream
cover = stream_of (codes "video") (codes "mjpeg") (some (some (pos 1)))

abbrev film : FfprobeStream
film = stream_of (codes "video") (codes "h264") none

abbrev no_number : Text → Option F64
no_number _ = none

tail_lem_example :
    (front : Text) × (codes "moov atom not found" ≡ front ++ tail (codes "moov atom not found"))
    × (length (tail (codes "moov atom not found"))
        ≡ min tail_chars (length (codes "moov atom not found")))
tail_lem_example = tail_lem (codes "moov atom not found")
