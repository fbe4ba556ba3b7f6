-- ===== src/Media/Compat/Verdict.antt =====
-- What the verdict of `decide` means: when nothing is derived, and that what is derived plays.
use loku.Base.{true, false, Option, some, ◌≡◌, ◌↔◌, ◌⊎◌, refl, arith}
use loku.Base.Text.{Text, codes, text_eq, text_eq_refl, split}
use loku.Media.Compat.Playable.{PlaysVideo, PlaysSound}
use loku.Media.Compat.{
  VideoAction, AudioAction, CompatPlan, transcode, produce, CompatInputs, not_needed, is_h264,
  is_aac, rfc_profile_is_unsafe, profile_is_browser_safe, video_safe, audio_safe, decide,
}

-- The planner's own words for it.
abbrev pub IsSafe : CompatInputs → Text → Type 0
IsSafe i vcodec =
    (i.vcodec ≡ some vcodec)
    × (text_eq i.container (codes "mp4") ≡ true)
    × (video_safe i vcodec ≡ true)
    × (audio_safe i ≡ true)

pub not_needed-IsSafe :
    (i : CompatInputs)
    → (decide i ≡ not_needed) ↔ ((i.has_compat ≡ true) ⊎ ((vcodec : Text) × IsSafe i vcodec))
unfolding decide
not_needed-IsSafe i = ground arith

-- A video that every supported browser plays: an MP4 file with video and sound that they play.
pub record IsUniversal (i : CompatInputs) : Type 0 where
  pub vcodec : Text
  pub known : i.vcodec ≡ some vcodec
  pub in_mp4 : i.container ≡ codes "mp4"
  pub video : PlaysVideo vcodec i.vprofile
  pub sound : PlaysSound i.acodec

-- The codec facts of a copy made by a plan: an MP4 file, whose re-encoded streams are H.264 of
-- the profile that the encoder picks, and AAC.
unfoldable pub derived : CompatInputs → CompatPlan → Option Text → CompatInputs
derived i plan encoder_profile = record {
  container = codes "mp4";
  vcodec = elim plan.video [ VideoAction.copy ↦ i.vcodec | transcode _ ↦ some (codes "h264") ];
  vprofile = elim plan.video [ VideoAction.copy ↦ i.vprofile | transcode _ ↦ encoder_profile ];
  acodec = elim plan.audio [
    | AudioAction.copy ↦ i.acodec
    | AudioAction.transcode ↦ some (codes "aac")
  ];
  field_order = i.field_order;
  has_compat = false;
}

names_plain :
    (is_h264 (codes "h264") ≡ true)
    × (rfc_profile_is_unsafe (codes "h264") ≡ false)
    × (is_aac (codes "aac") ≡ true)
unfolding is_h264 rfc_profile_is_unsafe is_aac text_eq split
names_plain = (refl, refl, refl)

-- A copy made by the plan of `decide` needs no further copy, if the encoder picks a profile that
-- browsers play.
pub decide-derived :
    (i : CompatInputs) (plan : CompatPlan) (encoder_profile : Option Text)
    → profile_is_browser_safe encoder_profile ≡ true
    → decide i ≡ produce plan
    → decide (derived i plan encoder_profile) ≡ not_needed
unfolding decide video_safe audio_safe derived
decide-derived i plan encoder_profile safe h =
    ground (arith, names_plain, text_eq_refl (codes "mp4"))

-- ffprobe's words for interlaced video.
abbrev pub SaysInterlaced : Option Text → Type 0
SaysInterlaced field_order =
    (field_order ≡ some (codes "tt"))
    ⊎ ((field_order ≡ some (codes "bb"))
        ⊎ ((field_order ≡ some (codes "tb")) ⊎ (field_order ≡ some (codes "bt"))))
