-- ===== src/Media/Compat.antt =====
-- crates/server/src/media/compat.rs: the planner that decides what to derive for a video.
pub mod Playable
pub mod Verdict
use loku.Base.{
  ℕ, ◌<◌, Bool, true, false, not, ◌&&◌, ◌||◌, Option, none, some, [], ◌∷◌, if◌then◌else◌, ltb,
  is_some_and, is_none_or, and_then,
}
use loku.Base.Text.{
  Text, codes, text_eq, starts_with, contains, split, to_ascii_lowercase, ascii_lower,
}
use loku.Base.{List, ◌==◌}

pub data VideoAction : Type 0 where
  copy : VideoAction
  transcode : Bool → VideoAction

pub data AudioAction : Type 0 where
  copy transcode : AudioAction

pub record CompatPlan : Type 0 where
  pub video : VideoAction
  pub audio : AudioAction

pub data DerivationDecision : Type 0 where
  not_needed : DerivationDecision
  produce : CompatPlan → DerivationDecision
  unplannable : DerivationDecision

pub record CompatInputs : Type 0 where
  pub container : Text
  pub vcodec : Option Text
  pub vprofile : Option Text
  pub acodec : Option Text
  pub field_order : Option Text
  pub has_compat : Bool

unfoldable pub is_h264 : Text → Bool
is_h264 vcodec =
    text_eq vcodec (codes "h264")
    || text_eq vcodec (codes "avc")
    || starts_with vcodec (codes "avc1")
    || starts_with vcodec (codes "avc3")

unfoldable pub is_aac : Text → Bool
is_aac acodec = text_eq acodec (codes "aac") || starts_with acodec (codes "mp4a")

-- `tail.get(0..2)`: the first two bytes of the UTF-8 text, if they end at a character's end.
unfoldable pub first_two_bytes : Text → Option Text
first_two_bytes [] = none
first_two_bytes (c ∷ []) = if ltb c 0x80 then none else if ltb c 0x800 then some (c ∷ []) else none
first_two_bytes (c ∷ d ∷ s) =
    if ltb c 0x80
    then (if ltb d 0x80 then some (c ∷ d ∷ []) else none)
    else if ltb c 0x800
    then some (c ∷ [])
    else none

-- `parts.nth(1)`
abbrev pub nth_1 : List Text → Option Text
nth_1 [] = none
nth_1 (p ∷ []) = none
nth_1 (p ∷ q ∷ ps) = some q

unfoldable pub unsafe_profile_hex : Text → Bool
unsafe_profile_hex profile_hex =
    let lowered = to_ascii_lowercase profile_hex in
    text_eq lowered (codes "6e") || text_eq lowered (codes "7a") || text_eq lowered (codes "f4")

unfoldable pub rfc_profile_is_unsafe : Text → Bool
rfc_profile_is_unsafe vcodec =
    is_some_and (and_then (nth_1 (split (λ c. c == b'.') vcodec)) first_two_bytes)
      unsafe_profile_hex

unfoldable pub lowered_profile_is_safe : Text → Bool
lowered_profile_is_safe p =
    let lowered = to_ascii_lowercase p in
    not (contains lowered (codes "10")) && not (contains lowered (codes "4:2:2"))

unfoldable pub profile_is_browser_safe : Option Text → Bool
profile_is_browser_safe profile = is_none_or profile lowered_profile_is_safe

unfoldable pub interlaced_order : Text → Bool
interlaced_order order =
    text_eq order (codes "tt")
    || text_eq order (codes "bb")
    || text_eq order (codes "tb")
    || text_eq order (codes "bt")

unfoldable pub is_interlaced : Option Text → Bool
is_interlaced field_order = is_some_and field_order interlaced_order

-- `video_safe` and `audio_safe` of `decide`.
unfoldable pub video_safe : CompatInputs → Text → Bool
video_safe inputs vcodec =
    is_h264 vcodec && not (rfc_profile_is_unsafe vcodec) && profile_is_browser_safe inputs.vprofile

unfoldable pub audio_safe : CompatInputs → Bool
audio_safe inputs = is_none_or inputs.acodec is_aac

-- The plan for streams of which it is known whether a browser plays them.
abbrev pub plan_for : CompatInputs → Bool → Bool → CompatPlan
plan_for inputs video_ok audio_ok = record {
  video = if video_ok then VideoAction.copy else transcode (is_interlaced inputs.field_order);
  audio = if audio_ok then AudioAction.copy else AudioAction.transcode;
}

unfoldable pub decide : CompatInputs → DerivationDecision
decide inputs = if inputs.has_compat then not_needed else elim inputs.vcodec [
  | none ↦ unplannable
  | some vcodec ↦
      let video_ok = video_safe inputs vcodec in
      let audio_ok = audio_safe inputs in
      if text_eq inputs.container (codes "mp4") && video_ok && audio_ok
      then not_needed
      else produce (plan_for inputs video_ok audio_ok)
]
