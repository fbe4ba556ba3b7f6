-- ===== src/Media/Codecs/Hint.antt =====
-- When a native file is offered to the player, and what its hint says.
use loku.Base.{true, Option, none, some, ◌≡◌, ◌≢◌, ◌⊎◌, ◌↔◌, arith, and_then}
use loku.Base.Text.{Text, codes, text_eq, contains_char}
use loku.Media.Compat.{CompatInputs, not_needed, decide}
use loku.Media.Compat.Verdict.{not_needed-IsSafe}
use loku.Media.Codecs.{
  native_source_type, container_mime, video_codec_token, audio_codec_token, codecs_list, hint_text,
  bare_video_token,
}

-- A hint is made from a container MIME type, the token of the video codec, and the token of the
-- audio codec where it has one.
pub native_source_type_iff :
    (ext : Text) (vcodec acodec : Option Text) (hint : Text)
    → (native_source_type ext vcodec acodec ≡ some hint) ↔ (
        (mime video token : Text) × (container_mime ext ≡ some mime)
        × (vcodec ≡ some video)
        × (video_codec_token video ≡ some token)
        × (hint ≡ hint_text mime (codecs_list token (and_then acodec audio_codec_token))))
unfolding native_source_type
native_source_type_iff ext vcodec acodec hint = ground arith

-- The names for which the two modules agree: RFC 6381 strings and the bare names of H.264.
abbrev pub IsNamed : Text → Type 0
IsNamed v =
    (contains_char v b'.' ≡ true) ⊎ ((v ≡ codes "h264") ⊎ ((v ≡ codes "avc") ⊎ (v ≡ codes "avc1")))

named_token : (v : Text) → IsNamed v → video_codec_token v ≢ none
unfolding video_codec_token bare_video_token text_eq
named_token v h = ground arith

-- A video of a named codec for which nothing is derived can be played: it has a compat copy, or
-- its native file is offered.
pub not_needed_has_source :
    (i : CompatInputs) (v : Text)
    → i.vcodec ≡ some v
    → IsNamed v
    → decide i ≡ not_needed
    → (i.has_compat ≡ true) ⊎ (native_source_type i.container i.vcodec i.acodec ≢ none)
unfolding native_source_type container_mime
not_needed_has_source i v known named h = ground (arith, not_needed-IsSafe i, named_token v named)
