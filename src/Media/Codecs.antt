-- ===== src/Media/Codecs.antt =====
-- crates/server/src/media/codecs.rs: the `<source type>` hint for a native file.
pub mod Hint
use loku.Base.{Bool, Option, none, some, ◌++◌, ◌||◌, if◌then◌else◌, and_then, map_option}
use loku.Base.Text.{Text, codes, text_eq, contains_char}

unfoldable pub bare_video_token : Text → Option Text
bare_video_token vcodec =
    if text_eq vcodec (codes "vp8")
    then some (codes "vp8")
    else if text_eq vcodec (codes "vp9")
    then some (codes "vp9")
    else if text_eq vcodec (codes "av1")
    then some (codes "av01.0.05M.08")
    else if text_eq vcodec (codes "h264")
        || text_eq vcodec (codes "avc")
        || text_eq vcodec (codes "avc1")
    then some (codes "avc1.42E01E")
    else if text_eq vcodec (codes "h265")
        || text_eq vcodec (codes "hevc")
        || text_eq vcodec (codes "hvc1")
        || text_eq vcodec (codes "hev1")
    then some (codes "hvc1.1.6.L93.B0")
    else none

unfoldable pub video_codec_token : Text → Option Text
video_codec_token vcodec =
    if contains_char vcodec b'.' then some vcodec else bare_video_token vcodec

unfoldable pub bare_audio_token : Text → Option Text
bare_audio_token acodec =
    if text_eq acodec (codes "aac")
    then some (codes "mp4a.40.2")
    else if text_eq acodec (codes "opus")
    then some (codes "opus")
    else if text_eq acodec (codes "vorbis")
    then some (codes "vorbis")
    else none

unfoldable pub audio_codec_token : Text → Option Text
audio_codec_token acodec =
    if contains_char acodec b'.' then some acodec else bare_audio_token acodec

-- The MIME type of a container, where the web has one.
unfoldable pub container_mime : Text → Option Text
container_mime ext =
    if text_eq ext (codes "mp4")
    then some (codes "video/mp4")
    else if text_eq ext (codes "webm")
    then some (codes "video/webm")
    else none

unfoldable pub codecs_list : Text → Option Text → Text
codecs_list video none = video
codecs_list video (some audio) = video ++ (codes ", " ++ audio)

unfoldable pub hint_text : Text → Text → Text
hint_text container codecs = container ++ (codes "; codecs=\"" ++ (codecs ++ codes "\""))

unfoldable pub native_source_type : Text → Option Text → Option Text → Option Text
native_source_type ext vcodec acodec = and_then (container_mime ext) λ container.
    and_then vcodec λ v.
      and_then (video_codec_token v)
        λ video. some (hint_text container (codecs_list video (and_then acodec audio_codec_token)))
