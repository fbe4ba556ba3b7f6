-- ===== src/Nfo/Parse.antt =====
-- `parse_nfo` of crates/lib/src/nfo.rs and the paths where sidecars are looked for. The events of
-- quick_xml's reader and its deserializers are a parameter.
use loku.Base.{
  not, ◌==◌, Option, none, some, List, [], ◌∷◌, ◌++◌, map, if◌then◌else◌, and_then, unwrap_or, find,
}
use loku.Base.Text.{
  Text, codes, trim, trim_start_by, text_eq, contains_char, is_empty, split, strip_suffix,
  to_ascii_lowercase,
}
use loku.Base.Paths.{FilePath, parent, file_stem, child}
use loku.Nfo.Documents.{
  Nfo, MovieNfo, EpisodeNfo, TvShowNfo, NfoError, movie, episode, tv_show, reference, empty,
  missing_root, unrecognized_root, xml_parse,
}
use loku.Nfo.Entities.{sanitize_entities}

pub data Result {ℓ} (A : Type ℓ) : Type ℓ where
  ok : A → Result A
  err : NfoError → Result A

-- What quick_xml's reader reports of a document, up to its end.
pub data Event : Type 0 where
  start_tag : Text → Event
  empty_tag : Text → Event
  other : Event
  eof : Event
  broken : Event

-- A deserializer's value or its error.
pub data Parsed {ℓ} (A : Type ℓ) : Type ℓ where
  value : A → Parsed A
  failed : Text → Parsed A

pub record Xml : Type 0 where
  pub events : Text → List Event
  pub movie_from_str : Text → Parsed MovieNfo
  pub episode_from_str : Text → Parsed EpisodeNfo
  pub tv_show_from_str : Text → Parsed TvShowNfo

-- The lines of the parts between line feeds: a part with a line feed behind it loses a carriage
-- return at its end, and a last part is a line unless it is empty.
unfoldable pub ended_lines : List Text → List Text
ended_lines [] = []
ended_lines (p ∷ []) = if is_empty p then [] else p ∷ []
ended_lines (p ∷ q ∷ ps) = unwrap_or (strip_suffix p (codes "\r")) p ∷ ended_lines (q ∷ ps)

-- `s.lines()`
unfoldable pub lines : Text → List Text
lines s = ended_lines (split (λ c. c == 10) s)

unfoldable pub reference_line : Text → Text
reference_line content =
    unwrap_or (find (λ line. not (is_empty line)) (map trim (lines content))) content

unfoldable pub root_of_events : List Event → Option Text
root_of_events [] = none
root_of_events (start_tag name ∷ es) = some name
root_of_events (empty_tag name ∷ es) = some name
root_of_events (other ∷ es) = root_of_events es
root_of_events (eof ∷ es) = none
root_of_events (broken ∷ es) = none

unfoldable pub deserialized {ℓ} : {A : Type ℓ} → Text → (A → Nfo) → Parsed A → Result Nfo
deserialized root wrap (value a) = ok (wrap a)
deserialized root wrap (failed source) = err (xml_parse root source)

-- The document under its root element.
unfoldable pub parse_document : Xml → Text → Text → Result Nfo
unfolding deserialized
parse_document xml sanitized root =
    let lowered = to_ascii_lowercase root in
    if text_eq lowered (codes "movie")
    then deserialized root movie (xml.movie_from_str sanitized)
    else if text_eq lowered (codes "episodedetails")
    then deserialized root episode (xml.episode_from_str sanitized)
    else if text_eq lowered (codes "tvshow")
    then deserialized root tv_show (xml.tv_show_from_str sanitized)
    else err (unrecognized_root root)

unfoldable pub parse_xml : Xml → Text → Result Nfo
parse_xml xml sanitized = elim (root_of_events (xml.events sanitized)) [
  | none ↦ err missing_root
  | some root ↦ parse_document xml sanitized root
]

abbrev pub content_of : Text → Text
content_of input = trim (trim_start_by (λ c. c == 0xFEFF) input)

unfoldable pub parse_nfo : Xml → Text → Result Nfo
parse_nfo xml input =
    let content = content_of input in
    if is_empty content
    then err empty
    else if not (contains_char content b'<')
    then ok (reference (reference_line content))
    else parse_xml xml (sanitize_entities content)

-- A numeric element: absent, empty and junk values are all absent.
unfoldable pub forgiving_number {ℓ} : {T : Type ℓ} → (Text → Option T) → Option Text → Option T
forgiving_number parse element = and_then element λ s. parse (trim s)

-- The file's own sidecar, if it has a name, and then the folder's.
unfoldable pub nfo_candidates : FilePath → List FilePath
nfo_candidates video_path =
    let dir = unwrap_or (parent video_path) [] in
    let folder = child dir (codes "movie.nfo") ∷ [] in
    elim (file_stem video_path) [
      | none ↦ folder
      | some stem ↦ child dir (stem ++ codes ".nfo") ∷ folder
    ]

unfoldable pub tvshow_nfo_path : FilePath → FilePath
tvshow_nfo_path show_dir = child show_dir (codes "tvshow.nfo")
