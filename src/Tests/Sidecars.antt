-- ===== src/Tests/Sidecars.antt =====
-- The theorems on NFO sidecars, at short documents.
use loku.Base.{[], true, false, ◌≡◌, ◌↔◌, refl}
use loku.Base.Text.{Text, codes, starts_with, contains_char, trim}
use loku.Nfo.Documents.{empty, reference}
use loku.Nfo.Entities.{
  sanitize_entities, entities_valid, valid_entity_prefix, entities_valid-sanitize,
  sanitize_of_valid,
}
use loku.Nfo.Parse.{Xml, failed, parse_nfo, ok, err, content_of}
use loku.Nfo.Plain.{IsBlank, first_line, parse_nfo_plain}

entities_valid-sanitize_example : entities_valid (sanitize_entities (codes "Tom & Jerry")) ≡ true
entities_valid-sanitize_example = entities_valid-sanitize (codes "Tom & Jerry")

sanitize_of_valid_example : sanitize_entities (codes "Tom &amp; Jerry") ≡ codes "Tom &amp; Jerry"
unfolding entities_valid valid_entity_prefix starts_with
sanitize_of_valid_example = sanitize_of_valid (codes "Tom &amp; Jerry") refl

-- A reader to which no text is a document.
abbrev pub no_xml : Xml
no_xml = record {
  events = λ _. [];
  movie_from_str = λ _. failed (codes "no document");
  episode_from_str = λ _. failed (codes "no document");
  tv_show_from_str = λ _. failed (codes "no document");
}

abbrev imdb_id : Text
imdb_id = codes "tt0083658"

parse_nfo_plain_example :
    ((parse_nfo no_xml imdb_id ≡ err empty) ↔ IsBlank imdb_id)
    × ((parse_nfo no_xml imdb_id ≡ ok (reference imdb_id)) ↔ (
        ¬ IsBlank imdb_id
        × (contains_char imdb_id b'<' ≡ false)
        × (imdb_id ≡ trim (first_line (content_of imdb_id)))))
parse_nfo_plain_example = parse_nfo_plain no_xml imdb_id imdb_id
