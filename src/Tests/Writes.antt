-- ===== src/Tests/Writes.antt =====
-- The theorems on the index's writes and reads, at a directory of two files.
use loku.Base.{
  arith, ℕ, ◌&&◌, ◌==◌, true, false, Option, none, some, List, [], ◌∷◌, ◌++◌, ◌≡◌, refl,
  if◌then◌else◌, map_option,
}
use loku.Base.Text.{Text, codes, to_ascii_lowercase}
use loku.Base.Int.{pos}
use loku.Index.Table.{key_eq, lookup, unless, IsUnique}
use loku.Index.Record.{VideoRecord, Row, ProbeCandidate, row_key, record_key, excluded}
use loku.Index.Database.{empty}
use loku.Index.Writes.{reconcile_tx, remove_tree_tx, record_probe_tx, candidate_key, in_directory}
use loku.Index.Writes.Reconcile.{row_after, lookup-reconcile}
use loku.Index.Writes.Sweep.{remove_tree_other_case, remove_tree_root}
use loku.Index.Writes.Probe.{cached-record_probe, rescan_probe, HasFacts}
use loku.Index.Reads.{cached, split_whitespace, fts_query}
use loku.Index.Reads.Queries.{Reads, read_phrases-fts_query}
use loku.Tests.Matcher.{sqlite}
use loku.Tests.Fixtures.{scanned, film_row, extra_row, two_videos, film_candidate, film_probe}

two_videos-IsUnique : IsUnique row_key two_videos.videos
unfolding lookup key_eq loku.Base.Text.text_eq excluded
two_videos-IsUnique = (refl, (refl, tt))

abbrev film : VideoRecord
film = scanned (codes "film.mkv")

-- A rescan finds the film only.
lookup-reconcile_example :
    lookup row_key
      (row_key extra_row)
      (reconcile_tx (codes "discs") (codes "set") (film ∷ []) (pos 2) two_videos).1.videos
    ≡ row_after
        (lookup record_key (row_key extra_row) (film ∷ []))
        (pos 2)
        (lookup row_key (row_key extra_row) two_videos.videos)
        (unless row_key
          (in_directory (codes "discs") (codes "set"))
          (lookup row_key (row_key extra_row) two_videos.videos))
unfolding lookup
lookup-reconcile_example =
    lookup-reconcile (codes "discs") (codes "set") (film ∷ []) (pos 2) two_videos
      (row_key extra_row) ((refl, refl), tt) (refl, tt) two_videos-IsUnique

-- The file Set/extras/a.mkv, which the removal of the directory set takes with it.
abbrev below_other_case : Row
below_other_case = record (excluded film (pos 1)) {
  rel_path = codes "Set/extras/a.mkv";
  parent = codes "Set/extras";
}

remove_tree_other_case_example :
    lookup row_key
      (row_key below_other_case)
      (remove_tree_tx sqlite
        (codes "discs")
        (codes "set")
        (record empty { videos = below_other_case ∷ [] })).1.videos
    ≡ none
unfolding lookup loku.Base.Text.ascii_lower excluded key_eq loku.Base.Text.text_eq
remove_tree_other_case_example =
    remove_tree_other_case sqlite (codes "discs") (codes "set") (codes "Set") (codes "extras")
      (record empty { videos = below_other_case ∷ [] }) below_other_case (refl, tt) refl refl refl
      refl

remove_tree_root_example :
    lookup row_key (row_key film_row) (remove_tree_tx sqlite (codes "discs") [] two_videos).1.videos
    ≡ some film_row
unfolding lookup excluded key_eq loku.Base.Text.text_eq
remove_tree_root_example =
    remove_tree_root sqlite (codes "discs") b's' (codes "et") two_videos film_row
      two_videos-IsUnique refl refl refl

abbrev grown : ProbeCandidate
grown = record film_candidate { size = 800 }

cached-record_probe_example :
    cached grown (record_probe_tx film_candidate film_probe two_videos).1 ≡ (
      if (film_candidate.size == grown.size) && (film_candidate.mtime == grown.mtime)
      then some film_probe
      else none)
cached-record_probe_example = cached-record_probe film_candidate grown film_probe two_videos refl

rescan_probe_example :
    (row : Row) × (lookup row_key
        (candidate_key film_candidate)
        (reconcile_tx
          (codes "discs")
          (codes "set")
          (film ∷ [])
          (pos 2)
          (record_probe_tx film_candidate film_probe two_videos).1).1.videos
      ≡ some row)
    × HasFacts row
        (some (codes "ffprobe"))
        (some (codes "mpeg2video"))
        (some (codes "ac3"))
        none
        (some (codes "tt"))
unfolding lookup excluded key_eq loku.Base.Text.text_eq
rescan_probe_example =
    rescan_probe (codes "discs") (codes "set") (film ∷ []) (pos 2) two_videos film_candidate
      film_probe film_row film ((refl, refl), tt) (refl, tt) two_videos-IsUnique refl refl refl

read_phrases-fts_query_example :
    Reads (split_whitespace (codes "say \"hi\" OR")) (fts_query (codes "say \"hi\" OR"))
read_phrases-fts_query_example = read_phrases-fts_query (codes "say \"hi\" OR")
