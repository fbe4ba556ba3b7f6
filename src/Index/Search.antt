-- ===== src/Index/Search.antt =====
-- `Index::search` of crates/server/src/index/store.rs. The full-text matcher of SQLite's FTS5 and the
-- order that it gives its matches are a parameter.
use loku.Base.{ℕ, Bool, ◌&&◌, Option, List, keep, map, length, take, drop}
use loku.Base.Text.{Text, codes}
use loku.Index.Record.{Row, VideoRecord}
use loku.Index.Database.{Database, Index, Result, call}
use loku.Index.Reads.{reading, joined, in_scope}

-- Which rows a match expression matches, and the order in which a query with a limit and an offset
-- goes through its matches: by bm25, which depends on all rows, and for equal ranks as it likes.
pub record Fts : Type 0 where
  pub matches : Text → Row → Bool
  pub order : Text → ℕ → ℕ → List Row → List Row → List Row

pub record SearchResults : Type 0 where
  pub total : ℕ
  pub items : List VideoRecord

abbrev pub matching : Fts → Text → Option Text → Database → List Row
matching fts query library db =
    keep (λ row. fts.matches query row && in_scope library row) db.videos

unfoldable pub search_page : Fts → Text → Option Text → ℕ → ℕ → Database → SearchResults
search_page fts query library limit offset db =
    let matched = matching fts query library db in
    record {
      total = length matched;
      items =
          map (joined db)
            (take limit (drop offset (fts.order query limit offset db.videos matched)));
    }

abbrev pub search : Fts → Text → Option Text → ℕ → ℕ → Index → Result SearchResults × Index
search fts query library limit offset =
    call (codes "searching the index") (reading (search_page fts query library limit offset))
