-- ===== src/Routes/Found.antt =====
-- What the pages of a search hold.
use loku.Base.{ℕ, ◌-◌, ◌≤◌, min, true, some, List, ◌≡◌, All, length, take, drop}
use loku.Base.Member.{Has}
use loku.Base.Text.{Text}
use loku.Index.Record.{Row}
use loku.Index.Database.{Database, Index}
use loku.Index.Reads.{joined, in_scope, fts_query}
use loku.Index.Search.{Fts, matching}
use loku.Routes.{VideoItem, from_record}
use loku.Routes.Handlers.{AppState, Response, respond, refuse}
use loku.Routes.Search.{SearchQuery, SearchPage, SearchError}

-- What SQLite promises of ORDER BY: each match once, in some order.
pub record IsOrder (fts : Fts) : Type 0 where
  pub same_rows :
      (query : Text) (limit offset : ℕ) (rows matched : List Row) (row : Row)
      → Has row (fts.order query limit offset rows matched)
      → Has row matched
  pub same_length :
      (query : Text) (limit offset : ℕ) (rows matched : List Row)
      → length (fts.order query limit offset rows matched) ≡ length matched

-- An item that was asked for: of a stored row that the query matches, in the library that was asked
-- for if there was one.
pub record IsResult (fts : Fts) (state : AppState) (params : SearchQuery) (db : Database)
    (item : VideoItem) : Type 0 where
  pub query : Text
  pub asked : fts_query params.q ≡ some query
  pub row : Row
  pub stored : Has row db.videos
  pub matches : fts.matches query row ≡ true
  pub in_library : in_scope params.library row ≡ true
  pub item_is : item ≡ from_record (joined db row) state.derivation_active

module _ (fts : Fts) (order : IsOrder fts) (state : AppState) (params : SearchQuery) (db : Database)
    (query : Text) (asked : fts_query params.q ≡ some query) where
  -- The rows of a page.
  abbrev page_rows : ℕ → ℕ → List Row
  page_rows limit offset =
      take limit (
        drop offset (fts.order query limit offset db.videos (matching fts query params.library db)))

-- A page as it should be: of at most 200 items, as many as the total has behind the offset, and each
-- asked for.
pub record IsPage (fts : Fts) (state : AppState) (params : SearchQuery) (db : Database)
    (page : SearchPage) : Type 0 where
  pub limited : page.limit ≤ 200
  pub full : length page.items ≡ min page.limit (page.total - page.offset)
  pub results : All (IsResult fts state params db) page.items

-- The answer, if it is a page.
abbrev OnPage : (SearchPage → Type 0) → Response SearchError SearchPage → Type 0
OnPage P (respond page) = P page
OnPage P (refuse error) = Unit
