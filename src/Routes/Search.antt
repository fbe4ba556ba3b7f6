-- ===== src/Routes/Search.antt =====
-- crates/server/src/routes/search.rs: the pages of a search.
use loku.Base.{ℕ, min, Option, none, some, List, [], map, unwrap_or}
use loku.Base.Text.{Text}
use loku.Index.Database.{Index, IndexError, Result, ok, err}
use loku.Index.Reads.{fts_query}
use loku.Index.Search.{Fts, SearchResults, search}
use loku.Routes.{VideoItem, from_record}
use loku.Routes.Handlers.{AppState, Response, respond, refuse, library}

abbrev pub default_limit : ℕ
default_limit = 50

abbrev pub max_limit : ℕ
max_limit = 200

pub record SearchQuery : Type 0 where
  pub q : Text
  pub library : Option Text
  pub limit : Option ℕ
  pub offset : Option ℕ

pub record SearchPage : Type 0 where
  pub total : ℕ
  pub limit : ℕ
  pub offset : ℕ
  pub items : List VideoItem

pub data SearchError : Type 0 where
  unknown_library : Text → SearchError
  index : IndexError → SearchError

unfoldable pub search_status : SearchError → ℕ
search_status (unknown_library name) = 404
search_status (index error) = 500

unfoldable pub page_limit : SearchQuery → ℕ
page_limit params = min (unwrap_or params.limit default_limit) max_limit

abbrev pub page_offset : SearchQuery → ℕ
page_offset params = unwrap_or params.offset 0

abbrev pub page_of :
    AppState → SearchQuery → Result SearchResults × Index → Response SearchError SearchPage × Index
page_of state params (err error, i) = (refuse (index error), i)
page_of state params (ok results, i) = (
  respond (record {
    total = results.total;
    limit = page_limit params;
    offset = page_offset params;
    items = map (λ r. from_record r state.derivation_active) results.items;
  }),
  i,
)

-- A query without a token has no results, and is not looked for.
unfoldable pub found_page :
    Fts → AppState → SearchQuery → Option Text → Index → Response SearchError SearchPage × Index
found_page fts state params none i = (
  respond
      (record { total = 0; limit = page_limit params; offset = page_offset params; items = [] }),
  i,
)
found_page fts state params (some query) i =
    page_of state params
      (search fts query params.library (page_limit params) (page_offset params) i)

-- The error for a library that is asked for and not there.
abbrev pub scope_error : AppState → Option Text → Option SearchError
scope_error state none = none
scope_error state (some name) = elim (library state name) [
  | none ↦ some (unknown_library name)
  | some l ↦ none
]

unfoldable pub search_handler :
    Fts → AppState → SearchQuery → Index → Response SearchError SearchPage × Index
search_handler fts state params i = elim (scope_error state params.library) [
  | some error ↦ (refuse error, i)
  | none ↦ found_page fts state params (fts_query params.q) i
]
