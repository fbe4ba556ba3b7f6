-- ===== src/Tests/Listings.antt =====
-- The theorems on the routes, over a disc set of two videos.
use loku.Base.{
  drop, ℕ, ◌*◌, ◌≤◌, Bool, true, Option, none, some, List, [], ◌∷◌, ◌≡◌, refl, arith, map, length,
  inl, inr,
}
use loku.Base.Count.{count}
use loku.Base.Text.{Text, codes, text_eq}
use loku.Base.Paths.{FilePath}
use loku.Base.Disk.{Disk}
use loku.Library.{Library}
use loku.Index.Table.{lookup}
use loku.Index.Record.{VideoRecord, Row}
use loku.Index.Database.{Database, Index, empty}
use loku.Index.Reads.{browse, find_video, joined, BrowseData}
use loku.Routes.{VideoItem, from_record}
use loku.Routes.Listing.{Entry, assemble_entries, disc_set_entry, set_entry, titles_of}
use loku.Routes.Handlers.{
  AppState, MainTitle, BrowseQuery, DirListing, respond, set_main_handler, browse_handler,
  browsed_library, in_set, without_slashes, ensure_directory_exists,
}
use loku.Index.Search.{Fts}
use loku.Routes.Search.{SearchQuery, SearchPage}
use loku.Routes.Shown.{shown, count-assemble_entries}
use loku.Routes.MainTitle.{IsLargest, disc_set_entry-IsLargest}
use loku.Base.Member.{Has}
use loku.Routes.Pick.{pick_in_front}
use loku.Routes.Inside.{IsInside, browse_handler-IsInside}
use loku.Tests.Fixtures.{scanned, discs, two_videos, connection}
use loku.Tests.Passes.{connection-IsReliable}
use loku.Tests.Matcher.{sqlite}
use loku.Tests.Scans.{video_disk}

abbrev film : VideoRecord
film = scanned (codes "film.mkv")

abbrev extra : VideoRecord
extra = scanned (codes "extra.mkv")

abbrev set_listing : BrowseData
set_listing = record {
  videos = extra ∷ film ∷ [];
  subdirectories = codes "more" ∷ [];
  overrides = [];
}

abbrev has_title : VideoItem → Bool
has_title item = text_eq item.path (codes "set/film.mkv")

count-assemble_entries_example :
    count has_title (shown (assemble_entries discs (codes "set") set_listing none))
    ≡ count has_title (map (λ r. from_record r none) set_listing.videos)
count-assemble_entries_example =
    count-assemble_entries has_title discs (codes "set") set_listing none

disc_set_entry-IsLargest_example :
    (main : VideoItem) × (disc_set_entry (codes "set") (film ∷ extra ∷ []) [] none
      ≡ some (set_entry (codes "set") (titles_of (film ∷ extra ∷ []) none) main))
    × ((s : VideoRecord) × Has s (film ∷ extra ∷ [])
        × (main.path ≡ s.rel_path)
        × IsLargest s (film ∷ extra ∷ []))
disc_set_entry-IsLargest_example =
    disc_set_entry-IsLargest (codes "set") film (extra ∷ []) [] none refl

abbrev state : AppState
state = record { libraries = discs ∷ []; derivation_active = none }

abbrev film_pick : MainTitle
film_pick = record { library = codes "discs"; disc_set = codes "set"; path = codes "set/film.mkv" }

abbrev after_pick : Index
after_pick = (set_main_handler state film_pick connection).1

film_picked : set_main_handler state film_pick connection ≡ (respond film_pick, after_pick)
unfolding set_main_handler loku.Routes.Handlers.library text_eq loku.Index.Database.call find_video
    lookup loku.Index.Table.key_eq loku.Index.Record.excluded loku.Index.Record.record_from_row
film_picked = refl

pick_in_front_example :
    ((v : VideoRecord) × (find_video (codes "discs") (codes "set/film.mkv") two_videos ≡ some v)
      × (in_set (codes "set") v ≡ true))
    × ((main : VideoItem) × (disc_set_entry
            (codes "set")
            (extra ∷ film ∷ [])
            (browse sqlite (codes "discs") (codes "set") after_pick.db).overrides
            none
          ≡ some (set_entry (codes "set") (titles_of (extra ∷ film ∷ []) none) main))
        × (main.path ≡ codes "set/film.mkv"))
pick_in_front_example =
    pick_in_front state film_pick film_pick connection after_pick sqlite (codes "set") film extra
      (film ∷ []) none connection-IsReliable film_picked (inr (inl refl)) refl

abbrev plain_disk : Disk
plain_disk = record video_disk { canonicalize = λ path. some path; is_dir = λ path. true }

abbrev unscanned : Index
unscanned = record connection { db = empty }

abbrev root_query : BrowseQuery
root_query = record { library = none; path = codes "/" }

abbrev no_entries : DirListing
no_entries = record { library = codes "discs"; path = codes "/"; entries = [] }

root_listed :
    browse_handler plain_disk sqlite state root_query unscanned
    ≡ (respond no_entries, (browse_handler plain_disk sqlite state root_query unscanned).1)
unfolding browse_handler browsed_library loku.Routes.Handlers.ensure_directory_exists
    loku.Base.Paths.path_starts_with text_eq loku.Index.Database.call assemble_entries
    loku.Routes.Listing.directory_entries browse loku.Index.Reads.subdirectories_of
    loku.Index.Reads.dedup loku.Base.Order.sort loku.Index.Reads.deeper_parents
    loku.Routes.Listing.listed_items loku.Routes.Listing.disc_set_groups
root_listed = refl

browse_handler-IsInside_example :
    (l : Library) × (browsed_library state root_query ≡ some l)
    × IsInside plain_disk l (without_slashes (codes "/"))
browse_handler-IsInside_example =
    browse_handler-IsInside plain_disk sqlite state root_query unscanned
      (browse_handler plain_disk sqlite state root_query unscanned).1 no_entries root_listed

abbrev slash_query : BrowseQuery
slash_query = record { library = none; path = codes "set/" }

-- Every row matches, and they come as they are stored.
abbrev fts : Fts
fts = record { matches = λ query row. true; order = λ query limit offset rows matched. matched }

abbrev film_search : SearchQuery
film_search = record { q = codes "film"; library = none; limit = some 1; offset = some 1 }

abbrev second_page : SearchPage
second_page = record {
  total = 2;
  limit = 1;
  offset = 1;
  items = map (λ r. from_record r none) (map (joined two_videos) (drop 1 two_videos.videos));
}
