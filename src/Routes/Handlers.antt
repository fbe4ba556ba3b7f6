-- ===== src/Routes/Handlers.antt =====
-- The handlers of crates/server/src/routes/{browse,item,disc_sets,libraries}.rs, with the state that
-- crates/server/src/web_base.rs gives them.
use loku.Base.{
  ℕ, Bool, not, ◌==◌, Option, none, some, List, [], map, find, if◌then◌else◌, unwrap_or,
}
use loku.Base.Text.{Text, text_eq, trim_start_by}
use loku.Base.Paths.{path_starts_with, join_text}
use loku.Base.Disk.{Disk}
use loku.Library.{Library, LibraryKind}
use loku.Index.Record.{VideoRecord}
use loku.Index.Database.{Index, IndexError, Result, ok, err}
use loku.Index.Like.{Like}
use loku.Index.Reads.{BrowseData, browse_directory, video}
use loku.Index.Writes.{set_main_title}
use loku.Media.Worker.{ActiveDerivation}
use loku.Routes.{VideoItem, from_record}
use loku.Routes.Listing.{Entry, assemble_entries, first}

-- The index stands beside it, since handlers change it.
pub record AppState : Type 0 where
  pub libraries : List Library
  pub derivation_active : Option ActiveDerivation

unfoldable pub library : AppState → Text → Option Library
library state name = find (λ (l : Library). text_eq l.name name) state.libraries

-- A response, or the error of a route.
pub data Response {ℓ κ} (E : Type ℓ) (A : Type κ) : Type (ℓ ⊔ κ) where
  respond : A → Response E A
  refuse : E → Response E A

pub data BrowseError : Type 0 where
  unknown_library : Text → BrowseError
  path_traversal : Text → BrowseError
  directory_not_found : Text → BrowseError
  index : IndexError → BrowseError

unfoldable pub browse_status : BrowseError → ℕ
browse_status (path_traversal path) = 400
browse_status (unknown_library name) = 404
browse_status (directory_not_found path) = 404
browse_status (index error) = 500

pub record BrowseQuery : Type 0 where
  pub library : Option Text
  pub path : Text

pub record DirListing : Type 0 where
  pub library : Text
  pub path : Text
  pub entries : List Entry

-- `s.trim_start_matches('/')`
abbrev pub without_slashes : Text → Text
without_slashes path = trim_start_by (λ c. c == b'/') path

-- The error, if the directory is not there, or not below the root.
unfoldable pub ensure_directory_exists : Disk → Library → Text → Text → Option BrowseError
ensure_directory_exists disk library rel_path requested = elim (disk.canonicalize library.path) [
  | none ↦ some (directory_not_found requested)
  | some root ↦ elim (disk.canonicalize (join_text library.path rel_path)) [
    | none ↦ some (directory_not_found requested)
    | some target ↦
        if not (path_starts_with target root)
        then some (path_traversal requested)
        else if not (disk.is_dir target)
        then some (directory_not_found requested)
        else none
  ]
]

-- The library that is asked for, or the first one.
unfoldable pub browsed_library : AppState → BrowseQuery → Option Library
browsed_library state params = elim params.library [
  | none ↦ first state.libraries
  | some name ↦ library state name
]

abbrev pub listing_of :
    AppState
    → Library
    → BrowseQuery
    → Result BrowseData × Index
    → Response BrowseError DirListing × Index
listing_of state l params (err error, i) = (refuse (index error), i)
listing_of state l params (ok found, i) = (
  respond (record {
    library = l.name;
    path = params.path;
    entries = assemble_entries l (without_slashes params.path) found state.derivation_active;
  }),
  i,
)

abbrev pub browse_checked :
    Like
    → AppState
    → Library
    → BrowseQuery
    → Index
    → Option BrowseError
    → Response BrowseError DirListing × Index
browse_checked like state l params i (some error) = (refuse error, i)
browse_checked like state l params i none =
    listing_of state l params (browse_directory like l.name (without_slashes params.path) i)

unfoldable pub browse_handler :
    Disk → Like → AppState → BrowseQuery → Index → Response BrowseError DirListing × Index
browse_handler disk like state params i = elim (browsed_library state params) [
  | none ↦ (refuse (unknown_library (unwrap_or params.library [])), i)
  | some l ↦
      browse_checked like state l params i
        (ensure_directory_exists disk l (without_slashes params.path) params.path)
]

pub data ItemError : Type 0 where
  unknown_library : Text → ItemError
  item_not_found : Text → Text → ItemError
  index : IndexError → ItemError

unfoldable pub item_status : ItemError → ℕ
item_status (ItemError.unknown_library name) = 404
item_status (ItemError.item_not_found library path) = 404
item_status (ItemError.index error) = 500

abbrev pub item_of :
    AppState
    → Text
    → Text
    → Result (Option VideoRecord) × Index
    → Response ItemError VideoItem × Index
item_of state name path (err error, i) = (refuse (ItemError.index error), i)
item_of state name path (ok none, i) = (refuse (ItemError.item_not_found name path), i)
item_of state name path (ok (some r), i) = (respond (from_record r state.derivation_active), i)

unfoldable pub item_handler : AppState → Text → Text → Index → Response ItemError VideoItem × Index
item_handler state name path i = elim (library state name) [
  | none ↦ (refuse (ItemError.unknown_library name), i)
  | some l ↦ item_of state name path (video name (without_slashes path) i)
]

pub data DiscSetError : Type 0 where
  unknown_library : Text → DiscSetError
  item_not_found : Text → Text → DiscSetError
  not_in_set : Text → Text → DiscSetError
  index : IndexError → DiscSetError

unfoldable pub disc_set_status : DiscSetError → ℕ
disc_set_status (DiscSetError.unknown_library name) = 404
disc_set_status (DiscSetError.item_not_found library path) = 404
disc_set_status (not_in_set path set) = 400
disc_set_status (DiscSetError.index error) = 500

-- The request, and the response, which repeats it.
pub record MainTitle : Type 0 where
  pub library : Text
  pub disc_set : Text
  pub path : Text

abbrev pub picked : MainTitle → Result (Unit {0}) × Index → Response DiscSetError MainTitle × Index
picked request (err error, i) = (refuse (DiscSetError.index error), i)
picked request (ok done, i) = (respond request, i)

abbrev pub in_set : Text → VideoRecord → Bool
in_set set r = elim r.disc_set [ none ↦ Bool.false | some s ↦ text_eq s set ]

abbrev pub pick_main :
    MainTitle → Result (Option VideoRecord) × Index → Response DiscSetError MainTitle × Index
pick_main request (err error, i) = (refuse (DiscSetError.index error), i)
pick_main request (ok none, i) =
    (refuse (DiscSetError.item_not_found request.library request.path), i)
pick_main request (ok (some r), i) =
    if not (in_set request.disc_set r)
    then (refuse (not_in_set request.path request.disc_set), i)
    else picked request (set_main_title request.library request.disc_set request.path i)

unfoldable pub set_main_handler :
    AppState → MainTitle → Index → Response DiscSetError MainTitle × Index
set_main_handler state request i = elim (library state request.library) [
  | none ↦ (refuse (DiscSetError.unknown_library request.library), i)
  | some l ↦ pick_main request (video request.library request.path i)
]

pub record LibraryInfo : Type 0 where
  pub name : Text
  pub kind : LibraryKind

unfoldable pub libraries_handler : AppState → List LibraryInfo
libraries_handler state =
    map (λ (l : Library). record { name = l.name; kind = l.kind }) state.libraries
