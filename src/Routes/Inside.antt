-- ===== src/Routes/Inside.antt =====
-- That a listing is answered for directories of the library only.
use loku.Base.{true, not, Option, none, some, ◌≡◌, refl, arith, if◌then◌else◌, [], unwrap_or}
use loku.Base.Text.{Text}
use loku.Base.Paths.{FilePath, path_starts_with, join_text}
use loku.Base.Disk.{Disk}
use loku.Library.{Library}
use loku.Index.Database.{Index}
use loku.Index.Like.{Like}
use loku.Routes.Handlers.{
  AppState, BrowseError, BrowseQuery, DirListing, Response, respond, refuse,
  ensure_directory_exists, browsed_library, browse_checked, browse_handler, path_traversal,
  directory_not_found, unknown_library, without_slashes,
}

-- The path is that of a directory below the library's root, once links are followed.
abbrev pub IsInside : Disk → Library → Text → Type 0
IsInside disk l rel_path =
    (root : FilePath) × (target : FilePath) × (disk.canonicalize l.path ≡ some root)
    × (disk.canonicalize (join_text l.path rel_path) ≡ some target)
    × (path_starts_with target root ≡ true)
    × (disk.is_dir target ≡ true)

IsInside-of_checked :
    (disk : Disk) (l : Library) (rel_path requested : Text)
    → ensure_directory_exists disk l rel_path requested ≡ none
    → IsInside disk l rel_path
unfolding ensure_directory_exists
IsInside-of_checked disk l rel_path requested h =
    go (disk.canonicalize l.path) (disk.canonicalize (join_text l.path rel_path)) refl refl h
  where
    go :
        (r t : Option FilePath)
        → disk.canonicalize l.path ≡ r
        → disk.canonicalize (join_text l.path rel_path) ≡ t
        → ◌≡◌ {A = Option BrowseError}
            (elim r [
              | none ↦ some (directory_not_found requested)
              | some root ↦ elim t [
                | none ↦ some (directory_not_found requested)
                | some target ↦
                    if not (path_starts_with target root)
                    then some (path_traversal requested)
                    else if not (disk.is_dir target)
                    then some (directory_not_found requested)
                    else none
              ]
            ])
            none
        → IsInside disk l rel_path
    go none t er et e = cc
    go (some root) none er et e = cc
    go (some root) (some target) er et e = (root, target, er, et, ground arith, ground arith)

-- A listing is answered only for a library that is configured, and a directory that is, links
-- followed, in the library's root.
pub browse_handler-IsInside :
    (disk : Disk) (like : Like) (state : AppState) (params : BrowseQuery) (i i' : Index)
    (listing : DirListing)
    → browse_handler disk like state params i ≡ (respond listing, i')
    → (l : Library) × (browsed_library state params ≡ some l)
      × IsInside disk l (without_slashes params.path)
unfolding browse_handler
browse_handler-IsInside disk like state params i i' listing h =
    go (browsed_library state params) refl h
  where
    checked :
        (l : Library) (o : Option BrowseError)
        → ensure_directory_exists disk l (without_slashes params.path) params.path ≡ o
        → browse_checked like state l params i o ≡ (respond listing, i')
        → IsInside disk l (without_slashes params.path)
    checked l none e h' = IsInside-of_checked disk l (without_slashes params.path) params.path e
    checked l (some error) e h' = cc

    go :
        (o : Option Library)
        → browsed_library state params ≡ o
        → ◌≡◌ {A = Response BrowseError DirListing × Index}
            (elim o [
              | none ↦ (refuse (unknown_library (unwrap_or params.library [])), i)
              | some l ↦
                  browse_checked like state l params i
                    (ensure_directory_exists disk l (without_slashes params.path) params.path)
            ])
            (respond listing, i')
        → (l : Library) × (browsed_library state params ≡ some l)
          × IsInside disk l (without_slashes params.path)
    go none e h' = cc
    go (some l) e h' = (l, e, checked l _ refl h')
