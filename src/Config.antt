-- ===== src/Config.antt =====
-- crates/server/src/config.rs: the library roots that the configuration gives. Whether a path
-- exists is a parameter.
pub mod Libraries
pub mod Settings
pub mod Login
pub mod Configured
use loku.Base.{
  Bool, true, false, not, ◌||◌, Option, none, some, List, [], ◌∷◌, if◌then◌else◌, any, map,
  unwrap_or,
}
use loku.Base.Text.{Text, codes, text_eq}
use loku.Base.Paths.{FilePath}
use loku.Library.{Library, LibraryFileEntry, LibraryKind, valid_library_name}

-- The messages of `ConfigError::Validation`, by what they say.
pub data ConfigError : Type 0 where
  no_library : ConfigError
  invalid_name : Text → ConfigError
  defined_twice : Text → ConfigError
  missing_path : Text → FilePath → ConfigError

pub data Resolved : Type 0 where
  resolved : List Library → Resolved
  refused : ConfigError → Resolved

-- The library of the command line wins over those of the file.
unfoldable pub library_candidates :
    Option FilePath → Option (List LibraryFileEntry) → List LibraryFileEntry
library_candidates (some path) file =
    record { name = codes "downloads"; path = path; kind = LibraryKind.downloads } ∷ []
library_candidates none file = unwrap_or file []

abbrev pub library_of_entry : LibraryFileEntry → Library
library_of_entry entry = record { name = entry.name; path = entry.path; kind = entry.kind }

abbrev pub cons_resolved : Library → Resolved → Resolved
cons_resolved library (resolved libraries) = resolved (library ∷ libraries)
cons_resolved library (refused error) = refused error

-- The entries in their order, with the names that are seen, up to the first error.
unfoldable pub resolve_entries : (FilePath → Bool) → List Text → List LibraryFileEntry → Resolved
resolve_entries exists seen [] = resolved []
resolve_entries exists seen (entry ∷ entries) =
    let rest = resolve_entries exists (entry.name ∷ seen) entries in
    if not (valid_library_name entry.name)
    then refused (invalid_name entry.name)
    else if any (text_eq entry.name) seen
    then refused (defined_twice entry.name)
    else if not (exists entry.path)
    then refused (missing_path entry.name entry.path)
    else cons_resolved (library_of_entry entry) rest

abbrev resolve_candidates : (FilePath → Bool) → List LibraryFileEntry → Resolved
resolve_candidates exists [] = refused no_library
resolve_candidates exists (entry ∷ entries) = resolve_entries exists [] (entry ∷ entries)

unfoldable pub resolve_libraries :
    (FilePath → Bool) → Option FilePath → Option (List LibraryFileEntry) → Resolved
resolve_libraries exists cli file = resolve_candidates exists (library_candidates cli file)
