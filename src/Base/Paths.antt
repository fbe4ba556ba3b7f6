-- ===== src/Base/Paths.antt =====
-- Canonical paths as the list of the components below the file system's root, with the methods
-- of Rust's `Path` that the program calls.
pub mod Texts
use mathlib.Core.Bool.{Bool, true, false, ◌&&◌}
use mathlib.Core.List.{List, [], ◌∷◌, ◌++◌}
use mathlib.Core.Option.{Option, none, some}
use loku.Base.Tests.{if◌then◌else◌, map_option, ◌==◌}
use loku.Base.Text.{Text, codes, text_eq, join, rsplit, split, is_empty, nonempty}

abbrev pub FilePath : Type 0
FilePath = List Text

-- `path.parent()`
unfoldable pub parent : FilePath → Option FilePath
parent [] = none
parent (c ∷ []) = some []
parent (c ∷ d ∷ path) = map_option (λ p. c ∷ p) (parent (d ∷ path))

-- `path.file_name()`
unfoldable pub file_name : FilePath → Option Text
file_name [] = none
file_name (c ∷ []) = some c
file_name (c ∷ d ∷ path) = file_name (d ∷ path)

-- The stem and the extension of a file name: a dot in front starts no extension.
unfoldable pub stem_and_extension : Text → Text × Option Text
stem_and_extension name = elim (rsplit (codes ".") name) [
  | none ↦ (name, none)
  | some (before, after) ↦ if is_empty before then (name, none) else (before, some after)
]

-- `path.file_stem()`
unfoldable pub file_stem : FilePath → Option Text
file_stem path = map_option (λ name. (stem_and_extension name).0) (file_name path)

-- `path.extension()`
unfoldable pub extension : FilePath → Option Text
extension path = elim (file_name path) [ none ↦ none | some name ↦ (stem_and_extension name).1 ]

-- `path.join(name)` for a relative text, whose components are between its slashes.
abbrev pub join_text : FilePath → Text → FilePath
join_text path rel = path ++ nonempty (split (λ c. c == b'/') rel)

-- `path.join(name)` for a single component.
abbrev pub child : FilePath → Text → FilePath
child path name = path ++ name ∷ []

unfoldable pub path_eq : FilePath → FilePath → Bool
path_eq [] [] = true
path_eq [] (d ∷ q) = false
path_eq (c ∷ p) [] = false
path_eq (c ∷ p) (d ∷ q) = text_eq c d && path_eq p q

-- `path.starts_with(root)`
unfoldable pub path_starts_with : FilePath → FilePath → Bool
path_starts_with path [] = true
path_starts_with [] (d ∷ root) = false
path_starts_with (c ∷ path) (d ∷ root) = text_eq c d && path_starts_with path root

-- `path.strip_prefix(root)`
unfoldable pub path_strip_prefix : FilePath → FilePath → Option FilePath
path_strip_prefix path [] = some path
path_strip_prefix [] (d ∷ root) = none
path_strip_prefix (c ∷ path) (d ∷ root) = if text_eq c d then path_strip_prefix path root else none

-- The text of a relative path.
abbrev pub relative_text : FilePath → Text
relative_text = join (codes "/")

-- The text of a path from the file system's root.
abbrev pub absolute_text : FilePath → Text
absolute_text path = b'/' ∷ join (codes "/") path

-- `sidecar_path` of crates/server/src/media/sidecars.rs: the suffix is put behind the stem.
unfoldable pub sidecar_path : FilePath → Text → Text → FilePath
sidecar_path parent stem suffix = child parent (stem ++ suffix)
