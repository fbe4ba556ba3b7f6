-- ===== src/Library.antt =====
-- crates/server/src/library.rs: named library roots.
use loku.Base.{Bool, not, ◌&&◌, ◌||◌, ◌==◌, leb, all}
use loku.Base.Text.{Text, is_empty, is_ascii_digit}
use loku.Base.Paths.{FilePath}

pub data LibraryKind : Type 0 where
  downloads discs : LibraryKind

pub record Library : Type 0 where
  pub name : Text
  pub path : FilePath
  pub kind : LibraryKind

-- An entry of the config file, before validation.
pub record LibraryFileEntry : Type 0 where
  pub name : Text
  pub path : FilePath
  pub kind : LibraryKind

unfoldable pub valid_library_name : Text → Bool
valid_library_name name =
    not (is_empty name)
    && all (λ c. (leb b'a' c && leb c b'z') || is_ascii_digit c || (c == b'_') || (c == b'-')) name
