-- ===== src/Base/Disk.antt =====
-- What the program asks of the file system and of the parsers of other packages, as a parameter.
use Prim.Native.Nat.{ℕ}
use mathlib.Core.Bool.{Bool}
use mathlib.Core.List.{List}
use mathlib.Core.Option.{Option}
use loku.Base.Text.{Text}
use loku.Base.Paths.{FilePath}

-- The size of a file, and the second of its last change: none on a platform that does not say,
-- and inside, none for a time before 1970.
pub record Metadata : Type 0 where
  pub len : ℕ
  pub modified : Option (Option ℕ)

-- Each answer is none where the system refuses.
pub record Disk : Type 0 where
  -- What the path names in the end, links followed.
  pub exists : FilePath → Bool
  pub is_file : FilePath → Bool
  pub is_dir : FilePath → Bool
  pub canonicalize : FilePath → Option FilePath
  pub metadata : FilePath → Option Metadata
  -- The names in a directory, in the system's order, and the entries that cannot be read.
  pub read_dir : FilePath → Option (List (Option Text))
  -- The entries below and including a directory, links not followed, each with whether it is a
  -- directory, and the entries that cannot be read.
  pub walk : FilePath → List (Option (FilePath × Bool))
  -- The file's bytes as text, with replacement characters for what is not UTF-8.
  pub read_lossy : FilePath → Option Text
  -- The file as text, if it is UTF-8.
  pub read_to_string : FilePath → Option Text
