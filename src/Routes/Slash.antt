-- ===== src/Routes/Slash.antt =====
-- What `browse` answers for a path that is given with a slash at its end.
use loku.Base.{Option, none, some, [], ◌++◌, ◌≡◌}
use loku.Base.Text.{Text, codes}
use loku.Base.Text.Parts.{HasPart}
use loku.Base.Paths.Texts.{parent_text}
use loku.Base.Disk.{Disk}
use loku.Library.{Library}
use loku.Index.Record.{Row}
use loku.Index.Database.{Database, Index}
use loku.Index.Like.{Like}

-- The text has a slash at its end.
abbrev pub EndsWithSlash : Text → Type 0
EndsWithSlash s = (p : Text) × (s ≡ p ++ codes "/")

-- The row is of the directory that its path names, and no two slashes of the path stand together.
abbrev pub IsPlaced : Row → Type 0
IsPlaced row = (row.parent ≡ parent_text row.rel_path) × ¬ HasPart row.rel_path (codes "//")

abbrev parent_in : Option (Text × Text) → Text
parent_in split = elim split [ none ↦ [] | some (dir, _) ↦ dir ]
