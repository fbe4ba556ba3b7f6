-- ===== src/Media/Worker/Disk.antt =====
-- The files that the worker sees, and the two operations that it makes on them.
use loku.Base.{Bool, not, Option, none, some, List, ◌∷◌, if◌then◌else◌, keep, any}
use loku.Base.Text.{Text, codes}
use loku.Base.Paths.{FilePath, path_eq}

abbrev pub Files : Type 0
Files = List FilePath

-- `path.exists()`
unfoldable pub exists : FilePath → Files → Bool
exists path files = any (λ p. path_eq p path) files

unfoldable pub remove_file : FilePath → Files → Files
remove_file path files = keep (λ p. not (path_eq p path)) files

-- The rename fails for the reason that the file system gives, or if there is no such file.
unfoldable pub rename : Option Text → FilePath → FilePath → Files → Option Text × Files
rename (some reason) from to files = (some reason, files)
rename none from to files =
    if exists from files
    then (none, to ∷ remove_file to (remove_file from files))
    else (some (codes "No such file or directory (os error 2)"), files)
