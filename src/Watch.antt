-- ===== src/Watch.antt =====
-- crates/server/src/index/watch.rs: the directories that file system events make dirty, how they
-- are gathered until things are quiet, and which of them a flush visits.
pub mod Order
pub mod Sorted
pub mod Prune
pub mod Gather
pub mod Events
pub mod Flush
use loku.Base.{
  ℕ, suc, ◌+◌, Bool, true, false, not, ◌&&◌, ◌||◌, ◌==◌, ltb, Option, none, some, List, [], ◌∷◌,
  ◌++◌, if◌then◌else◌, any, keep, map_option, filter_map, is_none_or, is_some_and, fold,
}
use loku.Base.Text.{Text, codes, text_eq, to_ascii_lowercase}
use loku.Base.Order.{text_le, sort}
use loku.Base.Paths.{FilePath, parent, extension, path_starts_with, path_eq}
use loku.Library.{Library}

-- (usize, PathBuf): a library's index and a directory.
pub record Dirty : Type 0 where
  pub library_index : ℕ
  pub dir : FilePath

-- The order of paths, component by component.
unfoldable pub path_le : FilePath → FilePath → Bool
path_le [] q = true
path_le (c ∷ p) [] = false
path_le (c ∷ p) (d ∷ q) = let rest = path_le p q in if text_eq c d then rest else text_le c d

unfoldable pub dirty_eq : Dirty → Dirty → Bool
dirty_eq a b = (a.library_index == b.library_index) && path_eq a.dir b.dir

unfoldable pub dirty_le : Dirty → Dirty → Bool
dirty_le a b =
    ltb a.library_index b.library_index
    || ((a.library_index == b.library_index) && path_le a.dir b.dir)

-- The first directory is the second or one above it, in the same library.
unfoldable pub covers : Dirty → Dirty → Bool
covers kept d = (kept.library_index == d.library_index) && path_starts_with d.dir kept.dir

-- `dedup` of the entries behind one.
unfoldable pub dedup_behind : Dirty → List Dirty → List Dirty
dedup_behind a [] = []
dedup_behind a (b ∷ bs) =
    let same = dedup_behind a bs in
    let other = dedup_behind b bs in if dirty_eq a b then same else b ∷ other

unfoldable pub dedup_dirty : List Dirty → List Dirty
dedup_dirty [] = []
dedup_dirty (a ∷ bs) = a ∷ dedup_behind a bs

-- The fold of `prune_nested` behind its last kept entry.
unfoldable pub prune_behind : Option Dirty → List Dirty → List Dirty
prune_behind last [] = []
prune_behind last (d ∷ ds) =
    let dropped = prune_behind last ds in
    let kept = prune_behind (some d) ds in
    if is_some_and last (λ k. covers k d) then dropped else d ∷ kept

unfoldable pub prune_nested : List Dirty → List Dirty
prune_nested dirty = prune_behind none (dedup_dirty (sort dirty_le dirty))

-- The pending set and the deadline of the next flush.
pub record Debounce : Type 0 where
  pub quiet : ℕ
  pub pending : List Dirty
  pub deadline : Option ℕ

unfoldable pub debounce_new : ℕ → Debounce
debounce_new quiet = record { quiet = quiet; pending = []; deadline = none }

-- `HashSet::insert`
unfoldable pub set_insert : Dirty → List Dirty → List Dirty
set_insert key pending = if any (dirty_eq key) pending then pending else key ∷ pending

unfoldable pub debounce_record : Debounce → Dirty → ℕ → Debounce
debounce_record d key now = record d {
  pending = set_insert key d.pending;
  deadline = some (now + d.quiet);
}

unfoldable pub debounce_take : Debounce → List Dirty × Debounce
debounce_take d = (d.pending, record d { pending = []; deadline = none })

pub record Event : Type 0 where
  pub is_access : Bool
  pub paths : List FilePath

abbrev pub is_part : FilePath → Bool
is_part path = is_some_and (extension path) λ ext. text_eq (to_ascii_lowercase ext) (codes "part")

-- The path, and its parent if it has one.
abbrev pub with_parent : FilePath → List FilePath
with_parent path = elim (parent path) [ none ↦ path ∷ [] | some dir ↦ path ∷ dir ∷ [] ]

unfoldable pub all_with_parents : List FilePath → List FilePath
all_with_parents [] = []
all_with_parents (path ∷ paths) = with_parent path ++ all_with_parents paths

-- The position of the first root that the directory is under.
unfoldable pub root_of : FilePath → List FilePath → ℕ → Option ℕ
root_of dir [] i = none
root_of dir (root ∷ roots) i =
    let rest = root_of dir roots (suc i) in if path_starts_with dir root then some i else rest

-- The roots are the watched paths of the libraries.
unfoldable pub dirty_directories : Event → List FilePath → List Dirty
dirty_directories event roots =
    if event.is_access
    then []
    else filter_map
        (λ dir. map_option (λ i. record { library_index = i; dir = dir }) (root_of dir roots 0))
        (all_with_parents (keep (λ path. not (is_part path)) event.paths))
