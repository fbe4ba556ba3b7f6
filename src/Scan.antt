-- ===== src/Scan.antt =====
-- crates/server/src/index/scan.rs: a library's directories are read one after the other and
-- reconciled with the index, and what a scan has not seen is swept.
pub mod Records
pub mod Steps
pub mod Refines
pub mod Reads
pub mod Loop
pub mod Whole
pub mod Libraries
pub mod Complete
pub mod Finds
pub mod Files
use loku.Base.{ℕ, ◌+◌, Option, none, some, List, [], ◌∷◌, length, ◌≡◌}
use loku.Base.Text.{Text}
use loku.Base.Int.{ℤ}
use loku.Base.Paths.{FilePath, absolute_text}
use loku.Library.{Library}
use loku.Index.Record.{VideoRecord}
use loku.Index.Database.{Index, IndexError, Result, ok, err}
use loku.Index.Writes.{next_generation, reconcile_directory, remove_unseen, mark_scan_complete}
use loku.Scan.Records.{Scanner, relative_of, walk_directories, collect_directory}

pub record ScanStats : Type 0 where
  pub directories : ℕ
  pub videos : ℕ
  pub removed : ℕ

abbrev pub no_stats : ScanStats
no_stats = record { directories = 0; videos = 0; removed = 0 }

unfoldable pub stats_merged : ScanStats → ScanStats → ScanStats
stats_merged a b = record {
  directories = a.directories + b.directories;
  videos = a.videos + b.videos;
  removed = a.removed + b.removed;
}

-- A panic of a blocking task is not modelled.
pub data ScanError : Type 0 where
  library_root_canonicalize : Text → ScanError
  index : IndexError → ScanError

pub data Scanned {ℓ} (A : Type ℓ) : Type ℓ where
  done : A → Scanned A
  failed : ScanError → Scanned A

-- `?` on the index's answer.
abbrev pub then_with {ℓ κ} :
    {A : Type ℓ} {B : Type κ}
    → Result A × Index
    → (A → Index → Scanned B × Index)
    → Scanned B × Index
then_with (ok a, index') next = next a index'
then_with (err error, index') next = (failed (index error), index')

-- The try_fold of `scan_library`, from the statistics so far.
unfoldable pub scan_directories :
    Scanner → Library → FilePath → ℤ → List FilePath → ScanStats → Index → Scanned ScanStats × Index
unfolding stats_merged
scan_directories scanner library root generation [] stats i = (done stats, i)
scan_directories scanner library root generation (dir ∷ dirs) stats i =
    let records = collect_directory scanner library root dir in
    then_with (reconcile_directory library.name (relative_of dir root) records generation i) λ _ i'.
      scan_directories scanner library root generation dirs
        (stats_merged stats (record { directories = 1; videos = length records; removed = 0 })) i'

-- `?` on a scan's own answer.
abbrev pub and_scan {ℓ κ} :
    {A : Type ℓ} {B : Type κ}
    → Scanned A × Index
    → (A → Index → Scanned B × Index)
    → Scanned B × Index
and_scan (done a, i) next = next a i
and_scan (failed error, i) next = (failed error, i)

abbrev pub sweep : Library → ℤ → ScanStats → Index → Scanned ScanStats × Index
sweep library generation scanned i =
    then_with (remove_unseen library.name generation i) λ removed i'.
      (done (stats_merged scanned (record { directories = 0; videos = 0; removed = removed })), i')

unfoldable pub scan_library : Scanner → Library → ℤ → Index → Scanned ScanStats × Index
scan_library scanner library generation i = elim (scanner.disk.canonicalize library.path) [
  | none ↦ (failed (library_root_canonicalize (absolute_text library.path)), i)
  | some root ↦
      and_scan
        (scan_directories scanner library root generation (walk_directories scanner.disk root)
          no_stats i)
        (sweep library generation)
]

-- The try_fold of `scan_all`, from the statistics so far.
unfoldable pub scan_libraries :
    Scanner → ℤ → List Library → ScanStats → Index → Scanned ScanStats × Index
scan_libraries scanner generation [] stats i = (done stats, i)
scan_libraries scanner generation (library ∷ libraries) stats i =
    and_scan (scan_library scanner library generation i) λ library_stats i'.
      scan_libraries scanner generation libraries (stats_merged stats library_stats) i'

-- The scan that completes at the second `now`.
unfoldable pub scan_all : Scanner → ℕ → List Library → Index → Scanned ScanStats × Index
scan_all scanner now libraries i = then_with (next_generation i) λ generation i'.
    and_scan (scan_libraries scanner generation libraries no_stats i')
      λ stats i''. then_with (mark_scan_complete now i'') λ _ i'''. (done stats, i''')

-- `scan::reconcile_directory`, for one directory.
unfoldable pub rescan_directory :
    Scanner → Library → FilePath → ℤ → Index → Scanned (Unit {0}) × Index
rescan_directory scanner library dir generation i = elim (scanner.disk.canonicalize library.path) [
  | none ↦ (failed (library_root_canonicalize (absolute_text library.path)), i)
  | some root ↦
      then_with
        (reconcile_directory library.name (relative_of dir root)
          (collect_directory scanner library root dir) generation i)
        λ _ i'. (done tt, i')
]
