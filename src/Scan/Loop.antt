-- ===== src/Scan/Loop.antt =====
-- The loops of a scan of one library as its steps over the directories of the file system.
use loku.Base.{some, List, [], ◌∷◌, ◌++◌, ◌≡◌, ◌≢◌, refl, sym, ap, ◌∙◌, All, map, suc, ℕ, length}
use mathlib.Core.Path.{subst}
use loku.Base.Every.{AreDistinct}
use loku.Base.Text.{codes}
use loku.Base.Int.{ℤ}
use loku.Base.Paths.{FilePath}
use loku.Base.Paths.Texts.{IsName, relative_text_injective}
use loku.Base.Disk.{Disk}
use loku.Library.{Library}
use loku.Index.Database.{Database, Index, ok}
use loku.Index.Reliable.{IsReliable, call-ok}
use loku.Index.Writes.{reconcile_directory, remove_unseen_tx, reconcile_tx}
use loku.Scan.{ScanStats, done, no_stats, stats_merged, scan_directories, scan_library}
use loku.Scan.Records.{Scanner, relative_of, walk_directories, collect_directory}
use loku.Scan.Reads.{IsListed, relative_of_below, collect_directory-IsStep}
use loku.Scan.Steps.{Step, IsStep, AreSteps, reconcile_steps}

-- A directory that the walk reaches: the names from the root to it have no slash.
abbrev pub IsReached : Disk → FilePath → FilePath → Type 0
IsReached disk root dir =
    (rel : FilePath) × (dir ≡ root ++ rel) × All IsName rel × IsListed (disk.read_dir dir)

-- The walk reaches each directory below the root once.
abbrev pub IsTree : Disk → FilePath → Type 0
IsTree disk root =
    All (IsReached disk root) (walk_directories disk root)
    × AreDistinct (walk_directories disk root)

-- What is read of a directory.
abbrev pub step_of : Scanner → Library → FilePath → FilePath → Step
step_of scanner library root dir = record {
  parent = relative_of dir root;
  records = collect_directory scanner library root dir;
}

abbrev pub steps_of : Scanner → Library → FilePath → List FilePath → List Step
steps_of scanner library root = map (step_of scanner library root)

module _ (scanner : Scanner) (library : Library) (root : FilePath) where
  step_of-IsStep :
      (dir : FilePath)
      → IsReached scanner.disk root dir
      → IsStep library.name (step_of scanner library root dir)
  step_of-IsStep dir (rel, e, names, listed) =
      subst (λ d. IsStep library.name (step_of scanner library root d)) (sym e)
        (collect_directory-IsStep scanner library root rel names
          (subst (λ d. IsListed (scanner.disk.read_dir d)) e listed))

  reached_apart :
      (a b : FilePath)
      → IsReached scanner.disk root a
      → IsReached scanner.disk root b
      → relative_of a root ≡ relative_of b root
      → a ≡ b
  reached_apart a b (p, ep, hp, _) (q, eq, hq, _) e =
      ep
      ∙ ap (λ x. root ++ x)
          (relative_text_injective p q hp hq (
            sym (relative_of_below root p)
            ∙ ap (λ x. relative_of x root) (sym ep)
            ∙ e
            ∙ ap (λ x. relative_of x root) eq
            ∙ relative_of_below root q))
      ∙ sym eq

  steps_apart :
      (dir : FilePath) (dirs : List FilePath)
      → IsReached scanner.disk root dir
      → All (IsReached scanner.disk root) dirs
      → All (λ d. dir ≢ d) dirs
      → All (λ (t : Step). relative_of dir root ≢ t.parent) (steps_of scanner library root dirs)
  steps_apart dir [] h hs ds = tt
  steps_apart dir (d ∷ dirs) h (hd, hs) (n, ds) =
      ((λ e. n (reached_apart dir d h hd e)), steps_apart dir dirs h hs ds)

  pub steps_of-AreSteps :
      (dirs : List FilePath)
      → All (IsReached scanner.disk root) dirs
      → AreDistinct dirs
      → AreSteps library.name (steps_of scanner library root dirs)
  steps_of-AreSteps [] h d = tt
  steps_of-AreSteps (dir ∷ dirs) (h, hs) (ds, d) =
      (step_of-IsStep dir h, steps_apart dir dirs h hs ds, steps_of-AreSteps dirs hs d)

  -- The statistics of the directories that are read.
  abbrev read_stats : List FilePath → ScanStats → ScanStats
  read_stats [] stats = stats
  read_stats (dir ∷ dirs) stats = read_stats dirs (
      stats_merged stats (record {
        directories = 1;
        videos = length (collect_directory scanner library root dir);
        removed = 0;
      }))

  reconciled :
      (dir : FilePath) (generation : ℤ) (i : Index)
      → IsReliable i
      → reconcile_directory library.name
          (relative_of dir root)
          (collect_directory scanner library root dir)
          generation
          i
        ≡ (
          ok tt,
          record i {
            db =
                (reconcile_tx library.name
                  (relative_of dir root)
                  (collect_directory scanner library root dir)
                  generation
                  i.db).1;
            calls = suc i.calls;
          },
        )
  unfolding reconcile_tx
  reconciled dir generation i reliable = call-ok _ _ i reliable

  -- On a connection that does not fail, the loop reconciles the directories in their order.
  scan_directories_lem :
      (generation : ℤ) (dirs : List FilePath) (stats : ScanStats) (i : Index)
      → IsReliable i
      → (calls : ℕ) × (scan_directories scanner library root generation dirs stats i ≡ (
        done (read_stats dirs stats),
        record i {
          db = reconcile_steps library.name generation (steps_of scanner library root dirs) i.db;
          calls = calls;
        },
      ))
  unfolding scan_directories reconcile_steps
  scan_directories_lem generation [] stats i reliable = (i.calls, refl)
  scan_directories_lem generation (dir ∷ dirs) stats i reliable =
      let found : ScanStats = record {
        directories = 1;
        videos = length (collect_directory scanner library root dir);
        removed = 0;
      } in
      let next = record i {
        db =
            (reconcile_tx library.name (relative_of dir root)
              (collect_directory scanner library root dir) generation i.db).1;
        calls = suc i.calls;
      } in
      let (calls, e) =
        scan_directories_lem generation dirs (stats_merged stats found) next reliable in
      (calls, rw (reconciled dir generation i reliable) e)

-- The statistics of a scan of the library whose root and directories these are.
abbrev pub scanned_stats : Scanner → Library → FilePath → ℤ → Database → ScanStats
scanned_stats scanner library root generation db =
    stats_merged (read_stats scanner library root (walk_directories scanner.disk root) no_stats)
      (record {
        directories = 0;
        videos = 0;
        removed =
            (remove_unseen_tx library.name generation (
              reconcile_steps library.name generation
                (steps_of scanner library root (walk_directories scanner.disk root)) db)).0;
      })

-- The database after a scan of the library whose root and directories these are.
abbrev pub scanned_db : Scanner → Library → FilePath → ℤ → Database → Database
scanned_db scanner library root generation db =
    (remove_unseen_tx library.name generation (
      reconcile_steps library.name generation
        (steps_of scanner library root (walk_directories scanner.disk root)) db)).1

pub scan_library_lem :
    (scanner : Scanner) (library : Library) (root : FilePath) (generation : ℤ) (i : Index)
    → scanner.disk.canonicalize library.path ≡ some root
    → IsReliable i
    → (calls : ℕ) × (scan_library scanner library generation i ≡ (
      done (scanned_stats scanner library root generation i.db),
      record i { db = scanned_db scanner library root generation i.db; calls = calls },
    ))
unfolding scan_library
scan_library_lem scanner library root generation i at reliable =
    let (calls, e) =
      scan_directories_lem scanner library root generation (walk_directories scanner.disk root)
        no_stats i reliable in
    let between = record i {
      db =
          reconcile_steps library.name generation
            (steps_of scanner library root (walk_directories scanner.disk root)) i.db;
      calls = calls;
    } in
    (
      suc calls,
      rw (scan_library, at, e)
          (rw
            (call-ok (codes "sweeping vanished files") (remove_unseen_tx library.name generation)
              between reliable)
            refl),
    )
