-- ===== src/Scan/Whole.antt =====
-- What a whole scan of one library makes of the videos table.
use loku.Base.{
  true, Option, none, some, ◌≡◌, ◌≢◌, refl, sym, ap, ◌∙◌, arith, All, map_option, if◌then◌else◌,
  Bool-cases, inl, inr,
}
use loku.Base.Text.{text_eq, text_eq_iff}
use loku.Base.Int.{ℤ, ltb_ℤ}
use loku.Base.Paths.{FilePath}
use loku.Base.Paths.Texts.{parent_text}
use loku.Library.{Library}
use loku.Index.Table.{Key, lookup, unless, IsUnique, key-lookup, delete-IsUnique}
use loku.Index.Record.{Row, VideoRecord, row_key}
use loku.Index.Database.{Database, Index}
use loku.Index.Reliable.{IsReliable}
use loku.Index.Writes.{predates, remove_unseen_tx}
use loku.Index.Writes.Reconcile.{stored}
use loku.Index.Writes.Sweep.{lookup-remove_unseen}
use loku.Scan.{done, scan_library}
use loku.Scan.Records.{Scanner, walk_directories}
use loku.Scan.Steps.{
  reconcile_steps, reconcile_steps-IsUnique, seen, All-lookup, seen-parent, reconcile_steps-meta,
}
use loku.Scan.Refines.{outcome_of_steps, foreign_steps, foreign_sweep, swept}
use loku.Scan.Loop.{
  IsTree, steps_of, steps_of-AreSteps, scanned_stats, scanned_db, scan_library_lem,
}

-- The row is of the directory that its path names, and of an earlier scan.
abbrev pub IsOld : ℤ → Row → Type 0
IsOld generation row =
    (row.parent ≡ parent_text row.rel_path) × (ltb_ℤ row.last_seen generation ≡ true)

-- The record of a key on the disk, as a scan reads it.
unfoldable pub on_disk : Scanner → Library → Key → Option VideoRecord
on_disk scanner library k = elim (scanner.disk.canonicalize library.path) [
  | none ↦ none
  | some root ↦ seen k (steps_of scanner library root (walk_directories scanner.disk root))
]

-- The row of a key after a scan of the library: that of its record, if it is of the library.
abbrev pub row_after_scan : Scanner → Library → ℤ → Key → Option Row → Option Row
row_after_scan scanner library generation k old =
    if text_eq k.library library.name
    then map_option (λ r. stored old r generation) (on_disk scanner library k)
    else old

pub on_disk_lem :
    (scanner : Scanner) (library : Library) (root : FilePath) (k : Key)
    → scanner.disk.canonicalize library.path ≡ some root
    → on_disk scanner library k
      ≡ seen k (steps_of scanner library root (walk_directories scanner.disk root))
unfolding on_disk
on_disk_lem scanner library root k at = rw (on_disk, at) refl

pub scanned_db-meta :
    (scanner : Scanner) (library : Library) (root : FilePath) (generation : ℤ) (db : Database)
    → (scanned_db scanner library root generation db).meta ≡ db.meta
unfolding remove_unseen_tx
scanned_db-meta scanner library root generation db =
    reconcile_steps-meta library.name generation _ db

-- A record on the disk is of the directory that its key's path names.
pub on_disk-parent :
    (scanner : Scanner) (library : Library) (root : FilePath) (k : Key) (r : VideoRecord)
    → scanner.disk.canonicalize library.path ≡ some root
    → IsTree scanner.disk root
    → on_disk scanner library k ≡ some r
    → r.parent ≡ parent_text k.name
on_disk-parent scanner library root k r at tree e =
    seen-parent library.name (steps_of scanner library root (walk_directories scanner.disk root)) k
      r (steps_of-AreSteps scanner library root (walk_directories scanner.disk root) tree.0 tree.1)
      (sym (on_disk_lem scanner library root k at) ∙ e)

pub scanned_db-IsUnique :
    (scanner : Scanner) (library : Library) (root : FilePath) (generation : ℤ) (db : Database)
    → IsUnique row_key db.videos
    → IsUnique row_key (scanned_db scanner library root generation db).videos
unfolding remove_unseen_tx
scanned_db-IsUnique scanner library root generation db u =
    delete-IsUnique row_key _ _ (reconcile_steps-IsUnique library.name generation _ db u)

module _ (scanner : Scanner) (library : Library) (root : FilePath) (generation : ℤ) (db : Database)
    (k : Key) (at : scanner.disk.canonicalize library.path ≡ some root)
    (tree : IsTree scanner.disk root) (u : IsUnique row_key db.videos) where
  stale :
      (row : Row)
      → k.library ≡ library.name
      → row_key row ≡ k
      → IsOld generation row
      → predates library.name generation row ≡ true
  stale row e keyed old = ground (arith, text_eq_iff row.library library.name)

  pub lookup-scanned_db :
      (k.library ≡ library.name
        → (row : Row) → lookup row_key k db.videos ≡ some row
        → IsOld generation row)
      → lookup row_key k (scanned_db scanner library root generation db).videos
        ≡ row_after_scan scanner library generation k (lookup row_key k db.videos)
  lookup-scanned_db old =
      let steps = steps_of scanner library root (walk_directories scanner.disk root) in
      let ready =
        steps_of-AreSteps scanner library root (walk_directories scanner.disk root) tree.0 tree.1 in
      let swept_row =
        lookup-remove_unseen library.name generation
          (reconcile_steps library.name generation steps db) k
          (reconcile_steps-IsUnique library.name generation steps db u) in
      elim (Bool-cases (text_eq k.library library.name)) [
        | inl e ↦
            let ours = (text_eq_iff k.library library.name).0 e in
            let keyed = key-lookup row_key k db.videos in
            rw (e, on_disk_lem scanner library root k at)
              (swept_row
                ∙ swept library.name generation k (lookup row_key k db.videos) _ (seen k steps)
                    (outcome_of_steps library.name generation k steps db ready u (λ row found.
                      (old ours row found).0
                      ∙ ap (λ (j : Key). parent_text j.name) (keyed row found)))
                    (λ row found. stale row ours (keyed row found) (old ours row found)))
        | inr e ↦
            let foreign : k.library ≢ library.name =
              λ same. ground (arith, text_eq_iff k.library library.name) in
            rw e (
              swept_row
              ∙ ap (unless row_key (predates library.name generation))
                  (foreign_steps library.name generation k steps db ready u foreign)
              ∙ foreign_sweep library.name generation k (lookup row_key k db.videos)
                  (λ row. key-lookup row_key k db.videos row) foreign)
      ]

-- On a connection that does not fail, over a file system whose walk reaches every directory of the
-- library once: after a scan each row of the library is its record on the disk, merged with the
-- row that was there, and there is no other row of the library; rows of other libraries are as they
-- were. The rows of the library were of their directories and of earlier scans before.
pub lookup-scan_library :
    (scanner : Scanner) (library : Library) (root : FilePath) (generation : ℤ) (i : Index) (k : Key)
    → scanner.disk.canonicalize library.path ≡ some root
    → IsReliable i
    → IsTree scanner.disk root
    → IsUnique row_key i.db.videos
    → All (λ row. row.library ≡ library.name → IsOld generation row) i.db.videos
    → ((scan_library scanner library generation i).0
        ≡ done (scanned_stats scanner library root generation i.db))
      × (lookup row_key k (scan_library scanner library generation i).1.db.videos
          ≡ row_after_scan scanner library generation k (lookup row_key k i.db.videos))
lookup-scan_library scanner library root generation i k at reliable tree u old =
    let (calls, e) = scan_library_lem scanner library root generation i at reliable in
    let keyed = key-lookup row_key k i.db.videos in
    (
      ap (λ x. x.0) e,
      ap (λ x. lookup row_key k x.1.db.videos) e
          ∙ lookup-scanned_db scanner library root generation i.db k at tree u (λ ours row found.
            All-lookup row_key (λ row. row.library ≡ library.name → IsOld generation row) k
              i.db.videos row old found (ap (λ (j : Key). j.library) (keyed row found) ∙ ours)),
    )
