-- ===== src/Scan/Libraries.antt =====
-- What a scan of all libraries makes of the videos table.
use loku.Base.{
  true, false, Option, none, some, List, [], ◌∷◌, ◌≡◌, ◌≢◌, refl, sym, ap, ◌∙◌, arith, All,
  map_option, find, Bool-cases, inl, inr,
}
use loku.Base.Text.{text_eq, text_eq_iff}
use loku.Base.Int.{ℤ}
use loku.Base.Paths.{FilePath}
use loku.Library.{Library}
use loku.Index.Table.{Key, lookup, IsUnique}
use loku.Index.Record.{Row, row_key}
use loku.Index.Database.{Index}
use loku.Index.Reliable.{IsReliable}
use loku.Index.Writes.Reconcile.{stored}
use loku.Scan.{ScanStats, done, stats_merged, scan_library, scan_libraries}
use loku.Scan.Records.{Scanner}
use loku.Scan.Loop.{IsTree, scanned_db, scanned_stats, scan_library_lem}
use loku.Scan.Whole.{
  IsOld, on_disk, row_after_scan, scanned_db-IsUnique, scanned_db-meta, lookup-scanned_db,
}

-- The root of the library is there, and the walk reaches every directory below it once.
abbrev pub IsReady : Scanner → Library → Type 0
IsReady scanner library =
    (root : FilePath) × (scanner.disk.canonicalize library.path ≡ some root)
    × IsTree scanner.disk root

-- The library that a key is of.
abbrev pub library_of : Key → List Library → Option Library
library_of k libraries = find (λ (l : Library). text_eq k.library l.name) libraries

-- The row of a key after a scan of its library, if that is one of those scanned.
abbrev pub row_in : Scanner → ℤ → Key → Option Row → Option Library → Option Row
row_in scanner generation k old none = old
row_in scanner generation k old (some library) =
    map_option (λ r. stored old r generation) (on_disk scanner library k)

abbrev pub row_after_all : Scanner → List Library → ℤ → Key → Option Row → Option Row
row_after_all scanner libraries generation k old =
    row_in scanner generation k old (library_of k libraries)

-- The libraries have different names, and are ready.
abbrev pub AreReady : Scanner → List Library → Type 0
AreReady scanner [] = Unit
AreReady scanner (l ∷ ls) =
    IsReady scanner l × All (λ (m : Library). l.name ≢ m.name) ls × AreReady scanner ls

module _ (scanner : Scanner) (generation : ℤ) (k : Key) where
  abbrev row_at : Index → Option Row
  row_at i = lookup row_key k i.db.videos

  absent_from :
      (l : Library) (ls : List Library)
      → k.library ≡ l.name
      → All (λ (m : Library). l.name ≢ m.name) ls
      → library_of k ls ≡ none
  absent_from l [] e h = refl
  absent_from l (m ∷ ls) e (n, h) =
      ground (arith, absent_from l ls e h, text_eq_iff k.library m.name)

  -- The scan of one library, on the row of the key and on what the others rest on.
  after_one :
      (l : Library) (i : Index)
      → IsReady scanner l
      → IsReliable i
      → IsUnique row_key i.db.videos
      → (k.library ≡ l.name → (row : Row) → row_at i ≡ some row → IsOld generation row)
      → (stats : ScanStats) × (i' : Index) × (scan_library scanner l generation i
          ≡ (done stats, i'))
        × IsReliable i'
        × IsUnique row_key i'.db.videos
        × (i'.db.meta ≡ i.db.meta)
        × (row_at i' ≡ row_after_scan scanner l generation k (row_at i))
  after_one l i (root, at, tree) reliable u old =
      let (calls, e) = scan_library_lem scanner l root generation i at reliable in
      (
        scanned_stats scanner l root generation i.db,
        record i { db = scanned_db scanner l root generation i.db; calls = calls },
        e,
        reliable,
        scanned_db-IsUnique scanner l root generation i.db u,
        scanned_db-meta scanner l root generation i.db,
        lookup-scanned_db scanner l root generation i.db k at tree u old,
      )

  first_of :
      (l : Library) (ls : List Library)
      → text_eq k.library l.name ≡ true
      → library_of k (l ∷ ls) ≡ some l
  first_of l ls e = rw e refl

  later_of :
      (l : Library) (ls : List Library)
      → text_eq k.library l.name ≡ false
      → library_of k (l ∷ ls) ≡ library_of k ls
  later_of l ls e = rw e refl

  row_of_first :
      (l : Library) (ls : List Library) (old now : Option Row)
      → text_eq k.library l.name ≡ true
      → library_of k ls ≡ none
      → now ≡ row_after_scan scanner l generation k old
      → row_after_all scanner ls generation k now ≡ row_after_all scanner (l ∷ ls) generation k old
  row_of_first l ls old now e absent h =
      ap (row_in scanner generation k now) absent
      ∙ h
      ∙ rw e refl
      ∙ ap (row_in scanner generation k old) (sym (first_of l ls e))

  row_of_later :
      (l : Library) (ls : List Library) (old now : Option Row)
      → text_eq k.library l.name ≡ false
      → now ≡ row_after_scan scanner l generation k old
      → (now ≡ old)
        × (row_after_all scanner ls generation k now
            ≡ row_after_all scanner (l ∷ ls) generation k old)
  row_of_later l ls old now e h =
      let same : now ≡ old = h ∙ rw e refl in
      (
        same,
        ap (λ o. row_after_all scanner ls generation k o) same
            ∙ ap (row_in scanner generation k old) (sym (later_of l ls e)),
      )

  pub after_all :
      (ls : List Library) (stats : ScanStats) (i : Index)
      → AreReady scanner ls
      → IsReliable i
      → IsUnique row_key i.db.videos
      → ((l : Library)
          → library_of k ls ≡ some l
          → (row : Row) → row_at i ≡ some row
          → IsOld generation row)
      → (total : ScanStats) × (i' : Index) × (scan_libraries scanner generation ls stats i
          ≡ (done total, i'))
        × IsReliable i'
        × IsUnique row_key i'.db.videos
        × (i'.db.meta ≡ i.db.meta)
        × (row_at i' ≡ row_after_all scanner ls generation k (row_at i))
  unfolding scan_libraries
  after_all [] stats i ready reliable u old = (stats, i, refl, reliable, u, refl, refl)
  after_all (l ∷ ls) stats i (ready, apart, rest) reliable u old =
      elim (Bool-cases (text_eq k.library l.name)) [
        | inl ours ↦
            let (found, i1, e1, reliable1, u1, meta1, row1) =
              after_one l i ready reliable u (λ _. old l (first_of l ls ours)) in
            let none_left = absent_from l ls ((text_eq_iff k.library l.name).0 ours) apart in
            let (total, i2, e2, reliable2, u2, meta2, row2) =
              after_all ls (stats_merged stats found) i1 rest reliable1 u1
                (λ m here. absurd (ground arith)) in
            (
              total,
              i2,
              rw e1 e2,
              reliable2,
              u2,
              meta2 ∙ meta1,
              row2 ∙ row_of_first l ls (row_at i) (row_at i1) ours none_left row1,
            )
        | inr other ↦
            let (found, i1, e1, reliable1, u1, meta1, row1) =
              after_one l i ready reliable u
                (λ e. absurd (ground (arith, text_eq_iff k.library l.name))) in
            let (same, step) = row_of_later l ls (row_at i) (row_at i1) other row1 in
            let (total, i2, e2, reliable2, u2, meta2, row2) =
              after_all ls (stats_merged stats found) i1 rest reliable1 u1
                (λ m here row at. old m (later_of l ls other ∙ here) row (sym same ∙ at)) in
            (total, i2, rw e1 e2, reliable2, u2, meta2 ∙ meta1, row2 ∙ step)
      ]
