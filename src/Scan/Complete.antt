-- ===== src/Scan/Complete.antt =====
-- A scan of all libraries under a new generation: what it makes of the videos table, and that the
-- next scan finds the table as this one did.
use loku.Base.{
  ℕ, ◌+◌, ◌<◌, true, false, Option, none, some, List, [], ◌∷◌, ◌≡◌, refl, sym, ap, ◌∙◌, arith, All,
  suc, map_option-eq-some,
}
use mathlib.Core.Path.{subst}
use loku.Base.Text.{codes, text_eq}
use loku.Base.Int.{ℤ, pos, i64_max, nat_to_string, ltb_ℤ}
use loku.Base.Paths.Texts.{parent_text}
use loku.Library.{Library}
use loku.Index.Table.{Key, key_eq, lookup, IsUnique, lookup-upsert-replace, key-lookup}
use loku.Index.Record.{Row, VideoRecord, row_key, excluded, on_conflict}
use loku.Index.Database.{Database, Index, meta_key}
use loku.Index.Reliable.{IsReliable, call-ok}
use loku.Index.Writes.{
  next_generation_tx, stored_generation, mark_scan_complete_tx, set_meta, scan_generation,
}
use loku.Index.Writes.Generation.{next_generation_lem}
use loku.Index.Writes.Reconcile.{stored}
use loku.Scan.Steps.{All-lookup, All-of_lookup}
use loku.Scan.{ScanStats, done, no_stats, scan_all}
use loku.Scan.Records.{Scanner}
use loku.Scan.Whole.{IsOld, on_disk, on_disk-parent}
use loku.Scan.Libraries.{IsReady, AreReady, library_of, row_in, row_after_all, after_all}

-- The row is of the directory that its path names, and of no scan after the last.
abbrev pub IsCurrent : ℤ → Row → Type 0
IsCurrent generation row =
    (row.parent ≡ parent_text row.rel_path) × (ltb_ℤ generation row.last_seen ≡ false)

older : (stamp : ℤ) (n : ℕ) → ltb_ℤ (pos n) stamp ≡ false → ltb_ℤ stamp (pos (n + 1)) ≡ true
older stamp n h = ground arith

next_generation-videos : (db : Database) → (next_generation_tx db).1.videos ≡ db.videos
unfolding next_generation_tx set_meta
next_generation-videos db = refl

mark_scan_complete-videos :
    (now : ℕ) (db : Database) → (mark_scan_complete_tx now db).1.videos ≡ db.videos
unfolding mark_scan_complete_tx set_meta
mark_scan_complete-videos now db = refl

stored_generation-meta :
    (a b : Database) → a.meta ≡ b.meta → stored_generation a ≡ stored_generation b
unfolding stored_generation
stored_generation-meta a b e = rw e refl

mark_scan_complete-generation :
    (now : ℕ) (db : Database)
    → stored_generation (mark_scan_complete_tx now db).1 ≡ stored_generation db
unfolding mark_scan_complete_tx set_meta stored_generation lookup key_eq text_eq
mark_scan_complete-generation now db =
    rw
      (lookup-upsert-replace meta_key (record { library = []; name = scan_generation })
        (record { name = codes "last_scan_completed"; value = nat_to_string now }) db.meta)
      refl

module _ (scanner : Scanner) (now : ℕ) (libraries : List Library) (i : Index) (k : Key) (n : ℕ)
    (ready : AreReady scanner libraries) (reliable : IsReliable i)
    (u : IsUnique row_key i.db.videos) (current : All (IsCurrent (pos n)) i.db.videos)
    (stored_is : stored_generation i.db ≡ pos n) (fits : n < i64_max) where
  started : Index
  started = record i { db = (next_generation_tx i.db).1; calls = suc i.calls }

  started-IsOld :
      (l : Library)
      → library_of k libraries ≡ some l
      → (row : Row) → lookup row_key k started.db.videos ≡ some row
      → IsOld (pos (n + 1)) row
  unfolding started next_generation_tx set_meta
  started-IsOld l here row found =
      let (placed, stamp) =
        All-lookup row_key (IsCurrent (pos n)) k i.db.videos row current found in
      (placed, older row.last_seen n stamp)

  scan_all_lem :
      (stats : ScanStats) × (i' : Index) × (scan_all scanner now libraries i ≡ (done stats, i'))
      × IsUnique row_key i'.db.videos
      × (stored_generation i'.db ≡ pos (n + 1))
      × (lookup row_key k i'.db.videos
          ≡ row_after_all scanner libraries (pos (n + 1)) k (lookup row_key k i.db.videos))
  unfolding scan_all started
  scan_all_lem =
      let (generation_is, stored_then) = next_generation_lem i.db n stored_is fits in
      let videos_same = next_generation-videos i.db in
      let (stats, i', e, reliable', u', meta', row') =
        after_all scanner (pos (n + 1)) k libraries no_stats started ready reliable
          (subst (IsUnique row_key) (sym videos_same) u) started-IsOld in
      (
        stats,
        record i' { db = (mark_scan_complete_tx now i'.db).1; calls = suc i'.calls },
        rw
            (
              call-ok (codes "advancing the scan generation") next_generation_tx i reliable,
              generation_is,
              e,
              call-ok (codes "recording scan completion") (mark_scan_complete_tx now) i' reliable',
            )
            refl,
        subst (IsUnique row_key) (sym (mark_scan_complete-videos now i'.db)) u',
        mark_scan_complete-generation now i'.db
            ∙ stored_generation-meta i'.db started.db meta'
            ∙ stored_then,
        ap (lookup row_key k) (mark_scan_complete-videos now i'.db)
            ∙ row'
            ∙ ap
                (λ videos.
                  row_after_all scanner libraries (pos (n + 1)) k (lookup row_key k videos))
                videos_same,
      )

module _ (scanner : Scanner) (generation : ℤ) (k : Key) where
  IsReady-of_library :
      (ls : List Library) (l : Library)
      → AreReady scanner ls
      → library_of k ls ≡ some l
      → IsReady scanner l
  IsReady-of_library [] l h e = cc
  IsReady-of_library (m ∷ ls) l (h, apart, hs) e = ground (arith, IsReady-of_library ls l)

  stored-IsCurrent :
      (old : Option Row) (r : VideoRecord) (row : Row)
      → r.parent ≡ parent_text k.name
      → stored old r generation ≡ row
      → row_key row ≡ k
      → ltb_ℤ generation generation ≡ false
      → IsCurrent generation row
  unfolding excluded on_conflict
  stored-IsCurrent none r row at e keyed below = ground arith
  stored-IsCurrent (some x) r row at e keyed below = ground arith

  row_in-IsCurrent :
      (found : Option Library) (old : Option Row) (row : Row)
      → ((l : Library) → found ≡ some l → IsReady scanner l)
      → ((x : Row) → old ≡ some x → IsCurrent generation x)
      → row_in scanner generation k old found ≡ some row
      → row_key row ≡ k
      → IsCurrent generation row
  row_in-IsCurrent none old row ready current e keyed = current row e
  row_in-IsCurrent (some l) old row ready current e keyed =
      let (root, at, tree) = ready l refl in
      let (r, here, same) =
        map_option-eq-some (on_disk scanner l k) (λ r. stored old r generation) row e in
      stored-IsCurrent old r row (on_disk-parent scanner l root k r at tree here) same keyed
        (ground arith)

later : (n : ℕ) (row : Row) → IsCurrent (pos n) row → IsCurrent (pos (n + 1)) row
later n row (placed, stamp) = (placed, ground arith)

-- On a connection that does not fail, with libraries of different names whose walks reach every
-- directory once, and rows of different keys, of their paths' directories and of no scan after the
-- last: a scan of all libraries ends well; then each row of a scanned library is its record on the
-- disk, merged with the row that was there, under the next generation, and there is no other row of
-- it; rows of other libraries are as they were.
pub lookup-scan_all :
    (scanner : Scanner) (now : ℕ) (libraries : List Library) (i : Index) (k : Key) (n : ℕ)
    → AreReady scanner libraries
    → IsReliable i
    → IsUnique row_key i.db.videos
    → All (IsCurrent (pos n)) i.db.videos
    → stored_generation i.db ≡ pos n
    → n < i64_max
    → ((stats : ScanStats) × ((scan_all scanner now libraries i).0 ≡ done stats))
      × (lookup row_key k (scan_all scanner now libraries i).1.db.videos
          ≡ row_after_all scanner libraries (pos (n + 1)) k (lookup row_key k i.db.videos))
lookup-scan_all scanner now libraries i k n ready reliable u current stored_is fits =
    let (stats, i', e, _, _, row) =
      scan_all_lem scanner now libraries i k n ready reliable u current stored_is fits in
    ((stats, ap (λ x. x.0) e), ap (λ x. lookup row_key k x.1.db.videos) e ∙ row)

-- With libraries of different names whose walks reach every directory once, on a connection that
-- does not fail, a scan of all libraries keeps what it needs of the index: the keys of the rows are
-- different, and each row is of the directory that its path names and of no scan after the last,
-- whose generation is then the next one.
pub scan_all-IsCurrent :
    (scanner : Scanner) (now : ℕ) (libraries : List Library) (i : Index) (n : ℕ)
    → AreReady scanner libraries
    → IsReliable i
    → IsUnique row_key i.db.videos
    → All (IsCurrent (pos n)) i.db.videos
    → stored_generation i.db ≡ pos n
    → n < i64_max
    → IsUnique row_key (scan_all scanner now libraries i).1.db.videos
      × All (IsCurrent (pos (n + 1))) (scan_all scanner now libraries i).1.db.videos
      × (stored_generation (scan_all scanner now libraries i).1.db ≡ pos (n + 1))
scan_all-IsCurrent scanner now libraries i n ready reliable u current stored_is fits =
    let after = (scan_all scanner now libraries i).1.db in
    let lem = λ (k : Key).
      scan_all_lem scanner now libraries i k n ready reliable u current stored_is fits in
    let (_, i', e, u', generation', _) = lem (record { library = []; name = [] }) in
    let unique = subst (λ x. IsUnique row_key x.1.db.videos) (sym e) u' in
    (
      unique,
      All-of_lookup row_key (IsCurrent (pos (n + 1))) after.videos unique (λ k row found.
          row_in-IsCurrent scanner (pos (n + 1)) k (library_of k libraries)
            (lookup row_key k i.db.videos) row
            (λ l here. IsReady-of_library scanner (pos (n + 1)) k libraries l ready here)
            (λ x at. later n x (All-lookup row_key (IsCurrent (pos n)) k i.db.videos x current at))
            (sym
                (lookup-scan_all scanner now libraries i k n ready reliable u current stored_is
                  fits).1
              ∙ found)
            (key-lookup row_key k after.videos row found)),
      ap (λ x. stored_generation x.1.db) e ∙ generation',
    )
