-- ===== src/Watch/Flush.antt =====
-- `flush` of crates/server/src/index/watch.rs: what is done about the dirty directories.
use loku.Base.{
  ℕ, zero, suc, Bool, false, not, ◌||◌, Option, none, some, List, [], ◌∷◌, ◌≡◌, refl, sym, ap, ◌∙◌,
  arith, keep, fold, any, All, if◌then◌else◌, filter_map, and_then,
}
use mathlib.Core.Path.{subst}
use loku.Base.Order.{sort}
use loku.Base.Text.{codes}
use loku.Base.Int.{ℤ}
use loku.Base.Paths.{FilePath}
use loku.Base.Disk.{Disk}
use loku.Library.{Library}
use loku.Index.Table.{Key, lookup, unless, IsUnique}
use loku.Index.Record.{Row, row_key}
use loku.Index.Database.{Index, Result, ok, err}
use loku.Index.Like.{Like}
use loku.Index.Reads.{current_generation, reading}
use loku.Index.Writes.{remove_tree, remove_tree_tx, stored_generation}
use loku.Index.Writes.Sweep.{in_tree_ci, lookup-remove_tree, remove_tree-IsUnique}
use loku.Index.Reliable.{IsReliable, call-ok}
use loku.Scan.{rescan_directory}
use loku.Scan.Records.{Scanner, relative_of}
use loku.Watch.{Dirty, prune_nested, dedup_dirty, prune_behind}

-- A library with the root that is watched.
pub record Root : Type 0 where
  pub library : Library
  pub root : FilePath

-- `roots.get(library_index)`
unfoldable pub get_elem? {ℓ} : {A : Type ℓ} → List A → ℕ → Option A
get_elem? [] n = none
get_elem? (x ∷ xs) zero = some x
get_elem? (x ∷ xs) (suc n) = get_elem? xs n

-- An error is only logged.
abbrev pub removed_below : Like → Option Root → Dirty → Index → Index
removed_below like none d i = i
removed_below like (some r) d i = (remove_tree like r.library.name (relative_of d.dir r.root) i).1

unfoldable pub remove_vanished : Like → List Root → Index → Dirty → Index
remove_vanished like roots i d = removed_below like (get_elem? roots d.library_index) d i

-- Every directory below a directory that the walk can read, that one included.
unfoldable pub walk_dirs : Disk → FilePath → List FilePath
walk_dirs disk dir =
    filter_map (λ entry. and_then entry λ (path, is_dir). if is_dir then some path else none)
      (disk.walk dir)

-- Every directory below is reconciled, whether or not another one fails.
unfoldable pub reconcile_live : Scanner → List Root → ℤ → Index → Dirty → Index
reconcile_live scanner roots generation i d = elim (get_elem? roots d.library_index) [
  | none ↦ i
  | some r ↦
      fold (λ j subdir. (rescan_directory scanner r.library subdir generation j).1) i
        (walk_dirs scanner.disk d.dir)
]

abbrev pub flushed : Scanner → Like → List Root → List Dirty → Result ℤ × Index → Index
flushed scanner like roots dirty (err error, i) = i
flushed scanner like roots dirty (ok generation, i) =
    let live = keep (λ (d : Dirty). scanner.disk.is_dir d.dir) dirty in
    let vanished = keep (λ (d : Dirty). not (scanner.disk.is_dir d.dir)) dirty in
    fold (reconcile_live scanner roots generation)
      (fold (remove_vanished like roots) i (prune_nested vanished)) (prune_nested live)

unfoldable pub flush : Scanner → Like → List Root → List Dirty → Index → Index
flush scanner like roots dirty i = flushed scanner like roots dirty (current_generation i)

-- The row is of the dirty directory, or below it.
abbrev pub below_root : Option Root → Dirty → Row → Bool
below_root none d row = false
below_root (some r) d row = in_tree_ci r.library.name (relative_of d.dir r.root) row

abbrev pub below_dirty : List Root → Dirty → Row → Bool
below_dirty roots d row = below_root (get_elem? roots d.library_index) d row

module _ (like : Like) (roots : List Root) (k : Key) where
  abbrev row_at : Index → Option Row
  row_at i = lookup row_key k i.db.videos

  unless-false : (old : Option Row) → unless row_key (λ row. false) old ≡ old
  unless-false none = refl
  unless-false (some row) = refl

  unless-unless :
      (p q : Row → Bool) (old : Option Row)
      → unless row_key q (unless row_key p old) ≡ unless row_key (λ row. p row || q row) old
  unless-unless p q none = refl
  unless-unless p q (some row) = ground arith

  -- What the removals rest on, and what they leave of the row of the key.
  abbrev IsRemoved : (Row → Bool) → Index → Index → Type 0
  IsRemoved p i i' =
      IsReliable i' × IsUnique row_key i'.db.videos × (row_at i' ≡ unless row_key p (row_at i))

  removed_below-IsRemoved :
      (o : Option Root) (d : Dirty) (i : Index)
      → IsReliable i
      → IsUnique row_key i.db.videos
      → IsRemoved (below_root o d) i (removed_below like o d i)
  removed_below-IsRemoved none d i reliable u = (reliable, u, sym (unless-false (row_at i)))
  removed_below-IsRemoved (some r) d i reliable u =
      let rel = relative_of d.dir r.root in
      let e =
        call-ok (codes "removing a vanished directory tree")
          (remove_tree_tx like r.library.name rel) i reliable in
      (
        subst (λ (x : Result ℕ × Index). IsReliable x.1) (sym e) reliable,
        subst (λ (x : Result ℕ × Index). IsUnique row_key x.1.db.videos) (sym e)
            (remove_tree-IsUnique like r.library.name rel i.db u),
        ap (λ (x : Result ℕ × Index). row_at x.1) e
            ∙ lookup-remove_tree like r.library.name rel i.db k u,
      )

  removals-IsRemoved :
      (ds : List Dirty) (i : Index)
      → IsReliable i
      → IsUnique row_key i.db.videos
      → IsRemoved
          (λ row. any (λ d. below_dirty roots d row) ds)
          i
          (fold (remove_vanished like roots) i ds)
  unfolding remove_vanished
  removals-IsRemoved [] i reliable u = (reliable, u, sym (unless-false (row_at i)))
  removals-IsRemoved (d ∷ ds) i reliable u =
      let (reliable1, u1, row1) =
        removed_below-IsRemoved (get_elem? roots d.library_index) d i reliable u in
      let (reliable2, u2, row2) =
        removals-IsRemoved ds (remove_vanished like roots i d) reliable1 u1 in
      (
        reliable2,
        u2,
        row2
            ∙ ap (unless row_key (λ row. any (λ e. below_dirty roots e row) ds)) row1
            ∙ unless-unless (below_dirty roots d) (λ row. any (λ e. below_dirty roots e row) ds)
                (row_at i),
      )

none_live :
    (disk : Disk) (dirty : List Dirty)
    → All (λ (d : Dirty). disk.is_dir d.dir ≡ false) dirty
    → (keep (λ (d : Dirty). disk.is_dir d.dir) dirty ≡ [])
      × (keep (λ (d : Dirty). not (disk.is_dir d.dir)) dirty ≡ dirty)
none_live disk [] h = (refl, refl)
none_live disk (d ∷ dirty) (h, hs) = ground (arith, none_live disk dirty hs)

nothing_dirty : prune_nested [] ≡ []
unfolding prune_nested sort dedup_dirty prune_behind
nothing_dirty = refl

-- On a connection whose queries do not fail, with rows of different keys: a flush of candidates
-- none of which is a directory takes the rows whose directory is that of a candidate left by the
-- pruning, or begins, in either ASCII case, with it and a slash, and no others.
pub lookup-flush_vanished :
    (scanner : Scanner) (like : Like) (roots : List Root) (dirty : List Dirty) (i : Index) (k : Key)
    → IsReliable i
    → IsUnique row_key i.db.videos
    → All (λ (d : Dirty). scanner.disk.is_dir d.dir ≡ false) dirty
    → lookup row_key k (flush scanner like roots dirty i).db.videos
      ≡ unless row_key
          (λ row. any (λ d. below_dirty roots d row) (prune_nested dirty))
          (lookup row_key k i.db.videos)
unfolding flush
lookup-flush_vanished scanner like roots dirty i k reliable u gone =
    let (live_is, vanished_is) = none_live scanner.disk dirty gone in
    let next = record i { calls = suc i.calls } in
    let read =
      call-ok (codes "reading the scan generation") (reading stored_generation) i reliable in
    let (_, _, row) = removals-IsRemoved like roots k (prune_nested dirty) next reliable u in
    ap (λ x. lookup row_key k (flushed scanner like roots dirty x).db.videos) read
    ∙ ap
        (λ ds.
          lookup row_key k
            (fold (reconcile_live scanner roots (stored_generation i.db))
              (fold (remove_vanished like roots) next
                (prune_nested (keep (λ (d : Dirty). not (scanner.disk.is_dir d.dir)) dirty)))
              ds).db.videos)
        (ap prune_nested live_is ∙ nothing_dirty)
    ∙ ap
        (λ ds.
          lookup row_key k (fold (remove_vanished like roots) next (prune_nested ds)).db.videos)
        vanished_is
    ∙ row
