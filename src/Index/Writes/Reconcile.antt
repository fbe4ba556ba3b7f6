-- ===== src/Index/Writes/Reconcile.antt =====
-- What `reconcile_directory` leaves in the videos table.
use loku.Base.{
  Bool, true, false, ◌&&◌, Option, none, some, List, [], ◌∷◌, ◌≡◌, refl, arith, map, All,
  if◌then◌else◌, ap, sym, ◌∙◌,
}
use loku.Base.Text.{Text, text_eq_iff}
use loku.Base.Int.{ℤ}
use loku.Index.Table.{
  Key, key_eq, key_eq_iff, lookup, upsert, merged, unless, IsUnique, key-lookup, lookup-upsert,
  lookup-delete, upsert-IsUnique, delete-IsUnique,
}
use loku.Index.Record.{Row, VideoRecord, row_key, record_key, excluded, on_conflict}
use loku.Index.Database.{Database}
use loku.Index.Writes.{upsert_all, in_directory, not_in, vanished_from, reconcile_tx}

-- The row that a record makes of the row that was there.
abbrev pub stored : Option Row → VideoRecord → ℤ → Row
stored old r generation = merged row_key on_conflict old (excluded r generation)

-- The records come from one directory of one library.
abbrev pub AreFrom : Text → Text → List VideoRecord → Type 0
AreFrom library parent = All (λ r. (r.library ≡ library) × (r.parent ≡ parent))

pub on_conflict-key :
    (old new : Row) → row_key old ≡ row_key new → row_key (on_conflict old new) ≡ row_key old
unfolding on_conflict
on_conflict-key old new e = refl

excluded-key : (r : VideoRecord) (generation : ℤ) → row_key (excluded r generation) ≡ record_key r
unfolding excluded
excluded-key r generation = refl

upsert_all-IsUnique :
    (records : List VideoRecord) (generation : ℤ) (t : List Row)
    → IsUnique row_key t
    → IsUnique row_key (upsert_all records generation t)
unfolding upsert_all
upsert_all-IsUnique [] generation t u = u
upsert_all-IsUnique (r ∷ rs) generation t u =
    upsert_all-IsUnique rs generation _
      (upsert-IsUnique row_key on_conflict on_conflict-key (excluded r generation) t u)

-- The row of a key after the upserts.
abbrev pub row_after : Option VideoRecord → ℤ → Option Row → Option Row → Option Row
row_after none generation old otherwise = otherwise
row_after (some r) generation old otherwise = some (stored old r generation)

lookup-upsert_one :
    (k : Key) (r : VideoRecord) (generation : ℤ) (t : List Row)
    → lookup row_key k (upsert row_key on_conflict (excluded r generation) t) ≡ (
        if key_eq (record_key r) k
        then some (stored (lookup row_key k t) r generation)
        else lookup row_key k t)
lookup-upsert_one k r generation t =
    unfold excluded in
    (lookup-upsert row_key on_conflict on_conflict-key k (excluded r generation) t)

lookup-upsert_all :
    (k : Key) (records : List VideoRecord) (generation : ℤ) (t : List Row)
    → IsUnique record_key records
    → lookup row_key k (upsert_all records generation t)
      ≡ row_after (lookup record_key k records) generation (lookup row_key k t) (lookup row_key k t)
unfolding upsert_all lookup
lookup-upsert_all k [] generation t u = refl
lookup-upsert_all k (r ∷ rs) generation t u = ground (
  arith,
  lookup-upsert_all k rs generation (upsert row_key on_conflict (excluded r generation) t),
  lookup-upsert_one k r generation t,
  key_eq_iff (record_key r) k,
)

vanished_from_lem :
    (library parent : Text) (seen : List Text) (row : Row)
    → vanished_from library parent seen row ≡ (in_directory library parent row && not_in seen row)
unfolding vanished_from
vanished_from_lem library parent [] row = ground arith
vanished_from_lem library parent (path ∷ seen) row = refl

-- The path of a scanned record is among the paths that are kept.
kept_of_some :
    (k : Key) (records : List VideoRecord) (r : VideoRecord) (row : Row)
    → lookup record_key k records ≡ some r
    → row.rel_path ≡ k.name
    → not_in (map (λ s. s.rel_path) records) row ≡ false
unfolding lookup key_eq
kept_of_some k [] r row h e = cc
kept_of_some k (s ∷ rs) r row h e = ground (
  arith,
  kept_of_some k rs r row,
  text_eq_iff s.rel_path k.name,
  text_eq_iff row.rel_path s.rel_path,
)

-- A row of the library that no record has is not among them.
gone_of_none :
    (library parent : Text) (k : Key) (records : List VideoRecord) (row : Row)
    → AreFrom library parent records
    → lookup record_key k records ≡ none
    → k.library ≡ library
    → row.rel_path ≡ k.name
    → not_in (map (λ s. s.rel_path) records) row ≡ true
unfolding lookup key_eq
gone_of_none library parent k [] row f h l e = refl
gone_of_none library parent k (s ∷ rs) row (p, f) h l e = ground (
  arith,
  gone_of_none library parent k rs row f,
  text_eq_iff s.rel_path k.name,
  text_eq_iff s.library k.library,
  text_eq_iff row.rel_path s.rel_path,
)

pub record_of_lookup :
    (library parent : Text) (k : Key) (records : List VideoRecord) (r : VideoRecord)
    → AreFrom library parent records
    → lookup record_key k records ≡ some r
    → (r.library ≡ library) × (r.parent ≡ parent)
unfolding lookup
record_of_lookup library parent k [] r f h = cc
record_of_lookup library parent k (s ∷ rs) r (p, f) h =
    ground (arith, record_of_lookup library parent k rs r f)

stored-key :
    (k : Key) (old : Option Row) (r : VideoRecord) (generation : ℤ)
    → record_key r ≡ k
    → ((row : Row) → old ≡ some row → row_key row ≡ k)
    → row_key (stored old r generation) ≡ k
stored-key k none r generation h keyed = excluded-key r generation ∙ h
stored-key k (some row) r generation h keyed =
    on_conflict-key row (excluded r generation)
      (keyed row refl ∙ sym (excluded-key r generation ∙ h))
    ∙ keyed row refl

module _ (library parent : Text) (records : List VideoRecord) (k : Key)
    (from : AreFrom library parent records) where
  abbrev goes : Row → Bool
  goes = vanished_from library parent (map (λ r. r.rel_path) records)

  survivor_of_some :
      (r : VideoRecord) (row : Row)
      → lookup record_key k records ≡ some r
      → row_key row ≡ k
      → unless row_key goes (some row) ≡ some row
  survivor_of_some r row found e = ground (
    arith,
    vanished_from_lem library parent (map (λ s. s.rel_path) records) row,
    kept_of_some k records r row found (ap (λ (j : Key). j.name) e),
  )

  survivor_of_none :
      (old : Option Row)
      → lookup record_key k records ≡ none
      → ((row : Row) → old ≡ some row → row_key row ≡ k)
      → unless row_key goes old ≡ unless row_key (in_directory library parent) old
  survivor_of_none none absent keyed = refl
  survivor_of_none (some row) absent keyed = ground (
    arith,
    vanished_from_lem library parent (map (λ s. s.rel_path) records) row,
    gone_of_none library parent k records row from absent,
    keyed row refl,
    text_eq_iff row.library library,
  )

  -- The row of a key after the deletion: its record's, or that of another directory.
  survivor :
      (generation : ℤ) (old : Option Row) (found : Option VideoRecord)
      → lookup record_key k records ≡ found
      → ((row : Row) → old ≡ some row → row_key row ≡ k)
      → unless row_key goes (row_after found generation old old)
        ≡ row_after found generation old (unless row_key (in_directory library parent) old)
  survivor generation old none absent keyed = survivor_of_none old absent keyed
  survivor generation old (some r) found keyed =
      survivor_of_some r (stored old r generation) found
        (stored-key k old r generation (key-lookup record_key k records r found) keyed)

-- After `reconcile_directory` with the records of one directory, no two of one path: the row of
-- each record is the record's, merged with the row that was there; every other row of the
-- directory is gone; and every row of another directory is as it was.
pub lookup-reconcile :
    (library parent : Text) (records : List VideoRecord) (generation : ℤ) (db : Database) (k : Key)
    → AreFrom library parent records
    → IsUnique record_key records
    → IsUnique row_key db.videos
    → lookup row_key k (reconcile_tx library parent records generation db).1.videos
      ≡ row_after
          (lookup record_key k records)
          generation
          (lookup row_key k db.videos)
          (unless row_key (in_directory library parent) (lookup row_key k db.videos))
unfolding reconcile_tx
lookup-reconcile library parent records generation db k f distinct u =
    lookup-delete row_key (vanished_from library parent (map (λ r. r.rel_path) records)) k
      (upsert_all records generation db.videos) (upsert_all-IsUnique records generation _ u)
    ∙ ap (unless row_key _) (lookup-upsert_all k records generation db.videos distinct)
    ∙ survivor library parent records k f generation _ _ refl
        (λ row. key-lookup row_key k db.videos row)

pub reconcile-IsUnique :
    (library parent : Text) (records : List VideoRecord) (generation : ℤ) (db : Database)
    → IsUnique row_key db.videos
    → IsUnique row_key (reconcile_tx library parent records generation db).1.videos
unfolding reconcile_tx
reconcile-IsUnique library parent records generation db u =
    delete-IsUnique row_key _ _ (upsert_all-IsUnique records generation db.videos u)
