-- ===== src/Index/Writes/Probe.antt =====
-- What a recorded probe does to the tables, and that a rescan of unchanged content keeps it.
use loku.Base.{◌&&◌, Option, none, some, List, ◌≡◌, refl, arith, if◌then◌else◌, ◌==◌, map_option}
use loku.Base.Text.{Text, codes}
use loku.Base.Int.{ℤ}
use loku.Index.Table.{
  Key, key_eq, key_eq_refl, lookup, IsUnique, lookup-update, lookup-upsert-replace, update-IsUnique,
}
use loku.Index.Record.{
  Row, VideoRecord, ProbeCandidate, ProbeResult, row_key, record_key, excluded, on_conflict,
}
use loku.Index.Database.{Database, probe_key}
use loku.Index.Writes.{candidate_key, probe_row, apply_probe, record_probe_tx, reconcile_tx}
use loku.Index.Writes.Reconcile.{AreFrom, stored, lookup-reconcile}
use loku.Index.Reads.{cached}

-- Recording a probe applies it to the candidate's row, and to no other row.
pub lookup-record_probe :
    (c : ProbeCandidate) (probe : ProbeResult) (db : Database) (k : Key)
    → lookup row_key k (record_probe_tx c probe db).1.videos ≡ (
        if key_eq (candidate_key c) k
        then map_option (apply_probe probe) (lookup row_key k db.videos)
        else lookup row_key k db.videos)
unfolding record_probe_tx
lookup-record_probe c probe db k =
    lookup-update row_key (apply_probe probe) (λ row. unfold apply_probe in refl) (candidate_key c)
      k db.videos

-- The cache has a recorded probe for the candidate's content, and for a candidate of another size
-- or time of the same file it has none.
pub cached-record_probe :
    (c d : ProbeCandidate) (probe : ProbeResult) (db : Database)
    → candidate_key d ≡ candidate_key c
    → cached d (record_probe_tx c probe db).1
      ≡ (if (c.size == d.size) && (c.mtime == d.mtime) then some probe else none)
unfolding record_probe_tx cached
cached-record_probe c d probe db same = ground (
  arith,
  lookup-upsert-replace probe_key (candidate_key d) (probe_row c probe) db.probe_cache,
  key_eq_refl (candidate_key c),
)

pub record_probe-IsUnique :
    (c : ProbeCandidate) (probe : ProbeResult) (db : Database)
    → IsUnique row_key db.videos
    → IsUnique row_key (record_probe_tx c probe db).1.videos
unfolding record_probe_tx
record_probe-IsUnique c probe db u =
    update-IsUnique row_key (apply_probe probe) (λ row. unfold apply_probe in refl)
      (candidate_key c) db.videos u

-- The codec facts of a row.
pub record HasFacts (row : Row) (source vcodec acodec vprofile field_order : Option Text)
    : Type 0 where
  pub source_is : row.codec_source ≡ source
  pub vcodec_is : row.vcodec ≡ vcodec
  pub acodec_is : row.acodec ≡ acodec
  pub vprofile_is : row.vprofile ≡ vprofile
  pub field_order_is : row.field_order ≡ field_order

stored_facts :
    (old : Row) (r : VideoRecord) (generation : ℤ) (probe : ProbeResult)
    → r.codec_source ≡ none
    → let same = (r.size == old.size) && (r.mtime == old.mtime) in
      HasFacts
        (stored (some (apply_probe probe old)) r generation)
        (if same then some (codes "ffprobe") else none)
        (if same then probe.vcodec else none)
        (if same then probe.acodec else none)
        (if same then probe.vprofile else none)
        (if same then probe.field_order else none)
unfolding on_conflict excluded apply_probe
stored_facts old r generation probe unprobed = ground arith

-- A rescan whose record carries no codec facts keeps the facts of a recorded probe while the
-- file's size and time are those of the probed row, and clears all of them when either differs.
pub rescan_probe :
    (library parent : Text) (records : List VideoRecord) (generation : ℤ) (db : Database)
    (c : ProbeCandidate) (probe : ProbeResult) (old : Row) (r : VideoRecord)
    → AreFrom library parent records
    → IsUnique record_key records
    → IsUnique row_key db.videos
    → lookup row_key (candidate_key c) db.videos ≡ some old
    → lookup record_key (candidate_key c) records ≡ some r
    → r.codec_source ≡ none
    → let same = (r.size == old.size) && (r.mtime == old.mtime) in
      (row : Row) × (lookup row_key
          (candidate_key c)
          (reconcile_tx library parent records generation (record_probe_tx c probe db).1).1.videos
        ≡ some row)
      × HasFacts row
          (if same then some (codes "ffprobe") else none)
          (if same then probe.vcodec else none)
          (if same then probe.acodec else none)
          (if same then probe.vprofile else none)
          (if same then probe.field_order else none)
rescan_probe library parent records generation db c probe old r from distinct u there found
      unprobed =
    (
      stored (some (apply_probe probe old)) r generation,
      rw (
        lookup-reconcile library parent records generation (record_probe_tx c probe db).1
            (candidate_key c) from distinct (record_probe-IsUnique c probe db u),
        lookup-record_probe c probe db (candidate_key c),
        key_eq_refl (candidate_key c),
        there,
        found,
      ),
      stored_facts old r generation probe unprobed,
    )
