-- ===== src/Media/Probe/Pass.antt =====
-- What a probe pass does to the tables, when no query fails.
use loku.Base.{
  ℕ, suc, false, Option, none, some, List, [], ◌∷◌, ◌≡◌, refl, ap, arith, map_option, if◌then◌else◌,
  ◌∙◌, is_none, not, and_then, Bool-cases, inl, inr,
}
use loku.Base.Paths.{FilePath, join_text}
use loku.Library.{Library}
use loku.Index.Table.{Key, key_eq, key_eq_iff, lookup, lookup-upsert-replace, IsUnique, key-lookup}
use loku.Index.Table.{unless}
use loku.Index.Table.Order.{lookup-map, map-IsUnique, lookup-query, query-IsUnique}
use loku.Index.Record.{Row, ProbeCandidate, ProbeResult, row_key}
use loku.Index.Database.{Database, Index, ok, probe_key}
use loku.Index.Reliable.{IsReliable, call-ok}
use loku.Index.Writes.{candidate_key, record_probe_tx, apply_probe, probe_row}
use loku.Index.Writes.Probe.{lookup-record_probe}
use loku.Index.Reads.{candidate_of, row_le, reading, cached, cached_probe, needing_probe}
use loku.Media.Ffmpeg.{is_definitive, no_facts}
use loku.Media.Probe.{
  ProbeAnswer, found, failed, library_of, recorded, answered, from_cache, probe_candidate,
  probe_all, probe_pending,
}

module _ (libraries : List Library) (runner : FilePath → ProbeAnswer) where
  abbrev pub facts_of : ProbeAnswer → Option ProbeResult
  facts_of (found result) = some result
  facts_of (failed error) = if is_definitive error then some no_facts else none

  abbrev pub resolved : ProbeCandidate → Option ProbeResult → Database → Database
  resolved c none db = db
  resolved c (some probe) db = (record_probe_tx c probe db).1

  -- The connection after a step: its tables, and the failures that it will have.
  abbrev IsAfter : Database → Index → Index → Type 0
  IsAfter db index next = (next.db ≡ db) × (next.fails ≡ index.fails)

  recorded_lem :
      (c : ProbeCandidate) (probe : ProbeResult) (index : Index)
      → IsReliable index
      → IsAfter (record_probe_tx c probe index.db).1 index (recorded c probe index).1
  unfolding recorded
  recorded_lem c probe index reliable =
      rw (call-ok _ (record_probe_tx c probe) index reliable) (refl, refl)

  answered_lem :
      (c : ProbeCandidate) (answer : ProbeAnswer) (index : Index)
      → IsReliable index
      → IsAfter (resolved c (facts_of answer) index.db) index (answered c answer index).1
  unfolding answered
  answered_lem c (found result) index reliable = recorded_lem c result index reliable
  answered_lem c (failed error) index reliable = elim (Bool-cases (is_definitive error)) [
    | inl definitive ↦ rw definitive (recorded_lem c no_facts index reliable)
    | inr transient ↦ rw transient (refl, refl)
  ]

  abbrev cached_or : Option ProbeResult → ProbeAnswer → Option ProbeResult
  cached_or (some probe) answer = some probe
  cached_or none answer = facts_of answer

  from_cache_lem :
      (c : ProbeCandidate) (answer : ProbeAnswer) (o : Option ProbeResult) (index : Index)
      → IsReliable index
      → IsAfter
          (resolved c (cached_or o answer) index.db)
          index
          (from_cache c answer (ok o, index)).1
  unfolding from_cache
  from_cache_lem c answer (some probe) index reliable = recorded_lem c probe index reliable
  from_cache_lem c answer none index reliable = answered_lem c answer index reliable

  -- The facts that the pass finds for a candidate: those of the cache, else those of the runner,
  -- and empty ones for a file that can not be probed.
  abbrev pub resolution : Database → ProbeCandidate → Option ProbeResult
  resolution db c =
      and_then (library_of libraries c)
        λ library. cached_or (cached c db) (runner (join_text library.path c.rel_path))

  -- A candidate's step records what is found for it, and changes no table if nothing is found.
  pub probe_candidate_lem :
      (c : ProbeCandidate) (index : Index)
      → IsReliable index
      → IsAfter
          (resolved c (resolution index.db c) index.db)
          index
          (probe_candidate libraries runner c index).1
  unfolding probe_candidate
  probe_candidate_lem c index reliable = go (library_of libraries c)
    where
      go :
          (o : Option Library)
          → IsAfter
              (resolved c
                (and_then o λ library.
                  cached_or (cached c index.db) (runner (join_text library.path c.rel_path)))
                index.db)
              index
              (elim o as (λ _. ℕ × Index) [
                | none ↦ (0, index)
                | some library ↦
                    from_cache c (runner (join_text library.path c.rel_path)) (cached_probe c index)
              ]).1
      go none = (refl, refl)
      go (some library) = rw (call-ok _ (reading (cached c)) index reliable) (
          from_cache_lem c (runner (join_text library.path c.rel_path)) (cached c index.db)
            (record index { calls = suc index.calls }) reliable)

  cached-other :
      (c d : ProbeCandidate) (probe : ProbeResult) (db : Database)
      → key_eq (candidate_key c) (candidate_key d) ≡ false
      → cached d (record_probe_tx c probe db).1 ≡ cached d db
  unfolding cached record_probe_tx
  cached-other c d probe db apart =
      rw (
        lookup-upsert-replace probe_key (candidate_key d) (probe_row c probe) db.probe_cache,
        apart,
      )

  resolution-other :
      (c d : ProbeCandidate) (o : Option ProbeResult) (db : Database)
      → key_eq (candidate_key c) (candidate_key d) ≡ false
      → resolution (resolved c o db) d ≡ resolution db d
  resolution-other c d none db apart = refl
  resolution-other c d (some probe) db apart = rw (cached-other c d probe db apart)

  -- A row with the facts that were found for it.
  abbrev pub probed : Option ProbeResult → Row → Row
  probed none row = row
  probed (some probe) row = apply_probe probe row

  lookup-resolved :
      (c : ProbeCandidate) (o : Option ProbeResult) (db : Database) (k : Key)
      → lookup row_key k (resolved c o db).videos ≡ (
          if key_eq (candidate_key c) k
          then map_option (probed o) (lookup row_key k db.videos)
          else lookup row_key k db.videos)
  lookup-resolved c none db k = ground arith
  lookup-resolved c (some probe) db k = lookup-record_probe c probe db k

  -- The row of a key after the candidates are probed.
  abbrev row_probed : Database → Option ProbeCandidate → Option Row → Option Row
  row_probed db none row = row
  row_probed db (some c) row = map_option (probed (resolution db c)) row

  row_probed-other :
      (c : ProbeCandidate) (o : Option ProbeResult) (db : Database) (k : Key)
      (found : Option ProbeCandidate) (row : Option Row)
      → ((d : ProbeCandidate) → found ≡ some d → candidate_key d ≡ k)
      → key_eq (candidate_key c) k ≡ false
      → row_probed (resolved c o db) found row ≡ row_probed db found row
  row_probed-other c o db k none row keyed apart = refl
  row_probed-other c o db k (some d) row keyed apart =
      rw (resolution-other c d o db (rw (keyed d refl) apart))

  pass_step :
      (c : ProbeCandidate) (cs : List ProbeCandidate) (db : Database) (k : Key)
      → lookup candidate_key (candidate_key c) cs ≡ none
      → let after = resolved c (resolution db c) db in
        row_probed after (lookup candidate_key k cs) (lookup row_key k after.videos)
        ≡ row_probed db
            (if key_eq (candidate_key c) k then some c else lookup candidate_key k cs)
            (lookup row_key k db.videos)
  pass_step c cs db k absent = elim (Bool-cases (key_eq (candidate_key c) k)) [
    | inl here ↦
        let gone : lookup candidate_key k cs ≡ none =
          rw (← (key_eq_iff (candidate_key c) k).0 here) absent in
        rw (here, gone, lookup-resolved c (resolution db c) db k, here)
    | inr apart ↦
        rw (apart, lookup-resolved c (resolution db c) db k, apart)
          (row_probed-other c (resolution db c) db k (lookup candidate_key k cs) _
            (λ d. key-lookup candidate_key k cs d) apart)
  ]

  lookup-probe_all :
      (cs : List ProbeCandidate) (index : Index) (k : Key)
      → IsReliable index
      → IsUnique candidate_key cs
      → lookup row_key k (probe_all libraries runner cs index).1.db.videos
        ≡ row_probed index.db (lookup candidate_key k cs) (lookup row_key k index.db.videos)
  unfolding probe_all lookup
  lookup-probe_all [] index k reliable distinct = refl
  lookup-probe_all (c ∷ cs) index k reliable distinct =
      let next = (probe_candidate libraries runner c index).1 in
      let (after, fails) = probe_candidate_lem c index reliable in
      lookup-probe_all cs next k (λ n. ap (λ f. f n) fails ∙ reliable n) distinct.1
      ∙ ap (λ db. row_probed db (lookup candidate_key k cs) (lookup row_key k db.videos)) after
      ∙ pass_step c cs index.db k distinct.0

  -- The row after the pass, where it is a candidate.
  abbrev pub pass_row : Database → Row → Row
  pass_row db row =
      if is_none row.codec_source then probed (resolution db (candidate_of row)) row else row

  listed :
      (db : Database) (k : Key)
      → IsUnique row_key db.videos
      → lookup candidate_key k (needing_probe db)
        ≡ map_option candidate_of
            (unless row_key (λ row. not (is_none row.codec_source)) (lookup row_key k db.videos))
  unfolding needing_probe
  listed db k u =
      lookup-map row_key candidate_key candidate_of (λ row. refl) k _
      ∙ ap (map_option candidate_of)
          (lookup-query row_key row_le (λ row. is_none row.codec_source) k db.videos u)

  listed-IsUnique :
      (db : Database) → IsUnique row_key db.videos → IsUnique candidate_key (needing_probe db)
  unfolding needing_probe
  listed-IsUnique db u =
      map-IsUnique row_key candidate_key candidate_of (λ row. refl) _
        (query-IsUnique row_key row_le (λ row. is_none row.codec_source) db.videos u)

  pass_cases :
      (db : Database) (row : Option Row)
      → row_probed db
          (map_option candidate_of (unless row_key (λ r. not (is_none r.codec_source)) row))
          row
        ≡ map_option (pass_row db) row
  pass_cases db none = refl
  pass_cases db (some row) = elim (Bool-cases (is_none row.codec_source)) [
    | inl needed ↦ rw needed
    | inr done ↦ rw done
  ]

  -- A probe pass on a connection whose queries do not fail records, for each row that lacks codec
  -- facts, what the cache or else the runner has for it, definitive failures as empty facts, and
  -- leaves every other row as it was: those with facts, those of libraries that are not
  -- configured, and those whose probe failed for the moment.
  pub lookup-probe_pending :
      (index : Index) (k : Key)
      → IsReliable index
      → IsUnique row_key index.db.videos
      → lookup row_key k (probe_pending libraries runner index).1.db.videos
        ≡ map_option (pass_row index.db) (lookup row_key k index.db.videos)
  unfolding probe_pending
  lookup-probe_pending index k reliable u = rw (call-ok _ (reading needing_probe) index reliable) (
      lookup-probe_all (needing_probe index.db) (record index { calls = suc index.calls }) k
        reliable (listed-IsUnique index.db u)
      ∙ ap (λ c. row_probed index.db c (lookup row_key k index.db.videos)) (listed index.db k u)
      ∙ pass_cases index.db (lookup row_key k index.db.videos))
