-- ===== src/Media/Worker/Rounds.antt =====
-- The rounds of the worker: each settles one video, or finds that none is due.
use mathlib.Core.Path.{subst}
use loku.Base.{
  map_option-eq-some, ℕ, suc, Bool, true, false, Option, none, some, List, [], ◌∷◌, ◌≡◌, refl, ap,
  sym, ◌∙◌, arith, is_some, inl, inr, ◌⊎◌, All,
}
use loku.Base.Text.{text_eq}
use loku.Base.Every.{All-imp, All-keep, All-sort, All-map, find_map-from}
use loku.Library.{Library}
use loku.Index.Table.{Key, key_eq, key_eq_iff, key_eq_refl, lookup, IsUnique}
use loku.Index.Record.{Row, VideoRecord, row_key, record_key, record_from_row}
use loku.Index.Database.{Database, failure_key}
use loku.Index.Reads.{joined, is_candidate, candidates, failure_of, row_le, reading}
use loku.Index.Reliable.{IsReliable, call-ok}
use loku.Media.Worker.{
  Runner, World, Job, work_of, job_in, select_job, ordered_libraries, take_job, with_candidates,
  process_next, run_job, set_status, ActiveDerivation,
}
use loku.Media.Worker.Progress
use loku.Media.Worker.Progress.{is_job, slot_job, other_turn, error_of, current}
use loku.Media.Worker.Outcomes.{Effect-IsUnique}
use loku.Media.Worker.Keeps.{bare_at, bare-Effect}
use loku.Media.Worker.Due.{NoneDue, none_due}
use loku.Media.Worker.Effects.{run_job-Effect}

-- A candidate is the record of a row of the table that has no failure for its content.
pub record IsListed (db : Database) (r : VideoRecord) : Type 0 where
  pub row : Row
  pub there : lookup row_key (record_key r) db.videos ≡ some row
  pub candidate : is_candidate db row ≡ true
  pub same : joined db row ≡ r

-- Every row of a table without double keys is what a lookup of its key finds.
self_lookup :
    (t : List Row) → IsUnique row_key t → All (λ row. lookup row_key (row_key row) t ≡ some row) t
unfolding lookup
self_lookup [] u = tt
self_lookup (r ∷ t) u = (
  rw (key_eq_refl (row_key r)),
  All-imp (λ row. lookup row_key (row_key row) t ≡ some row) _
      (λ row e. ground (arith, u.0, key_eq_iff (row_key r) (row_key row))) t (self_lookup t u.1),
)

joined-key : (db : Database) (row : Row) → record_key (joined db row) ≡ row_key row
unfolding record_from_row
joined-key db row = refl

IsListed-of_row :
    (db : Database) (row : Row)
    → (lookup row_key (row_key row) db.videos ≡ some row) × (is_candidate db row ≡ true)
    → IsListed db (joined db row)
IsListed-of_row db row h = record {
  row = row;
  there = ap (λ k. lookup row_key k db.videos) (joined-key db row) ∙ h.0;
  candidate = h.1;
  same = refl;
}

candidates-IsListed :
    (db : Database) → IsUnique row_key db.videos → All (IsListed db) (candidates db)
unfolding candidates
candidates-IsListed db u = All-map (IsListed db) (joined db) _ (
    All-imp _ _ (IsListed-of_row db) _
      (All-sort _ row_le _ (All-keep _ (is_candidate db) db.videos (self_lookup db.videos u))))

All-unit : (ls : List Library) → All (λ _. Unit {0}) ls
All-unit [] = tt
All-unit (l ∷ ls) = (tt, All-unit ls)

-- A job that is selected is for a candidate, with the work that the candidate needs.
abbrev IsSelected : Database → Job → Type 0
IsSelected db job = IsListed db job.record' × (work_of job.record' ≡ some job.plan)

job_in-IsSelected :
    (db : Database) (cs : List VideoRecord) (l : Library) (job : Job)
    → All (IsListed db) cs
    → job_in cs l ≡ some job
    → IsSelected db job
unfolding job_in
job_in-IsSelected db cs l job h e =
    let (r, (listed, _), found) =
      find_map-from _ _ _ job (All-keep (IsListed db) (λ r. text_eq r.library l.name) cs h) e in
    let (plan, work, made) = map_option-eq-some (work_of r) _ job found in
    subst (IsSelected db) made (listed, work)

select_job-IsSelected :
    (db : Database) (libraries : List Library) (cs : List VideoRecord) (job : Job)
    → All (IsListed db) cs
    → select_job libraries cs ≡ some job
    → IsSelected db job
unfolding select_job
select_job-IsSelected db libraries cs job h e =
    let (l, _, found) =
      find_map-from (λ _. Unit {0}) (job_in cs) (ordered_libraries libraries) job
        (All-unit (ordered_libraries libraries)) e in
    job_in-IsSelected db cs l job h found

-- The failure that the query joins to a row is the one that a job's turn depends on.
failure_of-current :
    (db : Database) (row : Row)
    → failure_of db row ≡ current row (lookup failure_key (row_key row) db.derivation_failures)
unfolding failure_of
failure_of-current db row = refl

candidate_slot :
    (db : Database) (row : Row)
    → is_candidate db row ≡ true
    → is_some (work_of (joined db row)) ≡ true
    → slot_job (some row) (lookup failure_key (row_key row) db.derivation_failures) ≡ true
unfolding is_candidate slot_job failure_of
candidate_slot db row candidate work = ground arith

selected-is_job :
    (db : Database) (job : Job) → IsSelected db job → is_job db (record_key job.record') ≡ true
selected-is_job db job (listed, work) =
    let r = job.record' in
    let failures = db.derivation_failures in
    let same_key = sym (ap record_key listed.same) ∙ joined-key db listed.row in
    let has_work = ap is_some (ap work_of listed.same ∙ work) in
    ap (λ o. slot_job o (lookup failure_key (record_key r) failures)) listed.there
    ∙ ap (λ k. slot_job (some listed.row) (lookup failure_key k failures)) same_key
    ∙ candidate_slot db listed.row listed.candidate has_work

-- What a round that took a job did: one video that was due is due no more, for all others nothing
-- changed, the status is clear, and the connection goes on as before.
pub record IsRound (w w' : World) : Type 0 where
  pub taken : Key
  pub due : is_job w.index.db taken ≡ true
  pub settled : is_job w'.index.db taken ≡ false
  pub others : (k : Key) → key_eq taken k ≡ false → is_job w'.index.db k ≡ is_job w.index.db k
  pub kept : (k : Key) → bare_at k w'.index.db ≡ bare_at k w.index.db
  pub clear : w'.status ≡ none
  pub fails : w'.index.fails ≡ w.index.fails
  pub unique : IsUnique row_key w'.index.db.videos

IsRound-of_job :
    (runner : Runner) (job : Job) (w : World)
    → IsReliable w.index
    → IsUnique row_key w.index.db.videos
    → IsSelected w.index.db job
    → IsRound w (set_status none (run_job runner job w))
IsRound-of_job runner job w reliable u (listed, work) =
    let (effect, fails) = run_job-Effect runner job w reliable in
    record {
      taken = record_key job.record';
      due = selected-is_job w.index.db job (listed, work);
      settled =
          Progress.settled runner job.record' job.plan w.index.db _ listed.row _ effect listed.there
            listed.same work;
      others = λ k apart. other_turn runner job.record' job.plan w.index.db _ k effect apart;
      kept = λ k. bare-Effect runner job.record' k job.plan w.index.db _ effect;
      clear = refl;
      fails = fails;
      unique = Effect-IsUnique runner job.record' job.plan w.index.db _ effect u;
    }

-- A round only depends on the tables and the failures of the world that it starts from.
same-IsRound :
    (v w w' : World)
    → w.index.db ≡ v.index.db
    → w.index.fails ≡ v.index.fails
    → IsRound v w'
    → IsRound w w'
same-IsRound v w w' db fails r = record {
  taken = r.taken;
  due = ap (λ d. is_job d r.taken) db ∙ r.due;
  settled = r.settled;
  others = λ k apart. r.others k apart ∙ ap (λ d. is_job d k) (sym db);
  kept = λ k. r.kept k ∙ ap (bare_at k) (sym db);
  clear = r.clear;
  fails = r.fails ∙ sym fails;
  unique = r.unique;
}

-- A worker that made no attempt had nothing to do, and changed no table and no status.
pub record IsIdle (libraries : List Library) (w w' : World) : Type 0 where
  pub nothing : NoneDue libraries w.index.db
  pub db : w'.index.db ≡ w.index.db
  pub fails : w'.index.fails ≡ w.index.fails
  pub status : w'.status ≡ w.status

-- Either of the two.
abbrev pub RoundOrIdle : List Library → World → Bool × World → Type 0
RoundOrIdle libraries w (worked, w') =
    ((worked ≡ false) × IsIdle libraries w w') ⊎ ((worked ≡ true) × IsRound w w')

take_job_lem :
    (libraries : List Library) (runner : Runner) (job : Option Job) (w : World)
    → IsReliable w.index
    → IsUnique row_key w.index.db.videos
    → (job ≡ none → NoneDue libraries w.index.db)
    → ((j : Job) → job ≡ some j → IsSelected w.index.db j)
    → RoundOrIdle libraries w (take_job runner job w)
unfolding take_job
take_job_lem libraries runner none w reliable u nothing selected =
    inl (refl, record { nothing = nothing refl; db = refl; fails = refl; status = refl })
take_job_lem libraries runner (some job) w reliable u nothing selected =
    let active : ActiveDerivation = record {
      library = job.record'.library;
      rel_path = job.record'.rel_path;
    } in
    let r = IsRound-of_job runner job (set_status (some active) w) reliable u (selected job refl) in
    inr (refl, same-IsRound _ w _ refl refl r)

-- The round of a world whose connection has run one more reading query.
round_after_query :
    (libraries : List Library) (w : World) (calls : ℕ) (result : Bool × World)
    → RoundOrIdle libraries (record w { index = record w.index { calls = calls } }) result
    → RoundOrIdle libraries w result
round_after_query libraries w calls (worked, w') (inl (e, idle)) =
    inl
      (e, record { nothing = idle.nothing; db = idle.db; fails = idle.fails; status = idle.status })
round_after_query libraries w calls (worked, w') (inr (e, r)) =
    inr (e, same-IsRound _ w w' refl refl r)

-- A round of the worker on a connection whose queries do not fail either finds that no video of
-- the libraries is due, makes no attempt and changes nothing, or takes a video that is due and
-- settles it, so that it is due no more, while no other video's turn changes, no two rows get one
-- key and the published status is clear again.
pub process_next_lem :
    (libraries : List Library) (runner : Runner) (w : World)
    → IsReliable w.index
    → IsUnique row_key w.index.db.videos
    → RoundOrIdle libraries w (process_next libraries runner w)
unfolding process_next with_candidates
process_next_lem libraries runner w reliable u =
    let db = w.index.db in
    rw (call-ok _ (reading candidates) w.index reliable) (
      round_after_query libraries w (suc w.index.calls) _ (
        take_job_lem libraries runner (select_job libraries (candidates db)) _ reliable u
          (none_due db libraries)
          (λ job e.
            select_job-IsSelected db libraries (candidates db) job (candidates-IsListed db u) e)))
