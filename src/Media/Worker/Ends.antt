-- ===== src/Media/Worker/Ends.antt =====
-- The worker's loop comes to an end, with no video of its libraries left to do.
use mathlib.Core.Path.{subst}
use loku.Base.{
  ℕ, zero, suc, ◌<◌, Bool, true, false, List, [], ◌∷◌, Option, some, none, ◌≡◌, refl, ap, sym, ◌∙◌,
  arith, if◌then◌else◌, inl, inr, keep, map, length, length-keep-le,
}
use loku.Base.Member.{Has, Has-map, length-keep-lt}
use loku.Library.{Library}
use loku.Index.Table.{Key, key_eq_iff, lookup, key-lookup, IsUnique}
use loku.Index.Record.{Row, row_key}
use loku.Index.Database.{Database, failure_key}
use loku.Index.Reliable.{IsReliable}
use loku.Media.Worker.{Runner, World, process_next, process_all}
use loku.Media.Worker.Progress.{is_job, slot_job}
use loku.Media.Worker.Due.{NoneDue, lookup-Has}
use loku.Media.Worker.Rounds.{IsRound, RoundOrIdle, process_next_lem}

length-map : (t : List Row) → length (map row_key t) ≡ length t
length-map [] = refl
length-map (r ∷ t) = ap suc (length-map t)

-- The list has the keys of all videos that are due.
abbrev Covers : List Key → Database → Type 0
Covers keys db = (k : Key) → is_job db k ≡ true → Has k keys

due_row :
    (db : Database) (k : Key) (o : Option Row)
    → lookup row_key k db.videos ≡ o
    → slot_job o (lookup failure_key k db.derivation_failures) ≡ true
    → Has k (map row_key db.videos)
unfolding slot_job
due_row db k none e h = cc
due_row db k (some row) e h =
    subst (λ j. Has j (map row_key db.videos)) (key-lookup row_key k db.videos row e)
      (Has-map row_key row db.videos (lookup-Has row_key k db.videos row e))

Covers-rows : (db : Database) → Covers (map row_key db.videos) db
Covers-rows db k = due_row db k (lookup row_key k db.videos) refl

-- How many of the keys are due.
abbrev count_due : List Key → Database → ℕ
count_due keys db = length (keep (is_job db) keys)

module _ (w w' : World) (round : IsRound w w') where
  still_due : (k : Key) → is_job w'.index.db k ≡ true → is_job w.index.db k ≡ true
  still_due k due = ground (arith, round.settled, round.others k, key_eq_iff round.taken k)

  Covers-round : (keys : List Key) → Covers keys w.index.db → Covers keys w'.index.db
  Covers-round keys covers k due = covers k (still_due k due)

  count_due-lt :
      (keys : List Key)
      → Covers keys w.index.db
      → count_due keys w'.index.db < count_due keys w.index.db
  count_due-lt keys covers =
      length-keep-lt (is_job w.index.db) (is_job w'.index.db) still_due round.taken keys round.due
        round.settled (covers round.taken round.due)

-- The loop is over, and has left nothing to do.
abbrev pub IsDone : List Library → Bool × World → Type 0
IsDone libraries (more, w) = (more ≡ false) × NoneDue libraries w.index.db

-- The loop behind its first round.
after_round :
    (libraries : List Library) (w : World) (result : Bool × World) (rest : World → Bool × World)
    → RoundOrIdle libraries w result
    → ((w' : World) → IsRound w w' → IsDone libraries (rest w'))
    → IsDone libraries (if result.0 then rest result.1 else (false, result.1))
after_round libraries w (worked, w') rest (inl (e, idle)) done =
    rw e (refl, subst (NoneDue libraries) (sym idle.db) idle.nothing)
after_round libraries w (worked, w') rest (inr (e, round)) done = rw e (done w' round)

all_rounds :
    (libraries : List Library) (runner : Runner) (keys : List Key) (n : ℕ) (w : World)
    → IsReliable w.index
    → IsUnique row_key w.index.db.videos
    → Covers keys w.index.db
    → count_due keys w.index.db < n
    → IsDone libraries (process_all n libraries runner w)
unfolding process_all
all_rounds libraries runner keys zero w reliable u covers fits = absurd (omega (arith, fits))
all_rounds libraries runner keys (suc n) w reliable u covers fits =
    after_round libraries w (process_next libraries runner w) (process_all n libraries runner)
      (process_next_lem libraries runner w reliable u)
      (λ w' round.
        all_rounds libraries runner keys n w' (λ i. ap (λ f. f i) round.fails ∙ reliable i)
          round.unique (Covers-round w w' round keys covers)
          (omega (arith, fits, count_due-lt w w' round keys covers)))

-- The worker stops by itself: on a connection whose queries do not fail it makes at most as many
-- rounds as there are videos, and one more that finds nothing to do; when it stops, no video of
-- the libraries is due.
pub process_all_ends :
    (libraries : List Library) (runner : Runner) (n : ℕ) (w : World)
    → IsReliable w.index
    → IsUnique row_key w.index.db.videos
    → length w.index.db.videos < n
    → IsDone libraries (process_all n libraries runner w)
process_all_ends libraries runner n w reliable u fits =
    all_rounds libraries runner (map row_key w.index.db.videos) n w reliable u
      (Covers-rows w.index.db)
      (omega (
        arith,
        fits,
        length-map w.index.db.videos,
        length-keep-le (is_job w.index.db) (map row_key w.index.db.videos),
      ))
