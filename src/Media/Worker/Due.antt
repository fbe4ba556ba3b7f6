-- ===== src/Media/Worker/Due.antt =====
-- A worker that finds no job has none left: every video of its libraries that is due is selected.
use loku.Base.{
  true, false, Option, none, some, List, [], ◌∷◌, ◌≡◌, refl, ap, sym, ◌∙◌, arith, is_some, keep,
  map_option, inl, inr, Bool-cases,
}
use loku.Base.Text.{text_eq, text_eq_iff}
use loku.Base.Member.{
  Has, Has-append_left, Has-append_right, Has-keep, Has-sort, Has-map, find_map-none,
}
use loku.Library.{Library}
use loku.Index.Table.{Key, lookup, key-lookup}
use loku.Index.Record.{Row, VideoRecord, row_key, record_from_row}
use loku.Index.Database.{Database, failure_key}
use loku.Index.Reads.{joined, is_candidate, candidates, failure_of, row_le}
use loku.Media.Worker.{work_of, job_in, select_job, ordered_libraries, is_discs}
use loku.Media.Worker.Progress.{is_job, slot_job}

module _ {R : Type 0} (key : R → Key) where
  pub lookup-Has : (k : Key) (t : List R) (r : R) → lookup key k t ≡ some r → Has r t
  unfolding lookup
  lookup-Has k [] r h = cc
  lookup-Has k (s ∷ t) r h = ground (arith, lookup-Has k t r)

map_option-none {ℓ κ} :
    {A : Type ℓ} {B : Type κ} (f : A → B) (o : Option A) → map_option f o ≡ none → o ≡ none
map_option-none f none h = refl
map_option-none f (some a) h = cc

-- A row that is due is a candidate with work to do.
slot_candidate :
    (db : Database) (row : Row)
    → slot_job (some row) (lookup failure_key (row_key row) db.derivation_failures) ≡ true
    → (is_candidate db row ≡ true) × (is_some (work_of (joined db row)) ≡ true)
unfolding is_candidate slot_job failure_of
slot_candidate db row h = ground arith

ordered-Has : (l : Library) (ls : List Library) → Has l ls → Has l (ordered_libraries ls)
unfolding ordered_libraries
ordered-Has l ls h = elim (Bool-cases (is_discs l)) [
  | inl e ↦ Has-append_left l _ _ (Has-keep is_discs l ls e h)
  | inr e ↦ Has-append_right l (keep is_discs ls) _ (Has-keep _ l ls (rw e) h)
]

-- The candidate of a library in which no job is found has no work.
no_work :
    (cs : List VideoRecord) (l : Library) (r : VideoRecord)
    → job_in cs l ≡ none
    → Has r cs
    → r.library ≡ l.name
    → work_of r ≡ none
unfolding job_in
no_work cs l r e h same = map_option-none _ (work_of r) (
    find_map-none _ r _ e
      (Has-keep (λ s. text_eq s.library l.name) r cs ((text_eq_iff r.library l.name).1 same) h))

-- A row that is due, in a table where no job is found for its library.
no_due_row :
    (db : Database) (l : Library) (row : Row)
    → job_in (candidates db) l ≡ none
    → Has row db.videos
    → row.library ≡ l.name
    → slot_job (some row) (lookup failure_key (row_key row) db.derivation_failures) ≡ false
unfolding candidates record_from_row
no_due_row db l row e h same = elim (Bool-cases _) [
  | inl due ↦
      let (candidate, work) = slot_candidate db row due in
      let listed =
        Has-map (joined db) row _
          (Has-sort row_le row _ (Has-keep (is_candidate db) row db.videos candidate h)) in
      cc (ap is_some (no_work (candidates db) l (joined db row) e listed same), work)
  | inr free ↦ free
]

-- The row of a video, or none, in such a table.
slot_free :
    (db : Database) (l : Library) (k : Key) (o : Option Row)
    → lookup row_key k db.videos ≡ o
    → job_in (candidates db) l ≡ none
    → k.library ≡ l.name
    → slot_job o (lookup failure_key k db.derivation_failures) ≡ false
slot_free db l k none found e same = unfold slot_job in refl
slot_free db l k (some row) found e same =
    let is_k = key-lookup row_key k db.videos row found in
    ap (λ j. slot_job (some row) (lookup failure_key j db.derivation_failures)) (sym is_k)
    ∙ no_due_row db l row e (lookup-Has row_key k db.videos row found)
        (ap (λ (j : Key). j.library) is_k ∙ same)

-- No video of the libraries is due.
abbrev pub NoneDue : List Library → Database → Type 0
NoneDue libraries db =
    (l : Library) (k : Key) → Has l libraries → k.library ≡ l.name → is_job db k ≡ false

-- When no job is selected, no video of the configured libraries is due.
pub none_due :
    (db : Database) (libraries : List Library)
    → select_job libraries (candidates db) ≡ none
    → NoneDue libraries db
unfolding select_job
none_due db libraries e l k h same =
    slot_free db l k (lookup row_key k db.videos) refl
      (find_map-none (job_in (candidates db)) l _ e (ordered-Has l libraries h)) same
