-- ===== src/Media/Worker/Settles.antt =====
-- Every video that is due when the worker starts has been seen to when it stops.
use loku.Base.{
  ℕ, zero, suc, ◌<◌, Bool, true, false, not, ◌&&◌, ◌||◌, Option, some, none, ◌≡◌, refl, ap, sym,
  ◌∙◌, arith, if◌then◌else◌, inl, inr, List, length, is_some, is_none, map_option,
  map_option-eq-some, Bool-cases, ◌⊎◌,
}
use loku.Base.Member.{Has}
use loku.Library.{Library}
use loku.Index.Table.{Key, lookup, IsUnique}
use loku.Index.Record.{Row, row_key, record_from_row}
use loku.Index.Database.{FailureRow, failure_key}
use loku.Index.Reliable.{IsReliable}
use loku.Base.Text.{Text}
use loku.Media.Compat.{
  CompatPlan, CompatInputs, DerivationDecision, produce, not_needed, unplannable, decide,
}
use loku.Media.Worker.{Runner, World, process_next, process_all, work_of, inputs_of}
use loku.Media.Worker.Keeps.{bare, bare_at}
use loku.Media.Worker.Progress.{is_job, slot_job, current, error_of}
use loku.Media.Worker.Rounds.{IsRound, RoundOrIdle, process_next_lem}
use loku.Media.Worker.Ends.{process_all_ends}

kept_after_round :
    (libraries : List Library) (w : World) (k : Key) (result : Bool × World)
    (rest : World → Bool × World)
    → RoundOrIdle libraries w result
    → ((w' : World) → IsRound w w' → bare_at k (rest w').1.index.db ≡ bare_at k w'.index.db)
    → bare_at k (if result.0 then rest result.1 else (false, result.1)).1.index.db
      ≡ bare_at k w.index.db
kept_after_round libraries w k (worked, w') rest (inl (e, idle)) done =
    rw e (ap (bare_at k) idle.db)
kept_after_round libraries w k (worked, w') rest (inr (e, round)) done =
    rw e (done w' round ∙ round.kept k)

process_all-kept :
    (libraries : List Library) (runner : Runner) (k : Key) (n : ℕ) (w : World)
    → IsReliable w.index
    → IsUnique row_key w.index.db.videos
    → bare_at k (process_all n libraries runner w).1.index.db ≡ bare_at k w.index.db
unfolding process_all
process_all-kept libraries runner k zero w reliable u = refl
process_all-kept libraries runner k (suc n) w reliable u =
    kept_after_round libraries w k (process_next libraries runner w)
      (process_all n libraries runner) (process_next_lem libraries runner w reliable u)
      (λ w' round.
        process_all-kept libraries runner k n w' (λ i. ap (λ f. f i) round.fails ∙ reliable i)
          round.unique)

-- The work has a compat copy in it.
abbrev pub is_copy : Option (Option CompatPlan) → Bool
is_copy none = false
is_copy (some plan) = is_some plan

-- The work that a row asks for has a compat copy in it.
abbrev pub wants_copy : Row → Bool
wants_copy row = is_copy (work_of (record_from_row row none))

-- The row has a compat copy, or a failure of its content on record, or the thumbnail that was all
-- that it lacked.
abbrev pub is_seen_to : Bool → Row → Option FailureRow → Bool
is_seen_to copy row failure =
    is_some row.compat_rel_path
    || is_some (current row failure)
    || (not copy && is_some row.thumb_rel_path)

inputs_same :
    (old new : Row) (e e' : Option Text)
    → bare new ≡ bare old
    → old.compat_rel_path ≡ none
    → new.compat_rel_path ≡ none
    → inputs_of (record_from_row new e) ≡ inputs_of (record_from_row old e')
unfolding record_from_row
inputs_same old new e e' same no_old no_new = rw (no_old, no_new) (ap bare_inputs same)
  where
    bare_inputs : Row → CompatInputs
    bare_inputs row = record {
      container = row.container;
      vcodec = row.vcodec;
      vprofile = row.vprofile;
      acodec = row.acodec;
      field_order = row.field_order;
      has_compat = false;
    }

-- What the decision on a video asks for, by whether it has a thumbnail.
abbrev asks : DerivationDecision → Option Text → Option (Option CompatPlan)
asks (produce plan) thumb = some (some plan)
asks not_needed thumb = if is_none thumb then some none else none
asks unplannable thumb = none

work_of-asks :
    (row : Row) (e : Option Text)
    → work_of (record_from_row row e)
      ≡ asks (decide (inputs_of (record_from_row row e))) row.thumb_rel_path
unfolding work_of record_from_row
work_of-asks row e = go (decide (inputs_of (record_from_row row e)))
  where
    go :
        (d : DerivationDecision)
        → elim d [
          | produce plan ↦ some (some plan)
          | not_needed ↦ if is_none row.thumb_rel_path then some none else none
          | unplannable ↦ none
        ]
          ≡ asks d row.thumb_rel_path
    go (produce plan) = refl
    go not_needed = refl
    go unplannable = refl

-- The same decision asks for nothing more only where a thumbnail alone was missing and is there.
asked_no_more :
    (d : DerivationDecision) (before after : Option Text)
    → is_some (asks d before) ≡ true
    → is_some (asks d after) ≡ false
    → (is_copy (asks d before) ≡ false) × (is_some after ≡ true)
asked_no_more (produce plan) before after h h' = cc
asked_no_more not_needed before after h h' = ground arith
asked_no_more unplannable before after h h' = cc

due_parts :
    (row : Row) (failure : Option FailureRow)
    → slot_job (some row) failure ≡ true
    → (row.compat_rel_path ≡ none)
      × (is_none row.codec_source ≡ false)
      × (is_some (work_of (record_from_row row (error_of (current row failure)))) ≡ true)
unfolding slot_job
due_parts row failure h = ground arith

done_parts :
    (row : Row) (failure : Option FailureRow)
    → slot_job (some row) failure ≡ false
    → row.compat_rel_path ≡ none
    → is_none row.codec_source ≡ false
    → is_some (current row failure) ≡ false
    → is_some (work_of (record_from_row row (error_of (current row failure)))) ≡ false
unfolding slot_job
done_parts row failure h bare_row probed clean = ground arith

settled_row :
    (old new : Row) (before after : Option FailureRow)
    → bare new ≡ bare old
    → slot_job (some old) before ≡ true
    → slot_job (some new) after ≡ false
    → is_seen_to (wants_copy old) new after ≡ true
settled_row old new before after same due done =
    go new.compat_rel_path refl (Bool-cases (is_some (current new after)))
  where
    go :
        (compat : Option Text)
        → new.compat_rel_path ≡ compat
        → (is_some (current new after) ≡ true) ⊎ (is_some (current new after) ≡ false)
        → is_seen_to (wants_copy old) new after ≡ true
    go (some path) e failed = ground arith
    go none e (inl failed) = ground arith
    go none e (inr clean) =
        let (no_old, probed, work) = due_parts old before due in
        let codec_same = ap (λ (r : Row). is_none r.codec_source) same in
        let no_work = done_parts new after done e (codec_same ∙ probed) clean in
        let d = decide (inputs_of (record_from_row old none)) in
        let asked = work_of-asks old none in
        let asked_before =
          work_of-asks old (error_of (current old before))
          ∙ ap (λ i. asks (decide i) old.thumb_rel_path)
              (inputs_same old old (error_of (current old before)) none refl no_old no_old) in
        let asked_after =
          work_of-asks new (error_of (current new after))
          ∙ ap (λ i. asks (decide i) new.thumb_rel_path)
              (inputs_same old new (error_of (current new after)) none same no_old e) in
        let (no_copy, thumb) =
          asked_no_more d old.thumb_rel_path new.thumb_rel_path
            (ap is_some (sym asked_before) ∙ work) (ap is_some (sym asked_after) ∙ no_work) in
        let wants : wants_copy old ≡ false = ap is_copy asked ∙ no_copy in
        rw (wants, thumb, clean, e) refl

-- On a connection whose queries do not fail, with rows of different keys and more rounds than rows:
-- every video of the libraries that is due when the worker starts is still in the index when it
-- stops, and then has a compat copy, or a failure of its content on record, or, where it needed no
-- compat copy, a thumbnail.
pub process_all_settles :
    (libraries : List Library) (runner : Runner) (n : ℕ) (w : World) (l : Library) (k : Key)
    (row : Row)
    → IsReliable w.index
    → IsUnique row_key w.index.db.videos
    → length w.index.db.videos < n
    → Has l libraries
    → k.library ≡ l.name
    → lookup row_key k w.index.db.videos ≡ some row
    → is_job w.index.db k ≡ true
    → let db = (process_all n libraries runner w).1.index.db in
      (new : Row) × (lookup row_key k db.videos ≡ some new)
      × (is_seen_to (wants_copy row) new (lookup failure_key k db.derivation_failures) ≡ true)
process_all_settles libraries runner n w l k row reliable u fits here same found due =
    let db = (process_all n libraries runner w).1.index.db in
    let kept = process_all-kept libraries runner k n w reliable u in
    let (stopped, none_due) = process_all_ends libraries runner n w reliable u fits in
    let (new, there, bare_same) =
      map_option-eq-some (lookup row_key k db.videos) bare (bare row)
        (kept ∙ ap (map_option bare) found) in
    let before = lookup failure_key k w.index.db.derivation_failures in
    let after = lookup failure_key k db.derivation_failures in
    (
      new,
      there,
      settled_row row new before after bare_same (ap (λ o. slot_job o before) (sym found) ∙ due)
          (ap (λ o. slot_job o after) (sym there) ∙ none_due l k here same),
    )
