-- ===== src/Watch/Gather.antt =====
-- What the debounce gathers: every recorded directory, once, until the flush takes it.
use loku.Base.{
  ℕ, ◌+◌, Bool, false, ◌||◌, Option, none, some, List, [], ◌∷◌, ◌≡◌, refl, ap, ◌∙◌, arith, inl, inr,
  any, fold, Bool-cases, map_option,
}
use loku.Watch.{Dirty, dirty_eq, Debounce, debounce_new, debounce_record, debounce_take, set_insert}
use loku.Watch.Sorted.{dirty_eq_sound}

-- An event's directory and the time at which it is recorded.
abbrev pub record_all : Debounce → List (Dirty × ℕ) → Debounce
record_all d events = fold (λ d e. debounce_record d e.0 e.1) d events

-- The time of the last event.
abbrev pub last_time : List (Dirty × ℕ) → Option ℕ
last_time [] = none
last_time (e ∷ []) = some e.1
last_time (e ∷ f ∷ events) = last_time (f ∷ events)

has-set_insert :
    (k key : Dirty) (pending : List Dirty)
    → any (dirty_eq k) (set_insert key pending) ≡ (dirty_eq k key || any (dirty_eq k) pending)
unfolding set_insert
has-set_insert k key pending = elim (Bool-cases (any (dirty_eq key) pending)) [
  | inl e ↦ rw e (elim (Bool-cases (dirty_eq k key)) [
    | inl same ↦ rw same (ap (λ x. any (dirty_eq x) pending) (dirty_eq_sound k key same) ∙ e)
    | inr other ↦ rw other refl
  ])
  | inr e ↦ rw e refl
]

-- No two pending entries are the same.
abbrev pub IsOnce : List Dirty → Type 0
IsOnce [] = Unit
IsOnce (d ∷ ds) = (any (dirty_eq d) ds ≡ false) × IsOnce ds

set_insert-IsOnce :
    (key : Dirty) (pending : List Dirty) → IsOnce pending → IsOnce (set_insert key pending)
unfolding set_insert
set_insert-IsOnce key pending h = elim (Bool-cases (any (dirty_eq key) pending)) [
  | inl e ↦ rw e h
  | inr e ↦ rw e (e, h)
]

or_swap : (a b c : Bool) → (a || (b || c)) ≡ ((b || a) || c)
or_swap a b c = ground arith

or_false : (a : Bool) → (a || false) ≡ a
or_false a = ground arith

record_all-pending :
    (k : Dirty) (d : Debounce) (events : List (Dirty × ℕ))
    → any (dirty_eq k) (record_all d events).pending
      ≡ (any (λ e. dirty_eq k e.0) events || any (dirty_eq k) d.pending)
unfolding debounce_record
record_all-pending k d [] = refl
record_all-pending k d (e ∷ events) =
    record_all-pending k (debounce_record d e.0 e.1) events
    ∙ rw (has-set_insert k e.0 d.pending)
        (or_swap (any (λ f. dirty_eq k f.0) events) (dirty_eq k e.0) (any (dirty_eq k) d.pending))

record_all-IsOnce :
    (d : Debounce) (events : List (Dirty × ℕ))
    → IsOnce d.pending
    → IsOnce (record_all d events).pending
unfolding debounce_record
record_all-IsOnce d [] h = h
record_all-IsOnce d (e ∷ events) h =
    record_all-IsOnce (debounce_record d e.0 e.1) events (set_insert-IsOnce e.0 d.pending h)

record_all-quiet :
    (d : Debounce) (events : List (Dirty × ℕ)) → (record_all d events).quiet ≡ d.quiet
unfolding debounce_record
record_all-quiet d [] = refl
record_all-quiet d (e ∷ events) = record_all-quiet (debounce_record d e.0 e.1) events

record_all-deadline :
    (d : Debounce) (e : Dirty × ℕ) (events : List (Dirty × ℕ))
    → (record_all d (e ∷ events)).deadline
      ≡ map_option (λ now. now + d.quiet) (last_time (e ∷ events))
unfolding debounce_record
record_all-deadline d e [] = refl
record_all-deadline d e (f ∷ events) = record_all-deadline (debounce_record d e.0 e.1) f events

-- After any events on a fresh debounce, the flush is due a quiet period after the last of them;
-- it gets the directories of the events, each once, and leaves nothing pending and no deadline.
pub take-record_all :
    (quiet : ℕ) (e : Dirty × ℕ) (events : List (Dirty × ℕ))
    → let d = record_all (debounce_new quiet) (e ∷ events) in
      (d.deadline ≡ map_option (λ now. now + quiet) (last_time (e ∷ events)))
      × ((k : Dirty)
          → any (dirty_eq k) (debounce_take d).0 ≡ any (λ f. dirty_eq k f.0) (e ∷ events))
      × IsOnce (debounce_take d).0
      × ((debounce_take d).1 ≡ debounce_new quiet)
unfolding debounce_take debounce_new
take-record_all quiet e events =
    let d : Debounce = debounce_new quiet in
    (
      record_all-deadline d e events,
      λ k. record_all-pending k d (e ∷ events) ∙ or_false (any (λ f. dirty_eq k f.0) (e ∷ events)),
      record_all-IsOnce d (e ∷ events) tt,
      ap (λ q. record { quiet = q; pending = []; deadline = none })
          (record_all-quiet d (e ∷ events)),
    )
