-- ===== src/Watch/Events.antt =====
-- Which directories an event makes dirty.
use mathlib.Core.Path.{subst}
use loku.Base.{
  ℕ, suc, ◌+◌, Bool, true, false, not, Bool-cases, Option, none, some, List, [], ◌∷◌, ◌++◌, ◌≡◌,
  refl, sym, ap, ◌∙◌, arith, ◌⊎◌, ◌↔◌, inl, inr, filter_map, map_option, length, All, keep,
  if◌then◌else◌,
}
use loku.Base.Member.{Has, Has-append_left, Has-append_right, Has-keep, Has-of_append, Has-of_keep}
use loku.Base.Paths.{FilePath, parent, path_starts_with}
use loku.Watch.{Dirty, Event, is_part, with_parent, all_with_parents, root_of, dirty_directories}

-- A search that keeps what a function finds has what it finds for each item.
Has-filter_map :
    (f : FilePath → Option Dirty) (dir : FilePath) (d : Dirty) (dirs : List FilePath)
    → Has dir dirs
    → f dir ≡ some d
    → Has d (filter_map f dirs)
Has-filter_map f dir d [] h e = elim h [ ]
Has-filter_map f dir d (x ∷ dirs) (inl same) e =
    subst (λ o. Has d (elim o [ none ↦ filter_map f dirs | some y ↦ y ∷ filter_map f dirs ]))
      (sym (ap f same ∙ e)) (inl refl)
Has-filter_map f dir d (x ∷ dirs) (inr there) e = behind (f x) (Has-filter_map f dir d dirs there e)
  where
    behind :
        (o : Option Dirty)
        → Has d (filter_map f dirs)
        → Has d (elim o [ none ↦ filter_map f dirs | some y ↦ y ∷ filter_map f dirs ])
    behind none h = h
    behind (some y) h = inr h

-- The directory is the path or its parent.
abbrev pub IsAt : FilePath → FilePath → Type 0
IsAt path dir = (path ≡ dir) ⊎ (parent path ≡ some dir)

Has-with_parent :
    (path dir : FilePath) (above : Option FilePath)
    → (path ≡ dir) ⊎ (above ≡ some dir)
    → Has dir (elim above [ none ↦ path ∷ [] | some up ↦ path ∷ up ∷ [] ])
Has-with_parent path dir none (inl same) = inl same
Has-with_parent path dir none (inr up) = cc
Has-with_parent path dir (some p) (inl same) = inl same
Has-with_parent path dir (some p) (inr up) = ground arith

Has-all_with_parents :
    (path dir : FilePath) (paths : List FilePath)
    → Has path paths
    → IsAt path dir
    → Has dir (all_with_parents paths)
unfolding all_with_parents
Has-all_with_parents path dir [] h at = elim h [ ]
Has-all_with_parents path dir (p ∷ paths) (inl same) at =
    Has-append_left dir (with_parent p) _
      (Has-with_parent p dir (parent p) (subst (λ q. IsAt q dir) (sym same) at))
Has-all_with_parents path dir (p ∷ paths) (inr there) at =
    Has-append_right dir (with_parent p) _ (Has-all_with_parents path dir paths there at)

-- A library's root that a directory is under, where no earlier library's root has it under it.
pub record IsFirstRoot (dir : FilePath) (roots : List FilePath) (library_index : ℕ) : Type 0 where
  pub before : List FilePath
  pub root : FilePath
  pub after : List FilePath
  pub roots_are : roots ≡ before ++ root ∷ after
  pub at : length before ≡ library_index
  pub under : path_starts_with dir root ≡ true
  pub not_earlier : All (λ r. path_starts_with dir r ≡ false) before

-- The roots before the first hit, counted from a number.
root_of_first :
    (dir : FilePath) (before : List FilePath) (root : FilePath) (after : List FilePath) (i : ℕ)
    → path_starts_with dir root ≡ true
    → All (λ r. path_starts_with dir r ≡ false) before
    → root_of dir (before ++ root ∷ after) i ≡ some (i + length before)
unfolding root_of
root_of_first dir [] root after i under h = ground arith
root_of_first dir (r ∷ before) root after i under (miss, h) =
    rw miss (root_of_first dir before root after (suc i) under h ∙ ap (λ n. some n) (omega arith))

root_of-Found :
    (dir : FilePath) (roots : List FilePath) (i n : ℕ)
    → root_of dir roots i ≡ some n
    → (before : List FilePath) × (root : FilePath) × (after : List FilePath) × (roots
        ≡ before ++ root ∷ after)
      × (i + length before ≡ n)
      × (path_starts_with dir root ≡ true)
      × All (λ r. path_starts_with dir r ≡ false) before
root_of-Found dir [] i n h = unfold root_of in cc
root_of-Found dir (r ∷ roots) i n h = elim (Bool-cases (path_starts_with dir r)) [
  | inl under ↦
      let here : i ≡ n = unfold root_of in ground arith in
      ([], r, roots, refl, omega (arith, here), under, tt)
  | inr miss ↦
      let there : root_of dir roots (suc i) ≡ some n = unfold root_of in ground arith in
      let (before, root, after, e, at, under, h') = root_of-Found dir roots (suc i) n there in
      (r ∷ before, root, after, ap (◌∷◌ r) e, omega (arith, at), under, (miss, h'))
]

root_of_iff :
    (dir : FilePath) (roots : List FilePath) (n : ℕ)
    → (root_of dir roots 0 ≡ some n) ↔ IsFirstRoot dir roots n
root_of_iff dir roots n = (
  λ h.
      let (before, root, after, e, at, under, h') = root_of-Found dir roots 0 n h in
      record {
        before = before;
        root = root;
        after = after;
        roots_are = e;
        at = omega (arith, at);
        under = under;
        not_earlier = h';
      },
  λ (h : IsFirstRoot dir roots n).
      ap (λ rs. root_of dir rs 0) h.roots_are
      ∙ root_of_first dir h.before h.root h.after 0 h.under h.not_earlier
      ∙ ap (λ n. some n) (omega (arith, h.at)),
)

IsAt-of_with_parent :
    (path dir : FilePath) (above : Option FilePath)
    → Has dir (elim above [ none ↦ path ∷ [] | some up ↦ path ∷ up ∷ [] ])
    → (path ≡ dir) ⊎ (above ≡ some dir)
IsAt-of_with_parent path dir none h = ground arith
IsAt-of_with_parent path dir (some up) h = ground arith

IsAt-of_all :
    (dir : FilePath) (paths : List FilePath)
    → Has dir (all_with_parents paths)
    → (path : FilePath) × Has path paths × IsAt path dir
IsAt-of_all dir [] h = unfold all_with_parents in elim h [ ]
IsAt-of_all dir (p ∷ paths) h =
    elim (Has-of_append dir (with_parent p) (all_with_parents paths)
      (unfold all_with_parents in h)) [
        | inl here ↦ (p, inl refl, IsAt-of_with_parent p dir (parent p) here)
        | inr there ↦ let (path, at, e) = IsAt-of_all dir paths there in (path, inr at, e)
      ]

-- What makes a directory dirty: a change that names it, or a file or directory in it, other than a
-- .part file, in the first library whose root it is under.
pub record IsTouched (event : Event) (roots : List FilePath) (d : Dirty) : Type 0 where
  pub changed : event.is_access ≡ false
  pub path : FilePath
  pub named : Has path event.paths
  pub whole : is_part path ≡ false
  pub at : IsAt path d.dir
  pub root : IsFirstRoot d.dir roots d.library_index

abbrev dirty_in : List FilePath → FilePath → Option Dirty
dirty_in roots dir = map_option (λ i. record { library_index = i; dir = dir }) (root_of dir roots 0)

dirty_in_lem :
    (roots : List FilePath) (dir : FilePath) (d : Dirty)
    → dirty_in roots dir ≡ some d
    → (dir ≡ d.dir) × (root_of d.dir roots 0 ≡ some d.library_index)
dirty_in_lem roots dir d h = go (root_of dir roots 0) refl h
  where
    go :
        (o : Option ℕ)
        → root_of dir roots 0 ≡ o
        → map_option (λ i. record { library_index = i; dir = dir }) o ≡ some d
        → (dir ≡ d.dir) × (root_of d.dir roots 0 ≡ some d.library_index)
    go none e h' = cc
    go (some i) e h' =
        let same = ap (λ (o : Option Dirty). elim o [ none ↦ d | some x ↦ x ]) h' in
        let dir_is = ap (λ (x : Dirty). x.dir) same in
        (
          dir_is,
          ap (λ x. root_of x roots 0) (sym dir_is)
              ∙ e
              ∙ ap (λ (x : Dirty). some x.library_index) same,
        )

Has-of_filter_map :
    (f : FilePath → Option Dirty) (d : Dirty) (dirs : List FilePath)
    → Has d (filter_map f dirs)
    → (dir : FilePath) × Has dir dirs × (f dir ≡ some d)
Has-of_filter_map f d [] h = elim h [ ]
Has-of_filter_map f d (x ∷ dirs) h = go (f x) refl h (Has-of_filter_map f d dirs)
  where
    go :
        (o : Option Dirty)
        → f x ≡ o
        → Has d (elim o [ none ↦ filter_map f dirs | some y ↦ y ∷ filter_map f dirs ])
        → (Has d (filter_map f dirs) → (dir : FilePath) × Has dir dirs × (f dir ≡ some d))
        → (dir : FilePath) × Has dir (x ∷ dirs) × (f dir ≡ some d)
    go none e h' ih = let (dir, at, found) = ih h' in (dir, inr at, found)
    go (some y) e (inl same) ih = (x, inl refl, e ∙ ap (λ z. some z) same)
    go (some y) e (inr h') ih = let (dir, at, found) = ih h' in (dir, inr at, found)

-- The directories of a change.
abbrev dirs_of : Event → List FilePath
dirs_of event = all_with_parents (keep (λ path. not (is_part path)) event.paths)

IsTouched-of_change :
    (event : Event) (roots : List FilePath) (d : Dirty)
    → event.is_access ≡ false
    → Has d (filter_map (dirty_in roots) (dirs_of event))
    → IsTouched event roots d
IsTouched-of_change event roots d changed h =
    let (dir, at, found) = Has-of_filter_map (dirty_in roots) d (dirs_of event) h in
    let (same, root) = dirty_in_lem roots dir d found in
    let (path, kept, near) = IsAt-of_all dir _ at in
    let (named, whole) = Has-of_keep (λ p. not (is_part p)) path event.paths kept in
    record {
      changed = changed;
      path = path;
      named = named;
      whole = ground arith;
      at = subst (IsAt path) same near;
      root = (root_of_iff d.dir roots d.library_index).0 root;
    }

-- An event makes a directory of a library dirty exactly if it is no mere access, it has a path that
-- is no .part file, the directory is that path or its parent, and the library is the first one
-- whose root the directory is under.
pub dirty_directories_iff :
    (event : Event) (roots : List FilePath) (d : Dirty)
    → Has d (dirty_directories event roots) ↔ IsTouched event roots d
unfolding dirty_directories
dirty_directories_iff event roots d = (
  λ h. change event.is_access refl h,
  λ (t : IsTouched event roots d). rw t.changed (
      Has-filter_map (dirty_in roots) d.dir d (dirs_of event)
        (Has-all_with_parents t.path d.dir _
          (Has-keep (λ p. not (is_part p)) t.path event.paths (rw t.whole refl) t.named) t.at)
        (rw ((root_of_iff d.dir roots d.library_index).1 t.root) refl)),
)
  where
    change :
        (b : Bool)
        → event.is_access ≡ b
        → Has d (if b then [] else filter_map (dirty_in roots) (dirs_of event))
        → IsTouched event roots d
    change true e h = elim h [ ]
    change false e h = IsTouched-of_change event roots d e h
