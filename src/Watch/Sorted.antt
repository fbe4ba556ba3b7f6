-- ===== src/Watch/Sorted.antt =====
-- The sort of the dirty directories, and that equal entries are the same.
use loku.Base.{true, List, [], ◌∷◌, ◌≡◌, refl, arith, inl, inr, All, Bool-cases, ==_iff}
use loku.Base.Text.{text_eq_iff}
use loku.Base.Order.{insert, sort}
use loku.Base.Every.{All-imp, All-insert}
use loku.Base.Paths.{FilePath, path_eq}
use loku.Watch.{Dirty, dirty_eq, dirty_le}
use loku.Watch.Order.{dirty_le_total, dirty_le_trans}

-- Every entry is at most each one behind it.
abbrev pub IsSorted : List Dirty → Type 0
IsSorted [] = Unit
IsSorted (d ∷ ds) = All (λ e. dirty_le d e ≡ true) ds × IsSorted ds

insert-IsSorted : (a : Dirty) (ds : List Dirty) → IsSorted ds → IsSorted (insert dirty_le a ds)
unfolding insert
insert-IsSorted a [] h = (tt, tt)
insert-IsSorted a (d ∷ ds) (front, h) = elim (Bool-cases (dirty_le a d)) [
  | inl e ↦ rw e ((e, All-imp _ _ (λ x le. dirty_le_trans a d x e le) ds front), (front, h))
  | inr e ↦ rw e (
    All-insert (λ x. dirty_le d x ≡ true) dirty_le a ds (dirty_le_total a d e) front,
    insert-IsSorted a ds h,
  )
]

pub sort-IsSorted : (ds : List Dirty) → IsSorted (sort dirty_le ds)
unfolding sort
sort-IsSorted [] = tt
sort-IsSorted (d ∷ ds) = insert-IsSorted d (sort dirty_le ds) (sort-IsSorted ds)

path_eq_sound : (p q : FilePath) → path_eq p q ≡ true → p ≡ q
unfolding path_eq
path_eq_sound [] [] h = refl
path_eq_sound [] (d ∷ q) h = cc
path_eq_sound (c ∷ p) [] h = cc
path_eq_sound (c ∷ p) (d ∷ q) h = ground (arith, path_eq_sound p q, text_eq_iff c d)

pub dirty_eq_sound : (a b : Dirty) → dirty_eq a b ≡ true → a ≡ b
unfolding dirty_eq
dirty_eq_sound a b h =
    ground (arith, path_eq_sound a.dir b.dir, ==_iff a.library_index b.library_index)
