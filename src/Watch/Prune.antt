-- ===== src/Watch/Prune.antt =====
-- What `prune_nested` keeps: enough to cover every dirty directory, and no directory that another
-- one covers.
use mathlib.Core.Path.{subst}
use loku.Base.{
  true, false, Option, none, some, List, [], ◌∷◌, ◌≡◌, refl, ◌∙◌, ◌⊎◌, inl, inr, is_some_and, All,
  Bool-cases,
}
use loku.Base.Order.{sort}
use loku.Base.Every.{All-imp, All-sort}
use loku.Base.Member.{Has, Has-sort}
use loku.Watch.{
  Dirty, dirty_eq, dirty_le, covers, dedup_behind, dedup_dirty, prune_behind, prune_nested,
}
use loku.Watch.Order.{dirty_le_trans, covers_between, covers_self, covers_back}
use loku.Watch.Sorted.{IsSorted, sort-IsSorted, dirty_eq_sound}

module _ (P : Dirty → Type 0) where
  All-dedup_behind : (a : Dirty) (bs : List Dirty) → All P bs → All P (dedup_behind a bs)
  unfolding dedup_behind
  All-dedup_behind a [] h = tt
  All-dedup_behind a (b ∷ bs) (p, h) = elim (Bool-cases (dirty_eq a b)) [
    | inl e ↦ rw e (All-dedup_behind a bs h)
    | inr e ↦ rw e (p, All-dedup_behind b bs h)
  ]

  All-prune_behind :
      (last : Option Dirty) (ds : List Dirty) → All P ds → All P (prune_behind last ds)
  unfolding prune_behind
  All-prune_behind last [] h = tt
  All-prune_behind last (d ∷ ds) (p, h) = elim (Bool-cases (is_some_and last (λ k. covers k d))) [
    | inl e ↦ rw e (All-prune_behind last ds h)
    | inr e ↦ rw e (p, All-prune_behind (some d) ds h)
  ]

dedup-IsSorted : (a : Dirty) (bs : List Dirty) → IsSorted bs → IsSorted (dedup_behind a bs)
unfolding dedup_behind
dedup-IsSorted a [] h = tt
dedup-IsSorted a (b ∷ bs) (front, h) = elim (Bool-cases (dirty_eq a b)) [
  | inl e ↦ rw e (dedup-IsSorted a bs h)
  | inr e ↦ rw e (All-dedup_behind _ b bs front, dedup-IsSorted b bs h)
]

-- Every entry is still there, or is the one in front.
Has-dedup_behind : (d a : Dirty) (bs : List Dirty) → Has d bs → (a ≡ d) ⊎ Has d (dedup_behind a bs)
unfolding dedup_behind
Has-dedup_behind d a [] h = elim h [ ]
Has-dedup_behind d a (b ∷ bs) h = elim (Bool-cases (dirty_eq a b)) [
  | inl e ↦ rw e (elim h [
    | inl same ↦ inl (dirty_eq_sound a b e ∙ same)
    | inr there ↦ Has-dedup_behind d a bs there
  ])
  | inr e ↦
      rw e (elim h [ inl same ↦ inr (inl same) | inr there ↦ inr (Has-dedup_behind d b bs there) ])
]

Has-dedup_dirty : (d : Dirty) (ds : List Dirty) → Has d ds → Has d (dedup_dirty ds)
unfolding dedup_dirty
Has-dedup_dirty d [] h = h
Has-dedup_dirty d (a ∷ bs) (inl same) = inl same
Has-dedup_dirty d (a ∷ bs) (inr there) = Has-dedup_behind d a bs there

-- Some kept entry covers it.
abbrev pub IsCovered : List Dirty → Dirty → Type 0
IsCovered kept d = (k : Dirty) × Has k kept × (covers k d ≡ true)

-- One that covers it stands in front, or is kept.
in_front_or_kept :
    (e d : Dirty) (kept : List Dirty)
    → (covers e d ≡ true) ⊎ IsCovered kept d
    → IsCovered (e ∷ kept) d
in_front_or_kept e d kept (inl c) = (e, inl refl, c)
in_front_or_kept e d kept (inr (k, there, c)) = (k, inr there, c)

prune_covers :
    (last : Option Dirty) (ds : List Dirty) (d : Dirty)
    → Has d ds
    → (is_some_and last (λ k. covers k d) ≡ true) ⊎ IsCovered (prune_behind last ds) d
unfolding prune_behind
prune_covers last [] d h = elim h [ ]
prune_covers last (e ∷ ds) d h = elim (Bool-cases (is_some_and last (λ k. covers k e))) [
  | inl c ↦ rw c (elim h [
    | inl same ↦ inl (subst (λ x. is_some_and last (λ k. covers k x) ≡ true) same c)
    | inr there ↦ prune_covers last ds d there
  ])
  | inr c ↦ rw c (elim h [
    | inl same ↦ inr (e, inl refl, subst (λ x. covers e x ≡ true) same (covers_self e))
    | inr there ↦ inr (in_front_or_kept e d _ (prune_covers (some e) ds d there))
  ])
]

-- Neither covers the other.
abbrev pub AreApart : Dirty → Dirty → Type 0
AreApart a b = (covers a b ≡ false) × (covers b a ≡ false)

-- No two entries cover one another.
abbrev pub IsApart : List Dirty → Type 0
IsApart [] = Unit
IsApart (k ∷ ks) = All (AreApart k) ks × IsApart ks

apart_of_order : (a b : Dirty) → dirty_le a b ≡ true → covers a b ≡ false → AreApart a b
apart_of_order a b le h = (
  h,
  elim (Bool-cases (covers b a)) [
    | inl back ↦ cc (covers_back a b le back, h)
    | inr no_back ↦ no_back
  ],
)

-- What is behind an entry that the first does not cover, it does not cover either.
apart_behind :
    (a b c : Dirty) → dirty_le a b ≡ true → covers a b ≡ false → dirty_le b c ≡ true → AreApart a c
apart_behind a b c le h behind = elim (Bool-cases (covers a c)) [
  | inl below ↦ absurd (cc (covers_between a b c below le behind, h))
  | inr free ↦ apart_of_order a c (dirty_le_trans a b c le behind) free
]

prune_front :
    (l : Dirty) (ds : List Dirty) → IsSorted (l ∷ ds) → All (AreApart l) (prune_behind (some l) ds)
unfolding prune_behind
prune_front l [] h = tt
prune_front l (d ∷ ds) ((le, front), (behind, h)) = elim (Bool-cases (covers l d)) [
  | inl c ↦ rw c (prune_front l ds (front, h))
  | inr c ↦ rw c (
    apart_of_order l d le c,
    All-prune_behind (AreApart l) (some d) ds
        (All-imp _ _ (λ x le'. apart_behind l d x le c le') ds behind),
  )
]

prune-IsApart :
    (last : Option Dirty) (ds : List Dirty) → IsSorted ds → IsApart (prune_behind last ds)
unfolding prune_behind
prune-IsApart last [] h = tt
prune-IsApart last (d ∷ ds) (front, h) = elim (Bool-cases (is_some_and last (λ k. covers k d))) [
  | inl c ↦ rw c (prune-IsApart last ds h)
  | inr c ↦ rw c (prune_front d ds (front, h), prune-IsApart (some d) ds h)
]

dedup_dirty-IsSorted : (ds : List Dirty) → IsSorted ds → IsSorted (dedup_dirty ds)
unfolding dedup_dirty
dedup_dirty-IsSorted [] h = tt
dedup_dirty-IsSorted (a ∷ bs) (front, h) = (All-dedup_behind _ a bs front, dedup-IsSorted a bs h)

All-dedup_dirty : (P : Dirty → Type 0) (ds : List Dirty) → All P ds → All P (dedup_dirty ds)
unfolding dedup_dirty
All-dedup_dirty P [] h = tt
All-dedup_dirty P (a ∷ bs) (p, h) = (p, All-dedup_behind P a bs h)

Has-self : (ds : List Dirty) → All (λ d. Has d ds) ds
Has-self [] = tt
Has-self (d ∷ ds) = (inl refl, All-imp _ _ (λ x h. inr h) ds (Has-self ds))

no_front :
    (kept : List Dirty) (d : Dirty)
    → (is_some_and none (λ (k : Dirty). covers k d) ≡ true) ⊎ IsCovered kept d
    → IsCovered kept d
no_front kept d (inl c) = cc
no_front kept d (inr h) = h

-- The directories that `prune_nested` keeps are dirty ones, every dirty directory is one of them
-- or below one of them in its library, and no kept directory is or is below another kept one.
pub prune_nested_lem :
    (dirty : List Dirty)
    → All (λ k. Has k dirty) (prune_nested dirty)
      × ((d : Dirty) → Has d dirty → IsCovered (prune_nested dirty) d)
      × IsApart (prune_nested dirty)
unfolding prune_nested
prune_nested_lem dirty =
    let sorted = sort dirty_le dirty in
    (
      All-prune_behind _ none _
          (All-dedup_dirty _ sorted (All-sort _ dirty_le dirty (Has-self dirty))),
      λ d h. no_front _ d (
          prune_covers none (dedup_dirty sorted) d
            (Has-dedup_dirty d sorted (Has-sort dirty_le d dirty h))),
      prune-IsApart none _ (dedup_dirty-IsSorted sorted (sort-IsSorted dirty)),
    )
