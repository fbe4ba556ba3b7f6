-- ===== src/Routes/MainTitle.antt =====
-- Which title of a disc set is in front: the operator's pick, or else the largest file.
use loku.Base.{
  ◌≤◌, Bool, true, Option, none, some, List, [], ◌∷◌, ◌≡◌, refl, sym, ap, ◌∙◌, arith, All, find,
  leb, or, inl, inr, Bool-cases, ◌⊎◌, unwrap_or,
}
use mathlib.Core.Path.{subst}
use loku.Base.Member.{Has, Has-map, Has-sort}
use loku.Base.Text.{Text, text_eq, text_eq_iff}
use loku.Base.Order.{sort}
use loku.Index.Record.{VideoRecord}
use loku.Media.Worker.{ActiveDerivation}
use loku.Routes.{VideoItem, from_record}
use loku.Routes.Listing.{
  largest, max_by_size, override_of, main_rel, main_of, titles_of, title_le, set_entry,
  disc_set_entry, first,
}
use loku.Routes.Shown.{disc_set_entry-some}

find-Has :
    {A : Type 0} (p : A → Bool) (a : A) (xs : List A)
    → Has a xs
    → p a ≡ true
    → (b : A) × (find p xs ≡ some b) × (p b ≡ true)
find-Has p a [] h e = elim h [ ]
find-Has p a (x ∷ xs) h e = elim (Bool-cases (p x)) [
  | inl yes_x ↦ (x, rw yes_x refl, yes_x)
  | inr no_x ↦ elim h [
    | inl same ↦ absurd (ground (arith, ap p same))
    | inr later ↦ (let (b, found, passes) = find-Has p a xs later e in (b, rw no_x found, passes))
  ]
]

largest_cases :
    (r s : VideoRecord) (rest : List VideoRecord)
    → ((r.size ≤ s.size) × (largest r (s ∷ rest) ≡ largest s rest))
      ⊎ ((s.size ≤ r.size) × (largest r (s ∷ rest) ≡ largest r rest))
unfolding largest
largest_cases r s rest = elim (Bool-cases (leb r.size s.size)) [
  | inl e ↦ inl (ground arith, rw e refl)
  | inr e ↦ inr (ground arith, rw e refl)
]

skip_second :
    (x r s : VideoRecord) (rest : List VideoRecord) → Has x (r ∷ rest) → Has x (r ∷ s ∷ rest)
skip_second x r s rest (inl h) = inl h
skip_second x r s rest (inr h) = inr (inr h)

largest-Has : (r : VideoRecord) (rest : List VideoRecord) → Has (largest r rest) (r ∷ rest)
unfolding largest
largest-Has r [] = inl refl
largest-Has r (s ∷ rest) = elim (largest_cases r s rest) [
  | inl (le, e) ↦ subst (λ x. Has x (r ∷ s ∷ rest)) (sym e) (inr (largest-Has s rest))
  | inr (le, e) ↦
      subst (λ x. Has x (r ∷ s ∷ rest)) (sym e)
        (skip_second (largest r rest) r s rest (largest-Has r rest))
]

-- No file of the list is larger.
abbrev pub IsLargest : VideoRecord → List VideoRecord → Type 0
IsLargest x rs = All (λ t. t.size ≤ x.size) rs

largest-IsLargest :
    (r : VideoRecord) (rest : List VideoRecord) → IsLargest (largest r rest) (r ∷ rest)
unfolding largest
largest-IsLargest r [] = (omega arith, tt)
largest-IsLargest r (s ∷ rest) = elim (largest_cases r s rest) [
  | inl (le, e) ↦
      subst (λ x. IsLargest x (r ∷ s ∷ rest)) (sym e)
        (let (this, others) = largest-IsLargest s rest in (omega (arith, le, this), (this, others)))
  | inr (le, e) ↦
      subst (λ x. IsLargest x (r ∷ s ∷ rest)) (sym e)
        (let (this, others) = largest-IsLargest r rest in (this, (omega (arith, le, this), others)))
]

path_of :
    (r : VideoRecord) (active : Option ActiveDerivation) → (from_record r active).path ≡ r.rel_path
unfolding from_record
path_of r active = refl

-- The title of the path that is looked for is in front, if the set has it.
pub main_at :
    (r : VideoRecord) (records : List VideoRecord) (active : Option ActiveDerivation) (path : Text)
    (main : VideoItem)
    → Has r records
    → r.rel_path ≡ path
    → main_of path (titles_of records active) ≡ some main
    → main.path ≡ path
main_at r records active path main h e found =
    let item_is : text_eq (from_record r active).path path ≡ true =
      (text_eq_iff (from_record r active).path path).1 (path_of r active ∙ e) in
    let (b, at, passes) =
      find-Has (λ (item : VideoItem). text_eq item.path path) (from_record r active)
        (titles_of records active)
        (Has-map (λ s. from_record s active) r (sort title_le records)
          (Has-sort title_le r records h))
        item_is in
    let same : some b ≡ some main =
      sym (ap (λ o. or o (first (titles_of records active))) at) ∙ found in
    ground (arith, same, text_eq_iff b.path path)

-- Without a pick the title in front of a set is that of a largest file of the set.
pub disc_set_entry-IsLargest :
    (set : Text) (r : VideoRecord) (rest : List VideoRecord) (overrides : List (Text × Text))
    (active : Option ActiveDerivation)
    → override_of set overrides ≡ none
    → (main : VideoItem) × (disc_set_entry set (r ∷ rest) overrides active
        ≡ some (set_entry set (titles_of (r ∷ rest) active) main))
      × ((s : VideoRecord) × Has s (r ∷ rest) × (main.path ≡ s.rel_path) × IsLargest s (r ∷ rest))
unfolding main_rel max_by_size
disc_set_entry-IsLargest set r rest overrides active no_pick =
    let (main, at, e) = disc_set_entry-some set (r ∷ rest) overrides active (omega arith) in
    let path_is : main_rel set (r ∷ rest) overrides ≡ (largest r rest).rel_path =
      ap (λ o. unwrap_or (or o (some (largest r rest).rel_path)) []) no_pick in
    (
      main,
      e,
      (
        largest r rest,
        largest-Has r rest,
        main_at (largest r rest) (r ∷ rest) active (largest r rest).rel_path main
            (largest-Has r rest) refl
            (ap (λ p. main_of p (titles_of (r ∷ rest) active)) (sym path_is) ∙ at),
        largest-IsLargest r rest,
      ),
    )
