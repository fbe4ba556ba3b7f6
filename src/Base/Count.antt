-- ===== src/Base/Count.antt =====
-- How many items of a list pass a test, as what two lists with the same items share.
use Prim.Native.Nat.{ℕ, suc, ◌+◌}
use mathlib.Core.Bool.{Bool}
use mathlib.Core.List.{List, [], ◌∷◌, ◌++◌}
use mathlib.Core.Path.{◌≡◌, refl, ap, ◌∙◌}
use native.Mathlib.Omega.{arith}
use loku.Base.Lists.{keep, map, length, length-append, keep-append}
use loku.Base.Order.{insert, sort}

abbrev pub count {ℓ} : {A : Type ℓ} → (A → Bool) → List A → ℕ
count p xs = length (keep p xs)

pub count-append {ℓ} :
    {A : Type ℓ} (p : A → Bool) (xs ys : List A) → count p (xs ++ ys) ≡ count p xs + count p ys
count-append p xs ys = ap length (keep-append p xs ys) ∙ length-append (keep p xs) (keep p ys)

pub count-map {ℓ κ} :
    {A : Type ℓ} {B : Type κ} (p : B → Bool) (f : A → B) (xs : List A)
    → count p (map f xs) ≡ count (λ a. p (f a)) xs
count-map p f [] = refl
count-map p f (x ∷ xs) = ground (arith, count-map p f xs)

pub count-insert {ℓ} :
    {A : Type ℓ} (p : A → Bool) (le : A → A → Bool) (a : A) (xs : List A)
    → count p (insert le a xs) ≡ count p (a ∷ xs)
unfolding insert
count-insert p le a [] = refl
count-insert p le a (x ∷ xs) = ground (arith, count-insert p le a xs)

-- Sorting keeps the items.
pub count-sort {ℓ} :
    {A : Type ℓ} (p : A → Bool) (le : A → A → Bool) (xs : List A)
    → count p (sort le xs) ≡ count p xs
unfolding sort
count-sort p le [] = refl
count-sort p le (x ∷ xs) = ground (arith, count-insert p le x (sort le xs), count-sort p le xs)

length-insert :
    {A : Type 0} (le : A → A → Bool) (a : A) (xs : List A)
    → length (insert le a xs) ≡ suc (length xs)
unfolding insert
length-insert le a [] = refl
length-insert le a (x ∷ xs) = ground (arith, length-insert le a xs)

pub length-sort : {A : Type 0} (le : A → A → Bool) (xs : List A) → length (sort le xs) ≡ length xs
unfolding sort
length-sort le [] = refl
length-sort le (x ∷ xs) = length-insert le x (sort le xs) ∙ ap suc (length-sort le xs)

pub length-map : {A B : Type 0} (f : A → B) (xs : List A) → length (map f xs) ≡ length xs
length-map f [] = refl
length-map f (x ∷ xs) = ap suc (length-map f xs)
