-- ===== src/Base/Every.antt =====
-- `All` of a list that is filtered, sorted, mapped or searched.
use mathlib.Core.Bool.{Bool, true, false}
use mathlib.Core.List.{List, [], ◌∷◌}
use mathlib.Core.Option.{Option, none, some}
use mathlib.Core.Logic.{◌≢◌}
use mathlib.Core.Path.{◌≡◌, refl, ◌∙◌}
use loku.Base.Tests.{if◌then◌else◌}
use loku.Base.Lists.{All, keep, map, find_map}
use loku.Base.Order.{insert, sort}

module _ {ℓ κ κ'} {A : Type ℓ} (P : A → Type κ) (Q : A → Type κ') where
  pub All-imp : ((a : A) → P a → Q a) → (xs : List A) → All P xs → All Q xs
  All-imp f [] h = tt
  All-imp f (x ∷ xs) h = (f x h.0, All-imp f xs h.1)

module _ {ℓ κ} {A : Type ℓ} (P : A → Type κ) where
  All-if : (b : Bool) (xs ys : List A) → All P xs → All P ys → All P (if b then xs else ys)
  All-if true xs ys hx hy = hx
  All-if false xs ys hx hy = hy

  All-kept :
      (p : A → Bool) (x : A) (rest : List A) (b : Bool)
      → p x ≡ b
      → P x
      → All (λ a. P a × (p a ≡ true)) rest
      → All (λ a. P a × (p a ≡ true)) (if b then x ∷ rest else rest)
  All-kept p x rest true e px h = ((px, e), h)
  All-kept p x rest false e px h = h

  pub All-keep : (p : A → Bool) (xs : List A) → All P xs → All (λ a. P a × (p a ≡ true)) (keep p xs)
  All-keep p [] h = tt
  All-keep p (x ∷ xs) h = All-kept p x (keep p xs) (p x) refl h.0 (All-keep p xs h.1)

  pub All-insert :
      (le : A → A → Bool) (a : A) (xs : List A) → P a → All P xs → All P (insert le a xs)
  unfolding insert
  All-insert le a [] pa h = (pa, tt)
  All-insert le a (x ∷ xs) pa h =
      All-if (le a x) (a ∷ x ∷ xs) (x ∷ insert le a xs) (pa, h) (h.0, All-insert le a xs pa h.1)

  pub All-sort : (le : A → A → Bool) (xs : List A) → All P xs → All P (sort le xs)
  unfolding sort
  All-sort le [] h = tt
  All-sort le (x ∷ xs) h = All-insert le x (sort le xs) h.0 (All-sort le xs h.1)

module _ {ℓ κ κ'} {A : Type ℓ} {B : Type κ} (Q : B → Type κ') (f : A → B) where
  pub All-map : (xs : List A) → All (λ a. Q (f a)) xs → All Q (map f xs)
  All-map [] h = tt
  All-map (x ∷ xs) h = (h.0, All-map xs h.1)

module _ {ℓ κ κ'} {A : Type ℓ} {B : Type κ} (P : A → Type κ') (f : A → Option B) where
  -- What a search finds comes from an item of the list.
  pub find_map-from :
      (xs : List A) (y : B) → All P xs → find_map f xs ≡ some y → (x : A) × P x × (f x ≡ some y)
  find_map-from [] y h e = cc
  find_map-from (x ∷ xs) y h e = go (f x) refl e (λ e'. find_map-from xs y h.1 e')
    where
      go :
          (o : Option B)
          → f x ≡ o
          → elim o [ none ↦ find_map f xs | some z ↦ some z ] ≡ some y
          → (find_map f xs ≡ some y → (x' : A) × P x' × (f x' ≡ some y))
          → (x' : A) × P x' × (f x' ≡ some y)
      go none found e' rest = rest e'
      go (some z) found e' rest = (x, h.0, found ∙ e')

module _ {A : Type 0} where
  -- No two items are the same.
  abbrev pub AreDistinct : List A → Type 0
  AreDistinct [] = Unit
  AreDistinct (x ∷ xs) = All (λ y. x ≢ y) xs × AreDistinct xs

  All-keep_plain : (P : A → Type 0) (p : A → Bool) (xs : List A) → All P xs → All P (keep p xs)
  All-keep_plain P p xs h = All-imp _ P (λ a (pa, e). pa) (keep p xs) (All-keep P p xs h)

  AreDistinct-if :
      (b : Bool) (x : A) (xs : List A)
      → All (λ y. x ≢ y) xs
      → AreDistinct xs
      → AreDistinct (if b then x ∷ xs else xs)
  AreDistinct-if true x xs h d = (h, d)
  AreDistinct-if false x xs h d = d

  pub AreDistinct-keep : (p : A → Bool) (xs : List A) → AreDistinct xs → AreDistinct (keep p xs)
  AreDistinct-keep p [] d = tt
  AreDistinct-keep p (x ∷ xs) (h, d) =
      AreDistinct-if (p x) x (keep p xs) (All-keep_plain _ p xs h) (AreDistinct-keep p xs d)

module _ {A B : Type 0} (f : A → B) (P : A → Type 0)
    (injective : (a b : A) → P a → P b → f a ≡ f b → a ≡ b) where
  pub AreDistinct-map : (xs : List A) → All P xs → AreDistinct xs → AreDistinct (map f xs)
  AreDistinct-map [] ps d = tt
  AreDistinct-map (x ∷ xs) (px, ps) (h, d) =
      (All-map (λ y. f x ≢ y) f xs (apart xs ps h), AreDistinct-map xs ps d)
    where
      apart : (ys : List A) → All P ys → All (λ y. x ≢ y) ys → All (λ y. f x ≢ f y) ys
      apart [] qs h = tt
      apart (y ∷ ys) (py, qs) (n, h) = (λ e. n (injective x y px py e), apart ys qs h)
