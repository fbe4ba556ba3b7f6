-- ===== src/Base/Member.antt =====
-- What a list has, and what has it after filtering, sorting, mapping and searching.
use mathlib.Core.Bool.{Bool, true, false}
use mathlib.Core.List.{List, [], ◌∷◌, ◌++◌}
use mathlib.Core.Logic.{◌⊎◌, inl, inr}
use mathlib.Core.Option.{Option, none}
use mathlib.Core.Path.{subst, ◌≡◌, refl, sym, ap, ◌∙◌}
use native.Mathlib.Omega.{arith}
use Prim.Native.Nat.{◌≤◌, ◌<◌}
use loku.Base.Tests.{if◌then◌else◌}
use loku.Base.Lists.{keep, map, find_map, length}
use loku.Base.Order.{insert, sort}

module _ {A : Type 0} where
  abbrev pub Has : A → List A → Type 0
  Has a [] = ⊥
  Has a (x ∷ xs) = (x ≡ a) ⊎ Has a xs

  pub Has-append_left : (a : A) (xs ys : List A) → Has a xs → Has a (xs ++ ys)
  Has-append_left a [] ys h = elim h [ ]
  Has-append_left a (x ∷ xs) ys (inl e) = inl e
  Has-append_left a (x ∷ xs) ys (inr h) = inr (Has-append_left a xs ys h)

  pub Has-append_right : (a : A) (xs ys : List A) → Has a ys → Has a (xs ++ ys)
  Has-append_right a [] ys h = h
  Has-append_right a (x ∷ xs) ys h = inr (Has-append_right a xs ys h)

  pub Has-of_append : (a : A) (xs ys : List A) → Has a (xs ++ ys) → Has a xs ⊎ Has a ys
  Has-of_append a [] ys h = inr h
  Has-of_append a (x ∷ xs) ys (inl e) = inl (inl e)
  Has-of_append a (x ∷ xs) ys (inr h) = ground (arith, Has-of_append a xs ys h)

  Has-if : (b : Bool) (a : A) (xs ys : List A) → Has a xs → Has a ys → Has a (if b then xs else ys)
  Has-if true a xs ys hx hy = hx
  Has-if false a xs ys hx hy = hy

  pub Has-keep : (p : A → Bool) (a : A) (xs : List A) → p a ≡ true → Has a xs → Has a (keep p xs)
  Has-keep p a [] e h = elim h [ ]
  Has-keep p a (x ∷ xs) e (inl h) =
      subst (λ b. Has a (if b then x ∷ keep p xs else keep p xs)) (sym (ap p h ∙ e)) (inl h)
  Has-keep p a (x ∷ xs) e (inr h) =
      Has-if (p x) a (x ∷ keep p xs) (keep p xs) (inr (Has-keep p a xs e h)) (Has-keep p a xs e h)

  -- What a filter keeps was there and passes.
  pub Has-of_keep :
      (p : A → Bool) (a : A) (xs : List A) → Has a (keep p xs) → Has a xs × (p a ≡ true)
  Has-of_keep p a [] h = elim h [ ]
  Has-of_keep p a (x ∷ xs) h = go (p x) refl h (Has-of_keep p a xs)
    where
      go :
          (b : Bool)
          → p x ≡ b
          → Has a (if b then x ∷ keep p xs else keep p xs)
          → (Has a (keep p xs) → Has a xs × (p a ≡ true))
          → Has a (x ∷ xs) × (p a ≡ true)
      go true e (inl same) ih = (inl same, ap p (sym same) ∙ e)
      go true e (inr h') ih = (inr (ih h').0, (ih h').1)
      go false e h' ih = (inr (ih h').0, (ih h').1)

  pub Has-insert :
      (le : A → A → Bool) (a b : A) (xs : List A) → (b ≡ a) ⊎ Has a xs → Has a (insert le b xs)
  unfolding insert
  Has-insert le a b [] h = h
  Has-insert le a b (x ∷ xs) (inl e) =
      Has-if (le b x) a (b ∷ x ∷ xs) (x ∷ insert le b xs) (inl e)
        (inr (Has-insert le a b xs (inl e)))
  Has-insert le a b (x ∷ xs) (inr (inl e)) =
      Has-if (le b x) a (b ∷ x ∷ xs) (x ∷ insert le b xs) (inr (inl e)) (inl e)
  Has-insert le a b (x ∷ xs) (inr (inr h)) =
      Has-if (le b x) a (b ∷ x ∷ xs) (x ∷ insert le b xs) (inr (inr h))
        (inr (Has-insert le a b xs (inr h)))

  pub Has-sort : (le : A → A → Bool) (a : A) (xs : List A) → Has a xs → Has a (sort le xs)
  unfolding sort
  Has-sort le a [] h = elim h [ ]
  Has-sort le a (x ∷ xs) (inl e) = Has-insert le a x (sort le xs) (inl e)
  Has-sort le a (x ∷ xs) (inr h) = Has-insert le a x (sort le xs) (inr (Has-sort le a xs h))

  module _ (f g : A → Bool) (weaker : (a : A) → g a ≡ true → f a ≡ true) where
    pub length-keep_mono : (xs : List A) → length (keep g xs) ≤ length (keep f xs)
    length-keep_mono [] = omega arith
    length-keep_mono (x ∷ xs) = ground (arith, length-keep_mono xs, weaker x)

    -- A filter that lets one item less pass keeps less.
    pub length-keep-lt :
        (a : A) (xs : List A)
        → f a ≡ true
        → g a ≡ false
        → Has a xs
        → length (keep g xs) < length (keep f xs)
    length-keep-lt a [] pass stop h = elim h [ ]
    length-keep-lt a (x ∷ xs) pass stop (inl e) =
        rw (ap f e ∙ pass, ap g e ∙ stop) (omega (arith, length-keep_mono xs))
    length-keep-lt a (x ∷ xs) pass stop (inr h) =
        ground (arith, length-keep-lt a xs pass stop h, weaker x)

module _ {A : Type 0} {B : Type 0} where
  pub Has-map : (f : A → B) (a : A) (xs : List A) → Has a xs → Has (f a) (map f xs)
  Has-map f a [] h = elim h [ ]
  Has-map f a (x ∷ xs) (inl e) = inl (ap f e)
  Has-map f a (x ∷ xs) (inr h) = inr (Has-map f a xs h)

  -- A search that finds nothing found nothing in any item.
  pub find_map-none :
      (f : A → Option B) (a : A) (xs : List A) → find_map f xs ≡ none → Has a xs → f a ≡ none
  find_map-none f a [] e h = elim h [ ]
  find_map-none f a (x ∷ xs) e (inl h) = sym (ap f h) ∙ ground arith
  find_map-none f a (x ∷ xs) e (inr h) = ground (arith, find_map-none f a xs)
