-- ===== src/Base/Text/Parts.antt =====
-- What the tests for a prefix and for a part of a text decide.
use Prim.Native.Nat.{ℕ}
use mathlib.Core.Bool.{true, false}
use mathlib.Core.List.{[], ◌∷◌, ◌++◌, append_assoc}
use mathlib.Core.Logic.{◌↔◌, ◌⊎◌, inl, inr}
use mathlib.Core.Option.{some}
use mathlib.Core.Path.{◌≡◌, refl, ap, ◌∙◌}
use native.Mathlib.Omega.{arith}
use loku.Base.Lists.{length, length-append}
use loku.Base.Tests.{Bool-cases}
use loku.Base.Text.{
  Text, starts_with, starts_with-append, contains, strip_suffix, strip_prefix_sound, rsplit,
  text_eq, text_eq_iff, text_eq_refl, is_empty,
}

starts_with_sound : (s p : Text) → starts_with s p ≡ true → (rest : Text) × (s ≡ p ++ rest)
unfolding starts_with
starts_with_sound s [] h = (s, refl)
starts_with_sound [] (d ∷ p) h = cc
starts_with_sound (c ∷ s) (d ∷ p) h =
    let (rest, e) = starts_with_sound s p (ground arith) in (rest, ground (arith, e))

pub starts_with_iff : (s p : Text) → (starts_with s p ≡ true) ↔ ((rest : Text) × (s ≡ p ++ rest))
starts_with_iff s p =
    (starts_with_sound s p, λ (rest, e). ap (λ t. starts_with t p) e ∙ starts_with-append p rest)

-- The text has the part somewhere.
abbrev pub HasPart : Text → Text → Type 0
HasPart s p = (before : Text) × (after : Text) × (s ≡ before ++ (p ++ after))

HasPart-of_starts : (s p : Text) → starts_with s p ≡ true → HasPart s p
HasPart-of_starts s p h = let (after, e) = starts_with_sound s p h in ([], after, e)

contains_cases :
    (c : ℕ) (s p : Text)
    → contains (c ∷ s) p ≡ true
    → (starts_with (c ∷ s) p ≡ true) ⊎ (contains s p ≡ true)
unfolding contains
contains_cases c s p e = ground arith

contains_sound : (s p : Text) → contains s p ≡ true → HasPart s p
contains_sound [] p h = HasPart-of_starts [] p (unfold contains in h)
contains_sound (c ∷ s) p h = go (contains_cases c s p h) (contains_sound s p)
  where
    go :
        (starts_with (c ∷ s) p ≡ true) ⊎ (contains s p ≡ true)
        → (contains s p ≡ true → HasPart s p)
        → HasPart (c ∷ s) p
    go (inl e) ih = HasPart-of_starts (c ∷ s) p e
    go (inr e) ih = let (before, after, e') = ih e in (c ∷ before, after, ap (◌∷◌ c) e')

contains_at_start : (s p : Text) → starts_with s p ≡ true → contains s p ≡ true
unfolding contains
contains_at_start [] p h = h
contains_at_start (c ∷ s) p h = ground arith

contains_behind : (c : ℕ) (s p : Text) → contains s p ≡ true → contains (c ∷ s) p ≡ true
unfolding contains
contains_behind c s p h = ground arith

contains-append : (before p after : Text) → contains (before ++ (p ++ after)) p ≡ true
contains-append [] p after = contains_at_start (p ++ after) p (starts_with-append p after)
contains-append (c ∷ before) p after =
    contains_behind c (before ++ (p ++ after)) p (contains-append before p after)

pub contains_iff : (s p : Text) → (contains s p ≡ true) ↔ HasPart s p
contains_iff s p = (
  contains_sound s p,
  λ (before, after, e). ap (λ t. contains t p) e ∙ contains-append before p after,
)

pub strip_suffix_sound : (s p r : Text) → strip_suffix s p ≡ some r → s ≡ r ++ p
unfolding strip_suffix
strip_suffix_sound [] [] [] h = refl
strip_suffix_sound [] [] (d ∷ r) h = cc
strip_suffix_sound [] (d ∷ p) r h = cc
strip_suffix_sound (c ∷ s) p [] h = ground (arith, text_eq_iff (c ∷ s) p)
strip_suffix_sound (c ∷ s) p (d ∷ r) h =
    ground (arith, strip_suffix_sound s p r, text_eq_iff (c ∷ s) p)

-- A text is not what is left of it behind a first character.
longer : (c : ℕ) (r p : Text) → c ∷ r ++ p ≡ p → ⊥
longer c r p e =
    let size : length (c ∷ r ++ p) ≡ length p = ap length e in
    absurd (omega (arith, size, length-append r p))

pub strip_suffix-append : (r p : Text) → is_empty p ≡ false → strip_suffix (r ++ p) p ≡ some r
unfolding strip_suffix
strip_suffix-append [] [] h = cc
strip_suffix-append [] (d ∷ p) h = rw (text_eq_refl (d ∷ p)) refl
strip_suffix-append (c ∷ r) p h = elim (Bool-cases (text_eq (c ∷ r ++ p) p)) [
  | inl same ↦ absurd (longer c r p ((text_eq_iff (c ∷ r ++ p) p).0 same))
  | inr other ↦ rw (other, strip_suffix-append r p h) refl
]

pub rsplit_sound :
    (p s before rest : Text) → rsplit p s ≡ some (before, rest) → s ≡ before ++ (p ++ rest)
unfolding rsplit
rsplit_sound p [] before rest h = ground (arith, strip_prefix_sound [] p rest)
rsplit_sound p (c ∷ s) [] rest h =
    ground (arith, rsplit_sound p s [] rest, strip_prefix_sound (c ∷ s) p rest)
rsplit_sound p (c ∷ s) (d ∷ before) rest h =
    ground (arith, rsplit_sound p s before rest, strip_prefix_sound (c ∷ s) p rest)

pub HasPart-append : (s t p : Text) → HasPart s p → HasPart (s ++ t) p
HasPart-append s t p (before, after, e) =
    (before, after ++ t, ap (λ x. x ++ t) e ∙ rw (append_assoc, append_assoc) refl)
