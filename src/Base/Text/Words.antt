-- ===== src/Base/Text/Words.antt =====
-- Splitting a text at separators, and joining the parts that are not empty.
use Prim.Native.Nat.{ℕ}
use mathlib.Core.Bool.{Bool, true, false, not}
use mathlib.Core.List.{List, [], ◌∷◌, ◌++◌}
use mathlib.Core.Path.{◌≡◌, refl, ap, ◌∙◌}
use native.Mathlib.Omega.{arith}
use loku.Base.Lists.{All, all}
use loku.Base.Text.{Text, split, join, is_empty, nonempty, onto_first}

module _ (sep : ℕ → Bool) where
  -- No character of the text is a separator.
  abbrev pub IsClean : Text → Type 0
  IsClean p = all (λ c. not (sep c)) p ≡ true

  -- A part that a split may keep.
  abbrev pub IsWord : Text → Type 0
  IsWord p = IsClean p × (is_empty p ≡ false)

  onto_first-IsClean :
      (c : ℕ) (ps : List Text) → sep c ≡ false → All IsClean ps → All IsClean (onto_first c ps)
  onto_first-IsClean c [] h clean = ground arith
  onto_first-IsClean c (p ∷ ps) h clean = ground arith

  pub split-IsClean : (s : Text) → All IsClean (split sep s)
  unfolding split
  split-IsClean [] = (refl, tt)
  split-IsClean (c ∷ s) = ground (arith, split-IsClean s, onto_first-IsClean c (split sep s))

  nonempty-IsWord : (ps : List Text) → All IsClean ps → All IsWord (nonempty ps)
  nonempty-IsWord [] clean = tt
  nonempty-IsWord (p ∷ ps) clean = ground (arith, nonempty-IsWord ps)

  -- The words of a text.
  abbrev pub words : Text → List Text
  words s = nonempty (split sep s)

  pub words-IsWord : (s : Text) → All IsWord (words s)
  words-IsWord s = nonempty-IsWord (split sep s) (split-IsClean s)

  split_clean : (p : Text) → IsClean p → split sep p ≡ p ∷ []
  unfolding split
  split_clean [] h = refl
  split_clean (c ∷ p) h = ground (arith, split_clean p)

  split_first :
      (p s : Text) (c : ℕ) → sep c ≡ true → IsClean p → split sep (p ++ c ∷ s) ≡ p ∷ split sep s
  unfolding split
  split_first [] s c h clean = ground arith
  split_first (d ∷ p) s c h clean = ground (arith, split_first p s c h)

  nonempty_words : (ps : List Text) → All IsWord ps → nonempty ps ≡ ps
  nonempty_words [] h = refl
  nonempty_words (p ∷ ps) h = ground (arith, nonempty_words ps)

  split-join :
      (p : Text) (ps : List Text) (c : ℕ)
      → sep c ≡ true
      → All IsClean (p ∷ ps)
      → split sep (join (c ∷ []) (p ∷ ps)) ≡ p ∷ ps
  unfolding join
  split-join p [] c h clean = split_clean p clean.0
  split-join p (q ∷ ps) c h clean =
      split_first p _ c h clean.0 ∙ ap (◌∷◌ p) (split-join q ps c h clean.1)

  IsClean-of_words : (ps : List Text) → All IsWord ps → All IsClean ps
  IsClean-of_words [] h = tt
  IsClean-of_words (p ∷ ps) h = (h.0.0, IsClean-of_words ps h.1)

  -- The words of joined words are those words.
  pub words-join :
      (ps : List Text) (c : ℕ) → sep c ≡ true → All IsWord ps → words (join (c ∷ []) ps) ≡ ps
  words-join [] c h w = unfold join split in refl
  words-join (p ∷ ps) c h w =
      ap nonempty (split-join p ps c h (IsClean-of_words (p ∷ ps) w)) ∙ nonempty_words (p ∷ ps) w
