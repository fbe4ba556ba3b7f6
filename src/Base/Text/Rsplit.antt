-- ===== src/Base/Text/Rsplit.antt =====
-- Where `rsplit` finds the last occurrence of a character, and that it finds none.
use mathlib.Core.Bool.{false}
use mathlib.Core.Logic.{inl, inr}
use mathlib.Core.List.{[], ◌∷◌, ◌++◌}
use mathlib.Core.Option.{Option, none, some}
use mathlib.Core.Path.{◌≡◌, refl}
use native.Mathlib.Omega.{arith}
use Prim.Native.Nat.{ℕ}
use loku.Base.Tests.{◌==◌, Bool-cases, map_option}
use loku.Base.Text.{Text, rsplit, strip_prefix, contains_char}

-- A text has no occurrence of a pattern whose first character it lacks.
pub rsplit_lacks : (c : ℕ) (p s : Text) → contains_char s c ≡ false → rsplit (c ∷ p) s ≡ none
unfolding rsplit
rsplit_lacks c p [] h = refl
rsplit_lacks c p (d ∷ s) h = ground (arith, rsplit_lacks c p s)

-- The last place of a character is in front of a rest without it.
pub rsplit_last :
    (c : ℕ) (s rest : Text)
    → contains_char rest c ≡ false
    → rsplit (c ∷ []) (s ++ c ∷ rest) ≡ some (s, rest)
unfolding rsplit
rsplit_last c [] rest h = rw (rsplit_lacks c [] rest h) (ground arith)
rsplit_last c (d ∷ s) rest h = rw (rsplit_last c s rest h)

-- Nothing is found only in a text without the character.
abbrev pub Lacks : ℕ → Text → Option (Text × Text) → Type 0
Lacks c s none = contains_char s c ≡ false
Lacks c s (some (before, rest)) = contains_char rest c ≡ false

pub rsplit-Lacks : (c : ℕ) (s : Text) → Lacks c s (rsplit (c ∷ []) s)
unfolding rsplit strip_prefix
rsplit-Lacks c [] = refl
rsplit-Lacks c (d ∷ s) = go (rsplit (c ∷ []) s) (rsplit-Lacks c s)
  where
    go :
        (o : Option (Text × Text))
        → Lacks c s o
        → Lacks c (d ∷ s) (elim o [
          | none ↦ map_option (λ rest. ([], rest)) (strip_prefix (d ∷ s) (c ∷ []))
          | some (before, rest) ↦ some (d ∷ before, rest)
        ])
    go (some (before, rest)) h = h
    go none h = elim (Bool-cases (d == c)) [
      | inl same ↦ rw same h
      | inr other ↦ rw other (ground (arith, other, h))
    ]
