-- ===== src/Base/Text/Trim.antt =====
-- What trimming leaves of a text.
use Prim.Native.Nat.{ℕ}
use mathlib.Core.Bool.{Bool, true, false, ◌&&◌}
use mathlib.Core.List.{[], ◌∷◌, ◌++◌}
use mathlib.Core.Logic.{◌⊎◌, inl, inr}
use mathlib.Core.Path.{◌≡◌, refl, ap, ◌∙◌}
use native.Mathlib.Omega.{arith}
use loku.Base.Lists.{all}
use loku.Base.Tests.{if◌then◌else◌, Bool-cases, ◌==◌}
use loku.Base.Text.{Text, is_empty, is_whitespace, contains_char, trim, trim_start_by, trim_end}

all-trim_start :
    (s : Text) → all is_whitespace (trim_start_by is_whitespace s) ≡ all is_whitespace s
unfolding trim_start_by
all-trim_start [] = refl
all-trim_start (c ∷ s) = ground (arith, all-trim_start s)

is_empty-trim_end : (s : Text) → is_empty (trim_end s) ≡ all is_whitespace s
unfolding trim_end
is_empty-trim_end [] = refl
is_empty-trim_end (c ∷ s) = ground (arith, is_empty-trim_end s)

-- Nothing is left exactly of white space.
pub is_empty-trim : (s : Text) → is_empty (trim s) ≡ all is_whitespace s
is_empty-trim s = is_empty-trim_end (trim_start_by is_whitespace s) ∙ all-trim_start s

-- A character that is not trimmed is left exactly where it was.
pub contains_char-trim_start :
    (p : ℕ → Bool) (d : ℕ) (s : Text)
    → p d ≡ false
    → contains_char (trim_start_by p s) d ≡ contains_char s d
unfolding trim_start_by
contains_char-trim_start p d [] h = refl
contains_char-trim_start p d (c ∷ s) h = elim (Bool-cases (c == d)) [
  | inl same ↦ let e : c ≡ d = ground arith in let kept : p c ≡ false = ap p e ∙ h in rw kept refl
  | inr other ↦ elim (Bool-cases (p c)) [
    | inl gone ↦ rw (gone, other) (contains_char-trim_start p d s h)
    | inr kept ↦ rw kept refl
  ]
]

contains_char-trim_end :
    (d : ℕ) (s : Text) → is_whitespace d ≡ false → contains_char (trim_end s) d ≡ contains_char s d
unfolding trim_end
contains_char-trim_end d [] h = refl
contains_char-trim_end d (c ∷ s) h = go (trim_end s) (contains_char-trim_end d s h)
  where
    go :
        (t : Text)
        → contains_char t d ≡ contains_char s d
        → contains_char (if is_empty t && is_whitespace c then [] else c ∷ t) d
          ≡ contains_char (c ∷ s) d
    go (x ∷ t) ih = rw ih refl
    go [] ih = elim (Bool-cases (is_whitespace c)) [
      | inl gone ↦ elim (Bool-cases (c == d)) [
        | inl same ↦ let e : c ≡ d = ground arith in cc (ap is_whitespace e, gone, h)
        | inr other ↦ rw (gone, other) ih
      ]
      | inr kept ↦ rw (kept, ih) refl
    ]

pub contains_char-trim :
    (d : ℕ) (s : Text) → is_whitespace d ≡ false → contains_char (trim s) d ≡ contains_char s d
contains_char-trim d s h =
    contains_char-trim_end d (trim_start_by is_whitespace s) h
    ∙ contains_char-trim_start is_whitespace d s h

trim_start-begins :
    (s : Text)
    → (trim_start_by is_whitespace s ≡ [])
      ⊎ ((c : ℕ) × (t : Text) × (trim_start_by is_whitespace s ≡ c ∷ t) × (is_whitespace c ≡ false))
trim_start-begins [] = inl (unfold trim_start_by in refl)
trim_start-begins (c ∷ s) = go (trim_start-begins s)
  where
    go :
        (trim_start_by is_whitespace s ≡ [])
          ⊎ ((d : ℕ) × (t : Text) × (trim_start_by is_whitespace s ≡ d ∷ t)
              × (is_whitespace d ≡ false))
        → (trim_start_by is_whitespace (c ∷ s) ≡ [])
          ⊎ ((d : ℕ) × (t : Text) × (trim_start_by is_whitespace (c ∷ s) ≡ d ∷ t)
              × (is_whitespace d ≡ false))
    go h = elim (Bool-cases (is_whitespace c)) [
      | inl gone ↦ unfold trim_start_by in rw gone h
      | inr kept ↦ inr (c, s, unfold trim_start_by in rw kept refl, kept)
    ]

trim_end_kept : (c : ℕ) (t : Text) → is_whitespace c ≡ false → trim_end (c ∷ t) ≡ c ∷ trim_end t
unfolding trim_end
trim_end_kept c t h = ground arith

-- A trimmed text begins with no white space.
pub trim-begins :
    (s : Text)
    → (trim s ≡ []) ⊎ ((c : ℕ) × (t : Text) × (trim s ≡ c ∷ t) × (is_whitespace c ≡ false))
trim-begins s = elim (trim_start-begins s) [
  | inl e ↦ inl (ap trim_end e ∙ (unfold trim_end in refl))
  | inr (c, t, e, kept) ↦ inr (c, trim_end t, ap trim_end e ∙ trim_end_kept c t kept, kept)
]

trim_end-snoc : (s : Text) (d : ℕ) → is_whitespace d ≡ true → trim_end (s ++ d ∷ []) ≡ trim_end s
unfolding trim_end
trim_end-snoc [] d h = ground arith
trim_end-snoc (c ∷ s) d h = rw (trim_end-snoc s d h) refl

-- White space at the end of a text with something in front of it goes.
pub trim-snoc :
    (c : ℕ) (s : Text) (d : ℕ)
    → is_whitespace c ≡ false
    → is_whitespace d ≡ true
    → trim (c ∷ s ++ d ∷ []) ≡ trim (c ∷ s)
unfolding trim_start_by
trim-snoc c s d kept gone = rw kept (trim_end-snoc (c ∷ s) d gone)
