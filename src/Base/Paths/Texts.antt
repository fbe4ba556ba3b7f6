-- ===== src/Base/Paths/Texts.antt =====
-- Relative paths as texts: the parent of a path, a sibling, and that the text tells the path.
use mathlib.Core.Bool.{Bool, true, false, not}
use mathlib.Core.List.{List, [], ◌∷◌, ◌++◌, append_assoc}
use mathlib.Core.Option.{none, some}
use mathlib.Core.Path.{◌≡◌, refl, sym, ap, ◌∙◌}
use native.Mathlib.Omega.{arith}
use Prim.Native.Nat.{ℕ}
use loku.Base.Tests.{◌==◌, map_option}
use loku.Base.Lists.{All, all}
use loku.Base.Text.{Text, codes, text_eq_refl, join, rsplit, contains_char}
use loku.Base.Text.Rsplit.{rsplit_lacks, rsplit_last}
use loku.Base.Text.Words.{IsWord, words, words-join}
use loku.Base.Paths.{FilePath, parent, file_name, path_strip_prefix, relative_text, child}

abbrev pub is_slash : ℕ → Bool
is_slash c = c == b'/'

-- What a directory entry is called: some text without a slash.
abbrev pub IsName : Text → Type 0
IsName = IsWord is_slash

-- The text in front of the last slash.
unfoldable pub parent_text : Text → Text
parent_text s = elim (rsplit (codes "/") s) [ none ↦ [] | some (dir, _) ↦ dir ]

pub slashless : (n : Text) → all (λ c. not (is_slash c)) n ≡ true → contains_char n b'/' ≡ false
slashless [] h = refl
slashless (c ∷ n) h = ground (arith, slashless n)

pub join-snoc :
    (p n : Text) (ps : List Text)
    → relative_text (p ∷ ps ++ n ∷ []) ≡ relative_text (p ∷ ps) ++ b'/' ∷ n
unfolding join
join-snoc p n [] = refl
join-snoc p n (q ∷ ps) =
    ap (λ s. p ++ b'/' ∷ s) (join-snoc q n ps)
    ∙ sym (append_assoc p (b'/' ∷ relative_text (q ∷ ps)) (b'/' ∷ n))

-- The last slash of a path's text is in front of its last component.
pub rsplit-relative :
    (p n : Text) (ps : List Text)
    → IsName n
    → rsplit (codes "/") (relative_text (p ∷ ps ++ n ∷ [])) ≡ some (relative_text (p ∷ ps), n)
rsplit-relative p n ps h =
    ap (rsplit (codes "/")) (join-snoc p n ps)
    ∙ rsplit_last b'/' (relative_text (p ∷ ps)) n (slashless n h.0)

pub parent_text-child :
    (rel : FilePath) (n : Text)
    → IsName n
    → parent_text (relative_text (child rel n)) ≡ relative_text rel
unfolding parent_text join rsplit
parent_text-child [] n h = rw (rsplit_lacks b'/' [] n (slashless n h.0))
parent_text-child (p ∷ ps) n h = rw (rsplit-relative p n ps h)

pub parent-child : (dir : FilePath) (n : Text) → parent (child dir n) ≡ some dir
unfolding parent
parent-child [] n = refl
parent-child (c ∷ []) n = refl
parent-child (c ∷ d ∷ dir) n = ap (map_option (λ p. c ∷ p)) (parent-child (d ∷ dir) n)

pub file_name-child : (dir : FilePath) (n : Text) → file_name (child dir n) ≡ some n
unfolding file_name
file_name-child [] n = refl
file_name-child (c ∷ []) n = refl
file_name-child (c ∷ d ∷ dir) n = file_name-child (d ∷ dir) n

pub strip_prefix_below : (root rel : FilePath) → path_strip_prefix (root ++ rel) root ≡ some rel
unfolding path_strip_prefix
strip_prefix_below [] rel = refl
strip_prefix_below (c ∷ root) rel = ground (arith, text_eq_refl c, strip_prefix_below root rel)

-- The text of a path of names tells the path.
pub relative_text_injective :
    (a b : FilePath) → All IsName a → All IsName b → relative_text a ≡ relative_text b → a ≡ b
relative_text_injective a b ha hb h =
    sym (words-join is_slash a b'/' refl ha)
    ∙ ap (words is_slash) h
    ∙ words-join is_slash b b'/' refl hb
