-- ===== src/Rip/Display.antt =====
-- What `display_title` makes of a prefix.
use loku.Base.{
  ℕ, Bool, true, false, ◌&&◌, ◌||◌, ◌==◌, List, [], ◌∷◌, ◌++◌, ◌≡◌, ◌⊎◌, inl, inr, refl, sym, ap,
  ◌∙◌, arith, All, append-nil, if◌then◌else◌,
}
use loku.Base.Text.{Text, join, codes, is_whitespace}
use loku.Base.Text.Words.{words, words-join, words-IsWord, IsWord}
use loku.Rip.{title_separator, display_title}

-- An underscore or white space.
abbrev pub breaks : ℕ → Bool
breaks c = (c == b'_') || is_whitespace c

-- The text ends in a word's character, and its breaks are single spaces behind such characters; the
-- flag tells whether it stands behind one itself.
abbrev pub is_spaced : Bool → Text → Bool
is_spaced behind [] = behind
is_spaced behind (c ∷ s) =
    let apart = behind && (c == b' ') && is_spaced false s in
    let inside = is_spaced true s in if breaks c then apart else inside

-- No text, or words with single spaces between them.
abbrev pub IsTidy : Text → Type 0
IsTidy s = (s ≡ []) ⊎ (is_spaced false s ≡ true)

space_breaks : breaks b' ' ≡ true
unfolding is_whitespace
space_breaks = refl

-- The characters of a word change nothing but the flag.
is_spaced-word :
    (behind : Bool) (c : ℕ) (w rest : Text)
    → IsWord breaks (c ∷ w)
    → is_spaced behind (c ∷ w ++ rest) ≡ is_spaced true rest
is_spaced-word behind c [] rest h = ground arith
is_spaced-word behind c (d ∷ w) rest (clean, filled) =
    let here : breaks c ≡ false = ground arith in
    let rest_clean : IsWord breaks (d ∷ w) = ground arith in
    rw here (is_spaced-word true d w rest rest_clean)

is_spaced-space : (rest : Text) → is_spaced true (b' ' ∷ rest) ≡ is_spaced false rest
is_spaced-space rest = rw space_breaks refl

is_spaced-join :
    (c : ℕ) (w : Text) (ws : List Text)
    → All (IsWord breaks) ((c ∷ w) ∷ ws)
    → is_spaced false (join (codes " ") ((c ∷ w) ∷ ws)) ≡ true
unfolding join
is_spaced-join c w [] (word, others) =
    ap (is_spaced false) (sym (append-nil (c ∷ w))) ∙ is_spaced-word false c w [] word
is_spaced-join c w ([] ∷ ws) (word, others) = absurd (ground arith)
is_spaced-join c w ((d ∷ v) ∷ ws) (word, others) =
    is_spaced-word false c w (codes " " ++ join (codes " ") ((d ∷ v) ∷ ws)) word
    ∙ is_spaced-space (join (codes " ") ((d ∷ v) ∷ ws))
    ∙ is_spaced-join d v ws others

join-IsTidy : (ws : List Text) → All (IsWord breaks) ws → IsTidy (join (codes " ") ws)
join-IsTidy [] h = inl (unfold join in refl)
join-IsTidy ([] ∷ ws) h = absurd (ground arith)
join-IsTidy ((c ∷ w) ∷ ws) h = inr (is_spaced-join c w ws h)

display_title_words :
    (prefix : Text) → display_title prefix ≡ join (codes " ") (words breaks prefix)
unfolding display_title title_separator
display_title_words prefix = refl

-- A display title has the words of the prefix, between underscores and white space, in their order,
-- and nothing but single spaces between them.
pub words-display_title :
    (prefix : Text)
    → (words breaks (display_title prefix) ≡ words breaks prefix) × IsTidy (display_title prefix)
words-display_title prefix = rw (display_title_words prefix) (
  words-join breaks (words breaks prefix) b' ' space_breaks (words-IsWord breaks prefix),
  join-IsTidy (words breaks prefix) (words-IsWord breaks prefix),
)

-- A display title is already clean: its underscores are gone and its runs have collapsed.
pub display_title_idem :
    (prefix : Text) → display_title (display_title prefix) ≡ display_title prefix
display_title_idem prefix =
    display_title_words (display_title prefix)
    ∙ ap (join (codes " ")) (words-display_title prefix).0
    ∙ sym (display_title_words prefix)
