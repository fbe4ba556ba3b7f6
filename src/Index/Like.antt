-- ===== src/Index/Like.antt =====
-- `escape_like` of crates/server/src/index/store.rs, and the patterns that it makes for the
-- operator LIKE … ESCAPE '\' of SQLite, which is a parameter with its documented rules.
use loku.Base.{
  ℕ, Bool, true, false, ◌&&◌, ◌||◌, [], ◌∷◌, ◌++◌, ◌≡◌, refl, arith, ◌==◌, if◌then◌else◌,
  append_assoc, ◌∙◌, ap,
}
use loku.Base.Text.{Text, codes, ascii_lower, starts_with, to_ascii_lowercase}

-- `s.replace(c, by)` for one character `c`.
unfoldable pub replace_char : ℕ → Text → Text → Text
replace_char c by [] = []
replace_char c by (d ∷ s) = (if d == c then by else d ∷ []) ++ replace_char c by s

unfoldable pub escape_like : Text → Text
escape_like input =
    replace_char b'_' (codes "\\_")
      (replace_char b'%' (codes "\\%") (replace_char b'\\' (codes "\\\\") input))

-- `format!("{}/%", escape_like(dir))`
abbrev pub tree_pattern : Text → Text
tree_pattern dir = escape_like dir ++ codes "/%"

-- `format!("{}%", escape_like(prefix))`
abbrev pub prefix_pattern : Text → Text
prefix_pattern prefix = escape_like prefix ++ codes "%"

-- Letters that differ in ASCII case alone.
abbrev pub same_letter : ℕ → ℕ → Bool
same_letter c d = ascii_lower c == ascii_lower d

abbrev pub is_special : ℕ → Bool
is_special c = (c == b'%') || (c == b'_') || (c == b'\\')

-- What SQLite documents of `value LIKE pattern ESCAPE '\'`: letters match in either ASCII case,
-- % matches any text, and a character behind the escape character stands for itself.
pub record Like : Type 0 where
  pub like : Text → Text → Bool
  pub like-nil : (c : ℕ) (s : Text) → like [] (c ∷ s) ≡ false
  pub like-nil-nil : like [] [] ≡ true
  pub like-plain :
      (c d : ℕ) (p s : Text)
      → is_special c ≡ false
      → like (c ∷ p) (d ∷ s) ≡ (same_letter c d && like p s)
  pub like-plain_nil : (c : ℕ) (p : Text) → is_special c ≡ false → like (c ∷ p) [] ≡ false
  pub like-escaped :
      (c d : ℕ) (p s : Text) → like (b'\\' ∷ c ∷ p) (d ∷ s) ≡ (same_letter c d && like p s)
  pub like-escaped_nil : (c : ℕ) (p : Text) → like (b'\\' ∷ c ∷ p) [] ≡ false
  pub like-percent : (s : Text) → like (b'%' ∷ []) s ≡ true

-- One pass that does the work of the three.
escaped : ℕ → Text
escaped c = if is_special c then b'\\' ∷ c ∷ [] else c ∷ []

replace_char-append :
    (c : ℕ) (by s t : Text)
    → replace_char c by (s ++ t) ≡ replace_char c by s ++ replace_char c by t
unfolding replace_char
replace_char-append c by [] t = refl
replace_char-append c by (d ∷ s) t = rw (replace_char-append c by s t) (rw append_assoc)

escape_one : (c : ℕ) → escape_like (c ∷ []) ≡ escaped c
unfolding escape_like escaped replace_char
escape_one c = ground arith

pub escape_like-append : (s t : Text) → escape_like (s ++ t) ≡ escape_like s ++ escape_like t
unfolding escape_like
escape_like-append s t = simp replace_char-append

escape_like-cons : (c : ℕ) (s : Text) → escape_like (c ∷ s) ≡ escaped c ++ escape_like s
escape_like-cons c s = escape_like-append (c ∷ []) s ∙ ap (λ t. t ++ escape_like s) (escape_one c)

prefix_pattern-cons : (c : ℕ) (p : Text) → prefix_pattern (c ∷ p) ≡ escaped c ++ prefix_pattern p
prefix_pattern-cons c p = rw (escape_like-cons c p, append_assoc)

module _ (l : Like) where
  open l use {like}

  like-escaped_char :
      (c d : ℕ) (p s : Text) → like (escaped c ++ p) (d ∷ s) ≡ (same_letter c d && like p s)
  unfolding escaped
  like-escaped_char c d p s = ground (arith, l.like-plain c d p s, l.like-escaped c d p s)

  like-escaped_end : (c : ℕ) (p : Text) → like (escaped c ++ p) [] ≡ false
  unfolding escaped
  like-escaped_end c p = ground (arith, l.like-plain_nil c p, l.like-escaped_nil c p)

  -- A pattern from `escape_like` with % behind it matches what begins with the text, in either
  -- ASCII case: no character of the text is a wildcard.
  pub like-prefix_pattern :
      (prefix s : Text)
      → like (prefix_pattern prefix) s
        ≡ starts_with (to_ascii_lowercase s) (to_ascii_lowercase prefix)
  unfolding starts_with
  like-prefix_pattern [] s = unfold escape_like replace_char in l.like-percent s
  like-prefix_pattern (c ∷ p) [] =
      rw (prefix_pattern-cons c p) (like-escaped_end c (prefix_pattern p))
  like-prefix_pattern (c ∷ p) (d ∷ s) =
      rw (prefix_pattern-cons c p)
        (ground (arith, like-escaped_char c d (prefix_pattern p) s, like-prefix_pattern p s))
