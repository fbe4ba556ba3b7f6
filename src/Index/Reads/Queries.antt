-- ===== src/Index/Reads/Queries.antt =====
-- The MATCH expressions of `fts_query` in crates/server/src/index/store.rs, read back by the rules
-- of FTS5 strings.
use loku.Base.{
  ℕ, Bool, true, false, ◌&&◌, Option, none, some, List, [], ◌∷◌, ◌++◌, ◌≡◌, refl, arith, ap, ◌∙◌,
  if◌then◌else◌, ◌==◌, map, map_option, and_then, append_assoc, zero, suc, length,
}
use loku.Base.Text.{Text, codes, join}
use loku.Index.Like.{replace_char}
use loku.Index.Reads.{quote_token, fts_query, joined_tokens, split_whitespace}

-- The content of a quoted string behind its opening quote and what follows the closing quote. A
-- doubled quote stands for one; the first argument tells that a quote has just been read.
unfoldable pub read_string : Bool → Text → Option (Text × Text)
read_string false [] = none
read_string true [] = some ([], [])
read_string false (c ∷ s) =
    let quote = read_string true s in
    let plain = map_option (λ (p : Text × Text). (c ∷ p.0, p.1)) (read_string false s) in
    if c == b'"' then quote else plain
read_string true (c ∷ s) =
    let plain = map_option (λ (p : Text × Text). (b'"' ∷ p.0, p.1)) (read_string false s) in
    if c == b'"' then plain else some ([], c ∷ s)

-- The text with a character in front.
abbrev in_front : ℕ → Option (Text × Text) → Option (Text × Text)
in_front c = map_option (λ p. (c ∷ p.0, p.1))

read_quoted : (s : Text) → read_string false (b'"' ∷ b'"' ∷ s) ≡ in_front b'"' (read_string false s)
unfolding read_string
read_quoted s = refl

read_plain :
    (c : ℕ) (s : Text)
    → (c == b'"') ≡ false
    → read_string false (c ∷ s) ≡ in_front c (read_string false s)
unfolding read_string
read_plain c s h = rw h

read_one :
    (c : ℕ) (s : Text)
    → read_string false ((if c == b'"' then codes "\"\"" else c ∷ []) ++ s)
      ≡ in_front c (read_string false s)
read_one c s = ground (arith, read_quoted s, read_plain c s)

read_string_doubled :
    (token rest : Text)
    → read_string false (replace_char b'"' (codes "\"\"") token ++ b'"' ∷ b'*' ∷ rest)
      ≡ some (token, b'*' ∷ rest)
unfolding replace_char
read_string_doubled [] rest = unfold read_string in refl
read_string_doubled (c ∷ token) rest =
    rw append_assoc (read_one c _ ∙ ap (in_front c) (read_string_doubled token rest))

-- What follows a prefix phrase: the end, or a space and more phrases.
abbrev pub after_phrase : (Text → Option (List Text)) → Text × Text → Option (List Text)
after_phrase more (token, []) = none
after_phrase more (token, c ∷ []) = if c == b'*' then some (token ∷ []) else none
after_phrase more (token, c ∷ d ∷ s) =
    if (c == b'*') && (d == b' ') then map_option (λ ts. token ∷ ts) (more s) else none

-- The strings of an expression of at most so many prefix phrases and nothing else.
unfoldable pub read_phrases : ℕ → Text → Option (List Text)
read_phrases zero s = none
read_phrases (suc n) [] = none
read_phrases (suc n) (c ∷ s) =
    let rest = and_then (read_string false s) (after_phrase (read_phrases n)) in
    if c == b'"' then rest else none

phrase_last : (n : ℕ) (t : Text) → read_phrases (suc n) (quote_token t) ≡ some (t ∷ [])
unfolding read_phrases quote_token
phrase_last n t = rw (read_string_doubled t [])

phrase_next :
    (n : ℕ) (t s : Text)
    → read_phrases (suc n) (quote_token t ++ b' ' ∷ s)
      ≡ map_option (λ ts. t ∷ ts) (read_phrases n s)
unfolding read_phrases quote_token
phrase_next n t s = rw append_assoc (rw (read_string_doubled t (b' ' ∷ s)))

phrases-join :
    (t : Text) (ts : List Text)
    → read_phrases (length (t ∷ ts)) (join (codes " ") (map quote_token (t ∷ ts))) ≡ some (t ∷ ts)
unfolding join
phrases-join t [] = phrase_last 0 t
phrases-join t (u ∷ ts) =
    phrase_next (length (u ∷ ts)) t (join (codes " ") (map quote_token (u ∷ ts)))
    ∙ ap (map_option (λ l. t ∷ l)) (phrases-join u ts)

-- The expression for some tokens, as FTS5 reads it.
abbrev pub Reads : List Text → Option Text → Type 0
Reads [] expression = expression ≡ none
Reads (t ∷ ts) expression =
    (e : Text) × (expression ≡ some e) × (read_phrases (length (t ∷ ts)) e ≡ some (t ∷ ts))

Reads-of_tokens : (tokens : List Text) → Reads tokens (joined_tokens (map quote_token tokens))
Reads-of_tokens [] = refl
Reads-of_tokens (t ∷ ts) = (join (codes " ") (map quote_token (t ∷ ts)), refl, phrases-join t ts)

-- Whatever the user types, FTS5 reads the expression as prefix phrases whose strings are the
-- words of the input, and as nothing else; there is no expression exactly if there is no word.
pub read_phrases-fts_query : (input : Text) → Reads (split_whitespace input) (fts_query input)
unfolding fts_query
read_phrases-fts_query input = Reads-of_tokens (split_whitespace input)
