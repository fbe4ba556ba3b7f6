-- ===== src/Nfo/Entities.antt =====
-- `sanitize_entities` of crates/lib/src/nfo.rs: which ampersands it escapes.
use loku.Base.{
  ℕ, ◌+◌, Bool, true, false, not, ◌&&◌, ◌||◌, ◌==◌, ltb, leb, Option, none, some, [], ◌∷◌, ◌++◌,
  ◌≡◌, refl, arith, all, map_option, if◌then◌else◌, is_some_and, Option-cases, inl, inr,
}
use loku.Base.Text.{Text, codes, starts_with, contains_char, is_empty, is_ascii_digit}

-- The bytes of a scalar value in UTF-8, and of a text.
abbrev pub utf8_width : ℕ → ℕ
utf8_width c = if ltb c 0x80 then 1 else if ltb c 0x800 then 2 else if ltb c 0x10000 then 3 else 4

unfoldable pub utf8_len : Text → ℕ
utf8_len [] = 0
utf8_len (c ∷ s) = utf8_width c + utf8_len s

-- The text before the first `c`: `s.find(c).map(|end| &s[..end])`
unfoldable pub before : ℕ → Text → Option Text
before c [] = none
before c (d ∷ s) = if d == c then some [] else map_option (λ r. d ∷ r) (before c s)

abbrev pub is_ascii_hexdigit : ℕ → Bool
is_ascii_hexdigit c = is_ascii_digit c || (leb b'a' c && leb c b'f') || (leb b'A' c && leb c b'F')

abbrev pub all_digits : Text → Bool
all_digits s = not (is_empty s) && all is_ascii_digit s

abbrev pub all_hexdigits : Text → Bool
all_hexdigits s = not (is_empty s) && all is_ascii_hexdigit s

-- `#` with decimal digits, or `#x` or `#X` with hexadecimal ones.
unfoldable pub is_reference_body : Text → Bool
is_reference_body [] = false
is_reference_body (c ∷ []) = false
is_reference_body (c ∷ d ∷ s) =
    (c == b'#') && (if (d == b'x') || (d == b'X') then all_hexdigits s else all_digits (d ∷ s))

unfoldable pub numeric_reference : Text → Bool
numeric_reference body = leb 2 (utf8_len body) && leb (utf8_len body) 10 && is_reference_body body

abbrev pub named_entity : Text → Bool
named_entity rest =
    starts_with rest (codes "amp;")
    || starts_with rest (codes "lt;")
    || starts_with rest (codes "gt;")
    || starts_with rest (codes "apos;")
    || starts_with rest (codes "quot;")

unfoldable pub valid_entity_prefix : Text → Bool
valid_entity_prefix rest = named_entity rest || is_some_and (before b';' rest) numeric_reference

-- The loop copies up to the next ampersand, decides on what follows it, and goes on behind it.
unfoldable pub sanitize_entities : Text → Text
sanitize_entities [] = []
sanitize_entities (c ∷ s) =
    let rest = sanitize_entities s in
    if c == b'&'
    then (if valid_entity_prefix s then b'&' ∷ rest else codes "&amp;" ++ rest)
    else c ∷ rest

-- Every ampersand of the text begins a valid entity.
unfoldable pub entities_valid : Text → Bool
entities_valid [] = true
entities_valid (c ∷ s) = (not (c == b'&') || valid_entity_prefix s) && entities_valid s

starts_with-sanitize :
    (s p : Text)
    → contains_char p b'&' ≡ false
    → starts_with s p ≡ true
    → starts_with (sanitize_entities s) p ≡ true
unfolding starts_with sanitize_entities
starts_with-sanitize s [] clean h = refl
starts_with-sanitize [] (d ∷ p) clean h = cc
starts_with-sanitize (c ∷ s) (d ∷ p) clean h = ground (arith, starts_with-sanitize s p)

before-sanitize :
    (s body : Text)
    → contains_char body b'&' ≡ false
    → before b';' s ≡ some body
    → before b';' (sanitize_entities s) ≡ some body
unfolding before sanitize_entities
before-sanitize [] body clean h = cc
before-sanitize (c ∷ s) [] clean h = ground arith
before-sanitize (c ∷ s) (d ∷ body) clean h = ground (arith, before-sanitize s body)

digits_clean : (s : Text) → all is_ascii_digit s ≡ true → contains_char s b'&' ≡ false
digits_clean [] h = refl
digits_clean (c ∷ s) h = ground (arith, digits_clean s)

hexdigits_clean : (s : Text) → all is_ascii_hexdigit s ≡ true → contains_char s b'&' ≡ false
hexdigits_clean [] h = refl
hexdigits_clean (c ∷ s) h = ground (arith, hexdigits_clean s)

reference_clean : (body : Text) → is_reference_body body ≡ true → contains_char body b'&' ≡ false
unfolding is_reference_body
reference_clean [] h = cc
reference_clean (c ∷ []) h = cc
reference_clean (c ∷ d ∷ s) h = ground (arith, hexdigits_clean s, digits_clean (d ∷ s))

numeric-sanitize :
    (s : Text)
    → is_some_and (before b';' s) numeric_reference ≡ true
    → is_some_and (before b';' (sanitize_entities s)) numeric_reference ≡ true
numeric-sanitize s h = elim (Option-cases (before b';' s)) [
  | inl e ↦ cc (rw e at h)
  | inr (body, e) ↦
      let numeric : numeric_reference body ≡ true = rw e at h in
      let clean = reference_clean body (unfold numeric_reference in ground arith) in
      rw (before-sanitize s body clean e) numeric
]

valid-sanitize :
    (s : Text) → valid_entity_prefix s ≡ true → valid_entity_prefix (sanitize_entities s) ≡ true
unfolding valid_entity_prefix
valid-sanitize s h = ground (
  arith,
  starts_with-sanitize s (codes "amp;") refl,
  starts_with-sanitize s (codes "lt;") refl,
  starts_with-sanitize s (codes "gt;") refl,
  starts_with-sanitize s (codes "apos;") refl,
  starts_with-sanitize s (codes "quot;") refl,
  numeric-sanitize s,
)

amp_valid : (s : Text) → valid_entity_prefix (codes "amp;" ++ s) ≡ true
unfolding valid_entity_prefix starts_with
amp_valid s = refl

-- In the output of `sanitize_entities` every ampersand begins a valid entity.
pub entities_valid-sanitize : (s : Text) → entities_valid (sanitize_entities s) ≡ true
unfolding sanitize_entities entities_valid
entities_valid-sanitize [] = refl
entities_valid-sanitize (c ∷ s) =
    ground (arith, entities_valid-sanitize s, valid-sanitize s, amp_valid (sanitize_entities s))

-- A text all of whose ampersands begin valid entities passes through unchanged.
pub sanitize_of_valid : (s : Text) → entities_valid s ≡ true → sanitize_entities s ≡ s
unfolding sanitize_entities entities_valid
sanitize_of_valid [] h = refl
sanitize_of_valid (c ∷ s) h = ground (arith, sanitize_of_valid s)
