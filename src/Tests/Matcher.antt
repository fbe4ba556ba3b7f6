-- ===== src/Tests/Matcher.antt =====
-- A matcher for the patterns of LIKE … ESCAPE '\', and the theorem on patterns at it.
use loku.Base.{ℕ, Bool, true, false, ◌&&◌, ◌||◌, ◌==◌, [], ◌∷◌, ◌≡◌, refl, arith, if◌then◌else◌}
use loku.Base.Text.{Text, is_empty}
use loku.Index.Like.{Like, is_special, same_letter}

-- The matcher of the rest of a pattern takes the text after some of its characters.
pub some_suffix : (Text → Bool) → Text → Bool
some_suffix rest [] = rest []
some_suffix rest (d ∷ s) = rest (d ∷ s) || some_suffix rest s

-- It takes the text after one character that passes.
pub one_then : (ℕ → Bool) → (Text → Bool) → Text → Bool
one_then p rest [] = false
one_then p rest (d ∷ s) = p d && rest s

-- The flag says that the character in front is escaped.
pub matches : Bool → Text → Text → Bool
matches is_escaped [] s = is_empty s
matches true (c ∷ p) s = one_then (same_letter c) (matches false p) s
matches false (c ∷ p) s =
    let wild = some_suffix (matches false p) s in
    let any_one = one_then (λ d. true) (matches false p) s in
    let escaped = matches true p s in
    let plain = one_then (same_letter c) (matches false p) s in
    if c == b'%' then wild else if c == b'_' then any_one else if c == b'\\' then escaped else plain

pub some_suffix-empty : (s : Text) → some_suffix (matches false []) s ≡ true
unfolding some_suffix matches
some_suffix-empty [] = refl
some_suffix-empty (d ∷ s) = ground (arith, some_suffix-empty s)

pub matches-plain :
    (c d : ℕ) (p s : Text)
    → is_special c ≡ false
    → matches false (c ∷ p) (d ∷ s) ≡ (same_letter c d && matches false p s)
unfolding matches one_then
matches-plain c d p s h = ground arith

pub matches-plain_nil : (c : ℕ) (p : Text) → is_special c ≡ false → matches false (c ∷ p) [] ≡ false
unfolding matches one_then
matches-plain_nil c p h = ground arith

abbrev pub sqlite : Like
unfolding matches one_then some_suffix
sqlite = record {
  like = matches false;
  like-nil = λ c s. refl;
  like-nil-nil = refl;
  like-plain = matches-plain;
  like-plain_nil = matches-plain_nil;
  like-escaped = λ c d p s. refl;
  like-escaped_nil = λ c p. refl;
  like-percent = λ s. some_suffix-empty s;
}
