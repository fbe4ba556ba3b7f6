-- ===== src/Rip.antt =====
-- crates/lib/src/disc.rs: the file names of MakeMKV rips.
pub mod Names
pub mod Display
use loku.Base.{
  ℕ, ◌^◌, ◌-◌, Bool, ◌||◌, ◌==◌, Option, none, some, [], ◌∷◌, all, map_option, and_then, unwrap_or,
  if◌then◌else◌,
}
use loku.Base.Text.{
  Text, codes, rsplit, strip_suffix, is_empty, is_ascii_digit, is_whitespace, join, split, nonempty,
}
use loku.Base.Int.{parse_unsigned}

pub record RipName : Type 0 where
  pub prefix : Text
  pub title_index : Option ℕ

abbrev pub u32_max : ℕ
u32_max = 2 ^ 32 - 1

-- The file name up to its last dot, or all of it.
unfoldable pub stem_of : Text → Text
stem_of file_name = unwrap_or (map_option (λ p. p.0) (rsplit (codes ".") file_name)) file_name

-- The number that follows `_t`, if what follows is all digits and fits.
unfoldable pub title_index_of : Text → Option ℕ
title_index_of digits =
    if is_empty digits
    then none
    else if all is_ascii_digit digits
    then parse_unsigned u32_max digits
    else none

unfoldable pub split_title_index : Text → Option (Text × ℕ)
split_title_index stem =
    and_then (rsplit (codes "_t") stem) λ p. map_option (λ index. (p.0, index)) (title_index_of p.1)

-- The name of a stem that splits, and of one that does not.
abbrev pub rip_name_of : Text → Option (Text × ℕ) → RipName
rip_name_of stem none = record { prefix = stem; title_index = none }
rip_name_of stem (some (head, index)) = record {
  prefix = unwrap_or (strip_suffix head (codes "_title")) head;
  title_index = some index;
}

unfoldable pub parse_rip_name : Text → RipName
parse_rip_name file_name = let stem = stem_of file_name in rip_name_of stem (split_title_index stem)

unfoldable pub title_separator : ℕ → Bool
title_separator c = (c == b'_') || is_whitespace c

unfoldable pub display_title : Text → Text
display_title prefix = join (codes " ") (nonempty (split title_separator prefix))
