-- ===== src/Rip/Names.antt =====
-- What `parse_rip_name` reads from the names that the ripper writes.
use loku.Base.{
  and_then-eq-some, map_option-eq-some, ℕ, ◌+◌, ◌*◌, ◌-◌, ◌^◌, ◌≤◌, leb, if◌then◌else◌, sym, ap,
  ◌∙◌, true, false, Option, none, some, [], ◌∷◌, ◌++◌, ◌≡◌, refl, arith, all, unwrap_or, ◌⊎◌, inl,
  inr, Option-cases,
}
use loku.Base.Text.{Text, codes, rsplit, strip_suffix, is_empty, is_ascii_digit, contains_char}
use loku.Base.Text.Parts.{rsplit_sound, strip_suffix_sound, strip_suffix-append}
use loku.Base.Text.Rsplit.{rsplit_lacks, rsplit_last}
use loku.Base.Int.{parse_unsigned, scan_number, scan_digits}
use loku.Rip.{
  RipName, u32_max, stem_of, title_index_of, split_title_index, rip_name_of, parse_rip_name,
}

stem-dot : (stem ext : Text) → contains_char ext b'.' ≡ false → stem_of (stem ++ b'.' ∷ ext) ≡ stem
unfolding stem_of
stem-dot stem ext h = rw (rsplit_last b'.' stem ext h)

rsplit_t :
    (head digits : Text)
    → contains_char digits b'_' ≡ false
    → rsplit (codes "_t") (head ++ b'_' ∷ b't' ∷ digits) ≡ some (head, digits)
unfolding rsplit
rsplit_t [] digits h = rw (rsplit_lacks b'_' (codes "t") digits h)
rsplit_t (c ∷ head) digits h = rw (rsplit_t head digits h)

digits_lack_underscore :
    (digits : Text) → all is_ascii_digit digits ≡ true → contains_char digits b'_' ≡ false
digits_lack_underscore [] h = refl
digits_lack_underscore (c ∷ s) h = ground (arith, digits_lack_underscore s)

-- The number that decimal digits spell behind a number.
abbrev pub decimal : Text → ℕ → ℕ
decimal [] acc = acc
decimal (c ∷ s) acc = decimal s (acc * 10 + (c - b'0'))

scan_digits-decimal :
    (s : Text) (acc : ℕ) → all is_ascii_digit s ≡ true → scan_digits s acc ≡ some (decimal s acc)
unfolding scan_digits
scan_digits-decimal [] acc h = refl
scan_digits-decimal (c ∷ s) acc h = ground (arith, scan_digits-decimal s (acc * 10 + (c - b'0')))

-- A title index: one or more digits, which spell a number that fits a u32.
abbrev pub IsIndex : Text → Type 0
IsIndex digits =
    (is_empty digits ≡ false) × (all is_ascii_digit digits ≡ true) × (decimal digits 0 ≤ 2 ^ 32 - 1)

title_index_value :
    (digits : Text)
    → is_empty digits ≡ false
    → all is_ascii_digit digits ≡ true
    → title_index_of digits
      ≡ (if leb (decimal digits 0) u32_max then some (decimal digits 0) else none)
unfolding title_index_of parse_unsigned scan_number
title_index_value [] filled numeric = cc
title_index_value (c ∷ s) filled numeric = ground (arith, scan_digits-decimal (c ∷ s) 0 numeric)

IsIndex-of_value :
    (digits : Text) (index : ℕ)
    → title_index_of digits ≡ some index
    → IsIndex digits × (index ≡ decimal digits 0)
IsIndex-of_value digits index h =
    let (filled, numeric) = plain digits index h in
    let value = sym (title_index_value digits filled numeric) ∙ h in
    ground (arith, value, filled, numeric)
  where
    plain :
        (digits : Text) (index : ℕ)
        → title_index_of digits ≡ some index
        → (is_empty digits ≡ false) × (all is_ascii_digit digits ≡ true)
    plain d i e = unfold title_index_of in ground arith

title_index_complete :
    (digits : Text) → IsIndex digits → title_index_of digits ≡ some (decimal digits 0)
title_index_complete digits (filled, numeric, fits) =
    title_index_value digits filled numeric ∙ ground arith

-- The stem of a file name: what is before its last dot, or all of it.
abbrev pub IsStem : Text → Text → Type 0
IsStem file_name stem =
    ((contains_char file_name b'.' ≡ false) × (file_name ≡ stem))
    ⊎ ((ext : Text) × (contains_char ext b'.' ≡ false) × (file_name ≡ stem ++ b'.' ∷ ext))

stem_of-IsStem : (file_name stem : Text) → IsStem file_name stem → stem_of file_name ≡ stem
stem_of-IsStem file_name stem (inl (dotless, e)) =
    unfold stem_of in rw (rsplit_lacks b'.' [] file_name dotless) e
stem_of-IsStem file_name stem (inr (ext, dotless, e)) = ap stem_of e ∙ stem-dot stem ext dotless

-- The head without a trailing _title.
abbrev pub IsPrefix : Text → Text → Type 0
IsPrefix head prefix =
    (head ≡ prefix ++ codes "_title")
    ⊎ ((prefix ≡ head) × ¬ ((r : Text) × (head ≡ r ++ codes "_title")))

-- A stem that ends in _t and a title index, read as that index and the head's prefix.
pub record IsIndexed (stem : Text) (name : RipName) : Type 0 where
  pub head : Text
  pub digits : Text
  pub stem_is : stem ≡ head ++ (codes "_t" ++ digits)
  pub digits_are : IsIndex digits
  pub index_is : name.title_index ≡ some (decimal digits 0)
  pub prefix_is : IsPrefix head name.prefix

-- A stem that does not end so, read as a prefix without an index.
pub record IsSingleton (stem : Text) (name : RipName) : Type 0 where
  pub plain : (head digits : Text) → stem ≡ head ++ (codes "_t" ++ digits) → IsIndex digits → ⊥
  pub prefix_is : name.prefix ≡ stem
  pub index_is : name.title_index ≡ none

prefix_cases : (head : Text) → IsPrefix head (unwrap_or (strip_suffix head (codes "_title")) head)
prefix_cases head = elim (Option-cases (strip_suffix head (codes "_title"))) [
  | inl e ↦ inr (
    rw e refl,
    λ (r, same). cc (
      sym e ∙ ap (λ h. strip_suffix h (codes "_title")) same,
      strip_suffix-append r (codes "_title") refl,
    ),
  )
  | inr (r, e) ↦ inl (rw e (strip_suffix_sound head (codes "_title") r e))
]

split_sound :
    (stem head : Text) (index : ℕ)
    → split_title_index stem ≡ some (head, index)
    → (digits : Text) × (rsplit (codes "_t") stem ≡ some (head, digits))
      × (title_index_of digits ≡ some index)
unfolding split_title_index
split_sound stem head index h =
    let ((before, digits), place, inner) = and_then-eq-some (rsplit (codes "_t") stem) _ _ h in
    let (i, value, e) = map_option-eq-some (title_index_of digits) _ _ inner in
    (digits, ground (arith, place, e), ground (arith, value, e))

numeric_of : (digits : Text) → IsIndex digits → all is_ascii_digit digits ≡ true
numeric_of digits (filled, numeric, fits) = numeric

split_complete :
    (stem head digits : Text)
    → stem ≡ head ++ (codes "_t" ++ digits)
    → IsIndex digits
    → split_title_index stem ≡ some (head, decimal digits 0)
unfolding split_title_index
split_complete stem head digits e index =
    let place =
      ap (rsplit (codes "_t")) e
      ∙ rsplit_t head digits (digits_lack_underscore digits (numeric_of digits index)) in
    rw (place, title_index_complete digits index) refl

IsIndexed-of_split :
    (stem head : Text) (index : ℕ)
    → split_title_index stem ≡ some (head, index)
    → IsIndexed stem (rip_name_of stem (some (head, index)))
IsIndexed-of_split stem head index h =
    let (digits, place, value) = split_sound stem head index h in
    let (is_index, index_is) = IsIndex-of_value digits index value in
    record {
      head = head;
      digits = digits;
      stem_is = rsplit_sound (codes "_t") stem head digits place;
      digits_are = is_index;
      index_is = ap (λ n. some n) index_is;
      prefix_is = prefix_cases head;
    }

named_of_split :
    (stem : Text) (split : Option (Text × ℕ))
    → split_title_index stem ≡ split
    → IsIndexed stem (rip_name_of stem split) ⊎ IsSingleton stem (rip_name_of stem split)
named_of_split stem none h = inr (record {
  plain = λ head digits e index. cc (h, split_complete stem head digits e index);
  prefix_is = refl;
  index_is = refl;
})
named_of_split stem (some (head, index)) h = inl (IsIndexed-of_split stem head index h)

-- A file name whose stem ends in _t and digits that fit a u32 is read as an indexed title, with the
-- number that the digits spell and the prefix before _t without a trailing _title; every other
-- name is read as a singleton, whose prefix is its whole stem.
pub parse_rip_name_cases :
    (file_name stem : Text)
    → IsStem file_name stem
    → IsIndexed stem (parse_rip_name file_name) ⊎ IsSingleton stem (parse_rip_name file_name)
unfolding parse_rip_name
parse_rip_name_cases file_name stem h =
    rw (stem_of-IsStem file_name stem h) (named_of_split stem _ refl)
