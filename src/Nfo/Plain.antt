-- ===== src/Nfo/Plain.antt =====
-- What `parse_nfo` makes of sidecars without XML.
use mathlib.Core.Path.{subst}
use loku.Base.{
  ℕ, ◌↔◌, Bool, true, false, not, ◌==◌, Option, none, some, List, [], ◌∷◌, ◌++◌, ◌≡◌, ◌≢◌, inl, inr,
  refl, sym, ap, ◌∙◌, arith, map, all, if◌then◌else◌, unwrap_or, find, Bool-cases, Option-cases,
}
use loku.Base.Text.{
  Text, codes, trim, trim_start_by, contains_char, is_empty, is_whitespace, split, strip_suffix,
}
use loku.Base.Text.Parts.{strip_suffix_sound}
use loku.Base.Text.Trim.{
  is_empty-trim, contains_char-trim, contains_char-trim_start, trim-begins, trim-snoc,
}
use loku.Nfo.Documents.{Nfo, reference, empty, missing_root}
use loku.Nfo.Entities.{sanitize_entities}
use loku.Nfo.Parse.{
  Result, ok, err, Xml, lines, ended_lines, reference_line, root_of_events, parse_document,
  parse_xml, content_of, parse_nfo,
}

-- What reading XML never gives: a bare reference, or the error for an empty file.
abbrev IsFromXml : Result Nfo → Type 0
IsFromXml (ok (reference r)) = ⊥
IsFromXml (err empty) = ⊥
IsFromXml result = Unit

document-IsFromXml :
    (xml : Xml) (sanitized root : Text) → IsFromXml (parse_document xml sanitized root)
unfolding parse_document
document-IsFromXml xml sanitized root = ground arith

xml-IsFromXml : (xml : Xml) (sanitized : Text) → IsFromXml (parse_xml xml sanitized)
unfolding parse_xml
xml-IsFromXml xml sanitized = go (root_of_events (xml.events sanitized))
  where
    go :
        (root : Option Text)
        → IsFromXml
            (elim root [ none ↦ err missing_root | some r ↦ parse_document xml sanitized r ])
    go none = tt
    go (some r) = document-IsFromXml xml sanitized r

not_empty_of_xml : (r : Result Nfo) → IsFromXml r → r ≢ err empty
not_empty_of_xml r h e = subst IsFromXml e h

not_reference_of_xml : (r : Result Nfo) (line : Text) → IsFromXml r → r ≢ ok (reference line)
not_reference_of_xml r line h e = subst IsFromXml e h

-- The choice that `parse_nfo` makes, over what it computes.
plain_cases :
    (blank tagged : Bool) (result : Result Nfo) (first line : Text)
    → result ≢ err empty
    → result ≢ ok (reference line)
    → let parsed =
        if blank then err empty else if not tagged then ok (reference first) else result in
      ((parsed ≡ err empty) ↔ (blank ≡ true))
      × ((parsed ≡ ok (reference line)) ↔ ((blank ≡ false) × (tagged ≡ false) × (line ≡ first)))
plain_cases blank tagged result first line not_empty not_reference = ground arith

-- A text up to its first line feed.
abbrev pub first_line : Text → Text
first_line [] = []
first_line (c ∷ s) = if c == 10 then [] else c ∷ first_line s

split-first_line : (s : Text) → (ps : List Text) × (split (λ c. c == 10) s ≡ first_line s ∷ ps)
split-first_line [] = ([], unfold split in refl)
split-first_line (c ∷ s) = go (split-first_line s)
  where
    go :
        (ps : List Text) × (split (λ c'. c' == 10) s ≡ first_line s ∷ ps)
        → (ps : List Text) × (split (λ c'. c' == 10) (c ∷ s) ≡ first_line (c ∷ s) ∷ ps)
    go (ps, e) = elim (Bool-cases (c == 10)) [
      | inl here ↦ (split (λ c'. c' == 10) s, unfold split in rw here refl)
      | inr other ↦ (ps, unfold split in rw (other, e) refl)
    ]

white_return : is_whitespace 13 ≡ true
unfolding is_whitespace
white_return = refl

white_feed : is_whitespace 10 ≡ true
unfolding is_whitespace
white_feed = refl

-- A carriage return at the end of a line with text is trimmed with or without it.
trim-ended :
    (c : ℕ) (s : Text)
    → is_whitespace c ≡ false
    → trim (unwrap_or (strip_suffix (c ∷ s) (codes "\r")) (c ∷ s)) ≡ trim (c ∷ s)
trim-ended c s kept = elim (Option-cases (strip_suffix (c ∷ s) (codes "\r"))) [
  | inl e ↦ rw e refl
  | inr (r, e) ↦
      ap (λ o. trim (unwrap_or o (c ∷ s))) e
      ∙ stripped r (strip_suffix_sound (c ∷ s) (codes "\r") r e)
]
  where
    stripped : (r : Text) → c ∷ s ≡ r ++ codes "\r" → trim r ≡ trim (c ∷ s)
    stripped [] e =
        let first : c ≡ 13 = ground arith in cc (ap is_whitespace first, white_return, kept)
    stripped (d ∷ r) e =
        let first : c ≡ d = ground arith in
        let kept' : is_whitespace d ≡ false = ap is_whitespace (sym first) ∙ kept in
        sym (ap trim e ∙ trim-snoc d r 13 kept' white_return)

-- A text that begins with no white space has text in its first line.
first_line-begins :
    (c : ℕ) (s : Text) → is_whitespace c ≡ false → first_line (c ∷ s) ≡ c ∷ first_line s
first_line-begins c s kept = elim (Bool-cases (c == 10)) [
  | inl feed ↦ let e : c ≡ 10 = ground arith in cc (ap is_whitespace e, white_feed, kept)
  | inr other ↦ rw other refl
]

has_text : (c : ℕ) (s : Text) → is_whitespace c ≡ false → is_empty (trim (c ∷ s)) ≡ false
has_text c s kept = is_empty-trim (c ∷ s) ∙ rw kept refl

find_first :
    (first : Text) (ls : List Text) (content : Text)
    → is_empty first ≡ false
    → unwrap_or (find (λ line. not (is_empty line)) (first ∷ ls)) content ≡ first
find_first first ls content filled = rw filled refl

first_of_lines :
    (c : ℕ) (s : Text) (ps : List Text) (content : Text)
    → is_whitespace c ≡ false
    → unwrap_or (find (λ line. not (is_empty line)) (map trim (ended_lines ((c ∷ s) ∷ ps)))) content
      ≡ trim (c ∷ s)
unfolding ended_lines
first_of_lines c s [] content kept = find_first (trim (c ∷ s)) [] content (has_text c s kept)
first_of_lines c s (q ∷ ps) content kept =
    let same = trim-ended c s kept in
    find_first _ (map trim (ended_lines (q ∷ ps))) content (ap is_empty same ∙ has_text c s kept)
    ∙ same

reference_line_lem :
    (c : ℕ) (s : Text)
    → is_whitespace c ≡ false
    → reference_line (c ∷ s) ≡ trim (first_line (c ∷ s))
unfolding reference_line lines
reference_line_lem c s kept =
    let (ps, e) = split-first_line (c ∷ s) in
    let begins = first_line-begins c s kept in
    rw (e, begins) (first_of_lines c (first_line s) ps (c ∷ s) kept)

reference_of_content :
    (input : Text)
    → is_empty (content_of input) ≡ false
    → reference_line (content_of input) ≡ trim (first_line (content_of input))
reference_of_content input filled = elim (trim-begins (trim_start_by (λ c. c == 0xFEFF) input)) [
  | inl e ↦ cc
  | inr (c, t, e, kept) ↦
      ap reference_line e ∙ reference_line_lem c t kept ∙ ap (λ s. trim (first_line s)) (sym e)
]

angle_stays : is_whitespace b'<' ≡ false
unfolding is_whitespace
angle_stays = refl

has_angle : (input : Text) → contains_char (content_of input) b'<' ≡ contains_char input b'<'
has_angle input =
    contains_char-trim b'<' (trim_start_by (λ c. c == 0xFEFF) input) angle_stays
    ∙ contains_char-trim_start (λ c. c == 0xFEFF) b'<' input refl

-- Nothing but white space behind the byte order marks.
abbrev pub IsBlank : Text → Type 0
IsBlank input = all is_whitespace (trim_start_by (λ c. c == 0xFEFF) input) ≡ true

-- A sidecar gives the error for an empty file exactly if there is nothing but white space behind its
-- byte order marks, and a bare reference exactly if it has text but no <; the reference is then the
-- first line of the text, without white space around it.
pub parse_nfo_plain :
    (xml : Xml) (input line : Text)
    → ((parse_nfo xml input ≡ err empty) ↔ IsBlank input)
      × ((parse_nfo xml input ≡ ok (reference line)) ↔ (
          ¬ IsBlank input
          × (contains_char input b'<' ≡ false)
          × (line ≡ trim (first_line (content_of input)))))
unfolding parse_nfo
parse_nfo_plain xml input line =
    let result = parse_xml xml (sanitize_entities (content_of input)) in
    let from_xml = xml-IsFromXml xml (sanitize_entities (content_of input)) in
    let (blank, bare) =
      plain_cases (is_empty (content_of input)) (contains_char (content_of input) b'<') result
        (reference_line (content_of input)) line (not_empty_of_xml result from_xml)
        (not_reference_of_xml result line from_xml) in
    let is_blank = is_empty-trim (trim_start_by (λ c. c == 0xFEFF) input) in
    let angle = has_angle input in
    (
      (λ e. sym is_blank ∙ blank.0 e, λ e. blank.1 (is_blank ∙ e)),
      (
        λ e.
            let (filled, tagless, is_line) = bare.0 e in
            (
              λ b. cc (is_blank ∙ b, filled),
              sym angle ∙ tagless,
              is_line ∙ reference_of_content input filled,
            ),
        λ (n, tagless, is_line). elim (Bool-cases (is_empty (content_of input))) [
          | inl e ↦ absurd (n (sym is_blank ∙ e))
          | inr filled ↦
              bare.1 (filled, angle ∙ tagless, is_line ∙ sym (reference_of_content input filled))
        ],
      ),
    )
