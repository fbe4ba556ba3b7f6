-- ===== src/Media/Compat/Playable.antt =====
-- Which streams every supported browser plays, read off the names, and that the planner's tests
-- decide it.
use loku.Base.{
  ℕ, ◌<◌, Bool, true, false, ◌==◌, Option, none, some, List, [], ◌∷◌, ◌++◌, ◌≡◌, ◌↔◌, ◌⊎◌, inl, inr,
  refl, sym, ap, ◌∙◌, arith, if◌then◌else◌, Bool-cases, is_some_and, is_none_or, and_then,
}
use loku.Base.Text.{
  Text, codes, text_eq, text_eq_iff, split, to_ascii_lowercase, onto_first, ascii_lower,
}
use loku.Base.Text.Parts.{starts_with_iff, HasPart, contains_iff}
use loku.Media.Compat.{
  CompatInputs, is_h264, is_aac, first_two_bytes, nth_1, unsafe_profile_hex, rfc_profile_is_unsafe,
  lowered_profile_is_safe, profile_is_browser_safe, video_safe, audio_safe,
}

-- A name for H.264: ffprobe's, or one of RFC 6381 that begins with avc1 or avc3.
abbrev pub NamesH264 : Text → Type 0
NamesH264 vcodec =
    (vcodec ≡ codes "h264")
    ⊎ ((vcodec ≡ codes "avc")
        ⊎ (((rest : Text) × (vcodec ≡ codes "avc1" ++ rest))
            ⊎ ((rest : Text) × (vcodec ≡ codes "avc3" ++ rest))))

-- A name for AAC.
abbrev pub NamesAac : Text → Type 0
NamesAac acodec = (acodec ≡ codes "aac") ⊎ ((rest : Text) × (acodec ≡ codes "mp4a" ++ rest))

-- What is behind the first dot.
abbrev pub behind_dot : Text → Option Text
behind_dot [] = none
behind_dot (c ∷ s) = if c == b'.' then some s else behind_dot s

-- The profile that an RFC 6381 name spells in two hexadecimal digits behind its first dot is one
-- of the high profiles with more than 8 bits or 4:2:0: 6e, 7a or f4.
pub record NamesHighProfile (vcodec : Text) : Type 0 where
  pub first : ℕ
  pub second : ℕ
  pub rest : Text
  pub behind : behind_dot vcodec ≡ some (first ∷ second ∷ rest)
  pub high :
      (to_ascii_lowercase (first ∷ second ∷ []) ≡ codes "6e")
      ⊎ ((to_ascii_lowercase (first ∷ second ∷ []) ≡ codes "7a")
          ⊎ (to_ascii_lowercase (first ∷ second ∷ []) ≡ codes "f4"))

-- A profile that mentions ten bits or 4:2:2.
abbrev pub MentionsDepth : Text → Type 0
MentionsDepth profile =
    HasPart (to_ascii_lowercase profile) (codes "10")
    ⊎ HasPart (to_ascii_lowercase profile) (codes "4:2:2")

-- A video stream that every supported browser plays: H.264, with no profile that is too high by
-- its name or by ffprobe.
pub record PlaysVideo (vcodec : Text) (vprofile : Option Text) : Type 0 where
  pub h264 : NamesH264 vcodec
  pub rfc : NamesHighProfile vcodec → ⊥
  pub profile : (p : Text) → vprofile ≡ some p → MentionsDepth p → ⊥

-- No sound, or AAC.
abbrev pub PlaysSound : Option Text → Type 0
PlaysSound acodec = (acodec ≡ none) ⊎ ((name : Text) × (acodec ≡ some name) × NamesAac name)

is_h264_iff : (v : Text) → (is_h264 v ≡ true) ↔ NamesH264 v
unfolding is_h264
is_h264_iff v = ground (
  arith,
  text_eq_iff v (codes "h264"),
  text_eq_iff v (codes "avc"),
  starts_with_iff v (codes "avc1"),
  starts_with_iff v (codes "avc3"),
)

is_aac_iff : (a : Text) → (is_aac a ≡ true) ↔ NamesAac a
unfolding is_aac
is_aac_iff a = ground (arith, text_eq_iff a (codes "aac"), starts_with_iff a (codes "mp4a"))

lowered_iff : (p : Text) → (lowered_profile_is_safe p ≡ false) ↔ MentionsDepth p
unfolding lowered_profile_is_safe
lowered_iff p = ground (
  arith,
  contains_iff (to_ascii_lowercase p) (codes "10"),
  contains_iff (to_ascii_lowercase p) (codes "4:2:2"),
)

-- The first of the parts.
abbrev first_part : List Text → Option Text
first_part [] = none
first_part (p ∷ ps) = some p

abbrev dot : ℕ → Bool
dot c = c == b'.'

abbrev unsafe_part : Option Text → Bool
unsafe_part part = is_some_and (and_then part first_two_bytes) unsafe_profile_hex

-- The two digits that a text begins with.
abbrev begins_unsafe : Text → Bool
begins_unsafe [] = false
begins_unsafe (a ∷ []) = false
begins_unsafe (a ∷ b ∷ s) = unsafe_profile_hex (a ∷ b ∷ [])

hex_none : unsafe_profile_hex [] ≡ false
unfolding unsafe_profile_hex text_eq
hex_none = refl

hex_one : (a : ℕ) → unsafe_profile_hex (a ∷ []) ≡ false
unfolding unsafe_profile_hex text_eq
hex_one a = ground arith

split-filled : (s : Text) → (p : Text) × (ps : List Text) × (split dot s ≡ p ∷ ps)
split-filled [] = ([], [], unfold split in refl)
split-filled (c ∷ s) = let (p, ps, e) = split-filled s in go p ps e
  where
    go :
        (p : Text) (ps : List Text)
        → split dot s ≡ p ∷ ps
        → (p' : Text) × (ps' : List Text) × (split dot (c ∷ s) ≡ p' ∷ ps')
    go p ps e = elim (Bool-cases (dot c)) [
      | inl here ↦ ([], split dot s, unfold split in rw here refl)
      | inr other ↦ (c ∷ p, ps, unfold split in rw (other, e) refl)
    ]

-- The digits of an unsafe profile are ASCII and no dots.
hex_digits :
    (a b : ℕ)
    → unsafe_profile_hex (a ∷ b ∷ []) ≡ true
    → (a < 128) × (b < 128) × (dot a ≡ false) × (dot b ≡ false)
unfolding unsafe_profile_hex text_eq ascii_lower
hex_digits a b h = ground arith

not_unsafe : (a b : ℕ) → (dot a ≡ true) ⊎ (dot b ≡ true) → unsafe_profile_hex (a ∷ b ∷ []) ≡ false
not_unsafe a b h = ground (arith, hex_digits a b)

first_bytes_lem :
    (a b : ℕ) (q : Text) → unsafe_part (some (a ∷ b ∷ q)) ≡ unsafe_profile_hex (a ∷ b ∷ [])
unfolding first_two_bytes
first_bytes_lem a b [] = ground (arith, hex_digits a b, hex_one a)
first_bytes_lem a b (c ∷ q) = ground (arith, hex_digits a b, hex_one a)

first_byte_lem : (a : ℕ) → unsafe_part (some (a ∷ [])) ≡ false
unfolding first_two_bytes
first_byte_lem a = ground (arith, hex_one a)

-- The first part of a split begins like the text, as far as the digits of a profile go.
first_part_lem : (s : Text) → unsafe_part (first_part (split dot s)) ≡ begins_unsafe s
unfolding split
first_part_lem [] = unfold first_two_bytes in refl
first_part_lem (a ∷ []) = elim (Bool-cases (dot a)) [
  | inl here ↦ unfold first_two_bytes in rw here refl
  | inr other ↦ rw other (first_byte_lem a)
]
first_part_lem (a ∷ b ∷ s) = elim (Bool-cases (dot a)) [
  | inl here ↦ unfold first_two_bytes in rw here (sym (not_unsafe a b (inl here)))
  | inr other ↦ elim (Bool-cases (dot b)) [
    | inl here ↦ rw (other, here) (first_byte_lem a ∙ sym (not_unsafe a b (inr here)))
    | inr other' ↦ let (p, ps, e) = split-filled s in rw (other, other', e) (first_bytes_lem a b p)
  ]
]

at_dot : (c : ℕ) (s : Text) → dot c ≡ true → nth_1 (split dot (c ∷ s)) ≡ first_part (split dot s)
unfolding split
at_dot c s here = let (p, ps, e) = split-filled s in rw (here, e) refl

before_dot : (c : ℕ) (s : Text) → dot c ≡ false → nth_1 (split dot (c ∷ s)) ≡ nth_1 (split dot s)
unfolding split
before_dot c s other = let (p, ps, e) = split-filled s in go p ps e
  where
    go :
        (p : Text) (ps : List Text)
        → split dot s ≡ p ∷ ps
        → nth_1 (if dot c then [] ∷ split dot s else onto_first c (split dot s))
          ≡ nth_1 (split dot s)
    go p [] e = rw (other, e) refl
    go p (q ∷ ps) e = rw (other, e) refl

-- The second part of a split begins like what is behind the first dot.
second_part_lem :
    (s : Text) → unsafe_part (nth_1 (split dot s)) ≡ is_some_and (behind_dot s) begins_unsafe
second_part_lem [] = unfold split in refl
second_part_lem (c ∷ s) = elim (Bool-cases (dot c)) [
  | inl here ↦ ap unsafe_part (at_dot c s here) ∙ first_part_lem s ∙ rw here refl
  | inr other ↦ ap unsafe_part (before_dot c s other) ∙ second_part_lem s ∙ rw other refl
]

-- Two digits of a high profile.
abbrev IsHigh : Text → Type 0
IsHigh digits =
    (to_ascii_lowercase digits ≡ codes "6e")
    ⊎ ((to_ascii_lowercase digits ≡ codes "7a") ⊎ (to_ascii_lowercase digits ≡ codes "f4"))

hex_iff : (digits : Text) → (unsafe_profile_hex digits ≡ true) ↔ IsHigh digits
unfolding unsafe_profile_hex
hex_iff digits = ground (
  arith,
  text_eq_iff (to_ascii_lowercase digits) (codes "6e"),
  text_eq_iff (to_ascii_lowercase digits) (codes "7a"),
  text_eq_iff (to_ascii_lowercase digits) (codes "f4"),
)

NamesHighProfile-of_behind :
    (v : Text) (o : Option Text)
    → behind_dot v ≡ o
    → is_some_and o begins_unsafe ≡ true
    → NamesHighProfile v
NamesHighProfile-of_behind v none e h = cc
NamesHighProfile-of_behind v (some []) e h = cc
NamesHighProfile-of_behind v (some (a ∷ [])) e h = cc
NamesHighProfile-of_behind v (some (a ∷ b ∷ s)) e h = record {
  first = a;
  second = b;
  rest = s;
  behind = e;
  high = (hex_iff (a ∷ b ∷ [])).0 h;
}

rfc_iff : (v : Text) → (rfc_profile_is_unsafe v ≡ true) ↔ NamesHighProfile v
unfolding rfc_profile_is_unsafe
rfc_iff v = (
  λ h. NamesHighProfile-of_behind v (behind_dot v) refl (sym (second_part_lem v) ∙ h),
  λ (n : NamesHighProfile v).
      second_part_lem v
      ∙ ap (λ o. is_some_and o begins_unsafe) n.behind
      ∙ (hex_iff (n.first ∷ n.second ∷ [])).1 n.high,
)

profile_iff :
    (o : Option Text)
    → (profile_is_browser_safe o ≡ true) ↔ ((p : Text) → o ≡ some p → MentionsDepth p → ⊥)
unfolding profile_is_browser_safe
profile_iff none = (λ h p e. cc, λ h. refl)
profile_iff (some p) = (
  λ h q e m. absurd (ground (arith, (lowered_iff q).1 m)),
  λ h. elim (Bool-cases (lowered_profile_is_safe p)) [
    | inl safe ↦ safe
    | inr deep ↦ absurd (h p refl ((lowered_iff p).0 deep))
  ],
)

-- The planner's test of the video stream.
pub video_safe_iff :
    (i : CompatInputs) (v : Text) → (video_safe i v ≡ true) ↔ PlaysVideo v i.vprofile
unfolding video_safe
video_safe_iff i v = (
  λ h. record {
    h264 = (is_h264_iff v).0 (ground arith);
    rfc = λ n. absurd (ground (arith, (rfc_iff v).1 n, h));
    profile = (profile_iff i.vprofile).0 (ground arith);
  },
  λ (p : PlaysVideo v i.vprofile). elim (Bool-cases (rfc_profile_is_unsafe v)) [
    | inl high ↦ absurd (p.rfc ((rfc_iff v).0 high))
    | inr low ↦ ground (arith, (is_h264_iff v).1 p.h264, low, (profile_iff i.vprofile).1 p.profile)
  ],
)

-- The planner's test of the sound.
pub audio_safe_iff : (i : CompatInputs) → (audio_safe i ≡ true) ↔ PlaysSound i.acodec
unfolding audio_safe
audio_safe_iff i = go i.acodec
  where
    go : (o : Option Text) → (is_none_or o is_aac ≡ true) ↔ PlaysSound o
    go none = (λ h. inl refl, λ h. refl)
    go (some a) = (
      λ h. inr (a, refl, (is_aac_iff a).0 h),
      λ h. elim h [ inl e ↦ cc | inr (name, e, aac) ↦ ground (arith, e, (is_aac_iff name).1 aac) ],
    )
