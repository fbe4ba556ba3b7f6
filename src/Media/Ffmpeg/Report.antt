-- ===== src/Media/Ffmpeg/Report.antt =====
-- What the probe result takes from ffprobe's report, and what is kept of ffmpeg's error output.
use loku.Base.{
  ℕ, suc, ◌≤◌, ◌-◌, ◌==◌, false, Option, none, some, unwrap_or, if◌then◌else◌, length-append, ap,
  List, [], ◌∷◌, ◌++◌, ◌≡◌, refl, arith, length, min, All, ◌∙◌, Bool-cases, inl, inr,
}
use loku.Base.Text.{Text, codes}
use loku.Media.Ffmpeg.{
  FfprobeStream, is_real_video, has_type, probe_result_from, nth_back, tail, tail_chars,
}
use loku.Index.Record.{F64}

skip_one :
    (parse_f64 : Text → Option F64) (p : FfprobeStream) (streams : List FfprobeStream)
    (duration : Option (Option Text))
    → is_real_video p ≡ false
    → has_type (codes "audio") p ≡ false
    → probe_result_from parse_f64 (record { streams = p ∷ streams; duration = duration })
      ≡ probe_result_from parse_f64 (record { streams = streams; duration = duration })
unfolding probe_result_from
skip_one parse_f64 p streams duration video audio = rw (video, audio)

-- Attached pictures change nothing: with the streams that are neither real video nor audio taken
-- out from in front, the result is the same.
pub probe_skips_pictures :
    (parse_f64 : Text → Option F64) (pictures streams : List FfprobeStream)
    (duration : Option (Option Text))
    → All (λ s. (is_real_video s ≡ false) × (has_type (codes "audio") s ≡ false)) pictures
    → probe_result_from parse_f64 (record { streams = pictures ++ streams; duration = duration })
      ≡ probe_result_from parse_f64 (record { streams = streams; duration = duration })
probe_skips_pictures parse_f64 [] streams duration h = refl
probe_skips_pictures parse_f64 (p ∷ ps) streams duration h =
    skip_one parse_f64 p (ps ++ streams) duration h.0.0 h.0.1
    ∙ probe_skips_pictures parse_f64 ps streams duration h.1

-- What `nth_back` finds: nothing in a text of at most `n` characters, or an end of `n + 1`.
abbrev Found : ℕ → Text → Option Text → Type 0
Found n s none = length s ≤ n
Found n s (some end) = (front : Text) × (s ≡ front ++ end) × (length end ≡ suc n)

nth_back-Found : (n : ℕ) (s : Text) → Found n s (nth_back n s)
unfolding nth_back
nth_back-Found n [] = omega arith
nth_back-Found n (c ∷ s) = go (nth_back n s) (nth_back-Found n s)
  where
    go :
        (o : Option Text)
        → Found n s o
        → Found n
            (c ∷ s)
            (elim o [ some end ↦ some end | none ↦ if length s == n then some (c ∷ s) else none ])
    go (some end) (front, e, size) = (c ∷ front, ap (◌∷◌ c) e, size)
    go none short = elim (Bool-cases (length s == n)) [
      | inl here ↦ rw here ([], refl, ground arith)
      | inr other ↦ rw other (ground (arith, short))
    ]

end_lem :
    (n : ℕ) (s : Text) (o : Option Text)
    → Found n s o
    → (front : Text) × (s ≡ front ++ unwrap_or o s)
      × (length (unwrap_or o s) ≡ min (suc n) (length s))
end_lem n s none short = ([], refl, omega (arith, short))
end_lem n s (some end) (front, e, size) =
    (front, e, omega (arith, size, ap length e, length-append front end))

-- The tail of an error output is its end, as long as the output but at most 500 characters.
pub tail_lem :
    (text : Text)
    → (front : Text) × (text ≡ front ++ tail text)
      × (length (tail text) ≡ min tail_chars (length text))
unfolding tail
tail_lem text = end_lem (tail_chars - 1) text _ (nth_back-Found (tail_chars - 1) text)
