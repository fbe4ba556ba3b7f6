-- ===== src/Tests/Names.antt =====
-- The theorems on file names and on numbers in texts, at the names a ripper writes.
use loku.Base.{◌≡◌, ◌⊎◌, inr, refl}
use loku.Base.Text.{codes, split, join, is_whitespace}
use loku.Base.Text.Words.{words}
use loku.Rip.{parse_rip_name, title_separator, display_title}
use loku.Rip.Names.{parse_rip_name_cases, IsIndexed, IsSingleton}
use loku.Rip.Display.{breaks, IsTidy, words-display_title}

parse_rip_name_cases_example :
    IsIndexed (codes "DUNE_title_t07") (parse_rip_name (codes "DUNE_title_t07.mkv"))
    ⊎ IsSingleton (codes "DUNE_title_t07") (parse_rip_name (codes "DUNE_title_t07.mkv"))
parse_rip_name_cases_example =
    parse_rip_name_cases (codes "DUNE_title_t07.mkv") (codes "DUNE_title_t07")
      (inr (codes "mkv", refl, refl))

words-display_title_example :
    (words breaks (display_title (codes "BLADE__RUNNER")) ≡ words breaks (codes "BLADE__RUNNER"))
    × IsTidy (display_title (codes "BLADE__RUNNER"))
words-display_title_example = words-display_title (codes "BLADE__RUNNER")

display_title_test : display_title (codes "BLADE__RUNNER_") ≡ codes "BLADE RUNNER"
unfolding display_title split title_separator join is_whitespace
display_title_test = refl
