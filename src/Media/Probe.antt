-- ===== src/Media/Probe.antt =====
-- crates/server/src/media/probe.rs: the pass that fills codec facts from the cache or ffprobe.
pub mod Pass
use loku.Base.{ℕ, ◌+◌, Option, none, some, List, [], ◌∷◌, find}
use loku.Base.Text.{Text, text_eq}
use loku.Base.Paths.{FilePath, join_text}
use loku.Library.{Library}
use loku.Index.Record.{ProbeCandidate, ProbeResult}
use loku.Index.Database.{Index, Result, ok, err}
use loku.Index.Writes.{record_probe}
use loku.Index.Reads.{cached_probe, videos_needing_probe}
use loku.Media.Ffmpeg.{ProbeError, is_definitive, no_facts}
use loku.Base.{if◌then◌else◌}

-- What the runner answers for a file.
pub data ProbeAnswer : Type 0 where
  found : ProbeResult → ProbeAnswer
  failed : ProbeError → ProbeAnswer

abbrev pub library_of : List Library → ProbeCandidate → Option Library
library_of libraries c = find (λ l. text_eq l.name c.library) libraries

abbrev pub gained : Result (Unit {0}) × Index → ℕ × Index
gained (ok u, index) = (1, index)
gained (err e, index) = (0, index)

unfoldable pub recorded : ProbeCandidate → ProbeResult → Index → ℕ × Index
recorded c probe index = gained (record_probe c probe index)

-- A definitive failure records an empty result, and counts for nothing.
unfoldable pub answered : ProbeCandidate → ProbeAnswer → Index → ℕ × Index
answered c (found result) index = recorded c result index
answered c (failed error) index =
    if is_definitive error then (0, (recorded c no_facts index).1) else (0, index)

unfoldable pub from_cache :
    ProbeCandidate → ProbeAnswer → Result (Option ProbeResult) × Index → ℕ × Index
from_cache c answer (ok (some probe), index) = recorded c probe index
from_cache c answer (ok none, index) = answered c answer index
from_cache c answer (err e, index) = (0, index)

module _ (libraries : List Library) (runner : FilePath → ProbeAnswer) where
  unfoldable pub probe_candidate : ProbeCandidate → Index → ℕ × Index
  probe_candidate c index = elim (library_of libraries c) [
    | none ↦ (0, index)
    | some library ↦
        from_cache c (runner (join_text library.path c.rel_path)) (cached_probe c index)
  ]

  unfoldable pub probe_all : List ProbeCandidate → Index → ℕ × Index
  probe_all [] index = (0, index)
  probe_all (c ∷ cs) index =
      let (gain, index') = probe_candidate c index in
      let (rest, final) = probe_all cs index' in (gain + rest, final)

  abbrev pub probe_listed : Result (List ProbeCandidate) × Index → ℕ × Index
  probe_listed (ok cs, index) = probe_all cs index
  probe_listed (err e, index) = (0, index)

  unfoldable pub probe_pending : Index → ℕ × Index
  probe_pending index = probe_listed (videos_needing_probe index)
