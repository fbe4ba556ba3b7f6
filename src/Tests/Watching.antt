-- ===== src/Tests/Watching.antt =====
-- The theorems on the watcher, at events below one library.
use loku.Base.{
  false, ◌↔◌, ℕ, ◌+◌, Option, none, some, List, [], ◌∷◌, ◌≡◌, refl, any, map_option, All,
}
use loku.Base.Text.{codes}
use loku.Base.Member.{Has}
use loku.Watch.Events.{IsTouched, dirty_directories_iff}
use loku.Watch.{
  Event, dirty_directories, Dirty, dirty_eq, prune_nested, debounce_new, debounce_take,
}
use loku.Watch.Prune.{IsCovered, IsApart, prune_nested_lem}
use loku.Watch.Gather.{record_all, last_time, IsOnce, take-record_all}
use loku.Watch.Flush.{Root, flush, below_dirty, lookup-flush_vanished}
use loku.Index.Table.{lookup, unless}
use loku.Index.Record.{row_key}
use loku.Tests.Fixtures.{discs, film_row, two_videos, connection}
use loku.Tests.Passes.{connection-IsReliable, two_keys-IsUnique}
use loku.Tests.Matcher.{sqlite}
use loku.Tests.Scans.{scanner}

abbrev shows : Dirty
shows = record { library_index = 0; dir = codes "srv" ∷ codes "shows" ∷ [] }

abbrev season : Dirty
season = record { library_index = 0; dir = codes "srv" ∷ codes "shows" ∷ codes "s1" ∷ [] }

prune_nested_lem_example :
    All (λ k. Has k (season ∷ shows ∷ [])) (prune_nested (season ∷ shows ∷ []))
    × ((d : Dirty) → Has d (season ∷ shows ∷ []) → IsCovered (prune_nested (season ∷ shows ∷ [])) d)
    × IsApart (prune_nested (season ∷ shows ∷ []))
prune_nested_lem_example = prune_nested_lem (season ∷ shows ∷ [])

prune_test : prune_nested (season ∷ shows ∷ []) ≡ shows ∷ []
unfolding prune_nested loku.Watch.prune_behind loku.Watch.dedup_dirty loku.Base.Order.sort
    loku.Watch.dirty_le loku.Watch.path_le loku.Base.Text.text_eq loku.Watch.dedup_behind dirty_eq
    loku.Base.Paths.path_eq loku.Watch.covers loku.Base.Paths.path_starts_with
prune_test = refl

take-record_all_example :
    ((record_all (debounce_new 2) ((season, 10) ∷ (season, 11) ∷ [])).deadline
      ≡ map_option (λ now. now + 2) (last_time ((season, 10) ∷ (season, 11) ∷ [])))
    × ((k : Dirty)
        → any
            (dirty_eq k)
            (debounce_take (record_all (debounce_new 2) ((season, 10) ∷ (season, 11) ∷ []))).0
          ≡ any (λ (f : Dirty × ℕ). dirty_eq k f.0) ((season, 10) ∷ (season, 11) ∷ []))
    × IsOnce (debounce_take (record_all (debounce_new 2) ((season, 10) ∷ (season, 11) ∷ []))).0
    × ((debounce_take (record_all (debounce_new 2) ((season, 10) ∷ (season, 11) ∷ []))).1
        ≡ debounce_new 2)
take-record_all_example = take-record_all 2 (season, 10) ((season, 11) ∷ [])

-- A file of the season is written.
abbrev written : Event
written = record {
  is_access = false;
  paths = (codes "srv" ∷ codes "shows" ∷ codes "s1" ∷ codes "a.mkv" ∷ []) ∷ [];
}

dirty_directories_iff_example :
    Has season (dirty_directories written ((codes "srv" ∷ []) ∷ (codes "srv" ∷ []) ∷ []))
    ↔ IsTouched written ((codes "srv" ∷ []) ∷ (codes "srv" ∷ []) ∷ []) season
dirty_directories_iff_example =
    dirty_directories_iff written ((codes "srv" ∷ []) ∷ (codes "srv" ∷ []) ∷ []) season

-- A directory of the library that is no longer there.
abbrev lost_dir : Dirty
lost_dir = record { library_index = 0; dir = codes "srv" ∷ codes "lost" ∷ [] }

abbrev watched : List Root
watched = record { library = discs; root = codes "srv" ∷ [] } ∷ []

lookup-flush_vanished_example :
    lookup row_key
      (row_key film_row)
      (flush scanner sqlite watched (lost_dir ∷ []) connection).db.videos
    ≡ unless row_key
        (λ row. any (λ d. below_dirty watched d row) (prune_nested (lost_dir ∷ [])))
        (lookup row_key (row_key film_row) two_videos.videos)
unfolding loku.Base.Paths.path_eq loku.Base.Text.text_eq
lookup-flush_vanished_example =
    lookup-flush_vanished scanner sqlite watched (lost_dir ∷ []) connection (row_key film_row)
      connection-IsReliable two_keys-IsUnique (refl, tt)
