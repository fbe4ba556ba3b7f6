-- ===== src/Routes/Listing.antt =====
-- crates/server/src/routes/browse.rs: how the videos of a directory become the entries of a listing.
use loku.Base.{
  Bool, true, false, not, ◌||◌, ◌&&◌, leb, ltb, Option, none, some, List, [], ◌∷◌, ◌++◌,
  if◌then◌else◌, map, keep, find, fold, filter_map, map_option, unwrap_or, or, length,
}
use loku.Base.Text.{Text, codes, text_eq, is_empty}
use loku.Base.Order.{text_le, sort}
use loku.Library.{Library, LibraryKind}
use loku.Rip.{display_title}
use loku.Index.Record.{VideoRecord}
use loku.Index.Reads.{BrowseData}
use loku.Media.Worker.{ActiveDerivation}
use loku.Routes.{VideoItem, from_record}

pub record DirEntry : Type 0 where
  pub name : Text
  pub path : Text

pub record DiscSetEntry : Type 0 where
  pub disc_set : Text
  pub display_title : Text
  pub main : VideoItem
  pub titles : List VideoItem

pub data Entry : Type 0 where
  directory : DirEntry → Entry
  video : VideoItem → Entry
  disc_set : DiscSetEntry → Entry

unfoldable pub sort_name : Entry → Text
sort_name (directory dir) = dir.name
sort_name (video item) = item.name
sort_name (disc_set set) = set.display_title

-- A group of a BTreeMap, which is ordered by the sets' names.
pub record Group : Type 0 where
  pub set : Text
  pub records : List VideoRecord

-- `sets.entry(set).or_default().push(record)`
unfoldable pub push_record : Text → VideoRecord → List Group → List Group
push_record set r [] = record { set = set; records = r ∷ [] } ∷ []
push_record set r (g ∷ groups) =
    let rest = push_record set r groups in
    if text_eq set g.set
    then record g { records = g.records ++ r ∷ [] } ∷ groups
    else if text_le set g.set
    then record { set = set; records = r ∷ [] } ∷ g ∷ groups
    else g ∷ rest

-- The set that a video is grouped under, in a library of discs only.
abbrev pub group_of : LibraryKind → VideoRecord → Option Text
group_of LibraryKind.discs r = r.disc_set
group_of LibraryKind.downloads r = none

abbrev pub grouped :
    LibraryKind → List Group × List VideoRecord → VideoRecord → List Group × List VideoRecord
grouped kind (sets, singles) r = elim (group_of kind r) [
  | some set ↦ (push_record set r sets, singles)
  | none ↦ (sets, singles ++ r ∷ [])
]

unfoldable pub disc_set_groups : LibraryKind → List VideoRecord → List Group × List VideoRecord
disc_set_groups kind videos = fold (grouped kind) ([], []) videos

-- `max_by_key`: of equal sizes the last.
unfoldable pub largest : VideoRecord → List VideoRecord → VideoRecord
largest r [] = r
largest r (s ∷ rest) =
    let smaller = largest r rest in
    let larger = largest s rest in if leb r.size s.size then larger else smaller

unfoldable pub max_by_size : List VideoRecord → Option VideoRecord
max_by_size [] = none
max_by_size (r ∷ rest) = some (largest r rest)

-- The order of Option<i64>, with none in front, and then that of the paths.
unfoldable pub title_le : VideoRecord → VideoRecord → Bool
title_le a b = elim a.disc_title_index [
  | none ↦ elim b.disc_title_index [ none ↦ text_le a.rel_path b.rel_path | some j ↦ true ]
  | some i ↦ elim b.disc_title_index [
    | none ↦ false
    | some j ↦ ltb i j || (leb i j && text_le a.rel_path b.rel_path)
  ]
]

abbrev pub first {ℓ} : {A : Type ℓ} → List A → Option A
first [] = none
first (x ∷ xs) = some x

-- The operator's pick for a set. The table has one at most.
abbrev pub override_of : Text → List (Text × Text) → Option Text
override_of set overrides =
    map_option (λ (o : Text × Text). o.1) (find (λ (o : Text × Text). text_eq o.0 set) overrides)

unfoldable pub main_rel : Text → List VideoRecord → List (Text × Text) → Text
main_rel set_name records overrides =
    unwrap_or
      (or (override_of set_name overrides)
        (map_option (λ (r : VideoRecord). r.rel_path) (max_by_size records)))
      []

abbrev pub titles_of : List VideoRecord → Option ActiveDerivation → List VideoItem
titles_of records active = map (λ r. from_record r active) (sort title_le records)

-- The main title, or the first one where there is no such title.
abbrev pub main_of : Text → List VideoItem → Option VideoItem
main_of path titles = or (find (λ (item : VideoItem). text_eq item.path path) titles) (first titles)

abbrev pub set_entry : Text → List VideoItem → VideoItem → Entry
set_entry set_name titles main = disc_set (record {
  disc_set = set_name;
  display_title = unwrap_or main.title (display_title set_name);
  main = main;
  titles = titles;
})

unfoldable pub disc_set_entry :
    Text → List VideoRecord → List (Text × Text) → Option ActiveDerivation → Option Entry
disc_set_entry set_name records overrides active =
    let titles = titles_of records active in
    map_option (set_entry set_name titles) (main_of (main_rel set_name records overrides) titles)

unfoldable pub child_rel_path : Text → Text → Text
child_rel_path rel_path name = if is_empty rel_path then name else rel_path ++ (codes "/" ++ name)

unfoldable pub directory_entries : Text → List Text → List Entry
directory_entries rel_path subdirectories =
    map (λ name. directory (record { name = name; path = child_rel_path rel_path name }))
      subdirectories

abbrev pub is_multi : Group → Bool
is_multi g = ltb 1 (length g.records)

-- `into_values().flatten()`
abbrev pub all_records : List Group → List VideoRecord
all_records [] = []
all_records (g ∷ groups) = g.records ++ all_records groups

-- The videos and disc sets, before they are sorted.
unfoldable pub listed_items :
    List Group × List VideoRecord → List (Text × Text) → Option ActiveDerivation → List Entry
listed_items (sets, singles) overrides active =
    filter_map (λ (g : Group). disc_set_entry g.set g.records overrides active) (keep is_multi sets)
    ++ map (λ r. video (from_record r active))
        (singles ++ all_records (keep (λ g. not (is_multi g)) sets))

unfoldable pub assemble_entries : Library → Text → BrowseData → Option ActiveDerivation → List Entry
assemble_entries library rel_path listing active =
    directory_entries rel_path listing.subdirectories
    ++ sort (λ a b. text_le (sort_name a) (sort_name b))
        (listed_items (disc_set_groups library.kind listing.videos) listing.overrides active)
