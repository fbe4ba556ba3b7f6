-- ===== src/Routes/Shown.antt =====
-- That a listing shows every video of its directory once.
use loku.Base.{
  ◌+◌, ◌<◌, Bool, not, Option, none, some, List, [], ◌∷◌, ◌++◌, ◌≡◌, refl, sym, ap, ◌∙◌, arith,
  keep, map, filter_map, fold, length, map_option, or, find, Bool-cases, inl, inr,
}
use loku.Base.Count.{count, count-append, count-map, count-sort, length-sort, length-map}
use loku.Base.Text.{Text, text_eq}
use loku.Base.Order.{insert, sort, text_le}
use loku.Library.{Library}
use loku.Index.Record.{VideoRecord}
use loku.Index.Reads.{BrowseData}
use loku.Media.Worker.{ActiveDerivation}
use loku.Routes.{VideoItem, from_record}
use loku.Routes.Listing.{
  Entry, directory, video, disc_set, Group, grouped, disc_set_groups, all_records, is_multi,
  title_le, titles_of, main_of, main_rel, first, set_entry, disc_set_entry, directory_entries,
  listed_items, assemble_entries, sort_name,
}
use loku.Routes.Groups.{in_groups, count-fold, count-split}

-- The videos that an entry shows.
abbrev pub videos_of : Entry → List VideoItem
videos_of (directory dir) = []
videos_of (video item) = item ∷ []
videos_of (disc_set set) = set.titles

abbrev pub shown : List Entry → List VideoItem
shown [] = []
shown (e ∷ es) = videos_of e ++ shown es

module _ (p : VideoItem → Bool) where
  shown-append :
      (xs ys : List Entry) → count p (shown (xs ++ ys)) ≡ count p (shown xs) + count p (shown ys)
  shown-append [] ys = omega arith
  shown-append (x ∷ xs) ys = omega (
    arith,
    count-append p (videos_of x) (shown (xs ++ ys)),
    count-append p (videos_of x) (shown xs),
    shown-append xs ys,
  )

  shown-insert :
      (le : Entry → Entry → Bool) (a : Entry) (xs : List Entry)
      → count p (shown (insert le a xs)) ≡ count p (videos_of a) + count p (shown xs)
  unfolding insert
  shown-insert le a [] = count-append p (videos_of a) []
  shown-insert le a (x ∷ xs) = elim (Bool-cases (le a x)) [
    | inl e ↦ rw e (count-append p (videos_of a) (shown (x ∷ xs)))
    | inr e ↦ rw e (
        omega (
          arith,
          count-append p (videos_of x) (shown (insert le a xs)),
          count-append p (videos_of x) (shown xs),
          shown-insert le a xs,
        ))
  ]

  shown-sort :
      (le : Entry → Entry → Bool) (xs : List Entry)
      → count p (shown (sort le xs)) ≡ count p (shown xs)
  unfolding sort
  shown-sort le [] = refl
  shown-sort le (x ∷ xs) =
      shown-insert le x (sort le xs)
      ∙ omega (arith, shown-sort le xs, count-append p (videos_of x) (shown xs))

  shown-directories :
      (rel_path : Text) (names : List Text) → count p (shown (directory_entries rel_path names)) ≡ 0
  unfolding directory_entries
  shown-directories rel_path [] = refl
  shown-directories rel_path (n ∷ names) = shown-directories rel_path names

first_or :
    (o : Option VideoItem) (x : VideoItem) (xs : List VideoItem)
    → (m : VideoItem) × (or o (first (x ∷ xs)) ≡ some m)
first_or none x xs = (x, refl)
first_or (some m) x xs = (m, refl)

main_of-some :
    (path : Text) (titles : List VideoItem)
    → 0 < length titles
    → (m : VideoItem) × (main_of path titles ≡ some m)
main_of-some path [] h = absurd (omega (arith, h))
main_of-some path (x ∷ xs) h =
    first_or (find (λ (i : VideoItem). text_eq i.path path) (x ∷ xs)) x xs

-- A set that has videos has an entry, with all its titles and one of them in front.
pub disc_set_entry-some :
    (set : Text) (records : List VideoRecord) (overrides : List (Text × Text))
    (active : Option ActiveDerivation)
    → 0 < length records
    → (m : VideoItem) × (main_of (main_rel set records overrides) (titles_of records active)
        ≡ some m)
      × (disc_set_entry set records overrides active
          ≡ some (set_entry set (titles_of records active) m))
unfolding disc_set_entry
disc_set_entry-some set records overrides active h =
    let size =
      length-map (λ r. from_record r active) (sort title_le records)
      ∙ length-sort title_le records in
    let (m, e) =
      main_of-some (main_rel set records overrides) (titles_of records active)
        (omega (arith, size, h)) in
    (m, e, ap (map_option (set_entry set (titles_of records active))) e)

filter_map-some :
    {A B : Type 0} (f : A → Option B) (x : A) (xs : List A) (y : B)
    → f x ≡ some y
    → filter_map f (x ∷ xs) ≡ y ∷ filter_map f xs
filter_map-some f x xs y h = ground arith

module _ (p : VideoItem → Bool) (active : Option ActiveDerivation)
    (overrides : List (Text × Text)) where
  abbrev of_record : VideoRecord → Bool
  of_record r = p (from_record r active)

  abbrev entry_of : Group → Option Entry
  entry_of g = disc_set_entry g.set g.records overrides active

  count-titles :
      (records : List VideoRecord) → count p (titles_of records active) ≡ count of_record records
  count-titles records =
      count-map p (λ r. from_record r active) (sort title_le records)
      ∙ count-sort of_record title_le records

  shown-one :
      (g : Group) (groups : List Group)
      → 0 < length g.records
      → count p (shown (filter_map entry_of (g ∷ groups)))
        ≡ count of_record g.records + count p (shown (filter_map entry_of groups))
  shown-one g groups h =
      let (m, _, e) = disc_set_entry-some g.set g.records overrides active h in
      ap (λ es. count p (shown es)) (filter_map-some entry_of g groups _ e)
      ∙ (count-append p (titles_of g.records active) (shown (filter_map entry_of groups))
          ∙ ap (λ n. n + count p (shown (filter_map entry_of groups))) (count-titles g.records))

  shown-sets :
      (groups : List Group)
      → count p (shown (filter_map entry_of (keep is_multi groups)))
        ≡ count of_record (all_records (keep is_multi groups))
  shown-sets [] = refl
  shown-sets (g ∷ groups) = elim (Bool-cases (is_multi g)) [
    | inl e ↦ rw e (
        shown-one g (keep is_multi groups) (ground arith)
        ∙ ap (λ n. count of_record g.records + n) (shown-sets groups)
        ∙ sym (count-append of_record g.records (all_records (keep is_multi groups))))
    | inr e ↦ rw e (shown-sets groups)
  ]

  shown-videos :
      (records : List VideoRecord)
      → count p (shown (map (λ r. video (from_record r active)) records)) ≡ count of_record records
  shown-videos [] = refl
  shown-videos (r ∷ records) = ground (arith, shown-videos records)

  shown-items :
      (sets : List Group) (singles : List VideoRecord)
      → count p (shown (listed_items (sets, singles) overrides active))
        ≡ in_groups of_record (sets, singles)
  unfolding listed_items
  shown-items sets singles = omega (
    arith,
    shown-append p (filter_map entry_of (keep is_multi sets)) (
        map (λ r. video (from_record r active))
          (singles ++ all_records (keep (λ g. not (is_multi g)) sets))),
    shown-sets sets,
    shown-videos (singles ++ all_records (keep (λ g. not (is_multi g)) sets)),
    count-append of_record singles (all_records (keep (λ g. not (is_multi g)) sets)),
    count-split of_record sets,
  )

-- A listing shows the videos of its directory, each once, as a video or as a title of a disc set,
-- and no others: of the videos that pass any test, it shows as many as there are.
pub count-assemble_entries :
    (p : VideoItem → Bool) (l : Library) (rel_path : Text) (found : BrowseData)
    (active : Option ActiveDerivation)
    → count p (shown (assemble_entries l rel_path found active))
      ≡ count p (map (λ r. from_record r active) found.videos)
unfolding assemble_entries disc_set_groups
count-assemble_entries p l rel_path found active =
    let groups = fold (grouped l.kind) ([], []) found.videos in
    let items = listed_items groups found.overrides active in
    omega (
      arith,
      shown-append p (directory_entries rel_path found.subdirectories)
          (sort (λ a b. text_le (sort_name a) (sort_name b)) items),
      shown-directories p rel_path found.subdirectories,
      shown-sort p (λ a b. text_le (sort_name a) (sort_name b)) items,
      shown-items p active found.overrides groups.0 groups.1,
      count-fold (λ r. p (from_record r active)) l.kind found.videos ([], []),
      count-map p (λ r. from_record r active) found.videos,
    )
