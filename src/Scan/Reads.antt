-- ===== src/Scan/Reads.antt =====
-- The records that are read of one directory below the root: which files they are of.
use loku.Base.{
  Bool, Option, none, some, List, [], ◌∷◌, ◌++◌, ◌≡◌, ◌≢◌, refl, sym, ap, ◌∙◌, arith, All,
  All-append, map, filter_map, and_then-eq-some, unwrap_or, length, ◌==◌, append_assoc,
}
use loku.Base.Every.{All-imp, All-keep, All-map, AreDistinct, AreDistinct-keep, AreDistinct-map}
use loku.Base.Text.{Text}
use loku.Base.Paths.{FilePath, parent, file_name, file_stem, child, relative_text, absolute_text}
use loku.Base.Paths.Texts.{
  IsName, parent_text, parent_text-child, parent-child, file_name-child, strip_prefix_below,
  relative_text_injective,
}
use loku.Library.{Library}
use loku.Index.Table.{Key, key_eq_iff, lookup, IsUnique}
use loku.Index.Record.{VideoRecord, record_key}
use loku.Scan.Records.{
  Scanner, relative_of, record_of, build_record, video_paths, collect_directory,
}
use loku.Scan.Steps.{IsStep}

-- A directory's readable entries have names, no two the same.
abbrev pub IsListed : Option (List (Option Text)) → Type 0
IsListed none = Unit
IsListed (some entries) =
    All IsName (filter_map (λ entry. entry) entries)
    × AreDistinct (filter_map (λ entry. entry) entries)

pub relative_of_below : (root rel : FilePath) → relative_of (root ++ rel) root ≡ relative_text rel
unfolding relative_of
relative_of_below root rel =
    ap (λ o. elim o [ none ↦ absolute_text (root ++ rel) | some r ↦ relative_text r ])
      (strip_prefix_below root rel)

pub child-injective : (dir : FilePath) (a b : Text) → child dir a ≡ child dir b → a ≡ b
child-injective dir a b e =
    ap (λ o. unwrap_or o a) (sym (file_name-child dir a) ∙ ap file_name e ∙ file_name-child dir b)

-- A record has its place from its path.
abbrev pub IsAt : Library → FilePath → FilePath → VideoRecord → Type 0
IsAt library root path r =
    (r.library ≡ library.name)
    × (r.rel_path ≡ relative_of path root)
    × (r.parent ≡ relative_of (unwrap_or (parent path) []) root)

pub build_record-IsAt :
    (scanner : Scanner) (library : Library) (root path : FilePath) (allow : Bool) (r : VideoRecord)
    → build_record scanner library root path allow ≡ some r
    → IsAt library root path r
unfolding build_record record_of
build_record-IsAt scanner library root path allow r h =
    let (metadata, _, h1) = and_then-eq-some (scanner.disk.metadata path) _ r h in
    let (name, _, h2) = and_then-eq-some (file_name path) _ r h1 in
    let (stem, _, h3) = and_then-eq-some (file_stem path) _ r h2 in ground arith

module _ (scanner : Scanner) (library : Library) (root rel : FilePath)
    (names : All IsName rel) where
  abbrev pub IsEntry : FilePath → Type 0
  IsEntry path = (n : Text) × IsName n × (path ≡ child (root ++ rel) n)

  child_below : (n : Text) → child (root ++ rel) n ≡ root ++ child rel n
  child_below n = append_assoc root rel (n ∷ [])

  pub relative_of_entry :
      (n : Text) → relative_of (child (root ++ rel) n) root ≡ relative_text (child rel n)
  relative_of_entry n = rw (child_below n) (relative_of_below root (child rel n))

  parent_of_entry :
      (n : Text)
      → relative_of (unwrap_or (parent (child (root ++ rel) n)) []) root ≡ relative_text rel
  parent_of_entry n = rw (parent-child (root ++ rel) n) (relative_of_below root rel)

  pub entries_apart :
      (p q : FilePath) → IsEntry p → IsEntry q → relative_of p root ≡ relative_of q root → p ≡ q
  entries_apart p q (m, hm, ep) (n, hn, eq) e =
      let same =
        relative_text_injective (child rel m) (child rel n)
          (All-append IsName rel (m ∷ []) names (hm, tt))
          (All-append IsName rel (n ∷ []) names (hn, tt))
          (sym (relative_of_entry m)
            ∙ ap (λ x. relative_of x root) (sym ep)
            ∙ e
            ∙ ap (λ x. relative_of x root) eq
            ∙ relative_of_entry n) in
      ep ∙ child_below m ∙ ap (λ x. root ++ x) same ∙ sym (child_below n) ∙ sym eq

  module _ (allow : Bool) where
    abbrev pub built : List FilePath → List VideoRecord
    built = filter_map (λ path. build_record scanner library root path allow)

    -- What a record of an entry says of its place.
    abbrev IsPlaced : VideoRecord → Type 0
    IsPlaced r =
        ((r.library ≡ library.name) × (r.parent ≡ relative_text rel))
        × (r.parent ≡ parent_text r.rel_path)

    entry-IsPlaced :
        (path : FilePath) (r : VideoRecord)
        → IsEntry path
        → build_record scanner library root path allow ≡ some r
        → IsPlaced r
    entry-IsPlaced path r (n, hn, e) h =
        let (in_library, at, above) = build_record-IsAt scanner library root path allow r h in
        let parent_is =
          above ∙ ap (λ x. relative_of (unwrap_or (parent x) []) root) e ∙ parent_of_entry n in
        let path_is = at ∙ ap (λ x. relative_of x root) e ∙ relative_of_entry n in
        (
          (in_library, parent_is),
          parent_is ∙ sym (parent_text-child rel n hn) ∙ ap parent_text (sym path_is),
        )

    built-AreFrom : (paths : List FilePath) → All IsEntry paths → All IsPlaced (built paths)
    built-AreFrom [] h = tt
    built-AreFrom (path ∷ paths) (h, hs) =
        go (build_record scanner library root path allow) refl (built-AreFrom paths hs)
      where
        go :
            (o : Option VideoRecord)
            → build_record scanner library root path allow ≡ o
            → All IsPlaced (built paths)
            → All IsPlaced (elim o [ none ↦ built paths | some r ↦ r ∷ built paths ])
        go none e rest = rest
        go (some r) e rest = (entry-IsPlaced path r h e, rest)

    pub lookup-built :
        (k : Key) (paths : List FilePath)
        → All (λ path. relative_of path root ≢ k.name) paths
        → lookup record_key k (built paths) ≡ none
    unfolding lookup
    lookup-built k [] h = refl
    lookup-built k (path ∷ paths) (h, hs) =
        go (build_record scanner library root path allow) refl (lookup-built k paths hs)
      where
        go :
            (o : Option VideoRecord)
            → build_record scanner library root path allow ≡ o
            → lookup record_key k (built paths) ≡ none
            → lookup record_key k (elim o [ none ↦ built paths | some r ↦ r ∷ built paths ]) ≡ none
        go none e rest = rest
        go (some r) e rest = ground (
          arith,
          key_eq_iff (record_key r) k,
          build_record-IsAt scanner library root path allow r e,
        )

    built-IsUnique :
        (paths : List FilePath)
        → All IsEntry paths
        → AreDistinct paths
        → IsUnique record_key (built paths)
    built-IsUnique [] h d = tt
    built-IsUnique (path ∷ paths) (h, hs) (apart, d) =
        go (build_record scanner library root path allow) refl (built-IsUnique paths hs d)
          (λ r at. lookup-built (record_key r) paths (others paths hs apart r at))
      where
        others :
            (qs : List FilePath)
            → All IsEntry qs
            → All (λ q. path ≢ q) qs
            → (r : VideoRecord) → r.rel_path ≡ relative_of path root
            → All (λ q. relative_of q root ≢ r.rel_path) qs
        others [] es ds r at = tt
        others (q ∷ qs) (e, es) (n, ds) r at =
            (λ same. n (entries_apart path q h e (sym at ∙ sym same)), others qs es ds r at)

        go :
            (o : Option VideoRecord)
            → build_record scanner library root path allow ≡ o
            → IsUnique record_key (built paths)
            → ((r : VideoRecord)
                → r.rel_path ≡ relative_of path root
                → lookup record_key (record_key r) (built paths) ≡ none)
            → IsUnique record_key (elim o [ none ↦ built paths | some r ↦ r ∷ built paths ])
        go none e rest new = rest
        go (some r) e rest new =
            let (_, at, _) = build_record-IsAt scanner library root path allow r e in
            (new r at, rest)

  entries-IsEntry : (ns : List Text) → All IsName ns → All IsEntry (map (child (root ++ rel)) ns)
  entries-IsEntry ns h =
      All-map IsEntry (child (root ++ rel)) ns (All-imp IsName _ (λ n hn. (n, hn, refl)) ns h)

  paths-IsEntry :
      (entries : List (Option Text))
      → IsListed (some entries)
      → All IsEntry (video_paths scanner (root ++ rel) entries)
        × AreDistinct (video_paths scanner (root ++ rel) entries)
  unfolding video_paths
  paths-IsEntry entries (h, d) =
      let ns = filter_map (λ entry. entry) entries in
      (
        All-imp _ IsEntry (λ p (e, _). e) _ (All-keep IsEntry _ _ (entries-IsEntry ns h)),
        AreDistinct-keep _ _ (
            AreDistinct-map (child (root ++ rel)) IsName
              (λ a b _ _ e. child-injective (root ++ rel) a b e) ns h d),
      )

  -- What is read of a directory of the library is a step of a scan.
  pub collect_directory-IsStep :
      IsListed (scanner.disk.read_dir (root ++ rel))
      → IsStep library.name (record {
        parent = relative_of (root ++ rel) root;
        records = collect_directory scanner library root (root ++ rel);
      })
  unfolding collect_directory
  collect_directory-IsStep listed = go (scanner.disk.read_dir (root ++ rel)) listed
    where
      go :
          (o : Option (List (Option Text)))
          → IsListed o
          → IsStep library.name (record {
            parent = relative_of (root ++ rel) root;
            records = elim o [
              | none ↦ []
              | some entries ↦
                  let paths = video_paths scanner (root ++ rel) entries in
                  let allow_folder_nfo = length paths == 1 in
                  filter_map (λ path. build_record scanner library root path allow_folder_nfo) paths
            ];
          })
      go none l = (tt, tt, tt)
      go (some entries) l =
          let paths = video_paths scanner (root ++ rel) entries in
          let allow = length paths == 1 in
          let (es, d) = paths-IsEntry entries l in
          let placed = built-AreFrom allow paths es in
          (
            All-imp _ _ (λ r (from, _). (from.0, from.1 ∙ sym (relative_of_below root rel))) _
                placed,
            built-IsUnique allow paths es d,
            All-imp _ _ (λ r (_, at). at) _ placed,
          )
