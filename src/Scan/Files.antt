-- ===== src/Scan/Files.antt =====
-- What the scanner finds on the disk, file by file.
use loku.Base.{
  Bool, true, false, ◌&&◌, Option, none, some, List, [], ◌∷◌, ◌++◌, ◌≡◌, ◌≢◌, refl, sym, ap, ◌∙◌,
  arith, All, All-append, keep, map, filter_map, length, ◌==◌, if◌then◌else◌, inl, inr,
  Option-cases,
}
use mathlib.Core.Path.{subst, ap₂}
use loku.Base.Every.{All-imp, All-keep, All-map, AreDistinct}
use loku.Base.Member.{Has, Has-map}
use loku.Base.Text.{Text}
use loku.Base.Paths.{FilePath, child, relative_text}
use loku.Base.Paths.Texts.{IsName, parent_text, parent_text-child, relative_text_injective}
use loku.Library.{Library}
use loku.Index.Table.{Key, key_eq, key_eq_iff, lookup}
use loku.Index.Record.{VideoRecord, record_key}
use loku.Scan.Records.{
  Scanner, relative_of, build_record, is_master_video, video_paths, walk_directories,
  collect_directory,
}
use loku.Scan.Steps.{Step, AreSteps, seen, seen_here, seen_later, found-parent}
use loku.Scan.Refines.{seen_of_others}
use loku.Scan.Reads.{
  IsListed, child-injective, relative_of_below, relative_of_entry, build_record-IsAt, lookup-built,
}
use loku.Scan.Loop.{IsTree, steps_of, step_of, steps_of-AreSteps}
use loku.Scan.Whole.{on_disk, on_disk_lem}

Has-All : {A : Type 0} (P : A → Type 0) (a : A) (xs : List A) → All P xs → Has a xs → P a
Has-All P a [] h e = elim e [ ]
Has-All P a (x ∷ xs) (h, hs) (inl e) = subst P e h
Has-All P a (x ∷ xs) (h, hs) (inr e) = Has-All P a xs hs e

keep_first :
    {A : Type 0} (p : A → Bool) (x : A) (xs : List A) (b : Bool)
    → p x ≡ b
    → keep p (x ∷ xs) ≡ (if b then x ∷ keep p xs else keep p xs)
keep_first p x xs b e = ap (λ c. if c then x ∷ keep p xs else keep p xs) e

abbrev found_first {ℓ} : {A : Type ℓ} → Option A → List A → List A
found_first none xs = xs
found_first (some x) xs = x ∷ xs

filter_map_first :
    {A B : Type 0} (f : A → Option B) (x : A) (xs : List A) (o : Option B)
    → f x ≡ o
    → filter_map f (x ∷ xs) ≡ found_first o (filter_map f xs)
filter_map_first f x xs none e = ground arith
filter_map_first f x xs (some y) e = ground arith

-- The record of a key is that of the step whose directory the key's path names.
seen_of_step :
    (library : Text) (k : Key) (s : Step) (steps : List Step)
    → AreSteps library steps
    → Has s steps
    → s.parent ≡ parent_text k.name
    → seen k steps ≡ lookup record_key k s.records
unfolding seen
seen_of_step library k s [] h has at = elim has [ ]
seen_of_step library k s (t ∷ steps) (h, apart, hs) (inl e) at =
    let t_at = ap (λ (x : Step). x.parent) e ∙ at in
    let others =
      All-imp (λ (x : Step). t.parent ≢ x.parent) (λ (x : Step). x.parent ≢ parent_text k.name)
        (λ x n e'. n (t_at ∙ sym e')) steps apart in
    (elim (Option-cases (lookup record_key k t.records)) [
      | inl absent ↦
          seen_later k t steps absent ∙ seen_of_others library k steps hs others ∙ sym absent
      | inr (r, here) ↦ seen_here k t steps r here ∙ sym here
    ])
    ∙ ap (λ (x : Step). lookup record_key k x.records) e
seen_of_step library k s (t ∷ steps) (h, apart, hs) (inr has) at =
    let other = Has-All (λ (x : Step). t.parent ≢ x.parent) s steps apart has in
    elim (Option-cases (lookup record_key k t.records)) [
      | inl absent ↦ seen_later k t steps absent ∙ seen_of_step library k s steps hs has at
      | inr (r, here) ↦ absurd (other ((found-parent library t k r h here).0 ∙ sym at))
    ]

module _ (scanner : Scanner) (library : Library) (root rel : FilePath) (names : All IsName rel)
    (allow : Bool) (ok : FilePath → Bool) where
  abbrev build : FilePath → Option VideoRecord
  build path = build_record scanner library root path allow

  abbrev key_of : Text → Key
  key_of n = record { library = library.name; name = relative_text (child rel n) }

  abbrev records_of : List Text → List VideoRecord
  records_of ns = filter_map build (keep ok (map (child (root ++ rel)) ns))

  name_apart :
      (m n : Text)
      → IsName m
      → IsName n
      → m ≢ n
      → relative_of (child (root ++ rel) m) root ≢ relative_text (child rel n)
  name_apart m n hm hn other e =
      let same =
        relative_text_injective (child rel m) (child rel n)
          (All-append IsName rel (m ∷ []) names (hm, tt))
          (All-append IsName rel (n ∷ []) names (hn, tt))
          (sym (relative_of_entry scanner library root rel names m) ∙ e) in
      other (child-injective rel m n same)

  others_absent :
      (n : Text) (ns : List Text)
      → IsName n
      → All IsName ns
      → All (λ m. n ≢ m) ns
      → lookup record_key (key_of n) (records_of ns) ≡ none
  others_absent n ns hn hs apart =
      lookup-built scanner library root rel names allow (key_of n)
        (keep ok (map (child (root ++ rel)) ns))
        (All-imp _ _ (λ p (differs, _). differs) _
          (All-keep (λ p. relative_of p root ≢ relative_text (child rel n)) ok _
            (All-map (λ p. relative_of p root ≢ relative_text (child rel n)) (child (root ++ rel))
              ns (each ns hs apart))))
    where
      each :
          (ms : List Text)
          → All IsName ms
          → All (λ m. n ≢ m) ms
          → All (λ m. relative_of (child (root ++ rel) m) root ≢ relative_text (child rel n)) ms
      each [] h a = tt
      each (m ∷ ms) (h, hs') (a, as') = (name_apart m n h hn (λ e. a (sym e)), each ms hs' as')

  -- The records of some entries, by what the first of them gives.
  records_step :
      (m : Text) (ns : List Text) (o : Option VideoRecord) (b : Bool)
      → build (child (root ++ rel) m) ≡ o
      → ok (child (root ++ rel) m) ≡ b
      → records_of (m ∷ ns) ≡ found_first (if b then o else none) (records_of ns)
  records_step m ns o false e p =
      ap (filter_map build) (keep_first ok (child (root ++ rel) m) _ false p)
  records_step m ns o true e p =
      ap (filter_map build) (keep_first ok (child (root ++ rel) m) _ true p)
      ∙ filter_map_first build (child (root ++ rel) m) _ o e

  -- An entry whose record is not of the key.
  skipped :
      (k : Key) (m : Text) (ns : List Text) (o : Option VideoRecord) (b : Bool)
      → build (child (root ++ rel) m) ≡ o
      → ok (child (root ++ rel) m) ≡ b
      → relative_of (child (root ++ rel) m) root ≢ k.name
      → lookup record_key k (records_of (m ∷ ns)) ≡ lookup record_key k (records_of ns)
  unfolding lookup
  skipped k m ns o false e p differs = ap (lookup record_key k) (records_step m ns o false e p)
  skipped k m ns none true e p differs = ap (lookup record_key k) (records_step m ns none true e p)
  skipped k m ns (some r) true e p differs =
      ap (lookup record_key k) (records_step m ns (some r) true e p)
      ∙ ground (
        arith,
        key_eq_iff (record_key r) k,
        build_record-IsAt scanner library root (child (root ++ rel) m) allow r e,
      )

  -- The record of an entry, where no other one is of its key.
  taken :
      (n : Text) (ns : List Text) (o : Option VideoRecord) (b : Bool)
      → build (child (root ++ rel) n) ≡ o
      → ok (child (root ++ rel) n) ≡ b
      → lookup record_key (key_of n) (records_of ns) ≡ none
      → lookup record_key (key_of n) (records_of (n ∷ ns)) ≡ (if b then o else none)
  unfolding lookup
  taken n ns o false e p absent =
      ap (lookup record_key (key_of n)) (records_step n ns o false e p) ∙ absent
  taken n ns none true e p absent =
      ap (lookup record_key (key_of n)) (records_step n ns none true e p) ∙ absent
  taken n ns (some r) true e p absent =
      let (in_library, at, _) =
        build_record-IsAt scanner library root (child (root ++ rel) n) allow r e in
      let path_is = at ∙ relative_of_entry scanner library root rel names n in
      let key_is : key_eq (record_key r) (key_of n) ≡ true =
        (key_eq_iff (record_key r) (key_of n)).1
          (ap₂ (λ l x. record { library = l; name = x }) in_library path_is) in
      ap (lookup record_key (key_of n)) (records_step n ns (some r) true e p)
      ∙ ap (λ b. if b then some r else lookup record_key (key_of n) (records_of ns)) key_is

  lookup-records :
      (n : Text) (ns : List Text)
      → All IsName ns
      → AreDistinct ns
      → Has n ns
      → lookup record_key (key_of n) (records_of ns)
        ≡ (if ok (child (root ++ rel) n) then build (child (root ++ rel) n) else none)
  lookup-records n [] h d has = elim has [ ]
  lookup-records n (m ∷ ns) (h, hs) (apart, d) (inl e) =
      subst
        (λ x.
          lookup record_key (key_of x) (records_of (m ∷ ns))
          ≡ (if ok (child (root ++ rel) x) then build (child (root ++ rel) x) else none))
        e (taken m ns _ _ refl refl (others_absent m ns h hs apart))
  lookup-records n (m ∷ ns) (h, hs) (apart, d) (inr has) =
      let other = Has-All (λ y. m ≢ y) n ns apart has in
      skipped (key_of n) m ns _ _ refl refl (name_apart m n h (Has-All IsName n ns hs has) other)
      ∙ lookup-records n ns hs d has

-- The record on the disk of a file that its directory lists, where the walk reaches the directory,
-- is the one that is built from it, if it is a regular file, or a link to one, and a master video;
-- otherwise there is none. The folder's NFO counts if the video is the only one in its directory.
pub on_disk-file :
    (scanner : Scanner) (library : Library) (root rel : FilePath) (entries : List (Option Text))
    (n : Text)
    → scanner.disk.canonicalize library.path ≡ some root
    → IsTree scanner.disk root
    → All IsName rel
    → Has (root ++ rel) (walk_directories scanner.disk root)
    → scanner.disk.read_dir (root ++ rel) ≡ some entries
    → IsListed (some entries)
    → Has n (filter_map (λ entry. entry) entries)
    → on_disk scanner library
        (record { library = library.name; name = relative_text (child rel n) })
      ≡ (let path = child (root ++ rel) n in
          if scanner.disk.is_file path && is_master_video scanner path
          then build_record scanner library root path
              (length (video_paths scanner (root ++ rel) entries) == 1)
          else none)
unfolding collect_directory video_paths
on_disk-file scanner library root rel entries n at tree names reached read (listed, distinct) has =
    let k : Key = record { library = library.name; name = relative_text (child rel n) } in
    let dirs = walk_directories scanner.disk root in
    let ok = λ (path : FilePath). scanner.disk.is_file path && is_master_video scanner path in
    let allow = length (video_paths scanner (root ++ rel) entries) == 1 in
    on_disk_lem scanner library root k at
    ∙ seen_of_step library.name k (step_of scanner library root (root ++ rel))
        (steps_of scanner library root dirs)
        (steps_of-AreSteps scanner library root dirs tree.0 tree.1)
        (Has-map (step_of scanner library root) (root ++ rel) dirs reached)
        (relative_of_below root rel
          ∙ sym (
              parent_text-child rel n
                (Has-All IsName n (filter_map (λ entry. entry) entries) listed has)))
    ∙ ap (lookup record_key k) (collected read)
    ∙ lookup-records scanner library root rel names allow ok n (filter_map (λ entry. entry) entries)
        listed distinct has
  where
    collected :
        scanner.disk.read_dir (root ++ rel) ≡ some entries
        → collect_directory scanner library root (root ++ rel)
          ≡ filter_map
              (λ path.
                build_record scanner library root path
                  (length (video_paths scanner (root ++ rel) entries) == 1))
              (video_paths scanner (root ++ rel) entries)
    collected e = rw (collect_directory, e) refl
