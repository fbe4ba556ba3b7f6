-- ===== src/Scan/Finds.antt =====
-- The scanner finds the sidecars that the worker has made, at the paths that the worker records.
use loku.Base.{
  true, false, Option, none, some, List, [], ◌∷◌, ◌++◌, ◌≡◌, refl, sym, ap, ◌∙◌, arith, unwrap_or,
  append_assoc, find_map, Bool-cases, ◌⊎◌,
}
use loku.Base.Text.{Text, codes, text_eq_refl, join}
use loku.Base.Text.Rsplit.{rsplit_lacks}
use loku.Base.Paths.{FilePath, file_name, file_stem, child, relative_text, sidecar_path, path_eq}
use loku.Base.Paths.Texts.{
  IsName, parent-child, file_name-child, strip_prefix_below, join-snoc, rsplit-relative, slashless,
}
use loku.Base.Disk.{Disk}
use loku.Media.Sidecars.{served, find_compat, find_thumbnail}
use loku.Media.Compat.{CompatPlan}
use loku.Media.Ffmpeg.{DeriveError}
use loku.Media.Worker.{
  Runner, done, derive_compat, extract_thumbnail, finalize, renamed, sibling_paths, sibling_rel,
  file_name_of,
}
use loku.Media.Worker.Disk.{Files, exists, rename}
use loku.Index.Record.{F64}

-- The sibling's path is that of a child of the same directory.
sibling_rel-child :
    (rel : FilePath) (name sibling : Text)
    → IsName name
    → sibling_rel (relative_text (child rel name)) sibling ≡ relative_text (child rel sibling)
unfolding sibling_rel join
sibling_rel-child [] name sibling h =
    ap (λ o. elim o [ none ↦ sibling | some (dir, _) ↦ dir ++ (codes "/" ++ sibling) ])
      (rsplit_lacks b'/' [] name (slashless name h.0))
sibling_rel-child (p ∷ ps) name sibling h =
    ap (λ o. elim o [ none ↦ sibling | some (dir, _) ↦ dir ++ (codes "/" ++ sibling) ])
      (rsplit-relative p name ps h)
    ∙ sym (join-snoc p sibling ps)

path_eq_refl : (p : FilePath) → path_eq p p ≡ true
unfolding path_eq
path_eq_refl [] = refl
path_eq_refl (c ∷ p) = rw (text_eq_refl c) (path_eq_refl p)

-- Where moving into place ends well, the file is there, and its name is the outcome.
finalize-done :
    (runner : Runner) (part dest : FilePath) (made : Option DeriveError × Files) (n : Text)
    (files : Files)
    → finalize runner part dest made ≡ (done n, files)
    → (n ≡ file_name_of dest) × (exists dest files ≡ true)
unfolding finalize rename exists
finalize-done runner part dest (some error, made) n files h = cc
finalize-done runner part dest (none, made) n files h =
    go (runner.rename_refused part dest) (Bool-cases (exists part made)) h
  where
    go :
        (refused : Option Text)
        → (exists part made ≡ true) ⊎ (exists part made ≡ false)
        → renamed dest (rename refused part dest made) ≡ (done n, files)
        → (n ≡ file_name_of dest) × (exists dest files ≡ true)
    go (some reason) there e = cc
    go none there e = ground (arith, path_eq_refl dest)

module _ (disk : Disk) (files : Files) (root rel : FilePath) (name suffix : Text) where
  abbrev source : FilePath
  source = child (root ++ rel) name

  abbrev stem : Text
  stem = unwrap_or (file_stem source) []

  dest_is : (sibling_paths source suffix).1 ≡ child (root ++ rel) (stem ++ suffix)
  unfolding sibling_paths sidecar_path
  dest_is = rw (parent-child (root ++ rel) name) refl

  served_dest :
      (n : Text)
      → ((p : FilePath) → disk.exists p ≡ exists p files)
      → IsName name
      → n ≡ file_name_of (sibling_paths source suffix).1
      → exists (sibling_paths source suffix).1 files ≡ true
      → served disk root (sidecar_path (root ++ rel) stem suffix)
        ≡ some (sibling_rel (relative_text (child rel name)) n)
  unfolding served sidecar_path file_name_of
  served_dest n same named name_is there =
      let dest = child (root ++ rel) (stem ++ suffix) in
      let n_is : n ≡ stem ++ suffix =
        name_is
        ∙ ap (λ p. unwrap_or (file_name p) []) dest_is
        ∙ ap (λ o. unwrap_or o []) (file_name-child (root ++ rel) (stem ++ suffix)) in
      rw
        (
          same dest ∙ sym (ap (λ p. exists p files) dest_is) ∙ there,
          append_assoc root rel ((stem ++ suffix) ∷ []),
          strip_prefix_below root (child rel (stem ++ suffix)),
          sibling_rel-child rel name n named,
          n_is,
        )
        refl

find_map-first :
    {A B : Type 0} (f : A → Option B) (x : A) (xs : List A) (y : B)
    → f x ≡ some y
    → find_map f (x ∷ xs) ≡ some y
find_map-first f x xs y h = ground arith

-- Where the worker ends well with the compat copy of a video below the root, the scanner, over the
-- files that the worker leaves, finds a compat copy of the video, at the path that the worker
-- records.
pub find_compat-derive_compat :
    (runner : Runner) (disk : Disk) (plan : CompatPlan) (before files : Files) (root rel : FilePath)
    (name n : Text)
    → IsName name
    → ((p : FilePath) → disk.exists p ≡ exists p files)
    → derive_compat runner (child (root ++ rel) name) plan before ≡ (done n, files)
    → find_compat disk (root ++ rel) (unwrap_or (file_stem (child (root ++ rel) name)) []) root
      ≡ some (sibling_rel (relative_text (child rel name)) n)
unfolding derive_compat find_compat
find_compat-derive_compat runner disk plan before files root rel name n named same h =
    let (name_is, there) = finalize-done runner _ _ _ n files h in
    served_dest disk files root rel name (codes ".compat.mp4") n same named name_is there

-- Where the worker ends well with the thumbnail of a video below the root, the scanner then finds a
-- thumbnail of the video, at the path that the worker records.
pub find_thumbnail-extract_thumbnail :
    (runner : Runner) (disk : Disk) (at : Option F64) (before files : Files) (root rel : FilePath)
    (name n : Text)
    → IsName name
    → ((p : FilePath) → disk.exists p ≡ exists p files)
    → extract_thumbnail runner (child (root ++ rel) name) at before ≡ (done n, files)
    → find_thumbnail disk (root ++ rel) (unwrap_or (file_stem (child (root ++ rel) name)) []) root
      ≡ some (sibling_rel (relative_text (child rel name)) n)
unfolding extract_thumbnail find_thumbnail
find_thumbnail-extract_thumbnail runner disk at before files root rel name n named same h =
    let (name_is, there) = finalize-done runner _ _ _ n files h in
    find_map-first
      (λ ext. served disk root (
        sidecar_path (root ++ rel) (unwrap_or (file_stem (child (root ++ rel) name)) [])
          (codes "." ++ ext)))
      (codes "jpg") (codes "webp" ∷ codes "png" ∷ []) _
      (served_dest disk files root rel name (codes ".jpg") n same named name_is there)
