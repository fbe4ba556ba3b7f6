-- ===== src/Index/Writes/Sweep.antt =====
-- What the deletions of a sweep and of a vanished tree take from the videos table.
use loku.Base.{
  ℕ, Bool, true, false, ◌&&◌, ◌||◌, none, some, [], ◌∷◌, ◌++◌, ◌≡◌, ◌==◌, refl, arith, ap, ◌∙◌,
  append_assoc,
}
use loku.Base.Text.{
  Text, codes, text_eq, text_eq_iff, starts_with, to_ascii_lowercase, ascii_lower,
  starts_with-append,
}
use mathlib.Core.Path.{fun_ext}
use loku.Base.Int.{ℤ}
use loku.Index.Table.{Key, lookup, unless, IsUnique, lookup-delete, delete-IsUnique}
use loku.Index.Record.{Row, row_key}
use loku.Index.Database.{Database}
use loku.Index.Like.{
  Like, tree_pattern, prefix_pattern, escape_like, escape_like-append, replace_char,
  like-prefix_pattern,
}
use loku.Index.Writes.{predates, in_tree, remove_unseen_tx, remove_tree_tx}

-- After the sweep a row is left unless it is of the library and its stamp predates the generation.
pub lookup-remove_unseen :
    (library : Text) (generation : ℤ) (db : Database) (k : Key)
    → IsUnique row_key db.videos
    → lookup row_key k (remove_unseen_tx library generation db).1.videos
      ≡ unless row_key (predates library generation) (lookup row_key k db.videos)
unfolding remove_unseen_tx
lookup-remove_unseen library generation db k u = lookup-delete row_key _ k db.videos u

tree_pattern_lem : (dir : Text) → tree_pattern dir ≡ prefix_pattern (dir ++ codes "/")
tree_pattern_lem dir =
    rw (escape_like-append dir (codes "/"))
      (rw append_assoc (unfold escape_like replace_char in refl))

-- A row of the directory, or of a directory whose path begins, in either ASCII case, with the
-- directory and a slash.
abbrev pub in_tree_ci : Text → Text → Row → Bool
in_tree_ci library dir_rel row =
    text_eq row.library library
    && (text_eq row.parent dir_rel
        || starts_with (to_ascii_lowercase row.parent) (to_ascii_lowercase (dir_rel ++ codes "/")))

-- `remove_tree` takes the rows whose parent is the directory, or begins, in either ASCII case, with
-- the directory and a slash, and no other row.
pub lookup-remove_tree :
    (l : Like) (library dir_rel : Text) (db : Database) (k : Key)
    → IsUnique row_key db.videos
    → lookup row_key k (remove_tree_tx l library dir_rel db).1.videos
      ≡ unless row_key (in_tree_ci library dir_rel) (lookup row_key k db.videos)
unfolding remove_tree_tx
lookup-remove_tree l library dir_rel db k u =
    lookup-delete row_key (in_tree l library dir_rel) k db.videos u
    ∙ ap (λ p. unless row_key p (lookup row_key k db.videos))
        (fun_ext λ row.
          rw (tree_pattern_lem dir_rel, like-prefix_pattern l (dir_rel ++ codes "/") row.parent))

pub remove_tree-IsUnique :
    (l : Like) (library dir_rel : Text) (db : Database)
    → IsUnique row_key db.videos
    → IsUnique row_key (remove_tree_tx l library dir_rel db).1.videos
unfolding remove_tree_tx
remove_tree-IsUnique l library dir_rel db u =
    delete-IsUnique row_key (in_tree l library dir_rel) db.videos u

lower-append :
    (s t : Text) → to_ascii_lowercase (s ++ t) ≡ to_ascii_lowercase s ++ to_ascii_lowercase t
lower-append [] t = refl
lower-append (c ∷ s) t = ap (◌∷◌ (ascii_lower c)) (lower-append s t)

same_fold :
    (dir other rest : Text)
    → to_ascii_lowercase other ≡ to_ascii_lowercase dir
    → starts_with
        (to_ascii_lowercase ((other ++ codes "/") ++ rest))
        (to_ascii_lowercase (dir ++ codes "/"))
      ≡ true
same_fold dir other rest e =
    rw
      (
        lower-append (other ++ codes "/") rest,
        lower-append other (codes "/"),
        lower-append dir (codes "/"),
        e,
      )
      (starts_with-append _ _)

-- `remove_tree` of a directory also takes the rows below every other directory whose path
-- differs from it in ASCII case alone.
pub remove_tree_other_case :
    (l : Like) (library dir other rest : Text) (db : Database) (row : Row)
    → IsUnique row_key db.videos
    → to_ascii_lowercase other ≡ to_ascii_lowercase dir
    → row.library ≡ library
    → row.parent ≡ (other ++ codes "/") ++ rest
    → lookup row_key (row_key row) db.videos ≡ some row
    → lookup row_key (row_key row) (remove_tree_tx l library dir db).1.videos ≡ none
remove_tree_other_case l library dir other rest db row u fold in_library below present =
    lookup-remove_tree l library dir db (row_key row) u
    ∙ rw present (
        ground (
          arith,
          text_eq_iff row.library library,
          ap to_ascii_lowercase below,
          same_fold dir other rest fold,
        ))

root_prefix :
    (c : ℕ) (p : Text)
    → (c == b'/') ≡ false
    → starts_with (to_ascii_lowercase (c ∷ p)) (to_ascii_lowercase ([] ++ codes "/")) ≡ false
unfolding starts_with ascii_lower
root_prefix c p h = ground arith

-- `remove_tree` of the library's root, whose path is empty, leaves the rows of all directories
-- below it, whose parents are relative paths without a slash in front.
pub remove_tree_root :
    (l : Like) (library : Text) (c : ℕ) (p : Text) (db : Database) (row : Row)
    → IsUnique row_key db.videos
    → row.parent ≡ c ∷ p
    → (c == b'/') ≡ false
    → lookup row_key (row_key row) db.videos ≡ some row
    → lookup row_key (row_key row) (remove_tree_tx l library [] db).1.videos ≡ some row
remove_tree_root l library c p db row u below relative present =
    lookup-remove_tree l library [] db (row_key row) u
    ∙ rw present (
        ground
          (arith, text_eq_iff row.parent [], ap to_ascii_lowercase below, root_prefix c p relative))
