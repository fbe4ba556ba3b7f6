-- ===== src/Index/Table.antt =====
-- SQL tables with a unique pair of text columns, in insertion order: the statements of
-- crates/server/src/index/store.rs as operations on the list of rows, and what they do to a lookup.
pub mod Order
use loku.Base.{
  ℕ, Bool, true, false, not, ◌&&◌, Option, none, some, List, [], ◌∷◌, ◌≡◌, ◌≢◌, ◌↔◌, refl, sym, ap,
  ◌∙◌, arith, if◌then◌else◌, keep, find, and_then, unwrap_or, Bool-cases, inl, inr, map_option,
}
use loku.Base.Text.{Text, text_eq, text_eq_iff}

-- The unique columns: the library, and the path, set or name within it.
pub record Key : Type 0 where
  pub library : Text
  pub name : Text

unfoldable pub key_eq : Key → Key → Bool
key_eq a b = text_eq a.library b.library && text_eq a.name b.name

pub key_eq_iff : (a b : Key) → (key_eq a b ≡ true) ↔ (a ≡ b)
unfolding key_eq
key_eq_iff a b = ground (arith, text_eq_iff a.library b.library, text_eq_iff a.name b.name)

pub key_eq_refl : (a : Key) → key_eq a a ≡ true
key_eq_refl a = (key_eq_iff a a).1 refl

module _ {R : Type 0} (key : R → Key) where
  -- SELECT … WHERE the key is `k`
  unfoldable pub lookup : Key → List R → Option R
  lookup k [] = none
  lookup k (r ∷ t) = if key_eq (key r) k then some r else lookup k t

  -- INSERT … ON CONFLICT DO UPDATE, where `merge` has the row in the table and the new one.
  unfoldable pub upsert : (R → R → R) → R → List R → List R
  upsert merge new [] = new ∷ []
  upsert merge new (r ∷ t) =
      if key_eq (key r) (key new) then merge r new ∷ t else r ∷ upsert merge new t

  -- DELETE … WHERE `p`
  unfoldable pub delete : (R → Bool) → List R → List R
  delete p [] = []
  delete p (r ∷ t) = let rest = delete p t in if p r then rest else r ∷ rest

  -- UPDATE … WHERE the key is `k`
  unfoldable pub update : (R → R) → Key → List R → List R
  update f k [] = []
  update f k (r ∷ t) = (if key_eq (key r) k then f r else r) ∷ update f k t

  -- No two rows have one key.
  abbrev pub IsUnique : List R → Type 0
  IsUnique [] = Unit
  IsUnique (r ∷ t) = (lookup (key r) t ≡ none) × IsUnique t

  pub key-lookup : (k : Key) (t : List R) (r : R) → lookup k t ≡ some r → key r ≡ k
  unfolding lookup
  key-lookup k [] r h = cc
  key-lookup k (s ∷ t) r h = ground (arith, key-lookup k t r, key_eq_iff (key s) k)

  -- What a conflict leaves in the table.
  abbrev pub merged : (R → R → R) → Option R → R → R
  merged merge none new = new
  merged merge (some old) new = merge old new

  module _ (merge : R → R → R)
      (same_key : (old new : R) → key old ≡ key new → key (merge old new) ≡ key old) where
    pub lookup-upsert :
        (k : Key) (new : R) (t : List R)
        → lookup k (upsert merge new t)
          ≡ (if key_eq (key new) k then some (merged merge (lookup k t) new) else lookup k t)
    unfolding lookup upsert
    lookup-upsert k new [] = refl
    lookup-upsert k new (r ∷ t) = ground (
      arith,
      lookup-upsert k new t,
      same_key r new,
      key_eq_iff (key r) (key new),
      key_eq_iff (key r) k,
      key_eq_iff (key new) k,
    )

    pub upsert-IsUnique : (new : R) (t : List R) → IsUnique t → IsUnique (upsert merge new t)
    unfolding lookup upsert
    upsert-IsUnique new [] u = (refl, tt)
    upsert-IsUnique new (r ∷ t) u = ground (
      arith,
      upsert-IsUnique new t,
      same_key r new,
      lookup-upsert (key r) new t,
      key_eq_iff (key r) (key new),
      key_eq_iff (key new) (key r),
    )

  lookup-delete-none :
      (p : R → Bool) (k : Key) (t : List R) → lookup k t ≡ none → lookup k (delete p t) ≡ none
  unfolding lookup delete
  lookup-delete-none p k [] h = refl
  lookup-delete-none p k (r ∷ t) h = ground (arith, lookup-delete-none p k t)

  -- The row of a key, unless the deletion takes it.
  abbrev pub unless : (R → Bool) → Option R → Option R
  unless p none = none
  unless p (some r) = if p r then none else some r

  pub lookup-delete :
      (p : R → Bool) (k : Key) (t : List R)
      → IsUnique t
      → lookup k (delete p t) ≡ unless p (lookup k t)
  unfolding lookup delete
  lookup-delete p k [] u = refl
  lookup-delete p k (r ∷ t) u =
      ground (arith, lookup-delete p k t, lookup-delete-none p (key r) t, key_eq_iff (key r) k)

  pub delete-IsUnique : (p : R → Bool) (t : List R) → IsUnique t → IsUnique (delete p t)
  unfolding lookup delete
  delete-IsUnique p [] u = tt
  delete-IsUnique p (r ∷ t) u = ground (arith, delete-IsUnique p t, lookup-delete-none p (key r) t)

  module _ (f : R → R) (same_key : (r : R) → key (f r) ≡ key r) where
    pub lookup-update :
        (j k : Key) (t : List R)
        → lookup k (update f j t) ≡ (if key_eq j k then map_option f (lookup k t) else lookup k t)
    unfolding lookup update
    lookup-update j k [] = ground arith
    lookup-update j k (r ∷ t) = ground (
      arith,
      lookup-update j k t,
      same_key r,
      key_eq_iff (key r) j,
      key_eq_iff (key r) k,
      key_eq_iff j k,
    )

    pub update-IsUnique : (j : Key) (t : List R) → IsUnique t → IsUnique (update f j t)
    unfolding update
    update-IsUnique j [] u = tt
    update-IsUnique j (r ∷ t) u =
        ground (arith, update-IsUnique j t, same_key r, lookup-update j (key r) t)

  -- The merge that keeps the new row.
  abbrev pub replace : R → R → R
  replace old new = new

  pub replace-key : (old new : R) → key old ≡ key new → key (replace old new) ≡ key old
  replace-key old new e = sym e

  merged-replace : (old : Option R) (new : R) → merged replace old new ≡ new
  merged-replace none new = refl
  merged-replace (some old) new = refl

  pub lookup-upsert-replace :
      (k : Key) (new : R) (t : List R)
      → lookup k (upsert replace new t) ≡ (if key_eq (key new) k then some new else lookup k t)
  lookup-upsert-replace k new t =
      lookup-upsert replace replace-key k new t
      ∙ ap (λ r. if key_eq (key new) k then some r else lookup k t)
          (merged-replace (lookup k t) new)
