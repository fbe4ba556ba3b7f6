-- ===== src/Index/Table/Order.antt =====
-- Lookups in a table that is filtered, sorted and mapped, as a query with ORDER BY does.
use loku.Base.{
  Bool, not, none, some, List, [], ◌∷◌, ◌≡◌, refl, arith, ap, ◌∙◌, keep, map, map_option,
  if◌then◌else◌,
}
use loku.Base.Order.{insert, sort}
use loku.Index.Table.{
  Key, key_eq, key_eq_iff, lookup, delete, unless, IsUnique, lookup-delete, delete-IsUnique,
}

keep-delete :
    {R : Type 0} (key : R → Key) (p : R → Bool) (t : List R)
    → keep p t ≡ delete key (λ r. not (p r)) t
unfolding delete
keep-delete key p [] = refl
keep-delete key p (r ∷ t) = ground (arith, keep-delete key p t)

module _ {R : Type 0} (key : R → Key) (le : R → R → Bool) where
  lookup-insert :
      (k : Key) (a : R) (t : List R)
      → lookup key (key a) t ≡ none
      → lookup key k (insert le a t) ≡ (if key_eq (key a) k then some a else lookup key k t)
  unfolding lookup insert
  lookup-insert k a [] absent = refl
  lookup-insert k a (r ∷ t) absent = ground (
    arith,
    lookup-insert k a t,
    key_eq_iff (key a) k,
    key_eq_iff (key r) k,
    key_eq_iff (key r) (key a),
  )

  insert-IsUnique :
      (a : R) (t : List R)
      → lookup key (key a) t ≡ none
      → IsUnique key t
      → IsUnique key (insert le a t)
  unfolding lookup insert
  insert-IsUnique a [] absent u = (refl, tt)
  insert-IsUnique a (r ∷ t) absent u = ground (
    arith,
    insert-IsUnique a t,
    lookup-insert (key r) a t,
    key_eq_iff (key r) (key a),
    key_eq_iff (key a) (key r),
  )

  -- Sorting changes no lookup, and keeps the keys apart.
  pub lookup-sort :
      (t : List R)
      → IsUnique key t
      → ((k : Key) → lookup key k (sort le t) ≡ lookup key k t) × IsUnique key (sort le t)
  unfolding sort lookup
  lookup-sort [] u = ((λ k. refl), tt)
  lookup-sort (a ∷ t) u =
      let (same, distinct) = lookup-sort t u.1 in
      let absent = same (key a) ∙ u.0 in
      (
        (λ k.
            lookup-insert k a (sort le t) absent
            ∙ ap (λ o. if key_eq (key a) k then some a else o) (same k)),
        insert-IsUnique a (sort le t) absent distinct,
      )

  -- A row is in the filtered and sorted table if it is in the table and passes the test.
  pub lookup-query :
      (p : R → Bool) (k : Key) (t : List R)
      → IsUnique key t
      → lookup key k (sort le (keep p t)) ≡ unless key (λ r. not (p r)) (lookup key k t)
  lookup-query p k t u =
      rw (keep-delete key p t)
        ((lookup-sort (delete key _ t) (delete-IsUnique key _ t u)).0 k ∙ lookup-delete key _ k t u)

  pub query-IsUnique :
      (p : R → Bool) (t : List R) → IsUnique key t → IsUnique key (sort le (keep p t))
  query-IsUnique p t u =
      rw (keep-delete key p t) ((lookup-sort (delete key _ t) (delete-IsUnique key _ t u)).1)

module _ {R S : Type 0} (key : R → Key) (key' : S → Key) (f : R → S)
    (same : (r : R) → key' (f r) ≡ key r) where
  pub lookup-map : (k : Key) (t : List R) → lookup key' k (map f t) ≡ map_option f (lookup key k t)
  unfolding lookup
  lookup-map k [] = refl
  lookup-map k (r ∷ t) = ground (arith, lookup-map k t, same r)

  pub map-IsUnique : (t : List R) → IsUnique key t → IsUnique key' (map f t)
  map-IsUnique [] u = tt
  map-IsUnique (r ∷ t) u = ground (arith, map-IsUnique t, lookup-map (key r) t, same r)
