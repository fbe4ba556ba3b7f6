-- ===== src/Routes/Groups.antt =====
-- That grouping the videos of a directory into disc sets keeps every video once.
use loku.Base.{
  ℕ, ◌+◌, Bool, not, Option, none, some, List, [], ◌∷◌, ◌++◌, ◌≡◌, refl, arith, keep, fold,
}
use loku.Base.Count.{count, count-append}
use loku.Base.Text.{Text}
use loku.Library.{LibraryKind}
use loku.Index.Record.{VideoRecord}
use loku.Routes.Listing.{Group, push_record, group_of, grouped, all_records, is_multi}

module _ (q : VideoRecord → Bool) where
  count-push_record :
      (set : Text) (r : VideoRecord) (groups : List Group)
      → count q (all_records (push_record set r groups)) ≡ count q (r ∷ all_records groups)
  unfolding push_record
  count-push_record set r [] = refl
  count-push_record set r (g ∷ groups) = ground (
    arith,
    count-push_record set r groups,
    count-append q g.records (all_records groups),
    count-append q (g.records ++ r ∷ []) (all_records groups),
    count-append q g.records (r ∷ []),
    count-append q g.records (all_records (push_record set r groups)),
  )

  abbrev pub in_groups : List Group × List VideoRecord → ℕ
  in_groups (sets, singles) = count q singles + count q (all_records sets)

  count-grouped :
      (kind : LibraryKind) (state : List Group × List VideoRecord) (r : VideoRecord)
      → in_groups (grouped kind state r) ≡ in_groups state + count q (r ∷ [])
  count-grouped kind (sets, singles) r = go (group_of kind r)
    where
      go :
          (o : Option Text)
          → in_groups (elim o [
            | some set ↦ (push_record set r sets, singles)
            | none ↦ (sets, singles ++ r ∷ [])
          ])
            ≡ in_groups (sets, singles) + count q (r ∷ [])
      go none = ground (arith, count-append q singles (r ∷ []))
      go (some set) = ground (arith, count-push_record set r sets)

  pub count-fold :
      (kind : LibraryKind) (videos : List VideoRecord) (state : List Group × List VideoRecord)
      → in_groups (fold (grouped kind) state videos) ≡ in_groups state + count q videos
  count-fold kind [] state = ground arith
  count-fold kind (r ∷ videos) state =
      ground (arith, count-fold kind videos (grouped kind state r), count-grouped kind state r)

  pub count-split :
      (groups : List Group)
      → count q (all_records (keep is_multi groups))
          + count q (all_records (keep (λ g. not (is_multi g)) groups))
        ≡ count q (all_records groups)
  count-split [] = refl
  count-split (g ∷ groups) = ground (
    arith,
    count-split groups,
    count-append q g.records (all_records groups),
    count-append q g.records (all_records (keep is_multi groups)),
    count-append q g.records (all_records (keep (λ g. not (is_multi g)) groups)),
  )
