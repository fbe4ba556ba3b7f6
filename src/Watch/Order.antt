-- ===== src/Watch/Order.antt =====
-- The order of the dirty directories is total, and puts what a directory covers behind it.
use loku.Base.{true, false, [], ◌∷◌, ◌≡◌, refl, arith}
use loku.Base.Text.{Text, text_eq, text_eq_iff, text_eq_refl}
use loku.Base.Order.{text_le}
use loku.Base.Paths.{FilePath, path_starts_with}
use loku.Watch.{Dirty, path_le, dirty_le, covers}

text_le_total : (s t : Text) → text_le s t ≡ false → text_le t s ≡ true
unfolding text_le
text_le_total [] t h = cc
text_le_total (c ∷ s) [] h = refl
text_le_total (c ∷ s) (d ∷ t) h = ground (arith, text_le_total s t)

text_le_trans : (s t u : Text) → text_le s t ≡ true → text_le t u ≡ true → text_le s u ≡ true
unfolding text_le
text_le_trans [] t u h k = refl
text_le_trans (c ∷ s) [] u h k = cc
text_le_trans (c ∷ s) (d ∷ t) [] h k = cc
text_le_trans (c ∷ s) (d ∷ t) (e ∷ u) h k = ground (arith, text_le_trans s t u)

text_le_antisym : (s t : Text) → text_le s t ≡ true → text_le t s ≡ true → text_eq s t ≡ true
unfolding text_le text_eq
text_le_antisym [] [] h k = refl
text_le_antisym [] (d ∷ t) h k = cc
text_le_antisym (c ∷ s) [] h k = cc
text_le_antisym (c ∷ s) (d ∷ t) h k = ground (arith, text_le_antisym s t)

path_le_total : (p q : FilePath) → path_le p q ≡ false → path_le q p ≡ true
unfolding path_le
path_le_total [] q h = cc
path_le_total (c ∷ p) [] h = refl
path_le_total (c ∷ p) (d ∷ q) h =
    ground (arith, path_le_total p q, text_le_total c d, text_eq_iff c d, text_eq_iff d c)

path_le_trans : (p q r : FilePath) → path_le p q ≡ true → path_le q r ≡ true → path_le p r ≡ true
unfolding path_le
path_le_trans [] q r h k = refl
path_le_trans (c ∷ p) [] r h k = cc
path_le_trans (c ∷ p) (d ∷ q) [] h k = cc
path_le_trans (c ∷ p) (d ∷ q) (e ∷ r) h k = ground (
  arith,
  path_le_trans p q r,
  text_le_trans c d e,
  text_le_antisym c d,
  text_eq_iff c d,
  text_eq_iff d e,
  text_eq_iff c e,
)

-- What lies in the order between a directory and one below it is also below it.
path_between :
    (a b c : FilePath)
    → path_starts_with c a ≡ true
    → path_le a b ≡ true
    → path_le b c ≡ true
    → path_starts_with b a ≡ true
unfolding path_le path_starts_with
path_between [] b c below h k = refl
path_between (x ∷ a) [] c below h k = cc
path_between (x ∷ a) (y ∷ b) [] below h k = cc
path_between (x ∷ a) (y ∷ b) (z ∷ c) below h k = ground (
  arith,
  path_between a b c,
  text_le_antisym x y,
  text_eq_iff x y,
  text_eq_iff z x,
  text_eq_iff y z,
)

prefix_le : (c a : FilePath) → path_starts_with c a ≡ true → path_le a c ≡ true
unfolding path_le path_starts_with
prefix_le c [] h = refl
prefix_le [] (x ∷ a) h = cc
prefix_le (z ∷ c) (x ∷ a) h = ground (arith, prefix_le c a, text_eq_iff z x, text_eq_refl x)

pub path_starts_with_self : (p : FilePath) → path_starts_with p p ≡ true
unfolding path_starts_with
path_starts_with_self [] = refl
path_starts_with_self (c ∷ p) = ground (arith, text_eq_refl c, path_starts_with_self p)

pub dirty_le_total : (a b : Dirty) → dirty_le a b ≡ false → dirty_le b a ≡ true
unfolding dirty_le
dirty_le_total a b h = ground (arith, path_le_total a.dir b.dir)

pub dirty_le_trans :
    (a b c : Dirty) → dirty_le a b ≡ true → dirty_le b c ≡ true → dirty_le a c ≡ true
unfolding dirty_le
dirty_le_trans a b c h k = ground (arith, path_le_trans a.dir b.dir c.dir)

pub covers_between :
    (a b c : Dirty)
    → covers a c ≡ true
    → dirty_le a b ≡ true
    → dirty_le b c ≡ true
    → covers a b ≡ true
unfolding dirty_le covers
covers_between a b c h below behind = ground (arith, path_between a.dir b.dir c.dir)

pub covers_self : (a : Dirty) → covers a a ≡ true
unfolding covers
covers_self a = ground (arith, path_starts_with_self a.dir)

covers_order : (a b : Dirty) → covers a b ≡ true → dirty_le a b ≡ true
unfolding dirty_le covers
covers_order a b h = ground (arith, prefix_le b.dir a.dir)

-- A directory covers what stands in front of it only if it stands for the same.
pub covers_back : (a b : Dirty) → dirty_le a b ≡ true → covers b a ≡ true → covers a b ≡ true
covers_back a b h back = covers_between a b a (covers_self a) h (covers_order b a back)
