-- ===== src/Base/Order.antt =====
-- The order of texts by code point, and the sort by a Boolean order.
use loku.Base.Tests.{◌==◌, ltb, if◌then◌else◌}
use loku.Base.Text.{Text}
use mathlib.Core.Bool.{Bool, true, false, ◌&&◌, ◌||◌}
use mathlib.Core.List.{List, [], ◌∷◌}

-- `a <= b`
unfoldable pub text_le : Text → Text → Bool
text_le [] t = true
text_le (c ∷ s) [] = false
text_le (c ∷ s) (d ∷ t) = ltb c d || ((c == d) && text_le s t)

module _ {ℓ} {A : Type ℓ} (le : A → A → Bool) where
  unfoldable pub insert : A → List A → List A
  insert a [] = a ∷ []
  insert a (b ∷ xs) = if le a b then a ∷ b ∷ xs else b ∷ insert a xs

  -- A stable sort.
  unfoldable pub sort : List A → List A
  unfolding insert
  sort [] = []
  sort (a ∷ xs) = insert a (sort xs)
