-- ===== src/Dag/Product.antt =====
-- stolos/util.py: `crossproduct`, from which the ids of parents and children are made.
pub mod Choices
use stolos.Prelude.{List, [], ◌∷◌, ◌++◌}

module _ {A : Type 0} where
  -- `[itm] + combined_lst` for each of the lists
  abbrev pub prepend : A → List (List A) → List (List A)
  prepend itm [] = []
  prepend itm (combined ∷ rest) = (itm ∷ combined) ∷ prepend itm rest

  abbrev pub combine : List A → List (List A) → List (List A)
  combine [] lists = []
  combine (itm ∷ items) lists = prepend itm lists ++ combine items lists

  unfoldable pub crossproduct : List (List A) → List (List A)
  crossproduct [] = [] ∷ []
  crossproduct (first ∷ rest) = combine first (crossproduct rest)
