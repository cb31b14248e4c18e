-- ===== src/Receipt/Provenance.antt =====
-- Generated and handwritten files, from the tree before any generator ran and the final tree.
pub mod Laws
use ggen_igniter.Base.{
  String, Option, none, some, List, Bool, true, false, not, ◌&&◌, filter, if◌then◌else◌, ◌==◌,
  contains, string_eq, option_eq,
}
use ggen_igniter.Base.Dict.{Dict, keys, lookup}
use ggen_igniter.Base.Sort.{sort, str_le}

pub record Provenance : Type 0 where
  pub handwritten_unchanged : List String
  pub handwritten_modified : List String
  pub handwritten_removed : List String
  pub generated : List String

module _ (day_zero_tree final_tree : Dict String String) where
  -- The tests of the four comprehensions, at an item.
  is_unchanged : String × String → Bool
  unfolding lookup
  is_unchanged (p, h) = lookup p final_tree == some h

  is_modified : String × String → Bool
  unfolding lookup contains keys
  is_modified (p, h) = contains (keys final_tree) p && not (lookup p final_tree == some h)

  is_removed : String × String → Bool
  unfolding contains keys
  is_removed (p, h) = not (contains (keys final_tree) p)

  is_generated : String × String → Bool
  unfolding contains keys
  is_generated (p, h) = not (contains (keys day_zero_tree) p)

  unfoldable pub provenance : Provenance
  unfolding is_unchanged is_modified is_removed is_generated filter sort keys
  provenance = record {
    handwritten_unchanged = sort str_le (keys (filter is_unchanged day_zero_tree));
    handwritten_modified = sort str_le (keys (filter is_modified day_zero_tree));
    handwritten_removed = sort str_le (keys (filter is_removed day_zero_tree));
    generated = sort str_le (keys (filter is_generated final_tree));
  }
