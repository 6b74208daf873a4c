-- ===== src/Resources/Assignment/Index.antt =====
-- The default resource set of each worker, `get_index_list`.
use libensemble.Base.{
  ℕ, zero, suc, ◌+◌, ◌≤◌, ◌<◌, ◌≡◌, refl, ap, false, List, some, arith, get_elem?, contains,
  if◌then◌else◌, Bool,
}
use libensemble.Resources.Assignment.{index_from, get_index_list}

module _ (num_rsets : ℕ) (zeros : List ℕ) where
  index_from_bounds :
      (index i left j k : ℕ)
      → get_elem? (index_from num_rsets zeros index i left) j ≡ some (some k)
      → (index ≤ k) × (k < num_rsets) × (contains (i + j) zeros ≡ false)
  unfolding index_from
  index_from_bounds index i zero j k e = ground arith
  index_from_bounds index i (suc left) zero k e =
      let here : i + 0 ≡ i = omega arith in rw here (ground arith)
  index_from_bounds index i (suc left) (suc j) k e =
      let skipped : Bool = contains i zeros in
      let there : i + suc j ≡ i + 1 + j = omega arith in
      rw there (
        ground (arith, index_from_bounds (if skipped then index else index + 1) (i + 1) left j k e))

  index_from-injective :
      (index i left : ℕ) (j j' k : ℕ)
      → get_elem? (index_from num_rsets zeros index i left) j ≡ some (some k)
      → get_elem? (index_from num_rsets zeros index i left) j' ≡ some (some k)
      → j ≡ j'
  unfolding index_from
  index_from-injective index i zero j j' k e e' = ground arith
  index_from-injective index i (suc left) zero zero k e e' = refl
  index_from-injective index i (suc left) zero (suc j') k e e' =
      let skipped : Bool = contains i zeros in
      ground (arith, index_from_bounds (if skipped then index else index + 1) (i + 1) left j' k e')
  index_from-injective index i (suc left) (suc j) zero k e e' =
      let skipped : Bool = contains i zeros in
      ground (arith, index_from_bounds (if skipped then index else index + 1) (i + 1) left j k e)
  index_from-injective index i (suc left) (suc j) (suc j') k e e' =
      let index' : ℕ = if contains i zeros then index else index + 1 in
      ap suc (index_from-injective index' (i + 1) left j j' k e e')

-- Worker `w + 1` has place `w` of the list. A default resource set exists, belongs to a worker that
-- is not a zero-resource worker, and to that worker only.
pub get_index_list-injective :
    (num_workers num_rsets : ℕ) (zeros : List ℕ) (w w' k : ℕ)
    → get_elem? (get_index_list num_workers num_rsets zeros) w ≡ some (some k)
    → get_elem? (get_index_list num_workers num_rsets zeros) w' ≡ some (some k)
    → (w ≡ w') × (k < num_rsets) × (contains (1 + w) zeros ≡ false)
unfolding get_index_list
get_index_list-injective num_workers num_rsets zeros w w' k e e' =
    let (_, bound, proper) = index_from_bounds num_rsets zeros 0 1 num_workers w k e in
    (index_from-injective num_rsets zeros 0 1 num_workers w w' k e e', bound, proper)
