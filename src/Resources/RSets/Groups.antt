-- ===== src/Resources/RSets/Groups.antt =====
-- The group and slot numbers of the resource sets.
use Prim.Native.String.{String}
use libensemble.Base.{
  ℕ, zero, suc, ◌+◌, ◌≤◌, ◌<◌, ◌≡◌, refl, ◌⊎◌, Bool, List, [], ◌∷◌, some, ok, arith, Option, none,
  get_elem?, length, ap, ◌==◌, ◌&&◌, if◌then◌else◌, ltb,
}
use libensemble.Resources.RSets.{RSet, group_loop, get_group_list, nodes_eq}

-- The index of the first resource set of a group and slot, `np.nonzero(group & slot)[0][0]`.

unfoldable pub first_index : ℕ → ℕ → List RSet → Option ℕ
first_index group slot [] = none
first_index group slot (r ∷ rs) =
    if r.group == group && r.slot == slot
    then some 0
    else elim (first_index group slot rs) [ none ↦ none | some i ↦ some (suc i) ]

-- Group and slot together name a resource set.
abbrev pub AreKeys : List RSet → Type 0
AreKeys rs = (i : ℕ) (r : RSet) → get_elem? rs i ≡ some r → first_index r.group r.slot rs ≡ some i

-- The entries that the loop makes come behind its variables in lexicographic order.
group_loop_above :
    (gpus : ℕ) (node : List String) (group slot : ℕ) (parts : List (List String)) (i : ℕ) (r : RSet)
    → get_elem? (group_loop gpus node group slot parts) i ≡ some r
    → (group < r.group) ⊎ ((group ≡ r.group) × (slot ≤ r.slot))
unfolding group_loop
group_loop_above gpus node group slot [] i r e = ground arith
group_loop_above gpus node group slot (part ∷ parts) zero r e = ground arith
group_loop_above gpus node group slot (part ∷ parts) (suc i) r e =
    let same : Bool = nodes_eq part node in
    let group' : ℕ = if same then group else group + 1 in
    let slot' : ℕ = if same then slot else 0 in
    ground (arith, group_loop_above gpus part group' (slot' + 1) parts i r e)

group_loop-AreKeys :
    (gpus : ℕ) (node : List String) (group slot : ℕ) (parts : List (List String))
    → AreKeys (group_loop gpus node group slot parts)
unfolding group_loop first_index
group_loop-AreKeys gpus node group slot [] i r e = ground arith
group_loop-AreKeys gpus node group slot (part ∷ parts) zero r e = ground arith
group_loop-AreKeys gpus node group slot (part ∷ parts) (suc i) r e =
    let same : Bool = nodes_eq part node in
    let group' : ℕ = if same then group else group + 1 in
    let slot' : ℕ = if same then slot else 0 in
    ground (
      arith,
      group_loop_above gpus part group' (slot' + 1) parts i r e,
      group_loop-AreKeys gpus part group' (slot' + 1) parts i r e,
    )

-- A resource set has GPUs exactly if its slot is below the node's number of GPUs.
group_loop_gpus :
    (gpus : ℕ) (node : List String) (group slot : ℕ) (parts : List (List String)) (i : ℕ) (r : RSet)
    → get_elem? (group_loop gpus node group slot parts) i ≡ some r
    → r.gpus ≡ ltb r.slot gpus
unfolding group_loop
group_loop_gpus gpus node group slot [] i r e = ground arith
group_loop_gpus gpus node group slot (part ∷ parts) zero r e = ground arith
group_loop_gpus gpus node group slot (part ∷ parts) (suc i) r e =
    group_loop_gpus gpus part _ _ parts i r e

-- Every resource set is found again by its group and slot alone, and it has GPUs exactly if its
-- slot is below the number of GPUs on a node.
pub get_group_list-AreKeys :
    (parts : List (List String)) (gpus : ℕ) {rs : List RSet}
    → get_group_list parts gpus ≡ ok rs
    → (i : ℕ) (r : RSet) → get_elem? rs i ≡ some r
    → (first_index r.group r.slot rs ≡ some i) × (r.gpus ≡ ltb r.slot gpus)
unfolding get_group_list
get_group_list-AreKeys [] gpus e i r at = ground arith
get_group_list-AreKeys (part ∷ parts) gpus {rs} e i r at =
    let made : group_loop gpus part 1 0 (part ∷ parts) ≡ rs = cc in
    let found = rw (← made) at at in
    rw (← made) (
      group_loop-AreKeys gpus part 1 0 (part ∷ parts) i r found,
      group_loop_gpus gpus part 1 0 (part ∷ parts) i r found,
    )

length-group_loop :
    (gpus : ℕ) (node : List String) (group slot : ℕ) (parts : List (List String))
    → length (group_loop gpus node group slot parts) ≡ length parts
unfolding group_loop
length-group_loop gpus node group slot [] = refl
length-group_loop gpus node group slot (part ∷ parts) =
    ap suc (length-group_loop gpus part _ _ parts)

pub length-get_group_list :
    (parts : List (List String)) (gpus : ℕ) {rs : List RSet}
    → get_group_list parts gpus ≡ ok rs
    → length rs ≡ length parts
unfolding get_group_list
length-get_group_list [] gpus e = ground arith
length-get_group_list (part ∷ parts) gpus {rs} e =
    let made : group_loop gpus part 1 0 (part ∷ parts) ≡ rs = cc in
    rw (← made) (length-group_loop gpus part 1 0 (part ∷ parts))
