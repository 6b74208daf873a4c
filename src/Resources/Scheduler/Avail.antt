-- ===== src/Resources/Scheduler/Avail.antt =====
-- libensemble/resources/scheduler.py: the dictionaries of resource set IDs and of slots by group.
-- A dictionary is its list of items in insertion order, a set a list with no number twice.
use libensemble.Base.{
  ℕ, ◌+◌, Bool, false, not, List, [], ◌∷◌, ◌++◌, map, Option, none, some, ltb, leb, ◌==◌,
  if◌then◌else◌, length, get_elem?, filter, contains,
}
use libensemble.Resources.Assignment.{ManRSet, is_free}

abbrev pub ByGroup : Type 0
ByGroup = List (ℕ × List ℕ)

-- Insertion into a rising list, as `np.unique` sorts: no second copy of a number.
unfoldable pub insert_unique : ℕ → List ℕ → List ℕ
insert_unique a [] = a ∷ []
insert_unique a (x ∷ xs) =
    if ltb a x then a ∷ x ∷ xs else if a == x then x ∷ xs else x ∷ insert_unique a xs

-- np.unique(rsets["group"])
unfoldable pub unique_groups : List ManRSet → List ℕ
unfolding insert_unique
unique_groups [] = []
unique_groups (r ∷ rs) = insert_unique r.group (unique_groups rs)

-- d[g].append(ind)
unfoldable pub append_at : ℕ → ℕ → ByGroup → ByGroup
append_at g ind [] = []
append_at g ind ((k, ids) ∷ d) =
    if k == g then (k, ids ++ ind ∷ []) ∷ d else (k, ids) ∷ append_at g ind d

-- The loop over `enumerate(rsets)`, from index `ind` on.
unfoldable pub fill : ℕ → List ManRSet → ByGroup → ByGroup
unfolding append_at
fill ind [] d = d
fill ind (r ∷ rs) d = fill (ind + 1) rs (if is_free r then append_at r.group ind d else d)

-- The dictionary that `get_avail_rsets_by_group` builds at its first call.
unfoldable pub free_by_group : List ManRSet → ByGroup
unfolding unique_groups fill
free_by_group rs = fill 0 rs (map (λ g. (g, [])) (unique_groups rs))

-- `fltr_gpus`, of the resource set with an ID: it is taken out of the list.
unfoldable pub fltr_gpus : List ManRSet → Bool → ℕ → Bool
fltr_gpus rs use_gpus rid = elim (get_elem? rs rid) [
  | none ↦ false
  | some r ↦ if use_gpus then not r.gpus else r.gpus
]

abbrev pub keep_ids : (ℕ → Bool) → ByGroup → ByGroup
keep_ids p d = map (λ item. (item.0, filter p item.1)) d

unfoldable pub filter_for_rset_type : List ManRSet → ByGroup → Option Bool → ByGroup
unfolding fltr_gpus
filter_for_rset_type rs d none = d
filter_for_rset_type rs d (some use_gpus) = keep_ids (λ rid. not (fltr_gpus rs use_gpus rid)) d

unfoldable pub filter_out_rset_team : ByGroup → List ℕ → ByGroup
filter_out_rset_team d rset_team = keep_ids (λ rid. not (contains rid rset_team)) d

abbrev pub lens : ByGroup → List ℕ
lens d = map (λ item. length item.1) d

unfoldable pub insert_down : ℕ → List ℕ → List ℕ
insert_down a [] = a ∷ []
insert_down a (x ∷ xs) = if leb x a then a ∷ x ∷ xs else x ∷ insert_down a xs

-- sorted(xs, reverse=True)
unfoldable pub sorted_down : List ℕ → List ℕ
unfolding insert_down
sorted_down [] = []
sorted_down (x ∷ xs) = insert_down x (sorted_down xs)

unfoldable pub insert_up : ℕ → List ℕ → List ℕ
insert_up a [] = a ∷ []
insert_up a (x ∷ xs) = if leb a x then a ∷ x ∷ xs else x ∷ insert_up a xs

-- sorted(xs)
unfoldable pub sorted : List ℕ → List ℕ
unfolding insert_up
sorted [] = []
sorted (x ∷ xs) = insert_up x (sorted xs)

unfoldable pub get_sorted_lens : ByGroup → List ℕ
unfolding sorted_down
get_sorted_lens d = sorted_down (lens d)

abbrev pub slot_at : List ManRSet → ℕ → ℕ
slot_at rs i = elim (get_elem? rs i) [ none ↦ 0 | some r ↦ r.slot ]

-- set([rsets[i]["slot"] for i in ids])
unfoldable pub slot_set : List ManRSet → List ℕ → List ℕ
slot_set rs [] = []
slot_set rs (i ∷ ids) =
    let rest = slot_set rs ids in if contains (slot_at rs i) rest then rest else slot_at rs i ∷ rest

unfoldable pub get_avail_slots_by_group : List ManRSet → ByGroup → ByGroup
unfolding slot_set
get_avail_slots_by_group rs d = map (λ item. (item.0, slot_set rs item.1)) d

unfoldable pub get_slots_of_len : ByGroup → ℕ → ByGroup
get_slots_of_len d n = filter (λ item. leb n (length item.1)) d
