-- ===== src/Resources/Assignment.antt =====
-- libensemble/resources/worker_resources.py, class ResourceManager: which worker holds which
-- resource set. `assigned` is `none` for the source's -1. The exception for a resource set that
-- another worker holds is built and never raised in the source, so here nothing is raised either.
pub mod Index
pub mod Counts
pub mod Owners
pub mod Start
use libensemble.Base.{
  ℕ, zero, suc, ◌+◌, ◌-◌, Bool, true, false, ◌&&◌, not, List, [], ◌∷◌, ◌++◌, map, Option, none,
  some, Outcome, ok, raise, ◌>>=◌, or_raise, ltb, leb, ◌==◌, if◌then◌else◌, length, get_elem?,
  filter, count, modify_at, contains, is_none, ℤ, pos, ◌+ℤ◌, ◌-ℤ◌,
}
use libensemble.Resources.RSets.{
  RSet, RSetResources, GlobalResources, PythonError, index_error, init_rsets,
}

-- An entry of `rsets`, by the fields of `man_rset_dtype`.
pub record ManRSet : Type 0 where
  pub rset : RSet
  pub open rset use *
  pub assigned : Option ℕ

pub record ResourceManager : Type 0 where
  pub fixed : RSetResources
  pub open fixed use *
  pub index_list : List (Option ℕ)
  pub rsets : List ManRSet
  pub num_groups : ℕ
  pub rsets_free : ℤ
  pub gpu_rsets_free : ℤ
  pub nongpu_rsets_free : ℤ
  pub even_groups : Bool

-- The rest of the loop of `get_index_list`, from worker `i` and with `index` as it stands.
unfoldable pub index_from : ℕ → List ℕ → ℕ → ℕ → ℕ → List (Option ℕ)
index_from num_rsets zero_resource_list index i zero = []
index_from num_rsets zero_resource_list index i (suc left) =
    let skipped = contains i zero_resource_list in
    (if skipped then none else if leb num_rsets index then none else some index)
    ∷ index_from num_rsets zero_resource_list (if skipped then index else index + 1) (i + 1) left

unfoldable pub get_index_list : ℕ → ℕ → List ℕ → List (Option ℕ)
unfolding index_from
get_index_list num_workers num_rsets zero_resource_list =
    index_from num_rsets zero_resource_list 0 1 num_workers

abbrev pub is_free : ManRSet → Bool
is_free r = is_none r.assigned

abbrev pub is_free_gpu : ManRSet → Bool
is_free_gpu r = is_none r.assigned && r.gpus

abbrev pub is_free_nongpu : ManRSet → Bool
is_free_nongpu r = is_none r.assigned && not r.gpus

abbrev pub group_size : ℕ → List RSet → ℕ
group_size g rs = count (λ r. r.group == g) rs

-- `even_groups`: every group has as many resource sets as the first.
unfoldable pub same_sizes : ℕ → List RSet → List RSet → Bool
same_sizes size all [] = true
same_sizes size all (r ∷ rs) = group_size r.group all == size && same_sizes size all rs

unfoldable pub even_sizes : List RSet → Bool
unfolding same_sizes
even_sizes [] = false
even_sizes (r ∷ rs) = same_sizes (group_size r.group (r ∷ rs)) (r ∷ rs) (r ∷ rs)

-- rsets["group"][-1]
unfoldable pub last_group : List RSet → Outcome PythonError ℕ
last_group [] = raise index_error
last_group (r ∷ []) = ok r.group
last_group (r ∷ s ∷ rs) = last_group (s ∷ rs)

abbrev pub unassigned : RSet → ManRSet
unassigned r = record { rset = r; assigned = none }

-- `ResourceManager.__init__`
unfoldable pub init_manager : ℕ → GlobalResources → Outcome PythonError ResourceManager
init_manager num_workers resources = do
  fixed ← init_rsets num_workers resources
  last ← last_group fixed.all_rsets
  ok (record {
    fixed = fixed;
    index_list = get_index_list num_workers fixed.total_num_rsets resources.zero_resource_workers;
    rsets = map unassigned fixed.all_rsets;
    num_groups = last;
    rsets_free = pos fixed.total_num_rsets;
    gpu_rsets_free = pos fixed.total_num_gpu_rsets;
    nongpu_rsets_free = pos fixed.total_num_nongpu_rsets;
    even_groups = even_sizes fixed.all_rsets;
  })

-- rsets["assigned"][rset_team], beside the team; `none` where an index is out of range.
unfoldable pub snapshot : List ManRSet → List ℕ → Option (List (ℕ × Option ℕ))
snapshot rs [] = some []
snapshot rs (i ∷ team) = elim (get_elem? rs i) [
  | none ↦ none
  | some r ↦ elim (snapshot rs team) [ none ↦ none | some rest ↦ some ((i, r.assigned) ∷ rest) ]
]

abbrev pub gpus_at : List ManRSet → ℕ → Bool
gpus_at rs i = elim (get_elem? rs i) [ none ↦ false | some r ↦ r.gpus ]

abbrev pub mark : ℕ → ManRSet → ManRSet
mark worker r = record r { assigned = some worker }

-- The branch of `assign_rsets` for a free resource set.
unfoldable pub take_rset : ResourceManager → ℕ → ℕ → ResourceManager
take_rset m i worker =
    let gpu = gpus_at m.rsets i in
    record m {
      rsets = modify_at i (mark worker) m.rsets;
      rsets_free = m.rsets_free -ℤ pos 1;
      gpu_rsets_free = if gpu then m.gpu_rsets_free -ℤ pos 1 else m.gpu_rsets_free;
      nongpu_rsets_free = if gpu then m.nongpu_rsets_free else m.nongpu_rsets_free -ℤ pos 1;
    }

unfoldable pub assign_loop : ℕ → List (ℕ × Option ℕ) → ResourceManager → ResourceManager
assign_loop worker [] m = m
assign_loop worker ((i, none) ∷ rest) m = assign_loop worker rest (take_rset m i worker)
assign_loop worker ((i, some holder) ∷ rest) m = assign_loop worker rest m

-- `if rset_team:` does nothing on an empty team, and neither does the loop.
unfoldable pub assign_rsets : ResourceManager → List ℕ → ℕ → Outcome PythonError ResourceManager
unfolding snapshot assign_loop
assign_rsets m rset_team worker = do
  rteam ← or_raise (snapshot m.rsets rset_team) index_error
  ok (assign_loop worker rteam m)

abbrev pub holds : ℕ → ManRSet → Bool
holds worker r = elim r.assigned [ none ↦ false | some w ↦ w == worker ]

abbrev pub release : ℕ → ManRSet → ManRSet
release worker r = if holds worker r then record r { assigned = none } else r

abbrev pub unmark : ManRSet → ManRSet
unmark r = record r { assigned = none }

-- `free_rsets()`: every worker gives its resource sets back.
unfoldable pub free_all : ResourceManager → ResourceManager
free_all m = record m {
  rsets = map unmark m.rsets;
  rsets_free = pos m.total_num_rsets;
  gpu_rsets_free = pos m.total_num_gpu_rsets;
  nongpu_rsets_free = pos m.total_num_nongpu_rsets;
}

unfoldable pub free_worker : ResourceManager → ℕ → ResourceManager
free_worker m worker = record m {
  rsets = map (release worker) m.rsets;
  rsets_free = m.rsets_free +ℤ pos (count (holds worker) m.rsets);
  gpu_rsets_free = m.gpu_rsets_free +ℤ pos (count (λ r. holds worker r && r.gpus) m.rsets);
  nongpu_rsets_free =
      m.nongpu_rsets_free +ℤ pos (count (λ r. holds worker r && not r.gpus) m.rsets);
}

-- `free_rsets(worker=None)`
unfoldable pub free_rsets : ResourceManager → Option ℕ → ResourceManager
unfolding free_all free_worker
free_rsets m none = free_all m
free_rsets m (some worker) = free_worker m worker
