-- ===== src/Resources/RSets.antt =====
-- libensemble/resources/rset_resources.py: the fixed mapping of resource sets to nodes.
-- Node names are only compared. A Python error is the outcome that names it.
pub mod Split
pub mod Groups
use Prim.Native.String.{String}
use text.Mathlib.Text.{◌==◌ as str_eq}
use libensemble.Base.{
  ℕ, zero, suc, ◌+◌, ◌-◌, ◌*◌, ◌/◌, ◌%◌, min, Bool, true, false, ◌&&◌, ◌||◌, not, List, [], ◌∷◌,
  ◌++◌, map, Option, none, some, Outcome, ok, raise, ◌>>=◌, ◌>>◌, require, ltb, leb, ◌==◌,
  if◌then◌else◌, length, take, drop, replicate, count, ℤ, pos, negsuc, ◌-ℤ◌,
}

pub data PythonError : Type 0 where
  zero_division index_error value_error : PythonError

-- The fields of `GlobalResources` that this class reads.
pub record GlobalResources : Type 0 where
  pub global_nodelist : List String
  pub gpus_avail_per_node : ℕ
  pub physical_cores_avail_per_node : ℕ
  pub zero_resource_workers : List ℕ
  pub num_resource_sets : Option ℕ

-- An entry of `all_rsets`, by the fields of `rset_dtype`.
pub record RSet : Type 0 where
  pub group : ℕ
  pub slot : ℕ
  pub gpus : Bool

-- n // d + (n % d > 0)
unfoldable pub div_up : ℕ → ℕ → ℕ
div_up n d = n / d + (if ltb 0 (n % d) then 1 else 0)

unfoldable pub nodes_eq : List String → List String → Bool
nodes_eq [] [] = true
nodes_eq (x ∷ xs) (y ∷ ys) = str_eq x y && nodes_eq xs ys
nodes_eq _ _ = false

-- The body of the loop of `get_group_list`: `node`, `group` and `slot` are its variables.
unfoldable pub group_loop : ℕ → List String → ℕ → ℕ → List (List String) → List RSet
group_loop gpus_per_node node group slot [] = []
group_loop gpus_per_node node group slot (nodes ∷ rest) =
    let same = nodes_eq nodes node in
    let group' = if same then group else group + 1 in
    let slot' = if same then slot else 0 in
    record { group = group'; slot = slot'; gpus = ltb slot' gpus_per_node }
    ∷ group_loop gpus_per_node nodes group' (slot' + 1) rest

unfoldable pub get_group_list : List (List String) → ℕ → Outcome PythonError (List RSet)
unfolding group_loop nodes_eq
get_group_list [] gpus_per_node = raise index_error
get_group_list (node ∷ rest) gpus_per_node = ok (group_loop gpus_per_node node 1 0 (node ∷ rest))

-- a[lo:hi]
abbrev pub slice {ℓ} : {A : Type ℓ} → List A → ℕ → ℕ → List A
slice a lo hi = take (hi - lo) (drop lo a)

-- The slices of `best_split` for `i`, `i + 1`, …, as many as `left` says.
unfoldable pub split_from {ℓ} : {A : Type ℓ} → List A → ℕ → ℕ → ℕ → ℕ → List (List A)
split_from a k m i zero = []
split_from a k m i (suc left) =
    slice a (i * k + min i m) ((i + 1) * k + min (i + 1) m) ∷ split_from a k m (i + 1) left

unfoldable pub best_split {ℓ} : {A : Type ℓ} → List A → ℕ → Outcome PythonError (List (List A))
unfolding split_from
best_split a n =
    if n == 0 then raise zero_division else ok (split_from a (length a / n) (length a % n) 0 n)

unfoldable pub get_rsets_on_a_node : ℕ → GlobalResources → Outcome PythonError ℕ
unfolding div_up
get_rsets_on_a_node num_rsets resources =
    let num_nodes = length resources.global_nodelist in
    if num_nodes == 0 then raise zero_division else ok (div_up num_rsets num_nodes)

unfoldable pub get_workers2assign2 : ℕ → GlobalResources → ℤ
get_workers2assign2 num_workers resources =
    pos num_workers -ℤ pos (length resources.zero_resource_workers)

unfoldable pub even_assignment : ℕ → ℕ → Outcome PythonError Bool
even_assignment nnodes nworkers =
    if nworkers == 0
    then raise zero_division
    else if nnodes % nworkers == 0
    then ok true
    else if nnodes == 0
    then raise zero_division
    else ok (nworkers % nnodes == 0)

-- Duplicated nodes, and the count of local resource sets beside each, from position `i` on.
unfoldable pub expand_from {ℓ} : {A : Type ℓ} → ℕ → ℕ → ℕ → List A → List A × List ℕ
expand_from k m i [] = ([], [])
expand_from k m i (x ∷ xs) =
    let repeats = if ltb i m then k + 1 else k in
    let (dup, local) = expand_from k m (i + 1) xs in
    (replicate repeats x ++ dup, replicate repeats repeats ++ local)

unfoldable pub expand_list {ℓ} :
    {A : Type ℓ} → ℕ → ℕ → List A → Outcome PythonError (List A × List ℕ)
unfolding expand_from
expand_list nnodes nworkers nodelist =
    if nnodes == 0
    then raise zero_division
    else ok (expand_from (nworkers / nnodes) (nworkers % nnodes) 0 nodelist)

unfoldable pub get_split_list :
    ℕ → GlobalResources → Outcome PythonError (List (List String) × List ℕ)
get_split_list num_rsets resources = do
  let nodes = resources.global_nodelist
  let num_nodes = length nodes
  even ← even_assignment num_nodes num_rsets
  expanded ←
      if leb num_nodes num_rsets
      then expand_list num_nodes num_rsets nodes
      else ok (nodes, replicate num_rsets 1)
  split_list ← best_split expanded.0 num_rsets
  ok (split_list, expanded.1)

pub record RSetResources : Type 0 where
  pub num_workers : ℕ
  pub num_workers_2assign2 : ℤ
  pub total_num_rsets : ℕ
  pub split_list : List (List String)
  pub local_rsets_list : List ℕ
  pub rsets_per_node : ℕ
  pub gpu_rsets_per_node : ℕ
  pub nongpu_rsets_per_node : ℕ
  pub all_rsets : List RSet
  pub total_num_gpu_rsets : ℕ
  pub total_num_nongpu_rsets : ℕ
  pub gpus_per_rset : ℕ
  pub procs_per_rset : ℕ

-- `resources.num_resource_sets or self.num_workers_2assign2`
abbrev pub or_else : Option ℕ → ℤ → ℤ
or_else none d = d
or_else (some n) d = if n == 0 then d else pos n

-- A negative number of resource sets: without nodes the number on a node cannot be computed, and else
-- `np.zeros` refuses it.
unfoldable pub total_of : ℤ → GlobalResources → Outcome PythonError ℕ
total_of (pos n) resources = ok n
total_of (negsuc n) resources =
    raise (if length resources.global_nodelist == 0 then zero_division else value_error)

-- The end of `__init__`: with no core for a resource set the cores are oversubscribed.
unfoldable pub procs_of : ℕ → ℕ → Outcome PythonError ℕ
unfolding div_up
procs_of cores rsets_per_node =
    if rsets_per_node == 0
    then raise zero_division
    else if cores / rsets_per_node == 0
    then (if cores == 0 then raise zero_division else ok (cores * div_up rsets_per_node cores))
    else ok (cores / rsets_per_node)

-- `RSetResources.__init__`
unfoldable pub init_rsets : ℕ → GlobalResources → Outcome PythonError RSetResources
init_rsets num_workers resources = do
  let assignable = get_workers2assign2 num_workers resources
  total ← total_of (or_else resources.num_resource_sets assignable) resources
  partition ← get_split_list total resources
  per_node ← get_rsets_on_a_node total resources
  let gpus = resources.gpus_avail_per_node
  let gpu_per_node = min gpus per_node
  all_rsets ← get_group_list partition.0 gpus
  procs ← procs_of resources.physical_cores_avail_per_node per_node
  ok (record {
    num_workers = num_workers;
    num_workers_2assign2 = assignable;
    total_num_rsets = total;
    split_list = partition.0;
    local_rsets_list = partition.1;
    rsets_per_node = per_node;
    gpu_rsets_per_node = gpu_per_node;
    nongpu_rsets_per_node = per_node - gpu_per_node;
    all_rsets = all_rsets;
    total_num_gpu_rsets = count (λ r. r.gpus) all_rsets;
    total_num_nongpu_rsets = count (λ r. not r.gpus) all_rsets;
    gpus_per_rset = if gpu_per_node == 0 then 0 else gpus / gpu_per_node;
    procs_per_rset = procs;
  })
