-- ===== src/Resources/Local.antt =====
-- libensemble/resources/worker_resources.py, class WorkerResources: nodes and slots of a worker's team.
-- A dictionary of slots is a list of pairs; None and the empty one are the same to the code.
pub mod Slots
use Prim.Native.String.{String}
use text.Mathlib.Text.{◌==◌ as str_eq}
use libensemble.Base.{
  ℕ, zero, suc, ◌+◌, ◌*◌, ◌-◌, ◌%◌, Bool, true, false, ◌&&◌, ◌||◌, not, List, [], ◌∷◌, ◌++◌, map,
  Option, none, some, Outcome, ok, raise, ◌>>=◌, or_raise, ◌==◌, if◌then◌else◌, length, get_elem?,
  contains, any, take,
}
use libensemble.Resources.RSets.{RSet, PythonError, index_error, zero_division, slice}

pub data LocalError : Type 0 where
  worker_resources_exception : LocalError
  python_error : PythonError → LocalError

-- Slots under their nodes.
abbrev pub Slots : Type 0
Slots = List (String × List ℕ)

pub record WorkerResources : Type 0 where
  pub worker_id : Option ℕ
  pub zero_resource_workers : List ℕ
  pub split_list : List (List String)
  pub rsets_per_node : ℕ
  pub local_nodelist : List String
  pub rset_team : Option (List ℕ)
  pub num_rsets : ℕ
  pub slots : Slots
  pub even_slots : Bool
  pub matching_slots : Bool
  pub slot_count : Option ℕ
  pub slots_on_node : Option (List ℕ)
  pub local_node_count : ℕ

abbrev pub concat {ℓ} : {A : Type ℓ} → List (List A) → List A
concat [] = []
concat (xs ∷ rest) = xs ++ concat rest

-- range(start, start + n)
unfoldable pub range_of : ℕ → ℕ → List ℕ
range_of start zero = []
range_of start (suc n) = start ∷ range_of (start + 1) n

abbrev pub same_slots : List ℕ → List ℕ → Bool
same_slots [] [] = true
same_slots (x ∷ xs) (y ∷ ys) = x == y && same_slots xs ys
same_slots [] (y ∷ ys) = false
same_slots (x ∷ xs) [] = false

-- The loop of `set_slot_count`: whether all lists match the first one, and whether all are as long.
unfoldable pub compare_slots : List ℕ → List (List ℕ) → Bool → Bool × Bool
compare_slots first [] all_match = (all_match, true)
compare_slots first (slot_list ∷ rest) all_match = elim (length slot_list == length first) [
  | false ↦ (false, false)
  | true ↦ compare_slots first rest (all_match && same_slots slot_list first)
]

-- With no slots the attributes stay as they are.
unfoldable pub set_slot_count : WorkerResources → WorkerResources
set_slot_count w = elim w.slots [
  | [] ↦ w
  | first ∷ rest ↦
      let got = compare_slots first.1 (map (λ entry. entry.1) w.slots) true in
      record w {
        even_slots = got.1;
        matching_slots = got.0;
        slots_on_node = if got.0 then some first.1 else none;
        slot_count = if got.1 then some (length first.1) else none;
      }
]

-- OrderedDict.fromkeys: the nodes in the order of their first places.
unfoldable pub unique_from : List String → List String → List String
unique_from seen [] = []
unique_from seen (node ∷ nodes) = elim (any (str_eq node) seen) [
  | true ↦ unique_from seen nodes
  | false ↦ node ∷ unique_from (node ∷ seen) nodes
]

unfoldable pub team_nodes : List (List String) → List ℕ → Outcome PythonError (List String)
team_nodes split_list [] = ok []
team_nodes split_list (index ∷ team) = do
  nodes ← or_raise (get_elem? split_list index) index_error
  rest ← team_nodes split_list team
  ok (nodes ++ rest)

-- slots[node].append(slot); every node of the team is a key.
unfoldable pub append_slot : String → ℕ → Slots → Slots
append_slot node slot [] = []
append_slot node slot ((key, listed) ∷ slots) =
    let rest = append_slot node slot slots in
    if str_eq key node then (key, listed ++ slot ∷ []) ∷ slots else (key, listed) ∷ rest

unfoldable pub append_zeros : List String → Slots → Slots
append_zeros [] slots = slots
append_zeros (node ∷ nodes) slots = append_zeros nodes (append_slot node 0 slots)

-- The slots of a resource set: slot 0 of each of its nodes, or its place on its only node.
unfoldable pub add_rset : ℕ → ℕ → List String → Slots → Outcome PythonError Slots
add_rset rsets_per_node index [] slots = raise index_error
add_rset rsets_per_node index (node ∷ []) slots =
    if rsets_per_node == 0
    then raise zero_division
    else ok (append_slot node (index % rsets_per_node) slots)
add_rset rsets_per_node index (node ∷ other ∷ nodes) slots =
    ok (append_zeros (node ∷ other ∷ nodes) slots)

unfoldable pub add_rsets : List (List String) → ℕ → List ℕ → Slots → Outcome PythonError Slots
add_rsets split_list rsets_per_node [] slots = ok slots
add_rsets split_list rsets_per_node (index ∷ team) slots = do
  nodes ← or_raise (get_elem? split_list index) index_error
  added ← add_rset rsets_per_node index nodes slots
  add_rsets split_list rsets_per_node team added

abbrev pub python_of {ℓ} : {A : Type ℓ} → Outcome PythonError A → Outcome LocalError A
python_of (raise e) = raise (python_error e)
python_of (ok a) = ok a

unfoldable pub get_local_nodelist :
    Option ℕ → List ℕ → List (List String) → ℕ → Outcome LocalError (List String × Slots)
get_local_nodelist none rset_team split_list rsets_per_node = raise worker_resources_exception
get_local_nodelist (some worker_id) rset_team split_list rsets_per_node = python_of (do
  team_list ← team_nodes split_list rset_team
  let local_nodelist = unique_from [] team_list
  slots ← add_rsets split_list rsets_per_node rset_team (map (λ node. (node, [])) local_nodelist)
  ok (local_nodelist, slots))

abbrev pub is_team : List ℕ → Option (List ℕ) → Bool
is_team rset_team none = false
is_team rset_team (some team) = same_slots rset_team team

abbrev pub is_zero_resource : WorkerResources → Bool
is_zero_resource w = elim w.worker_id [
  | none ↦ false
  | some id ↦ contains id w.zero_resource_workers
]

-- `set_rset_team`, with an exception if one is raised; the team is entered before.
unfoldable pub set_rset_team : List ℕ → WorkerResources → Option LocalError × WorkerResources
set_rset_team rset_team w =
    if is_zero_resource w || is_team rset_team w.rset_team
    then (none, w)
    else (let g = record w { rset_team = some rset_team; num_rsets = length rset_team } in
        elim (get_local_nodelist w.worker_id rset_team w.split_list w.rsets_per_node) [
          | raise e ↦ (some e, g)
          | ok (nodes, slots) ↦ (
            none,
            record (set_slot_count (record g { local_nodelist = nodes; slots = slots })) {
              local_node_count = length nodes;
            },
          )
        ])

-- The slots that `get_slots_as_string` joins, before they are written out.
unfoldable pub get_slot_list : ℕ → Option ℕ → WorkerResources → Option (List ℕ)
get_slot_list multiplier limit w = elim w.slots_on_node [
  | none ↦ none
  | some slots ↦
      let slot_list = concat (map (λ i. range_of (i * multiplier) multiplier) slots) in
      some (elim limit as (λ _. List ℕ) [ none ↦ slot_list | some n ↦ take n slot_list ])
]

-- `doihave_gpus`: whether the first resource set of the team has GPUs.
unfoldable pub doihave_gpus : List RSet → WorkerResources → Outcome LocalError Bool
doihave_gpus all_rsets w = elim w.rset_team [
  | none ↦ ok false
  | some team ↦ elim team [
    | [] ↦ ok false
    | first ∷ rest ↦ elim (get_elem? all_rsets first) [
      | none ↦ raise (python_error index_error)
      | some r ↦ ok r.gpus
    ]
  ]
]
