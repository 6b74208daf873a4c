-- ===== src/Resources/Tests.antt =====
-- A cluster of two nodes with a GPU each, four resource sets and five workers.
use libensemble.Base.{
  ℕ, ◌<◌, ◌≡◌, ◌≢◌, refl, Bool, List, [], ◌∷◌, map, true, false, Option, none, some, ok, raise,
  arith, get_elem?, contains, pos, AreDisjoint, map_option, ltb, zero, suc, ◌-ℤ◌,
}
use Prim.Native.String.{String}
use libensemble.Resources.RSets.{
  GlobalResources, RSet, RSetResources, get_group_list, get_split_list, best_split, init_rsets,
  get_workers2assign2, total_of, get_rsets_on_a_node, procs_of, even_assignment, expand_list,
  div_up,
}
use libensemble.Resources.RSets.Split.{IsPartition, get_split_list-IsPartition}
use libensemble.Resources.RSets.Groups.{first_index, AreKeys, get_group_list-AreKeys}
use libensemble.Resources.Assignment.{
  ManRSet, ResourceManager, init_manager, get_index_list, assign_rsets, free_rsets, even_sizes,
  last_group, take_rset,
}
use libensemble.Resources.Assignment.Index.{get_index_list-injective}
use libensemble.Resources.Assignment.Counts.{
  IsCounted, assign_rsets-IsCounted, free_rsets-IsCounted,
}
use libensemble.Resources.Assignment.Owners.{
  claimed, HoldsNone, assign_rsets-get_elem?, free_rsets-assign_rsets,
}
use libensemble.Resources.Assignment.Start.{table, init_manager-IsCounted}
use libensemble.Resources.Scheduler.Avail.{
  filter_for_rset_type, filter_out_rset_team, get_sorted_lens, get_avail_slots_by_group,
  get_slots_of_len, sorted, free_by_group,
}
use libensemble.Resources.Scheduler.Fit.{
  Fit, exhausted, calc_req_split, calc_rsets_even_grps, even_partition,
  calc_even_split_uneven_groups,
}
use libensemble.Resources.Scheduler.Matching.{
  SetOrder, get_matching_slots, combinations, best_match, common, largest, assign_team_from_slots,
  groups_team, slots_team,
}
use libensemble.Resources.Scheduler.AnySlots.{
  find_rsets_any_slots, gather, find_candidate, remove_team,
}
use libensemble.Resources.Scheduler.Bounds.{
  Covers, Splits, calc_rsets_even_grps-Covers, calc_even_split_uneven_groups-Splits,
}
use libensemble.Resources.Scheduler.Rounds.{assign_resources-ne-exhausted}
use libensemble.Resources.Scheduler.Grants.{
  IsAvail, IsGrant, assign_resources-IsGrant, assign_resources-IsAvail, assign_resources_twice,
  init_scheduler-IsAvail,
}
use libensemble.Resources.Scheduler.{
  ResourceScheduler, init_scheduler, check_total_rsets, get_avail_rsets_by_group, split_loop,
  choose_slots, matching_team, any_team, find_team, commit, assign_resources,
}

abbrev two_nodes : GlobalResources
two_nodes = record {
  global_nodelist = "n1" ∷ "n2" ∷ [];
  gpus_avail_per_node = 1;
  physical_cores_avail_per_node = 8;
  zero_resource_workers = 1 ∷ [];
  num_resource_sets = none;
}

abbrev parts : List (List String)
parts = ("n1" ∷ []) ∷ ("n1" ∷ []) ∷ ("n2" ∷ []) ∷ ("n2" ∷ []) ∷ []

abbrev rset : ℕ → ℕ → Bool → RSet
rset group slot gpus = record { group = group; slot = slot; gpus = gpus }

abbrev four : List RSet
four = rset 1 0 true ∷ rset 1 1 false ∷ rset 2 0 true ∷ rset 2 1 false ∷ []

abbrev held_by : Option ℕ → RSet → ManRSet
held_by worker r = record { rset = r; assigned = worker }

abbrev fixed : RSetResources
fixed = record {
  num_workers = 5;
  num_workers_2assign2 = pos 4;
  total_num_rsets = 4;
  split_list = parts;
  local_rsets_list = 2 ∷ 2 ∷ 2 ∷ 2 ∷ [];
  rsets_per_node = 2;
  gpu_rsets_per_node = 1;
  nongpu_rsets_per_node = 1;
  all_rsets = four;
  total_num_gpu_rsets = 2;
  total_num_nongpu_rsets = 2;
  gpus_per_rset = 1;
  procs_per_rset = 4;
}

abbrev manager : ResourceManager
manager = record {
  fixed = fixed;
  index_list = none ∷ some 0 ∷ some 1 ∷ some 2 ∷ some 3 ∷ [];
  rsets = map (held_by none) four;
  num_groups = 2;
  rsets_free = pos 4;
  gpu_rsets_free = pos 2;
  nongpu_rsets_free = pos 2;
  even_groups = true;
}

program : Unit {0}
unfolding init_manager init_rsets get_workers2assign2 total_of ◌-ℤ◌ get_split_list even_assignment
    expand_list best_split get_rsets_on_a_node get_group_list procs_of get_index_list last_group
    even_sizes first_index assign_rsets take_rset
program = tt

manager_built : init_manager 5 two_nodes ≡ ok manager
unfolding program
manager_built = refl

as_listed : SetOrder
as_listed = record {
  order = λ xs. xs;
  same_members = λ xs a. refl;
  same_length = λ xs. refl;
  still_distinct = λ xs d. d;
}

abbrev scheduler : ResourceScheduler
scheduler = record {
  resources = manager;
  split2fit = true;
  match_slots = true;
  rsets_free = pos 4;
  gpu_rsets_free = pos 2;
  nongpu_rsets_free = pos 2;
  avail_rsets_by_group = none;
}

abbrev after_two : ResourceScheduler
after_two = record scheduler {
  rsets_free = pos 2;
  avail_rsets_by_group = some ((1, []) ∷ (2, 2 ∷ 3 ∷ []) ∷ []);
}

abbrev after_four : ResourceScheduler
after_four = record scheduler {
  rsets_free = pos 0;
  avail_rsets_by_group = some ((1, []) ∷ (2, []) ∷ []);
}

scheduling : Unit {0}
unfolding assign_resources check_total_rsets get_avail_rsets_by_group find_team commit
    filter_out_rset_team filter_for_rset_type calc_req_split calc_rsets_even_grps div_up
    even_partition get_sorted_lens matching_team any_team choose_slots split_loop get_matching_slots
    get_avail_slots_by_group combinations best_match common largest get_slots_of_len
    assign_team_from_slots groups_team slots_team first_index sorted calc_even_split_uneven_groups
    find_rsets_any_slots gather find_candidate remove_team free_by_group as_listed ◌-ℤ◌
scheduling = tt

scheduler_new : init_scheduler manager none none ≡ scheduler
unfolding init_scheduler
scheduler_new = refl

first_call : assign_resources as_listed scheduler 2 none [] ≡ (ok (0 ∷ 1 ∷ []), after_two)
unfolding scheduling
first_call = refl

second_call : assign_resources as_listed after_two 2 none [] ≡ (ok (2 ∷ 3 ∷ []), after_four)
unfolding scheduling
second_call = refl

one_each_call : (assign_resources as_listed scheduler 2 (some true) []).0 ≡ ok (0 ∷ 2 ∷ [])
unfolding scheduling
one_each_call = refl

manager_start : IsCounted manager × AreKeys (table manager.rsets)
manager_start = init_manager-IsCounted 5 two_nodes manager_built

scheduler_start : IsAvail scheduler
unfolding init_scheduler
scheduler_start = rw (← scheduler_new) (init_scheduler-IsAvail manager none none)

assign_resources-IsGrant_example : IsGrant scheduler 2 none (0 ∷ 1 ∷ []) after_two
assign_resources-IsGrant_example =
    assign_resources-IsGrant as_listed scheduler 2 none [] manager_start.1 scheduler_start
      first_call

assign_resources_twice_example : AreDisjoint (0 ∷ 1 ∷ []) (2 ∷ 3 ∷ [])
assign_resources_twice_example =
    assign_resources_twice as_listed scheduler 2 2 none none [] [] manager_start.1 scheduler_start
      first_call second_call

assign_resources-IsAvail_example : IsAvail (assign_resources as_listed scheduler 2 none []).1
assign_resources-IsAvail_example =
    assign_resources-IsAvail as_listed scheduler 2 none [] scheduler_start

assign_resources-ne-exhausted_example :
    (assign_resources as_listed scheduler 3 none []).0 ≢ raise exhausted
assign_resources-ne-exhausted_example = assign_resources-ne-exhausted as_listed scheduler 3 none []

calc_rsets_even_grps-Covers_example :
    (fit : Fit) × (calc_rsets_even_grps 5 2 4 true ≡ ok fit) × Covers 5 2 fit
calc_rsets_even_grps-Covers_example = calc_rsets_even_grps-Covers 5 2 4 (omega arith) (omega arith)

split_found :
    calc_even_split_uneven_groups 4 2 6 (4 ∷ 2 ∷ 2 ∷ []) 3 (9 ∷ [])
    ≡ ok (record { rsets_req = 6; num_groups = 3; per_group = 2 })
unfolding calc_even_split_uneven_groups
split_found = refl

calc_even_split_uneven_groups-Splits_example :
    Splits 6 (9 ∷ []) 2 (record { rsets_req = 6; num_groups = 3; per_group = 2 })
calc_even_split_uneven_groups-Splits_example =
    calc_even_split_uneven_groups-Splits 4 2 6 (4 ∷ 2 ∷ 2 ∷ []) 3 (9 ∷ []) split_found

abbrev taken : ResourceManager
taken = record manager {
  rsets =
      held_by none (rset 1 0 true)
      ∷ held_by (some 3) (rset 1 1 false)
      ∷ held_by (some 3) (rset 2 0 true)
      ∷ held_by none (rset 2 1 false)
      ∷ [];
  rsets_free = pos 2;
  gpu_rsets_free = pos 1;
  nongpu_rsets_free = pos 1;
}

assigned_call : assign_rsets manager (1 ∷ 2 ∷ []) 3 ≡ ok taken
unfolding program
assigned_call = refl

assign_rsets-IsCounted_example : IsCounted taken
assign_rsets-IsCounted_example =
    assign_rsets-IsCounted manager (1 ∷ 2 ∷ []) 3 (refl, (refl, tt)) manager_start.0 assigned_call

free_rsets-IsCounted_example : IsCounted (free_rsets taken (some 3))
free_rsets-IsCounted_example = free_rsets-IsCounted taken (some 3) assign_rsets-IsCounted_example

assign_rsets-get_elem?_example :
    (m' : ResourceManager) × (assign_rsets manager (1 ∷ 2 ∷ []) 3 ≡ ok m')
    × ((i : ℕ)
        → get_elem? m'.rsets i ≡ map_option (claimed 3 (1 ∷ 2 ∷ []) i) (get_elem? manager.rsets i))
assign_rsets-get_elem?_example =
    assign_rsets-get_elem? manager (1 ∷ 2 ∷ []) 3 (omega arith, (omega arith, tt))

nobody : HoldsNone 3 manager.rsets
nobody zero r e = ground arith
nobody (suc zero) r e = ground arith
nobody (suc (suc zero)) r e = ground arith
nobody (suc (suc (suc zero))) r e = ground arith
nobody (suc (suc (suc (suc i)))) r e = ground arith

free_rsets-assign_rsets_example : free_rsets taken (some 3) ≡ manager
free_rsets-assign_rsets_example =
    free_rsets-assign_rsets manager (1 ∷ 2 ∷ []) 3 manager_start.0 (refl, (refl, tt)) nobody
      assigned_call

init_manager-IsCounted_example : IsCounted manager × AreKeys (table manager.rsets)
init_manager-IsCounted_example = init_manager-IsCounted 5 two_nodes manager_built

second_place : get_elem? (get_index_list 5 4 (1 ∷ [])) 2 ≡ some (some 1)
unfolding get_index_list
second_place = refl

get_index_list-injective_example : (◌≡◌ {A = ℕ} 2 2) × (1 < 4) × (contains 3 (1 ∷ []) ≡ false)
get_index_list-injective_example =
    get_index_list-injective 5 4 (1 ∷ []) 2 2 1 second_place second_place

get_split_list-IsPartition_example :
    (result : List (List String) × List ℕ) × (get_split_list 3 two_nodes ≡ ok result)
    × IsPartition 3 two_nodes.global_nodelist result.0 result.1
get_split_list-IsPartition_example =
    get_split_list-IsPartition 3 two_nodes (omega arith) (omega arith)

grouped : get_group_list parts 1 ≡ ok four
unfolding get_group_list
grouped = refl

get_group_list-AreKeys_example : (first_index 2 1 four ≡ some 3) × (false ≡ ltb 1 1)
get_group_list-AreKeys_example = get_group_list-AreKeys parts 1 grouped 3 (rset 2 1 false) refl
