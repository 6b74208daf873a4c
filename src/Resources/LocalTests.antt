-- ===== src/Resources/LocalTests.antt =====
-- A worker on two nodes with two resource sets each.
use libensemble.Base.{◌≡◌, refl, true, [], ◌∷◌, none, some}
use libensemble.Resources.Local.{
  WorkerResources, Slots, compare_slots, set_slot_count, unique_from, team_nodes, append_slot,
  append_zeros, add_rset, add_rsets, get_local_nodelist, set_rset_team, get_slot_list, range_of,
}
use libensemble.Resources.Local.Slots.{AreSummed, set_slot_count-AreSummed}

abbrev built : WorkerResources
built = record {
  worker_id = some 2;
  zero_resource_workers = 1 ∷ [];
  split_list = ("n1" ∷ []) ∷ ("n1" ∷ []) ∷ ("n2" ∷ []) ∷ ("n2" ∷ []) ∷ [];
  rsets_per_node = 2;
  local_nodelist = [];
  rset_team = none;
  num_rsets = 0;
  slots = [];
  even_slots = true;
  matching_slots = true;
  slot_count = none;
  slots_on_node = none;
  local_node_count = 0;
}

program : Unit {0}
unfolding compare_slots set_slot_count unique_from team_nodes append_slot append_zeros add_rset
    add_rsets get_local_nodelist set_rset_team get_slot_list range_of
program = tt

abbrev three_slots : Slots
three_slots = ("n1", 0 ∷ 1 ∷ []) ∷ ("n2", 1 ∷ []) ∷ []

-- Three resource sets: two slots of one node and one of the other.
team_slots : (set_rset_team (0 ∷ 1 ∷ 3 ∷ []) built).1.slots ≡ three_slots
unfolding program
team_slots = refl

team_count : (set_rset_team (0 ∷ 1 ∷ 3 ∷ []) built).1.local_node_count ≡ 2
unfolding program
team_count = refl

-- Four GPUs for each of two slots.
eight_gpus :
    get_slot_list 4 (some 7) (set_rset_team (0 ∷ 1 ∷ []) built).1
    ≡ some (0 ∷ 1 ∷ 2 ∷ 3 ∷ 4 ∷ 5 ∷ 6 ∷ [])
unfolding program
eight_gpus = refl

-- With the empty team there are no nodes, and the count of slots is still that of the team before.
stale_count : (set_rset_team [] (set_rset_team (0 ∷ 1 ∷ []) built).1).1.slot_count ≡ some 2
unfolding program
stale_count = refl

no_nodes : (set_rset_team [] (set_rset_team (0 ∷ 1 ∷ []) built).1).1.local_node_count ≡ 0
unfolding program
no_nodes = refl

set_slot_count-AreSummed_example :
    AreSummed
      (record built { slots = three_slots })
      (set_slot_count (record built { slots = three_slots }))
      (0 ∷ 1 ∷ [])
set_slot_count-AreSummed_example =
    set_slot_count-AreSummed (record built { slots = three_slots }) "n1" (0 ∷ 1 ∷ [])
      (("n2", 1 ∷ []) ∷ []) refl
