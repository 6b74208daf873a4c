-- ===== src/Alloc/Tests.antt =====
-- Three workers and four points with priorities, of which one is cancelled.
use libensemble.Base.{
  ℕ, ◌+◌, ◌*◌, ◌≤◌, ◌<◌, ◌≡◌, refl, Bool, true, false, List, [], ◌∷◌, none, some, Outcome, ok,
  raise,
}
use libensemble.Resources.Scheduler.Matching.{SetOrder}
use libensemble.Alloc.{Worker, Point, Columns, GenRequest}
use libensemble.Alloc.Workers.{
  alloc_exception, get_worker, avail_worker_ids, skip_canceled_points, skip_loop,
  points_by_priority, pick_points, nonzero_from, argmax, priority_of, all_sim_ended, all_points,
  all_done, count_gens,
}
use libensemble.Alloc.Support.{
  AllocSupport, convert_to_rsets, rows_of_column, np_max, max_of_rows, req_procs_sim,
  req_resources_sim, req_resources_gen,
}
use libensemble.Alloc.Work.{
  try_kinds, assign_rset_team, fill_request, update_rset_team, sim_work, gen_work,
}
use libensemble.Alloc.GiveSims.{
  Works, Options, clear_from, cancel_points, idle_ids, to_evaluate, give_sims, give_gens,
  give_sim_work_first,
}
use libensemble.Alloc.Given.{AreGiven, all_rows, is_open, give_sims-AreGiven}
use libensemble.Alloc.Choice.{
  skip_canceled_points_lem, points_by_priority-best, convert_to_rsets_lem,
}
use libensemble.History.Updates.{range_from}
use libensemble.Alloc.InOrder.{
  Given, fast_sims, fast_gens, fast_alloc, next_sims, give_pregenerated_sim_work, one_gen,
  ensure_one_active_gen,
}
use libensemble.Alloc.Sequence.{AreNext, fast_sims-AreNext}
use libensemble.Alloc.Workers.{test_any_gen}

pub as_listed : SetOrder
as_listed = record {
  order = λ xs. xs;
  same_members = λ xs a. refl;
  same_length = λ xs. refl;
  still_distinct = λ xs d. d;
}

abbrev pub idle : ℕ → Worker
idle i = record {
  worker_id = i;
  gen_worker = false;
  active = 0;
  persis_state = 0;
  active_recv = false;
  gen_started_time = 0;
  zero_resource_worker = false;
}

abbrev pub support : AllocSupport
support = record {
  W = record {
    iterable = idle 1 ∷ (record (idle 2) { active = 1 }) ∷ idle 3 ∷ [];
    additional_worker = false;
  };
  manage_resources = true;
  sched = none;
  def_gen_num_procs = 0;
  def_gen_num_gpus = 0;
  gen_counter = 0;
}

abbrev pub new_point : Point
new_point = record {
  sim_started = false;
  sim_ended = false;
  gen_informed = false;
  cancel_requested = false;
  sim_started_time = 0;
}

abbrev pub columns : Columns
columns = record {
  resource_sets = some (1 ∷ 2 ∷ 1 ∷ 1 ∷ []);
  num_procs = none;
  use_gpus = none;
  num_gpus = none;
  priority = some (3 ∷ 5 ∷ 9 ∷ 5 ∷ []);
  points = new_point ∷ new_point ∷ (record new_point { cancel_requested = true }) ∷ new_point ∷ [];
}

abbrev options : Options
options = record {
  give_all_with_same_priority = true;
  num_active_gens = none;
  batch_mode = true;
  cancel_sims_time = none;
}

abbrev pub no_request : ℕ → GenRequest
no_request _ = record {
  gen_resources = none;
  gen_use_gpus = none;
  gen_num_procs = none;
  gen_num_gpus = none;
}

abbrev works_of {ℓ} : {E : Type ℓ} → Outcome E Works → Works
works_of (raise e) = []
works_of (ok works) = works

program : Unit {0}
unfolding get_worker avail_worker_ids skip_canceled_points skip_loop points_by_priority pick_points
    nonzero_from argmax all_sim_ended all_points all_done count_gens convert_to_rsets rows_of_column
    np_max max_of_rows req_procs_sim req_resources_sim req_resources_gen try_kinds assign_rset_team
    fill_request update_rset_team sim_work gen_work clear_from cancel_points idle_ids give_sims
    give_gens give_sim_work_first range_from fast_sims fast_gens fast_alloc next_sims
    give_pregenerated_sim_work one_gen ensure_one_active_gen test_any_gen
program = tt

abbrev open_points : List Bool
open_points = to_evaluate columns.points

abbrev works : Works
works = works_of (give_sims as_listed 1 1 support columns true open_points (1 ∷ 3 ∷ []))

-- The points of priority 5 go to worker 1 as a batch, the last one to worker 3.
given_rows : all_rows works ≡ 1 ∷ 3 ∷ 0 ∷ []
unfolding program
given_rows = refl

given_first :
    (give_sim_work_first as_listed 1 1 support columns options no_request true false true 0).0
    ≡ ok works
unfolding program
given_first = refl

persistent_only : avail_worker_ids (idle 1 ∷ []) none true none none ≡ raise alloc_exception
unfolding program
persistent_only = refl

give_sims-AreGiven_example : AreGiven open_points (1 ∷ 3 ∷ []) works
unfolding program
give_sims-AreGiven_example =
    give_sims-AreGiven as_listed 1 1 support columns true open_points (1 ∷ 3 ∷ []) works
      (refl, (refl, tt)) refl

points_by_priority-best_example :
    priority_of (3 ∷ 5 ∷ 9 ∷ 5 ∷ []) 0 ≤ priority_of (3 ∷ 5 ∷ 9 ∷ 5 ∷ []) 3
unfolding program
points_by_priority-best_example =
    points_by_priority-best columns (3 ∷ 5 ∷ 9 ∷ 5 ∷ []) open_points true (1 ∷ 3 ∷ []) refl refl 3 0
      refl refl

skip_canceled_points_lem_example :
    (1 ≤ skip_canceled_points (false ∷ true ∷ true ∷ false ∷ []) 1)
    × ((i : ℕ)
        → 1 ≤ i
        → i < skip_canceled_points (false ∷ true ∷ true ∷ false ∷ []) 1
        → is_open (false ∷ true ∷ true ∷ false ∷ []) i ≡ true)
    × (is_open
          (false ∷ true ∷ true ∷ false ∷ [])
          (skip_canceled_points (false ∷ true ∷ true ∷ false ∷ []) 1)
        ≡ false)
skip_canceled_points_lem_example = skip_canceled_points_lem (false ∷ true ∷ true ∷ false ∷ []) 1

abbrev given_of {ℓ} : {E : Type ℓ} → Outcome E Given → Given
given_of (raise e) = ([], 0, support)
given_of (ok given) = given

abbrev in_order : Given
in_order = given_of (fast_sims as_listed 1 1 support columns 1 (1 ∷ 3 ∷ []))

-- Row 2 is cancelled, and is left out.
ordered_rows : all_rows in_order.0 ≡ 1 ∷ 3 ∷ []
unfolding program
ordered_rows = refl

fast_sims-AreNext_example : AreNext columns 1 4 in_order.0
unfolding program
fast_sims-AreNext_example =
    fast_sims-AreNext as_listed 1 1 support in_order.2 columns 1 4 (1 ∷ 3 ∷ []) in_order.0 refl

-- With all rows that are left cancelled, the row after the last one is given out.
abbrev last_cancelled : Columns
last_cancelled = record columns {
  points = new_point ∷ (record new_point { cancel_requested = true }) ∷ [];
  resource_sets = none;
}

row_outside :
    all_rows (given_of (next_sims as_listed 1 1 support last_cancelled 1 (1 ∷ []))).0 ≡ 2 ∷ []
unfolding program
row_outside = refl

-- fast_alloc gives out nothing there, and goes on to generators.
fast_stops : all_rows (given_of (fast_sims as_listed 1 1 support last_cancelled 1 (1 ∷ []))).0 ≡ []
unfolding program
fast_stops = refl

abbrev units : ℕ
units = 7

abbrev rsets : ℕ
rsets = 3

convert_to_rsets_lem_example :
    (units ≤ rsets * 3) × (0 < rsets → rsets * 3 < units + 3) × (rsets ≡ 0 → units ≡ 0)
unfolding program
convert_to_rsets_lem_example = convert_to_rsets_lem 3 units rsets refl
