-- ===== src/Alloc/PersistentTests.antt =====
-- start_only_persistent: a generator that waits, and workers that are idle.
use libensemble.Base.{
  ℕ, ◌≡◌, ◌≤◌, ◌-◌, ◌+◌, max, refl, true, false, List, [], ◌∷◌, Option, none, some, Outcome, ok,
  raise, map,
}
use libensemble.Resources.Scheduler.Fit.{SchedulerError}
use libensemble.Alloc.{Columns}
use libensemble.Alloc.Workers.{
  get_worker, avail_worker_ids, points_by_priority, pick_points, nonzero_from, argmax,
  all_sim_ended, all_points, all_done, count_persis_gens,
}
use libensemble.Alloc.Support.{
  AllocSupport, convert_to_rsets, rows_of_column, np_max, max_of_rows, req_procs_sim,
  req_resources_sim, req_resources_gen,
}
use libensemble.Alloc.Work.{
  try_kinds, assign_rset_team, fill_request, update_rset_team, sim_work, gen_work,
}
use libensemble.Alloc.GiveSims.{clear_from}
use libensemble.History.Updates.{range_from}
use libensemble.Alloc.Persistent.{
  Entries, PersistentOptions, put_entry, returned_but_not_given, sim_worker_ids, give_back,
  persis_sims, start_gens, persistent_work, only_persistent_gens,
}
use libensemble.Alloc.Persistent.Started.{limit_of, only_persistent_gens-bounds}
use libensemble.Alloc.Tests.{as_listed, idle, support, new_point, columns, no_request}

abbrev user : PersistentOptions
user = record {
  active_recv_gen = false;
  init_sample_size = 0;
  give_all_with_same_priority = false;
  async_return = true;
  alt_type = false;
  num_active_gens = some 2;
}

-- Worker 1 runs a generator that waits, workers 2 and 3 are idle.
abbrev asked : AllocSupport
asked = record support {
  W = record {
    iterable = (record (idle 1) { persis_state = 2 }) ∷ idle 2 ∷ idle 3 ∷ [];
    additional_worker = false;
  };
}

-- One point that has ended, and one to evaluate.
abbrev two_points : Columns
two_points = record columns {
  resource_sets = none;
  priority = none;
  points = (record new_point { sim_started = true; sim_ended = true }) ∷ new_point ∷ [];
}

program : Unit {0}
unfolding get_worker avail_worker_ids points_by_priority pick_points nonzero_from argmax
    all_sim_ended all_points all_done count_persis_gens convert_to_rsets rows_of_column np_max
    max_of_rows req_procs_sim req_resources_sim req_resources_gen try_kinds assign_rset_team
    fill_request update_rset_team sim_work gen_work clear_from range_from put_entry
    returned_but_not_given sim_worker_ids give_back persis_sims start_gens persistent_work
    only_persistent_gens
program = tt

abbrev Result : Type 0
Result = Entries × ℕ × Option ℕ

abbrev result : Outcome SchedulerError Result → Result
result (raise e) = ([], 0, none)
result (ok out) = out

abbrev tags : Entries → List (ℕ × ℕ)
tags entries = map (λ entry. (entry.0, entry.1.work.tag)) entries

abbrev given : Result
given =
    result (
      only_persistent_gens as_listed 1 1 asked two_points (1 ∷ 1 ∷ []) user no_request false true 1)

-- Results go back to worker 1. Worker 2 is given the point that is left and then, in the same call, a
-- generator in its place.
replaced : tags given.0 ≡ (1, 2) ∷ (2, 2) ∷ []
unfolding program
replaced = refl

only_persistent_gens-bounds_example :
    (1 ≤ count_persis_gens asked.W.iterable)
    × (1 ≤ 2)
    × (count_persis_gens asked.W.iterable + (2 - 1)
        ≤ max (count_persis_gens asked.W.iterable) (limit_of user))
unfolding program
only_persistent_gens-bounds_example =
    only_persistent_gens-bounds as_listed 1 1 asked two_points (1 ∷ 1 ∷ []) user no_request true 1 2
      given.0 refl
