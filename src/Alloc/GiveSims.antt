-- ===== src/Alloc/GiveSims.antt =====
-- libensemble/alloc_funcs/give_sim_work_first.py
use libensemble.Base.{
  ℕ, ◌+◌, Bool, true, false, ◌&&◌, ◌||◌, not, List, [], ◌∷◌, map, Option, none, some, Outcome, ok,
  raise, ltb, leb, if◌then◌else◌, contains, any, length,
}
use libensemble.Resources.RSets.{value_error}
use libensemble.Resources.Scheduler.Fit.{
  SchedulerError, insufficient_resources, insufficient_free_resources, exhausted, python,
}
use libensemble.Resources.Scheduler.Matching.{SetOrder}
use libensemble.Alloc.{WorkerIndexer, Columns, Point, GenRequest, LibeInfo, WorkRecord}
use libensemble.Alloc.Workers.{avail_worker_ids, points_by_priority, count_gens, all_sim_ended}
use libensemble.Alloc.Support.{AllocSupport}
use libensemble.Alloc.Work.{sim_work, gen_work}
use libensemble.History.Updates.{range_from}

-- The dictionary Work, in the order of its entries.
abbrev pub Works : Type 0
Works = List (ℕ × WorkRecord)

abbrev pub no_info : LibeInfo
no_info = record {
  rset_team = none;
  num_procs = none;
  num_gpus = none;
  gen_count = none;
  H_rows = [];
}

-- ~H["sim_started"] & ~H["cancel_requested"]
abbrev pub to_evaluate : List Point → List Bool
to_evaluate points = map (λ p. not p.sim_started && not p.cancel_requested) points

-- points_to_evaluate[inds] = False, from index `i` on.
unfoldable pub clear_from : ℕ → List ℕ → List Bool → List Bool
clear_from i inds [] = []
clear_from i inds (b ∷ bs) = (b && not (contains i inds)) ∷ clear_from (i + 1) inds bs

abbrev pub is_free_shortage : SchedulerError → Bool
is_free_shortage insufficient_resources = false
is_free_shortage insufficient_free_resources = true
is_free_shortage exhausted = false
is_free_shortage (python _) = false

-- The entries of alloc_specs["user"].
pub record Options : Type 0 where
  pub give_all_with_same_priority : Bool
  pub num_active_gens : Option ℕ
  pub batch_mode : Bool
  pub cancel_sims_time : Option ℕ

abbrev pub and_more : ℕ → WorkRecord → Outcome SchedulerError Works → Outcome SchedulerError Works
and_more wid work (raise e) = raise e
and_more wid work (ok more) = ok ((wid, work) ∷ more)

-- Simulations that run for too long are marked; a time is a natural number.
abbrev pub cancel_late : ℕ → ℕ → Point → Point
cancel_late now limit p =
    if p.sim_started
      && not p.sim_ended
      && not p.cancel_requested
      && ltb (p.sim_started_time + limit) now
    then record p { cancel_requested = true }
    else p

unfoldable pub cancel_points : Option ℕ → ℕ → List Point → List Point
cancel_points none now points = points
cancel_points (some limit) now points = map (cancel_late now limit) points

-- The idle workers; without active_recv nothing is raised.
unfoldable pub idle_ids : WorkerIndexer → Bool → List ℕ
unfolding avail_worker_ids
idle_ids W gen_workers = elim (avail_worker_ids W.iterable none false none (some gen_workers)) [
  | raise e ↦ []
  | ok ids ↦ ids
]

module _ (sets : SetOrder) (procs_per_rset gpus_per_rset : ℕ) where
  -- The loop over the idle workers that are not for generators.
  unfoldable pub give_sims :
      AllocSupport → Columns → Bool → List Bool → List ℕ → Outcome SchedulerError Works
  give_sims s H batch points [] = ok []
  give_sims s H batch points (wid ∷ wids) = elim (points_by_priority H points batch) [
    | none ↦ raise (python value_error)
    | some inds ↦
        let given = sim_work sets procs_per_rset gpus_per_rset s wid H inds no_info in
        let left = clear_from 0 inds points in
        let more = give_sims given.1 H batch left wids in
        elim given.0 [
          | raise e ↦ if is_free_shortage e then ok [] else raise e
          | ok work ↦ if any (λ b. b) left then and_more wid work more else ok ((wid, work) ∷ [])
        ]
  ]

  -- The loop over the idle workers for generators.
  unfoldable pub give_gens :
      AllocSupport
      → Columns
      → Options
      → (ℕ → GenRequest)
      → List ℕ
      → ℕ
      → List ℕ
      → Outcome SchedulerError Works
  give_gens s H user persis_info return_rows gen_count [] = ok []
  give_gens s H user persis_info return_rows gen_count (wid ∷ wids) =
      let limit = elim user.num_active_gens as (λ _. ℕ) [ none ↦ gen_count + 1 | some n ↦ n ] in
      let given =
        gen_work sets procs_per_rset gpus_per_rset s wid (persis_info wid) return_rows no_info in
      let more = give_gens given.1 H user persis_info return_rows (gen_count + 1) wids in
      if leb limit gen_count || (user.batch_mode && not (all_sim_ended H.points none none))
      then ok []
      else elim given.0 [
        | raise e ↦ if is_free_shortage e then ok [] else raise e
        | ok work ↦ and_more wid work more
      ]

  -- `give_sim_work_first`: the dictionary and the history with the marks. `gen_in` tells whether the
  -- generator takes fields of H, and `clock` is the time.
  unfoldable pub give_sim_work_first :
      AllocSupport
      → Columns
      → Options
      → (ℕ → GenRequest)
      → Bool
      → Bool
      → Bool
      → ℕ
      → Outcome SchedulerError Works × Columns
  give_sim_work_first s H user persis_info gen_in sim_max_given any_idle_workers clock =
      let H' = record H { points = cancel_points user.cancel_sims_time clock H.points } in
      let open_points = to_evaluate H'.points in
      let return_rows = if gen_in then range_from 0 (length H'.points) else [] in
      if sim_max_given || not any_idle_workers
      then (ok [], H')
      else if any (λ b. b) open_points
      then (give_sims s H' user.give_all_with_same_priority open_points (idle_ids s.W false), H')
      else (
        give_gens s H' user persis_info return_rows (count_gens s.W.iterable) (idle_ids s.W true),
        H',
      )
