-- ===== src/Alloc/InOrder.antt =====
-- libensemble/alloc_funcs/fast_alloc.py, give_pregenerated_work.py and only_one_gen_alloc.py: rows of H are
-- given out in order. next_to_give and total_gen_calls stand for those entries of persis_info.
use libensemble.Base.{
  ℕ, ◌+◌, Bool, true, false, ◌&&◌, ◌||◌, not, List, [], ◌∷◌, ◌++◌, map, Option, none, some, Outcome,
  ok, raise, ◌>>=◌, ltb, leb, if◌then◌else◌, contains, length,
}
use libensemble.Resources.RSets.{index_error}
use libensemble.Resources.Scheduler.Fit.{SchedulerError, python}
use libensemble.Resources.Scheduler.Matching.{SetOrder}
use libensemble.Alloc.{Columns, GenRequest, WorkRecord}
use libensemble.Alloc.Workers.{skip_canceled_points, count_gens, test_any_gen, all_sim_ended}
use libensemble.Alloc.Support.{AllocSupport}
use libensemble.Alloc.Work.{sim_work, gen_work}
use libensemble.Alloc.GiveSims.{Works, no_info, is_free_shortage, idle_ids}
use libensemble.History.Updates.{range_from}

abbrev pub cancelled : Columns → List Bool
cancelled H = map (λ p. p.cancel_requested) H.points

-- What a loop leaves: the entries of Work, next_to_give and the object that was asked for resources.
abbrev pub Given : Type 0
Given = Works × ℕ × AllocSupport

abbrev pub with_entry : ℕ → WorkRecord → Outcome SchedulerError Given → Outcome SchedulerError Given
with_entry wid work (raise e) = raise e
with_entry wid work (ok (works, next, s)) = ok ((wid, work) ∷ works, next, s)

-- InsufficientFreeResources ends a loop; any other exception is passed on.
abbrev pub stop_or_raise : SchedulerError → ℕ → AllocSupport → Outcome SchedulerError Given
stop_or_raise e next s = if is_free_shortage e then ok ([], next, s) else raise e

module _ (sets : SetOrder) (procs_per_rset gpus_per_rset : ℕ) where
  -- The first loop of fast_alloc.
  unfoldable pub fast_sims : AllocSupport → Columns → ℕ → List ℕ → Outcome SchedulerError Given
  fast_sims s H next [] = ok ([], next, s)
  fast_sims s H next (wid ∷ wids) =
      let at = skip_canceled_points (cancelled H) next in
      elim (ltb at (length H.points)) [
        | false ↦ fast_sims s H at wids
        | true ↦
            let given = sim_work sets procs_per_rset gpus_per_rset s wid H (at ∷ []) no_info in
            elim given.0 [
              | raise e ↦ stop_or_raise e at given.1
              | ok work ↦ with_entry wid work (fast_sims given.1 H (at + 1) wids)
            ]
      ]

  -- The second loop of fast_alloc, for workers that have no work yet: its entries and how many there are.
  unfoldable pub fast_gens :
      AllocSupport
      → List ℕ
      → Option ℕ
      → (ℕ → GenRequest)
      → List ℕ
      → ℕ
      → List ℕ
      → Outcome SchedulerError Works
  fast_gens s busy num_active_gens persis_info return_rows gen_count [] = ok []
  fast_gens s busy num_active_gens persis_info return_rows gen_count (wid ∷ wids) =
      let limit = elim num_active_gens as (λ _. ℕ) [ none ↦ gen_count + 1 | some n ↦ n ] in
      elim (not (contains wid busy) && ltb gen_count limit) [
        | false ↦ fast_gens s busy num_active_gens persis_info return_rows gen_count wids
        | true ↦
            let given =
              gen_work sets procs_per_rset gpus_per_rset s wid (persis_info wid) return_rows
                no_info in
            elim given.0 [
              | raise e ↦ if is_free_shortage e then ok [] else raise e
              | ok work ↦ do
                more ←
                    fast_gens given.1 busy num_active_gens persis_info return_rows (gen_count + 1)
                      wids
                ok ((wid, work) ∷ more)
            ]
      ]

  -- fast_alloc: Work, next_to_give and by how many total_gen_calls grows.
  unfoldable pub fast_alloc :
      AllocSupport
      → Columns
      → Option ℕ
      → (ℕ → GenRequest)
      → Bool
      → Bool
      → Bool
      → ℕ
      → Outcome SchedulerError (Works × ℕ × ℕ)
  fast_alloc s H num_active_gens persis_info gen_in sim_max_given any_idle_workers next_to_give =
      if sim_max_given || not any_idle_workers then ok ([], next_to_give, 0) else (do
        given ← fast_sims s H next_to_give (idle_ids s.W false)
        if ltb given.1 (length H.points) then ok (given.0, given.1, 0) else (do
          gens ←
              fast_gens given.2 (map (λ work. work.0) given.0) num_active_gens persis_info
                (if gen_in then range_from 0 (length H.points) else []) (count_gens s.W.iterable)
                (idle_ids s.W true)
          ok (given.0 ++ gens, given.1, length gens)))

  -- The loop of the other two functions, which does not look at next_to_give after it has skipped rows.
  unfoldable pub next_sims : AllocSupport → Columns → ℕ → List ℕ → Outcome SchedulerError Given
  next_sims s H next [] = ok ([], next, s)
  next_sims s H next (wid ∷ wids) =
      let at = skip_canceled_points (cancelled H) next in
      let given = sim_work sets procs_per_rset gpus_per_rset s wid H (at ∷ []) no_info in
      elim given.0 [
        | raise e ↦ stop_or_raise e at given.1
        | ok work ↦ elim (leb (length H.points) (at + 1)) [
          | true ↦ ok ((wid, work) ∷ [], at + 1, given.1)
          | false ↦ with_entry wid work (next_sims given.1 H (at + 1) wids)
        ]
      ]

  -- give_pregenerated_sim_work: Work, next_to_give, and the flag if one is given.
  unfoldable pub give_pregenerated_sim_work :
      AllocSupport
      → Columns
      → Bool
      → Bool
      → Option ℕ
      → Outcome SchedulerError (Works × Option ℕ × Option ℕ)
  give_pregenerated_sim_work s H sim_max_given any_idle_workers next_to_give =
      let next = elim next_to_give as (λ _. ℕ) [ none ↦ 0 | some n ↦ n ] in
      if sim_max_given || not any_idle_workers
      then ok ([], next_to_give, none)
      else if leb (length H.points) next
      then ok ([], some next, some 1)
      else (do given ← next_sims s H next (idle_ids s.W false); ok (given.0, some given.1, none))

  -- The generator of ensure_one_active_gen, for the first idle worker.
  unfoldable pub one_gen :
      AllocSupport → Columns → (ℕ → GenRequest) → List ℕ → List ℕ → Outcome SchedulerError Works
  one_gen s H persis_info return_rows [] = raise (python index_error)
  one_gen s H persis_info return_rows (wid ∷ wids) =
      if not (all_sim_ended H.points none none)
      then ok []
      else (let given =
            gen_work sets procs_per_rset gpus_per_rset s wid (persis_info wid) return_rows
              no_info in
          elim given.0 [
            | raise e ↦ if is_free_shortage e then ok [] else raise e
            | ok work ↦ ok ((wid, work) ∷ [])
          ])

  -- ensure_one_active_gen: Work, next_to_give and by how many total_gen_calls grows.
  unfoldable pub ensure_one_active_gen :
      AllocSupport
      → Columns
      → (ℕ → GenRequest)
      → Bool
      → Bool
      → Bool
      → ℕ
      → Outcome SchedulerError (Works × ℕ × ℕ)
  ensure_one_active_gen s H persis_info gen_in sim_max_given any_idle_workers next_to_give =
      if sim_max_given || not any_idle_workers
      then ok ([], next_to_give, 0)
      else if ltb next_to_give (length H.points)
      then (do given ← next_sims s H next_to_give (idle_ids s.W false); ok (given.0, given.1, 0))
      else if test_any_gen s.W.iterable
      then ok ([], next_to_give, 0)
      else (do
        gens ←
            one_gen s H persis_info (if gen_in then range_from 0 (length H.points) else [])
              (idle_ids s.W true)
        ok (gens, next_to_give, length gens))
