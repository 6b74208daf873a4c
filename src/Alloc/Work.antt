-- ===== src/Alloc/Work.antt =====
-- libensemble/tools/alloc_support.py, class AllocSupport: resource sets for a work record, and the
-- records themselves.
use libensemble.Base.{
  ℕ, ◌+◌, Bool, true, false, ◌&&◌, not, List, [], ◌∷◌, Option, none, some, Outcome, ok, raise, ◌==◌,
  if◌then◌else◌,
}
use libensemble.Resources.RSets.{index_error}
use libensemble.Resources.Scheduler.{ResourceScheduler, assign_resources}
use libensemble.Resources.Scheduler.Fit.{
  SchedulerError, insufficient_resources, insufficient_free_resources, exhausted, python,
}
use libensemble.Resources.Scheduler.Matching.{SetOrder}
use libensemble.Alloc.{Columns, GenRequest, LibeInfo, WorkRecord}
use libensemble.Alloc.Workers.{get_worker, eval_sim_tag, eval_gen_tag}
use libensemble.Alloc.Support.{AllocSupport, Request, req_resources_sim, req_resources_gen}

-- The exceptions that the first attempt, without GPUs, passes over.
abbrev pub is_insufficient : SchedulerError → Bool
is_insufficient insufficient_resources = true
is_insufficient insufficient_free_resources = true
is_insufficient exhausted = false
is_insufficient (python _) = false

abbrev pub with_sched :
    AllocSupport
    → Outcome SchedulerError (List ℕ) × ResourceScheduler
    → Outcome SchedulerError (Option (List ℕ)) × AllocSupport
with_sched s (raise e, sched) = (raise e, record s { sched = some sched })
with_sched s (ok team, sched) = (ok (some team), record s { sched = some sched })

module _ (sets : SetOrder) where
  -- With no kind given, resource sets without GPUs are tried first.
  unfoldable pub try_kinds :
      ResourceScheduler
      → ℕ
      → Option Bool
      → List ℕ
      → Outcome SchedulerError (List ℕ) × ResourceScheduler
  try_kinds sched req (some gpus) params = assign_resources sets sched req (some gpus) params
  try_kinds sched req none params =
      let first = assign_resources sets sched req (some false) params in
      elim first.0 [
        | ok team ↦ first
        | raise e ↦
            if is_insufficient e then assign_resources sets first.1 req none params else first
      ]

  -- `AllocSupport.assign_resources`
  unfoldable pub assign_rset_team :
      AllocSupport
      → ℕ
      → Option Bool
      → List ℕ
      → Outcome SchedulerError (Option (List ℕ)) × AllocSupport
  unfolding try_kinds
  assign_rset_team s req use_gpus params = elim s.sched [
    | none ↦ (ok none, s)
    | some sched ↦ with_sched s (try_kinds sched req use_gpus params)
  ]

  -- The end of `_update_rset_team`, for a request that is worked out.
  unfoldable pub fill_request :
      AllocSupport
      → LibeInfo
      → Outcome SchedulerError Request
      → Outcome SchedulerError LibeInfo × AllocSupport
  unfolding assign_rset_team
  fill_request s info (raise e) = (raise e, s)
  fill_request s info (ok r) =
      let got = assign_rset_team s r.rsets_req r.use_gpus r.user_params in
      elim got.0 [
        | raise e ↦ (raise e, got.1)
        | ok team ↦ (
          ok (record info {
            rset_team = team;
            num_procs = elim r.num_procs [ none ↦ info.num_procs | some n ↦ some n ];
            num_gpus = elim r.num_gpus [ none ↦ info.num_gpus | some n ↦ some n ];
          }),
          got.1,
        )
      ]

  abbrev pub has_team : LibeInfo → Bool
  has_team info = elim info.rset_team [ none ↦ false | some [] ↦ false | some (_ ∷ _) ↦ true ]

  -- `_update_rset_team`: a worker in persistent state gets the empty team.
  unfoldable pub update_rset_team :
      AllocSupport
      → LibeInfo
      → ℕ
      → Outcome SchedulerError Request
      → Outcome SchedulerError LibeInfo × AllocSupport
  unfolding fill_request
  update_rset_team s info wid request =
      if s.manage_resources && not (has_team info)
      then (elim (get_worker s.W wid) [
        | none ↦ (raise (python index_error), s)
        | some w ↦
            if w.persis_state == 0
            then fill_request s info request
            else (ok (record info { rset_team = some [] }), s)
      ])
      else (ok info, s)

  unfoldable pub sim_work :
      ℕ
      → ℕ
      → AllocSupport
      → ℕ
      → Columns
      → List ℕ
      → LibeInfo
      → Outcome SchedulerError WorkRecord × AllocSupport
  sim_work procs gpus s wid H H_rows info =
      let got = update_rset_team s info wid (req_resources_sim procs gpus H H_rows) in
      elim got.0 [
        | raise e ↦ (raise e, got.1)
        | ok filled ↦ (
          ok (record { tag = eval_sim_tag; libe_info = record filled { H_rows = H_rows } }),
          got.1,
        )
      ]

  -- A generator that is not in persistent state is counted.
  unfoldable pub gen_work :
      ℕ
      → ℕ
      → AllocSupport
      → ℕ
      → GenRequest
      → List ℕ
      → LibeInfo
      → Outcome SchedulerError WorkRecord × AllocSupport
  gen_work procs gpus s wid persis_info H_rows info =
      let got =
        update_rset_team s info wid
          (req_resources_gen procs gpus persis_info s.def_gen_num_procs s.def_gen_num_gpus) in
      elim got.0 [
        | raise e ↦ (raise e, got.1)
        | ok filled ↦ elim (get_worker s.W wid) [
          | none ↦ (raise (python index_error), got.1)
          | some w ↦
              let s' = got.1 in
              if w.persis_state == 0
              then (
                ok (record {
                  tag = eval_gen_tag;
                  libe_info = record filled {
                    gen_count = some (s'.gen_counter + 1);
                    H_rows = H_rows;
                  };
                }),
                record s' { gen_counter = s'.gen_counter + 1 },
              )
              else (
                ok (record { tag = eval_gen_tag; libe_info = record filled { H_rows = H_rows } }),
                s',
              )
        ]
      ]
