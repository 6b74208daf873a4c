-- ===== src/Alloc/Persistent.antt =====
-- libensemble/alloc_funcs/start_only_persistent.py. The column gen_worker of H is an argument beside the other
-- columns; num_gens_started stands for that entry of persis_info.
pub mod Started
use libensemble.Base.{
  ℕ, ◌+◌, Bool, true, false, ◌&&◌, ◌||◌, not, List, [], ◌∷◌, ◌++◌, map, Option, none, some, Outcome,
  ok, raise, ◌>>=◌, ltb, leb, ◌==◌, if◌then◌else◌, contains, any, count, filter, length,
}
use libensemble.Resources.RSets.{value_error}
use libensemble.Resources.Scheduler.Fit.{SchedulerError, python}
use libensemble.Resources.Scheduler.Matching.{SetOrder}
use libensemble.Alloc.{Worker, Columns, GenRequest, Point, WorkRecord}
use libensemble.Alloc.Workers.{
  avail_worker_ids, points_by_priority, nonzero_from, count_persis_gens, all_sim_ended,
  eval_gen_tag, eval_sim_tag,
}
use libensemble.Alloc.Support.{AllocSupport}
use libensemble.Alloc.Work.{sim_work, gen_work}
use libensemble.Alloc.GiveSims.{no_info, is_free_shortage, clear_from, to_evaluate}
use libensemble.History.Updates.{range_from}

-- A work record with the entries that this function adds to libE_info.
pub record PersistentWork : Type 0 where
  pub work : WorkRecord
  pub persistent : Bool
  pub active_recv : Bool

abbrev pub Entries : Type 0
Entries = List (ℕ × PersistentWork)

-- Work[wid] = entry
unfoldable pub put_entry : ℕ → PersistentWork → Entries → Entries
put_entry wid entry [] = (wid, entry) ∷ []
put_entry wid entry ((key, old) ∷ entries) =
    let rest = put_entry wid entry entries in
    if key == wid then (wid, entry) ∷ entries else (key, old) ∷ rest

abbrev pub put_all : Entries → Entries → Entries
put_all Work [] = Work
put_all Work ((wid, entry) ∷ more) = put_all (put_entry wid entry Work) more

-- The entries of alloc_specs["user"].
pub record PersistentOptions : Type 0 where
  pub active_recv_gen : Bool
  pub init_sample_size : ℕ
  pub give_all_with_same_priority : Bool
  pub async_return : Bool
  pub alt_type : Bool
  pub num_active_gens : Option ℕ

-- Here avail_worker_ids asks for persistent workers, or for no active receive, and raises nothing.
abbrev pub ids_of {ℓ} : {E : Type ℓ} → Outcome E (List ℕ) → List ℕ
ids_of (raise e) = []
ids_of (ok ids) = ids

-- H["gen_worker"] == wid
abbrev pub made_by : ℕ → List ℕ → List Bool
made_by wid gen_worker = map (λ w. w == wid) gen_worker

-- Rows of the generator that have ended and that it has not been told of.
unfoldable pub returned_but_not_given : List Point → List Bool → List Bool
returned_but_not_given [] gen_inds = []
returned_but_not_given (p ∷ points) [] = []
returned_but_not_given (p ∷ points) (mine ∷ gen_inds) =
    (p.sim_ended && not p.gen_informed && mine) ∷ returned_but_not_given points gen_inds

-- The idle workers for simulations, with `alt_type` also those that run a persistent one.
unfoldable pub sim_worker_ids : SetOrder → List Worker → Bool → List ℕ
sim_worker_ids sets W alt_type =
    if alt_type
    then (let plain = ids_of (avail_worker_ids W (some 0) false (some false) none) in
        let lasting = ids_of (avail_worker_ids W (some eval_sim_tag) false (some false) none) in
        sets.order (plain ++ filter (λ wid. not (contains wid plain)) lasting))
    else ids_of (avail_worker_ids W (some 0) false (some false) (some false))

abbrev pub and_back :
    ℕ
    → PersistentWork
    → Outcome SchedulerError (Entries × AllocSupport)
    → Outcome SchedulerError (Entries × AllocSupport)
and_back wid entry (raise e) = raise e
and_back wid entry (ok (entries, s)) = ok ((wid, entry) ∷ entries, s)

abbrev pub and_sims :
    ℕ
    → PersistentWork
    → Outcome SchedulerError (Entries × List Bool × AllocSupport)
    → Outcome SchedulerError (Entries × List Bool × AllocSupport)
and_sims wid entry (raise e) = raise e
and_sims wid entry (ok (entries, points, s)) = ok ((wid, entry) ∷ entries, points, s)

module _ (sets : SetOrder) (procs_per_rset gpus_per_rset : ℕ) where
  -- The loop that gives evaluated results back to the generators that run.
  unfoldable pub give_back :
      AllocSupport
      → Columns
      → List ℕ
      → Bool
      → Bool
      → (ℕ → GenRequest)
      → List ℕ
      → Outcome SchedulerError (Entries × AllocSupport)
  give_back s H gen_worker async_return active_recv persis_info [] = ok ([], s)
  give_back s H gen_worker async_return active_recv persis_info (wid ∷ wids) =
      let gen_inds = made_by wid gen_worker in
      let returned = returned_but_not_given H.points gen_inds in
      let given =
        gen_work sets procs_per_rset gpus_per_rset s wid (persis_info wid) (nonzero_from 0 returned)
          no_info in
      elim (any (λ b. b) returned
        && (async_return || all_sim_ended H.points (some gen_inds) none)) [
          | false ↦ give_back s H gen_worker async_return active_recv persis_info wids
          | true ↦ elim given.0 [
            | raise e ↦ raise e
            | ok work ↦
                and_back wid (record { work = work; persistent = true; active_recv = active_recv })
                  (give_back given.1 H gen_worker async_return active_recv persis_info wids)
          ]
        ]

  -- The loop over the idle workers for simulations: the entries, the points that are left and the object.
  unfoldable pub persis_sims :
      AllocSupport
      → Columns
      → Bool
      → Bool
      → List Bool
      → List ℕ
      → Outcome SchedulerError (Entries × List Bool × AllocSupport)
  persis_sims s H batch alt_type points [] = ok ([], points, s)
  persis_sims s H batch alt_type points (wid ∷ wids) = elim (any (λ b. b) points) [
    | false ↦ ok ([], points, s)
    | true ↦ elim (points_by_priority H points batch) [
      | none ↦ raise (python value_error)
      | some inds ↦
          let given = sim_work sets procs_per_rset gpus_per_rset s wid H inds no_info in
          elim given.0 [
            | raise e ↦ if is_free_shortage e then ok ([], points, given.1) else raise e
            | ok work ↦
                and_sims wid (record { work = work; persistent = alt_type; active_recv = false })
                  (persis_sims given.1 H batch alt_type (clear_from 0 inds points) wids)
          ]
    ]
  ]

  -- The loop that starts persistent generators.
  unfoldable pub start_gens :
      AllocSupport
      → ℕ
      → Bool
      → (ℕ → GenRequest)
      → List ℕ
      → ℕ
      → List ℕ
      → Outcome SchedulerError Entries
  start_gens s num_active_gens active_recv persis_info rows gen_count [] = ok []
  start_gens s num_active_gens active_recv persis_info rows gen_count (wid ∷ wids) =
      elim (ltb gen_count num_active_gens) [
        | false ↦ start_gens s num_active_gens active_recv persis_info rows gen_count wids
        | true ↦
            let given =
              gen_work sets procs_per_rset gpus_per_rset s wid (persis_info wid) rows no_info in
            elim given.0 [
              | raise e ↦ if is_free_shortage e then ok [] else raise e
              | ok work ↦ do
                more ←
                    start_gens given.1 num_active_gens active_recv persis_info rows (gen_count + 1)
                      wids
                ok (
                    (wid, record { work = work; persistent = true; active_recv = active_recv })
                    ∷ more)
            ]
      ]

  -- What follows when the generators that were started still run.
  unfoldable pub persistent_work :
      AllocSupport
      → Columns
      → List ℕ
      → PersistentOptions
      → (ℕ → GenRequest)
      → ℕ
      → Outcome SchedulerError (Entries × ℕ × Option ℕ)
  persistent_work s H gen_worker user persis_info started = do
    let W = s.W.iterable
    let async = user.async_return && leb user.init_sample_size (count (λ p. p.sim_ended) H.points)
    let running = ids_of (avail_worker_ids W (some eval_gen_tag) user.active_recv_gen none none)
    back ← give_back s H gen_worker async user.active_recv_gen persis_info running
    sims ←
        persis_sims back.1 H user.give_all_with_same_priority user.alt_type (to_evaluate H.points)
          (sim_worker_ids sets W user.alt_type)
    let Work = put_all back.0 sims.0
    if any (λ b. b) sims.1 then ok (Work, started, some 0) else (do
      let limit = elim user.num_active_gens as (λ _. ℕ) [ none ↦ 1 | some n ↦ n ]
      gens ←
          start_gens sims.2 limit user.active_recv_gen persis_info (range_from 0 (length H.points))
            (count_persis_gens W)
            (ids_of (avail_worker_ids W (some 0) false (some true) (some true)))
      ok (put_all Work gens, started + length gens, some 0))

  -- only_persistent_gens: Work, num_gens_started, and the flag if one is given. With fewer generators than
  -- were started the flag is 1.
  unfoldable pub only_persistent_gens :
      AllocSupport
      → Columns
      → List ℕ
      → PersistentOptions
      → (ℕ → GenRequest)
      → Bool
      → Bool
      → ℕ
      → Outcome SchedulerError (Entries × ℕ × Option ℕ)
  only_persistent_gens s H gen_worker user persis_info sim_max_given any_idle_workers started =
      if sim_max_given || not any_idle_workers
      then ok ([], started, none)
      else if ltb (count_persis_gens s.W.iterable) started
      then ok ([], started, some 1)
      else persistent_work s H gen_worker user persis_info started
