-- ===== src/Alloc/Support.antt =====
-- libensemble/tools/alloc_support.py, class AllocSupport: resource requests and work records.
-- A method that may raise returns the object too: the scheduler keeps what it cached.
use libensemble.Base.{
  ℕ, ◌+◌, ◌/◌, ◌%◌, max, Bool, true, not, List, [], ◌∷◌, ◌++◌, Option, none, some, Outcome, ok,
  raise, ◌>>=◌, or_raise, ◌==◌, ltb, if◌then◌else◌, get_elem?, any,
}
use libensemble.Resources.RSets.{index_error, value_error}
use libensemble.Resources.Scheduler.{ResourceScheduler}
use libensemble.Resources.Scheduler.Fit.{SchedulerError, insufficient_resources, python}
use libensemble.Alloc.{WorkerIndexer, Columns, GenRequest}

-- The object; `sched` is none if libEnsemble manages no resources.

pub record AllocSupport : Type 0 where
  pub W : WorkerIndexer
  pub manage_resources : Bool
  pub sched : Option ResourceScheduler
  pub def_gen_num_procs : ℕ
  pub def_gen_num_gpus : ℕ
  pub gen_counter : ℕ

-- What a request comes to: the resource sets, the kind, user_params and the values for libE_info.
pub record Request : Type 0 where
  pub rsets_req : ℕ
  pub use_gpus : Option Bool
  pub user_params : List ℕ
  pub num_procs : Option ℕ
  pub num_gpus : Option ℕ

-- `_convert_to_rsets`, the number of resource sets.
unfoldable pub convert_to_rsets : ℕ → ℕ → Outcome SchedulerError ℕ
convert_to_rsets units_per_rset num_units =
    if num_units == 0
    then ok 0
    else if units_per_rset == 0
    then raise insufficient_resources
    else ok (num_units / units_per_rset + (if num_units % units_per_rset == 0 then 0 else 1))

-- H[H_rows][column]
unfoldable pub rows_of_column {ℓ} : {A : Type ℓ} → List ℕ → List A → Outcome SchedulerError (List A)
rows_of_column [] column = ok []
rows_of_column (i ∷ rows) column = do
  a ← or_raise (get_elem? column i) (python index_error)
  rest ← rows_of_column rows column
  ok (a ∷ rest)

unfoldable pub np_max : List ℕ → Outcome SchedulerError ℕ
np_max [] = raise (python value_error)
np_max (a ∷ []) = ok a
np_max (a ∷ b ∷ rest) = do m ← np_max (b ∷ rest); ok (max a m)

unfoldable pub max_of_rows : List ℕ → List ℕ → Outcome SchedulerError ℕ
unfolding rows_of_column np_max
max_of_rows H_rows column = do values ← rows_of_column H_rows column; np_max values

module _ (procs_per_rset gpus_per_rset : ℕ) where
  -- The part of `_req_resources_sim` without GPUs: resource_sets, or else num_procs, or else 1.
  unfoldable pub req_procs_sim : Columns → List ℕ → Outcome SchedulerError Request
  req_procs_sim H H_rows = elim H.resource_sets [
    | some column ↦ do
      n ← max_of_rows H_rows column
      ok (record {
        rsets_req = n;
        use_gpus = none;
        user_params = [];
        num_procs = none;
        num_gpus = none;
      })
    | none ↦ elim H.num_procs [
      | some column ↦ do
        units ← max_of_rows H_rows column
        n ← convert_to_rsets procs_per_rset units
        ok (record {
          rsets_req = n;
          use_gpus = none;
          user_params = units ∷ [];
          num_procs = some units;
          num_gpus = none;
        })
      | none ↦ ok (record {
        rsets_req = 1;
        use_gpus = none;
        user_params = [];
        num_procs = none;
        num_gpus = none;
      })
    ]
  ]

  abbrev pub asks_gpus : Columns → List ℕ → Outcome SchedulerError (Option Bool)
  asks_gpus H H_rows = elim H.use_gpus [
    | none ↦ ok none
    | some column ↦ do flags ← rows_of_column H_rows column; ok (some (any (λ b. b) flags))
  ]

  -- The part for num_gpus, which both kinds of work share.
  abbrev pub with_gpus : Request → ℕ → Outcome SchedulerError Request
  with_gpus r units = do
    n ← convert_to_rsets gpus_per_rset units
    ok (record r {
      rsets_req = max r.rsets_req n;
      use_gpus = if ltb 0 n then some true else r.use_gpus;
      user_params = r.user_params ++ units ∷ [];
      num_gpus = some units;
    })

  unfoldable pub req_resources_sim : Columns → List ℕ → Outcome SchedulerError Request
  req_resources_sim H H_rows = do
    r ← req_procs_sim H H_rows
    use_gpus ← asks_gpus H H_rows
    let asked = record r { use_gpus = use_gpus }
    elim H.num_gpus [
      | none ↦ ok asked
      | some column ↦ do units ← max_of_rows H_rows column; with_gpus asked units
    ]

  abbrev pub or_default : Option ℕ → ℕ → ℕ
  or_default none d = d
  or_default (some n) d = n

  -- A count of 0 is not converted, and leaves user_params as they are.
  unfoldable pub req_resources_gen : GenRequest → ℕ → ℕ → Outcome SchedulerError Request
  req_resources_gen persis_info def_procs def_gpus =
      let given = or_default persis_info.gen_resources 0 in
      let nprocs = or_default persis_info.gen_num_procs def_procs in
      let ngpus = or_default persis_info.gen_num_gpus def_gpus in
      let asked : Request = record {
        rsets_req = given;
        use_gpus = persis_info.gen_use_gpus;
        user_params = [];
        num_procs = none;
        num_gpus = none;
      } in
      if not (given == 0) then ok asked else (do
        n ← convert_to_rsets procs_per_rset nprocs
        let r =
            if nprocs == 0
            then asked
            else record asked { rsets_req = n; user_params = nprocs ∷ []; num_procs = some nprocs }
        if ngpus == 0 then ok r else with_gpus r ngpus)
