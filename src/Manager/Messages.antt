-- ===== src/Manager/Messages.antt =====
-- libensemble/manager.py, class Manager: the messages of the workers.
use libensemble.Base.{
  ℕ, Bool, true, false, ◌&&◌, ◌||◌, not, none, some, Outcome, ok, ◌>>=◌, ◌>>◌, require, or_raise,
  ◌==◌, if◌then◌else◌, length, any, contains, filter,
}
use libensemble.History.{History}
use libensemble.History.Updates.{update_history_x_in, update_history_f}
use libensemble.Alloc.{Worker}
use libensemble.Alloc.Workers.{get_worker, eval_sim_tag, eval_gen_tag}
use libensemble.Manager.{
  Manager, ManagerError, assertion_error, index_error, type_error, history_error, Message, Status,
  finished_persistent_sim, finished_persistent_gen, other_status, set_worker, freeup_resources,
  lifted, with_hist,
}

abbrev pub is_finished : Status → Bool
is_finished finished_persistent_sim = true
is_finished finished_persistent_gen = true
is_finished other_status = false

-- The row of a worker at the start: it is idle, unless it is pending, in active receive or keeps its state.
unfoldable pub settle_worker : Bool → Message → Worker → Worker
settle_worker pending msg wrk =
    if not pending && not wrk.active_recv && not msg.keep_state
    then record wrk { active = 0 }
    else wrk

-- The row of a worker whose persistent function has finished.
unfoldable pub finish_worker : Bool → Worker → Worker
finish_worker pending wrk = record wrk {
  persis_state = 0;
  active = if wrk.active_recv || pending then 0 else wrk.active;
  active_recv = false;
}

abbrev pub wait_worker : Message → Worker → Worker
wait_worker msg wrk = record wrk { persis_state = msg.calc_type }

-- The last output of a persistent function is taken in if the options ask for it.
unfoldable pub take_final : ℕ → Manager → Message → ℕ → ℕ → Outcome ManagerError History
take_final clock m msg w started = elim msg.calc_status [
  | other_status ↦ ok m.hist
  | finished_persistent_gen ↦ elim msg.gen_out [
    | none ↦ ok m.hist
    | some D ↦
        if m.use_persis_return_gen
        then lifted history_error (update_history_x_in w D started clock m.hist)
        else ok m.hist
  ]
  | finished_persistent_sim ↦ elim msg.sim_out [
    | none ↦ ok m.hist
    | some rows ↦
        if m.use_persis_return_sim
        then lifted history_error
            (update_history_f msg.H_rows (some rows) m.kill_canceled_sims clock m.hist)
        else ok m.hist
  ]
]

-- The output of a simulation.
unfoldable pub take_sim : ℕ → Manager → Message → Outcome ManagerError History
take_sim clock m msg =
    if msg.calc_type == eval_sim_tag
    then lifted history_error
        (update_history_f msg.H_rows msg.sim_out m.kill_canceled_sims clock m.hist)
    else ok m.hist

-- The output of a generator; one that returns nothing must not be all that there is to wait for.
unfoldable pub take_gen : ℕ → Manager → Message → ℕ → Worker → Outcome ManagerError History
take_gen clock m msg w wrk =
    if msg.calc_type == eval_gen_tag
    then (do
      D ← or_raise msg.gen_out type_error
      h ← lifted history_error (update_history_x_in w D wrk.gen_started_time clock m.hist)
      require
          (not (length D.rows == 0)
            || any (λ r. not (r.active == 0)) m.W.iterable
            || not (wrk.persis_state == 0))
          assertion_error
      ok h)
    else ok m.hist

-- `_update_state_on_worker_msg`
unfoldable pub update_state_on_worker_msg : ℕ → Manager → Message → ℕ → Outcome ManagerError Manager
update_state_on_worker_msg clock m msg w = do
  let pending = contains w m.persis_pending
  let settled = set_worker w (settle_worker pending msg) m
  wrk ← or_raise (get_worker settled.W w) index_error
  if is_finished msg.calc_status
      then (do
        h ← take_final clock settled msg w wrk.gen_started_time
        let done = set_worker w (finish_worker pending) (with_hist settled h)
        ok (
            freeup_resources
              (record done { persis_pending = filter (λ v. not (v == w)) m.persis_pending }) w))
      else (do
        h ← take_sim clock settled msg
        k ← take_gen clock (with_hist settled h) msg w wrk
        ok (
            if msg.persistent
            then set_worker w (wait_worker msg) (with_hist settled k)
            else freeup_resources (with_hist settled k) w))
