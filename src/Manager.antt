-- ===== src/Manager.antt =====
-- libensemble/manager.py, class Manager: the worker table, the history and the resources under work
-- orders and worker messages. Messages themselves, persis_info and logging are left out.
pub mod Messages
pub mod Exit
pub mod States
pub mod Kill
pub mod Signals
pub mod Loop
pub mod Final
pub mod Owners
pub mod Orders
pub mod Records
pub mod Rounds
pub mod Sound
mod Tests
pub mod Closing
pub mod Refusals
pub mod Handshakes
mod LoopTests
mod KillTests
use libensemble.Base.{
  ℕ, zero, suc, ◌+◌, ◌-◌, Bool, true, false, ◌&&◌, ◌||◌, not, List, [], ◌∷◌, map, Option, none,
  some, Outcome, ok, raise, ◌>>=◌, ◌>>◌, require, or_raise, ltb, leb, ◌==◌, if◌then◌else◌, length,
  get_elem?, filter, any, all, modify_at, contains,
}
use libensemble.Resources.RSets.{PythonError}
use libensemble.Resources.Assignment.{ResourceManager, assign_rsets, free_rsets}
use libensemble.History.{History, HistoryError, SimEntry, GenOut}
use libensemble.History.Updates.{
  update_history_x_in, update_history_x_out, update_history_f, update_history_to_gen,
}
use libensemble.History.Entries.{has_field}
use libensemble.Worker.{persis_stop}
use libensemble.Alloc.{Worker, WorkerIndexer}
use libensemble.Alloc.Workers.{get_worker, eval_sim_tag, eval_gen_tag}

pub data ManagerError : Type 0 where
  assertion_error index_error key_error type_error worker_exception : ManagerError
  history_error : HistoryError → ManagerError
  resource_error : PythonError → ManagerError

pub record Manager : Type 0 where
  pub W : WorkerIndexer
  pub hist : History
  pub resources : Option ResourceManager
  pub persis_pending : List ℕ
  pub kill_canceled_sims : Bool
  pub use_persis_return_gen : Bool
  pub use_persis_return_sim : Bool
  pub worker_exc : Bool

-- The names of fields to send: libE's own are always in H.
pub data FieldName : Type 0 where
  libe_field user_field : ℕ → FieldName

-- A work order. `persistent` tells whether libE_info has that key, and `active_recv` what it holds.
pub record Order : Type 0 where
  pub tag : ℕ
  pub H_fields : List FieldName
  pub H_rows : List ℕ
  pub rset_team : Option (List ℕ)
  pub persistent : Bool
  pub active_recv : Option Bool

pub data Status : Type 0 where
  finished_persistent_sim finished_persistent_gen other_status : Status

-- What a worker returns, D_recv. The output is there for a simulation or for a generator.
pub record Message : Type 0 where
  pub calc_type : ℕ
  pub calc_status : Status
  pub keep_state : Bool
  pub persistent : Bool
  pub H_rows : List ℕ
  pub sim_out : Option (List (List SimEntry))
  pub gen_out : Option GenOut

-- Exceptions of a part, as the manager sees them.
abbrev pub lifted {ℓ κ} :
    {E : Type ℓ} {A : Type κ} → (E → ManagerError) → Outcome E A → Outcome ManagerError A
lifted f (raise e) = raise (f e)
lifted f (ok a) = ok a

-- self.W[w] = ...
unfoldable pub set_worker : ℕ → (Worker → Worker) → Manager → Manager
set_worker w f m =
    let W = m.W in
    record m {
      W = record W { iterable = modify_at (if W.additional_worker then w else w - 1) f W.iterable };
    }

abbrev pub is_in_H : History → FieldName → Bool
is_in_H h (libe_field _) = true
is_in_H h (user_field name) = has_field name h.blank

-- `_check_work_order`
unfoldable pub check_work_order : Manager → Order → ℕ → Bool → Outcome ManagerError (Unit {0})
check_work_order m work w force = do
  wrk ← or_raise (get_worker m.W w) index_error
  require
      (if wrk.active_recv
        then (elim work.active_recv [ none ↦ false | some _ ↦ true ])
        else force || wrk.active == 0)
      assertion_error
  require
      (length work.H_rows == 0
        || (ltb 0 (length work.H_fields) && all (is_in_H m.hist) work.H_fields))
      assertion_error

-- The default team of a worker: its own resource set, if it has one.
abbrev pub default_team : Option (Option ℕ) → Outcome ManagerError (List ℕ)
default_team none = raise index_error
default_team (some none) = ok []
default_team (some (some rset)) = ok (rset ∷ [])

-- index_list[w - 1]: for worker 0 it is the last entry.
unfoldable pub team_of : ResourceManager → Order → ℕ → Outcome ManagerError (List ℕ)
team_of manager work w = elim work.rset_team [
  | some team ↦ ok team
  | none ↦
      default_team
        (get_elem? manager.index_list (if w == 0 then length manager.index_list - 1 else w - 1))
]

-- `_set_resources`, where there are resources to manage.
unfoldable pub set_resources : Manager → Order → ℕ → Outcome ManagerError Manager
set_resources m work w = elim m.resources [
  | none ↦ ok m
  | some manager ↦ do
    team ← team_of manager work w
    assigned ← lifted resource_error (assign_rsets manager team w)
    ok (record m { resources = some assigned })
]

-- `_freeup_resources`
unfoldable pub freeup_resources : Manager → ℕ → Manager
freeup_resources m w = elim m.resources [
  | none ↦ m
  | some manager ↦ record m { resources = some (free_rsets manager (some w)) }
]

-- The tags with an entry in calc_type_strings.
abbrev pub has_type_string : ℕ → Bool
has_type_string tag = tag == eval_sim_tag || tag == eval_gen_tag || tag == persis_stop

-- The first half of `_send_work_order`: resources and the clock.
unfoldable pub set_up_order : ℕ → Manager → Order → ℕ → Outcome ManagerError Manager
set_up_order clock m work w = do
  g ← set_resources m work w
  ok (
      if work.tag == eval_gen_tag
      then set_worker w (λ wrk. record wrk { gen_started_time = clock }) g
      else g)

-- `_send_work_order`: what it changes besides sending.
unfoldable pub send_work_order : ℕ → Manager → Order → ℕ → Outcome ManagerError Manager
send_work_order clock m work w = do
  g ← set_up_order clock m work w
  require (has_type_string work.tag) key_error
  require (all (λ i. ltb i (length m.hist.H)) work.H_rows) index_error
  ok g

-- The row of a worker after `_update_state_on_alloc`.
unfoldable pub alloc_worker : Order → Worker → Worker
alloc_worker work wrk =
    if work.persistent
    then record wrk {
      active = work.tag;
      persis_state = work.tag;
      active_recv = elim work.active_recv [
        | none ↦ wrk.active_recv
        | some b ↦ b || wrk.active_recv
      ];
    }
    else record wrk { active = work.tag }

abbrev pub with_hist : Manager → History → Manager
with_hist m h = record m { hist = h }

-- `_update_state_on_alloc`
unfoldable pub update_state_on_alloc : ℕ → Manager → Order → ℕ → Outcome ManagerError Manager
update_state_on_alloc clock m work w = do
  let is_plain = elim work.active_recv as (λ _. Bool) [ none ↦ true | some _ ↦ false ]
  require (work.persistent || is_plain) assertion_error
  let g = set_worker w (alloc_worker work) m
  if work.tag == eval_sim_tag
      then (do
        h ←
            lifted history_error
              (update_history_x_out work.H_rows w m.kill_canceled_sims clock m.hist)
        ok (with_hist g h))
      else if work.tag == eval_gen_tag
      then (do
        h ← lifted history_error (update_history_to_gen work.H_rows clock m.hist)
        ok (with_hist g h))
      else ok g
