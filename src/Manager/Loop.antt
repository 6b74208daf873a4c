-- ===== src/Manager/Loop.antt =====
-- libensemble/manager.py, class Manager: the main loop. What the workers send, and when, comes from the
-- environment, round by round, and so does the allocation function: it also reads persis_info, libE_info
-- and the clock, which are others in every round.
use libensemble.Base.{
  ℕ, zero, suc, Bool, true, false, ◌&&◌, ◌||◌, not, List, [], ◌∷◌, Option, none, some, Outcome, ok,
  raise, ◌>>=◌, ◌>>◌, require, leb, ◌==◌, if◌then◌else◌, any, take,
}
use libensemble.History.{Row}
use libensemble.History.Updates.{trim_H}
use libensemble.Alloc.Workers.{same_flag}
use libensemble.Manager.{
  Manager, ManagerError, assertion_error, worker_exception, Order, Message, set_worker, with_hist,
  check_work_order, send_work_order, update_state_on_alloc,
}
use libensemble.Manager.Messages.{update_state_on_worker_msg}
use libensemble.Manager.Exit.{ExitCriteria, term_test, sim_max_given}
use libensemble.Manager.Kill.{kill_cancelled_sims}
use libensemble.Alloc.{Worker}

-- What `recv` gives: the end of a communicator, an exception, a line of a log, or data.
pub data Incoming : Type 0 where
  comm_finished worker_error log_record : Incoming
  message : Message → Incoming

-- What the allocation function returns, with the rows of H as it leaves them.
pub record Allocated : Type 0 where
  pub rows : List Row
  pub work : List (ℕ × Order)
  pub flag : Option ℕ

abbrev pub set_idle : Worker → Worker
set_idle wrk = record wrk { active = 0 }

-- `_handle_msg_from_worker`
unfoldable pub handle_msg : ℕ → Manager → ℕ → Incoming → Outcome ManagerError Manager
handle_msg clock m w comm_finished = ok m
handle_msg clock m w log_record = ok m
handle_msg clock m w (message msg) = update_state_on_worker_msg clock m msg w
handle_msg clock m w worker_error =
    if m.worker_exc then ok (set_worker w set_idle m) else raise worker_exception

-- `_receive_from_workers`, for the messages that are there, in the order of the polls.
unfoldable pub receive_from_workers :
    ℕ → List (ℕ × Incoming) → Manager → Outcome ManagerError Manager
receive_from_workers clock [] m = ok m
receive_from_workers clock ((w, msg) ∷ rest) m = do
  g ← handle_msg clock m w msg
  receive_from_workers clock rest g

abbrev pub same_number : Option ℕ → Option ℕ → Bool
same_number none none = true
same_number (some a) (some b) = a == b
same_number none (some _) = false
same_number (some _) none = false

-- Equal in the fields of protected_libE_fields.
unfoldable pub same_protected : Row → Row → Bool
same_protected r s =
    r.gen_worker == s.gen_worker
    && r.gen_started_time == s.gen_started_time
    && r.gen_ended_time == s.gen_ended_time
    && r.sim_worker == s.sim_worker
    && same_flag r.sim_started s.sim_started
    && same_number r.sim_started_time s.sim_started_time
    && same_flag r.sim_ended s.sim_ended
    && r.sim_ended_time == s.sim_ended_time
    && same_flag r.gen_informed s.gen_informed
    && same_number r.gen_informed_time s.gen_informed_time
    && same_flag r.kill_sent s.kill_sent

unfoldable pub all_protected : List Row → List Row → Bool
all_protected [] [] = true
all_protected (r ∷ rs) (s ∷ ss) = same_protected r s && all_protected rs ss
all_protected [] (s ∷ ss) = false
all_protected (r ∷ rs) [] = false

-- The trimmed array is a view: what is written to it is written to H.
unfoldable pub overlay : List Row → List Row → List Row
overlay [] H = H
overlay (r ∷ rs) [] = []
overlay (r ∷ rs) (s ∷ H) = r ∷ overlay rs H

-- `_alloc_work`
unfoldable pub alloc_work :
    (Manager → Allocated) → Manager → Outcome ManagerError (List (ℕ × Order) × ℕ × Manager)
alloc_work alloc_f m = do
  let output = alloc_f m
  require (not m.hist.safe_mode || all_protected (trim_H m.hist) output.rows) assertion_error
  let flag = elim output.flag as (λ _. ℕ) [ none ↦ 0 | some n ↦ n ]
  require (leb flag 1) assertion_error
  let h = m.hist
  ok (output.work, flag, with_hist m (record h { H = overlay (take h.index output.rows) h.H }))

-- The loop over Work.
unfoldable pub give_work :
    ExitCriteria → ℕ → List (ℕ × Order) → Manager → Outcome ManagerError Manager
give_work exit clock [] m = ok m
give_work exit clock ((w, work) ∷ rest) m = elim (sim_max_given exit m.hist) [
  | true ↦ ok m
  | false ↦ do
    check_work_order m work w false
    sent ← send_work_order clock m work w
    given ← update_state_on_alloc clock sent work w
    give_work exit clock rest given
]

-- The readings of the clock in a round, the messages that arrive in it, and the allocation function, with
-- persis_info and libE_info as they stand in the round.
pub record Round : Type 0 where
  pub alloc_f : Manager → Allocated
  pub elapsed : ℕ
  pub elapsed_after : ℕ
  pub clock : ℕ
  pub incoming : List (ℕ × Incoming)

-- A round of the loop of `run`, and whether it is the last.
unfoldable pub run_round : ExitCriteria → Round → Manager → Outcome ManagerError (Manager × Bool)
run_round exit r m = do
  killed ← kill_cancelled_sims m
  received ← receive_from_workers r.clock r.incoming killed.0
  out ← alloc_work r.alloc_f received
  if not (out.1 == 0) then ok (out.2, true) else (do
    given ← give_work exit r.clock out.0 out.2
    require
        (not (term_test exit r.elapsed_after given.hist == 0)
          || any (λ wrk. not (wrk.active == 0)) given.W.iterable)
        assertion_error
    ok (given, false))

-- `run`, up to the final receive, over the rounds that the environment gives.
unfoldable pub run : ExitCriteria → List Round → Manager → Outcome ManagerError Manager
run exit [] m = ok m
run exit (r ∷ rounds) m = elim (term_test exit r.elapsed m.hist) [
  | suc _ ↦ ok m
  | zero ↦ elim (run_round exit r m) [
    | raise e ↦ raise e
    | ok (g, last) ↦ elim last [ true ↦ ok g | false ↦ run exit rounds g ]
  ]
]
