-- ===== src/Executors.antt =====
-- libensemble/executors/executor.py, class Task, with libensemble/utils/launcher.py and the timer of
-- libensemble/utils/timer.py. Processes belong to the operating system: what is asked of them is the record
-- `Subprocess`, a parameter. Times are in milliseconds, and the clock does not go back.
pub mod States
pub mod Calls
pub mod Polling
pub mod Apps
pub mod Loops
pub mod Submissions
pub mod Reports
mod Tests
use libensemble.Base.{
  ℕ, ◌+◌, ◌-◌, Bool, true, false, ◌&&◌, ◌||◌, not, Option, none, some, Outcome, ok, raise, ◌>>=◌,
  require, ltb, if◌then◌else◌, ℤ, pos, negsuc, ◌==◌,
}

-- What is used of `subprocess.Popen`, where `poll` and `wait` set `returncode`, and of signals to the
-- group of a process. `wait` takes the time-out and the time, and gives the time when it is over.
pub record Subprocess (Popen : Type 0) : Type 0 where
  pub process_poll : ℕ → Popen → Popen
  pub process_wait : Option ℕ → ℕ → Popen → Popen × ℕ
  pub returncode : Popen → Option ℤ
  pub terminatepg : Popen → Popen
  pub killpg : Popen → Popen

pub data State : Type 0 where
  state_unknown state_created state_waiting state_running : State
  state_finished state_user_killed state_failed state_failed_to_start : State

abbrev pub is_not_started : State → Bool
is_not_started state_unknown = false
is_not_started state_created = true
is_not_started state_waiting = true
is_not_started state_running = false
is_not_started state_finished = false
is_not_started state_user_killed = false
is_not_started state_failed = false
is_not_started state_failed_to_start = false

abbrev pub is_end : State → Bool
is_end state_unknown = false
is_end state_created = false
is_end state_waiting = false
is_end state_running = false
is_end state_finished = true
is_end state_user_killed = true
is_end state_failed = true
is_end state_failed_to_start = true

pub data ExecError : Type 0 where
  executor_exception timeout_expired attribute_error : ExecError

pub record Timer : Type 0 where
  pub tcum : ℕ
  pub tstart : ℕ
  pub tend : ℕ
  pub timing : Bool

abbrev pub new_timer : Timer
new_timer = record { tcum = 0; tstart = 0; tend = 0; timing = false }

unfoldable pub elapsed : ℕ → Timer → ℕ
elapsed now timer = (if timer.timing then now else timer.tend) - timer.tstart

unfoldable pub total : ℕ → Timer → ℕ
total now timer = if timer.timing then timer.tcum + elapsed now timer else timer.tcum

unfoldable pub start : ℕ → Timer → Timer
start now timer = record timer { tstart = now; timing = true }

unfoldable pub stop : ℕ → Timer → Timer
stop now timer = record timer {
  tend = now;
  timing = false;
  tcum = timer.tcum + (now - timer.tstart);
}

pub record Task (Popen : Type 0) : Type 0 where
  pub state : State
  pub process : Option Popen
  pub errcode : Option ℤ
  pub finished : Bool
  pub success : Bool
  pub submit_time : Option ℕ
  pub runtime : ℕ
  pub total_time : Option ℕ
  pub timer : Timer
  pub dry_run : Bool

-- `Task.__init__`, with the attributes that `reset` sets.
abbrev pub new_task : {Popen : Type 0} → Bool → Task Popen
new_task dry_run = record {
  state = state_created;
  process = none;
  errcode = none;
  finished = false;
  success = false;
  submit_time = none;
  runtime = 0;
  total_time = none;
  timer = new_timer;
  dry_run = dry_run;
}

-- self.errcode == 0
abbrev pub is_zero : Option ℤ → Bool
is_zero none = false
is_zero (some (pos n)) = n == 0
is_zero (some (negsuc n)) = false

module _ {Popen : Type 0} where
  unfoldable pub calc_task_timing : ℕ → Task Popen → Task Popen
  calc_task_timing now t = elim t.submit_time [
    | none ↦ t
    | some _ ↦ elim t.total_time [
      | some _ ↦ t
      | none ↦
          let timer = stop now t.timer in
          record t {
            timer = timer;
            runtime = elapsed now timer;
            total_time = some (elapsed now timer);
          }
    ]
  ]

module _ {Popen : Type 0} (sp : Subprocess Popen) where
  -- `wait_and_kill` of the launcher
  unfoldable pub wait_and_kill : Option ℕ → ℕ → Popen → Popen × ℕ
  wait_and_kill timeout now p =
      let waited = sp.process_wait timeout now p in
      elim (sp.returncode waited.0) [
        | some _ ↦ waited
        | none ↦ sp.process_wait none waited.1 (sp.killpg waited.0)
      ]

  -- `cancel` of the launcher
  unfoldable pub cancel_process : Option ℕ → ℕ → Popen → Popen × ℕ
  cancel_process timeout now p =
      let graceful = elim timeout as (λ _. Bool) [ none ↦ false | some t ↦ ltb 0 t ] in
      wait_and_kill timeout now (if graceful then sp.terminatepg p else p)

  -- `_set_complete`
  unfoldable pub set_complete : ℕ → Task Popen → Outcome ExecError (Task Popen)
  set_complete now t =
      let done = record t { finished = true } in
      if t.dry_run
      then ok (record done { success = true; state = state_finished })
      else elim t.process [
        | none ↦ raise attribute_error
        | some p ↦
            let timed = calc_task_timing now done in
            let good = is_zero (sp.returncode p) in
            ok (record timed {
              errcode = sp.returncode p;
              success = good;
              state = if good then state_finished else state_failed;
            })
      ]

  -- What `poll` does with the process.
  unfoldable pub poll_process : ℕ → Task Popen → Popen → Outcome ExecError (Task Popen)
  poll_process now t p =
      let polled = sp.process_poll now p in
      let g = record t { process = some polled } in
      elim (sp.returncode polled) [
        | none ↦ ok (record g { state = state_running; runtime = elapsed now t.timer })
        | some _ ↦ set_complete now g
      ]

  unfoldable pub poll : ℕ → Task Popen → Outcome ExecError (Task Popen)
  poll now t = if t.dry_run then set_complete now t else elim t.process [
    | none ↦ raise executor_exception
    | some p ↦ if t.finished then ok t else poll_process now t p
  ]

  -- An exception if one is raised, the task, and the time.
  abbrev pub Call : Type 0
  Call = Option ExecError × Task Popen × ℕ

  abbrev pub call_of : ℕ → Task Popen → Outcome ExecError (Task Popen) → Call
  call_of now t (raise e) = (some e, t, now)
  call_of now t (ok g) = (none, g, now)

  -- What `wait` does with the process.
  unfoldable pub wait_process : Option ℕ → ℕ → Task Popen → Popen → Call
  wait_process timeout now t p =
      let waited = sp.process_wait timeout now p in
      let g = record t { process = some waited.0 } in
      elim (sp.returncode waited.0) [
        | none ↦ (some timeout_expired, g, waited.1)
        | some _ ↦ call_of waited.1 g (set_complete waited.1 g)
      ]

  unfoldable pub wait : Option ℕ → ℕ → Task Popen → Call
  wait timeout now t = if t.dry_run then call_of now t (set_complete now t) else elim t.process [
    | none ↦ (some executor_exception, t, now)
    | some p ↦ if t.finished then (none, t, now) else wait_process timeout now t p
  ]

  -- What `kill` does with a task that polls as running.
  unfoldable pub kill_process : Option ℕ → ℕ → Task Popen → Popen → Call
  kill_process wait_time now t p =
      let gone = cancel_process wait_time now p in
      let g = record t { process = some gone.0; state = state_user_killed; finished = true } in
      (none, calc_task_timing gone.1 g, gone.1)

  unfoldable pub kill : Option ℕ → ℕ → Task Popen → Call
  kill wait_time now t = elim (poll now t) [
    | raise e ↦ (some e, t, now)
    | ok g ↦ if g.dry_run || g.finished then (none, g, now) else elim g.process [
      | none ↦ (some executor_exception, g, now)
      | some p ↦ kill_process wait_time now g p
    ]
  ]
