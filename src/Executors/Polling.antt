-- ===== src/Executors/Polling.antt =====
-- libensemble/executors/executor.py, class Executor: signals of the manager and the polling loop. A message is
-- a tag and a signal; what is no signal is any other number. When tasks are polled and messages arrive
-- comes from the environment.
use libensemble.Base.{
  ℕ, Bool, false, ◌||◌, List, [], ◌∷◌, ◌++◌, Option, none, some, Outcome, ok, raise, ltb,
  if◌then◌else◌, ◌==◌,
}
use libensemble.Comms.{QComm, recv, push_to_buffer, mail_flag}
use libensemble.Worker.{stop_tag, unset_tag, man_signal_finish}
use libensemble.Executors.{
  Subprocess, State, state_unknown, state_created, state_waiting, state_running, state_finished,
  state_user_killed, state_failed, state_failed_to_start, ExecError, executor_exception,
  timeout_expired, attribute_error, Task, poll, Call, kill,
}

abbrev pub man_signal_kill : ℕ
man_signal_kill = 21

abbrev pub worker_kill_on_timeout : ℕ
worker_kill_on_timeout = 32

abbrev pub task_failed : ℕ
task_failed = 33

abbrev pub task_failed_to_start : ℕ
task_failed_to_start = 34

abbrev pub worker_done : ℕ
worker_done = 35

abbrev pub SignalComm : Type 0
SignalComm = QComm (ℕ × ℕ) (ℕ × ℕ)

-- man_signal in MAN_KILL_SIGNALS
abbrev pub is_kill_signal : Option ℕ → Bool
is_kill_signal none = false
is_kill_signal (some signal) = signal == man_signal_finish || signal == man_signal_kill

-- A message that is read, with what is left: a stop message is put back.
abbrev pub read_signal : Option ((ℕ × ℕ) × SignalComm) → SignalComm → Option ℕ × SignalComm
read_signal none c = (none, c)
read_signal (some ((tag, signal), rest)) c =
    if tag == stop_tag then (some signal, push_to_buffer (tag, signal) rest) else (none, rest)

-- `manager_poll`: what it returns is also `manager_signal` afterwards.
unfoldable pub manager_poll : SignalComm → Option ℕ × SignalComm
manager_poll c = if mail_flag c then read_signal (recv c) c else (none, c)

unfoldable pub manager_kill_received : SignalComm → Bool × SignalComm
manager_kill_received c = let got = manager_poll c in (is_kill_signal got.0, got.1)

-- A turn of the loop: when the task is polled and killed, and the messages that have arrived.
pub record Round : Type 0 where
  pub now : ℕ
  pub kill_at : ℕ
  pub mail : List (ℕ × ℕ)

abbrev pub deliver : List (ℕ × ℕ) → SignalComm → SignalComm
deliver mail c = record c { inbox = c.inbox ++ mail }

-- The status that the state of the task stands for.
abbrev pub status_of : State → ℕ
status_of state_unknown = unset_tag
status_of state_created = unset_tag
status_of state_waiting = unset_tag
status_of state_running = unset_tag
status_of state_finished = worker_done
status_of state_user_killed = unset_tag
status_of state_failed = task_failed
status_of state_failed_to_start = task_failed_to_start

-- task.runtime > timeout
abbrev pub is_late : Option ℕ → ℕ → Bool
is_late none runtime = false
is_late (some timeout) runtime = ltb timeout runtime

-- wait_time=60, in milliseconds
abbrev pub wait_time : ℕ
wait_time = 60000

module _ {Popen : Type 0} (sp : Subprocess Popen) where
  -- The status or an exception, with the task and the communicator, if the loop is over.
  abbrev pub Polled : Type 0
  Polled = Option (Outcome ExecError ℕ × Task Popen × SignalComm)

  abbrev pub finish : Task Popen → SignalComm → Polled
  finish t c = some (ok (status_of t.state), t, c)

  -- After task.kill(), with a status that is set.
  abbrev pub after_kill : ℕ → SignalComm → Call sp → Polled
  after_kill status c (none, g, now) = some (ok status, g, c)
  after_kill status c (some e, g, now) = some (raise e, g, c)

  -- An ExecutorException ends the loop; any other exception is not caught.
  abbrev pub after_error : ExecError → Task Popen → SignalComm → Polled
  after_error executor_exception t c = finish t c
  after_error timeout_expired t c = some (raise timeout_expired, t, c)
  after_error attribute_error t c = some (raise attribute_error, t, c)

  abbrev pub poll_if : Bool → SignalComm → Option ℕ × SignalComm
  poll_if poll_manager c = if poll_manager then manager_poll c else (none, c)

  abbrev pub signal_of : Option ℕ → ℕ
  signal_of none = unset_tag
  signal_of (some signal) = signal

  -- The rest of a turn, for a task that has been polled; `rest` are the other turns.
  unfoldable pub after_poll :
      (Task Popen → SignalComm → Polled)
      → Option ℕ
      → Bool
      → Round
      → Task Popen
      → SignalComm
      → Polled
  after_poll rest timeout poll_manager r g c =
      let got = poll_if poll_manager (deliver r.mail c) in
      if is_kill_signal got.0
      then after_kill (signal_of got.0) got.1 (kill sp (some wait_time) r.kill_at g)
      else if is_late timeout g.runtime
      then after_kill worker_kill_on_timeout got.1 (kill sp (some wait_time) r.kill_at g)
      else rest g got.1

  -- A turn of the loop.
  unfoldable pub turn :
      (Task Popen → SignalComm → Polled)
      → Option ℕ
      → Bool
      → Round
      → Task Popen
      → SignalComm
      → Polled
  turn rest timeout poll_manager r t c = elim (poll sp r.now t) [
    | raise e ↦ after_error e t c
    | ok g ↦ after_poll rest timeout poll_manager r g c
  ]

  -- `polling_loop`, over the rounds that the environment gives; none if the task still runs after them.
  unfoldable pub polling_loop : Option ℕ → Bool → List Round → Task Popen → SignalComm → Polled
  polling_loop timeout poll_manager [] t c = if t.finished then finish t c else none
  polling_loop timeout poll_manager (r ∷ rounds) t c =
      if t.finished
      then finish t c
      else turn (polling_loop timeout poll_manager rounds) timeout poll_manager r t c
