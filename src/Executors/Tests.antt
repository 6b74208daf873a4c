-- ===== src/Executors/Tests.antt =====
-- A process that ends by itself at some time, and one that is killed.
use libensemble.Base.{
  ℕ, ◌+◌, ◌≡◌, ◌≢◌, refl, true, false, List, [], ◌∷◌, Option, none, some, Outcome, ok, raise, leb,
  ℤ, pos, negsuc, if◌then◌else◌, ◌==◌, arith,
}
use libensemble.Comms.{recv, push_to_buffer, mail_flag}
use libensemble.Comms.Queues.{contents}
use libensemble.Worker.{stop_tag}
use libensemble.Executors.{
  Subprocess, ExecError, Task, new_task, elapsed, start, stop, calc_task_timing, wait_and_kill,
  cancel_process, set_complete, poll_process, poll, wait_process, wait, kill_process, kill,
  new_timer,
}
use libensemble.Executors.States.{IsTask}
use libensemble.Executors.Calls.{done, next, waited, killed, launched, Steps-IsTask}
use libensemble.Executors.Polling.{
  SignalComm, manager_poll, Round, after_poll, turn, polling_loop, Polled,
}
use libensemble.Executors.Loops.{polling_loop-returns, manager_poll_lem, IsPolled}
use libensemble.Executors.Reports.{IsReported, polling_loop-IsReported}
use libensemble.Executors.Apps.{
  sim, Executor, set_app, find_app, get_app, default_app, register_app, choose_app, StartTimes,
  start_loop, fail_loop, wait_on_start, submit,
}
use libensemble.Executors.Submissions.{IsReady, submit-IsReady}

record Process : Type 0 where
  ends_at : ℕ
  code : ℤ
  seen : Option ℤ
  signals : List ℕ

abbrev see : Process → Process
see p = record p { seen = some p.code }

abbrev poll_at : ℕ → Process → Process
poll_at now p = if leb p.ends_at now then see p else p

abbrev wait_for : Option ℕ → ℕ → Process → Process × ℕ
wait_for none now p = (see p, if leb p.ends_at now then now else p.ends_at)
wait_for (some t) now p =
    if leb p.ends_at (now + t)
    then (see p, if leb p.ends_at now then now else p.ends_at)
    else (p, now + t)

abbrev os : Subprocess Process
os = record {
  process_poll = poll_at;
  process_wait = wait_for;
  returncode = λ p. p.seen;
  terminatepg = λ p. record p { signals = 15 ∷ p.signals };
  killpg = λ p. record p { signals = 9 ∷ p.signals; ends_at = 0; code = negsuc 8 };
}

abbrev ends : ℕ → Process
ends at = record { ends_at = at; code = pos 0; seen = none; signals = [] }

abbrev started : ℕ → Task Process
started at = record (new_task false) {
  process = some (ends at);
  submit_time = some 0;
  timer = record new_timer { timing = true };
}

program : Unit {0}
unfolding recv push_to_buffer mail_flag elapsed start stop calc_task_timing wait_and_kill
    cancel_process set_complete poll_process poll wait_process wait kill_process kill manager_poll
    after_poll turn polling_loop set_app find_app get_app default_app register_app choose_app
    start_loop fail_loop wait_on_start submit
program = tt

abbrev signals_of : Option Process → List ℕ
signals_of none = []
signals_of (some p) = p.signals

-- `cancel` calls `kill` with no time to wait, and no signal is sent: it waits until the process ends itself.
cancel_waits : signals_of (kill os none 5 (started 900)).1.process ≡ []
unfolding program
cancel_waits = refl

cancel_ends_late : (kill os none 5 (started 900)).2 ≡ 900
unfolding program
cancel_ends_late = refl

-- With a time to wait the process is sent both signals.
killed_in_steps : signals_of (kill os (some 60) 5 (started 900)).1.process ≡ 9 ∷ 15 ∷ []
unfolding program
killed_in_steps = refl

Steps-IsTask_example :
    IsTask os (wait os none 8 (launched os false (some (ends 30)) (some 0) new_timer)).1
    × ((wait os none 8 (launched os false (some (ends 30)) (some 0) new_timer)).1.finished ≡ true
        → (wait os none 8 (launched os false (some (ends 30)) (some 0) new_timer)).1.dry_run ≡ false
        → (kill os
            (some 60)
            40
            (wait os none 8 (launched os false (some (ends 30)) (some 0) new_timer)).1).1
          ≡ (wait os none 8 (launched os false (some (ends 30)) (some 0) new_timer)).1)
Steps-IsTask_example =
    Steps-IsTask os false (some (ends 30)) (some 0) new_timer
      (wait os none 8 (launched os false (some (ends 30)) (some 0) new_timer)).1
      (kill os (some 60) 40
        (wait os none 8 (launched os false (some (ends 30)) (some 0) new_timer)).1).1
      (next (waited none 8) done) (next (killed (some 60) 40) done)

abbrev quiet : SignalComm
quiet = record { inbox = []; outbox = []; recv_buffer = none }

abbrev rounds : List Round
rounds =
    record { now = 10; kill_at = 11; mail = [] }
    ∷ record { now = 20; kill_at = 21; mail = (stop_tag, 21) ∷ [] }
    ∷ record { now = 30; kill_at = 31; mail = [] }
    ∷ []

polling_loop-returns_example : polling_loop os (some 25) false rounds (started 900) quiet ≢ none
unfolding program
polling_loop-returns_example = polling_loop-returns os 25 false rounds (started 900) quiet refl refl

abbrev task_of : Polled os → Task Process
task_of none = started 0
task_of (some (status, t, c)) = t

abbrev comm_of : Polled os → SignalComm
comm_of none = quiet
comm_of (some (status, t, c)) = c

abbrev signalled : Polled os
signalled = polling_loop os (some 25) true rounds (started 900) quiet

started-IsTask : IsTask os (started 900)
started-IsTask = record { ends = refl; wins = refl; zero_code = λ _ h. absurd (ground arith) }

polling_loop-IsReported_example :
    IsTask os (task_of signalled) × IsReported os (task_of signalled) 21
unfolding program
polling_loop-IsReported_example =
    polling_loop-IsReported os (some 25) true rounds (started 900) (task_of signalled) quiet
      (comm_of signalled) 21 started-IsTask refl refl

abbrev told : SignalComm
told = record { inbox = (stop_tag, 20) ∷ []; outbox = []; recv_buffer = none }

manager_poll_lem_example :
    (mail_flag told ≡ false → manager_poll told ≡ (none, told))
    × ((tag signal : ℕ) (rest : List (ℕ × ℕ))
        → mail_flag told ≡ true
        → contents told ≡ (tag, signal) ∷ rest
        → IsPolled told tag signal rest)
manager_poll_lem_example = manager_poll_lem told

abbrev registered : Executor Process
registered =
    (register_app 7 3 (some sim)
      (record { apps = []; sim_default_app = none; gen_default_app = none; list_of_tasks = [] })).1

abbrev times : StartTimes
times = record { begun = 1; polls = 2 ∷ []; started = 3; looks = (4, 5) ∷ (60, 61) ∷ [] }

abbrev submitted :
    Outcome ExecError (Option (Task Process × Executor Process)) → Task Process × Executor Process
submitted (raise e) = (started 0, registered)
submitted (ok none) = (started 0, registered)
submitted (ok (some out)) = out

abbrev given : Task Process × Executor Process
given =
    submitted
      (submit os (some sim) none false 50 (λ path. path == 7) (ends 900) times 70 registered)

submit-IsReady_example : IsReady os given.0
unfolding program
submit-IsReady_example =
    submit-IsReady os (some sim) none false 50 (λ path. path == 7) (ends 900) times 70 registered
      given.1 given.0 refl
