-- ===== src/Executors/Reports.antt =====
-- libensemble/executors/executor.py, class Executor: what the polling loop reports of a task.
use libensemble.Base.{
  ℕ, ◌≡◌, ◌≢◌, refl, ap, sym, Bool, true, false, ◌||◌, not, List, [], ◌∷◌, Option, none, some, ok,
  raise, arith, Outcome-cases, Option-cases, Bool-cases, inl, inr, is_none,
}
use libensemble.Worker.{unset_tag}
use libensemble.Executors.{
  Subprocess, State, state_unknown, state_created, state_waiting, state_running, state_finished,
  state_user_killed, state_failed, state_failed_to_start, ExecError, Task, elapsed,
  calc_task_timing, set_complete, poll_process, poll, Call, kill, kill_process, cancel_process,
}
use libensemble.Executors.States.{IsTask, timing_kept, poll-IsTask, set_complete-IsTask}
use libensemble.Executors.Calls.{kill-IsTask}
use libensemble.Executors.Polling.{
  SignalComm, is_kill_signal, Round, deliver, status_of, is_late, wait_time, finish, after_kill,
  after_error, poll_if, signal_of, after_poll, turn, polling_loop, task_failed, worker_done,
  worker_kill_on_timeout,
}

module _ {Popen : Type 0} (sp : Subprocess Popen) where
  -- The task has a process to poll, unless it is a dry run.
  abbrev pub is_launched : Task Popen → Bool
  is_launched t = t.dry_run || not (is_none t.process)

  -- What a status says of the task.
  pub record IsReported (g : Task Popen) (status : ℕ) : Type 0 where
    pub over : g.finished ≡ true
    pub won : status ≡ worker_done → g.success ≡ true
    pub lost : status ≡ task_failed → g.success ≡ false
    pub unset : status ≡ unset_tag → g.state ≡ state_user_killed

  status_of-IsReported :
      (g : Task Popen) → IsTask sp g → g.finished ≡ true → IsReported g (status_of g.state)
  status_of-IsReported g ok_g over = by_state g.state refl
    where
      by_state : (s : State) → g.state ≡ s → IsReported g (status_of g.state)
      by_state state_unknown e = absurd (ground (arith, ok_g.ends))
      by_state state_created e = absurd (ground (arith, ok_g.ends))
      by_state state_waiting e = absurd (ground (arith, ok_g.ends))
      by_state state_running e = absurd (ground (arith, ok_g.ends))
      by_state state_finished e = record {
        over = over;
        won = λ _. ground (arith, ok_g.wins);
        lost = λ h. absurd (ground (arith, h));
        unset = λ h. absurd (ground (arith, h));
      }
      by_state state_user_killed e = record {
        over = over;
        won = λ h. absurd (ground (arith, h));
        lost = λ _. ground (arith, ok_g.wins);
        unset = λ _. e;
      }
      by_state state_failed e = record {
        over = over;
        won = λ h. absurd (ground (arith, h));
        lost = λ _. ground (arith, ok_g.wins);
        unset = λ h. absurd (ground (arith, h));
      }
      by_state state_failed_to_start e = record {
        over = over;
        won = λ h. absurd (ground (arith, h));
        lost = λ _. ground (arith, ok_g.wins);
        unset = λ h. absurd (ground (arith, h));
      }

  -- A poll leaves a task that has a process, or is finished; a dry run is finished by it.
  pub poll_lem :
      (now : ℕ) (t g : Task Popen)
      → poll sp now t ≡ ok g
      → (g.dry_run ≡ true → g.finished ≡ true) × ((g.finished || is_launched g) ≡ true)
  unfolding poll poll_process
  poll_lem now t g e = elim (Bool-cases t.dry_run) [
    | inl dry ↦
        let done = set_complete-IsTask sp now t g (ground arith) in
        ((λ _. done.1), ground (arith, done.1))
    | inr wet ↦ elim (Option-cases t.process) [
      | inl gone ↦ absurd (ground arith)
      | inr (p, there) ↦ elim (Bool-cases t.finished) [
        | inl over ↦ let same : g ≡ t = ground arith in rw same ((λ _. over), ground arith)
        | inr runs ↦
            let polled = sp.process_poll now p in
            elim (Option-cases (sp.returncode polled)) [
              | inl alive ↦
                  let same : g ≡ record t {
                    process = some polled;
                    state = state_running;
                    runtime = elapsed now t.timer;
                  } =
                    ground arith in
                  rw same ((λ h. absurd (ground (arith, h))), ground arith)
              | inr (code, exited) ↦
                  let done =
                    set_complete-IsTask sp now (record t { process = some polled }) g
                      (ground arith) in
                  ((λ _. done.1), ground (arith, done.1))
            ]
      ]
    ]
  ]

  -- A kill that raises nothing leaves a finished task.
  kill-over :
      (wait_time : Option ℕ) (now end : ℕ) (t g : Task Popen)
      → kill sp wait_time now t ≡ (none, g, end)
      → g.finished ≡ true
  unfolding kill kill_process
  kill-over wait_time now end t g e = elim (Outcome-cases (poll sp now t)) [
    | inr (x, failed) ↦ absurd (ground arith)
    | inl (k, got) ↦ elim (Bool-cases (k.dry_run || k.finished)) [
      | inl over ↦
          let same : g ≡ k = ground arith in rw same (ground (arith, (poll_lem now t k got).0))
      | inr runs ↦ elim (Option-cases k.process) [
        | inl gone ↦ absurd (ground arith)
        | inr (p, there) ↦
            let gone = cancel_process sp wait_time now p in
            let h = record k {
              process = some gone.0;
              state = state_user_killed;
              finished = true;
            } in
            let same : g ≡ calc_task_timing gone.1 h = ground arith in
            rw same ((timing_kept sp gone.1 h).finished_kept)
      ]
    ]
  ]

  abbrev IsKill : ℕ → Type 0
  IsKill status = (status ≢ worker_done) × (status ≢ task_failed) × (status ≢ unset_tag)

  signal_of-IsKill : (s : Option ℕ) → is_kill_signal s ≡ true → IsKill (signal_of sp s)
  signal_of-IsKill none h = absurd (ground arith)
  signal_of-IsKill (some n) h = (λ e. ground arith, λ e. ground arith, λ e. ground arith)

  after_kill-IsReported :
      (status given : ℕ) (c c' : SignalComm) (now : ℕ) (t g : Task Popen)
      → IsTask sp t
      → IsKill given
      → after_kill sp given c (kill sp (some wait_time) now t) ≡ some (ok status, g, c')
      → IsTask sp g × IsReported g status
  after_kill-IsReported status given c c' now t g ok_t is_kill e =
      by_call (kill sp (some wait_time) now t) refl
    where
      by_call :
          (r : Call sp) → kill sp (some wait_time) now t ≡ r → IsTask sp g × IsReported g status
      by_call (some x, k, end) at = absurd (ground arith)
      by_call (none, k, end) at =
          let same : g ≡ k = ground arith in
          let given_status : status ≡ given = ground arith in
          let left : k ≡ (kill sp (some wait_time) now t).1 = ap (λ r. r.1) (sym at) in
          let ok_k : IsTask sp k = rw left (kill-IsTask sp (some wait_time) now t ok_t) in
          rw (same, given_status)
            (
              ok_k,
              record {
                over = kill-over (some wait_time) now end t k at;
                won = λ h. absurd (is_kill.0 h);
                lost = λ h. absurd (is_kill.1 h);
                unset = λ h. absurd (is_kill.2 h);
              },
            )

  finish-IsReported :
      (status : ℕ) (c c' : SignalComm) (t g : Task Popen)
      → IsTask sp t
      → t.finished ≡ true
      → finish sp t c ≡ some (ok status, g, c')
      → IsTask sp g × IsReported g status
  finish-IsReported status c c' t g ok_t over e =
      let same : g ≡ t = ground arith in
      let given : status ≡ status_of t.state = ground arith in
      rw (same, given) (ok_t, status_of-IsReported t ok_t over)

  raised_lem :
      (now : ℕ) (t g : Task Popen) (x : ExecError) (c c' : SignalComm) (status : ℕ)
      → is_launched t ≡ true
      → poll sp now t ≡ raise x
      → after_error sp x t c ≢ some (ok status, g, c')
  unfolding poll poll_process set_complete
  raised_lem now t g x c c' status there failed e = elim (Bool-cases t.dry_run) [
    | inl dry ↦ ground arith
    | inr wet ↦ elim (Option-cases t.process) [
      | inl gone ↦ ground arith
      | inr (p, has) ↦ elim (Bool-cases t.finished) [
        | inl over ↦ ground arith
        | inr runs ↦ elim (Option-cases (sp.returncode (sp.process_poll now p))) [
          | inl alive ↦ ground arith
          | inr (code, exited) ↦ ground arith
        ]
      ]
    ]
  ]

  -- For a task with flags that agree with its state, which is finished, was launched, or is a dry run: when the polling loop returns a status, the task is
  -- finished; WORKER_DONE means a success, TASK_FAILED none, and an unset status a task that was killed
  -- by its user.
  pub polling_loop-IsReported :
      (timeout : Option ℕ) (poll_manager : Bool) (rounds : List Round) (t g : Task Popen)
      (c c' : SignalComm) (status : ℕ)
      → IsTask sp t
      → (t.finished || is_launched t) ≡ true
      → polling_loop sp timeout poll_manager rounds t c ≡ some (ok status, g, c')
      → IsTask sp g × IsReported g status
  unfolding polling_loop turn after_poll
  polling_loop-IsReported timeout poll_manager [] t g c c' status ok_t there e =
      elim (Bool-cases t.finished) [
        | inl over ↦ finish-IsReported status c c' t g ok_t over (ground arith)
        | inr runs ↦ absurd (ground arith)
      ]
  polling_loop-IsReported timeout poll_manager (r ∷ rounds) t g c c' status ok_t there e =
      elim (Bool-cases t.finished) [
        | inl over ↦ finish-IsReported status c c' t g ok_t over (ground arith)
        | inr runs ↦ elim (Outcome-cases (poll sp r.now t)) [
          | inr (x, failed) ↦
              absurd (raised_lem r.now t g x c c' status (ground arith) failed (ground arith))
          | inl (k, polled) ↦
              let got = poll_if sp poll_manager (deliver r.mail c) in
              let ok_k : IsTask sp k = poll-IsTask sp r.now t k ok_t polled in
              elim (Bool-cases (is_kill_signal got.0)) [
                | inl told ↦
                    after_kill-IsReported status (signal_of sp got.0) got.1 c' r.kill_at k g ok_k
                      (signal_of-IsKill got.0 told) (ground arith)
                | inr quiet ↦ elim (Bool-cases (is_late timeout k.runtime)) [
                  | inl late ↦
                      after_kill-IsReported status worker_kill_on_timeout got.1 c' r.kill_at k g
                        ok_k
                        (λ h. ground (arith, h), λ h. ground (arith, h), λ h. ground (arith, h))
                        (ground arith)
                  | inr early ↦
                      polling_loop-IsReported timeout poll_manager rounds k g got.1 c' status ok_k
                        (poll_lem r.now t k polled).1 (ground arith)
                ]
              ]
        ]
      ]
