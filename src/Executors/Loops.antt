-- ===== src/Executors/Loops.antt =====
-- libensemble/executors/executor.py, class Executor: how the polling loop ends, and what it reads.
use libensemble.Base.{
  ℕ, ◌+◌, ◌≡◌, ◌≢◌, refl, Bool, true, false, List, [], ◌∷◌, Option, none, some, ok, ltb, any, arith,
  Outcome-cases, Option-cases, Bool-cases, ◌⊎◌, inl, inr,
}
use libensemble.Comms.{recv, push_to_buffer, mail_flag}
use libensemble.Comms.Queues.{contents}
use libensemble.Worker.{stop_tag}
use libensemble.Executors.{
  Subprocess, state_running, ExecError, executor_exception, timeout_expired, attribute_error, Task,
  elapsed, poll_process, poll, Call, kill,
}
use libensemble.Executors.States.{set_complete-IsTask}
use libensemble.Executors.Polling.{
  SignalComm, is_kill_signal, manager_poll, Round, deliver, wait_time, finish, after_kill,
  after_error, poll_if, signal_of, after_poll, turn, polling_loop, worker_kill_on_timeout,
}

module _ {Popen : Type 0} (sp : Subprocess Popen) where
  -- A poll of a task that is not finished: it is finished now, or the timer still runs.
  pub poll_progress :
      (now : ℕ) (t g : Task Popen)
      → t.finished ≡ false
      → poll sp now t ≡ ok g
      → (g.finished ≡ true) ⊎ ((g.timer ≡ t.timer) × (g.runtime ≡ elapsed now t.timer))
  unfolding poll poll_process
  poll_progress now t g open_task e = elim (Bool-cases t.dry_run) [
    | inl dry ↦ inl (set_complete-IsTask sp now t g (ground arith)).1
    | inr wet ↦ elim (Option-cases t.process) [
      | inl gone ↦ absurd (ground arith)
      | inr (p, there) ↦
          let polled = sp.process_poll now p in
          elim (Option-cases (sp.returncode polled)) [
            | inl alive ↦
                let same : g ≡ record t {
                  process = some polled;
                  state = state_running;
                  runtime = elapsed now t.timer;
                } =
                  ground arith in
                inr (rw same (refl, refl))
            | inr (code, exited) ↦
                inl
                  (set_complete-IsTask sp now (record t { process = some polled }) g
                    (ground arith)).1
          ]
    ]
  ]

  -- The loop is over, or goes on with the rest.
  after_kill-returns : (status : ℕ) (c : SignalComm) (r : Call sp) → after_kill sp status c r ≢ none
  after_kill-returns status c (none, g, now) e = ground arith
  after_kill-returns status c (some x, g, now) e = ground arith

  after_error-returns :
      (x : ExecError) (t : Task Popen) (c : SignalComm) → after_error sp x t c ≢ none
  after_error-returns executor_exception t c e = ground arith
  after_error-returns timeout_expired t c e = ground arith
  after_error-returns attribute_error t c e = ground arith

  finished-returns :
      (timeout : Option ℕ) (poll_manager : Bool) (rounds : List Round) (t : Task Popen)
      (c : SignalComm)
      → t.finished ≡ true
      → polling_loop sp timeout poll_manager rounds t c ≡ finish sp t c
  unfolding polling_loop
  finished-returns timeout poll_manager [] t c over = ground arith
  finished-returns timeout poll_manager (r ∷ rounds) t c over = ground arith

  -- With a time-out and a task whose timer runs: if in some round the time is past the time-out, the loop
  -- is over by then, whatever the process and the manager do.
  pub polling_loop-returns :
      (timeout : ℕ) (poll_manager : Bool) (rounds : List Round) (t : Task Popen) (c : SignalComm)
      → t.timer.timing ≡ true
      → any (λ r. ltb (t.timer.tstart + timeout) r.now) rounds ≡ true
      → polling_loop sp (some timeout) poll_manager rounds t c ≢ none
  unfolding polling_loop turn after_poll elapsed
  polling_loop-returns timeout poll_manager [] t c timing late e = ground arith
  polling_loop-returns timeout poll_manager (r ∷ rounds) t c timing late e =
      elim (Bool-cases t.finished) [
        | inl over ↦ ground arith
        | inr open_task ↦ elim (Outcome-cases (poll sp r.now t)) [
          | inr (x, failed) ↦ after_error-returns x t c (ground arith)
          | inl (g, polled) ↦
              let got = poll_if sp poll_manager (deliver r.mail c) in
              elim (Bool-cases (is_kill_signal got.0)) [
                | inl told ↦
                    after_kill-returns (signal_of sp got.0) got.1
                      (kill sp (some wait_time) r.kill_at g) (ground arith)
                | inr quiet ↦ elim (Bool-cases (ltb timeout g.runtime)) [
                  | inl over ↦
                      after_kill-returns worker_kill_on_timeout got.1
                        (kill sp (some wait_time) r.kill_at g) (ground arith)
                  | inr early ↦ elim (poll_progress r.now t g open_task polled) [
                    | inl over ↦
                        ground
                          (arith, finished-returns (some timeout) poll_manager rounds g got.1 over)
                    | inr (same_timer, time) ↦
                        polling_loop-returns timeout poll_manager rounds g got.1
                          (rw same_timer timing) (ground arith) (ground arith)
                  ]
                ]
              ]
        ]
      ]

-- What manager_poll reports of the messages, the first of them given, and which it leaves to be read.
abbrev pub IsPolled : SignalComm → ℕ → ℕ → List (ℕ × ℕ) → Type 0
IsPolled c tag signal rest =
    (tag ≡ stop_tag
      → ((manager_poll c).0 ≡ some signal) × (contents (manager_poll c).1 ≡ (tag, signal) ∷ rest))
    × (tag ≢ stop_tag → ((manager_poll c).0 ≡ none) × (contents (manager_poll c).1 ≡ rest))

-- Without mail nothing is reported or read. With mail, if the first of the messages to be read is a stop
-- message, its signal is reported and all messages stay to be read; if it has another tag, nothing is
-- reported and that message is lost, with the others as they were.
pub manager_poll_lem :
    (c : SignalComm)
    → (mail_flag c ≡ false → manager_poll c ≡ (none, c))
      × ((tag signal : ℕ) (rest : List (ℕ × ℕ))
          → mail_flag c ≡ true
          → contents c ≡ (tag, signal) ∷ rest
          → IsPolled c tag signal rest)
unfolding manager_poll recv push_to_buffer mail_flag
manager_poll_lem c = (λ none_there. ground arith, by_parts c.recv_buffer c.inbox refl refl)
  where
    by_parts :
        (b : Option (ℕ × ℕ)) (q : List (ℕ × ℕ))
        → c.recv_buffer ≡ b
        → c.inbox ≡ q
        → (tag signal : ℕ) (rest : List (ℕ × ℕ)) → mail_flag c ≡ true
        → contents c ≡ (tag, signal) ∷ rest
        → IsPolled c tag signal rest
    by_parts b [] at_b at_q tag signal rest mail first = absurd (ground arith)
    by_parts none ((tag', n) ∷ q) at_b at_q tag signal rest mail first =
        let same_tag : tag' ≡ tag = ground arith in
        let same : n ≡ signal = ground arith in
        let left : q ≡ rest = ground arith in
        ((λ stops. (ground arith, ground arith)), (λ other. (ground arith, ground arith)))
    by_parts (some (tag', n)) (x ∷ q) at_b at_q tag signal rest mail first =
        let same_tag : tag' ≡ tag = ground arith in
        let same : n ≡ signal = ground arith in
        let left : x ∷ q ≡ rest = ground arith in
        ((λ stops. (ground arith, ground arith)), (λ other. (ground arith, ground arith)))
