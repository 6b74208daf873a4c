-- ===== src/Executors/States.antt =====
-- libensemble/executors/executor.py, class Task: the states of a task.
use libensemble.Base.{
  ℕ, ◌≡◌, refl, sym, ◌∙◌, Bool, true, false, some, ok, Option-cases, Bool-cases, inl, inr, arith,
}
use libensemble.Executors.{
  Subprocess, State, state_running, state_finished, state_user_killed, state_failed, state_created,
  state_unknown, state_waiting, state_failed_to_start, is_end, Task, is_zero, elapsed,
  calc_task_timing, set_complete, poll_process, poll,
}

abbrev pub is_finished : State → Bool
is_finished state_unknown = false
is_finished state_created = false
is_finished state_waiting = false
is_finished state_running = false
is_finished state_finished = true
is_finished state_user_killed = false
is_finished state_failed = false
is_finished state_failed_to_start = false

pub running_lost : (s : State) → is_end s ≡ false → is_finished s ≡ false
running_lost state_unknown e = refl
running_lost state_created e = refl
running_lost state_waiting e = refl
running_lost state_running e = refl
running_lost state_finished e = absurd (ground (arith, e))
running_lost state_user_killed e = refl
running_lost state_failed e = refl
running_lost state_failed_to_start e = refl

module _ {Popen : Type 0} (sp : Subprocess Popen) where
  -- A task is finished exactly in the end states, and it is a success exactly in the state FINISHED; a
  -- success that was no dry run has the error code 0.
  pub record IsTask (t : Task Popen) : Type 0 where
    pub ends : t.finished ≡ is_end t.state
    pub wins : t.success ≡ is_finished t.state
    pub zero_code : t.dry_run ≡ false → t.success ≡ true → is_zero t.errcode ≡ true

  -- Timing leaves everything else alone.
  pub record IsTimed (t g : Task Popen) : Type 0 where
    pub state_kept : g.state ≡ t.state
    pub finished_kept : g.finished ≡ t.finished
    pub success_kept : g.success ≡ t.success
    pub errcode_kept : g.errcode ≡ t.errcode
    pub process_kept : g.process ≡ t.process
    pub dry_kept : g.dry_run ≡ t.dry_run

  pub timing_kept : (now : ℕ) (t : Task Popen) → IsTimed t (calc_task_timing now t)
  unfolding calc_task_timing
  timing_kept now t = elim (Option-cases t.submit_time) [
    | inl unset ↦ rw unset (record {
      state_kept = refl;
      finished_kept = refl;
      success_kept = refl;
      errcode_kept = refl;
      process_kept = refl;
      dry_kept = refl;
    })
    | inr (at, set) ↦ elim (Option-cases t.total_time) [
      | inl open_time ↦
          rw (set, open_time)
            (record {
              state_kept = refl;
              finished_kept = refl;
              success_kept = refl;
              errcode_kept = refl;
              process_kept = refl;
              dry_kept = refl;
            })
      | inr (all, known) ↦
          rw (set, known)
            (record {
              state_kept = refl;
              finished_kept = refl;
              success_kept = refl;
              errcode_kept = refl;
              process_kept = refl;
              dry_kept = refl;
            })
    ]
  ]

  -- The task is complete: it is finished, in one of two states, and the state tells the success.
  pub set_complete-IsTask :
      (now : ℕ) (t g : Task Popen)
      → set_complete sp now t ≡ ok g
      → IsTask g × (g.finished ≡ true) × (g.dry_run ≡ t.dry_run)
  unfolding set_complete
  set_complete-IsTask now t g e = elim (Bool-cases t.dry_run) [
    | inl dry ↦
        let same : g ≡ record t { finished = true; success = true; state = state_finished } =
          ground arith in
        rw same (
          record { ends = refl; wins = refl; zero_code = λ wet. absurd (ground arith) },
          refl,
          refl,
        )
    | inr wet ↦ elim (Option-cases t.process) [
      | inl gone ↦ absurd (ground arith)
      | inr (p, there) ↦
          let timed = calc_task_timing now (record t { finished = true }) in
          let kept = timing_kept now (record t { finished = true }) in
          elim (Bool-cases (is_zero (sp.returncode p))) [
            | inl good ↦
                let same : g ≡ record timed {
                  errcode = sp.returncode p;
                  success = true;
                  state = state_finished;
                } =
                  ground arith in
                rw same (
                  record { ends = kept.finished_kept; wins = refl; zero_code = λ _ _. good },
                  kept.finished_kept,
                  kept.dry_kept,
                )
            | inr bad ↦
                let same : g ≡ record timed {
                  errcode = sp.returncode p;
                  success = false;
                  state = state_failed;
                } =
                  ground arith in
                rw same (
                  record {
                    ends = kept.finished_kept;
                    wins = refl;
                    zero_code = λ _ h. absurd (ground arith);
                  },
                  kept.finished_kept,
                  kept.dry_kept,
                )
          ]
    ]
  ]

  -- With a new process, and with the state RUNNING.
  running-IsTask :
      (t : Task Popen) (p : Popen) (time : ℕ)
      → t.finished ≡ false
      → IsTask t
      → IsTask (record t { process = some p; state = state_running; runtime = time })
  running-IsTask t p time open_task ok_t = record {
    ends = open_task;
    wins = ok_t.wins ∙ running_lost t.state (sym ok_t.ends ∙ open_task);
    zero_code = ok_t.zero_code;
  }

  pub poll-IsTask : (now : ℕ) (t g : Task Popen) → IsTask t → poll sp now t ≡ ok g → IsTask g
  unfolding poll poll_process
  poll-IsTask now t g ok_t e = elim (Bool-cases t.dry_run) [
    | inl dry ↦ (set_complete-IsTask now t g (ground arith)).0
    | inr wet ↦ elim (Option-cases t.process) [
      | inl gone ↦ absurd (ground arith)
      | inr (p, there) ↦ elim (Bool-cases t.finished) [
        | inl over ↦ let same : g ≡ t = ground arith in rw same ok_t
        | inr runs ↦
            let polled = sp.process_poll now p in
            elim (Option-cases (sp.returncode polled)) [
              | inl alive ↦
                  let same : g ≡ record t {
                    process = some polled;
                    state = state_running;
                    runtime = elapsed now t.timer;
                  } =
                    ground arith in
                  rw same (running-IsTask t polled (elapsed now t.timer) runs ok_t)
              | inr (code, exited) ↦
                  (set_complete-IsTask now (record t { process = some polled }) g (ground arith)).0
            ]
      ]
    ]
  ]
