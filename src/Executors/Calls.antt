-- ===== src/Executors/Calls.antt =====
-- libensemble/executors/executor.py, class Task: sequences of calls.
use libensemble.Base.{
  ℕ, ◌≡◌, refl, sym, ◌∙◌, Bool, true, false, ◌||◌, Option, none, some, Outcome, ok, raise,
  Outcome-cases, Option-cases, Bool-cases, inl, inr, arith,
}
use libensemble.Executors.{
  Subprocess, state_user_killed, ExecError, Task, new_task, Timer, set_complete, poll, call_of,
  wait_process, wait, kill_process, kill, cancel_process, timeout_expired, executor_exception,
}
use libensemble.Executors.States.{
  IsTask, timing_kept, running_lost, set_complete-IsTask, poll-IsTask,
}

module _ {Popen : Type 0} (sp : Subprocess Popen) where
  -- A call of a method of the task, also one that raises an exception.
  pub data Step : Task Popen → Task Popen → Type 0 where
    polled : {t g : Task Popen} → (now : ℕ) → poll sp now t ≡ ok g → Step t g
    waited : {t : Task Popen} → (timeout : Option ℕ) (now : ℕ) → Step t (wait sp timeout now t).1
    killed :
        {t : Task Popen} → (wait_time : Option ℕ) (now : ℕ) → Step t (kill sp wait_time now t).1

  pub data Steps : Task Popen → Task Popen → Type 0 where
    done : {t : Task Popen} → Steps t t
    next : {t g h : Task Popen} → Step t g → Steps g h → Steps t h

  call_of-IsTask :
      (now : ℕ) (t : Task Popen) (r : Outcome ExecError (Task Popen))
      → IsTask sp t
      → ((g : Task Popen) → r ≡ ok g → IsTask sp g)
      → IsTask sp (call_of sp now t r).1
  call_of-IsTask now t (raise e) ok_t made = ok_t
  call_of-IsTask now t (ok g) ok_t made = made g refl

  pub wait-IsTask :
      (timeout : Option ℕ) (now : ℕ) (t : Task Popen)
      → IsTask sp t
      → IsTask sp (wait sp timeout now t).1
  unfolding wait wait_process
  wait-IsTask timeout now t ok_t = elim (Bool-cases t.dry_run) [
    | inl dry ↦
        let same : wait sp timeout now t ≡ call_of sp now t (set_complete sp now t) =
          ground arith in
        rw same (
          call_of-IsTask now t (set_complete sp now t) ok_t
            (λ g e. (set_complete-IsTask sp now t g e).0))
    | inr wet ↦ elim (Option-cases t.process) [
      | inl gone ↦
          let same : wait sp timeout now t ≡ (some executor_exception, t, now) = ground arith in
          rw same ok_t
      | inr (p, there) ↦ elim (Bool-cases t.finished) [
        | inl over ↦
            let same : wait sp timeout now t ≡ (none, t, now) = ground arith in rw same ok_t
        | inr runs ↦
            let waited = sp.process_wait timeout now p in
            let g = record t { process = some waited.0 } in
            let ok_g : IsTask sp g = record {
              ends = ok_t.ends;
              wins = ok_t.wins;
              zero_code = ok_t.zero_code;
            } in
            elim (Option-cases (sp.returncode waited.0)) [
              | inl late ↦
                  let same : wait sp timeout now t ≡ (some timeout_expired, g, waited.1) =
                    ground arith in
                  rw same ok_g
              | inr (code, exited) ↦
                  let same : wait sp timeout now t
                      ≡ call_of sp waited.1 g (set_complete sp waited.1 g) =
                    ground arith in
                  rw same (
                    call_of-IsTask waited.1 g (set_complete sp waited.1 g) ok_g
                      (λ h e. (set_complete-IsTask sp waited.1 g h e).0))
            ]
      ]
    ]
  ]

  pub kill_process-IsTask :
      (wait_time : Option ℕ) (now : ℕ) (t : Task Popen) (p : Popen)
      → t.finished ≡ false
      → IsTask sp t
      → IsTask sp (kill_process sp wait_time now t p).1
  unfolding kill_process
  kill_process-IsTask wait_time now t p runs ok_t =
      let gone = cancel_process sp wait_time now p in
      let g = record t { process = some gone.0; state = state_user_killed; finished = true } in
      let kept = timing_kept sp gone.1 g in
      let lost : t.success ≡ false = ok_t.wins ∙ running_lost t.state (sym ok_t.ends ∙ runs) in
      record {
        ends = rw (kept.finished_kept, kept.state_kept) refl;
        wins = rw (kept.success_kept, kept.state_kept, lost) refl;
        zero_code = λ wet won. absurd (ground (arith, kept.success_kept));
      }

  pub kill-IsTask :
      (wait_time : Option ℕ) (now : ℕ) (t : Task Popen)
      → IsTask sp t
      → IsTask sp (kill sp wait_time now t).1
  unfolding kill
  kill-IsTask wait_time now t ok_t = elim (Outcome-cases (poll sp now t)) [
    | inr (x, failed) ↦
        let same : kill sp wait_time now t ≡ (some x, t, now) = ground arith in rw same ok_t
    | inl (g, got) ↦
        let ok_g : IsTask sp g = poll-IsTask sp now t g ok_t got in
        elim (Bool-cases (g.dry_run || g.finished)) [
          | inl over ↦
              let same : kill sp wait_time now t ≡ (none, g, now) = ground arith in rw same ok_g
          | inr runs ↦ elim (Option-cases g.process) [
            | inl gone ↦
                let same : kill sp wait_time now t ≡ (some executor_exception, g, now) =
                  ground arith in
                rw same ok_g
            | inr (p, there) ↦
                let same : kill sp wait_time now t ≡ kill_process sp wait_time now g p =
                  ground arith in
                rw same (kill_process-IsTask wait_time now g p (ground arith) ok_g)
          ]
        ]
  ]

  Step-IsTask : {t g : Task Popen} → Step t g → IsTask sp t → IsTask sp g
  Step-IsTask {t} {g} (polled now e) ok_t = poll-IsTask sp now t g ok_t e
  Step-IsTask {t} (waited timeout now) ok_t = wait-IsTask timeout now t ok_t
  Step-IsTask {t} (killed wait_time now) ok_t = kill-IsTask wait_time now t ok_t

  IsTask-Steps : {t g : Task Popen} → Steps t g → IsTask sp t → IsTask sp g
  IsTask-Steps done ok_t = ok_t
  IsTask-Steps (next step rest) ok_t = IsTask-Steps rest (Step-IsTask step ok_t)

  -- A call on a task that is over.
  Step-over : {t g : Task Popen} → Step t g → t.finished ≡ true → t.dry_run ≡ false → g ≡ t
  unfolding poll wait kill
  Step-over {t} {g} (polled now e) over wet = elim (Option-cases t.process) [
    | inl gone ↦ absurd (ground arith)
    | inr (p, there) ↦ ground arith
  ]
  Step-over {t} (waited timeout now) over wet = elim (Option-cases t.process) [
    | inl gone ↦ ground arith
    | inr (p, there) ↦ ground arith
  ]
  Step-over {t} (killed wait_time now) over wet = elim (Option-cases t.process) [
    | inl gone ↦ ground arith
    | inr (p, there) ↦ ground arith
  ]

  Steps-over : {t g : Task Popen} → Steps t g → t.finished ≡ true → t.dry_run ≡ false → g ≡ t
  Steps-over done over wet = refl
  Steps-over {t} {g} (next {g = m} step rest) over wet =
      let same : m ≡ t = Step-over step over wet in
      Steps-over rest (rw same over) (rw same wet) ∙ same

  -- A task as built, with the process and the times that a launch gives it.
  abbrev pub launched : Bool → Option Popen → Option ℕ → Timer → Task Popen
  launched dry_run process submit_time timer = record (new_task dry_run) {
    process = process;
    submit_time = submit_time;
    timer = timer;
  }

  -- Any calls on a task as built, with or without a process: it is finished exactly in an end state and a
  -- success exactly in the state FINISHED, with the error code 0 unless it is a dry run; and once it is
  -- finished and no dry run, no further call changes it.
  pub Steps-IsTask :
      (dry_run : Bool) (process : Option Popen) (submit_time : Option ℕ) (timer : Timer)
      (t g : Task Popen)
      → Steps (launched dry_run process submit_time timer) t
      → Steps t g
      → IsTask sp t × (t.finished ≡ true → t.dry_run ≡ false → g ≡ t)
  Steps-IsTask dry_run process submit_time timer t g first second = (
    IsTask-Steps first
        (record { ends = refl; wins = refl; zero_code = λ _ h. absurd (ground arith) }),
    Steps-over second,
  )
