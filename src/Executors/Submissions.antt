-- ===== src/Executors/Submissions.antt =====
-- libensemble/executors/executor.py, class Executor: a submitted task is ready to be polled.
use libensemble.Base.{
  ℕ, ◌≡◌, refl, sym, ◌∙◌, Bool, true, false, ◌&&◌, ◌||◌, not, List, [], ◌∷◌, Option, some, ok, ltb,
  ◌==◌, arith, Outcome-cases, Option-cases, Bool-cases, inl, inr,
}
use libensemble.Executors.{
  set_complete, calc_task_timing, Subprocess, is_not_started, is_end, start, elapsed, Task,
  new_task, poll, poll_process,
}
use libensemble.Executors.States.{IsTask, poll-IsTask, set_complete-IsTask}
use libensemble.Executors.Loops.{poll_progress}
use libensemble.Executors.Reports.{is_launched}
use libensemble.Executors.Apps.{
  CalcType, Executor, choose_app, restart, StartTimes, start_loop, fail_loop, wait_on_start, enter,
  submit,
}

module _ {Popen : Type 0} (sp : Subprocess Popen) where
  -- A task in its right state, with a process or over, whose timer runs unless it is over.
  pub record IsReady (t : Task Popen) : Type 0 where
    pub right : IsTask sp t
    pub there : is_launched sp t ≡ true
    pub timed : t.dry_run ≡ false → t.finished ≡ false → t.timer.timing ≡ true

  restart-IsReady :
      (now : ℕ) (t : Task Popen) → IsTask sp t → is_launched sp t ≡ true → IsReady (restart now t)
  unfolding start
  restart-IsReady now t ok_t there = record {
    right = record { ends = ok_t.ends; wins = ok_t.wins; zero_code = ok_t.zero_code };
    there = there;
    timed = λ _ _. refl;
  }

  poll-over :
      (now : ℕ) (t g : Task Popen)
      → t.finished ≡ true
      → poll sp now t ≡ ok g
      → (g.finished ≡ true) × (g.dry_run ≡ t.dry_run)
  unfolding poll
  poll-over now t g over e = elim (Bool-cases t.dry_run) [
    | inl dry ↦ let done = set_complete-IsTask sp now t g (ground arith) in (done.1, done.2)
    | inr wet ↦ elim (Option-cases t.process) [
      | inl gone ↦ absurd (ground arith)
      | inr (p, has) ↦ let same : g ≡ t = ground arith in rw same (over, refl)
    ]
  ]

  poll-dry_run : (now : ℕ) (t g : Task Popen) → poll sp now t ≡ ok g → g.dry_run ≡ t.dry_run
  unfolding poll poll_process
  poll-dry_run now t g e = elim (Bool-cases t.dry_run) [
    | inl dry ↦ (set_complete-IsTask sp now t g (ground arith)).2
    | inr wet ↦ elim (Option-cases t.process) [
      | inl gone ↦ absurd (ground arith)
      | inr (p, has) ↦ elim (Bool-cases t.finished) [
        | inl over ↦ let same : g ≡ t = ground arith in rw same refl
        | inr runs ↦ elim (Option-cases (sp.returncode (sp.process_poll now p))) [
          | inl alive ↦ ground arith
          | inr (code, exited) ↦
              (set_complete-IsTask sp now (record t { process = some (sp.process_poll now p) }) g
                (ground arith)).2
        ]
      ]
    ]
  ]

  -- A task that can be polled has a process unless it is a dry run, and keeps it.
  poll-is_launched : (now : ℕ) (t g : Task Popen) → poll sp now t ≡ ok g → is_launched sp g ≡ true
  unfolding poll poll_process set_complete calc_task_timing
  poll-is_launched now t g e = elim (Bool-cases t.dry_run) [
    | inl dry ↦ let kept = (set_complete-IsTask sp now t g (ground arith)).2 in ground (arith, kept)
    | inr wet ↦ elim (Option-cases t.process) [
      | inl gone ↦ absurd (ground arith)
      | inr (p, has) ↦ elim (Bool-cases t.finished) [
        | inl over ↦ let same : g ≡ t = ground arith in rw same (ground arith)
        | inr runs ↦ elim (Option-cases (sp.returncode (sp.process_poll now p))) [
          | inl alive ↦ ground arith
          | inr (code, exited) ↦ ground arith
        ]
      ]
    ]
  ]

  poll-IsReady : (now : ℕ) (t g : Task Popen) → IsReady t → poll sp now t ≡ ok g → IsReady g
  poll-IsReady now t g ready e = record {
    right = poll-IsTask sp now t g ready.right e;
    there = poll-is_launched now t g e;
    timed = λ wet runs. elim (Bool-cases t.finished) [
      | inl over ↦ absurd (ground (arith, (poll-over now t g over e).0))
      | inr before ↦ elim (poll_progress sp now t g before e) [
        | inl over ↦ absurd (ground arith)
        | inr (same_timer, time) ↦
            rw same_timer (ready.timed (sym (poll-dry_run now t g e) ∙ wet) before)
      ]
    ];
  }

  start_loop-IsReady :
      (times : List ℕ) (t g : Task Popen)
      → IsReady t
      → start_loop sp times t ≡ ok (some g)
      → IsReady g
  unfolding start_loop
  start_loop-IsReady [] t g ready e = elim (Bool-cases (is_not_started t.state)) [
    | inl waits ↦ absurd (ground arith)
    | inr started ↦ let same : g ≡ t = ground arith in rw same ready
  ]
  start_loop-IsReady (now ∷ times) t g ready e = elim (Bool-cases (is_not_started t.state)) [
    | inr started ↦ let same : g ≡ t = ground arith in rw same ready
    | inl waits ↦ elim (Outcome-cases (poll sp now t)) [
      | inr (x, failed) ↦ absurd (ground arith)
      | inl (k, polled) ↦
          start_loop-IsReady times k g (poll-IsReady now t k ready polled) (ground arith)
    ]
  ]

  fail_loop-IsReady :
      (fail_time : ℕ) (times : List (ℕ × ℕ)) (t g : Task Popen)
      → IsReady t
      → fail_loop sp fail_time times t ≡ ok (some g)
      → IsReady g
  unfolding fail_loop
  fail_loop-IsReady fail_time [] t g ready e = elim (Bool-cases (is_end t.state)) [
    | inr runs ↦ absurd (ground arith)
    | inl ended ↦ let same : g ≡ t = ground arith in rw same ready
  ]
  fail_loop-IsReady fail_time ((look, now) ∷ times) t g ready e =
      elim (Bool-cases (is_end t.state || not (ltb (elapsed look t.timer) fail_time))) [
        | inl over ↦ let same : g ≡ t = ground arith in rw same ready
        | inr waits ↦ elim (Outcome-cases (poll sp now t)) [
          | inr (x, failed) ↦ absurd (ground arith)
          | inl (k, polled) ↦
              fail_loop-IsReady fail_time times k g (poll-IsReady now t k ready polled)
                (ground arith)
        ]
      ]

  wait_on_start-IsReady :
      (fail_time : ℕ) (times : StartTimes) (t g : Task Popen)
      → IsTask sp t
      → is_launched sp t ≡ true
      → wait_on_start sp fail_time times t ≡ ok (some g)
      → IsReady g
  unfolding wait_on_start
  wait_on_start-IsReady fail_time times t g ok_t there e =
      elim (Outcome-cases (start_loop sp times.polls (restart times.begun t))) [
        | inr (x, failed) ↦ absurd (ground arith)
        | inl (first, looped) ↦ elim (Option-cases first) [
          | inl waits ↦ absurd (ground arith)
          | inr (k, began) ↦
              let ready : IsReady k =
                start_loop-IsReady times.polls (restart times.begun t) k
                  (restart-IsReady times.begun t ok_t there) (looped ∙ rw began refl) in
              let again : IsReady (restart times.started k) =
                restart-IsReady times.started k ready.right ready.there in
              elim (Bool-cases k.finished) [
                | inl over ↦ let same : g ≡ k = ground arith in rw same ready
                | inr runs ↦ elim (Bool-cases (fail_time == 0)) [
                  | inl never ↦
                      let same : g ≡ restart times.started k = ground arith in rw same again
                  | inr some_time ↦
                      fail_loop-IsReady fail_time times.looks (restart times.started k) g again
                        (ground arith)
                ]
              ]
        ]
      ]

  enter-IsReady :
      (now : ℕ) (t : Task Popen) (ex : Executor Popen)
      → IsTask sp t
      → is_launched sp t ≡ true
      → IsReady (enter now t ex).0
  unfolding start
  enter-IsReady now t ex ok_t there = elim (Bool-cases (not t.timer.timing && not t.finished)) [
    | inl idle ↦ rw idle (restart-IsReady now t ok_t there)
    | inr runs ↦
        rw runs (record { right = ok_t; there = there; timed = λ wet open_task. ground arith })
  ]

  -- A task that `submit` returns, for any application, wait and times: its flags agree with its state, it
  -- has a process unless it is a dry run, and its timer runs unless it is finished or a dry run.
  pub submit-IsReady :
      (calc_type : Option CalcType) (app_name : Option ℕ) (dry_run : Bool) (wait : ℕ)
      (exists : ℕ → Bool) (process : Popen) (times : StartTimes) (now : ℕ) (ex ex' : Executor Popen)
      (t : Task Popen)
      → submit sp calc_type app_name dry_run wait exists process times now ex ≡ ok (some (t, ex'))
      → IsReady t
  unfolding submit
  submit-IsReady calc_type app_name dry_run wait exists process times now ex ex' t e =
      elim (Outcome-cases (choose_app ex app_name calc_type)) [
        | inr (x, failed) ↦ absurd (ground arith)
        | inl (app, chosen) ↦ elim (Bool-cases dry_run) [
          | inl dry ↦
              let same : t ≡ new_task true = ground arith in
              rw same (record {
                right = record {
                  ends = refl;
                  wins = refl;
                  zero_code = λ _ h. absurd (ground arith);
                };
                there = refl;
                timed = λ wet. absurd (ground arith);
              })
          | inr wet ↦ elim (Bool-cases (exists app.full_path)) [
            | inr missing ↦ absurd (ground arith)
            | inl there ↦
                let built : Task Popen = record (new_task false) { process = some process } in
                let ok_b : IsTask sp built = record {
                  ends = refl;
                  wins = refl;
                  zero_code = λ _ h. absurd (ground arith);
                } in
                elim (Bool-cases (wait == 0)) [
                  | inl at_once ↦
                      let same : t ≡ (enter now built ex).0 = ground arith in
                      rw same (enter-IsReady now built ex ok_b refl)
                  | inr waits ↦ elim (Outcome-cases (wait_on_start sp wait times built)) [
                    | inr (x, failed) ↦ absurd (ground arith)
                    | inl (first, waited) ↦ elim (Option-cases first) [
                      | inl still ↦ absurd (ground arith)
                      | inr (k, got) ↦
                          let ready : IsReady k =
                            wait_on_start-IsReady wait times built k ok_b refl
                              (waited ∙ rw got refl) in
                          let same : t ≡ (enter now k ex).0 = ground arith in
                          rw same (enter-IsReady now k ex ready.right ready.there)
                    ]
                  ]
                ]
          ]
        ]
      ]
