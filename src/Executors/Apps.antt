-- ===== src/Executors/Apps.antt =====
-- libensemble/executors/executor.py, class Executor: applications and the launch of tasks. Paths and names are
-- numbers. The process that a launch gives, whether a file is there and the times of the polls come from the
-- environment; command lines, files of output and environment variables are left out.
use libensemble.Base.{
  ℕ, Bool, true, false, ◌&&◌, ◌||◌, not, List, [], ◌∷◌, ◌++◌, Option, none, some, Outcome, ok,
  raise, ◌>>=◌, ◌>>◌, or_raise, require, ltb, if◌then◌else◌, ◌==◌,
}
use libensemble.Executors.{
  Subprocess, is_not_started, is_end, ExecError, executor_exception, start, elapsed, Task, new_task,
  poll,
}

pub data CalcType : Type 0 where
  sim gen other_type : CalcType

pub record Application : Type 0 where
  pub full_path : ℕ
  pub name : ℕ
  pub calc_type : Option CalcType

pub record Executor (Popen : Type 0) : Type 0 where
  pub apps : List (ℕ × Application)
  pub sim_default_app : Option Application
  pub gen_default_app : Option Application
  pub list_of_tasks : List (Task Popen)

-- self.apps[name] = app
unfoldable pub set_app : ℕ → Application → List (ℕ × Application) → List (ℕ × Application)
set_app name app [] = (name, app) ∷ []
set_app name app ((key, old) ∷ apps) =
    let rest = set_app name app apps in
    if key == name then (name, app) ∷ apps else (key, old) ∷ rest

unfoldable pub find_app : ℕ → List (ℕ × Application) → Option Application
find_app name [] = none
find_app name ((key, app) ∷ apps) =
    let rest = find_app name apps in if key == name then some app else rest

module _ {Popen : Type 0} where
  unfoldable pub get_app : Executor Popen → ℕ → Outcome ExecError Application
  get_app ex name = or_raise (find_app name ex.apps) executor_exception

  unfoldable pub default_app : Executor Popen → CalcType → Outcome ExecError Application
  default_app ex sim = or_raise ex.sim_default_app executor_exception
  default_app ex gen = or_raise ex.gen_default_app executor_exception
  default_app ex other_type = raise executor_exception

  -- `register_app`, with an exception if one is raised; the application is entered all the same.
  unfoldable pub register_app :
      ℕ → ℕ → Option CalcType → Executor Popen → Option ExecError × Executor Popen
  register_app full_path name calc_type ex =
      let app : Application = record {
        full_path = full_path;
        name = name;
        calc_type = calc_type;
      } in
      let entered = record ex { apps = set_app name app ex.apps } in
      elim calc_type [
        | none ↦ (none, entered)
        | some kind ↦ elim kind [
          | sim ↦ (none, record entered { sim_default_app = some app })
          | gen ↦ (none, record entered { gen_default_app = some app })
          | other_type ↦ (some executor_exception, entered)
        ]
      ]

  unfoldable pub choose_app :
      Executor Popen → Option ℕ → Option CalcType → Outcome ExecError Application
  choose_app ex (some name) calc_type = get_app ex name
  choose_app ex none (some kind) = default_app ex kind
  choose_app ex none none = raise executor_exception

  abbrev pub restart : ℕ → Task Popen → Task Popen
  restart now t = record t { timer = start now t.timer; submit_time = some now }

  -- The end of a submission: the timer runs unless the task is finished.
  abbrev pub enter : ℕ → Task Popen → Executor Popen → Task Popen × Executor Popen
  enter now t ex =
      let g = if not t.timer.timing && not t.finished then restart now t else t in
      (g, record ex { list_of_tasks = ex.list_of_tasks ++ g ∷ [] })

-- The times that a wait reads: when it begins, when it polls, when the task has started, and then pairs of
-- a look at the time that is left and a poll.
pub record StartTimes : Type 0 where
  pub begun : ℕ
  pub polls : List ℕ
  pub started : ℕ
  pub looks : List (ℕ × ℕ)

module _ {Popen : Type 0} (sp : Subprocess Popen) where
  -- The first loop of `_wait_on_start`; none if the task has not started after the polls.
  unfoldable pub start_loop : List ℕ → Task Popen → Outcome ExecError (Option (Task Popen))
  start_loop [] t = ok (if is_not_started t.state then none else some t)
  start_loop (now ∷ times) t = elim (is_not_started t.state) [
    | false ↦ ok (some t)
    | true ↦ elim (poll sp now t) [ raise e ↦ raise e | ok g ↦ start_loop times g ]
  ]

  -- The second loop.
  unfoldable pub fail_loop : ℕ → List (ℕ × ℕ) → Task Popen → Outcome ExecError (Option (Task Popen))
  fail_loop fail_time [] t = ok (if is_end t.state then some t else none)
  fail_loop fail_time ((look, now) ∷ times) t =
      elim (is_end t.state || not (ltb (elapsed look t.timer) fail_time)) [
        | true ↦ ok (some t)
        | false ↦ elim (poll sp now t) [ raise e ↦ raise e | ok g ↦ fail_loop fail_time times g ]
      ]

  -- `_wait_on_start`
  unfoldable pub wait_on_start :
      ℕ → StartTimes → Task Popen → Outcome ExecError (Option (Task Popen))
  wait_on_start fail_time times t = do
    first ← start_loop times.polls (restart times.begun t)
    elim first as (λ _. Outcome ExecError (Option (Task Popen))) [
      | none ↦ ok none
      | some g ↦
          if g.finished
          then ok (some g)
          else if fail_time == 0
          then ok (some (restart times.started g))
          else fail_loop fail_time times.looks (restart times.started g)
    ]

  -- `submit`: none if it still waits for the task to start.
  unfoldable pub submit :
      Option CalcType
      → Option ℕ
      → Bool
      → ℕ
      → (ℕ → Bool)
      → Popen
      → StartTimes
      → ℕ
      → Executor Popen
      → Outcome ExecError (Option (Task Popen × Executor Popen))
  submit calc_type app_name dry_run wait exists process times now ex = do
    app ← choose_app ex app_name calc_type
    if dry_run then ok (some (new_task true, ex)) else (do
      require (exists app.full_path) executor_exception
      let t = record (new_task false) { process = some process }
      if wait == 0 then ok (some (enter now t ex)) else (do
        waited ← wait_on_start wait times t
        elim waited as (λ _. Outcome ExecError (Option (Task Popen × Executor Popen))) [
          | none ↦ ok none
          | some g ↦ ok (some (enter now g ex))
        ]))
