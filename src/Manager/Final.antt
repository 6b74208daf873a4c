-- ===== src/Manager/Final.antt =====
-- libensemble/manager.py, class Manager: the handshake with the persistent workers and the last receive.
use libensemble.Base.{
  ℕ, zero, suc, ◌+◌, Bool, true, false, ◌&&◌, ◌||◌, not, List, [], ◌∷◌, ◌++◌, map, Option, none,
  some, Outcome, ok, raise, ◌>>=◌, ◌>>◌, ltb, ◌==◌, if◌then◌else◌, filter, any,
}
use libensemble.History.{Row}
use libensemble.History.Updates.{update_history_to_gen}
use libensemble.Alloc.{Worker}
use libensemble.Manager.{
  Manager, ManagerError, history_error, Order, FieldName, set_worker, with_hist, lifted,
  check_work_order, send_work_order,
}
use libensemble.Manager.Exit.{ExitCriteria, term_test}
use libensemble.Manager.Loop.{Incoming, receive_from_workers}

-- The rows to send: np.where(H["sim_ended"] & ~H["gen_informed"])[0], from row `i` on.

unfoldable pub uninformed_from : ℕ → List Row → List ℕ
uninformed_from i [] = []
uninformed_from i (r ∷ H) =
    let rest = uninformed_from (i + 1) H in
    if r.sim_ended && not r.gen_informed then i ∷ rest else rest

-- PERSIS_STOP with work.
abbrev pub stop_order : List FieldName → List ℕ → Order
stop_order persis_in rows = record {
  tag = 4;
  H_fields = persis_in;
  H_rows = rows;
  rset_team = none;
  persistent = true;
  active_recv = none;
}

-- A worker that waits is active again, in its persistent state.
abbrev pub reactivate : Worker → Worker
reactivate wrk = if wrk.active == 0 then record wrk { active = wrk.persis_state } else wrk

-- The handshake with a worker; `persis_in` is there if final_gen_send is set.
unfoldable pub stop_worker :
    ℕ → Option (List FieldName) → Manager → ℕ → Outcome ManagerError Manager
stop_worker clock none m w =
    let g = set_worker w reactivate m in
    ok (record g { persis_pending = m.persis_pending ++ w ∷ [] })
stop_worker clock (some persis_in) m w = do
  let rows = uninformed_from 0 m.hist.H
  let work = stop_order persis_in rows
  check_work_order m work w true
  sent ← send_work_order clock m work w
  h ← lifted history_error (update_history_to_gen rows clock sent.hist)
  let g = set_worker w reactivate (with_hist sent h)
  ok (record g { persis_pending = sent.persis_pending ++ w ∷ [] })

unfoldable pub stop_workers :
    ℕ → Option (List FieldName) → List ℕ → Manager → Outcome ManagerError Manager
stop_workers clock persis_in [] m = ok m
stop_workers clock persis_in (w ∷ ws) m = do
  g ← stop_worker clock persis_in m w
  stop_workers clock persis_in ws g

abbrev pub persistent_ids : List Worker → List ℕ
persistent_ids W = map (λ wrk. wrk.worker_id) (filter (λ wrk. ltb 0 wrk.persis_state) W)

abbrev pub any_active : Manager → Bool
any_active m = any (λ wrk. not (wrk.active == 0)) m.W.iterable

abbrev pub any_persistent : Manager → Bool
any_persistent m = any (λ wrk. not (wrk.persis_state == 0)) m.W.iterable

-- A turn of the last loop: the clock, the time that has passed and the messages.
pub record Turn : Type 0 where
  pub elapsed : ℕ
  pub clock : ℕ
  pub incoming : List (ℕ × Incoming)

-- The exit flag after a turn.
unfoldable pub exit_flag : ExitCriteria → ℕ → Manager → ℕ
exit_flag exit elapsed m =
    if m.worker_exc
    then 1
    else if term_test exit elapsed m.hist == 2 && not (any_persistent m)
    then 2
    else 0

-- The last loop, over the turns that the environment gives: the manager and the flag, or nothing if it
-- still waits for workers after them.
unfoldable pub final_loop :
    ExitCriteria → List Turn → Manager → Outcome ManagerError (Option (Manager × ℕ))
final_loop exit [] m = ok (if any_active m || any_persistent m then none else some (m, 0))
final_loop exit (t ∷ turns) m = elim (any_active m || any_persistent m) [
  | false ↦ ok (some (m, 0))
  | true ↦ elim (receive_from_workers t.clock t.incoming m) [
    | raise e ↦ raise e
    | ok g ↦ elim (exit_flag exit t.elapsed g) [
      | zero ↦ final_loop exit turns g
      | suc flag ↦ ok (some (g, suc flag))
    ]
  ]
]

-- `_final_receive_and_kill`, without the files and the signals at its end.
unfoldable pub final_receive_and_kill :
    ExitCriteria
    → ℕ
    → Option (List FieldName)
    → List Turn
    → Manager
    → Outcome ManagerError (Option (Manager × ℕ))
final_receive_and_kill exit clock persis_in turns m = do
  g ← stop_workers clock persis_in (persistent_ids m.W.iterable) m
  final_loop exit turns g
