-- ===== src/Manager/Kill.antt =====
-- libensemble/manager.py, class Manager: kill signals for simulations that are cancelled while they run.
use libensemble.Base.{
  ℕ, ◌-◌, Bool, true, false, ◌&&◌, not, List, [], map, none, some, Outcome, ok, ◌>>◌, require, ltb,
  if◌then◌else◌, length, get_elem?, filter, all,
}
use libensemble.History.{Row}
use libensemble.History.Updates.{range_from, modify_all}
use libensemble.Manager.{Manager, ManagerError, index_error, with_hist}

-- A running simulation that is cancelled and has had no signal.

abbrev pub to_kill : List Row → ℕ → Bool
to_kill H i = elim (get_elem? H i) [
  | none ↦ false
  | some r ↦ r.sim_started && r.cancel_requested && not r.sim_ended && not r.kill_sent
]

-- H["sim_id"][i], as an index: a row with no sim_id holds -1, which is the last row.
abbrev pub id_index : List Row → ℕ → ℕ
id_index H i = elim (get_elem? H i) [
  | none ↦ i
  | some r ↦ elim r.sim_id [ none ↦ length H - 1 | some n ↦ n ]
]

abbrev pub worker_of : List Row → ℕ → ℕ
worker_of H i = elim (get_elem? H i) [ none ↦ 0 | some r ↦ r.sim_worker ]

abbrev pub set_kill_sent : Row → Row
set_kill_sent r = record r { kill_sent = true }

-- `_kill_cancelled_sims`: the manager, and the workers that are sent the signal, in order.
unfoldable pub kill_cancelled_sims : Manager → Outcome ManagerError (Manager × List ℕ)
kill_cancelled_sims m =
    if m.kill_canceled_sims
    then (do
      let h = m.hist
      let inds = range_from h.next_ended (h.next_started - h.next_ended)
      require (all (λ i. ltb i (length h.H)) inds) index_error
      let rows = filter (to_kill h.H) inds
      let ids = map (id_index h.H) rows
      require (all (λ i. ltb i (length h.H)) ids) index_error
      ok (
        with_hist m (record h { H = modify_all ids set_kill_sent h.H }),
        map (worker_of h.H) rows,
      ))
    else ok (m, [])
