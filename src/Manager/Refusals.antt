-- ===== src/Manager/Refusals.antt =====
-- libensemble/manager.py, class Manager: a handshake with work that is refused.
use libensemble.Base.{
  ℕ, zero, suc, ◌-◌, ◌≡◌, ◌≢◌, refl, ◌∙◌, Bool, true, false, List, [], ◌∷◌, ◌++◌, none, some, ok,
  raise, Outcome-cases, Bool-cases, inl, inr, ◌==◌, ltb, if◌then◌else◌, get_elem?,
  get_elem?-modify_at, arith, contains,
}
use libensemble.History.Updates.{update_history_to_gen}
use libensemble.Alloc.{Worker, WorkerIndexer}
use libensemble.Alloc.Workers.{get_worker}
use libensemble.Manager.{
  Manager, ManagerError, FieldName, Order, set_worker, with_hist, check_work_order, send_work_order,
  history_error, lifted,
}
use libensemble.Manager.Exit.{ExitCriteria}
use libensemble.Manager.Final.{
  uninformed_from, stop_order, reactivate, stop_worker, stop_workers, persistent_ids, Turn,
  final_receive_and_kill,
}
use libensemble.Manager.Orders.{set_resources-holders}
use libensemble.Manager.Handshakes.{AreNumbered, stop_order-set}

abbrev pub is_receiving : WorkerIndexer → ℕ → Bool
is_receiving W w = elim (get_worker W w) [ none ↦ false | some wrk ↦ wrk.active_recv ]

reactivate-is_receiving :
    (w v : ℕ) (m : Manager) → is_receiving (set_worker w reactivate m).W v ≡ is_receiving m.W v
unfolding set_worker get_worker
reactivate-is_receiving w v m =
    let at = λ (u : ℕ). if m.W.additional_worker then u else u - 1 in
    ground (arith, get_elem?-modify_at m.W.iterable (at v) (at w) reactivate)

refused_order :
    (m : Manager) (work : Order) (w : ℕ)
    → work.active_recv ≡ none
    → is_receiving m.W w ≡ true
    → (u : Unit {0}) → check_work_order m work w true ≢ ok u
unfolding check_work_order
refused_order m work w plain receives u e = ground (arith)

-- A handshake with work that succeeds: the worker was not in active receive, and no flag changes.
stop_worker-receiving :
    (clock : ℕ) (persis_in : List FieldName) (m g : Manager) (w : ℕ)
    → stop_worker clock (some persis_in) m w ≡ ok g
    → (is_receiving m.W w ≡ false) × ((v : ℕ) → is_receiving g.W v ≡ is_receiving m.W v)
unfolding stop_worker
stop_worker-receiving clock persis_in m g w e =
    let rows = uninformed_from 0 m.hist.H in
    let work = stop_order persis_in rows in
    elim (Outcome-cases (check_work_order m work w true)) [
      | inr (x, failed) ↦ absurd (ground arith)
      | inl (u, checked) ↦ elim (Outcome-cases (send_work_order clock m work w)) [
        | inr (x, failed) ↦ absurd (ground arith)
        | inl (k, sent) ↦
            elim (Outcome-cases (lifted history_error (update_history_to_gen rows clock k.hist))) [
              | inr (x, failed) ↦ absurd (ground arith)
              | inl (h, told) ↦
                  let j = with_hist k h in
                  let table : k.W ≡ m.W =
                    (set_resources-holders m k work w
                      (stop_order-set clock persis_in rows w m k sent)).0 in
                  let same : g ≡ record (set_worker w reactivate j) {
                    persis_pending = k.persis_pending ++ w ∷ [];
                  } =
                    ground arith in
                  (
                    elim (Bool-cases (is_receiving m.W w)) [
                      | inr other ↦ other
                      | inl receives ↦ absurd (refused_order m work w refl receives u checked)
                    ],
                    rw same (λ v. reactivate-is_receiving w v j ∙ rw table refl),
                  )
            ]
      ]
    ]

stop_workers-refused :
    (clock : ℕ) (persis_in : List FieldName) (ws : List ℕ) (m g : Manager) (w : ℕ)
    → contains w ws ≡ true
    → is_receiving m.W w ≡ true
    → stop_workers clock (some persis_in) ws m ≢ ok g
unfolding stop_workers
stop_workers-refused clock persis_in [] m g w there receives e = ground arith
stop_workers-refused clock persis_in (v ∷ ws) m g w there receives e =
    elim (Outcome-cases (stop_worker clock (some persis_in) m v)) [
      | inr (x, failed) ↦ ground arith
      | inl (k, stopped) ↦
          let kept = stop_worker-receiving clock persis_in m k v stopped in
          elim (Bool-cases (w == v)) [
            | inl self ↦ let same : w ≡ v = ground arith in ground (arith, same, kept.0)
            | inr other ↦
                stop_workers-refused clock persis_in ws k g w (ground arith) (kept.1 w ∙ receives)
                  (ground arith)
          ]
    ]

persistent_ids-contains :
    (ws : List Worker) (k : ℕ) (wrk : Worker)
    → get_elem? ws k ≡ some wrk
    → ltb 0 wrk.persis_state ≡ true
    → contains wrk.worker_id (persistent_ids ws) ≡ true
persistent_ids-contains [] k wrk there waits = absurd (ground arith)
persistent_ids-contains (x ∷ ws) zero wrk there waits =
    let same : x ≡ wrk = ground arith in rw same (rw waits (ground arith))
persistent_ids-contains (x ∷ ws) (suc k) wrk there waits =
    let rest : contains wrk.worker_id (persistent_ids ws) ≡ true =
      persistent_ids-contains ws k wrk there waits in
    elim (Bool-cases (ltb 0 x.persis_state)) [
      | inl more ↦ rw more (ground (arith, rest))
      | inr plain ↦ rw plain rest
    ]

-- With final_gen_send set and a worker of the table that is in persistent state and in active receive, the
-- last receive raises an exception, however the run was otherwise: it gives no result.
pub final_receive_and_kill_refused :
    (exit : ExitCriteria) (clock : ℕ) (persis_in : List FieldName) (turns : List Turn) (m : Manager)
    (k : ℕ) (wrk : Worker)
    → AreNumbered m.W
    → get_elem? m.W.iterable k ≡ some wrk
    → wrk.persis_state ≢ 0
    → wrk.active_recv ≡ true
    → (e : ManagerError) × (final_receive_and_kill exit clock (some persis_in) turns m ≡ raise e)
unfolding final_receive_and_kill get_worker
final_receive_and_kill_refused exit clock persis_in turns m k wrk numbered there waits receives =
    let ws = persistent_ids m.W.iterable in
    let listed : contains wrk.worker_id ws ≡ true =
      persistent_ids-contains m.W.iterable k wrk there (ground (arith, waits)) in
    let flagged : is_receiving m.W wrk.worker_id ≡ true = ground (arith, numbered k wrk there) in
    elim (Outcome-cases (stop_workers clock (some persis_in) ws m)) [
      | inr (x, failed) ↦ (x, ground arith)
      | inl (g, stopped) ↦
          absurd (stop_workers-refused clock persis_in ws m g wrk.worker_id listed flagged stopped)
    ]
