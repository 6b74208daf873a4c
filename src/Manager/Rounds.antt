-- ===== src/Manager/Rounds.antt =====
-- libensemble/manager.py, class Manager: the invariants of a whole run.
use libensemble.Base.{
  ℕ, ◌≡◌, ◌≢◌, ◌∙◌, Bool, true, false, List, [], ◌∷◌, ok, Outcome-cases, Option-cases, Bool-cases,
  inl, inr, ◌==◌, take, arith, All,
}
use libensemble.Alloc.Workers.{get_worker}
use libensemble.Manager.{
  Manager, Order, with_hist, check_work_order, send_work_order, update_state_on_alloc,
}
use libensemble.Manager.Exit.{ExitCriteria, term_test, sim_max_given}
use libensemble.Manager.Kill.{kill_cancelled_sims}
use libensemble.Manager.Loop.{
  Allocated, receive_from_workers, overlay, alloc_work, give_work, Round, run_round, run,
}
use libensemble.Manager.States.{order-AreConsistent}
use libensemble.Manager.Owners.{is_id}
use libensemble.Manager.Orders.{order-IsOwned}
use libensemble.Manager.Records.{order-IsHistory, overlay-SameIds}
use libensemble.Manager.Sound.{
  IsSound, is_worker, AreMessages, AreOrders, IsAllocFunction, rewrite_H, kill-IsSound,
  receive-IsSound,
}

alloc_work-IsSound :
    (additional : Bool) (alloc_f : Manager → Allocated) (m g : Manager) (work : List (ℕ × Order))
    (flag : ℕ)
    → IsAllocFunction additional alloc_f
    → IsSound additional m
    → alloc_work alloc_f m ≡ ok (work, flag, g)
    → IsSound additional g × AreOrders additional work
unfolding alloc_work
alloc_work-IsSound additional alloc_f m g work flag law s e =
    let H = overlay (take m.hist.index (alloc_f m).rows) m.hist.H in
    let same : g ≡ with_hist m (record m.hist { H = H }) = ground arith in
    let orders : work ≡ (alloc_f m).work = ground arith in
    (
      rw same (
          rewrite_H additional m H s
            (overlay-SameIds m.hist.index m.hist.H (alloc_f m).rows (law.keeps_ids m))),
      rw orders (law.gives_orders m),
    )

order-IsSound :
    (additional : Bool) (clock : ℕ) (m k g : Manager) (order : Order) (w : ℕ) (u : Unit {0})
    → is_worker additional w ≡ true
    → order.tag ≢ 0
    → IsSound additional m
    → check_work_order m order w false ≡ ok u
    → send_work_order clock m order w ≡ ok k
    → update_state_on_alloc clock k order w ≡ ok g
    → IsSound additional g
unfolding check_work_order
order-IsSound additional clock m k g order w u hw some_tag s checked sent entered =
    elim (Option-cases (get_worker m.W w)) [
      | inl gone ↦ absurd (ground arith)
      | inr (wrk, there) ↦
          let hm : is_id m.W w ≡ true = rw s.table hw in
          let kept = order-IsHistory clock m k g order w s.numbered sent entered in
          record {
            table = kept.1.0 ∙ s.table;
            calm = kept.1.1 ∙ s.calm;
            consistent = order-AreConsistent clock m k g order w some_tag s.consistent sent entered;
            owned = order-IsOwned clock m k g order w wrk some_tag hm there s.owned sent entered;
            numbered = kept.0;
          }
    ]

give_work-IsSound :
    (additional : Bool) (exit : ExitCriteria) (clock : ℕ) (work : List (ℕ × Order)) (m g : Manager)
    → AreOrders additional work
    → IsSound additional m
    → give_work exit clock work m ≡ ok g
    → IsSound additional g
unfolding give_work
give_work-IsSound additional exit clock [] m g orders s e =
    let same : g ≡ m = ground arith in rw same s
give_work-IsSound additional exit clock ((w, order) ∷ work) m g orders s e =
    elim (Bool-cases (sim_max_given exit m.hist)) [
      | inl enough ↦ let same : g ≡ m = ground arith in rw same s
      | inr more ↦ elim (Outcome-cases (check_work_order m order w false)) [
        | inr (x, failed) ↦ absurd (ground arith)
        | inl (u, checked) ↦ elim (Outcome-cases (send_work_order clock m order w)) [
          | inr (x, failed) ↦ absurd (ground arith)
          | inl (k, sent) ↦ elim (Outcome-cases (update_state_on_alloc clock k order w)) [
            | inr (x, failed) ↦ absurd (ground arith)
            | inl (k', entered) ↦
                give_work-IsSound additional exit clock work k' g orders.1
                  (order-IsSound additional clock m k k' order w u orders.0.0 orders.0.1 s checked
                    sent entered)
                  (ground arith)
          ]
        ]
      ]
    ]

run_round-IsSound :
    (additional : Bool) (exit : ExitCriteria) (r : Round) (m g : Manager) (last : Bool)
    → IsAllocFunction additional r.alloc_f
    → AreMessages additional r.incoming
    → IsSound additional m
    → run_round exit r m ≡ ok (g, last)
    → IsSound additional g
unfolding run_round
run_round-IsSound additional exit r m g last law typed s e =
    elim (Outcome-cases (kill_cancelled_sims m)) [
      | inr (x, failed) ↦ absurd (ground arith)
      | inl ((a, ws), killed) ↦ elim (Outcome-cases (receive_from_workers r.clock r.incoming a)) [
        | inr (x, failed) ↦ absurd (ground arith)
        | inl (b, received) ↦ elim (Outcome-cases (alloc_work r.alloc_f b)) [
          | inr (x, failed) ↦ absurd (ground arith)
          | inl ((work, flag, c), allocated) ↦
              let sound_b : IsSound additional b =
                receive-IsSound additional r.clock r.incoming a b typed
                  (kill-IsSound additional m a ws s killed) received in
              let out : IsSound additional c × AreOrders additional work =
                alloc_work-IsSound additional r.alloc_f b c work flag law sound_b allocated in
              elim (Bool-cases (flag == 0)) [
                | inr stops ↦ let same : g ≡ c = ground arith in rw same out.0
                | inl goes_on ↦ elim (Outcome-cases (give_work exit r.clock work c)) [
                  | inr (x, failed) ↦ absurd (ground arith)
                  | inl (d, given) ↦
                      let same : g ≡ d = ground arith in
                      rw same (give_work-IsSound additional exit r.clock work c d out.1 out.0 given)
                ]
              ]
        ]
      ]
    ]

-- A run from a sound state, over any rounds of messages from workers of the table, which name the kind of
-- work done and of which no simulation returns a sim_id, with any allocation function in each round that
-- keeps the sim_ids and gives work with a tag to workers of the table. If it returns, the state is sound: a
-- worker that holds resource sets is active or in persistent state, a worker in active receive is both,
-- and the rows of the history are numbered by position.
pub run-IsSound :
    (additional : Bool) (exit : ExitCriteria) (rounds : List Round) (m g : Manager)
    → All (λ r. IsAllocFunction additional r.alloc_f × AreMessages additional r.incoming) rounds
    → IsSound additional m
    → run exit rounds m ≡ ok g
    → IsSound additional g
unfolding run
run-IsSound additional exit [] m g typed s e = let same : g ≡ m = ground arith in rw same s
run-IsSound additional exit (r ∷ rounds) m g typed s e =
    elim (Bool-cases (term_test exit r.elapsed m.hist == 0)) [
      | inr over ↦ let same : g ≡ m = ground arith in rw same s
      | inl goes_on ↦ elim (Outcome-cases (run_round exit r m)) [
        | inr (x, failed) ↦ absurd (ground arith)
        | inl ((k, last), made) ↦
            let sound : IsSound additional k =
              run_round-IsSound additional exit r m k last typed.0.0 typed.0.1 s made in
            elim (Bool-cases last) [
              | inl stops ↦ let same : g ≡ k = ground arith in rw same sound
              | inr more ↦ run-IsSound additional exit rounds k g typed.1 sound (ground arith)
            ]
      ]
    ]
