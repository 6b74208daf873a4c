-- ===== src/Manager/Records.antt =====
-- libensemble/manager.py, class Manager: what a round does to the history and to fixed parts.
use libensemble.Base.{
  ℕ, zero, suc, subst, ◌≡◌, refl, ◌∙◌, true, false, not, List, [], ◌∷◌, some, Outcome, ok, raise,
  Outcome-cases, Option-cases, Bool-cases, ◌⊎◌, inl, inr, ◌==◌, take, arith, contains, filter,
}
use libensemble.History.{History, Row, HistoryError}
use libensemble.History.Updates.{
  update_history_x_out, update_history_to_gen, update_history_f, update_history_x_in,
}
use libensemble.History.Ids.{IsHistory, HaveNoIds, SameIds, sim_id_at}
use libensemble.History.Updated.{
  update_history_x_in-IsHistory, update_history_x_out-IsHistory, update_history_f-IsHistory,
  update_history_to_gen-IsHistory,
}
use libensemble.Alloc.Workers.{get_worker, eval_gen_tag, eval_sim_tag}
use libensemble.Alloc.{Worker}
use libensemble.Manager.{
  Manager, history_error, Order, Message, Status, finished_persistent_gen, finished_persistent_sim,
  other_status, set_worker, freeup_resources, set_resources, with_hist, lifted, set_up_order,
  send_work_order, update_state_on_alloc,
}
use libensemble.Manager.States.{send_work_order-set_up}
use libensemble.Manager.Messages.{
  update_state_on_worker_msg, take_final, take_sim, take_gen, is_finished, settle_worker,
  finish_worker,
}
use libensemble.Manager.Loop.{overlay}

pub lifted-ok :
    (r : Outcome HistoryError History) (h : History) → lifted history_error r ≡ ok h → r ≡ ok h
lifted-ok (ok k) h e = ground arith
lifted-ok (raise x) h e = absurd (ground arith)

take_sim-IsHistory :
    (clock : ℕ) (m : Manager) (msg : Message) (h : History)
    → IsHistory m.hist
    → HaveNoIds msg.sim_out
    → take_sim clock m msg ≡ ok h
    → IsHistory h
unfolding take_sim
take_sim-IsHistory clock m msg h ok_h plain e = elim (Bool-cases (msg.calc_type == eval_sim_tag)) [
  | inl sim ↦
      update_history_f-IsHistory msg.H_rows msg.sim_out m.kill_canceled_sims clock m.hist h ok_h
        plain
        (lifted-ok (update_history_f msg.H_rows msg.sim_out m.kill_canceled_sims clock m.hist) h
          (ground arith))
  | inr other ↦ let same : h ≡ m.hist = ground arith in rw same ok_h
]

take_gen-IsHistory :
    (clock : ℕ) (m : Manager) (msg : Message) (w : ℕ) (wrk : Worker) (h : History)
    → IsHistory m.hist
    → take_gen clock m msg w wrk ≡ ok h
    → IsHistory h
unfolding take_gen
take_gen-IsHistory clock m msg w wrk h ok_h e = elim (Bool-cases (msg.calc_type == eval_gen_tag)) [
  | inr other ↦ let same : h ≡ m.hist = ground arith in rw same ok_h
  | inl gen ↦ elim (Option-cases msg.gen_out) [
    | inl gone ↦ absurd (ground arith)
    | inr (D, there) ↦
        elim (Outcome-cases (update_history_x_in w D wrk.gen_started_time clock m.hist)) [
          | inr (x, failed) ↦ absurd (ground arith)
          | inl (k, made) ↦
              let same : h ≡ k = ground arith in
              rw same
                (update_history_x_in-IsHistory w D wrk.gen_started_time clock m.hist k ok_h made)
        ]
  ]
]

take_final-IsHistory :
    (clock : ℕ) (m : Manager) (msg : Message) (w started : ℕ) (h : History)
    → IsHistory m.hist
    → HaveNoIds msg.sim_out
    → take_final clock m msg w started ≡ ok h
    → IsHistory h
unfolding take_final
take_final-IsHistory clock m msg w started h ok_h plain e = by_status msg.calc_status refl
  where
    by_status : (s : Status) → msg.calc_status ≡ s → IsHistory h
    by_status other_status at = let same : h ≡ m.hist = ground arith in rw same ok_h
    by_status finished_persistent_gen at = elim (Option-cases msg.gen_out) [
      | inl gone ↦ let same : h ≡ m.hist = ground arith in rw same ok_h
      | inr (D, there) ↦ elim (Bool-cases m.use_persis_return_gen) [
        | inl asked ↦
            update_history_x_in-IsHistory w D started clock m.hist h ok_h
              (lifted-ok (update_history_x_in w D started clock m.hist) h (ground arith))
        | inr dropped ↦ let same : h ≡ m.hist = ground arith in rw same ok_h
      ]
    ]
    by_status finished_persistent_sim at = elim (Option-cases msg.sim_out) [
      | inl gone ↦ let same : h ≡ m.hist = ground arith in rw same ok_h
      | inr (rows, there) ↦ elim (Bool-cases m.use_persis_return_sim) [
        | inl asked ↦
            update_history_f-IsHistory msg.H_rows (some rows) m.kill_canceled_sims clock m.hist h
              ok_h (subst HaveNoIds there plain)
              (lifted-ok (update_history_f msg.H_rows (some rows) m.kill_canceled_sims clock m.hist)
                h (ground arith))
        | inr dropped ↦ let same : h ≡ m.hist = ground arith in rw same ok_h
      ]
    ]

-- The parts of a manager that a step leaves alone: the worker IDs, and that no worker has failed.
abbrev pub SameFixed : Manager → Manager → Type 0
SameFixed m g = (g.W.additional_worker ≡ m.W.additional_worker) × (g.worker_exc ≡ m.worker_exc)

freeup-hist : (m : Manager) (w : ℕ) → (freeup_resources m w).hist ≡ m.hist
unfolding freeup_resources
freeup-hist m w = ground arith

freeup-SameFixed : (m : Manager) (w : ℕ) → SameFixed m (freeup_resources m w)
unfolding freeup_resources
freeup-SameFixed m w = (ground arith, ground arith)

pub update_state_on_worker_msg-IsHistory :
    (clock : ℕ) (m : Manager) (msg : Message) (w : ℕ) (g : Manager)
    → IsHistory m.hist
    → HaveNoIds msg.sim_out
    → update_state_on_worker_msg clock m msg w ≡ ok g
    → IsHistory g.hist × SameFixed m g
unfolding update_state_on_worker_msg set_worker
update_state_on_worker_msg-IsHistory clock m msg w g ok_h plain e =
    let pending = contains w m.persis_pending in
    let settled = set_worker w (settle_worker pending msg) m in
    elim (Option-cases (get_worker settled.W w)) [
      | inl gone ↦ absurd (ground arith)
      | inr (wrk, there) ↦ elim (Bool-cases (is_finished msg.calc_status)) [
        | inl finished ↦
            elim (Outcome-cases (take_final clock settled msg w wrk.gen_started_time)) [
              | inr (x, failed) ↦ absurd (ground arith)
              | inl (k, made) ↦
                  let done = set_worker w (finish_worker pending) (with_hist settled k) in
                  let last = record done {
                    persis_pending = filter (λ v. not (v == w)) m.persis_pending;
                  } in
                  let same : g ≡ freeup_resources last w = ground arith in
                  rw same (
                    rw (freeup-hist last w) (
                        take_final-IsHistory clock settled msg w wrk.gen_started_time k ok_h plain
                          made),
                    freeup-SameFixed last w,
                  )
            ]
        | inr running ↦ elim (Outcome-cases (take_sim clock settled msg)) [
          | inr (x, failed) ↦ absurd (ground arith)
          | inl (j, made) ↦ elim (Outcome-cases (take_gen clock (with_hist settled j) msg w wrk)) [
            | inr (x, failed) ↦ absurd (ground arith)
            | inl (k, got) ↦
                let numbered : IsHistory k =
                  take_gen-IsHistory clock (with_hist settled j) msg w wrk k
                    (take_sim-IsHistory clock settled msg j ok_h plain made) got in
                elim (Bool-cases msg.persistent) [
                  | inl waits ↦
                      let at_hist : g.hist ≡ k = ground arith in
                      rw at_hist (numbered, (ground arith, ground arith))
                  | inr idle ↦
                      let open_m = with_hist settled k in
                      let same : g ≡ freeup_resources open_m w = ground arith in
                      rw same (rw (freeup-hist open_m w) numbered, freeup-SameFixed open_m w)
                ]
          ]
        ]
      ]
    ]

set_resources-hist :
    (m g : Manager) (work : Order) (w : ℕ)
    → set_resources m work w ≡ ok g
    → (g.hist ≡ m.hist) × SameFixed m g
unfolding set_resources
set_resources-hist m g work w e = (ground arith, (ground arith, ground arith))

pub send_work_order-hist :
    (clock : ℕ) (m g : Manager) (work : Order) (w : ℕ)
    → send_work_order clock m work w ≡ ok g
    → (g.hist ≡ m.hist) × SameFixed m g
unfolding set_up_order set_worker
send_work_order-hist clock m g work w sent =
    let e : set_up_order clock m work w ≡ ok g = send_work_order-set_up clock m g work w sent in
    elim (Outcome-cases (set_resources m work w)) [
      | inr (x, failed) ↦ absurd (ground arith)
      | inl (k, made) ↦
          let kept = set_resources-hist m k work w made in
          (ground (arith, kept.0), (ground (arith, kept.1.0), ground (arith, kept.1.1)))
    ]

update_state_on_alloc-hist :
    (clock : ℕ) (m g : Manager) (work : Order) (w : ℕ)
    → IsHistory m.hist
    → update_state_on_alloc clock m work w ≡ ok g
    → IsHistory g.hist × SameFixed m g
unfolding update_state_on_alloc set_worker
update_state_on_alloc-hist clock m g work w ok_h e = (
  numbered (Bool-cases (work.tag == eval_sim_tag)) (Bool-cases (work.tag == eval_gen_tag)),
  (ground arith, ground arith),
)
  where
    numbered :
        ((work.tag == eval_sim_tag) ≡ true) ⊎ ((work.tag == eval_sim_tag) ≡ false)
        → ((work.tag == eval_gen_tag) ≡ true) ⊎ ((work.tag == eval_gen_tag) ≡ false)
        → IsHistory g.hist
    numbered (inl sim) _ =
        update_history_x_out-IsHistory work.H_rows w m.kill_canceled_sims clock m.hist g.hist ok_h (
          lifted-ok (update_history_x_out work.H_rows w m.kill_canceled_sims clock m.hist) g.hist
            (ground arith))
    numbered (inr other) (inl gen) =
        update_history_to_gen-IsHistory work.H_rows clock m.hist g.hist ok_h
          (lifted-ok (update_history_to_gen work.H_rows clock m.hist) g.hist (ground arith))
    numbered (inr other) (inr neither) = let same : g.hist ≡ m.hist = ground arith in rw same ok_h

pub order-IsHistory :
    (clock : ℕ) (m k g : Manager) (work : Order) (w : ℕ)
    → IsHistory m.hist
    → send_work_order clock m work w ≡ ok k
    → update_state_on_alloc clock k work w ≡ ok g
    → IsHistory g.hist × SameFixed m g
order-IsHistory clock m k g work w ok_h sent given =
    let first = send_work_order-hist clock m k work w sent in
    let second = update_state_on_alloc-hist clock k g work w (rw first.0 ok_h) given in
    (second.0, (second.1.0 ∙ first.1.0, second.1.1 ∙ first.1.1))

-- The rows that the allocation function writes keep the sim_ids if those of the trimmed array are kept.
pub overlay-SameIds :
    (n : ℕ) (H rows : List Row) → SameIds (take n H) rows → SameIds H (overlay (take n rows) H)
unfolding overlay
overlay-SameIds zero H rows same = (refl, λ i. refl)
overlay-SameIds (suc n) [] [] same = (refl, λ i. refl)
overlay-SameIds (suc n) [] (s ∷ rows) same = absurd (omega (arith, same.0))
overlay-SameIds (suc n) (r ∷ H) [] same = absurd (omega (arith, same.0))
overlay-SameIds (suc n) (r ∷ H) (s ∷ rows) same =
    let rest : SameIds H (overlay (take n rows) H) =
      overlay-SameIds n H rows (omega (arith, same.0), λ i. same.1 (suc i)) in
    (omega (arith, rest.0), rows_of rest.1)
  where
    rows_of :
        ((i : ℕ) → sim_id_at (overlay (take n rows) H) i ≡ sim_id_at H i)
        → (i : ℕ) → sim_id_at (s ∷ overlay (take n rows) H) i ≡ sim_id_at (r ∷ H) i
    rows_of rest zero = same.1 zero
    rows_of rest (suc i) = rest i
