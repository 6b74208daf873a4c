-- ===== src/Manager/Sound.antt =====
-- libensemble/manager.py, class Manager: what holds between the steps, and the messages of a round.
use libensemble.Base.{
  ℕ, ◌-◌, ◌≡◌, ◌≢◌, refl, ◌∙◌, Bool, true, false, ◌||◌, List, [], ◌∷◌, map, ok, Outcome-cases,
  Bool-cases, inl, inr, ltb, take, arith, filter, length, all, All,
}
use libensemble.History.{Row}
use libensemble.History.Updates.{modify_all, range_from}
use libensemble.History.Ids.{IsHistory, HaveNoIds, SameIds, modify_all-SameIds}
use libensemble.History.Updated.{SameIds-IsHistory}
use libensemble.Manager.{Manager, Order, with_hist}
use libensemble.Manager.Kill.{kill_cancelled_sims, to_kill, id_index, set_kill_sent}
use libensemble.Manager.Loop.{
  Incoming, comm_finished, log_record, worker_error, message, Allocated, handle_msg,
  receive_from_workers,
}
use libensemble.Manager.States.{AreConsistent, update_state_on_worker_msg-AreConsistent}
use libensemble.Manager.Owners.{IsOwned, is_id}
use libensemble.Manager.Orders.{update_state_on_worker_msg-IsOwned}
use libensemble.Manager.Records.{update_state_on_worker_msg-IsHistory}

-- What holds between the steps of a run, for a table with or without an additional worker.

pub record IsSound (additional : Bool) (m : Manager) : Type 0 where
  pub table : m.W.additional_worker ≡ additional
  pub calm : m.worker_exc ≡ false
  pub consistent : AreConsistent m
  pub owned : IsOwned m
  pub numbered : IsHistory m.hist

-- Worker 0 is there only with an additional worker.
abbrev pub is_worker : Bool → ℕ → Bool
is_worker additional w = additional || ltb 0 w

-- A message names the kind of work that was done, and no simulation returns a sim_id.
abbrev pub IsTyped : Incoming → Type 0
IsTyped comm_finished = Unit {0}
IsTyped log_record = Unit {0}
IsTyped worker_error = Unit {0}
IsTyped (message msg) = (msg.calc_type ≢ 0) × HaveNoIds msg.sim_out

abbrev pub AreMessages : Bool → List (ℕ × Incoming) → Type 0
AreMessages additional = All (λ item. (is_worker additional item.0 ≡ true) × IsTyped item.1)

abbrev pub AreOrders : Bool → List (ℕ × Order) → Type 0
AreOrders additional = All (λ item. (is_worker additional item.0 ≡ true) × (item.1.tag ≢ 0))

-- What the allocation function of a round is to do: leave the sim_ids as they are, and give work with a tag to
-- workers of the table.
pub record IsAllocFunction (additional : Bool) (alloc_f : Manager → Allocated) : Type 0 where
  pub keeps_ids : (m : Manager) → SameIds (take m.hist.index m.hist.H) (alloc_f m).rows
  pub gives_orders : (m : Manager) → AreOrders additional (alloc_f m).work

-- A new history array with the same sim_ids.
pub rewrite_H :
    (additional : Bool) (m : Manager) (H : List Row)
    → IsSound additional m
    → SameIds m.hist.H H
    → IsSound additional (with_hist m (record m.hist { H = H }))
unfolding AreConsistent IsOwned
rewrite_H additional m H s same = record {
  table = s.table;
  calm = s.calm;
  consistent = s.consistent;
  owned = s.owned;
  numbered = SameIds-IsHistory m.hist (record m.hist { H = H }) s.numbered same refl;
}

pub kill-IsSound :
    (additional : Bool) (m g : Manager) (ws : List ℕ)
    → IsSound additional m
    → kill_cancelled_sims m ≡ ok (g, ws)
    → IsSound additional g
unfolding kill_cancelled_sims
kill-IsSound additional m g ws s e = elim (Bool-cases m.kill_canceled_sims) [
  | inr never ↦ let same : g ≡ m = ground arith in rw same s
  | inl kills ↦
      let h = m.hist in
      let inds = range_from h.next_ended (h.next_started - h.next_ended) in
      let ids = map (id_index h.H) (filter (to_kill h.H) inds) in
      elim (Bool-cases (all (λ i. ltb i (length h.H)) inds)) [
        | inr outside ↦ absurd (ground arith)
        | inl inside ↦ elim (Bool-cases (all (λ i. ltb i (length h.H)) ids)) [
          | inr outside ↦ absurd (ground arith)
          | inl known ↦
              let same : g ≡ with_hist m (record h { H = modify_all ids set_kill_sent h.H }) =
                ground arith in
              rw same (
                rewrite_H additional m (modify_all ids set_kill_sent h.H) s
                  (modify_all-SameIds set_kill_sent (λ r. refl) ids h.H))
        ]
      ]
]

handle_msg-IsSound :
    (additional : Bool) (clock : ℕ) (m g : Manager) (w : ℕ) (msg : Incoming)
    → is_worker additional w ≡ true
    → IsTyped msg
    → IsSound additional m
    → handle_msg clock m w msg ≡ ok g
    → IsSound additional g
unfolding handle_msg
handle_msg-IsSound additional clock m g w comm_finished hw typed s e =
    let same : g ≡ m = ground arith in rw same s
handle_msg-IsSound additional clock m g w log_record hw typed s e =
    let same : g ≡ m = ground arith in rw same s
handle_msg-IsSound additional clock m g w worker_error hw typed s e =
    absurd (ground (arith, s.calm))
handle_msg-IsSound additional clock m g w (message msg) hw typed s e =
    let hm : is_id m.W w ≡ true = rw s.table hw in
    let kept = update_state_on_worker_msg-IsHistory clock m msg w g s.numbered typed.1 e in
    record {
      table = kept.1.0 ∙ s.table;
      calm = kept.1.1 ∙ s.calm;
      consistent = update_state_on_worker_msg-AreConsistent clock m msg w g typed.0 s.consistent e;
      owned = update_state_on_worker_msg-IsOwned clock m msg w g typed.0 hm s.owned e;
      numbered = kept.0;
    }

pub receive-IsSound :
    (additional : Bool) (clock : ℕ) (msgs : List (ℕ × Incoming)) (m g : Manager)
    → AreMessages additional msgs
    → IsSound additional m
    → receive_from_workers clock msgs m ≡ ok g
    → IsSound additional g
unfolding receive_from_workers
receive-IsSound additional clock [] m g typed s e = let same : g ≡ m = ground arith in rw same s
receive-IsSound additional clock ((w, msg) ∷ msgs) m g typed s e =
    elim (Outcome-cases (handle_msg clock m w msg)) [
      | inr (x, failed) ↦ absurd (ground arith)
      | inl (k, made) ↦
          receive-IsSound additional clock msgs k g typed.1
            (handle_msg-IsSound additional clock m k w msg typed.0.0 typed.0.1 s made)
            (ground arith)
    ]
