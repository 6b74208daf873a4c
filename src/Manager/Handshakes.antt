-- ===== src/Manager/Handshakes.antt =====
-- libensemble/manager.py, class Manager: the handshakes with the workers in persistent state.
use libensemble.Base.{
  ℕ, zero, suc, ◌+◌, ◌-◌, ◌≡◌, refl, ◌∙◌, Bool, true, false, ◌||◌, not, List, [], ◌∷◌, ◌++◌, Option,
  none, some, ok, Outcome-cases, Bool-cases, ◌⊎◌, inl, inr, ◌==◌, ltb, if◌then◌else◌, get_elem?,
  get_elem?-modify_at, arith, All, All-mono,
}
use libensemble.History.{History}
use libensemble.History.Updates.{update_history_to_gen}
use libensemble.History.Ids.{IsHistory}
use libensemble.History.Updated.{update_history_to_gen-IsHistory}
use libensemble.Alloc.{Worker, WorkerIndexer}
use libensemble.Manager.{
  Manager, FieldName, set_worker, with_hist, check_work_order, set_up_order, send_work_order,
  set_resources, history_error, lifted,
}
use libensemble.Manager.Final.{
  uninformed_from, stop_order, reactivate, stop_worker, stop_workers, persistent_ids,
}
use libensemble.Manager.States.{
  send_work_order-set_up, AreConsistent, IsConsistent, set_worker-AreConsistent, table_kept,
}
use libensemble.Manager.Owners.{IsOwned, is_busy, is_holder}
use libensemble.Manager.Orders.{set_resources-holders}
use libensemble.Manager.Records.{send_work_order-hist, lifted-ok}
use libensemble.Manager.Sound.{IsSound, is_worker}

abbrev pub is_persistent : WorkerIndexer → ℕ → Bool
is_persistent W w = elim (get_elem? W.iterable (if W.additional_worker then w else w - 1)) [
  | none ↦ false
  | some wrk ↦ not (wrk.persis_state == 0)
]

-- Worker IDs are positions in the table; they begin with 0 for an additional worker.
abbrev pub AreNumbered : WorkerIndexer → Type 0
AreNumbered W =
    (k : ℕ) (wrk : Worker)
    → get_elem? W.iterable k ≡ some wrk
    → wrk.worker_id ≡ (if W.additional_worker then k else k + 1)

reactivate-IsConsistent : (wrk : Worker) → IsConsistent wrk → IsConsistent (reactivate wrk)
reactivate-IsConsistent wrk ok_w = elim (Bool-cases (wrk.active == 0)) [
  | inl idle ↦ rw idle (λ h. absurd (ground (arith, ok_w h)))
  | inr active ↦ rw active ok_w
]

-- A worker that is activated again was in persistent state, so that no row counts as busier than before.
reactivate-is_busy :
    (w v : ℕ) (m : Manager)
    → (is_busy (set_worker w reactivate m).W v ≡ is_busy m.W v)
      × (is_persistent (set_worker w reactivate m).W v ≡ is_persistent m.W v)
unfolding set_worker
reactivate-is_busy w v m =
    let at = λ (u : ℕ). if m.W.additional_worker then u else u - 1 in
    let got = get_elem?-modify_at m.W.iterable (at v) (at w) reactivate in
    (ground (arith, got), ground (arith, got))

-- What is the same after `sent`, but for resource sets given to the worker.
record IsSent (w : ℕ) (m g : Manager) : Type 0 where
  same_table : g.W ≡ m.W
  same_exc : g.worker_exc ≡ m.worker_exc
  numbered : IsHistory g.hist
  holders : (v : ℕ) → is_holder g v ≡ true → (is_holder m v || w == v) ≡ true

reactivated-IsSound :
    (additional : Bool) (w : ℕ) (m k : Manager) (pending : List ℕ)
    → is_worker additional w ≡ true
    → is_persistent m.W w ≡ true
    → IsSound additional m
    → IsSent w m k
    → IsSound additional (record (set_worker w reactivate k) { persis_pending = pending })
unfolding set_worker IsOwned AreConsistent
reactivated-IsSound additional w m k pending hw persists s sent =
    let busy : (v : ℕ) → is_busy (set_worker w reactivate k).W v ≡ is_busy m.W v =
      λ v. (reactivate-is_busy w v k).0 ∙ rw sent.same_table refl in
    record {
      table = rw sent.same_table s.table;
      calm = sent.same_exc ∙ s.calm;
      consistent =
          set_worker-AreConsistent w reactivate k reactivate-IsConsistent
            (table_kept m k sent.same_table s.consistent);
      owned = λ v h. elim (Bool-cases (w == v)) [
        | inl self ↦ ground (arith, sent.same_table, s.table, busy v)
        | inr other ↦ ground (arith, sent.same_table, s.table, busy v, sent.holders v h, s.owned v)
      ];
      numbered = sent.numbered;
    }

-- The order for the last handshake is not for a generator, so that only its resources are set.
pub stop_order-set :
    (clock : ℕ) (persis_in : List FieldName) (rows : List ℕ) (w : ℕ) (m g : Manager)
    → send_work_order clock m (stop_order persis_in rows) w ≡ ok g
    → set_resources m (stop_order persis_in rows) w ≡ ok g
unfolding set_up_order
stop_order-set clock persis_in rows w m g sent =
    let work = stop_order persis_in rows in
    let e : set_up_order clock m work w ≡ ok g = send_work_order-set_up clock m g work w sent in
    elim (Outcome-cases (set_resources m work w)) [
      | inl (k, made) ↦ ground arith
      | inr (x, failed) ↦ absurd (ground arith)
    ]

-- The last message to a worker is sent; it has a tag of its own.
stop_order-IsSent :
    (clock : ℕ) (persis_in : List FieldName) (rows : List ℕ) (w : ℕ) (m g : Manager) (h : History)
    → IsHistory m.hist
    → send_work_order clock m (stop_order persis_in rows) w ≡ ok g
    → lifted history_error (update_history_to_gen rows clock g.hist) ≡ ok h
    → IsSent w m (with_hist g h)
stop_order-IsSent clock persis_in rows w m g h ok_h sent told =
    let work = stop_order persis_in rows in
    let kept = send_work_order-hist clock m g work w sent in
    let held = set_resources-holders m g work w (stop_order-set clock persis_in rows w m g sent) in
    record {
      same_table = held.0;
      same_exc = kept.1.1;
      numbered =
          update_history_to_gen-IsHistory rows clock g.hist h (rw kept.0 ok_h)
            (lifted-ok (update_history_to_gen rows clock g.hist) h told);
      holders = held.1;
    }

nothing-IsSent : (w : ℕ) (m : Manager) → IsHistory m.hist → IsSent w m m
nothing-IsSent w m ok_h = record {
  same_table = refl;
  same_exc = refl;
  numbered = ok_h;
  holders = λ v h. ground arith;
}

-- A handshake, which leaves the same workers in persistent state.
stop_worker-IsSound :
    (additional : Bool) (clock : ℕ) (persis_in : Option (List FieldName)) (m g : Manager) (w : ℕ)
    → is_worker additional w ≡ true
    → is_persistent m.W w ≡ true
    → IsSound additional m
    → stop_worker clock persis_in m w ≡ ok g
    → IsSound additional g × ((v : ℕ) → is_persistent g.W v ≡ is_persistent m.W v)
unfolding stop_worker
stop_worker-IsSound additional clock none m g w hw persists s e =
    let last = record (set_worker w reactivate m) { persis_pending = m.persis_pending ++ w ∷ [] } in
    let same : g ≡ last = ground arith in
    rw same (
      reactivated-IsSound additional w m m (m.persis_pending ++ w ∷ []) hw persists s
          (nothing-IsSent w m s.numbered),
      λ v. (reactivate-is_busy w v m).1,
    )
stop_worker-IsSound additional clock (some persis_in) m g w hw persists s e =
    let rows = uninformed_from 0 m.hist.H in
    let work = stop_order persis_in rows in
    elim (Outcome-cases (check_work_order m work w true)) [
      | inr (x, failed) ↦ absurd (ground arith)
      | inl (u, checked) ↦ elim (Outcome-cases (send_work_order clock m work w)) [
        | inr (x, failed) ↦ absurd (ground arith)
        | inl (k, sent) ↦
            elim (Outcome-cases (lifted history_error (update_history_to_gen rows clock k.hist))) [
              | inr (x, failed) ↦ absurd (ground arith)
              | inl (h, told) ↦
                  let j = with_hist k h in
                  let pending = k.persis_pending ++ w ∷ [] in
                  let same : g ≡ record (set_worker w reactivate j) { persis_pending = pending } =
                    ground arith in
                  let is_sent : IsSent w m j =
                    stop_order-IsSent clock persis_in rows w m k h s.numbered sent told in
                  rw same (
                    reactivated-IsSound additional w m j pending hw persists s is_sent,
                    λ v. (reactivate-is_busy w v j).1 ∙ rw is_sent.same_table refl,
                  )
            ]
      ]
    ]

pub stop_workers-IsSound :
    (additional : Bool) (clock : ℕ) (persis_in : Option (List FieldName)) (ws : List ℕ)
    (m g : Manager)
    → All (λ w. (is_worker additional w ≡ true) × (is_persistent m.W w ≡ true)) ws
    → IsSound additional m
    → stop_workers clock persis_in ws m ≡ ok g
    → IsSound additional g
unfolding stop_workers
stop_workers-IsSound additional clock persis_in [] m g h s e =
    let same : g ≡ m = ground arith in rw same s
stop_workers-IsSound additional clock persis_in (w ∷ ws) m g h s e =
    elim (Outcome-cases (stop_worker clock persis_in m w)) [
      | inr (x, failed) ↦ absurd (ground arith)
      | inl (k, stopped) ↦
          let first = stop_worker-IsSound additional clock persis_in m k w h.0.0 h.0.1 s stopped in
          stop_workers-IsSound additional clock persis_in ws k g
            (All-mono _ _ ws (λ v p. (p.0, first.1 v ∙ p.1)) h.1) first.0 (ground arith)
    ]

persistent_ids-All :
    (P : ℕ → Type 0) (ws : List Worker)
    → ((k : ℕ) (wrk : Worker)
        → get_elem? ws k ≡ some wrk
        → ltb 0 wrk.persis_state ≡ true
        → P wrk.worker_id)
    → All P (persistent_ids ws)
persistent_ids-All P [] h = tt
persistent_ids-All P (wrk ∷ ws) h =
    let rest : All P (persistent_ids ws) = persistent_ids-All P ws (λ k. h (suc k)) in
    elim (Bool-cases (ltb 0 wrk.persis_state)) [
      | inl waits ↦ rw waits (h zero wrk refl waits, rest)
      | inr plain ↦ rw plain rest
    ]

-- The handshakes go to workers of the table that are in persistent state.
pub persistent_ids-AreWorkers :
    (additional : Bool) (W : WorkerIndexer)
    → W.additional_worker ≡ additional
    → AreNumbered W
    → All
        (λ w. (is_worker additional w ≡ true) × (is_persistent W w ≡ true))
        (persistent_ids W.iterable)
persistent_ids-AreWorkers additional W table numbered =
    persistent_ids-All (λ w. (is_worker additional w ≡ true) × (is_persistent W w ≡ true))
      W.iterable (λ k wrk there waits. at_row k wrk there waits (Bool-cases W.additional_worker))
  where
    at_row :
        (k : ℕ) (wrk : Worker)
        → get_elem? W.iterable k ≡ some wrk
        → ltb 0 wrk.persis_state ≡ true
        → (W.additional_worker ≡ true) ⊎ (W.additional_worker ≡ false)
        → (is_worker additional wrk.worker_id ≡ true) × (is_persistent W wrk.worker_id ≡ true)
    at_row k wrk there waits (inl with_zero) =
        let id : wrk.worker_id ≡ k = ground (arith, numbered k wrk there) in
        (ground (arith, table), ground (arith, id))
    at_row k wrk there waits (inr from_one) =
        let id : wrk.worker_id ≡ k + 1 = ground (arith, numbered k wrk there) in
        (ground (arith, table, id), ground (arith, id))
