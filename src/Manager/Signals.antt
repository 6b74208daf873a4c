-- ===== src/Manager/Signals.antt =====
-- libensemble/manager.py, class Manager: a cancelled simulation gets one kill signal.
use libensemble.Base.{
  ℕ, zero, suc, ◌-◌, ◌≤◌, ◌<◌, ◌≡◌, refl, ap, Bool, true, false, ◌&&◌, not, List, [], ◌∷◌, map,
  some, ok, Bool-cases, Option-cases, inl, inr, ltb, ◌==◌, length, get_elem?, filter, all,
  modify_at, contains, arith, get_elem?-modify_at, contains-filter, mem_head, mem_tail, subst,
  if◌then◌else◌,
}
use libensemble.History.{History, Row}
use libensemble.History.Updates.{range_from, modify_all}
use libensemble.History.Ids.{IsHistory, sim_id_at, modify_all-SameIds}
use libensemble.History.Numbering.{range_from-contains}
use libensemble.Manager.{Manager, with_hist}
use libensemble.Manager.Kill.{kill_cancelled_sims, to_kill, id_index, worker_of, set_kill_sent}

to_kill-modify_at :
    (H : List Row) (j i : ℕ)
    → to_kill (modify_at j set_kill_sent H) i ≡ (to_kill H i && not (i == j))
to_kill-modify_at H j i = ground (arith, get_elem?-modify_at H i j set_kill_sent)

to_kill-modify_all :
    (rows : List ℕ) (H : List Row) (i : ℕ)
    → to_kill (modify_all rows set_kill_sent H) i ≡ (to_kill H i && not (contains i rows))
unfolding modify_all
to_kill-modify_all [] H i = ground arith
to_kill-modify_all (j ∷ rows) H i =
    ground (arith, to_kill-modify_all rows (modify_at j set_kill_sent H) i, to_kill-modify_at H j i)

filter-none :
    (p : ℕ → Bool) (xs : List ℕ) → ((i : ℕ) → contains i xs ≡ true → p i ≡ false) → filter p xs ≡ []
filter-none p [] h = refl
filter-none p (x ∷ xs) h =
    let tail : filter p xs ≡ [] = filter-none p xs (λ i there. h i (ground arith)) in
    ground (arith, h x, tail)

sim_id_at-get_elem? :
    (H : List Row) (i : ℕ) (r : Row) → get_elem? H i ≡ some r → sim_id_at H i ≡ r.sim_id
sim_id_at-get_elem? [] i r h = absurd (ground arith)
sim_id_at-get_elem? (s ∷ H) zero r h = ground arith
sim_id_at-get_elem? (s ∷ H) (suc i) r h = sim_id_at-get_elem? H i r h

-- A row that is numbered by its position is marked itself.
id_index_self : (h : History) → IsHistory h → (i : ℕ) → i < h.index → id_index h.H i ≡ i
unfolding IsHistory
id_index_self h ok_h i low = elim (Option-cases (get_elem? h.H i)) [
  | inl gone ↦ ground arith
  | inr (r, there) ↦ ground (arith, sim_id_at-get_elem? h.H i r there, ok_h.1 i)
]

map-id_index :
    (h : History)
    → IsHistory h
    → (rows : List ℕ) → ((i : ℕ) → contains i rows ≡ true → i < h.index)
    → map (id_index h.H) rows ≡ rows
map-id_index h ok_h [] low = refl
map-id_index h ok_h (i ∷ rows) low =
    let tail : map (id_index h.H) rows ≡ rows =
      map-id_index h ok_h rows (λ j there. low j (ground arith)) in
    let head : id_index h.H i ≡ i = id_index_self h ok_h i (low i (ground arith)) in
    rw (head, tail) refl

-- Nothing to kill: nothing is sent or changed.
kill_quiet :
    (m : Manager)
    → m.kill_canceled_sims ≡ true
    → all
        (λ i. ltb i (length m.hist.H))
        (range_from m.hist.next_ended (m.hist.next_started - m.hist.next_ended))
      ≡ true
    → filter
        (to_kill m.hist.H)
        (range_from m.hist.next_ended (m.hist.next_started - m.hist.next_ended))
      ≡ []
    → kill_cancelled_sims m ≡ ok (m, [])
unfolding kill_cancelled_sims modify_all
kill_quiet m kills inside quiet = ground arith

-- A simulation of the window of the kill signals that is cancelled and runs, and has had no signal.
pub record IsDoomed (h : History) (i : ℕ) (r : Row) : Type 0 where
  pub at : get_elem? h.H i ≡ some r
  pub low : h.next_ended ≤ i
  pub high : i < h.next_started
  pub started : r.sim_started ≡ true
  pub cancelled : r.cancel_requested ≡ true
  pub runs : r.sim_ended ≡ false
  pub unsent : r.kill_sent ≡ false

abbrev pub window : History → List ℕ
window h = range_from h.next_ended (h.next_started - h.next_ended)

abbrev pub doomed_rows : History → List ℕ
doomed_rows h = filter (to_kill h.H) (window h)

IsDoomed-contains :
    (h : History) (i : ℕ) (r : Row) → IsDoomed h i r → contains i (doomed_rows h) ≡ true
IsDoomed-contains h i r d =
    let inside = range_from-contains h.next_ended (h.next_started - h.next_ended) i in
    ground (
      arith,
      contains-filter (to_kill h.H) i (window h),
      inside,
      d.at,
      d.low,
      d.high,
      d.started,
      d.cancelled,
      d.runs,
      d.unsent,
    )

contains-IsDoomed :
    (h : History) (i : ℕ)
    → contains i (doomed_rows h) ≡ true
    → (r : Row) × IsDoomed h i r × (worker_of h.H i ≡ r.sim_worker)
contains-IsDoomed h i there =
    let inside = range_from-contains h.next_ended (h.next_started - h.next_ended) i in
    let kept = contains-filter (to_kill h.H) i (window h) in
    elim (Option-cases (get_elem? h.H i)) [
      | inl gone ↦ absurd (ground arith)
      | inr (r, found) ↦ (
        r,
        record {
          at = found;
          low = ground arith;
          high = ground arith;
          started = ground arith;
          cancelled = ground arith;
          runs = ground arith;
          unsent = ground arith;
        },
        ground arith,
      )
    ]

contains-map :
    (f : ℕ → ℕ) (i : ℕ) (xs : List ℕ) → contains i xs ≡ true → contains (f i) (map f xs) ≡ true
contains-map f i [] there = absurd (ground arith)
contains-map f i (x ∷ xs) there = elim (Bool-cases (i == x)) [
  | inl same ↦ let e : f i ≡ f x = ap f (ground arith) in ground (arith, e)
  | inr other ↦ mem_tail (f i) (f x) (map f xs) (contains-map f i xs (ground arith))
]

map-contains :
    (f : ℕ → ℕ) (w : ℕ) (xs : List ℕ)
    → contains w (map f xs) ≡ true
    → (i : ℕ) × (contains i xs ≡ true) × (f i ≡ w)
map-contains f w [] there = absurd (ground arith)
map-contains f w (x ∷ xs) there = elim (Bool-cases (w == f x)) [
  | inl same ↦ (x, mem_head x xs, ground arith)
  | inr other ↦
      let (i, found, e) = map-contains f w xs (ground arith) in (i, mem_tail i x xs found, e)
]

get_elem?-modify_all :
    (rows : List ℕ) (H : List Row) (i : ℕ) (r : Row)
    → get_elem? H i ≡ some r
    → get_elem? (modify_all rows set_kill_sent H) i
      ≡ some (if contains i rows then set_kill_sent r else r)
unfolding modify_all
get_elem?-modify_all [] H i r at = ground arith
get_elem?-modify_all (j ∷ rows) H i r at = elim (Bool-cases (i == j)) [
  | inl here ↦ ground (
    arith,
    get_elem?-modify_all rows (modify_at j set_kill_sent H) i (set_kill_sent r),
    get_elem?-modify_at H i j set_kill_sent,
  )
  | inr other ↦ ground (
    arith,
    get_elem?-modify_all rows (modify_at j set_kill_sent H) i r,
    get_elem?-modify_at H i j set_kill_sent,
  )
]

-- The signals `ws` and the rows `G` for the simulations of a history that are to be killed.
pub record AreSignalled (h : History) (G : List Row) (ws : List ℕ) : Type 0 where
  pub reached : (i : ℕ) (r : Row) → IsDoomed h i r → contains r.sim_worker ws ≡ true
  pub only :
      (w : ℕ) → contains w ws ≡ true → (i : ℕ) × (r : Row) × IsDoomed h i r × (r.sim_worker ≡ w)
  pub marked :
      (i : ℕ) (r : Row) → IsDoomed h i r → get_elem? G i ≡ some (record r { kill_sent = true })
  pub kept :
      (i : ℕ) (r : Row) → get_elem? h.H i ≡ some r → (IsDoomed h i r → ⊥) → get_elem? G i ≡ some r

signals-AreSignalled :
    (h : History)
    → AreSignalled h
        (modify_all (doomed_rows h) set_kill_sent h.H)
        (map (worker_of h.H) (doomed_rows h))
signals-AreSignalled h = record {
  reached = λ i r d.
      let there = IsDoomed-contains h i r d in
      let (s, e, same) = contains-IsDoomed h i there in
      let one : r ≡ s = ground (arith, d.at, e.at) in
      ground (arith, contains-map (worker_of h.H) i (doomed_rows h) there);
  only = λ w there.
      let (i, found, e) = map-contains (worker_of h.H) w (doomed_rows h) there in
      let (r, d, same) = contains-IsDoomed h i found in (i, r, d, ground arith);
  marked = λ i r d.
      ground (arith, get_elem?-modify_all (doomed_rows h) h.H i r d.at, IsDoomed-contains h i r d);
  kept = λ i r at safe. elim (Bool-cases (contains i (doomed_rows h))) [
    | inr out ↦ ground (arith, get_elem?-modify_all (doomed_rows h) h.H i r at)
    | inl there ↦
        let (s, d, same) = contains-IsDoomed h i there in
        let one : s ≡ r = ground (arith, d.at) in absurd (safe (subst (λ x. IsDoomed h i x) one d))
  ];
}

-- Where the rows given out are rows of a numbered history: the workers of the simulations of the window
-- that are started, cancelled, not ended and without a signal are sent one, and no other worker is; the
-- rows of these simulations are marked and all others stay as they are; and a second call sends nothing
-- and changes nothing.
pub kill_cancelled_sims_twice :
    (m g : Manager) (ws : List ℕ)
    → IsHistory m.hist
    → m.hist.next_started ≤ m.hist.index
    → m.kill_canceled_sims ≡ true
    → kill_cancelled_sims m ≡ ok (g, ws)
    → AreSignalled m.hist g.hist.H ws × (kill_cancelled_sims g ≡ ok (g, []))
unfolding kill_cancelled_sims
kill_cancelled_sims_twice m g ws ok_h given kills e =
    let h = m.hist in
    let inds = window h in
    let rows = doomed_rows h in
    let ids = map (id_index h.H) rows in
    let self : ids ≡ rows = map-id_index h ok_h rows (λ i there. ground (
      arith,
      contains-filter (to_kill h.H) i inds,
      range_from-contains h.next_ended (h.next_started - h.next_ended) i,
    )) in
    elim (Bool-cases (all (λ i. ltb i (length h.H)) inds)) [
      | inr outside ↦ absurd (ground arith)
      | inl inside ↦ elim (Bool-cases (all (λ i. ltb i (length h.H)) ids)) [
        | inr outside ↦ absurd (ground arith)
        | inl known ↦
            let G = modify_all rows set_kill_sent h.H in
            let same : g ≡ with_hist m (record h { H = G }) = ground (arith, self) in
            let sent : ws ≡ map (worker_of h.H) rows = ground arith in
            let marked : (i : ℕ) → contains i inds ≡ true → to_kill G i ≡ false = λ i there.
              ground (arith, to_kill-modify_all rows h.H i, contains-filter (to_kill h.H) i inds) in
            let none_left : filter (to_kill G) inds ≡ [] = filter-none (to_kill G) inds marked in
            let as_long : length G ≡ length h.H =
              (modify_all-SameIds set_kill_sent (λ r. refl) rows h.H).0 in
            rw (same, sent)
              (
                signals-AreSignalled h,
                kill_quiet (with_hist m (record h { H = G })) kills (rw as_long inside) none_left,
              )
      ]
    ]
