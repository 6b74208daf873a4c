-- ===== src/Manager/Orders.antt =====
-- libensemble/manager.py, class Manager: work orders and messages keep resource sets with busy workers.
use libensemble.Base.{
  ℕ, ◌-◌, ◌≡◌, ◌≢◌, refl, sym, ◌∙◌, true, false, ◌&&◌, ◌||◌, not, some, ok, Outcome-cases,
  Option-cases, Bool-cases, inl, inr, ◌==◌, if◌then◌else◌, get_elem?-modify_at, arith, contains,
  filter,
}
use libensemble.Resources.Assignment.{assign_rsets}
use libensemble.Alloc.{Worker}
use libensemble.Alloc.Workers.{get_worker, eval_gen_tag}
use libensemble.Manager.{
  Manager, Order, Message, set_worker, freeup_resources, set_resources, team_of, with_hist,
  set_up_order, send_work_order, update_state_on_alloc, alloc_worker,
}
use libensemble.Manager.States.{send_work_order-set_up}
use libensemble.Manager.Messages.{
  settle_worker, finish_worker, wait_worker, update_state_on_worker_msg, take_final, take_sim,
  take_gen, is_finished,
}
use libensemble.Manager.Owners.{
  is_holder, is_busy, is_id, IsOwned, assign_rsets-holders, freeup-holders, set_worker-is_busy,
  set_worker-is_busy_self,
}

-- Workers other than one are as busy as before, and the worker IDs are the same.
abbrev pub SameOthers : ℕ → Manager → Manager → Type 0
SameOthers w m g =
    ((v : ℕ) → is_id g.W v ≡ is_id m.W v)
    × ((v : ℕ) → is_id m.W v ≡ true → (v == w) ≡ false → is_busy g.W v ≡ is_busy m.W v)

SameOthers-trans :
    (w : ℕ) (m g k : Manager) → SameOthers w m g → SameOthers w g k → SameOthers w m k
SameOthers-trans w m g k a b =
    (λ v. b.0 v ∙ a.0 v, λ v hv other. b.1 v (a.0 v ∙ hv) other ∙ a.1 v hv other)

set_worker-SameOthers :
    (w : ℕ) (f : Worker → Worker) (m : Manager)
    → is_id m.W w ≡ true
    → SameOthers w m (set_worker w f m)
unfolding set_worker
set_worker-SameOthers w f m hw = ((λ v. refl), λ v hv other. set_worker-is_busy w v f m hw hv other)

-- A worker that may have been given resource sets, and is busy.
take-IsOwned :
    (w : ℕ) (m g : Manager)
    → is_id m.W w ≡ true
    → IsOwned m
    → SameOthers w m g
    → ((v : ℕ) → is_holder g v ≡ true → (is_holder m v || w == v) ≡ true)
    → is_busy g.W w ≡ true
    → IsOwned g
unfolding IsOwned
take-IsOwned w m g hw owned others holders busy v h = elim (Bool-cases (v == w)) [
  | inl same ↦ let e : v ≡ w = ground arith in rw e (ground (arith, others.0 w))
  | inr other ↦ ground (arith, others.0 v, others.1 v, holders v h, owned v)
]

-- A worker that has given all its resource sets back.
drop-IsOwned :
    (w : ℕ) (m g : Manager)
    → IsOwned m
    → SameOthers w m g
    → ((v : ℕ) → is_holder g v ≡ true → (is_holder m v && not (v == w)) ≡ true)
    → IsOwned g
unfolding IsOwned
drop-IsOwned w m g owned others holders v h =
    ground (arith, others.0 v, others.1 v, holders v h, owned v)

pub set_resources-holders :
    (m g : Manager) (work : Order) (w : ℕ)
    → set_resources m work w ≡ ok g
    → (g.W ≡ m.W) × ((v : ℕ) → is_holder g v ≡ true → (is_holder m v || w == v) ≡ true)
unfolding set_resources
set_resources-holders m g work w e = elim (Option-cases m.resources) [
  | inl nothing ↦ let same : g ≡ m = ground arith in rw same (refl, λ v h. ground arith)
  | inr (rm, there) ↦ elim (Outcome-cases (team_of rm work w)) [
    | inr (x, failed) ↦ absurd (ground arith)
    | inl (team, chosen) ↦ elim (Outcome-cases (assign_rsets rm team w)) [
      | inr (x, failed) ↦ absurd (ground arith)
      | inl (rm', made) ↦
          let same : g ≡ record m { resources = some rm' } = ground arith in
          rw same (refl, λ v h. ground (arith, assign_rsets-holders rm rm' team w v made))
    ]
  ]
]

set_worker-holders :
    (w : ℕ) (f : Worker → Worker) (k m : Manager)
    → ((v : ℕ) → is_holder k v ≡ true → (is_holder m v || w == v) ≡ true)
    → (v : ℕ) → is_holder (set_worker w f k) v ≡ true
    → (is_holder m v || w == v) ≡ true
unfolding set_worker
set_worker-holders w f k m holders = holders

abbrev start_clock : ℕ → Worker → Worker
start_clock clock wrk = record wrk { gen_started_time = clock }

get_worker-set_worker :
    (w : ℕ) (f : Worker → Worker) (m : Manager) (wrk : Worker)
    → get_worker m.W w ≡ some wrk
    → get_worker (set_worker w f m).W w ≡ some (f wrk)
unfolding get_worker set_worker
get_worker-set_worker w f m wrk there =
    let at = if m.W.additional_worker then w else w - 1 in
    ground (arith, get_elem?-modify_at m.W.iterable at at f)

-- What `_send_work_order` leaves: new holders are the worker only, and its row is still there.
send_work_order_lem :
    (clock : ℕ) (m g : Manager) (work : Order) (w : ℕ) (wrk : Worker)
    → is_id m.W w ≡ true
    → get_worker m.W w ≡ some wrk
    → send_work_order clock m work w ≡ ok g
    → SameOthers w m g
      × ((v : ℕ) → is_holder g v ≡ true → (is_holder m v || w == v) ≡ true)
      × ((wrk' : Worker) × (get_worker g.W w ≡ some wrk'))
unfolding set_up_order
send_work_order_lem clock m g work w wrk hw there sent =
    let e : set_up_order clock m work w ≡ ok g = send_work_order-set_up clock m g work w sent in
    elim (Outcome-cases (set_resources m work w)) [
      | inr (x, failed) ↦ absurd (ground arith)
      | inl (k, made) ↦
          let set : (k.W ≡ m.W)
              × ((v : ℕ) → is_holder k v ≡ true → (is_holder m v || w == v) ≡ true) =
            set_resources-holders m k work w made in
          let there' : get_worker k.W w ≡ some wrk = rw set.0 there in
          let hw' : is_id k.W w ≡ true = rw set.0 hw in
          let first : SameOthers w m k = rw set.0 ((λ v. refl), λ v hv other. refl) in
          elim (Bool-cases (work.tag == eval_gen_tag)) [
            | inr sim ↦ let same : g ≡ k = ground arith in rw same (first, set.1, (wrk, there'))
            | inl gen ↦
                let same : g ≡ set_worker w (start_clock clock) k = ground arith in
                rw same (
                  SameOthers-trans w m k (set_worker w (start_clock clock) k) first
                      (set_worker-SameOthers w (start_clock clock) k hw'),
                  set_worker-holders w (start_clock clock) k m set.1,
                  (start_clock clock wrk, get_worker-set_worker w (start_clock clock) k wrk there'),
                )
          ]
    ]

update_state_on_alloc-parts :
    (clock : ℕ) (m g : Manager) (work : Order) (w : ℕ)
    → update_state_on_alloc clock m work w ≡ ok g
    → (g.W ≡ (set_worker w (alloc_worker work) m).W) × (g.resources ≡ m.resources)
unfolding update_state_on_alloc set_worker
update_state_on_alloc-parts clock m g work w e = (ground arith, ground arith)

alloc_worker-active : (work : Order) (wrk : Worker) → (alloc_worker work wrk).active ≡ work.tag
unfolding alloc_worker
alloc_worker-active work wrk = ground arith

same_resources :
    (k g : Manager) → g.resources ≡ k.resources → (v : ℕ) → is_holder g v ≡ is_holder k v
same_resources k g e v = rw e

freeup-W : (m : Manager) (w : ℕ) → (freeup_resources m w).W ≡ m.W
unfolding freeup_resources
freeup-W m w = ground arith

freed_others : (w : ℕ) (m g : Manager) → SameOthers w m g → SameOthers w m (freeup_resources g w)
freed_others w m g others = rw (freeup-W g w) others

freed_holders :
    (w : ℕ) (m g : Manager)
    → ((v : ℕ) → is_holder g v ≡ is_holder m v)
    → (v : ℕ) → is_holder (freeup_resources g w) v ≡ true
    → (is_holder m v && not (v == w)) ≡ true
freed_holders w m g same v h = rw (← same v) (freeup-holders g w v h)

-- A work order with a tag, sent and entered in the table: who holds resource sets is busy, the worker
-- that it goes to included.
pub order-IsOwned :
    (clock : ℕ) (m k g : Manager) (work : Order) (w : ℕ) (wrk : Worker)
    → work.tag ≢ 0
    → is_id m.W w ≡ true
    → get_worker m.W w ≡ some wrk
    → IsOwned m
    → send_work_order clock m work w ≡ ok k
    → update_state_on_alloc clock k work w ≡ ok g
    → IsOwned g
order-IsOwned clock m k g work w wrk some_tag hw there owned sent given =
    let (others, holders, (wrk', there')) =
      send_work_order_lem clock m k work w wrk hw there sent in
    let parts = update_state_on_alloc-parts clock k g work w given in
    let hk : is_id k.W w ≡ true = others.0 w ∙ hw in
    let table : SameOthers w k g = rw parts.0 (set_worker-SameOthers w (alloc_worker work) k hk) in
    let busy : is_busy g.W w ≡ true = rw parts.0 (
      set_worker-is_busy_self w (alloc_worker work) k wrk' there'
        (ground (arith, alloc_worker-active work wrk', some_tag))) in
    take-IsOwned w m g hw owned (SameOthers-trans w m k g others table)
      (λ v h. holders v (sym (same_resources k g parts.1 v) ∙ h)) busy

-- A message of a worker: who holds resource sets is busy. A worker whose function has ended, and that
-- does not wait in persistent state, holds none.
pub update_state_on_worker_msg-IsOwned :
    (clock : ℕ) (m : Manager) (msg : Message) (w : ℕ) (g : Manager)
    → msg.calc_type ≢ 0
    → is_id m.W w ≡ true
    → IsOwned m
    → update_state_on_worker_msg clock m msg w ≡ ok g
    → IsOwned g
unfolding update_state_on_worker_msg set_worker
update_state_on_worker_msg-IsOwned clock m msg w g some_type hw owned e =
    let pending = contains w m.persis_pending in
    let settled = set_worker w (settle_worker pending msg) m in
    let first : SameOthers w m settled = set_worker-SameOthers w (settle_worker pending msg) m hw in
    let hs : is_id settled.W w ≡ true = first.0 w ∙ hw in
    elim (Option-cases (get_worker settled.W w)) [
      | inl gone ↦ absurd (ground arith)
      | inr (wrk, there) ↦ elim (Bool-cases (is_finished msg.calc_status)) [
        | inl finished ↦
            elim (Outcome-cases (take_final clock settled msg w wrk.gen_started_time)) [
              | inr (x, failed) ↦ absurd (ground arith)
              | inl (k, made) ↦
                  let open_m = with_hist settled k in
                  let done = set_worker w (finish_worker pending) open_m in
                  let last = record done {
                    persis_pending = filter (λ v. not (v == w)) m.persis_pending;
                  } in
                  let same : g ≡ freeup_resources last w = ground arith in
                  let table : SameOthers w settled done =
                    set_worker-SameOthers w (finish_worker pending) open_m hs in
                  rw same (
                    drop-IsOwned w m (freeup_resources last w) owned
                      (SameOthers-trans w m settled (freeup_resources last w) first
                        (freed_others w settled last table))
                      (freed_holders w m last (λ v. refl)))
            ]
        | inr running ↦ elim (Outcome-cases (take_sim clock settled msg)) [
          | inr (x, failed) ↦ absurd (ground arith)
          | inl (j, made) ↦ elim (Outcome-cases (take_gen clock (with_hist settled j) msg w wrk)) [
            | inr (x, failed) ↦ absurd (ground arith)
            | inl (k, got) ↦ elim (Bool-cases msg.persistent) [
              | inl waits ↦
                  let open_m = with_hist settled k in
                  let done = set_worker w (wait_worker msg) open_m in
                  let same : g ≡ done = ground arith in
                  let table : SameOthers w settled done =
                    set_worker-SameOthers w (wait_worker msg) open_m hs in
                  rw same (
                    take-IsOwned w m done hw owned (SameOthers-trans w m settled done first table)
                      (λ v h. ground arith)
                      (set_worker-is_busy_self w (wait_worker msg) open_m wrk there
                        (ground (arith, some_type))))
              | inr idle ↦
                  let open_m = with_hist settled k in
                  let same : g ≡ freeup_resources open_m w = ground arith in
                  rw same (
                    drop-IsOwned w m (freeup_resources open_m w) owned
                      (SameOthers-trans w m settled (freeup_resources open_m w) first
                        (freed_others w settled open_m ((λ v. refl), λ v hv other. refl)))
                      (freed_holders w m open_m (λ v. refl)))
            ]
          ]
        ]
      ]
    ]
