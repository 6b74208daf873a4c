-- ===== src/Manager/States.antt =====
-- libensemble/manager.py, class Manager: which states a worker may be in.
use libensemble.Base.{
  ℕ, zero, suc, ◌-◌, ◌≡◌, ◌≢◌, Bool, true, ◌&&◌, not, List, [], ◌∷◌, ok, Outcome-cases,
  Option-cases, Bool-cases, inl, inr, ◌==◌, if◌then◌else◌, All, modify_at, arith, contains, filter,
}
use libensemble.History.{History}
use libensemble.Alloc.{Worker}
use libensemble.Alloc.Workers.{eval_gen_tag}
use libensemble.Alloc.Workers.{get_worker}
use libensemble.Manager.{
  Manager, Order, Message, set_worker, alloc_worker, update_state_on_alloc, set_up_order,
  send_work_order, set_resources, freeup_resources, with_hist,
}
use libensemble.Manager.Messages.{
  settle_worker, finish_worker, wait_worker, update_state_on_worker_msg, take_final, take_sim,
  take_gen, is_finished,
}

-- A worker in active receive is active and in persistent state.
abbrev pub IsConsistent : Worker → Type 0
IsConsistent wrk = wrk.active_recv ≡ true → (wrk.active ≢ 0) × (wrk.persis_state ≢ 0)

unfoldable pub AreConsistent : Manager → Type 0
AreConsistent m = All IsConsistent m.W.iterable

modify_at-All :
    (f : Worker → Worker)
    → ((wrk : Worker) → IsConsistent wrk → IsConsistent (f wrk))
    → (i : ℕ) (ws : List Worker) → All IsConsistent ws
    → All IsConsistent (modify_at i f ws)
modify_at-All f keeps i [] h = tt
modify_at-All f keeps zero (wrk ∷ ws) h = (keeps wrk h.0, h.1)
modify_at-All f keeps (suc i) (wrk ∷ ws) h = (h.0, modify_at-All f keeps i ws h.1)

pub set_worker-AreConsistent :
    (w : ℕ) (f : Worker → Worker) (m : Manager)
    → ((wrk : Worker) → IsConsistent wrk → IsConsistent (f wrk))
    → AreConsistent m
    → AreConsistent (set_worker w f m)
unfolding set_worker AreConsistent
set_worker-AreConsistent w f m keeps h =
    modify_at-All f keeps (if m.W.additional_worker then w else w - 1) m.W.iterable h

freeup-AreConsistent :
    (m : Manager) (w : ℕ) → AreConsistent m → AreConsistent (freeup_resources m w)
unfolding freeup_resources AreConsistent
freeup-AreConsistent m w h = elim (Option-cases m.resources) [
  | inl nothing ↦ rw nothing h
  | inr (manager, there) ↦ rw there h
]

pub hist_kept : (m : Manager) (h : History) → AreConsistent m → AreConsistent (with_hist m h)
unfolding AreConsistent
hist_kept m h c = c

pub table_kept : (m g : Manager) → g.W ≡ m.W → AreConsistent m → AreConsistent g
unfolding AreConsistent
table_kept m g same c = rw same c

pending_kept :
    (m : Manager) (ws : List ℕ) → AreConsistent m → AreConsistent (record m { persis_pending = ws })
unfolding AreConsistent
pending_kept m ws c = c

alloc_worker-IsConsistent :
    (work : Order)
    → work.tag ≢ 0
    → (wrk : Worker) → IsConsistent wrk
    → IsConsistent (alloc_worker work wrk)
unfolding alloc_worker
alloc_worker-IsConsistent work some_tag wrk ok_w = elim (Bool-cases work.persistent) [
  | inl lasting ↦ rw lasting (λ h. (some_tag, some_tag))
  | inr plain ↦ rw plain (λ h. (some_tag, (ok_w h).1))
]

settle_worker-IsConsistent :
    (pending : Bool) (msg : Message) (wrk : Worker)
    → IsConsistent wrk
    → IsConsistent (settle_worker pending msg wrk)
unfolding settle_worker
settle_worker-IsConsistent pending msg wrk ok_w =
    elim (Bool-cases (not pending && not wrk.active_recv && not msg.keep_state)) [
      | inl idle ↦ rw idle (λ h. absurd (ground arith))
      | inr busy ↦ rw busy ok_w
    ]

finish_worker-IsConsistent :
    (pending : Bool) (wrk : Worker) → IsConsistent wrk → IsConsistent (finish_worker pending wrk)
unfolding finish_worker
finish_worker-IsConsistent pending wrk ok_w h = absurd (ground arith)

wait_worker-IsConsistent :
    (msg : Message)
    → msg.calc_type ≢ 0
    → (wrk : Worker) → IsConsistent wrk
    → IsConsistent (wait_worker msg wrk)
wait_worker-IsConsistent msg some_type wrk ok_w h = ((ok_w h).0, some_type)

-- A work order with a tag that is not 0, once it is entered in the table, leaves every worker in active receive active
-- and in persistent state.
pub update_state_on_alloc-AreConsistent :
    (clock : ℕ) (m : Manager) (work : Order) (w : ℕ) (g : Manager)
    → work.tag ≢ 0
    → AreConsistent m
    → update_state_on_alloc clock m work w ≡ ok g
    → AreConsistent g
unfolding update_state_on_alloc AreConsistent
update_state_on_alloc-AreConsistent clock m work w g some_tag h e =
    let table : All IsConsistent (set_worker w (alloc_worker work) m).W.iterable =
      set_worker-AreConsistent w (alloc_worker work) m (alloc_worker-IsConsistent work some_tag)
        h in
    let same : g.W ≡ (set_worker w (alloc_worker work) m).W = ground arith in rw same table

-- An order that is sent was set up.
pub send_work_order-set_up :
    (clock : ℕ) (m g : Manager) (work : Order) (w : ℕ)
    → send_work_order clock m work w ≡ ok g
    → set_up_order clock m work w ≡ ok g
unfolding send_work_order
send_work_order-set_up clock m g work w e = elim (Outcome-cases (set_up_order clock m work w)) [
  | inr (x, failed) ↦ absurd (ground arith)
  | inl (k, made) ↦ ground arith
]

send_work_order-AreConsistent :
    (clock : ℕ) (m g : Manager) (work : Order) (w : ℕ)
    → AreConsistent m
    → send_work_order clock m work w ≡ ok g
    → AreConsistent g
unfolding set_up_order set_resources
send_work_order-AreConsistent clock m g work w h sent =
    let e : set_up_order clock m work w ≡ ok g = send_work_order-set_up clock m g work w sent in
    elim (Outcome-cases (set_resources m work w)) [
      | inr (x, failed) ↦ absurd (ground arith)
      | inl (k, made) ↦
          let same_table : k.W ≡ m.W = ground arith in
          let first : AreConsistent k = table_kept m k same_table h in
          elim (Bool-cases (work.tag == eval_gen_tag)) [
            | inr sim ↦ let same : g ≡ k = ground arith in rw same first
            | inl gen ↦
                let same : g ≡ set_worker w (λ wrk. record wrk { gen_started_time = clock }) k =
                  ground arith in
                rw same (
                  set_worker-AreConsistent w (λ wrk. record wrk { gen_started_time = clock }) k
                    (λ wrk ok_w. ok_w) first)
          ]
    ]

pub order-AreConsistent :
    (clock : ℕ) (m k g : Manager) (work : Order) (w : ℕ)
    → work.tag ≢ 0
    → AreConsistent m
    → send_work_order clock m work w ≡ ok k
    → update_state_on_alloc clock k work w ≡ ok g
    → AreConsistent g
order-AreConsistent clock m k g work w some_tag h sent given =
    update_state_on_alloc-AreConsistent clock k work w g some_tag
      (send_work_order-AreConsistent clock m k work w h sent) given

-- A message of a worker, with a calc_type that is not 0, leaves every worker in active receive active and
-- in persistent state, whatever else it brings.
pub update_state_on_worker_msg-AreConsistent :
    (clock : ℕ) (m : Manager) (msg : Message) (w : ℕ) (g : Manager)
    → msg.calc_type ≢ 0
    → AreConsistent m
    → update_state_on_worker_msg clock m msg w ≡ ok g
    → AreConsistent g
unfolding update_state_on_worker_msg
update_state_on_worker_msg-AreConsistent clock m msg w g some_type h e =
    let pending = contains w m.persis_pending in
    let settled = set_worker w (settle_worker pending msg) m in
    let first : AreConsistent settled =
      set_worker-AreConsistent w (settle_worker pending msg) m
        (settle_worker-IsConsistent pending msg) h in
    elim (Option-cases (get_worker settled.W w)) [
      | inl gone ↦ absurd (ground arith)
      | inr (wrk, there) ↦ elim (Bool-cases (is_finished msg.calc_status)) [
        | inl finished ↦
            elim (Outcome-cases (take_final clock settled msg w wrk.gen_started_time)) [
              | inr (x, failed) ↦ absurd (ground arith)
              | inl (k, made) ↦
                  let done = set_worker w (finish_worker pending) (with_hist settled k) in
                  let last = record done {
                    persis_pending = filter (λ v. not (v == w)) m.persis_pending;
                  } in
                  let same : freeup_resources last w ≡ g = ground arith in
                  rw (← same) (
                    freeup-AreConsistent last w (
                      pending_kept done _ (
                        set_worker-AreConsistent w (finish_worker pending) (with_hist settled k)
                          (finish_worker-IsConsistent pending) (hist_kept settled k first))))
            ]
        | inr running ↦ elim (Outcome-cases (take_sim clock settled msg)) [
          | inr (x, failed) ↦ absurd (ground arith)
          | inl (j, made) ↦ elim (Outcome-cases (take_gen clock (with_hist settled j) msg w wrk)) [
            | inr (x, failed) ↦ absurd (ground arith)
            | inl (k, got) ↦ elim (Bool-cases msg.persistent) [
              | inl waits ↦
                  let same : set_worker w (wait_worker msg) (with_hist settled k) ≡ g =
                    ground arith in
                  rw (← same) (
                    set_worker-AreConsistent w (wait_worker msg) (with_hist settled k)
                      (wait_worker-IsConsistent msg some_type) (hist_kept settled k first))
              | inr idle ↦
                  let same : freeup_resources (with_hist settled k) w ≡ g = ground arith in
                  rw (← same)
                    (freeup-AreConsistent (with_hist settled k) w (hist_kept settled k first))
            ]
          ]
        ]
      ]
    ]
