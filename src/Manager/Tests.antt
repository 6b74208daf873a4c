-- ===== src/Manager/Tests.antt =====
-- A manager with two workers, of which the first becomes a persistent generator in active receive.
use libensemble.Base.{
  ℕ, ◌≡◌, refl, true, false, [], ◌∷◌, none, some, Outcome, ok, raise, arith, map,
}
use libensemble.History.{History, blank_row, init_history, prepend_H0, number_from, field, scalar}
use libensemble.History.Updates.{
  update_history_x_in, update_history_x_out, update_history_f, update_history_to_gen, write_points,
  place, make_room, grow_H, set_ids, range_from, new_ids, append_new_fields, write_row, write_rows,
  modify_all, scatter,
}
use libensemble.History.Entries.{
  add_fields, user_fields, zeros_like, get_field, fit_value, fit_array, assign_entries,
  assign_entry, set_protected, set_field,
}
use libensemble.Alloc.{Worker}
use libensemble.Alloc.Workers.{get_worker}
use libensemble.Manager.{
  Manager, assertion_error, Order, Message, finished_persistent_gen, set_worker, check_work_order,
  team_of, set_resources, freeup_resources, set_up_order, send_work_order, alloc_worker,
  update_state_on_alloc,
}
use libensemble.Manager.Messages.{
  settle_worker, finish_worker, take_final, take_sim, take_gen, update_state_on_worker_msg,
}
use libensemble.Manager.Exit.{ExitCriteria, term_test, sim_max_given}
use libensemble.Manager.States.{
  AreConsistent, update_state_on_alloc-AreConsistent, update_state_on_worker_msg-AreConsistent,
}

abbrev pub idle : ℕ → Worker
idle i = record {
  worker_id = i;
  gen_worker = false;
  active = 0;
  persis_state = 0;
  active_recv = false;
  gen_started_time = 0;
  zero_resource_worker = false;
}

abbrev pub history : History
history =
    init_history (some 4) []
      (record { rows = []; has_sim_started = false; has_sim_ended = false; has_sim_id = false })

abbrev pub manager : Manager
manager = record {
  W = record { iterable = idle 1 ∷ idle 2 ∷ []; additional_worker = false };
  hist = history;
  resources = none;
  persis_pending = [];
  kill_canceled_sims = false;
  use_persis_return_gen = true;
  use_persis_return_sim = false;
  worker_exc = false;
}

abbrev pub gen_order : Order
gen_order = record {
  tag = 2;
  H_fields = [];
  H_rows = [];
  rset_team = none;
  persistent = true;
  active_recv = some true;
}

-- The generator ends with a last point.
abbrev pub last_message : Message
last_message = record {
  calc_type = 2;
  calc_status = finished_persistent_gen;
  keep_state = false;
  persistent = false;
  H_rows = [];
  sim_out = none;
  gen_out = some (record { sim_ids = none; rows = (field 1 (scalar 3) ∷ []) ∷ [] });
}

abbrev pub after {ℓ} : {E : Type ℓ} → Manager → Outcome E Manager → Manager
after m (raise e) = m
after m (ok g) = g

abbrev pub busy : Manager
busy = after manager (update_state_on_alloc 5 manager gen_order 1)

abbrev ended : Manager
ended = after busy (update_state_on_worker_msg 6 busy last_message 1)

-- Two rows are given to the run, and nothing is generated.
abbrev prepended : History
prepended = init_history (some 4) [] (record {
  rows = blank_row [] ∷ blank_row [] ∷ [];
  has_sim_started = false;
  has_sim_ended = false;
  has_sim_id = false;
})

abbrev pub exit : ExitCriteria
exit = record { wallclock_max = some 60; sim_max = some 4; gen_max = none; stop_val = none }

program : Unit {0}
unfolding init_history prepend_H0 number_from update_history_x_in update_history_x_out
    update_history_f update_history_to_gen write_points place make_room grow_H set_ids range_from
    new_ids append_new_fields add_fields user_fields zeros_like get_field fit_value fit_array
    assign_entries assign_entry set_protected write_row write_rows modify_all scatter set_field
    get_worker set_worker check_work_order team_of set_resources freeup_resources set_up_order
    send_work_order alloc_worker update_state_on_alloc settle_worker finish_worker take_final
    take_sim take_gen update_state_on_worker_msg term_test sim_max_given AreConsistent
program = tt

-- An active worker in active receive takes only orders for active receive.
refused :
    check_work_order busy (record gen_order { active_recv = none }) 1 false ≡ raise assertion_error
unfolding program
refused = refl

ended_states : map (λ w. w.persis_state) ended.W.iterable ≡ 0 ∷ 0 ∷ []
unfolding program
ended_states = refl

last_point : ended.hist.index ≡ 1
unfolding program
last_point = refl

-- The rows of H0 count as generated points.
stops_at_once : term_test (record exit { gen_max = some 2 }) 0 prepended ≡ 1
unfolding program
stops_at_once = refl

pub manager-AreConsistent : AreConsistent manager
unfolding program
manager-AreConsistent = ((λ h. absurd (ground arith)), ((λ h. absurd (ground arith)), tt))

update_state_on_alloc-AreConsistent_example : AreConsistent busy
unfolding program
update_state_on_alloc-AreConsistent_example =
    update_state_on_alloc-AreConsistent 5 manager gen_order 1 busy (λ h. ground (arith, h))
      manager-AreConsistent refl

busy-AreConsistent : AreConsistent busy
unfolding program
busy-AreConsistent =
    update_state_on_alloc-AreConsistent 5 manager gen_order 1 busy (λ h. ground (arith, h))
      manager-AreConsistent refl

update_state_on_worker_msg-AreConsistent_example : AreConsistent ended
unfolding program
update_state_on_worker_msg-AreConsistent_example =
    update_state_on_worker_msg-AreConsistent 6 busy last_message 1 ended (λ h. ground (arith, h))
      busy-AreConsistent refl
