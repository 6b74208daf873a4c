-- ===== src/Manager/KillTests.antt =====
-- Simulations that are cancelled while they run.
use libensemble.Base.{
  zero, suc, if◌then◌else◌, ltb, ℕ, ◌≡◌, refl, true, false, List, [], ◌∷◌, none, some, Outcome, ok,
  raise, arith, map,
}
use libensemble.Resources.Assignment.{
  snapshot, take_rset, assign_loop, assign_rsets, free_all, free_worker, free_rsets,
}
use libensemble.History.{Row, init_history, prepend_H0, number_from, field, scalar}
use libensemble.History.Updates.{
  update_history_x_in, update_history_x_out, update_history_f, update_history_to_gen, write_points,
  place, make_room, grow_H, set_ids, range_from, new_ids, append_new_fields, write_row, write_rows,
  modify_all, scatter, trim_H,
}
use libensemble.History.Entries.{
  add_fields, user_fields, zeros_like, get_field, fit_value, fit_array, assign_entries,
  assign_entry, set_protected, set_field,
}
use libensemble.History.Ids.{IsHistory, sim_id_at}
use libensemble.Alloc.Workers.{get_worker}
use libensemble.Manager.{
  Manager, Order, set_worker, check_work_order, team_of, set_resources, freeup_resources,
  set_up_order, send_work_order, alloc_worker, update_state_on_alloc,
}
use libensemble.Manager.Messages.{
  settle_worker, finish_worker, take_final, take_sim, take_gen, update_state_on_worker_msg,
}
use libensemble.Manager.Exit.{term_test, sim_max_given}
use libensemble.Manager.Kill.{kill_cancelled_sims}
use libensemble.Manager.Signals.{AreSignalled, kill_cancelled_sims_twice}
use libensemble.Manager.Loop.{
  handle_msg, receive_from_workers, same_protected, all_protected, overlay, alloc_work, give_work,
  run_round, run,
}
use libensemble.Manager.States.{AreConsistent}
use libensemble.Manager.Owners.{IsOwned}
use libensemble.Manager.Final.{
  uninformed_from, stop_worker, stop_workers, exit_flag, final_loop, final_receive_and_kill,
}
use libensemble.Manager.Tests.{manager, gen_order, last_message, after}

program : Unit {0}
unfolding init_history prepend_H0 number_from update_history_x_in update_history_x_out
    update_history_f update_history_to_gen write_points place make_room grow_H set_ids range_from
    new_ids append_new_fields add_fields user_fields zeros_like get_field fit_value fit_array
    assign_entries assign_entry set_protected write_row write_rows modify_all scatter set_field
    trim_H get_worker set_worker check_work_order team_of set_resources freeup_resources
    set_up_order send_work_order alloc_worker update_state_on_alloc settle_worker finish_worker
    take_final take_sim take_gen update_state_on_worker_msg term_test sim_max_given AreConsistent
    snapshot take_rset assign_loop assign_rsets free_all free_worker free_rsets kill_cancelled_sims
    handle_msg receive_from_workers same_protected all_protected overlay alloc_work give_work
    run_round run IsOwned uninformed_from stop_worker stop_workers exit_flag final_loop
    final_receive_and_kill
program = tt

-- Two points, of which the second is given out first; both are cancelled while they run.
abbrev cancelled : Row → Row
cancelled r = record r { cancel_requested = true }

abbrev with_points : Manager
with_points =
    record (after manager (
      update_state_on_worker_msg 6 (after manager (update_state_on_alloc 5 manager gen_order 1))
        (record last_message {
          gen_out = some (record {
            sim_ids = none;
            rows = (field 1 (scalar 3) ∷ []) ∷ (field 1 (scalar 4) ∷ []) ∷ [];
          });
        })
        1)) { kill_canceled_sims = true }

abbrev sim_order : ℕ → Order
sim_order i = record {
  tag = 1;
  H_fields = [];
  H_rows = i ∷ [];
  rset_team = none;
  persistent = false;
  active_recv = none;
}

abbrev one_runs : Manager
one_runs = after with_points (update_state_on_alloc 7 with_points (sim_order 1) 1)

abbrev both_run : Manager
both_run = after one_runs (update_state_on_alloc 8 one_runs (sim_order 0) 2)

abbrev cancel : Manager → Manager
cancel m = record m { hist = record m.hist { H = map cancelled m.hist.H } }

abbrev signalled {ℓ} : {E : Type ℓ} → Outcome E (Manager × List ℕ) → List ℕ
signalled (raise e) = []
signalled (ok (g, ws)) = ws

-- The signal for the second point goes out while it is the last one started, and no longer once the
-- first point is started.
killed : signalled (kill_cancelled_sims (cancel one_runs)) ≡ 1 ∷ []
unfolding program
killed = refl

missed : signalled (kill_cancelled_sims (cancel both_run)) ≡ 2 ∷ []
unfolding program
missed = refl

abbrev settled {ℓ} : {E : Type ℓ} → Outcome E (Manager × List ℕ) → Outcome E Manager
settled (raise e) = raise e
settled (ok (g, ws)) = ok g

abbrev after_kill : Manager
after_kill = after (cancel one_runs) (settled (kill_cancelled_sims (cancel one_runs)))

cancelled_ids :
    (i : ℕ)
    → sim_id_at (cancel one_runs).hist.H i
      ≡ (if ltb i (cancel one_runs).hist.index then some i else none)
unfolding program
cancelled_ids zero = refl
cancelled_ids (suc zero) = refl
cancelled_ids (suc (suc zero)) = refl
cancelled_ids (suc (suc (suc zero))) = refl
cancelled_ids (suc (suc (suc (suc i)))) = ground arith

cancelled-IsHistory : IsHistory (cancel one_runs).hist
unfolding program IsHistory
cancelled-IsHistory = (omega arith, cancelled_ids)

kill_cancelled_sims_twice_example :
    AreSignalled (cancel one_runs).hist after_kill.hist.H (1 ∷ [])
    × (kill_cancelled_sims after_kill ≡ ok (after_kill, []))
unfolding program
kill_cancelled_sims_twice_example =
    kill_cancelled_sims_twice (cancel one_runs) after_kill (1 ∷ []) cancelled-IsHistory
      (omega arith) refl refl
