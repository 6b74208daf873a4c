-- ===== src/Manager/LoopTests.antt =====
-- Runs of a manager with two workers: a persistent generator that ends and starts again, and the last
-- receive.
use libensemble.Base.{
  zero, suc, ℕ, ◌≡◌, refl, true, false, List, [], ◌∷◌, Option, none, some, Outcome, ok, raise,
  arith, map, take, pos, All,
}
use libensemble.Resources.RSets.{RSetResources}
use libensemble.Resources.Assignment.{
  ManRSet, ResourceManager, snapshot, take_rset, assign_loop, assign_rsets, free_all, free_worker,
  free_rsets,
}
use libensemble.History.{init_history, prepend_H0, number_from}
use libensemble.History.Updates.{
  update_history_x_in, update_history_x_out, update_history_f, update_history_to_gen, write_points,
  place, make_room, grow_H, set_ids, range_from, new_ids, append_new_fields, write_row, write_rows,
  modify_all, scatter, trim_H,
}
use libensemble.History.Entries.{
  add_fields, user_fields, zeros_like, get_field, fit_value, fit_array, assign_entries,
  assign_entry, set_protected, set_field,
}
use libensemble.History.Ids.{IsHistory}
use libensemble.History.Start.{init_history-IsHistory}
use libensemble.Alloc.Workers.{get_worker}
use libensemble.Manager.{
  Manager, ManagerError, set_worker, check_work_order, team_of, set_resources, freeup_resources,
  set_up_order, send_work_order, alloc_worker, update_state_on_alloc,
}
use libensemble.Manager.Messages.{
  settle_worker, finish_worker, take_final, take_sim, take_gen, update_state_on_worker_msg,
}
use libensemble.Manager.Exit.{term_test, sim_max_given}
use libensemble.Manager.Kill.{kill_cancelled_sims}
use libensemble.Manager.Loop.{
  message, Allocated, handle_msg, receive_from_workers, same_protected, all_protected, overlay,
  alloc_work, give_work, Round, run_round, run,
}
use libensemble.Manager.States.{AreConsistent}
use libensemble.Manager.Owners.{IsOwned}
use libensemble.Manager.Sound.{IsSound, IsAllocFunction, AreMessages}
use libensemble.Manager.Rounds.{run-IsSound}
use libensemble.Manager.Final.{
  uninformed_from, stop_worker, stop_workers, Turn, exit_flag, final_loop, final_receive_and_kill,
}
use libensemble.Manager.Closing.{IsClosed, final_receive_and_kill-IsClosed}
use libensemble.Alloc.{Worker}
use libensemble.Manager.Refusals.{final_receive_and_kill_refused}
use libensemble.Manager.Handshakes.{AreNumbered}
use libensemble.Manager.Tests.{
  idle, manager, gen_order, last_message, exit, after, history, manager-AreConsistent,
}

abbrev rsets_of : List (Option ℕ) → List ManRSet
rsets_of holders =
    map
      (λ holder. record { rset = record { group = 1; slot = 0; gpus = false }; assigned = holder })
      holders

abbrev fixed : RSetResources
fixed = record {
  num_workers = 2;
  num_workers_2assign2 = pos 2;
  total_num_rsets = 2;
  split_list = [];
  local_rsets_list = [];
  rsets_per_node = 2;
  gpu_rsets_per_node = 0;
  nongpu_rsets_per_node = 2;
  all_rsets = [];
  total_num_gpu_rsets = 0;
  total_num_nongpu_rsets = 2;
  gpus_per_rset = 0;
  procs_per_rset = 4;
}

abbrev start : Manager
start = record manager {
  resources = some (record {
    fixed = fixed;
    index_list = some 0 ∷ some 1 ∷ [];
    rsets = rsets_of (none ∷ none ∷ []);
    num_groups = 1;
    rsets_free = pos 2;
    gpu_rsets_free = pos 0;
    nongpu_rsets_free = pos 2;
    even_groups = true;
  });
}

-- Both resource sets for a generator on worker 1, again and again.
abbrev alloc_f : Manager → Allocated
alloc_f m = record {
  rows = take m.hist.index m.hist.H;
  work = (1, record gen_order { rset_team = some (0 ∷ 1 ∷ []) }) ∷ [];
  flag = none;
}

alloc_f-IsAllocFunction : IsAllocFunction false alloc_f
alloc_f-IsAllocFunction = record {
  keeps_ids = λ m. (refl, λ i. refl);
  gives_orders = λ m. ((refl, λ h. ground (arith, h)), tt);
}

abbrev rounds : List Round
rounds =
    record { alloc_f = alloc_f; elapsed = 0; elapsed_after = 1; clock = 5; incoming = [] }
    ∷ record {
      alloc_f = alloc_f;
      elapsed = 2;
      elapsed_after = 3;
      clock = 6;
      incoming = (1, message last_message) ∷ [];
    }
    ∷ []

rounds-AreSound : All (λ r. IsAllocFunction false r.alloc_f × AreMessages false r.incoming) rounds
rounds-AreSound = (
  (alloc_f-IsAllocFunction, tt),
  ((alloc_f-IsAllocFunction, ((refl, ((λ h. ground (arith, h)), tt)), tt)), tt),
)

abbrev final : Manager
final = after start (run exit rounds start)

abbrev held : Option ResourceManager → List (Option ℕ)
held none = []
held (some rm) = map (λ r. r.assigned) rm.rsets

program : Unit {0}
unfolding init_history prepend_H0 number_from update_history_x_in update_history_x_out
    update_history_f update_history_to_gen write_points place make_room grow_H set_ids range_from
    new_ids append_new_fields add_fields user_fields zeros_like get_field fit_value fit_array
    assign_entries assign_entry set_protected write_row write_rows modify_all scatter set_field
    trim_H get_worker set_worker check_work_order team_of set_resources freeup_resources
    set_up_order send_work_order alloc_worker update_state_on_alloc settle_worker finish_worker
    take_final take_sim take_gen update_state_on_worker_msg term_test sim_max_given AreConsistent
    snapshot take_rset assign_loop assign_rsets free_all free_worker free_rsets kill_cancelled_sims
    handle_msg receive_from_workers same_protected all_protected overlay alloc_work give_work
    run_round run IsOwned uninformed_from stop_worker stop_workers exit_flag final_loop
    final_receive_and_kill
program = tt

-- The last point is in, and both resource sets are held again.
holders : held final.resources ≡ some 1 ∷ some 1 ∷ []
unfolding program
holders = refl

history-IsHistory : IsHistory history
history-IsHistory =
    init_history-IsHistory (some 4) []
      (record { rows = []; has_sim_started = false; has_sim_ended = false; has_sim_id = false })
      (omega arith) (λ e. absurd (ground arith))

start-IsSound : IsSound false start
unfolding program
start-IsSound = record {
  table = refl;
  calm = refl;
  consistent = manager-AreConsistent;
  owned = λ w h. absurd (ground (arith, h));
  numbered = history-IsHistory;
}

run-IsSound_example : IsSound false final
unfolding program
run-IsSound_example = run-IsSound false exit rounds start final rounds-AreSound start-IsSound refl

-- The generator ends, and sends its last point.
abbrev turns : List Turn
turns = record { elapsed = 9; clock = 9; incoming = (1, message last_message) ∷ [] } ∷ []

abbrev closed_of : Outcome ManagerError (Option (Manager × ℕ)) → Manager
closed_of (raise e) = start
closed_of (ok none) = start
closed_of (ok (some (g, flag))) = g

abbrev closed : Manager
closed = closed_of (final_receive_and_kill exit 8 none turns final)

final-IsSound : IsSound false final
unfolding program
final-IsSound = run-IsSound false exit rounds start final rounds-AreSound start-IsSound refl

abbrev generator : Worker
generator = record (idle 1) {
  active = 2;
  persis_state = 2;
  active_recv = true;
  gen_started_time = 6;
}

final-AreNumbered : AreNumbered final.W
unfolding program
final-AreNumbered zero wrk there = ground arith
final-AreNumbered (suc zero) wrk there = ground arith
final-AreNumbered (suc (suc k)) wrk there = absurd (ground arith)

final_receive_and_kill-IsClosed_example : IsClosed false closed 0
unfolding program
final_receive_and_kill-IsClosed_example =
    final_receive_and_kill-IsClosed false exit 8 none turns final closed 0 final-AreNumbered
      (((refl, ((λ h. ground (arith, h)), tt)), tt), tt) final-IsSound refl

final_receive_and_kill_refused_example :
    (e : ManagerError) × (final_receive_and_kill exit 8 (some []) turns final ≡ raise e)
unfolding program
final_receive_and_kill_refused_example =
    final_receive_and_kill_refused exit 8 [] turns final 0 generator final-AreNumbered refl
      (λ h. ground (arith, h)) refl
