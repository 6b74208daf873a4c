-- ===== src/Worker/Tests.antt =====
-- A worker that is given two simulations, of which the first has rows.
use libensemble.Base.{◌==◌, ℕ, ◌≡◌, refl, false, [], ◌∷◌, List, some, arith, if◌then◌else◌}
use libensemble.Comms.{send, recv}
use libensemble.Worker.{
  WorkOrder, Body, finish, kill, unknown, work, rows, Reply, response, Result, raised, only,
  Messages, CalcIter, unset_tag, stop_tag, buffered_status, unpack, recv_H_rows, handle_calc,
  handle, discard, after_handle, carry_out, turn, run,
}
use libensemble.Worker.Replies.{IsQuiet, errors}
use libensemble.Worker.Rounds.{EndsWell, run-EndsWell}
use libensemble.Worker.Stream.{pure_calc, queue}

abbrev order : List ℕ → WorkOrder ℕ
order ids = record {
  tag = 1;
  H_rows = ids;
  active_recv = false;
  persistent = false;
  persis_info = 5;
}

-- The function gives back the rows, and raises an exception for rows 13.
abbrev echo : WorkOrder ℕ → Body ℕ → Result ℕ
echo o (rows n) = if n == 13 then raised else only n
echo o finish = raised
echo o kill = raised
echo o unknown = raised
echo o (work _) = raised

abbrev orders : List (WorkOrder ℕ × ℕ)
orders = (order (4 ∷ []), 40) ∷ (order [], 0) ∷ []

abbrev answers : List (ℕ × Reply ℕ)
answers = (0, response 1 (some 40) 5 unset_tag) ∷ (0, response 1 (some 9) 5 unset_tag) ∷ []

abbrev counted : CalcIter
counted = record { sims = 0; gens = 0 }

program : Unit {0}
unfolding send recv buffered_status unpack recv_H_rows handle_calc handle discard after_handle
    carry_out turn run
program = tt

echo-IsQuiet :
    (o : WorkOrder ℕ) (calc_in : Body ℕ) (c : Messages ℕ)
    → IsQuiet c (pure_calc echo 9 o calc_in c).1
echo-IsQuiet o calc_in c = (omega arith, refl)

abbrev unlucky : Messages ℕ
unlucky = queue ((1, work (order (4 ∷ []))) ∷ (0, rows 13) ∷ (stop_tag, finish) ∷ []) []

-- The exception of the user's function is sent to the manager.
reported : errors (run (pure_calc echo 9) 9 4 counted unlucky).2 ≡ 1
unfolding program
reported = refl

run-EndsWell_example : EndsWell 4 unlucky (run (pure_calc echo 9) 9 4 counted unlucky)
run-EndsWell_example = run-EndsWell (pure_calc echo 9) 9 echo-IsQuiet 4 counted unlucky
