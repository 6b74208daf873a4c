-- ===== src/History/Runs.antt =====
-- libensemble/history.py, class History: the calls of a whole run, in any order.
use libensemble.Base.{ℕ, ◌<◌, ◌≡◌, Bool, List, Option, ok}
use libensemble.History.{History, SimEntry, Fields, GenOut, Initial, init_history, rows_of}
use libensemble.History.Updates.{
  update_history_x_in, update_history_x_out, update_history_f, update_history_to_gen,
}
use libensemble.History.Ids.{IsHistory, HaveNoIds}
use libensemble.History.Start.{IsNumbered, init_history-IsHistory}
use libensemble.History.Updated.{
  update_history_x_in-IsHistory, update_history_x_out-IsHistory, update_history_f-IsHistory,
  update_history_to_gen-IsHistory,
}

-- One call of a method that returns, from a history to the next. No simulation returns a sim_id.
pub data Step : History → History → Type 0 where
  points_in :
      {h g : History} (worker : ℕ) (D : GenOut) (started t : ℕ)
      → update_history_x_in worker D started t h ≡ ok g
      → Step h g
  points_out :
      {h g : History} (q_inds : List ℕ) (worker : ℕ) (kill_canceled_sims : Bool) (t : ℕ)
      → update_history_x_out q_inds worker kill_canceled_sims t h ≡ ok g
      → Step h g
  results :
      {h g : History} (new_inds : List ℕ) (calc_out : Option (List (List SimEntry))) (kill : Bool)
      (t : ℕ)
      → HaveNoIds calc_out
      → update_history_f new_inds calc_out kill t h ≡ ok g
      → Step h g
  given_back :
      {h g : History} (q_inds : List ℕ) (t : ℕ) → update_history_to_gen q_inds t h ≡ ok g → Step h g

pub data Runs : History → History → Type 0 where
  done : {h : History} → Runs h h
  next : {h g k : History} → Step h g → Runs g k → Runs h k

Step-IsHistory : {h g : History} → Step h g → IsHistory h → IsHistory g
Step-IsHistory {h} {g} (points_in worker D started t e) ok_h =
    update_history_x_in-IsHistory worker D started t h g ok_h e
Step-IsHistory {h} {g} (points_out q_inds worker kill t e) ok_h =
    update_history_x_out-IsHistory q_inds worker kill t h g ok_h e
Step-IsHistory {h} {g} (results new_inds out kill t plain e) ok_h =
    update_history_f-IsHistory new_inds out kill t h g ok_h plain e
Step-IsHistory {h} {g} (given_back q_inds t e) ok_h =
    update_history_to_gen-IsHistory q_inds t h g ok_h e

IsHistory-Runs : {h g : History} → Runs h g → IsHistory h → IsHistory g
IsHistory-Runs done ok_h = ok_h
IsHistory-Runs (next step rest) ok_h = IsHistory-Runs rest (Step-IsHistory step ok_h)

-- After any sequence of calls that return, in which no simulation returns a sim_id, from a history as built
-- with a sim_max that is not 0 and rows H0 numbered by position or not at all, the rows below the index
-- are numbered by position and those from there on have no sim_id.
pub Runs-IsHistory :
    (sim_max : Option ℕ) (fields : Fields) (H0 : Initial) (h : History)
    → 0 < rows_of sim_max
    → IsNumbered H0
    → Runs (init_history sim_max fields H0) h
    → IsHistory h
Runs-IsHistory sim_max fields H0 h positive numbered run =
    IsHistory-Runs run (init_history-IsHistory sim_max fields H0 positive numbered)
