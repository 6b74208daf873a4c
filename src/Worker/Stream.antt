-- ===== src/Worker/Stream.antt =====
-- libensemble/worker.py, class Worker: the answers to a stream of orders.
use libensemble.Base.{
  ℕ, suc, ◌≡◌, true, false, List, [], ◌∷◌, ◌++◌, Option, none, some, ◌==◌, ◌||◌, count,
}
use libensemble.Alloc.Workers.{eval_sim_tag, eval_gen_tag}
use libensemble.Worker.{
  WorkOrder, Body, work, rows, Reply, response, Result, raised, nothing, bare_rows, only,
  with_status, with_info, with_both, Messages, CalcIter, is_stray, count_calc, man_signal_finish,
  unset_tag,
}

module _ {Data : Type 0} where
  -- The message with the rows of an order comes if there are any.
  abbrev pub row_messages : List ℕ → Data → List (ℕ × Body Data)
  row_messages [] calc_in = []
  row_messages (_ ∷ _) calc_in = (0, rows calc_in) ∷ []

  -- An order and its rows, as the manager sends them.
  abbrev pub sent : WorkOrder Data × Data → List (ℕ × Body Data)
  sent (order, calc_in) = (order.tag, work order) ∷ row_messages order.H_rows calc_in

  abbrev pub stream : List (WorkOrder Data × Data) → List (ℕ × Body Data)
  stream [] = []
  stream (o ∷ orders) = sent o ++ stream orders

  abbrev pub queue : List (ℕ × Body Data) → List (ℕ × Reply Data) → Messages Data
  queue inbox outbox = record { inbox = inbox; outbox = outbox; recv_buffer = none }

  -- The output, persis_info and status that a result of the user's function gives for an order: persis_info
  -- is that of the order and the status unset where the function gives none.
  abbrev pub Gives : Result Data → WorkOrder Data → Option Data → Data → ℕ → Type 0
  Gives raised order out info status = ⊥
  Gives (bare_rows _) order out info status = ⊥
  Gives nothing order out info status =
      (out ≡ none) × (info ≡ order.persis_info) × (status ≡ unset_tag)
  Gives (only o) order out info status =
      (out ≡ some o) × (info ≡ order.persis_info) × (status ≡ unset_tag)
  Gives (with_status o s) order out info status =
      (out ≡ some o) × (info ≡ order.persis_info) × (status ≡ s)
  Gives (with_info o p) order out info status = (out ≡ some o) × (info ≡ p) × (status ≡ unset_tag)
  Gives (with_both o p s) order out info status = (out ≡ some o) × (info ≡ p) × (status ≡ s)

  -- The orders with a tag.
  abbrev pub count_tag : ℕ → List (WorkOrder Data × Data) → ℕ
  count_tag tag orders = count (λ o. o.0.tag == tag) orders

  -- What the user's function reads: the rows, or the array of none.
  abbrev pub input : Data → List ℕ → Data → Body Data
  input no_rows [] calc_in = rows no_rows
  input no_rows (_ ∷ _) calc_in = rows calc_in

module _ {Data : Type 0} (f : WorkOrder Data → Body Data → Result Data) (no_rows : Data) where
  -- A function of the user that only computes.
  abbrev pub pure_calc : WorkOrder Data → Body Data → Messages Data → Result Data × Messages Data
  pure_calc order calc_in c = (f order calc_in, c)

  -- An order for a simulation or a generator that the function answers, with no finish signal as status.
  pub record IsAnswered (o : WorkOrder Data × Data) (answer : ℕ × Reply Data) : Type 0 where
    pub known : (o.0.tag == eval_sim_tag || o.0.tag == eval_gen_tag) ≡ true
    pub meant : is_stray o.0 ≡ false
    pub out : Option Data
    pub info : Data
    pub status : ℕ
    pub gives : Gives (f o.0 (input no_rows o.0.H_rows o.1)) o.0 out info status
    pub goes_on : (status == man_signal_finish) ≡ false
    pub answers : answer ≡ (0, response o.0.tag out info status)

  abbrev count_all : List (WorkOrder Data × Data) → CalcIter → CalcIter
  count_all [] n = n
  count_all (o ∷ orders) n = count_all orders (count_calc o.0.tag n)

  abbrev pub AreAnswered : List (WorkOrder Data × Data) → List (ℕ × Reply Data) → Type 0
  AreAnswered [] [] = Unit {0}
  AreAnswered (o ∷ orders) (a ∷ answers) = IsAnswered o a × AreAnswered orders answers
  AreAnswered [] (_ ∷ _) = ⊥
  AreAnswered (_ ∷ _) [] = ⊥

  abbrev pub rounds_for : List (WorkOrder Data × Data) → ℕ → ℕ
  rounds_for [] more = suc more
  rounds_for (_ ∷ orders) more = suc (rounds_for orders more)
