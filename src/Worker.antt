-- ===== src/Worker.antt =====
-- libensemble/worker.py, class Worker: the loop over work orders. The user's function is a parameter: it
-- reads and writes the communicator, as persistent functions do. Arrays and persis_info are values of a
-- type that is left open. Directories, logging, timing and the passing of resources are left out.
pub mod Replies
pub mod Rounds
pub mod Stream
mod Tests
use libensemble.Base.{
  ℕ, zero, suc, ◌+◌, Bool, true, false, ◌&&◌, ◌||◌, not, List, [], ◌∷◌, ◌++◌, Option, none, some,
  ◌==◌, ltb, if◌then◌else◌, length,
}
use libensemble.Comms.{QComm, send, recv}
use libensemble.Alloc.Workers.{eval_sim_tag, eval_gen_tag}

abbrev pub stop_tag : ℕ
stop_tag = 3

abbrev pub persis_stop : ℕ
persis_stop = 4

abbrev pub unset_tag : ℕ
unset_tag = 0

abbrev pub man_signal_finish : ℕ
man_signal_finish = 20

-- A work order as it is sent; the flags are those of libE_info.
pub record WorkOrder (Data : Type 0) : Type 0 where
  pub tag : ℕ
  pub H_rows : List ℕ
  pub active_recv : Bool
  pub persistent : Bool
  pub persis_info : Data

-- What the manager sends beside a tag: a signal, an order, the rows of an order, or anything else.
pub data Body (Data : Type 0) : Type 0 where
  finish kill unknown : Body Data
  work : WorkOrder Data → Body Data
  rows : Data → Body Data

-- What a worker sends: the response to an order, what a persistent function sends, or WorkerErrMsg.
pub data Reply (Data : Type 0) : Type 0 where
  response :
      (calc_type : ℕ) (calc_out : Option Data) (persis_info : Data) (calc_status : ℕ) → Reply Data
  user_message : Data → Reply Data
  error_msg : Reply Data

-- What the user's function gives: an exception, nothing, an array of several rows by itself, or a tuple of up
-- to three values.
pub data Result (Data : Type 0) : Type 0 where
  raised nothing : Result Data
  bare_rows : Data → Result Data
  only : Data → Result Data
  with_status : Data → ℕ → Result Data
  with_info : Data → Data → Result Data
  with_both : Data → Data → ℕ → Result Data

abbrev pub Messages : Type 0 → Type 0
Messages Data = QComm (ℕ × Body Data) (ℕ × Reply Data)

-- self.calc_iter
pub record CalcIter : Type 0 where
  pub sims : ℕ
  pub gens : ℕ

-- How a part of the loop ends: with a value, by an exception, or waiting for a message.
pub data Step (A : Type 0) : Type 0 where
  next : A → Step A
  failed waiting : Step A

abbrev pub count_calc : ℕ → CalcIter → CalcIter
count_calc tag n =
    if tag == eval_sim_tag then record n { sims = n.sims + 1 } else record n { gens = n.gens + 1 }

abbrev pub is_stop : ℕ → Bool
is_stop tag = tag == stop_tag || tag == persis_stop

module _ {Data : Type 0} where
  -- `recv_buffer` is read once the user's function is back: a finish signal there is the status.
  unfoldable pub buffered_status : Messages Data → ℕ × Messages Data
  buffered_status c = elim c.recv_buffer [
    | none ↦ (unset_tag, c)
    | some (tag, body) ↦
        let read = record c { recv_buffer = none } in
        elim body [
          | finish ↦
              (if tag == stop_tag || tag == persis_stop then man_signal_finish else unset_tag, read)
          | kill ↦ (unset_tag, read)
          | unknown ↦ (unset_tag, read)
          | work _ ↦ (unset_tag, read)
          | rows _ ↦ (unset_tag, read)
        ]
  ]

  -- calc_out, persis_info and calc_status of `_handle_calc`, but for an exception: numpy refuses the truth
  -- value of an array of several rows in `if out:`.
  unfoldable pub unpack : Result Data → WorkOrder Data → ℕ → Option (Option Data × Data × ℕ)
  unpack raised order status = none
  unpack (bare_rows out) order status = none
  unpack nothing order status = some (none, order.persis_info, status)
  unpack (only out) order status = some (some out, order.persis_info, status)
  unpack (with_status out given) order status = some (some out, order.persis_info, given)
  unpack (with_info out info) order status = some (some out, info, status)
  unpack (with_both out info given) order status = some (some out, info, given)

  -- The communicator when `_handle_calc` ends by an exception: the buffer has been read unless it is the
  -- user's.
  abbrev pub left_by : Result Data → Messages Data → Messages Data → Messages Data
  left_by raised before after = before
  left_by nothing before after = after
  left_by (bare_rows _) before after = after
  left_by (only _) before after = after
  left_by (with_status _ _) before after = after
  left_by (with_info _ _) before after = after
  left_by (with_both _ _ _) before after = after

  abbrev pub typed : WorkOrder Data → Body Data → Step (Body Data)
  typed order calc_in =
      if order.tag == eval_sim_tag || order.tag == eval_gen_tag then next calc_in else failed

  -- calc_in: the next message, whatever it is, or an array of no rows.
  unfoldable pub recv_H_rows :
      Data → WorkOrder Data → Messages Data → Step (Body Data) × Messages Data
  recv_H_rows no_rows order c = elim order.H_rows [
    | [] ↦ (typed order (rows no_rows), c)
    | _ ∷ _ ↦ elim (recv c) [ none ↦ (waiting, c) | some ((_, body), c') ↦ (typed order body, c') ]
  ]

  -- The response to an order, or none for the finish signal.
  abbrev pub respond : ℕ → Option Data × Data × ℕ → Option (Reply Data)
  respond calc_type (out, info, status) =
      if status == man_signal_finish then none else some (response calc_type out info status)

  -- The order is for a persistent worker in active receive, and this one is not: it is thrown away.
  abbrev pub is_stray : WorkOrder Data → Bool
  is_stray order = order.active_recv && not order.persistent

-- The loop has ended at a finish signal or by an exception, or it waits in `recv` for a message. `exhausted`
-- is no state of the source: the bound on the rounds was too low.
pub data RunState : Type 0 where
  finished errored blocked exhausted : RunState

module _ {Data : Type 0}
    (calc : WorkOrder Data → Body Data → Messages Data → Result Data × Messages Data)
    (no_rows : Data) where
  -- `_handle_calc` and the rest of `_handle`, for rows that have come.
  unfoldable pub handle_calc :
      WorkOrder Data → Body Data → Messages Data → Step (Option (Reply Data)) × Messages Data
  handle_calc order calc_in c =
      let got = calc order calc_in c in
      let buffer = buffered_status got.1 in
      elim (unpack got.0 order buffer.0) [
        | none ↦ (failed, left_by got.0 got.1 buffer.1)
        | some out ↦ (next (respond order.tag out), buffer.1)
      ]

  -- `_handle`
  unfoldable pub handle :
      WorkOrder Data
      → CalcIter × Messages Data
      → Step (Option (Reply Data)) × CalcIter × Messages Data
  handle order (n, c) =
      let got = recv_H_rows no_rows order c in
      elim got.0 [
        | failed ↦ (failed, n, got.1)
        | waiting ↦ (waiting, n, got.1)
        | next calc_in ↦
            let done = handle_calc order calc_in got.1 in (done.0, count_calc order.tag n, done.1)
      ]

  abbrev pub fail : CalcIter → Messages Data → RunState × CalcIter × Messages Data
  fail n c = (errored, n, send (0, error_msg) c)

  -- An order that is thrown away, with its rows; `rest` are the other turns of the loop.
  unfoldable pub discard :
      (CalcIter → Messages Data → RunState × CalcIter × Messages Data)
      → WorkOrder Data
      → CalcIter
      → Messages Data
      → RunState × CalcIter × Messages Data
  discard rest order n c = elim order.H_rows [
    | [] ↦ rest n c
    | _ ∷ _ ↦
        let got = recv_H_rows no_rows order c in
        elim got.0 [ failed ↦ fail n got.1 | waiting ↦ (blocked, n, got.1) | next _ ↦ rest n got.1 ]
  ]

  -- What the loop does with the outcome of `_handle`.
  unfoldable pub after_handle :
      (CalcIter → Messages Data → RunState × CalcIter × Messages Data)
      → Step (Option (Reply Data)) × CalcIter × Messages Data
      → RunState × CalcIter × Messages Data
  after_handle rest (failed, n, c) = fail n c
  after_handle rest (waiting, n, c) = (blocked, n, c)
  after_handle rest (next none, n, c) = (finished, n, c)
  after_handle rest (next (some reply), n, c) = rest n (send (0, reply) c)

  -- An order that is carried out.
  unfoldable pub carry_out :
      (CalcIter → Messages Data → RunState × CalcIter × Messages Data)
      → WorkOrder Data
      → CalcIter
      → Messages Data
      → RunState × CalcIter × Messages Data
  carry_out rest order n c = after_handle rest (handle order (n, c))

  -- A turn of the loop, with the message that it has read.
  unfoldable pub turn :
      (CalcIter → Messages Data → RunState × CalcIter × Messages Data)
      → ℕ
      → Body Data
      → CalcIter
      → Messages Data
      → RunState × CalcIter × Messages Data
  turn rest tag finish n c = if is_stop tag then (finished, n, c) else fail n c
  turn rest tag kill n c = if is_stop tag then rest n c else fail n c
  turn rest tag unknown n c = fail n c
  turn rest tag (rows _) n c = fail n c
  turn rest tag (work order) n c =
      if is_stray order then discard rest order n c else carry_out rest order n c

  -- `run`: `rounds` bounds the turns of the loop.
  unfoldable pub run : ℕ → CalcIter → Messages Data → RunState × CalcIter × Messages Data
  run zero n c = (exhausted, n, c)
  run (suc rounds) n c = elim (recv c) [
    | none ↦ (blocked, n, c)
    | some ((tag, body), c') ↦ turn (run rounds) tag body n c'
  ]
