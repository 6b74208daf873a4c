-- ===== src/Worker/Rounds.antt =====
-- libensemble/worker.py, class Worker: the loop as a whole, for any function of the user that reads and
-- sends messages as it likes.
use libensemble.Base.{
  ℕ, zero, suc, ◌+◌, ◌<◌, ◌≡◌, ◌≢◌, refl, ◌∙◌, Bool, true, false, List, [], ◌∷◌, Option, none, some,
  ◌==◌, ◌||◌, if◌then◌else◌, arith, Bool-cases, Option-cases, inl, inr,
}
use libensemble.Alloc.Workers.{eval_sim_tag, eval_gen_tag}
use libensemble.Comms.{send, recv}
use libensemble.Worker.{
  WorkOrder, Body, finish, kill, unknown, work, rows, Reply, response, error_msg, Result, Messages,
  CalcIter, Step, raised, nothing, bare_rows, only, with_status, with_info, with_both, left_by,
  next, failed, waiting, buffered_status, unpack, recv_H_rows, is_stop, is_stray, RunState,
  finished, errored, blocked, exhausted, handle_calc, handle, fail, discard, after_handle,
  carry_out, turn, run, man_signal_finish,
}
use libensemble.Worker.Replies.{
  unread, is_error, errors, recv_less, send-unread, send-errors, IsQuiet, IsQuiet-trans,
  recv_H_rows-IsQuiet, buffered_status-IsQuiet,
}

abbrev pub is_errored : RunState → Bool
is_errored finished = false
is_errored errored = true
is_errored blocked = false
is_errored exhausted = false

module _ {Data : Type 0} where
  left_by-IsQuiet :
      (out : Result Data) (c before after : Messages Data)
      → IsQuiet c before
      → IsQuiet c after
      → IsQuiet c (left_by out before after)
  left_by-IsQuiet raised c before after p q = p
  left_by-IsQuiet nothing c before after p q = q
  left_by-IsQuiet (bare_rows _) c before after p q = q
  left_by-IsQuiet (only _) c before after p q = q
  left_by-IsQuiet (with_status _ _) c before after p q = q
  left_by-IsQuiet (with_info _ _) c before after p q = q
  left_by-IsQuiet (with_both _ _ _) c before after p q = q

  -- No message to read: recv waits.
  recv-waits : (c : Messages Data) → recv c ≡ none → unread c ≡ 0
  unfolding recv
  recv-waits c e = by_parts c.recv_buffer c.inbox refl refl
    where
      by_parts :
          (b : Option (ℕ × Body Data)) (q : List (ℕ × Body Data))
          → c.recv_buffer ≡ b
          → c.inbox ≡ q
          → unread c ≡ 0
      by_parts none [] at_b at_q = ground arith
      by_parts none (x ∷ q) at_b at_q = absurd (ground arith)
      by_parts (some x) q at_b at_q = absurd (ground arith)

  -- Rows that are waited for: there is no message to read.
  recv_H_rows-waits :
      (no_rows : Data) (order : WorkOrder Data) (c : Messages Data)
      → (recv_H_rows no_rows order c).0 ≡ waiting
      → unread (recv_H_rows no_rows order c).1 ≡ 0
  unfolding recv_H_rows
  recv_H_rows-waits no_rows order c e = by_rows order.H_rows refl
    where
      by_rows : (is : List ℕ) → order.H_rows ≡ is → unread (recv_H_rows no_rows order c).1 ≡ 0
      by_rows [] at = elim (Bool-cases (order.tag == eval_sim_tag || order.tag == eval_gen_tag)) [
        | inl known ↦ absurd (ground arith)
        | inr other ↦ absurd (ground arith)
      ]
      by_rows (i ∷ is) at = elim (Option-cases (recv c)) [
        | inl gone ↦ let none_left = recv-waits c gone in rw (at, gone, recv_H_rows) none_left
        | inr (got, there) ↦
            elim (Bool-cases (order.tag == eval_sim_tag || order.tag == eval_gen_tag)) [
              | inl known ↦ absurd (ground arith)
              | inr other ↦ absurd (ground arith)
            ]
      ]

  -- The loop from a communicator: with enough rounds they do not run out, it waits only when all has been
  -- read, and an error is reported once if it fails.
  abbrev pub EndsWell : ℕ → Messages Data → RunState × CalcIter × Messages Data → Type 0
  EndsWell rounds c r =
      (unread c < rounds → r.0 ≢ exhausted)
      × (r.0 ≡ blocked → unread r.2 ≡ 0)
      × (errors r.2 ≡ errors c + (if is_errored r.0 then 1 else 0))

module _ {Data : Type 0}
    (calc : WorkOrder Data → Body Data → Messages Data → Result Data × Messages Data)
    (no_rows : Data)
    (quiet : (order : WorkOrder Data) (calc_in : Body Data) (c : Messages Data)
      → IsQuiet c (calc order calc_in c).1) where
  handle_calc-IsQuiet :
      (order : WorkOrder Data) (calc_in : Body Data) (c : Messages Data)
      → IsQuiet c (handle_calc calc no_rows order calc_in c).1
  unfolding handle_calc
  handle_calc-IsQuiet order calc_in c =
      let got = calc order calc_in c in
      let buffer = buffered_status got.1 in
      elim (Option-cases (unpack got.0 order buffer.0)) [
        | inl gone ↦
            rw (gone, handle_calc)
              (left_by-IsQuiet got.0 c got.1 buffer.1 (quiet order calc_in c) (
                IsQuiet-trans c got.1 buffer.1 (quiet order calc_in c)
                  (buffered_status-IsQuiet got.1)))
        | inr (out, there) ↦
            rw (there, handle_calc)
              (IsQuiet-trans c got.1 buffer.1 (quiet order calc_in c)
                (buffered_status-IsQuiet got.1))
      ]

  -- What a call of `handle` returns, and the rows that it has read.
  handle-IsQuiet :
      (order : WorkOrder Data) (n : CalcIter) (c : Messages Data)
      → IsQuiet c (handle calc no_rows order (n, c)).2
  unfolding handle
  handle-IsQuiet order n c = by_rows (recv_H_rows no_rows order c).0 refl
    where
      by_rows :
          (got : Step (Body Data))
          → (recv_H_rows no_rows order c).0 ≡ got
          → IsQuiet c (handle calc no_rows order (n, c)).2
      by_rows failed at = rw (at, handle) (recv_H_rows-IsQuiet no_rows order c)
      by_rows waiting at = rw (at, handle) (recv_H_rows-IsQuiet no_rows order c)
      by_rows (next calc_in) at =
          rw (at, handle)
            (IsQuiet-trans c (recv_H_rows no_rows order c).1
              (handle_calc calc no_rows order calc_in (recv_H_rows no_rows order c).1).1
              (recv_H_rows-IsQuiet no_rows order c)
              (handle_calc-IsQuiet order calc_in (recv_H_rows no_rows order c).1))

  handle_calc-ne-waiting :
      (order : WorkOrder Data) (calc_in : Body Data) (c : Messages Data)
      → (handle_calc calc no_rows order calc_in c).0 ≢ waiting
  unfolding handle_calc
  handle_calc-ne-waiting order calc_in c e =
      let got = calc order calc_in c in
      elim (Option-cases (unpack got.0 order (buffered_status got.1).0)) [
        | inl gone ↦ ground arith
        | inr (out, there) ↦ ground arith
      ]

  handle-waits :
      (order : WorkOrder Data) (n : CalcIter) (c : Messages Data)
      → (handle calc no_rows order (n, c)).0 ≡ waiting
      → unread (handle calc no_rows order (n, c)).2 ≡ 0
  unfolding handle
  handle-waits order n c e = by_rows (recv_H_rows no_rows order c).0 refl
    where
      by_rows :
          (got : Step (Body Data))
          → (recv_H_rows no_rows order c).0 ≡ got
          → unread (handle calc no_rows order (n, c)).2 ≡ 0
      by_rows failed at = absurd (ground arith)
      by_rows waiting at = rw (at, handle) (recv_H_rows-waits no_rows order c at)
      by_rows (next calc_in) at =
          absurd
            (handle_calc-ne-waiting order calc_in (recv_H_rows no_rows order c).1 (ground arith))

  handle_calc-reply :
      (order : WorkOrder Data) (calc_in : Body Data) (c : Messages Data) (reply : Reply Data)
      → (handle_calc calc no_rows order calc_in c).0 ≡ next (some reply)
      → is_error (0, reply) ≡ false
  unfolding handle_calc
  handle_calc-reply order calc_in c reply e =
      let got = calc order calc_in c in
      let buffer = buffered_status got.1 in
      elim (Option-cases (unpack got.0 order buffer.0)) [
        | inl gone ↦ absurd (ground arith)
        | inr ((out, info, status), there) ↦ elim (Bool-cases (status == man_signal_finish)) [
          | inl ends ↦ absurd (ground arith)
          | inr goes_on ↦
              let same : reply ≡ response order.tag out info status = ground arith in rw same refl
        ]
      ]

  handle-reply :
      (order : WorkOrder Data) (n : CalcIter) (c : Messages Data) (reply : Reply Data)
      → (handle calc no_rows order (n, c)).0 ≡ next (some reply)
      → is_error (0, reply) ≡ false
  unfolding handle
  handle-reply order n c reply e = by_rows (recv_H_rows no_rows order c).0 refl
    where
      by_rows :
          (got : Step (Body Data))
          → (recv_H_rows no_rows order c).0 ≡ got
          → is_error (0, reply) ≡ false
      by_rows failed at = absurd (ground arith)
      by_rows waiting at = absurd (ground arith)
      by_rows (next calc_in) at =
          handle_calc-reply order calc_in (recv_H_rows no_rows order c).1 reply (ground arith)

  -- What has been read before makes no difference.
  earlier-EndsWell :
      (rounds : ℕ) (c c' : Messages Data) (r : RunState × CalcIter × Messages Data)
      → IsQuiet c c'
      → EndsWell rounds c' r
      → EndsWell rounds c r
  earlier-EndsWell rounds c c' r quiet' ends =
      ((λ h. ends.0 (omega (arith, h, quiet'.0))), ends.1, omega (arith, ends.2, quiet'.1))

  fail-EndsWell :
      (rounds : ℕ) (n : CalcIter) (c : Messages Data) → EndsWell rounds c (fail calc no_rows n c)
  fail-EndsWell rounds n c = (
    (λ h e. ground arith),
    (λ e. absurd (ground arith)),
    ground (arith, send-errors (0, error_msg) c),
  )

  finished-EndsWell :
      (rounds : ℕ) (n : CalcIter) (c : Messages Data) → EndsWell rounds c (finished, n, c)
  finished-EndsWell rounds n c = ((λ h e. ground arith), (λ e. absurd (ground arith)), omega arith)

  blocked-EndsWell :
      (rounds : ℕ) (n : CalcIter) (c : Messages Data)
      → unread c ≡ 0
      → EndsWell rounds c (blocked, n, c)
  blocked-EndsWell rounds n c all_read = ((λ h e. ground arith), (λ e. all_read), omega arith)

  module _ (rounds : ℕ) (rest : CalcIter → Messages Data → RunState × CalcIter × Messages Data)
      (ends : (n : CalcIter) (c : Messages Data) → EndsWell rounds c (rest n c)) where
    discard-EndsWell :
        (order : WorkOrder Data) (n : CalcIter) (c : Messages Data)
        → EndsWell rounds c (discard calc no_rows rest order n c)
    unfolding discard
    discard-EndsWell order n c = by_rows order.H_rows refl (recv_H_rows no_rows order c).0 refl
      where
        by_rows :
            (is : List ℕ)
            → order.H_rows ≡ is
            → (got : Step (Body Data)) → (recv_H_rows no_rows order c).0 ≡ got
            → EndsWell rounds c (discard calc no_rows rest order n c)
        by_rows [] at got e = rw (at, discard) (ends n c)
        by_rows (i ∷ is) at failed e =
            rw (at, e, discard)
              (earlier-EndsWell rounds c (recv_H_rows no_rows order c).1
                (fail calc no_rows n (recv_H_rows no_rows order c).1)
                (recv_H_rows-IsQuiet no_rows order c)
                (fail-EndsWell rounds n (recv_H_rows no_rows order c).1))
        by_rows (i ∷ is) at waiting e =
            rw (at, e, discard)
              (earlier-EndsWell rounds c (recv_H_rows no_rows order c).1
                (blocked, n, (recv_H_rows no_rows order c).1) (recv_H_rows-IsQuiet no_rows order c)
                (blocked-EndsWell rounds n (recv_H_rows no_rows order c).1
                  (recv_H_rows-waits no_rows order c e)))
        by_rows (i ∷ is) at (next body) e =
            rw (at, e, discard)
              (earlier-EndsWell rounds c (recv_H_rows no_rows order c).1
                (rest n (recv_H_rows no_rows order c).1) (recv_H_rows-IsQuiet no_rows order c)
                (ends n (recv_H_rows no_rows order c).1))

    carry_out-EndsWell :
        (order : WorkOrder Data) (n : CalcIter) (c : Messages Data)
        → EndsWell rounds c (carry_out calc no_rows rest order n c)
    unfolding carry_out after_handle
    carry_out-EndsWell order n c =
        let got = handle calc no_rows order (n, c) in
        earlier-EndsWell rounds c got.2 (carry_out calc no_rows rest order n c)
          (handle-IsQuiet order n c) (by_answer got.0 refl)
      where
        by_answer :
            (a : Step (Option (Reply Data)))
            → (handle calc no_rows order (n, c)).0 ≡ a
            → EndsWell rounds
                (handle calc no_rows order (n, c)).2
                (carry_out calc no_rows rest order n c)
        by_answer failed e =
            rw (e, carry_out)
              (fail-EndsWell rounds (handle calc no_rows order (n, c)).1
                (handle calc no_rows order (n, c)).2)
        by_answer waiting e =
            rw (e, carry_out)
              (blocked-EndsWell rounds (handle calc no_rows order (n, c)).1
                (handle calc no_rows order (n, c)).2 (handle-waits order n c e))
        by_answer (next none) e =
            rw (e, carry_out)
              (finished-EndsWell rounds (handle calc no_rows order (n, c)).1
                (handle calc no_rows order (n, c)).2)
        by_answer (next (some reply)) e =
            rw (e, carry_out)
              (earlier-EndsWell rounds (handle calc no_rows order (n, c)).2
                (send (0, reply) (handle calc no_rows order (n, c)).2)
                (rest (handle calc no_rows order (n, c)).1
                  (send (0, reply) (handle calc no_rows order (n, c)).2))
                (
                  omega (arith, send-unread (0, reply) (handle calc no_rows order (n, c)).2),
                  ground (
                    arith,
                    send-errors (0, reply) (handle calc no_rows order (n, c)).2,
                    handle-reply order n c reply e,
                  ),
                )
                (ends (handle calc no_rows order (n, c)).1
                  (send (0, reply) (handle calc no_rows order (n, c)).2)))

    turn-EndsWell :
        (tag : ℕ) (body : Body Data) (n : CalcIter) (c : Messages Data)
        → EndsWell rounds c (turn calc no_rows rest tag body n c)
    unfolding turn
    turn-EndsWell tag finish n c = elim (Bool-cases (is_stop tag)) [
      | inl stop ↦ rw stop (finished-EndsWell rounds n c)
      | inr other ↦ rw other (fail-EndsWell rounds n c)
    ]
    turn-EndsWell tag kill n c = elim (Bool-cases (is_stop tag)) [
      | inl stop ↦ rw stop (ends n c)
      | inr other ↦ rw other (fail-EndsWell rounds n c)
    ]
    turn-EndsWell tag unknown n c = fail-EndsWell rounds n c
    turn-EndsWell tag (rows _) n c = fail-EndsWell rounds n c
    turn-EndsWell tag (work order) n c = elim (Bool-cases (is_stray order)) [
      | inl stray ↦ rw stray (discard-EndsWell order n c)
      | inr meant ↦ rw meant (carry_out-EndsWell order n c)
    ]

  -- For a user's function that takes at most the messages that are there and reports no error itself: with
  -- more rounds than messages the rounds do not run out; when the loop waits for a message, all of them
  -- have been read; and it sends one report of an error if it ends by an exception, and none otherwise.
  pub run-EndsWell :
      (rounds : ℕ) (n : CalcIter) (c : Messages Data)
      → EndsWell rounds c (run calc no_rows rounds n c)
  unfolding run
  run-EndsWell zero n c = ((λ h. absurd (omega arith)), (λ e. absurd (ground arith)), omega arith)
  run-EndsWell (suc rounds) n c = elim (Option-cases (recv c)) [
    | inl gone ↦ rw (gone, run) (blocked-EndsWell (suc rounds) n c (recv-waits c gone))
    | inr ((msg, c'), got) ↦
        let less : (unread c' + 1 ≡ unread c) × (c'.outbox ≡ c.outbox) = recv_less c c' msg got in
        let turned : EndsWell rounds c'
            (turn calc no_rows (run calc no_rows rounds) msg.0 msg.1 n c') =
          turn-EndsWell rounds (run calc no_rows rounds) (run-EndsWell rounds) msg.0 msg.1 n c' in
        rw (got, run)
          ((λ h. turned.0 (omega (arith, h, less.0))), turned.1, turned.2 ∙ rw less.1 refl)
  ]
