-- ===== src/Worker/Replies.antt =====
-- libensemble/worker.py, class Worker: how many messages are read, and how many errors are reported.
use libensemble.Base.{
  ℕ, ◌+◌, ◌≤◌, ◌≡◌, refl, ◌∙◌, Bool, true, false, List, [], ◌∷◌, ◌++◌, Option, none, some,
  if◌then◌else◌, length, count, count-append, arith, Option-cases, inl, inr,
}
use libensemble.Comms.{send, recv}
use libensemble.Comms.Queues.{buffered, contents}
use libensemble.Worker.{
  WorkOrder, Body, finish, kill, unknown, work, rows, Reply, response, user_message, error_msg,
  Messages, buffered_status, recv_H_rows,
}

module _ {Data : Type 0} where
  -- How many messages are there to read.
  abbrev pub unread : Messages Data → ℕ
  unread c = length (contents c)

  abbrev pub is_error : ℕ × Reply Data → Bool
  is_error (tag, response _ _ _ _) = false
  is_error (tag, user_message _) = false
  is_error (tag, error_msg) = true

  abbrev pub errors : Messages Data → ℕ
  errors c = count is_error c.outbox

  recv_parts :
      (b : Option (ℕ × Body Data)) (q : List (ℕ × Body Data)) (outs : List (ℕ × Reply Data))
      (msg : ℕ × Body Data) (c' : Messages Data)
      → recv (record { inbox = q; outbox = outs; recv_buffer = b }) ≡ some (msg, c')
      → (unread c' + 1 ≡ length (buffered b ++ q)) × (c'.outbox ≡ outs)
  unfolding recv
  recv_parts none [] outs msg c' e = absurd (ground arith)
  recv_parts none (x ∷ q) outs msg c' e = (ground arith, ground arith)
  recv_parts (some x) q outs msg c' e = (ground arith, ground arith)

  -- A message that is read is one less to read, and nothing is sent.
  pub recv_less :
      (c c' : Messages Data) (msg : ℕ × Body Data)
      → recv c ≡ some (msg, c')
      → (unread c' + 1 ≡ unread c) × (c'.outbox ≡ c.outbox)
  recv_less c c' msg e = recv_parts c.recv_buffer c.inbox c.outbox msg c' e

  pub send-unread : (msg : ℕ × Reply Data) (c : Messages Data) → unread (send msg c) ≡ unread c
  unfolding send
  send-unread msg c = refl

  pub send-errors :
      (msg : ℕ × Reply Data) (c : Messages Data)
      → errors (send msg c) ≡ errors c + (if is_error msg then 1 else 0)
  unfolding send
  send-errors msg c = omega (arith, count-append is_error c.outbox (msg ∷ []))

  -- No more to read than before, and no new report of an error.
  abbrev pub IsQuiet : Messages Data → Messages Data → Type 0
  IsQuiet c c' = (unread c' ≤ unread c) × (errors c' ≡ errors c)

  pub IsQuiet-trans : (a b c : Messages Data) → IsQuiet a b → IsQuiet b c → IsQuiet a c
  IsQuiet-trans a b c p q = (omega (arith, p.0, q.0), q.1 ∙ p.1)

  pub recv-IsQuiet :
      (c c' : Messages Data) (msg : ℕ × Body Data) → recv c ≡ some (msg, c') → IsQuiet c c'
  recv-IsQuiet c c' msg e =
      let less = recv_less c c' msg e in (omega (arith, less.0), rw less.1 refl)

  pub recv_H_rows-IsQuiet :
      (no_rows : Data) (order : WorkOrder Data) (c : Messages Data)
      → IsQuiet c (recv_H_rows no_rows order c).1
  unfolding recv_H_rows
  recv_H_rows-IsQuiet no_rows order c = by_rows order.H_rows refl
    where
      by_rows : (is : List ℕ) → order.H_rows ≡ is → IsQuiet c (recv_H_rows no_rows order c).1
      by_rows [] at = rw (at, recv_H_rows) (omega arith, refl)
      by_rows (i ∷ is) at = elim (Option-cases (recv c)) [
        | inl gone ↦ rw (at, gone, recv_H_rows) (omega arith, refl)
        | inr ((msg, c'), got) ↦ rw (at, got, recv_H_rows) (recv-IsQuiet c c' msg got)
      ]

  pub buffered_status-IsQuiet : (c : Messages Data) → IsQuiet c (buffered_status c).1
  unfolding buffered_status
  buffered_status-IsQuiet c = by_buffer c.recv_buffer refl
    where
      by_buffer : (b : Option (ℕ × Body Data)) → c.recv_buffer ≡ b → IsQuiet c (buffered_status c).1
      by_buffer none at = (ground arith, ground arith)
      by_buffer (some (tag, finish)) at = (ground arith, ground arith)
      by_buffer (some (tag, kill)) at = (ground arith, ground arith)
      by_buffer (some (tag, unknown)) at = (ground arith, ground arith)
      by_buffer (some (tag, work _)) at = (ground arith, ground arith)
      by_buffer (some (tag, rows _)) at = (ground arith, ground arith)
