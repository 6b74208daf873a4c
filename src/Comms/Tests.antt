-- ===== src/Comms/Tests.antt =====
-- A communicator with a message that was put back and one in its queue.
use libensemble.Base.{ℕ, ◌≡◌, refl, none, false, [], ◌∷◌, some}
use libensemble.Comms.{QComm, send, recv, push_to_buffer, mail_flag}
use libensemble.Comms.Queues.{contents, view, head_and_rest, recv_refines}

abbrev comm : QComm ℕ ℕ
comm = record { inbox = 8 ∷ []; outbox = []; recv_buffer = some 7 }

abbrev emptied : QComm ℕ ℕ
emptied = record { inbox = 8 ∷ []; outbox = []; recv_buffer = none }

program : Unit {0}
unfolding send recv push_to_buffer mail_flag
program = tt

-- A message in the buffer is no mail.
only_buffered : mail_flag (record comm { inbox = [] }) ≡ false
unfolding program
only_buffered = refl

recv_refines_example : view (recv comm) ≡ head_and_rest (contents comm)
recv_refines_example = recv_refines comm

put_back : contents (push_to_buffer 7 emptied) ≡ contents comm
unfolding program
put_back = refl
